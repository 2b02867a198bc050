-- ===== src/Fraction/Reduce.antt =====
-- `reduce` ends on every fraction but 0/0, and what its result is.
use Prim.Native.Nat.{◌∣◌}
use mathlib.Core.Path.{ap₂}
use native.Mathlib.Nat.{
  eq-one_of_dvd-one, div-mul_cancel, mul-le-mul_left, dvd_trans, le_of_dvd, dvd_of_mod-eq-zero,
  mod-eq-zero_of_dvd,
}
use hanabi_bot.Base.{
  ℕ, ℕ_discrete, ◌-◌, ◌/◌, ◌%◌, zero, suc, ◌+◌, ◌*◌, ◌≡◌, ◌≢◌, refl, sym, ap, ◌∙◌, ◌↔◌, true, false,
  ◌&&◌, none, arith, Bool-cases, Option-cases, inl, inr, ◌≤◌, ◌<◌,
}
use hanabi_bot.Base.Int.{ℤ, pos, negsuc, ◌*ℤ◌, ltb_ℤ, leb_ℤ, ◌≤ℤ◌}
use hanabi_bot.Base.Mul.{
  abs, rem, quot, divides, quot-divides, divides-nonzero, divides-dvd, *ℤ_assoc, *ℤ_comm, *ℤ-one,
  abs-*ℤ, abs_zero, nonzero-*ℤ,
}
use hanabi_bot.Fraction.Loop.{common_from-divides, common_from-none}
use hanabi_bot.Fraction.{Fraction, over, fraction, endless, common_from, reduce_within, reduce}

-- `f` is `r` with both parts multiplied by `k`.
abbrev pub Scales : Fraction → Fraction → ℤ → Type 0
Scales f r k = (k ≢ pos 0) × (f.numerator ≡ r.numerator *ℤ k) × (f.denominator ≡ r.denominator *ℤ k)

over-Scales :
    (f : Fraction) (k : ℤ)
    → divides k f.denominator ≡ true
    → divides k f.numerator ≡ true
    → Scales f (over f k) k
over-Scales f k d n = (
  divides-nonzero k f.denominator d,
  sym (quot-divides k f.numerator n),
  sym (quot-divides k f.denominator d),
)

pub Scales-trans : (f g r : Fraction) (a b : ℤ) → Scales f g a → Scales g r b → Scales f r (b *ℤ a)
Scales-trans f g r a b (na, pa, qa) (nb, pb, qb) =
    (nonzero-*ℤ b a nb na, rw (pa, pb) (*ℤ_assoc _ b a), rw (qa, qb) (*ℤ_assoc _ b a))

-- The measure of the recursion.
size : Fraction → ℕ
size f = abs f.numerator + abs f.denominator

over-size :
    (f : Fraction) (k : ℕ)
    → 2 ≤ k
    → divides (pos k) f.denominator ≡ true
    → divides (pos k) f.numerator ≡ true
    → 0 < size f
    → size (over f (pos k)) < size f
unfolding size
over-size f k two d n h =
    let whole = shrink f.numerator n in let part = shrink f.denominator d in omega (arith, h)
  where
    shrink :
        (a : ℤ) → divides (pos k) a ≡ true → (abs (quot a (pos k)) + abs (quot a (pos k)) ≤ abs a)
    shrink a e =
        let exact = abs-*ℤ (quot a (pos k)) (pos k) in
        let grows = mul-le-mul_left (abs (quot a (pos k))) two in
        omega (arith, ap abs (quot-divides (pos k) a e))

-- Numerator and denominator have no common divisor but 1.
abbrev pub LowestTerms : Fraction → Type 0
LowestTerms f = (j : ℕ) → j ∣ abs f.numerator → j ∣ abs f.denominator → j ≡ 1

dvd-divides : (j : ℕ) (a : ℤ) → 0 < j → pos 1 ≤ℤ a → j ∣ abs a → divides (pos j) a ≡ true
unfolding divides rem
dvd-divides j (pos n) h p d = ground (arith, mod-eq-zero_of_dvd j d)
dvd-divides j (negsuc n) h p d = absurd (omega arith)

-- What is left when no branch of `reduce` applies.
no_common-LowestTerms :
    (f : Fraction)
    → pos 1 ≤ℤ f.numerator
    → pos 1 ≤ℤ f.denominator
    → (divides (pos 2) f.denominator && divides (pos 2) f.numerator) ≡ false
    → common_from f (abs f.numerator) (pos 3) ≡ none
    → LowestTerms f
no_common-LowestTerms f p q even odd j dn dd = elim (ℕ_discrete (j % 2) 0) [
  | yes two ↦
      let twice = dvd_of_mod-eq-zero 2 two in
      let both =
        ap₂ ◌&&◌ (dvd-divides 2 f.denominator (omega arith) q (dvd_trans 2 twice dd))
          (dvd-divides 2 f.numerator (omega arith) p (dvd_trans 2 twice dn)) in
      absurd (ground (arith, both))
  | no two ↦ elim (ℕ_discrete j 1) [
    | yes one ↦ one
    | no more ↦
        let e : j ≡ 3 + (j - 3) / 2 + (j - 3) / 2 = omega arith in
        let small_n = le_of_dvd (positive f.numerator p) dn in
        let small_d = le_of_dvd (positive f.denominator q) dd in
        let miss =
          common_from-none f (abs f.numerator) 3 ((j - 3) / 2) odd (omega (arith, small_n))
            (rw (← e) (within f.numerator p small_n)) (rw (← e) (within f.denominator q small_d))
            (rw (← e) (dvd-divides j f.denominator (omega arith) q dd)) in
        let hit = dvd-divides j f.numerator (omega arith) p dn in
        absurd (ground (arith, hit, rw (← e) at (miss)))
  ]
]
  where
    positive : (a : ℤ) → pos 1 ≤ℤ a → 0 < abs a
    positive (pos n) h = omega arith
    positive (negsuc n) h = absurd (omega arith)

    within : (a : ℤ) → pos 1 ≤ℤ a → j ≤ abs a → leb_ℤ (pos j) a ≡ true
    within (pos n) h lt = ground arith
    within (negsuc n) h lt = absurd (omega arith)

abbrev pub Reduces : Fraction → Fraction → Type 0
Reduces f r =
    (k : ℤ) × Scales f r k
    × (pos 1 ≤ℤ f.denominator → pos 1 ≤ℤ r.denominator)
    × (pos 1 ≤ℤ f.numerator → pos 1 ≤ℤ f.denominator → LowestTerms r)

quot_positive : (k : ℕ) (a : ℤ) → divides (pos k) a ≡ true → pos 1 ≤ℤ a → pos 1 ≤ℤ quot a (pos k)
unfolding quot
quot_positive k (pos n) d p = grind (arith, div-mul_cancel k (divides-dvd (pos k) (pos n) d))
quot_positive k (negsuc n) d p = absurd (omega arith)

-- One division of both parts, followed by a reduction.
over-Reduces :
    (f r : Fraction) (k : ℕ)
    → divides (pos k) f.denominator ≡ true
    → divides (pos k) f.numerator ≡ true
    → Reduces (over f (pos k)) r
    → Reduces f r
over-Reduces f r k d n (c, scales, positive, lowest) = (
  c *ℤ pos k,
  Scales-trans f (over f (pos k)) r (pos k) c (over-Scales f (pos k) d n) scales,
  λ q. positive (quot_positive k f.denominator d q),
  λ p q. lowest (quot_positive k f.numerator n p) (quot_positive k f.denominator d q),
)

self-Reduces :
    (f : Fraction)
    → (divides (pos 2) f.denominator && divides (pos 2) f.numerator) ≡ false
    → common_from f (abs f.numerator) (pos 3) ≡ none
    → Reduces f f
self-Reduces f even odd = (
  pos 1,
  (λ e. ground arith, sym (*ℤ-one f.numerator), sym (*ℤ-one f.denominator)),
  λ q. q,
  λ p q. no_common-LowestTerms f p q even odd,
)

whole-Reduces :
    (f : Fraction)
    → divides f.denominator f.numerator ≡ true
    → Reduces f (record { numerator = quot f.numerator f.denominator; denominator = pos 1 })
whole-Reduces f d = (
  f.denominator,
  (
    divides-nonzero f.denominator f.numerator d,
    sym (quot-divides f.denominator f.numerator d),
    sym (*ℤ_comm (pos 1) f.denominator ∙ *ℤ-one f.denominator),
  ),
  λ q. omega arith,
  λ p q j dn dd. eq-one_of_dvd-one dd,
)

over-positive :
    (f : Fraction) (k : ℕ)
    → divides (pos k) f.denominator ≡ true
    → divides (pos k) f.numerator ≡ true
    → 0 < size f
    → 0 < size (over f (pos k))
unfolding size
over-positive f k d n h = elim (ℕ_discrete (size (over f (pos k))) 0) [
  | no more ↦ omega (arith, more)
  | yes z ↦
      let top = vanishes f.numerator n (omega (arith, z)) in
      let bottom = vanishes f.denominator d (omega (arith, z)) in
      absurd (omega (arith, h, top, bottom))
]
  where
    vanishes : (a : ℤ) → divides (pos k) a ≡ true → abs (quot a (pos k)) ≡ 0 → abs a ≡ 0
    vanishes a e z = omega (
      arith,
      ap abs (sym (quot-divides (pos k) a e)) ∙ abs-*ℤ (quot a (pos k)) (pos k),
      ap (λ (n : ℕ). n * k) z,
    )

-- A recursive call of `reduce`, from what it does on the smaller fraction.
divided_call :
    (fuel : ℕ) (f : Fraction) (k : ℕ)
    → (size (over f (pos k)) < fuel
        → 0 < size (over f (pos k))
        → (r : Fraction) × (reduce_within fuel (over f (pos k)) ≡ fraction r)
          × Reduces (over f (pos k)) r)
    → 2 ≤ k
    → divides (pos k) f.denominator ≡ true
    → divides (pos k) f.numerator ≡ true
    → size f < suc fuel
    → 0 < size f
    → (r : Fraction) × (reduce_within fuel (over f (pos k)) ≡ fraction r) × Reduces f r
divided_call fuel f k ih two d n lt h =
    let smaller = over-size f k two d n h in
    let (r, e, reduces) = ih (omega arith) (over-positive f k d n h) in
    (r, e, over-Reduces f r k d n reduces)

reduce_within-Reduces :
    (fuel : ℕ) (f : Fraction)
    → size f < fuel
    → 0 < size f
    → (r : Fraction) × (reduce_within fuel f ≡ fraction r) × Reduces f r
unfolding reduce_within
reduce_within-Reduces zero f lt h = absurd (omega arith)
reduce_within-Reduces (suc fuel) f lt h =
    elim (Bool-cases (ltb_ℤ f.denominator f.numerator && divides f.denominator f.numerator)) [
      | inl whole ↦
          let r : Fraction = record {
            numerator = quot f.numerator f.denominator;
            denominator = pos 1;
          } in
          (r, rw whole refl, whole-Reduces f (ground (arith, whole)))
      | inr w ↦ elim (Bool-cases (divides (pos 2) f.denominator && divides (pos 2) f.numerator)) [
        | inl even ↦
            let (r, e, reduces) =
              divided_call fuel f 2 (reduce_within-Reduces fuel (over f (pos 2))) (omega arith)
                (ground (arith, even)) (ground (arith, even)) lt h in
            (r, rw (w, even) e, reduces)
        | inr uneven ↦ elim (Option-cases (common_from f (abs f.numerator) (pos 3))) [
          | inl end ↦ (f, rw (w, uneven, end) refl, self-Reduces f uneven end)
          | inr (i, found) ↦
              let (j, same, three, d, n) =
                common_from-divides f (abs f.numerator) 3 i (omega arith) found in
              let (r, e, reduces) =
                divided_call fuel f j (reduce_within-Reduces fuel (over f (pos j))) (omega arith) d
                  n lt h in
              (r, rw (w, uneven, found, same) e, reduces)
        ]
      ]
    ]

abbrev zero_over_zero : Fraction
zero_over_zero = record { numerator = pos 0; denominator = pos 0 }

-- Each call halves 0/0 into itself.
zero-endless : (fuel : ℕ) → reduce_within fuel zero_over_zero ≡ endless
unfolding reduce_within divides rem quot
zero-endless zero = refl
zero-endless (suc fuel) = zero-endless fuel

abs-zero : (a : ℤ) → abs a ≡ 0 → a ≡ pos 0
abs-zero (pos n) e = ap pos e
abs-zero (negsuc n) e = absurd (omega arith)

empty-endless : (f : Fraction) → size f ≡ 0 → (fuel : ℕ) → reduce_within fuel f ≡ endless
unfolding size
empty-endless f e fuel = ap (reduce_within fuel) same ∙ zero-endless fuel
  where
    same : f ≡ zero_over_zero
    same = λ i. record {
      numerator = abs-zero f.numerator (omega (arith, e)) i;
      denominator = abs-zero f.denominator (omega (arith, e)) i;
    }

-- `reduce` ends on every fraction but 0/0, on which no number of calls is enough.
pub reduce-endless_iff :
    (f : Fraction)
    → ((reduce f ≡ endless) ↔ ((f.numerator ≡ pos 0) × (f.denominator ≡ pos 0)))
      × (reduce f ≡ endless → (fuel : ℕ) → reduce_within fuel f ≡ endless)
unfolding reduce size
reduce-endless_iff f = (
  (
    λ e.
        let z = empty e in
        (abs-zero f.numerator (omega (arith, z)), abs-zero f.denominator (omega (arith, z))),
    λ z. empty-endless f (omega (arith, ap abs z.0, ap abs z.1)) _,
  ),
  λ e. empty-endless f (empty e),
)
  where
    empty : reduce f ≡ endless → size f ≡ 0
    empty e = elim (ℕ_discrete (size f) 0) [
      | yes z ↦ z
      | no more ↦
          let (r, result, reduces) =
            reduce_within-Reduces (abs f.numerator + abs f.denominator + 1) f (omega arith)
              (omega (arith, more)) in
          absurd (ground (arith, sym e ∙ result))
    ]

-- The result of `reduce` is the fraction divided by an integer that is not 0; it keeps a positive
-- denominator, and it is in lowest terms if the fraction is positive.
pub reduce-Reduces :
    (f : Fraction) → f.denominator ≢ pos 0 → (r : Fraction) × (reduce f ≡ fraction r) × Reduces f r
unfolding reduce size
reduce-Reduces f h = elim (abs_zero f.denominator) [
  | inl z ↦ absurd (h z)
  | inr p ↦ reduce_within-Reduces _ f (omega arith) (omega (arith, p))
]
