-- ===== src/Fraction/Values.antt =====
-- The operations of a Fraction compute with its value, a quotient of integers.
use Prim.Native.Nat.{◌∣◌}
use mathlib.Core.Path.{ap₂}
use native.Mathlib.Nat.{
  dvd_refl, mul-div_assoc, mul-pos, mul_comm, dvd-mul_right, dvd_of_mod-eq-zero, dvd-mod_iff,
  mod-lt, div-mul_cancel,
}
use hanabi_bot.Base.{
  ℕ, ℕ_discrete, zero, suc, ◌*◌, ◌/◌, ◌%◌, ◌<◌, ◌≤◌, ◌≡◌, ◌≢◌, refl, sym, ap, ◌∙◌, false, ==_false,
  arith,
}
use hanabi_bot.Base.Int.{ℤ, pos, negsuc, ◌+ℤ◌, ◌*ℤ◌, eq_ℤ, pos_part, ◌≤ℤ◌}
use hanabi_bot.Base.Mul.{
  abs, rem, quot, *ℤ_assoc, *ℤ_cancel, *ℤ_cross, *ℤ_swap, *ℤ_right_comm, +ℤ-*ℤ, pos-*ℤ,
}
use hanabi_bot.Fraction.{Fraction, fraction, Operand, other_f, gcd_within, find_gcd, find_lcm, plus}
use hanabi_bot.Fraction.Reduce.{Scales, reduce-Reduces}

gcd_within_stop : (fuel : ℕ) (a : ℤ) → gcd_within fuel a (pos 0) ≡ a
unfolding gcd_within
gcd_within_stop zero a = refl
gcd_within_stop (suc fuel) a = refl

-- Euclid's algorithm gives a common divisor, within fuel of its second argument.
gcd_within-dvd :
    (fuel a b : ℕ)
    → b ≤ fuel
    → 0 < b
    → (g : ℕ) × (gcd_within fuel (pos a) (pos b) ≡ pos g) × (g ∣ a) × (g ∣ b)
unfolding gcd_within rem
gcd_within-dvd zero a b h p = absurd (omega arith)
gcd_within-dvd (suc fuel) a b h p = elim (ℕ_discrete (a % b) 0) [
  | yes z ↦ (
    b,
    rw (==_false b 0 (λ e. omega arith), z) (gcd_within_stop fuel (pos b)),
    dvd_of_mod-eq-zero b z,
    dvd_refl b,
  )
  | no more ↦
      let (g, e, left, right) =
        gcd_within-dvd fuel b (a % b) (omega (arith, mod-lt a p)) (omega arith) in
      (g, rw (==_false b 0 (λ e. omega arith)) e, (dvd-mod_iff _ left).0 right, left)
]

quotient_pos : (b g : ℕ) → g ∣ b → 0 < b → 0 < b / g
quotient_pos b g d p = grind (arith, div-mul_cancel g d)

-- `find_lcm` gives a common multiple.
find_lcm-multiple :
    (a b : ℕ)
    → 0 < a
    → 0 < b
    → (l : ℕ) × (find_lcm (pos a) (pos b) ≡ pos l) × (0 < l) × (a ∣ l) × (b ∣ l)
unfolding find_lcm find_gcd quot
find_lcm-multiple a b p q =
    let (g, e, left, right) = gcd_within-dvd b a b (omega arith) q in
    let from_b : a * b / g ≡ a * (b / g) = mul-div_assoc g a right in
    let from_a : a * b / g ≡ b * (a / g) =
      ap (λ (n : ℕ). n / g) (mul_comm a b) ∙ mul-div_assoc g b left in
    let l_pos : 0 < a * (b / g) = mul-pos p (quotient_pos b g right q) in
    (
      a * b / g,
      rw (pos-*ℤ a b, e) refl,
      rw from_b l_pos,
      rw from_b (dvd-mul_right a (b / g)),
      rw from_a (dvd-mul_right b (a / g)),
    )

-- An integer of at least 1 is a positive number.
as_pos : (x : ℤ) → pos 1 ≤ℤ x → (n : ℕ) × (x ≡ pos n) × (0 < n)
as_pos (pos n) h = (n, refl, omega arith)
as_pos (negsuc n) h = absurd (omega arith)

not_zero : (x : ℤ) → pos 1 ≤ℤ x → x ≢ pos 0
not_zero x h e = omega (arith, h, ap abs e, ap pos_part e)

not_eq_zero : (x : ℤ) → pos 1 ≤ℤ x → eq_ℤ x (pos 0) ≡ false
not_eq_zero (pos n) h = ground arith
not_eq_zero (negsuc n) h = refl

-- `find_lcm` of positive integers is a positive common multiple.
find_lcm_lem :
    (x y : ℤ)
    → pos 1 ≤ℤ x
    → pos 1 ≤ℤ y
    → (pos 1 ≤ℤ find_lcm x y)
      × (quot (find_lcm x y) x *ℤ x ≡ find_lcm x y)
      × (quot (find_lcm x y) y *ℤ y ≡ find_lcm x y)
unfolding quot
find_lcm_lem x y p q =
    let (a, ea, a_pos) = as_pos x p in
    let (b, eb, b_pos) = as_pos y q in
    let (l, e, l_pos, left, right) = find_lcm-multiple a b a_pos b_pos in
    rw (ea, eb, e)
      (
        omega (arith, l_pos),
        pos-*ℤ (l / a) a ∙ ap pos (div-mul_cancel a left),
        pos-*ℤ (l / b) b ∙ ap pos (div-mul_cancel b right),
      )

-- The numerators of a sum over a common multiple `l` of the denominators, against the product of the
-- denominators.
common_denominator :
    (a b x y l u v : ℤ)
    → u *ℤ x ≡ l
    → v *ℤ y ≡ l
    → (a *ℤ u +ℤ b *ℤ v) *ℤ (x *ℤ y) ≡ (a *ℤ y +ℤ b *ℤ x) *ℤ l
common_denominator a b x y l u v eu ev =
    +ℤ-*ℤ (a *ℤ u) (b *ℤ v) (x *ℤ y)
    ∙ ap₂ ◌+ℤ◌ (*ℤ_cross a u x y ∙ ap (λ (t : ℤ). a *ℤ y *ℤ t) eu) right
    ∙ sym (+ℤ-*ℤ (a *ℤ y) (b *ℤ x) l)
  where
    right : b *ℤ v *ℤ (x *ℤ y) ≡ b *ℤ x *ℤ l
    right = *ℤ_swap b v x y ∙ ap (λ (t : ℤ). b *ℤ x *ℤ t) ev

-- A fraction scaled down keeps its cross products.
pub Scales-cross :
    (f r : Fraction) (k n d : ℤ)
    → Scales f r k
    → f.numerator *ℤ d ≡ n *ℤ f.denominator
    → r.numerator *ℤ d ≡ n *ℤ r.denominator
Scales-cross f r k n d (h, top, bottom) e = *ℤ_cancel (r.numerator *ℤ d) (n *ℤ r.denominator) k h (
    *ℤ_right_comm r.numerator d k
    ∙ ap (λ (t : ℤ). t *ℤ d) (sym top)
    ∙ e
    ∙ ap (λ (t : ℤ). n *ℤ t) bottom
    ∙ sym (*ℤ_assoc n r.denominator k))

-- For positive denominators, `plus` gives the sum of the values, over a positive denominator.
pub plus_lem :
    (x : Fraction) (y : Operand)
    → pos 1 ≤ℤ x.denominator
    → pos 1 ≤ℤ (other_f y).denominator
    → (r : Fraction) × (plus x y ≡ fraction r)
      × (pos 1 ≤ℤ r.denominator)
      × (r.numerator *ℤ (x.denominator *ℤ (other_f y).denominator)
          ≡ (x.numerator *ℤ (other_f y).denominator +ℤ (other_f y).numerator *ℤ x.denominator)
            *ℤ r.denominator)
unfolding plus
plus_lem x y p q =
    let z : Fraction = other_f y in
    let (l_pos, left, right) = find_lcm_lem x.denominator z.denominator p q in
    let l : ℤ = find_lcm x.denominator z.denominator in
    let u : ℤ = quot l x.denominator in
    let v : ℤ = quot l z.denominator in
    let total : Fraction = record {
      numerator = x.numerator *ℤ u +ℤ z.numerator *ℤ v;
      denominator = l;
    } in
    let (r, e, (k, scales, keeps, lowest)) = reduce-Reduces total (not_zero l l_pos) in
    (
      r,
      rw (not_eq_zero x.denominator p, not_eq_zero z.denominator q) e,
      keeps l_pos,
      Scales-cross total r k _ _ scales
          (common_denominator x.numerator z.numerator x.denominator z.denominator l u v left right),
    )
