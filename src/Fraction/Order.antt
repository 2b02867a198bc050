-- ===== src/Fraction/Order.antt =====
-- The comparisons of fractions go by the cross products.
use native.Mathlib.Nat.{mul-lt-mul_of_pos_right, mul-pos}
use hanabi_bot.Base.{
  ℕ, ℕ_discrete, dec_lt, zero, suc, ◌+◌, ◌*◌, ◌<◌, ◌≡◌, refl, sym, ap, ◌∙◌, some, arith, ltb, ◌==◌,
}
use hanabi_bot.Base.Int.{
  ℤ, pos, negsuc, ◌+ℤ◌, ◌*ℤ◌, ltb_ℤ, eq_ℤ, ◌≤ℤ◌, pos_part, neg_part, +ℤ_parts, eq_of_parts,
}
use hanabi_bot.Base.Mul.{neg_ℤ, products}
use hanabi_bot.Fraction.{Fraction, Operand, ratio, other_f, subtract, less_than, equals}
use hanabi_bot.Fraction.Values.{plus_lem}

eq_ℤ_parts : (a b : ℤ) → eq_ℤ a b ≡ ((pos_part a + neg_part b) == (pos_part b + neg_part a))
eq_ℤ_parts (pos m) (pos n) = ground arith
eq_ℤ_parts (pos m) (negsuc n) = ground arith
eq_ℤ_parts (negsuc m) (pos n) = ground arith
eq_ℤ_parts (negsuc m) (negsuc n) = ground arith

-- The tests on two numbers go by their difference.
same_tests : (a b c d : ℕ) → a + d ≡ b + c → (ltb a b ≡ ltb c d) × ((a == b) ≡ (c == d))
same_tests a b c d e = (ground arith, ground arith)

scaled_tests : (a b k : ℕ) → 0 < k → (ltb (a * k) (b * k) ≡ ltb a b) × ((a * k == b * k) ≡ (a == b))
scaled_tests a b k h = elim (ℕ_discrete a b) [
  | yes e ↦ rw e (ground arith, ground arith)
  | no ne ↦ elim (dec_lt a b) [
    | yes lt ↦ let more = mul-lt-mul_of_pos_right lt h in (ground arith, ground arith)
    | no ge ↦
        let lt : b < a = omega arith in
        let more = mul-lt-mul_of_pos_right lt h in (ground arith, ground arith)
  ]
]

-- Tests that two pairs of integers pass alike.
abbrev pub Alike : ℤ → ℤ → ℤ → ℤ → Type 0
Alike a b c d = (ltb_ℤ a b ≡ ltb_ℤ c d) × (eq_ℤ a b ≡ eq_ℤ c d)

by_parts :
    (a b c d : ℤ)
    → (ltb (pos_part a + neg_part b) (pos_part b + neg_part a)
        ≡ ltb (pos_part c + neg_part d) (pos_part d + neg_part c))
      × ((pos_part a + neg_part b == pos_part b + neg_part a)
          ≡ (pos_part c + neg_part d == pos_part d + neg_part c))
    → Alike a b c d
by_parts a b c d (lt, eq) = (lt, eq_ℤ_parts a b ∙ eq ∙ sym (eq_ℤ_parts c d))

neg_ℤ_parts : (a : ℤ) → (pos_part (neg_ℤ a) ≡ neg_part a) × (neg_part (neg_ℤ a) ≡ pos_part a)
neg_ℤ_parts (pos zero) = (refl, refl)
neg_ℤ_parts (pos (suc n)) = (refl, refl)
neg_ℤ_parts (negsuc n) = (refl, refl)

neg_ℤ-*ℤ : (a b : ℤ) → neg_ℤ a *ℤ b ≡ neg_ℤ (a *ℤ b)
neg_ℤ-*ℤ a b = eq_of_parts _ _ (
    rw ((neg_ℤ_parts (a *ℤ b)).0, (neg_ℤ_parts (a *ℤ b)).1)
      (simp products (rw ((neg_ℤ_parts a).0, (neg_ℤ_parts a).1) (omega arith))))

difference-Alike : (a b : ℤ) → Alike (a +ℤ neg_ℤ b) (pos 0) a b
difference-Alike a b =
    by_parts (a +ℤ neg_ℤ b) (pos 0) a b
      (same_tests _ _ _ _ (omega (arith, +ℤ_parts a (neg_ℤ b), neg_ℤ_parts b)))

product-Alike : (x k : ℤ) → pos 1 ≤ℤ k → Alike (x *ℤ k) (pos 0) x (pos 0)
product-Alike x (negsuc n) h = absurd (omega arith)
product-Alike x (pos n) h = by_parts (x *ℤ pos n) (pos 0) x (pos 0) (
    rw (top, bottom, add_zero (pos_part x), zero_add (neg_part x))
      (scaled_tests (pos_part x) (neg_part x) n (omega arith)))
  where
    top : pos_part (x *ℤ pos n) + 0 ≡ pos_part x * n
    top = simp products (omega arith)

    bottom : 0 + neg_part (x *ℤ pos n) ≡ neg_part x * n
    bottom = simp products (omega arith)

    add_zero : (a : ℕ) → a + 0 ≡ a
    add_zero a = omega arith

    zero_add : (a : ℕ) → 0 + a ≡ a
    zero_add a = omega arith

-- The numerator of a difference, after it has been reduced.
difference_sign :
    (r k d a b : ℤ) → pos 1 ≤ℤ k → pos 1 ≤ℤ d → r *ℤ k ≡ (a +ℤ neg_ℤ b) *ℤ d → Alike r (pos 0) a b
difference_sign r k d a b kp dp e =
    let left = product-Alike r k kp in
    let right = product-Alike (a +ℤ neg_ℤ b) d dp in
    let apart = difference-Alike a b in
    (
      sym left.0 ∙ ap (λ (t : ℤ). ltb_ℤ t (pos 0)) e ∙ right.0 ∙ apart.0,
      sym left.1 ∙ ap (λ (t : ℤ). eq_ℤ t (pos 0)) e ∙ right.1 ∙ apart.1,
    )

product_pos : (a b : ℤ) → pos 1 ≤ℤ a → pos 1 ≤ℤ b → pos 1 ≤ℤ a *ℤ b
product_pos (negsuc a) b p q = absurd (omega arith)
product_pos (pos a) (negsuc b) p q = absurd (omega arith)
product_pos (pos a) (pos b) p q =
    let m = mul-pos {m = a} {n = b} (omega arith) (omega arith) in simp products (omega (arith, m))

-- For positive denominators `lessThan` and `equals` give the order and the equality of the cross
-- products, without an error.
pub compare_lem :
    (x : Fraction) (y : Operand)
    → pos 1 ≤ℤ x.denominator
    → pos 1 ≤ℤ (other_f y).denominator
    → (less_than x y
        ≡ some (
            ltb_ℤ
              (x.numerator *ℤ (other_f y).denominator)
              ((other_f y).numerator *ℤ x.denominator)))
      × (equals x y
          ≡ some (
              eq_ℤ
                (x.numerator *ℤ (other_f y).denominator)
                ((other_f y).numerator *ℤ x.denominator)))
unfolding less_than equals subtract
compare_lem x y p q =
    let z : Fraction = other_f y in
    let opposite : Fraction = record {
      numerator = neg_ℤ z.numerator;
      denominator = z.denominator;
    } in
    let (r, e, r_pos, value) = plus_lem x (ratio opposite) p q in
    let alike =
      difference_sign r.numerator (x.denominator *ℤ z.denominator) r.denominator
        (x.numerator *ℤ z.denominator) (z.numerator *ℤ x.denominator) (product_pos _ _ p q) r_pos
        (rw (← neg_ℤ-*ℤ z.numerator x.denominator) value) in
    (rw (subtract, e) (ap some alike.0), rw (subtract, e) (ap some alike.1))
