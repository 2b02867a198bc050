-- ===== src/Fraction/Products.antt =====
-- `multiply` and `divide` compute with the values, and one undoes the other.
use mathlib.Core.Path.{subst}
use hanabi_bot.Base.{◌≡◌, ◌≢◌, sym, ap, ◌∙◌, arith}
use hanabi_bot.Base.Int.{ℤ, pos, ◌*ℤ◌, eq_of_parts}
use hanabi_bot.Base.Mul.{products, nonzero-*ℤ, *ℤ_right_comm}
use hanabi_bot.Fraction.{Fraction, fraction, Operand, ratio, other_f, multiply, divide}
use hanabi_bot.Fraction.Reduce.{Scales, Scales-trans, reduce-Reduces}
use hanabi_bot.Fraction.Values.{Scales-cross}

-- The product before it is reduced.
abbrev pub product : Fraction → Fraction → Fraction
product x y = record {
  numerator = x.numerator *ℤ y.numerator;
  denominator = x.denominator *ℤ y.denominator;
}

Scales-nonzero :
    (f r : Fraction) (k : ℤ) → Scales f r k → f.denominator ≢ pos 0 → r.denominator ≢ pos 0
Scales-nonzero f r k (h, top, bottom) nonzero e =
    nonzero (bottom ∙ ap (λ (t : ℤ). t *ℤ k) e ∙ zero-*ℤ k)
  where
    zero-*ℤ : (x : ℤ) → pos 0 *ℤ x ≡ pos 0
    zero-*ℤ x = eq_of_parts _ _ (simp products (omega arith))

-- For denominators that are not 0, `multiply` gives the product of the values.
pub multiply_lem :
    (x : Fraction) (y : Operand)
    → x.denominator ≢ pos 0
    → (other_f y).denominator ≢ pos 0
    → (r : Fraction) × (k : ℤ) × (multiply x y ≡ fraction r)
      × (r.denominator ≢ pos 0)
      × Scales (product x (other_f y)) r k
unfolding multiply
multiply_lem x y p q =
    let f : Fraction = product x (other_f y) in
    let nonzero : f.denominator ≢ pos 0 = nonzero-*ℤ _ _ p q in
    let (r, e, (k, scales, keeps, lowest)) = reduce-Reduces f nonzero in
    (r, k, e, Scales-nonzero f r k scales nonzero, scales)

fraction-injective : (f g : Fraction) → fraction f ≡ fraction g → f ≡ g
fraction-injective f g e = cc e

-- The product before it is reduced, divided without reduction.
widen :
    (xn xd yn yd : ℤ) (m : Fraction) (k : ℤ)
    → Scales (record { numerator = xn *ℤ yn; denominator = xd *ℤ yd }) m k
    → Scales
        (record { numerator = xn *ℤ yn *ℤ yd; denominator = xd *ℤ yd *ℤ yn })
        (record { numerator = m.numerator *ℤ yd; denominator = m.denominator *ℤ yn })
        k
widen xn xd yn yd m k (h, top, bottom) = (
  h,
  ap (λ (t : ℤ). t *ℤ yd) top ∙ *ℤ_right_comm m.numerator k yd,
  ap (λ (t : ℤ). t *ℤ yn) bottom ∙ *ℤ_right_comm m.denominator k yn,
)

turned : (xn yn yd xd : ℤ) → xn *ℤ yn *ℤ yd *ℤ xd ≡ xn *ℤ (xd *ℤ yd *ℤ yn)
turned xn yn yd xd = eq_of_parts _ _ (simp products (omega arith))

-- For denominators that are not 0 and an operand that is not 0, dividing the product of `x` and `y`
-- by `y` ends, and the result has the value of `x`.
pub divide-multiply :
    (x m : Fraction) (y : Operand)
    → x.denominator ≢ pos 0
    → (other_f y).denominator ≢ pos 0
    → (other_f y).numerator ≢ pos 0
    → multiply x y ≡ fraction m
    → (r : Fraction) × (divide m y ≡ fraction r)
      × (r.denominator ≢ pos 0)
      × (r.numerator *ℤ x.denominator ≡ x.numerator *ℤ r.denominator)
unfolding divide
divide-multiply x m y p q n e =
    let f : Fraction = other_f y in
    let (r1, k, e1, nonzero, scales) = multiply_lem x y p q in
    let same : r1 ≡ m = fraction-injective r1 m (sym e1 ∙ e) in
    let (r, l, e2, r_nonzero, again) =
      multiply_lem m (ratio (record { numerator = f.denominator; denominator = f.numerator }))
        (subst (λ (t : Fraction). t.denominator ≢ pos 0) same nonzero) n in
    let back =
      widen x.numerator x.denominator f.numerator f.denominator m k
        (subst (λ (t : Fraction). Scales (product x f) t k) same scales) in
    (
      r,
      e2,
      r_nonzero,
      Scales-cross _ r (l *ℤ k) x.numerator x.denominator (Scales-trans _ _ r k l back again)
          (turned x.numerator f.numerator f.denominator x.denominator),
    )
