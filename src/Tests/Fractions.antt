-- ===== src/Tests/Fractions.antt =====
-- tools/fraction.js on small fractions.
use hanabi_bot.Base.{ℕ, ◌≡◌, ◌≢◌, ◌↔◌, refl, some, true, arith}
use hanabi_bot.Base.Int.{ℤ, pos, negsuc, ◌+ℤ◌, ◌*ℤ◌, ◌≤ℤ◌, ltb_ℤ, eq_ℤ}
use hanabi_bot.Fraction.{
  Fraction, fraction, endless, not_a_number, ratio, number, reduce_within, reduce, plus, multiply,
  divide, less_than, equals,
}
use hanabi_bot.Fraction.Reduce.{Reduces, Scales, reduce-endless_iff, reduce-Reduces}
use hanabi_bot.Fraction.Values.{plus_lem}
use hanabi_bot.Fraction.Products.{product, multiply_lem, divide-multiply}
use hanabi_bot.Fraction.Order.{compare_lem}

abbrev of : ℤ → ℤ → Fraction
of n d = record { numerator = n; denominator = d }

reduced : reduce (of (pos 42) (pos 90)) ≡ fraction (of (pos 7) (pos 15))
unfolding reduce ◌+ℤ◌
reduced = refl

whole : reduce (of (pos 90) (pos 6)) ≡ fraction (of (pos 15) (pos 1))
unfolding reduce
whole = refl

-- A negative fraction keeps an odd common factor.
negative_kept : reduce (of (negsuc 5) (pos 18)) ≡ fraction (of (negsuc 2) (pos 9))
unfolding reduce
negative_kept = refl

zero_kept : reduce (of (pos 0) (pos 6)) ≡ fraction (of (pos 0) (pos 3))
unfolding reduce
zero_kept = refl

sum : plus (of (pos 1) (pos 6)) (ratio (of (pos 1) (pos 10))) ≡ fraction (of (pos 4) (pos 15))
unfolding plus ◌+ℤ◌ ◌*ℤ◌
sum = refl

sum_over_zero : plus (of (pos 1) (pos 0)) (number (pos 2)) ≡ not_a_number
unfolding plus
sum_over_zero = refl

smaller : less_than (of (pos 1) (pos 3)) (ratio (of (pos 2) (pos 5))) ≡ some true
unfolding less_than ◌+ℤ◌ ◌*ℤ◌
smaller = refl

abbrev two_sixths : Fraction
two_sixths = of (pos 2) (pos 6)

reduce-endless_iff_example :
    ((reduce (of (pos 0) (pos 0)) ≡ endless) ↔ ((pos 0 ≡ pos 0) × (pos 0 ≡ pos 0)))
    × (reduce (of (pos 0) (pos 0)) ≡ endless
        → (fuel : ℕ) → reduce_within fuel (of (pos 0) (pos 0)) ≡ endless)
reduce-endless_iff_example = reduce-endless_iff (of (pos 0) (pos 0))

reduce-Reduces_example : (r : Fraction) × (reduce two_sixths ≡ fraction r) × Reduces two_sixths r
reduce-Reduces_example = reduce-Reduces two_sixths (λ e. ground arith)

plus_lem_example :
    (r : Fraction) × (plus two_sixths (number (negsuc 2)) ≡ fraction r)
    × (pos 1 ≤ℤ r.denominator)
    × (r.numerator *ℤ (pos 6 *ℤ pos 1) ≡ (pos 2 *ℤ pos 1 +ℤ negsuc 2 *ℤ pos 6) *ℤ r.denominator)
plus_lem_example = plus_lem two_sixths (number (negsuc 2)) (omega arith) (omega arith)

abbrev third : Fraction
third = of (pos 1) (pos 3)

divided : multiply two_sixths (number (pos 1)) ≡ fraction third
unfolding multiply ◌*ℤ◌
divided = refl

multiply_lem_example :
    (r : Fraction) × (k : ℤ) × (multiply two_sixths (ratio third) ≡ fraction r)
    × (r.denominator ≢ pos 0)
    × Scales (product two_sixths third) r k
multiply_lem_example = multiply_lem two_sixths (ratio third) (λ e. ground arith) (λ e. ground arith)

divide-multiply_example :
    (r : Fraction) × (divide third (number (pos 1)) ≡ fraction r)
    × (r.denominator ≢ pos 0)
    × (r.numerator *ℤ pos 6 ≡ pos 2 *ℤ r.denominator)
divide-multiply_example =
    divide-multiply two_sixths third (number (pos 1)) (λ e. ground arith) (λ e. ground arith)
      (λ e. ground arith) divided

compare_lem_example :
    (less_than two_sixths (ratio third) ≡ some (ltb_ℤ (pos 2 *ℤ pos 3) (pos 1 *ℤ pos 6)))
    × (equals two_sixths (ratio third) ≡ some (eq_ℤ (pos 2 *ℤ pos 3) (pos 1 *ℤ pos 6)))
compare_lem_example = compare_lem two_sixths (ratio third) (omega arith) (omega arith)
