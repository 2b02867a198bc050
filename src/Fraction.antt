-- ===== src/Fraction.antt =====
-- tools/fraction.js. The numbers are integers; the source's callers give it counts.
pub mod Loop
pub mod Reduce
pub mod Values
pub mod Products
pub mod Order
use Prim.Native.Nat.{◌<◌}
use hanabi_bot.Base.{
  ℕ, zero, suc, ◌+◌, ◌*◌, ◌≡◌, ◌≢◌, Bool, true, false, ◌&&◌, ◌||◌, Option, none, some, arith,
  if◌then◌else◌, dec_lt,
}
use hanabi_bot.Base.Int.{ℤ, pos, negsuc, ◌+ℤ◌, ◌*ℤ◌, ltb_ℤ, leb_ℤ, eq_ℤ}
use hanabi_bot.Base.Mul.{abs, neg_ℤ, rem, quot, divides, abs-rem_lt}

pub record Fraction : Type 0 where
  pub numerator : ℤ
  pub denominator : ℤ

-- `find_gcd` on numbers. The second argument shrinks, so that it bounds the calls: with fuel of its
-- absolute value it is 0 when the fuel is spent.
unfoldable pub gcd_within : (fuel : ℕ) → (a b : ℤ) → ℤ
unfolding rem
gcd_within zero a b = a
gcd_within (suc fuel) a b =
    let next = gcd_within fuel b (rem a b) in if eq_ℤ b (pos 0) then a else next

unfoldable pub find_gcd : ℤ → ℤ → ℤ
unfolding gcd_within
find_gcd a b = gcd_within (abs b) a b

unfoldable pub find_lcm : ℤ → ℤ → ℤ
unfolding find_gcd quot
find_lcm a b = quot (a *ℤ b) (find_gcd a b)

-- The loop of `reduce` from `i` on: the first odd number that divides both. `n` bounds its rounds.
unfoldable pub common_from : Fraction → (n : ℕ) → ℤ → Option ℤ
unfolding divides
common_from f zero i = none
common_from f (suc n) i =
    let rest = common_from f n (i +ℤ pos 2) in
    if leb_ℤ i f.numerator && leb_ℤ i f.denominator
    then if divides i f.denominator && divides i f.numerator then some i else rest
    else none

-- What a method gives: a fraction, one with a numerator that is NaN, or an error, since the calls
-- of `reduce` do not end.
pub data Result : Type 0 where
  fraction : Fraction → Result
  not_a_number endless : Result

abbrev pub over : Fraction → ℤ → Fraction
over f k = record { numerator = quot f.numerator k; denominator = quot f.denominator k }

unfoldable pub reduce_within : (fuel : ℕ) → Fraction → Result
unfolding divides quot common_from
reduce_within zero f = endless
reduce_within (suc fuel) f =
    if ltb_ℤ f.denominator f.numerator && divides f.denominator f.numerator
    then fraction (record { numerator = quot f.numerator f.denominator; denominator = pos 1 })
    else let halved = reduce_within fuel (over f (pos 2)) in
      if divides (pos 2) f.denominator && divides (pos 2) f.numerator
      then halved
      else elim (common_from f (abs f.numerator) (pos 3)) [
        | some i ↦ reduce_within fuel (over f i)
        | none ↦ fraction f
      ]

unfoldable pub reduce : Fraction → Result
unfolding reduce_within
reduce f = reduce_within (abs f.numerator + abs f.denominator + 1) f

-- The argument of a method: a number or a fraction.
pub data Operand : Type 0 where
  number : ℤ → Operand
  ratio : Fraction → Operand

abbrev pub other_f : Operand → Fraction
other_f (number n) = record { numerator = n; denominator = pos 1 }
other_f (ratio f) = f

-- With a denominator of 0 the factor of its numerator is 0 / 0.
unfoldable pub plus : Fraction → Operand → Result
unfolding find_lcm quot reduce
plus this other =
    let f = other_f other in
    let lcm = find_lcm this.denominator f.denominator in
    if eq_ℤ this.denominator (pos 0) || eq_ℤ f.denominator (pos 0)
    then not_a_number
    else reduce (record {
      numerator =
          this.numerator *ℤ quot lcm this.denominator +ℤ f.numerator *ℤ quot lcm f.denominator;
      denominator = lcm;
    })

unfoldable pub subtract : Fraction → Operand → Result
unfolding plus
subtract this other =
    let f = other_f other in
    plus this (ratio (record { numerator = neg_ℤ f.numerator; denominator = f.denominator }))

unfoldable pub multiply : Fraction → Operand → Result
unfolding reduce
multiply this other =
    let f = other_f other in
    reduce (record {
      numerator = this.numerator *ℤ f.numerator;
      denominator = this.denominator *ℤ f.denominator;
    })

unfoldable pub divide : Fraction → Operand → Result
unfolding multiply
divide this other =
    let f = other_f other in
    multiply this (ratio (record { numerator = f.denominator; denominator = f.numerator }))

-- The sign tests on a difference; `none` is the error. NaN is neither less than nor equal to 0.
abbrev test_numerator : (ℤ → Bool) → Result → Option Bool
test_numerator test (fraction diff) = some (test diff.numerator)
test_numerator test not_a_number = some false
test_numerator test endless = none

unfoldable pub less_than : Fraction → Operand → Option Bool
unfolding subtract
less_than this other = test_numerator (λ n. ltb_ℤ n (pos 0)) (subtract this other)

unfoldable pub equals : Fraction → Operand → Option Bool
unfolding subtract
equals this other = test_numerator (λ n. eq_ℤ n (pos 0)) (subtract this other)
