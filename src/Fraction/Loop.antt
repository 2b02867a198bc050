-- ===== src/Fraction/Loop.antt =====
-- The loop of `reduce` over the odd numbers finds one that divides both parts, or there is none.
use mathlib.Core.Path.{ap₂}
use mathlib.Core.Option.{some-injective}
use hanabi_bot.Base.{
  ℕ, zero, suc, ◌+◌, ◌≡◌, sym, true, false, ◌&&◌, none, some, arith, Bool-cases, inl, inr, ◌≤◌, ◌<◌,
}
use hanabi_bot.Base.Int.{ℤ, pos, negsuc, ◌+ℤ◌, leb_ℤ}
use hanabi_bot.Base.Mul.{divides}
use hanabi_bot.Fraction.{Fraction, common_from}

next_odd : (m : ℕ) → pos m +ℤ pos 2 ≡ pos (m + 2)
unfolding ◌+ℤ◌
next_odd m = ground arith

-- What the loop over the odd numbers finds.
pub common_from-divides :
    (f : Fraction) (n m : ℕ) (k : ℤ)
    → 3 ≤ m
    → common_from f n (pos m) ≡ some k
    → (j : ℕ) × (k ≡ pos j)
      × (3 ≤ j)
      × (divides (pos j) f.denominator ≡ true)
      × (divides (pos j) f.numerator ≡ true)
unfolding common_from
common_from-divides f zero m k lo h = absurd (ground arith)
common_from-divides f (suc n) m k lo h =
    let later = common_from-divides f n (m + 2) k (omega arith) in
    elim (Bool-cases (leb_ℤ (pos m) f.numerator && leb_ℤ (pos m) f.denominator)) [
      | inr e ↦ absurd (ground (arith, rw e at (h)))
      | inl e ↦ elim (Bool-cases (divides (pos m) f.denominator && divides (pos m) f.numerator)) [
        | inl d ↦
            let own : pos m ≡ k = some-injective _ _ (rw (e, d) at (h)) in
            (m, sym own, lo, (ground (arith, d)), (ground (arith, d)))
        | inr d ↦ later (rw (e, d, next_odd m) at (h))
      ]
    ]

leb_ℤ_mono : (m t : ℕ) (a : ℤ) → leb_ℤ (pos (m + suc t + suc t)) a ≡ true → leb_ℤ (pos m) a ≡ true
leb_ℤ_mono m t (pos n) p = ground arith
leb_ℤ_mono m t (negsuc n) p = ground arith

pub common_from-none :
    (f : Fraction) (n m t : ℕ)
    → common_from f n (pos m) ≡ none
    → t < n
    → (leb_ℤ (pos (m + t + t)) f.numerator ≡ true)
    → (leb_ℤ (pos (m + t + t)) f.denominator ≡ true)
    → divides (pos (m + t + t)) f.denominator ≡ true
    → divides (pos (m + t + t)) f.numerator ≡ false
unfolding common_from
common_from-none f zero m t h lt p q d = absurd (omega arith)
common_from-none f (suc n) m zero h lt p q d =
    let e : m + 0 + 0 ≡ m = omega arith in
    elim (Bool-cases (divides (pos m) f.numerator)) [
      | inr fails ↦ rw e fails
      | inl y ↦ absurd (ground (arith, rw (rw e at (p), rw e at (q), rw e at (d), y) at (h)))
    ]
common_from-none f (suc n) m (suc t) h lt p q d =
    let e : m + suc t + suc t ≡ m + 2 + t + t = omega arith in
    let guard : (leb_ℤ (pos m) f.numerator && leb_ℤ (pos m) f.denominator) ≡ true =
      ap₂ ◌&&◌ (leb_ℤ_mono m t f.numerator p) (leb_ℤ_mono m t f.denominator q) in
    elim (Bool-cases (divides (pos m) f.denominator && divides (pos m) f.numerator)) [
      | inl found ↦ absurd (ground (arith, rw (guard, found) at (h)))
      | inr skip ↦ rw e (
          common_from-none f n (m + 2) t (rw (guard, skip, next_odd m) at (h)) (omega arith)
            (rw e at (p)) (rw e at (q)) (rw e at (d)))
    ]
