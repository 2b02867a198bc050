-- ===== src/Bits/Laws.antt =====
-- The bits of `&`, `|`, `~` and of `1 << k`.
use Prim.Native.Nat.{bit_and, bit_or, digits, bitwise, bit_and-bitwise, bit_or-bitwise}
use native.Mathlib.Nat.{pow-suc, pow-succ', div-one, div-div-eq-div-mul}
use hanabi_bot.Base.{
  ℕ, zero, suc, ◌+◌, ◌-◌, ◌*◌, ◌/◌, ◌%◌, ◌^◌, ◌≤◌, ◌<◌, min, max, ◌≡◌, refl, ap, sym, ◌∙◌, ◌==◌,
  Bool, false, not, ◌&&◌, ◌||◌, arith,
}
use hanabi_bot.Bits.{test_bit, bit_not}

-- `bitwise` runs with more fuel than there are digits. One unit more changes nothing, and so
-- `spare` units more change nothing.
module _ (z : ℕ → ℕ) (f : ℕ → ℕ → ℕ) where
  one_more : (fuel x y : ℕ) → x ≤ fuel → digits z f (suc fuel) x y ≡ digits z f fuel x y
  one_more zero zero y enough = refl
  one_more (suc fuel) zero y enough = refl
  one_more zero (suc x) y enough = absurd (omega arith)
  one_more (suc fuel) (suc x) y enough = rw (one_more fuel (suc x / 2) (y / 2) (omega arith))

  spare_fuel : (spare x y : ℕ) → digits z f (spare + x) x y ≡ digits z f x x y
  spare_fuel zero x y = let none : 0 + x ≡ x = omega arith in rw none
  spare_fuel (suc spare) x y =
      let next : suc spare + x ≡ suc (spare + x) = omega arith in
      rw next (one_more (spare + x) x y (omega arith) ∙ spare_fuel spare x y)

  lowest_digit :
      (x y : ℕ)
      → bitwise z f (suc x) y ≡ bitwise z f (suc x / 2) (y / 2) * 2 + f (suc x % 2) (y % 2)
  lowest_digit x y =
      let e : x ≡ x - suc x / 2 + suc x / 2 = omega arith in
      let drop : digits z f x (suc x / 2) (y / 2) ≡ digits z f (suc x / 2) (suc x / 2) (y / 2) =
        ap (λ (n : ℕ). digits z f n (suc x / 2) (y / 2)) e
        ∙ spare_fuel (x - suc x / 2) (suc x / 2) (y / 2) in
      ap (λ (n : ℕ). n * 2 + f (suc x % 2) (y % 2)) drop

-- The lowest digit of each operator.
pub bit_or_low : (x y : ℕ) → bit_or x y ≡ bit_or (x / 2) (y / 2) * 2 + max (x % 2) (y % 2)
bit_or_low zero y = omega (arith, bit_or-bitwise 0 y, bit_or-bitwise 0 (y / 2))
bit_or_low (suc p) y =
    bit_or-bitwise (suc p) y
    ∙ lowest_digit (λ n. n) max p y
    ∙ ap (λ (n : ℕ). n * 2 + max (suc p % 2) (y % 2)) (sym (bit_or-bitwise (suc p / 2) (y / 2)))

pub bit_and_low : (x y : ℕ) → bit_and x y ≡ bit_and (x / 2) (y / 2) * 2 + min (x % 2) (y % 2)
bit_and_low zero y = omega (arith, bit_and-bitwise 0 y, bit_and-bitwise 0 (y / 2))
bit_and_low (suc p) y =
    bit_and-bitwise (suc p) y
    ∙ lowest_digit (λ n. 0) min p y
    ∙ ap (λ (n : ℕ). n * 2 + min (suc p % 2) (y % 2)) (sym (bit_and-bitwise (suc p / 2) (y / 2)))

bit_and-half : (a b : ℕ) → bit_and a b / 2 ≡ bit_and (a / 2) (b / 2)
bit_and-half a b = omega (arith, bit_and_low a b)

bit_or-half : (a b : ℕ) → bit_or a b / 2 ≡ bit_or (a / 2) (b / 2)
bit_or-half a b = omega (arith, bit_or_low a b)

pub test_bit-bit_and : (a b k : ℕ) → test_bit (bit_and a b) k ≡ (test_bit a k && test_bit b k)
unfolding test_bit
test_bit-bit_and a b zero = ground (arith, bit_and_low a b)
test_bit-bit_and a b (suc k) = rw (bit_and-half a b) (test_bit-bit_and (a / 2) (b / 2) k)

pub test_bit-bit_or : (a b k : ℕ) → test_bit (bit_or a b) k ≡ (test_bit a k || test_bit b k)
unfolding test_bit
test_bit-bit_or a b zero = ground (arith, bit_or_low a b)
test_bit-bit_or a b (suc k) = rw (bit_or-half a b) (test_bit-bit_or (a / 2) (b / 2) k)

pub test_bit-complement :
    (n v k : ℕ) → v < 2 ^ n → k < n → test_bit (2 ^ n - 1 - v) k ≡ not (test_bit v k)
unfolding test_bit
test_bit-complement zero v k h lt = absurd (omega arith)
test_bit-complement (suc n) v zero h lt = ground (arith, pow-suc 2 n)
test_bit-complement (suc n) v (suc k) h lt =
    let half : (2 ^ suc n - 1 - v) / 2 ≡ 2 ^ n - 1 - v / 2 = omega (arith, pow-suc 2 n) in
    rw half (test_bit-complement n (v / 2) k (omega (arith, pow-suc 2 n)) (omega arith))

pub test_bit-bit_not : (v k : ℕ) → v < 2 ^ 32 → k < 32 → test_bit (bit_not v) k ≡ not (test_bit v k)
test_bit-bit_not = test_bit-complement 32

pub test_bit-zero : (k : ℕ) → test_bit 0 k ≡ false
unfolding test_bit
test_bit-zero zero = refl
test_bit-zero (suc k) = test_bit-zero k

-- `1 << k` has bit `k` alone.
pub test_bit-pow : (k j : ℕ) → test_bit (2 ^ k) j ≡ (k == j)
unfolding test_bit
test_bit-pow zero zero = refl
test_bit-pow zero (suc j) = ground (arith, test_bit-zero j)
test_bit-pow (suc k) zero = ground (arith, pow-suc 2 k)
test_bit-pow (suc k) (suc j) =
    let half : 2 ^ suc k / 2 ≡ 2 ^ k = omega (arith, pow-suc 2 k) in
    rw half (ground (arith, test_bit-pow k j))

-- A value with no bit below its width is 0.
pub eq_of_test_bit :
    (n a b : ℕ) → a < 2 ^ n → b < 2 ^ n → ((k : ℕ) → k < n → test_bit a k ≡ test_bit b k) → a ≡ b
unfolding test_bit
eq_of_test_bit zero a b p q h = omega arith
eq_of_test_bit (suc n) a b p q h = ground (
  arith,
  pow-suc 2 n,
  h 0,
  eq_of_test_bit n (a / 2) (b / 2) (omega (arith, pow-suc 2 n)) (omega (arith, pow-suc 2 n))
      (λ k lt. h (suc k) (omega arith)),
)

and-false : (b : Bool) → (b && false) ≡ false
and-false b = ground arith

-- A value without a bit is 0.
zero_of_no_bits : (size v : ℕ) → v ≤ size → ((k : ℕ) → test_bit v k ≡ false) → v ≡ 0
unfolding test_bit
zero_of_no_bits zero v small none_set = omega arith
zero_of_no_bits (suc size) v small none_set =
    ground (arith, none_set 0, zero_of_no_bits size (v / 2) (omega arith) (λ k. none_set (suc k)))

pub bit_and-zero : (v : ℕ) → bit_and v 0 ≡ 0
bit_and-zero v =
    zero_of_no_bits (bit_and v 0) (bit_and v 0) (omega arith)
      (λ k. test_bit-bit_and v 0 k ∙ rw (test_bit-zero k) (and-false (test_bit v k)))

-- `(v & (1 << k)) !== 0` reads bit `k`.
pub bit_and-pow : (v k : ℕ) → not (bit_and v (2 ^ k) == 0) ≡ test_bit v k
unfolding test_bit
bit_and-pow v zero = ground (arith, bit_and_low v 1, bit_and-zero (v / 2))
bit_and-pow v (suc k) =
    let half : 2 ^ suc k / 2 ≡ 2 ^ k = omega (arith, pow-suc 2 k) in
    let even : 2 ^ suc k % 2 ≡ 0 = omega (arith, pow-suc 2 k) in
    ground (arith, half, even, bit_and_low v (2 ^ suc k), bit_and-pow (v / 2) k)

-- A field of one more bit counts twice.
pub wider_field : (q k : ℕ) → q * 2 ^ suc k ≡ q * 2 ^ k + q * 2 ^ k
wider_field q k = ap (λ (t : ℕ). q * t) (pow-suc 2 k) ∙ omega arith

-- `&` works on the fields of its operands one by one.
pub bit_and_fields :
    (k h l m n : ℕ)
    → l < 2 ^ k
    → n < 2 ^ k
    → bit_and (h * 2 ^ k + l) (m * 2 ^ k + n) ≡ bit_and h m * 2 ^ k + bit_and l n
bit_and_fields zero h l m n p q =
    let l0 : l ≡ 0 = omega arith in
    let n0 : n ≡ 0 = omega arith in
    let a : h * 1 + 0 ≡ h = omega arith in
    let b : m * 1 + 0 ≡ m = omega arith in rw (l0, n0, a, b) (omega (arith, bit_and-zero 0))
bit_and_fields (suc k) h l m n p q =
    let a : (h * 2 ^ suc k + l) / 2 ≡ h * 2 ^ k + l / 2 = omega (arith, wider_field h k) in
    let b : (m * 2 ^ suc k + n) / 2 ≡ m * 2 ^ k + n / 2 = omega (arith, wider_field m k) in
    let rest =
      bit_and_fields k h (l / 2) m (n / 2) (omega (arith, pow-suc 2 k))
        (omega (arith, pow-suc 2 k)) in
    rw (bit_and_low (h * 2 ^ suc k + l), a, b, rest)
      (omega
        (arith, wider_field h k, wider_field m k, wider_field (bit_and h m) k, bit_and_low l n))

pub test_bit-div : (v k : ℕ) → test_bit v k ≡ (v / 2 ^ k % 2 == 1)
unfolding test_bit
test_bit-div v zero = rw (div-one v)
test_bit-div v (suc k) = rw (test_bit-div (v / 2) k, div-div-eq-div-mul v 2 (2 ^ k), pow-succ' 2 k)

pub bit_and-lt : (n a b : ℕ) → a < 2 ^ n → bit_and a b < 2 ^ n
bit_and-lt zero a b h =
    let e : a ≡ 0 = omega arith in rw e (omega (arith, bit_and_low 0 b, bit_and_zero_left b))
  where
    bit_and_zero_left : (c : ℕ) → bit_and 0 c ≡ 0
    bit_and_zero_left c = bit_and-bitwise 0 c
bit_and-lt (suc n) a b h =
    omega (
      arith,
      pow-suc 2 n,
      bit_and_low a b,
      bit_and-lt n (a / 2) (b / 2) (omega (arith, pow-suc 2 n)),
    )

pub bit_or-lt : (n a b : ℕ) → a < 2 ^ n → b < 2 ^ n → bit_or a b < 2 ^ n
bit_or-lt zero a b p q =
    let e : a ≡ 0 = omega arith in let f : b ≡ 0 = omega arith in rw (e, f) (omega arith)
bit_or-lt (suc n) a b p q = omega (
  arith,
  pow-suc 2 n,
  bit_or_low a b,
  bit_or-lt n (a / 2) (b / 2) (omega (arith, pow-suc 2 n)) (omega (arith, pow-suc 2 n)),
)

bit_and-le_fuel : (n a b : ℕ) → a ≤ n → bit_and a b ≤ a
bit_and-le_fuel zero a b h =
    let e : a ≡ 0 = omega arith in rw e (omega (arith, bit_and-bitwise 0 b))
bit_and-le_fuel (suc n) zero b h = omega (arith, bit_and-bitwise 0 b)
bit_and-le_fuel (suc n) (suc a) b h =
    omega (arith, bit_and_low (suc a) b, bit_and-le_fuel n (suc a / 2) (b / 2) (omega arith))

pub bit_and-le : (a b : ℕ) → bit_and a b ≤ a
bit_and-le a b = bit_and-le_fuel a a b (omega arith)
