-- ===== src/IdentitySet/Count.antt =====
-- `length` counts the bits of the mask.
use Prim.Native.Nat.{bit_and}
use hanabi_bot.Base.{
  ℕ, zero, suc, ◌+◌, ◌-◌, ◌*◌, ◌/◌, ◌%◌, ◌^◌, ◌≤◌, ◌<◌, ◌≡◌, refl, sym, ◌∙◌, true, ◌&&◌, ◌==◌, leb,
  arith, List, [], ◌∷◌, ◌∈◌, every, every-mem, ℕ_discrete, inl, inr,
}
use native.Mathlib.Nat.{div-one, div-div-eq-div-mul, pow-succ'}
use mathlib.Core.Path.{subst}
use hanabi_bot.Bits.Laws.{bit_and_fields, wider_field}
use hanabi_bot.IdentitySet.{length}

-- The ones among the lowest `n` bits.
unfoldable pub ones : ℕ → ℕ → ℕ
ones zero v = 0
ones (suc n) v = v % 2 + ones n (v / 2)

-- The numbers below `n`, the highest first.
below : ℕ → List ℕ
below zero = []
below (suc n) = n ∷ below n

mem-below : (n b : ℕ) → b < n → b ∈ below n
unfolding below
mem-below zero b lt = absurd (omega arith)
mem-below (suc n) b lt = elim (ℕ_discrete b n) [
  | yes e ↦ inl e
  | no e ↦ inr (mem-below n b (omega arith))
]

-- The three rounds on one byte.
abbrev pairs : ℕ → ℕ
pairs b = b - bit_and (b / 2) 0x55

abbrev nibbles : ℕ → ℕ
nibbles b = bit_and (pairs b) 0x33 + bit_and (pairs b / 4) 0x33

byte_table :
    every
      (λ b.
        (bit_and b 0x55 == bit_and (b % 128) 0x55)
        && (bit_and b 0x33 == bit_and (b % 64) 0x33)
        && (bit_and b 0x0F == b % 16)
        && leb (bit_and (b / 2) 0x55) b
        && leb (nibbles b % 16) 4
        && leb (nibbles b / 16) 4
        && leb (nibbles b) 255
        && (nibbles b / 16 + nibbles b % 16 == ones 8 b))
      (below 256)
    ≡ true
unfolding below ones
byte_table = refl

-- What the rounds need of one byte.
record Byte (b : ℕ) : Type 0 where
  mask_pairs : bit_and b 0x55 ≡ bit_and (b % 128) 0x55
  mask_nibbles : bit_and b 0x33 ≡ bit_and (b % 64) 0x33
  mask_low : bit_and b 0x0F ≡ b % 16
  no_borrow : bit_and (b / 2) 0x55 ≤ b
  low : nibbles b % 16 ≤ 4
  high : nibbles b / 16 ≤ 4
  count : nibbles b / 16 + nibbles b % 16 ≡ ones 8 b

byte : (b : ℕ) → b < 256 → Byte b
byte b h = ground (arith, every-mem _ (below 256) b byte_table (mem-below 256 b h))

-- A word by its bytes.
abbrev pack : ℕ → ℕ → ℕ → ℕ → ℕ
pack d c b a = ((d * 256 + c) * 256 + b) * 256 + a

bit_and-pack :
    (d c b a h g f e : ℕ)
    → a < 256
    → b < 256
    → c < 256
    → e < 256
    → f < 256
    → g < 256
    → bit_and (pack d c b a) (pack h g f e)
      ≡ pack (bit_and d h) (bit_and c g) (bit_and b f) (bit_and a e)
bit_and-pack d c b a h g f e p q r s t u = rw (
  bit_and_fields 8 ((d * 256 + c) * 256 + b) a ((h * 256 + g) * 256 + f) e p s,
  bit_and_fields 8 (d * 256 + c) b (h * 256 + g) f q t,
  bit_and_fields 8 d c h g r u,
)

carry_pairs : (x y : ℕ) → x < 128 → y < 2 → bit_and (x + 128 * y) 0x55 ≡ bit_and x 0x55
carry_pairs x y p q =
    let rest : (x + 128 * y) % 128 ≡ x = omega arith in
    rw rest at ((byte (x + 128 * y) (omega arith)).mask_pairs)

carry_nibbles : (x y : ℕ) → x < 64 → y < 4 → bit_and (x + 64 * y) 0x33 ≡ bit_and x 0x33
carry_nibbles x y p q =
    let rest : (x + 64 * y) % 64 ≡ x = omega arith in
    rw rest at ((byte (x + 64 * y) (omega arith)).mask_nibbles)

-- The rounds on a word work on its bytes one by one.
module _ (d c b a : ℕ) (ld : d < 256) (lc : c < 256) (lb : b < 256) (la : a < 256) where
  pairs-pack :
      pack d c b a - bit_and (pack d c b a / 2) 0x55555555
      ≡ pack (pairs d) (pairs c) (pairs b) (pairs a)
  pairs-pack =
      let half : pack d c b a / 2
          ≡ pack (d / 2) (c / 2 + 128 * (d % 2)) (b / 2 + 128 * (c % 2)) (a / 2 + 128 * (b % 2)) =
        omega arith in
      rw
        (
          half,
          bit_and-pack (d / 2) (c / 2 + 128 * (d % 2)) (b / 2 + 128 * (c % 2))
              (a / 2 + 128 * (b % 2)) 0x55 0x55 0x55 0x55 (omega arith) (omega arith) (omega arith)
              (omega arith) (omega arith) (omega arith),
          carry_pairs (c / 2) (d % 2) (omega arith) (omega arith),
          carry_pairs (b / 2) (c % 2) (omega arith) (omega arith),
          carry_pairs (a / 2) (b % 2) (omega arith) (omega arith),
        )
        (omega (
          arith,
          (byte d ld).no_borrow,
          (byte c lc).no_borrow,
          (byte b lb).no_borrow,
          (byte a la).no_borrow,
        ))

  nibbles-pack :
      bit_and (pack d c b a) 0x33333333 + bit_and (pack d c b a / 4) 0x33333333
      ≡ pack
          (bit_and d 0x33 + bit_and (d / 4) 0x33)
          (bit_and c 0x33 + bit_and (c / 4) 0x33)
          (bit_and b 0x33 + bit_and (b / 4) 0x33)
          (bit_and a 0x33 + bit_and (a / 4) 0x33)
  nibbles-pack =
      let quarter : pack d c b a / 4
          ≡ pack (d / 4) (c / 4 + 64 * (d % 4)) (b / 4 + 64 * (c % 4)) (a / 4 + 64 * (b % 4)) =
        omega arith in
      rw
        (
          quarter,
          bit_and-pack d c b a 0x33 0x33 0x33 0x33 la lb lc (omega arith) (omega arith)
              (omega arith),
          bit_and-pack (d / 4) (c / 4 + 64 * (d % 4)) (b / 4 + 64 * (c % 4)) (a / 4 + 64 * (b % 4))
              0x33 0x33 0x33 0x33 (omega arith) (omega arith) (omega arith) (omega arith)
              (omega arith) (omega arith),
          carry_nibbles (c / 4) (d % 4) (omega arith) (omega arith),
          carry_nibbles (b / 4) (c % 4) (omega arith) (omega arith),
          carry_nibbles (a / 4) (b % 4) (omega arith) (omega arith),
        )
        (omega arith)

-- The last round adds the two nibbles of each byte, and the product adds the bytes.
module _ (d c b a : ℕ) (hd : d / 16 ≤ 4) (hc : c / 16 ≤ 4) (hb : b / 16 ≤ 4) (ha : a / 16 ≤ 4)
    (ld : d % 16 ≤ 4) (lc : c % 16 ≤ 4) (lb : b % 16 ≤ 4) (la : a % 16 ≤ 4) where
  fold-pack :
      bit_and (pack d c b a + pack d c b a / 16) 0xF0F0F0F * 0x1010101 % 2 ^ 32 / 2 ^ 24
      ≡ (d / 16 + d % 16) + (c / 16 + c % 16) + (b / 16 + b % 16) + (a / 16 + a % 16)
  fold-pack =
      let sum : pack d c b a + pack d c b a / 16
          ≡ pack (d + d / 16) (c + c / 16 + 16 * (d % 16)) (b + b / 16 + 16 * (c % 16))
              (a + a / 16 + 16 * (b % 16)) =
        omega arith in
      rw
        (
          sum,
          bit_and-pack (d + d / 16) (c + c / 16 + 16 * (d % 16)) (b + b / 16 + 16 * (c % 16))
              (a + a / 16 + 16 * (b % 16)) 0x0F 0x0F 0x0F 0x0F (omega arith) (omega arith)
              (omega arith) (omega arith) (omega arith) (omega arith),
          (byte (d + d / 16) (omega arith)).mask_low,
          (byte (c + c / 16 + 16 * (d % 16)) (omega arith)).mask_low,
          (byte (b + b / 16 + 16 * (c % 16)) (omega arith)).mask_low,
          (byte (a + a / 16 + 16 * (b % 16)) (omega arith)).mask_low,
        )
        (omega arith)

pub ones-add : (m n k v : ℕ) → m + n ≡ k → ones k v ≡ ones m v + ones n (v / 2 ^ m)
unfolding ones
ones-add zero n k v e = let e' : k ≡ n = omega arith in rw (e', div-one v) (omega arith)
ones-add (suc m) n zero v e = absurd (omega arith)
ones-add (suc m) n (suc k) v e =
    rw (ones-add m n k (v / 2) (omega arith), div-div-eq-div-mul v 2 (2 ^ m), pow-succ' 2 m)
      (omega arith)

ones-low : (n q r : ℕ) → ones n (q * 2 ^ n + r) ≡ ones n r
unfolding ones
ones-low zero q r = refl
ones-low (suc n) q r =
    let half : (q * 2 ^ suc n + r) / 2 ≡ q * 2 ^ n + r / 2 = omega (arith, wider_field q n) in
    let parity : (q * 2 ^ suc n + r) % 2 ≡ r % 2 = omega (arith, wider_field q n) in
    rw (half, parity, ones-low n q (r / 2))

pub ones-zero : (n : ℕ) → ones n 0 ≡ 0
unfolding ones
ones-zero zero = refl
ones-zero (suc n) = omega (arith, ones-zero n)

length-ones_bytes :
    (d c b a : ℕ) (n : ℕ)
    → d < 256
    → c < 256
    → b < 256
    → a < 256
    → length (record { num_suits = n; value = pack d c b a })
      ≡ ones 8 d + ones 8 c + ones 8 b + ones 8 a
unfolding length
length-ones_bytes d c b a n ld lc lb la =
    rw
      (
        pairs-pack d c b a ld lc lb la,
        nibbles-pack (pairs d) (pairs c) (pairs b) (pairs a) (omega arith) (omega arith)
            (omega arith) (omega arith),
        fold-pack (nibbles d) (nibbles c) (nibbles b) (nibbles a) (byte d ld).high (byte c lc).high
            (byte b lb).high (byte a la).high (byte d ld).low (byte c lc).low (byte b lb).low
            (byte a la).low,
      )
      (omega (arith, (byte d ld).count, (byte c lc).count, (byte b lb).count, (byte a la).count))

ones-pack :
    (d c b a : ℕ)
    → d < 256
    → c < 256
    → b < 256
    → a < 256
    → ones 32 (pack d c b a) ≡ ones 8 d + ones 8 c + ones 8 b + ones 8 a
ones-pack d c b a ld lc lb la =
    let high : pack d c b a / 256 ≡ (d * 256 + c) * 256 + b = omega arith in
    let mid : ((d * 256 + c) * 256 + b) / 256 ≡ d * 256 + c = omega arith in
    let top : (d * 256 + c) / 256 ≡ d = omega arith in
    rw
      (
        ones-add 8 24 32 (pack d c b a) refl,
        high,
        ones-add 8 16 24 ((d * 256 + c) * 256 + b) refl,
        mid,
        ones-add 8 8 16 (d * 256 + c) refl,
        top,
        ones-low 8 ((d * 256 + c) * 256 + b) a,
        ones-low 8 (d * 256 + c) b,
        ones-low 8 d c,
      )
      (omega arith)

-- The parallel sum of bits that `length` computes is the number of ones in the mask, for every
-- 32-bit mask.
pub length-ones : (n v : ℕ) → v < 2 ^ 32 → length (record { num_suits = n; value = v }) ≡ ones 32 v
length-ones n v h =
    let split : v ≡ pack (v / 16777216) (v / 65536 % 256) (v / 256 % 256) (v % 256) = omega arith in
    subst (λ w. length (record { num_suits = n; value = w }) ≡ ones 32 w) (sym split)
      (length-ones_bytes _ _ _ _ n (omega arith) (omega arith) (omega arith) (omega arith)
        ∙ sym (ones-pack _ _ _ _ (omega arith) (omega arith) (omega arith) (omega arith)))
