-- ===== src/Bits.antt =====
-- The 32-bit operators that basics/IdentitySet.js uses, on values that are bit patterns below
-- 2 ^ 32, and the bits of such a value.
pub mod Laws
use Prim.Native.Nat.{bit_and}
use hanabi_bot.Base.{ℕ, zero, suc, ◌-◌, ◌/◌, ◌%◌, ◌^◌, ◌==◌, Bool}

-- Bit `k` of `v`, the lowest first.
pub test_bit : ℕ → ℕ → Bool
test_bit v zero = v % 2 == 1
test_bit v (suc k) = test_bit (v / 2) k

-- `~v`.
abbrev pub bit_not : ℕ → ℕ
bit_not v = 2 ^ 32 - 1 - v
