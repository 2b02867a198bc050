-- ===== src/IdentitySet.antt =====
-- basics/IdentitySet.js: a set of identities as a bit mask, bit `suitIndex * 5 + rank - 1` for each
-- identity. The bit patterns stand below 2 ^ 31, since a variant has at most six suits. The private
-- field `#array` caches a value that the constructor's arguments determine; `#length` is never set.
pub mod Members
pub mod Count
pub mod Elements
use Prim.Native.Nat.{bit_and, bit_or}
use hanabi_bot.Base.{
  ℕ, zero, suc, ◌+◌, ◌-◌, ◌*◌, ◌/◌, ◌%◌, ◌^◌, ◌≤◌, ◌<◌, Bool, false, true, not, List, [], ◌∷◌,
  Option, none, some, ◌==◌, if◌then◌else◌, arith,
}
use hanabi_bot.Base.Int.{ℤ, pos, negsuc, ◌+ℤ◌, ◌-ℤ◌, ◌*ℤ◌}
use hanabi_bot.Bits.{bit_not}
use hanabi_bot.Identity.{Identity, card, is_unknown}

pub record IdentitySet : Type 0 where
  pub num_suits : ℕ
  pub value : ℕ

abbrev pub max_stack_rank : ℕ
max_stack_rank = 5

-- The constructor; `none` is an absent value, which stands for the full set.
unfoldable pub make : ℕ → Option ℕ → IdentitySet
make n none = record { num_suits = n; value = 2 ^ (n * max_stack_rank) - 1 }
make n (some v) = record { num_suits = n; value = v }

-- A shift count is taken modulo 32.
abbrev pub shift_count : ℤ → ℕ
shift_count (pos n) = n % 32
shift_count (negsuc n) = 31 - n % 32

-- The bit of an identity.
unfoldable pub slot : Identity → ℕ
unfolding ◌+ℤ◌ ◌-ℤ◌ ◌*ℤ◌
slot id = shift_count (id.suit_index *ℤ pos max_stack_rank +ℤ (id.rank -ℤ pos 1))

unfoldable pub to_mask : Identity → ℕ
to_mask id = 2 ^ slot id

-- The loop of `reduce` in `identitiesToMask`.
unfoldable pub mask_onto : ℕ → List Identity → ℕ
mask_onto mask [] = mask
mask_onto mask (id ∷ ids) = mask_onto (bit_or mask (to_mask id)) ids

unfoldable pub identities_to_mask : List Identity → ℕ
identities_to_mask ids = mask_onto 0 ids

-- What the operations take: a set, an array of identities, or one identity.
pub data Argument : Type 0 where
  set : IdentitySet → Argument
  array_of : List Identity → Argument
  one : Identity → Argument

unfoldable pub parse : Argument → ℕ
parse (set s) = s.value
parse (array_of ids) = identities_to_mask ids
parse (one id) = to_mask id

unfoldable pub create : ℕ → Argument → IdentitySet
create n ids = make n (some (parse ids))

-- The number of identities, by the parallel sum of bits. The product is taken modulo 2 ^ 32 by `>>`.
unfoldable pub length : IdentitySet → ℕ
length s =
    let pairs = s.value - bit_and (s.value / 2) 0x55555555 in
    let nibbles = bit_and pairs 0x33333333 + bit_and (pairs / 4) 0x33333333 in
    (bit_and (nibbles + nibbles / 16) 0xF0F0F0F * 0x1010101) % 2 ^ 32 / 2 ^ 24

-- The loop of `array`: `n` rounds, the first at bit `i` with `run = 1 << i`.
unfoldable pub array_from : ℕ → ℕ → ℕ → ℕ → List Identity
array_from value zero i run = []
array_from value (suc n) i run =
    let rest = array_from value n (i + 1) (run * 2 % 2 ^ 32) in
    if not (bit_and value run == 0)
    then card (i / max_stack_rank) (i % max_stack_rank + 1) ∷ rest
    else rest

unfoldable pub array : IdentitySet → List Identity
array s = array_from s.value (s.num_suits * max_stack_rank) 0 1

unfoldable pub has : IdentitySet → Identity → Bool
has s id = if is_unknown id then false else not (bit_and s.value (to_mask id) == 0)

unfoldable pub intersect : IdentitySet → Argument → IdentitySet
intersect s ids = make s.num_suits (some (bit_and s.value (parse ids)))

unfoldable pub subtract : IdentitySet → Argument → IdentitySet
subtract s ids = make s.num_suits (some (bit_and s.value (bit_not (parse ids))))

unfoldable pub union : IdentitySet → Argument → IdentitySet
union s ids = make s.num_suits (some (bit_or s.value (parse ids)))

unfoldable pub equals : IdentitySet → Argument → Bool
equals s ids = s.value == parse ids

-- A set over at most six suits holds no bit past its identities.
pub record IsValid (s : IdentitySet) : Type 0 where
  pub suits : s.num_suits ≤ 6
  pub bits : s.value < 2 ^ (s.num_suits * max_stack_rank)
