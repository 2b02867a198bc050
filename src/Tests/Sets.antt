-- ===== src/Tests/Sets.antt =====
-- basics/IdentitySet.js on small sets of a deck with five suits.
use hanabi_bot.Base.{
  ◌≡◌, ◌↔◌, refl, true, false, not, ◌&&◌, ◌||◌, [], ◌∷◌, ◌∈◌, arith, length as list_length,
}
use hanabi_bot.Base.Int.{pos, negsuc}
use hanabi_bot.Identity.{Identity, card, IsIdentity}
use hanabi_bot.IdentitySet.{
  IdentitySet, IsValid, set, array_of, one, make, create, has, intersect, subtract, union, equals,
  length, array, to_mask, slot, parse, identities_to_mask, mask_onto, array_from,
}
use hanabi_bot.IdentitySet.Members.{has-operations, equals_iff, holds}
use hanabi_bot.IdentitySet.Elements.{array_mem_iff, length-array}
use hanabi_bot.IdentitySet.Count.{length-ones, ones}

-- { r1, r5, p3 }
abbrev some_ids : IdentitySet
some_ids = record { num_suits = 5; value = 4194321 }

abbrev r1 : Identity
r1 = card 0 1

abbrev p3 : Identity
p3 = card 4 3

some_ids-IsValid : IsValid some_ids
some_ids-IsValid = omega arith

r1-IsIdentity : IsIdentity 5 r1
r1-IsIdentity = (0, 1, refl, omega arith, omega arith, omega arith)

p3-IsIdentity : IsIdentity 5 p3
p3-IsIdentity = (4, 3, refl, omega arith, omega arith, omega arith)

build : create 5 (array_of (r1 ∷ card 0 5 ∷ p3 ∷ [])) ≡ some_ids
unfolding create make parse identities_to_mask mask_onto to_mask slot
build = refl

listed : array some_ids ≡ r1 ∷ card 0 5 ∷ p3 ∷ []
unfolding array array_from
listed = refl

counted : length some_ids ≡ 3
unfolding length
counted = refl

unknown_is_no_member : has some_ids (record { suit_index = negsuc 0; rank = pos 1 }) ≡ false
unfolding has
unknown_is_no_member = refl

has-operations_example :
    (has (intersect some_ids (one p3)) r1 ≡ (has some_ids r1 && holds (one p3) r1))
    × (has (subtract some_ids (one p3)) r1 ≡ (has some_ids r1 && not (holds (one p3) r1)))
    × (has (union some_ids (one p3)) r1 ≡ (has some_ids r1 || holds (one p3) r1))
has-operations_example =
    has-operations some_ids (one p3) r1 some_ids-IsValid p3-IsIdentity r1-IsIdentity

equals_iff_example :
    (equals some_ids (set some_ids) ≡ true)
    ↔ ((id : Identity) → IsIdentity 5 id → has some_ids id ≡ has some_ids id)
equals_iff_example = equals_iff some_ids some_ids some_ids-IsValid some_ids-IsValid refl

array_mem_iff_example : (p3 ∈ array some_ids) ↔ (IsIdentity 5 p3 × (has some_ids p3 ≡ true))
array_mem_iff_example = array_mem_iff some_ids p3 some_ids-IsValid

length-array_example : length some_ids ≡ list_length (array some_ids)
length-array_example = length-array some_ids some_ids-IsValid

length-ones_example : length (record { num_suits = 6; value = 4294967295 }) ≡ ones 32 4294967295
length-ones_example = length-ones 6 4294967295 (omega arith)
