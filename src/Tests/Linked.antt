-- ===== src/Tests/Linked.antt =====
-- The links of basics/player-elim.js in the game of Tests.Players.
use hanabi_bot.Base.{
  ◌≡◌, ◌↔◌, ◌++◌, refl, inl, inr, true, false, List, [], ◌∷◌, ◌∈◌, Option, none, some, arith,
}
use hanabi_bot.Base.Int.{negsuc}
use hanabi_bot.Identity.{Identity, card}
use hanabi_bot.IdentitySet.{array_from, parse, length as set_length}
use hanabi_bot.State.{start}
use hanabi_bot.Basics.{draw_state}
use hanabi_bot.Card.{new_card}
use hanabi_bot.Player.{Player, Link}
use hanabi_bot.Player.Links.{find_links_in}
use hanabi_bot.Player.Links.Refresh.{refresh_each}
use hanabi_bot.Player.Links.Group.{IsGroup, find_links_in-IsGroup}
use hanabi_bot.Player.Links.Total.{LinkDrawn, Overpromised, refresh_each-none_iff}
use hanabi_bot.Tests.Games.{s2}
use hanabi_bot.Tests.Players.{common, known_card}

abbrev hidden : Identity
hidden = record { suit_index = negsuc 0; rank = negsuc 0 }

-- Two cards that are each a red two or a red three.
abbrev unsure : Player
unsure = record common {
  thoughts = some (known_card 0 hidden 6) ∷ some (known_card 1 hidden 6) ∷ [];
}

abbrev or_self : Player → Option Player → Player
or_self p none = p
or_self p (some q) = q

abbrev two_or_three : Link
two_or_three = record {
  orders = 1 ∷ 0 ∷ [];
  identities = card 0 2 ∷ card 0 3 ∷ [];
  promised = false;
  target = none;
}

linked : (or_self unsure (find_links_in s2 unsure (1 ∷ 0 ∷ []))).links ≡ two_or_three ∷ []
unfolding find_links_in draw_state start new_card array_from set_length parse
linked = refl

abbrev with_links : Player
with_links = or_self unsure (find_links_in s2 unsure (1 ∷ 0 ∷ []))

found : find_links_in s2 unsure (1 ∷ 0 ∷ []) ≡ some with_links
unfolding find_links_in draw_state start new_card array_from set_length parse
found = refl

find_links_in-IsGroup_example :
    (added : List Link) × (with_links.links ≡ [] ++ added)
    × ((l : Link) → l ∈ added → IsGroup unsure.thoughts (1 ∷ 0 ∷ []) l)
find_links_in-IsGroup_example = find_links_in-IsGroup s2 unsure with_links (1 ∷ 0 ∷ []) found

-- A promise of one of two identities.
abbrev broken : Link
broken = record two_or_three { promised = true }

broken_drawn : (l : Link) → l ∈ broken ∷ [] → LinkDrawn unsure.thoughts l
broken_drawn l (inl same) = rw same (record {
  orders = λ o m. elim m [
    | inl e ↦ rw e (_, refl)
    | inr n ↦ elim n [ inl e ↦ rw e (_, refl) | inr never ↦ absurd never ]
  ];
  target = λ t e. absurd (ground arith);
  identity = (_, refl);
})
broken_drawn l (inr never) = absurd never

refresh_each-none_iff_example :
    (refresh_each unsure.thoughts (broken ∷ []) (record { thoughts = unsure.thoughts; links = [] })
      ≡ none)
    ↔ Overpromised (broken ∷ [])
refresh_each-none_iff_example = refresh_each-none_iff unsure.thoughts (broken ∷ []) broken_drawn
