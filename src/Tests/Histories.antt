-- ===== src/Tests/Histories.antt =====
-- A game with red cards alone: the five is drawn and shown, `card_elim` rules it out for the deck, and
-- then a one is drawn.
use hanabi_bot.Base.{
  ℕ, zero, suc, ◌+◌, ◌≡◌, refl, ◌⊎◌, inl, inr, true, false, leb, [], ◌∷◌, ◌∈◌, none, some, every,
  every-mem, length, arith,
}
use mathlib.Core.Option.{some-injective}
use hanabi_bot.Base.Int.{negsuc, ◌+ℤ◌, ◌-ℤ◌}
use hanabi_bot.Identity.{
  Identity, card, IsIdentity, is_unknown, identity as basic_identity, matches as matches_id,
}
use hanabi_bot.IdentitySet.{
  has, make, to_mask, slot, subtract, union, intersect, parse, array, array_from,
  length as set_length,
}
use hanabi_bot.IdentitySet.Members.{make-empty}
use hanabi_bot.Variants.{
  codes, all_identities, test, includes, starts_with, card_count as variant_card_count,
}
use hanabi_bot.Variants.Touch.{all_identities_mem_iff}
use hanabi_bot.State.{State, start as start_state, base_count, card_count, is_basic_trash}
use hanabi_bot.Basics.{assign}
use hanabi_bot.Card.{Card, new_card, identity}
use hanabi_bot.Player.{Player}
use hanabi_bot.Elimination.Certains.{copies}
use hanabi_bot.Elimination.Truth.{IsSeenRight}
use hanabi_bot.Elimination.Whole.{eliminated, card_elim}
use hanabi_bot.Elimination.Backed.Whole.{FitsWith, card_elim-keeps_left}
use hanabi_bot.Thoughts.{Thoughts, draw_thoughts, reveal_thoughts}
use hanabi_bot.Thoughts.Sound.{HasTruth, IsSound}
use hanabi_bot.Thoughts.Seen.{
  IsTable, History, start, after, drawn, shown, ruled_out, history-IsSound,
}
use hanabi_bot.Tests.Elimination.{red_only}
use hanabi_bot.Tests.Endgame.{actual}

-- Order 0 is the five, every other a one.
abbrev deal : ℕ → Identity
deal zero = card 0 5
deal (suc o) = card 0 1

deal-IsIdentity : (o : ℕ) → IsIdentity 1 (deal o)
deal-IsIdentity zero = (0, 5, refl, omega arith, omega arith, omega arith)
deal-IsIdentity (suc o) = (0, 1, refl, omega arith, omega arith, omega arith)

abbrev unseen : Identity
unseen = record { suit_index = negsuc 0; rank = negsuc 0 }

abbrev at_start : Player
at_start = record {
  player_index = negsuc 0;
  thoughts = [];
  links = [];
  play_links = [];
  hypo_stacks = 0 ∷ [];
  hypo_plays = [];
  hypo_map = [];
  all_possible = make 1 none;
  all_inferred = make 1 none;
  unknown_plays = [];
  waiting_connections = [];
  elims = [];
}

abbrev with_five : Player
with_five = record at_start { thoughts = draw_thoughts [] (make 1 none) 0 0 unseen }

abbrev shown_five : Thoughts
shown_five = elim (reveal_thoughts with_five.thoughts 0 (card 0 5)) [ none ↦ [] | some ts ↦ ts ]

abbrev with_shown : Player
with_shown = record with_five { thoughts = shown_five }

five_is_shown : reveal_thoughts with_five.thoughts 0 (card 0 5) ≡ some shown_five
unfolding reveal_thoughts draw_thoughts assign
five_is_shown = refl

abbrev table : State
table = record (start_state red_only 2 0 false false) {
  hands = (0 ∷ []) ∷ [] ∷ [];
  deck = some (actual 0 unseen) ∷ [];
}

fits_table :
    every
      (λ id.
        leb
          (base_count table id
            + length (copies deal id (0 ∷ []))
            + length (copies deal id (1 ∷ 2 ∷ [])))
          (card_count table id))
      (all_identities (codes "Red" ∷ []))
    ≡ true
unfolding base_count card_count all_identities start_state variant_card_count test includes
    starts_with matches_id
fits_table = refl

table-FitsWith : FitsWith table deal (1 ∷ 2 ∷ [])
unfolding start_state
table-FitsWith id w =
    let m : id ∈ all_identities (codes "Red" ∷ []) =
      (all_identities_mem_iff (codes "Red" ∷ []) id).1 w in
    ground (arith, every-mem _ (all_identities (codes "Red" ∷ [])) id fits_table m)

is_five :
    (c d : Card)
    → d.rewind_ids ≡ none
    → d.actual.id ≡ card 0 5
    → some d ≡ some c
    → (c.rewind_ids ≡ none) × ((is_unknown c.actual.id ≡ true) ⊎ (c.actual.id ≡ card 0 5))
is_five c d no_rewind own e = let same = some-injective d c e in rw (← same) (no_rewind, inr own)

five_is_right : IsSeenRight deal shown_five
unfolding reveal_thoughts draw_thoughts assign new_card
five_is_right zero c e = is_five c _ refl refl e
five_is_right (suc o) c e = absurd (ground arith)

with_shown-IsTable : IsTable red_only deal with_shown (1 ∷ 2 ∷ []) table
unfolding start_state reveal_thoughts draw_thoughts assign new_card make
with_shown-IsTable = record {
  variant = refl;
  fits = table-FitsWith;
  deck = λ o m. elim m [ inl e ↦ rw e (_, refl, inl refl) | inr j ↦ absurd j ];
  differ = ((λ m. m), tt);
  base = refl;
  drawn = λ o m. elim m [ inl e ↦ rw e (_, refl) | inr j ↦ absurd j ];
  seen = five_is_right;
}

abbrev with_fours : Player
with_fours = elim (card_elim with_shown table) [ eliminated p ↦ p | _ ↦ with_shown ]

five_is_ruled_out : card_elim with_shown table ≡ eliminated with_fours
unfolding card_elim start_state new_card identity basic_identity base_count matches_id card_count
    variant_card_count test make has to_mask slot set_length subtract union intersect parse array
    array_from ◌+ℤ◌ ◌-ℤ◌ is_basic_trash draw_thoughts reveal_thoughts assign
five_is_ruled_out = refl

-- The five is no longer expected in the deck.
without_five : has with_fours.all_possible (card 0 5) ≡ false
unfolding card_elim start_state new_card identity basic_identity base_count matches_id card_count
    variant_card_count test make has to_mask slot set_length subtract union intersect parse array
    array_from ◌+ℤ◌ ◌-ℤ◌ is_basic_trash draw_thoughts reveal_thoughts assign
without_five = refl

abbrev with_one : Player
with_one = record with_fours {
  thoughts = draw_thoughts with_fours.thoughts with_fours.all_possible 1 1 unseen;
}

shown-History : History red_only deal with_shown (1 ∷ 2 ∷ [])
shown-History =
    after (after (start {p = at_start} {cards = 0 ∷ 1 ∷ 2 ∷ []} refl refl) (drawn 0 0 unseen))
      (shown 0 shown_five five_is_shown)

one-History : History red_only deal with_one (2 ∷ [])
one-History =
    after (after shown-History (ruled_out table with_shown-IsTable five_is_ruled_out))
      (drawn 1 1 unseen)

history-IsSound_example :
    IsSound 1 deal with_one.thoughts
    × ((o : ℕ) → o ∈ 2 ∷ [] → HasTruth 1 (deal o) with_one.all_possible)
history-IsSound_example =
    history-IsSound red_only deal deal-IsIdentity (omega arith) with_one (2 ∷ []) one-History

card_elim-keeps_left_example :
    (p' : Player) × (card_elim with_shown table ≡ eliminated p')
    × IsSound 1 deal p'.thoughts
    × ((o : ℕ)
        → o ∈ 1 ∷ 2 ∷ []
        → HasTruth 1 (deal o) with_shown.all_possible
        → HasTruth 1 (deal o) p'.all_possible)
unfolding start_state make
card_elim-keeps_left_example =
    card_elim-keeps_left table deal deal-IsIdentity (1 ∷ 2 ∷ []) table-FitsWith
      with_shown-IsTable.deck with_shown-IsTable.differ (make-empty 1 (omega arith)).0 refl
      (make-empty 1 (omega arith)).1 with_shown
      (history-IsSound red_only deal deal-IsIdentity (omega arith) with_shown (1 ∷ 2 ∷ [])
        shown-History).0
      with_shown-IsTable.drawn with_shown-IsTable.seen
