-- ===== src/Tests/Players.antt =====
-- basics/Player.js in a game of two cards, of which everyone knows the identities.
use hanabi_bot.Base.{
  ℕ, ◌≡◌, refl, inl, inr, ap, true, false, List, [], ◌∷◌, ◌∈◌, Option, none, some, arith,
}
use mathlib.Core.Option.{some-injective}
use hanabi_bot.Base.Int.{negsuc}
use hanabi_bot.Base.Fallible.{Returns}
use hanabi_bot.Identity.{Identity, card}
use hanabi_bot.IdentitySet.{
  IdentitySet, IsValid, array_from, slot, to_mask, identities_to_mask, mask_onto, parse,
  length as set_length,
}
use hanabi_bot.Variants.{card_count, test}
use hanabi_bot.State.{ActualCard, card_at, start, is_playable}
use hanabi_bot.Basics.{draw_state}
use hanabi_bot.Card.{Card, new_card, clued, possibilities}
use hanabi_bot.Thoughts.{thought_at}
use hanabi_bot.Player.{Player, flat}
use hanabi_bot.Player.Playables.{thinks_playables, thinks_trash, PlayableOptions}
use hanabi_bot.Player.Safe.{HandsDrawn, thinks_playables_lem}
use hanabi_bot.Player.Hypo.{Hypo, hypo_run, update_hypo_stacks}
use hanabi_bot.Player.Hypo.Total.{
  WellPosed, IsResult, IsBest, AllTries, hypo_run-IsResult, update_hypo_stacks-IsBest,
}
use hanabi_bot.Tests.Games.{s2}

abbrev pub ids : ℕ → IdentitySet
ids value = record { num_suits = 5; value = value }

abbrev pub seen : ℕ → Identity → ActualCard
seen o id = record {
  id = id;
  order = o;
  drawn_index = 0;
  clued = true;
  newly_clued = false;
  clues = [];
}

abbrev pub known_card : ℕ → Identity → ℕ → Card
known_card o id value = record (new_card (seen o id) (ids value) (ids value)) {
  status = some clued;
}

-- Order 0 is the red one, order 1 the red five.
abbrev pub common : Player
common = record {
  player_index = negsuc 0;
  thoughts = some (known_card 0 (card 0 1) 1) ∷ some (known_card 1 (card 0 5) 16) ∷ [];
  links = [];
  play_links = [];
  hypo_stacks = [];
  hypo_plays = [];
  hypo_map = [];
  all_possible = ids 0;
  all_inferred = ids 0;
  unknown_plays = [];
  waiting_connections = [];
  elims = [];
}

abbrev asked : PlayableOptions
asked = record { assume = true; symmetric = false }

one_playable : thinks_playables s2 common 0 asked ≡ some (0 ∷ [])
unfolding thinks_playables draw_state start new_card array_from
one_playable = refl

no_trash : thinks_trash s2 common 0 ≡ some []
unfolding thinks_trash draw_state start new_card array_from set_length
no_trash = refl

abbrev stacks_of : Option Player → List ℕ
stacks_of none = []
stacks_of (some p) = p.hypo_stacks

-- Only the one can be played; the five still waits.
red_one_up : stacks_of (update_hypo_stacks s2 common) ≡ 1 ∷ 0 ∷ 0 ∷ 0 ∷ 0 ∷ []
unfolding update_hypo_stacks draw_state start new_card array_from to_mask slot parse
    identities_to_mask mask_onto card_count test
red_one_up = refl

drawn : HandsDrawn s2 common
unfolding draw_state start
drawn o (inl e) = rw e ((_, refl), (_, refl))
drawn o (inr (inl e)) = rw e ((_, refl), (_, refl))
drawn o (inr (inr m)) = absurd m

order_of : {c d : Card} → some c ≡ some d → c.actual.order ≡ d.actual.order
order_of {c = c} {d = d} t = ap (λ (x : Card). x.actual.order) (some-injective c d t)

-- Each thought is of the card of its order.
own_order :
    (o : ℕ) (c : Card)
    → o ∈ flat s2.hands
    → thought_at common.thoughts o ≡ some c
    → Returns (card_at s2 c.actual.order)
unfolding draw_state start new_card
own_order o c (inl e) t = rw (← order_of (rw e at (t))) (_, refl)
own_order o c (inr (inl e)) t = rw (← order_of (rw e at (t))) (_, refl)
own_order o c (inr (inr m)) t = absurd m

well_posed : WellPosed s2 common
unfolding draw_state start new_card
well_posed = record { drawn = drawn; orders = own_order; links = λ l m. absurd m }

hypo_run-IsResult_example : (h : Hypo) × (hypo_run s2 common none ≡ some h) × IsResult s2 h
hypo_run-IsResult_example = hypo_run-IsResult s2 common none well_posed

update_hypo_stacks-IsBest_example :
    (first : Hypo) × (hypo_run s2 common none ≡ some first)
    × IsBest s2 common first (AllTries first.duplicated_plays) (update_hypo_stacks s2 common)
update_hypo_stacks-IsBest_example = update_hypo_stacks-IsBest s2 common well_posed

r1_IsValid : IsValid (ids 1)
r1_IsValid = record { suits = omega arith; bits = omega arith }

abbrev red_one : Card
red_one = known_card 0 (card 0 1) 1

thinks_playables_lem_example : is_playable s2 (card 0 1) ≡ true
unfolding new_card array_from thinks_playables possibilities draw_state start to_mask slot
thinks_playables_lem_example =
    thinks_playables_lem s2 common 0 asked (0 ∷ []) 0 red_one (card 0 1) one_playable (inl refl)
      refl refl refl r1_IsValid (0, 1, refl, omega arith, omega arith, omega arith) refl
