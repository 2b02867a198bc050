-- ===== src/Tests/Requests.antt =====
-- Requests of the player in the game of two cards: a red one is drawn and played, a clue is given.
use hanabi_bot.Base.{◌≡◌, refl, inl, List, [], ◌∷◌, some, arith}
use hanabi_bot.Identity.{Identity, card}
use hanabi_bot.Variants.{
  rank, card_touched, touched_by, rank_touched, rank_rest, test, includes, starts_with,
  card_count as variant_card_count,
}
use hanabi_bot.State.{State, start, hand_size, base_count, card_count}
use hanabi_bot.State.WellFormed.{IsWellFormed}
use hanabi_bot.Basics.{ClueAction, draw_state}
use hanabi_bot.Basics.Invariant.{IsLegalDiscard}
use hanabi_bot.Thoughts.{includes_order}
use hanabi_bot.Perform.{
  PerformAction, Action, play, rank_clue, clue_action, perform_to_action, perform_clue, sort,
}
use hanabi_bot.Perform.Legal.{handle, perform_card-IsWellFormed, perform_clue_lem}
use hanabi_bot.Tests.Clues.{no_variant}
use hanabi_bot.Tests.Games.{s2, s2-IsWellFormed}

abbrev deck : List Identity
deck = card 0 1 ∷ card 0 5 ∷ []

abbrev play_r1 : PerformAction
play_r1 = record { type = play; target = 0; value = 0 }

s2-IsLegalDiscard : IsLegalDiscard s2 0 0
unfolding draw_state start base_count card_count variant_card_count test includes starts_with
s2-IsLegalDiscard = record { suit = omega arith; rank = omega arith; copy_left = omega arith }

perform_card-IsWellFormed_example :
    (a : Action) × (st' : State) × (perform_to_action s2 play_r1 0 deck ≡ some a)
    × (handle s2 a ≡ some st')
    × IsWellFormed st'
unfolding draw_state start hand_size
perform_card-IsWellFormed_example =
    perform_card-IsWellFormed s2 play_r1 0 0 0 deck (1 ∷ 0 ∷ []) _ s2-IsWellFormed s2-IsLegalDiscard
      (inl refl) refl refl refl

abbrev clue_ones : PerformAction
clue_ones = record { type = rank_clue; target = 0; value = 1 }

abbrev ones_action : ClueAction
ones_action = record {
  giver = 1;
  target = 0;
  clue = record { type = rank; value = 1 };
  list = 0 ∷ [];
}

ones_made : perform_clue s2 rank clue_ones 1 deck ≡ some (clue_action ones_action)
unfolding perform_clue draw_state start hand_size card_touched touched_by rank_touched rank_rest
    test includes starts_with
ones_made = refl

perform_clue_lem_example :
    includes_order (0 ∷ []) 1
    ≡ card_touched (card 0 5) no_variant (record { type = rank; value = 1 })
unfolding draw_state start hand_size
perform_clue_lem_example =
    perform_clue_lem s2 rank clue_ones 1 1 deck (1 ∷ 0 ∷ []) (card 0 5) ones_action refl (inl refl)
      refl ones_made

ten_before_nine : sort (9 ∷ 10 ∷ []) ≡ 10 ∷ 9 ∷ []
unfolding sort
ten_before_nine = refl
