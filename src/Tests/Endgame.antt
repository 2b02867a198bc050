-- ===== src/Tests/Endgame.antt =====
-- The end of a game of one suit, whose deck is drawn: the player who sees the red five in the other
-- hand does not have it.
use hanabi_bot.Base.{ℕ, ◌≡◌, refl, inl, inr, true, false, [], ◌∷◌, Option, none, some}
use hanabi_bot.Base.Int.{pos, negsuc}
use hanabi_bot.Identity.{Identity, card, identity as basic_identity}
use hanabi_bot.IdentitySet.{
  has, to_mask, slot, subtract, parse, array, array_from, length as set_length,
}
use hanabi_bot.Variants.{test, card_count as variant_card_count}
use hanabi_bot.State.{State, ActualCard, start, base_count, card_count}
use hanabi_bot.Card.{Card, new_card, identity, matches}
use hanabi_bot.Thoughts.{thought_at}
use hanabi_bot.Elimination.{Knowledge, known_orders}
use hanabi_bot.Elimination.Certains.{FitsDeck, all_orders}
use hanabi_bot.Elimination.Endgame.{endgame_elim}
use hanabi_bot.Elimination.Endgame.Cards.{IsDeckRight}
use hanabi_bot.Elimination.Grown.{Thins}
use hanabi_bot.Elimination.Truth.{IsRight}
use hanabi_bot.Elimination.Endgame.Total.{endgame_elim-IsRight}
use hanabi_bot.Tests.Elimination.{
  two_cards, deal, deal-IsIdentity, two_cards-FitsDeck, five_known-IsSound, five_known-IsTrue,
  five_known, five_only, nothing_seen,
}

abbrev pub actual : ℕ → Identity → ActualCard
actual o id = record {
  id = id;
  order = o;
  drawn_index = 0;
  clued = false;
  newly_clued = false;
  clues = [];
}

-- The first card is seen, the second is not.
abbrev last_turns : State
last_turns = record two_cards {
  cards_left = pos 0;
  deck =
      some (actual 0 (card 0 5))
      ∷ some (actual 1 (record { suit_index = negsuc 0; rank = negsuc 0 }))
      ∷ [];
}

-- Nothing is known yet.
abbrev unknown_cards : Knowledge
unknown_cards = record five_known { certain = [] }

abbrev second_card : Option Card
second_card = elim (endgame_elim last_turns true (card 0 5 ∷ []) unknown_cards) [
  | none ↦ none
  | some k ↦ thought_at k.thoughts 1
]

-- The second card is then known to be the one.
is_not_five :
    elim second_card [
      | none ↦ none
      | some c ↦ identity c (record { infer = false; symmetric = true; assume = false })
    ]
    ≡ some (card 0 1)
unfolding endgame_elim start new_card identity basic_identity base_count matches card_count
    variant_card_count test has to_mask slot set_length subtract parse array array_from
is_not_five = refl

last_turns-IsDeckRight : IsDeckRight deal last_turns
unfolding start
last_turns-IsDeckRight o m = elim m [
  | inl e ↦ rw e (_, refl, inr refl)
  | inr n ↦ elim n [ inl e ↦ rw e (_, refl, inl refl) | inr k ↦ absurd k ]
]

unknown_cards-IsRight : IsRight 1 deal (0 ∷ 1 ∷ []) unknown_cards
unfolding known_orders
unknown_cards-IsRight = record {
  is_true = record {
    sound = five_known-IsSound;
    truth = λ c m. absurd m;
    differ = λ id. tt;
    drawn = five_known-IsTrue.drawn;
  };
  seen = nothing_seen;
}

last_turns-FitsDeck : FitsDeck last_turns deal
unfolding start variant_card_count test base_count card_count
last_turns-FitsDeck = two_cards-FitsDeck

endgame_elim-IsRight_example :
    (k' : Knowledge) × (endgame_elim last_turns true (card 0 5 ∷ []) unknown_cards ≡ some k')
    × IsRight 1 deal (all_orders last_turns.hands) k'
    × Thins unknown_cards.candidates k'.candidates
unfolding start
endgame_elim-IsRight_example =
    endgame_elim-IsRight last_turns deal deal-IsIdentity last_turns-FitsDeck last_turns-IsDeckRight
      true (card 0 5 ∷ []) unknown_cards five_only unknown_cards-IsRight
