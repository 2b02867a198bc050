-- ===== src/Tests/Whole.antt =====
-- All of `card_elim` for everyone in the game of Crossing, in which the four is ruled out for the card
-- of the second hand.
use hanabi_bot.Base.{◌≡◌, refl, true, false, [], ◌∷◌, Option, none, some}
use hanabi_bot.Base.Int.{negsuc, ◌+ℤ◌, ◌-ℤ◌}
use hanabi_bot.Identity.{card, identity as basic_identity, matches as matches_id}
use hanabi_bot.IdentitySet.{
  has, make, to_mask, slot, subtract, union, parse, array, array_from, length as set_length,
}
use hanabi_bot.Variants.{test, card_count as variant_card_count}
use hanabi_bot.State.{start, base_count, card_count, is_basic_trash}
use hanabi_bot.Card.{Card, new_card, identity}
use hanabi_bot.Thoughts.{thought_at}
use hanabi_bot.Thoughts.Sound.{IsSound, AreDrawn}
use hanabi_bot.Player.{Player}
use hanabi_bot.Elimination.Certains.{all_orders}
use hanabi_bot.Elimination.Whole.{eliminated, card_elim}
use hanabi_bot.Elimination.Whole.Total.{card_elim-IsSound}
use hanabi_bot.Tests.Crossing.{
  four_cards, high_cards, high_cards-IsIdentity, fours_or_fives, fours_or_fives-IsRight,
  four_cards-FitsDeck, four_cards-IsDeckRight, four_orders, four_cards-IsValid,
}

abbrev everyone : Player
everyone = record {
  player_index = negsuc 0;
  thoughts = fours_or_fives.thoughts;
  links = [];
  play_links = [];
  hypo_stacks = 0 ∷ [];
  hypo_plays = [];
  hypo_map = [];
  all_possible = record { num_suits = 1; value = 31 };
  all_inferred = record { num_suits = 1; value = 31 };
  unknown_plays = [];
  waiting_connections = [];
  elims = [];
}

abbrev last_card : Option Card
last_card = elim (card_elim everyone four_cards) [
  | eliminated p ↦ thought_at p.thoughts 3
  | _ ↦ none
]

-- The last card is then known to be the one.
is_known :
    elim last_card [
      | none ↦ none
      | some c ↦ identity c (record { infer = false; symmetric = true; assume = false })
    ]
    ≡ some (card 0 1)
unfolding card_elim start new_card identity basic_identity base_count matches_id card_count
    variant_card_count test make has to_mask slot set_length subtract union parse array array_from
    ◌+ℤ◌ ◌-ℤ◌ is_basic_trash
is_known = refl

card_elim-IsSound_example :
    (p' : Player) × (card_elim everyone four_cards ≡ eliminated p')
    × IsSound 1 high_cards p'.thoughts
    × AreDrawn p'.thoughts (all_orders four_cards.hands)
unfolding start make
card_elim-IsSound_example =
    card_elim-IsSound four_cards high_cards high_cards-IsIdentity four_cards-FitsDeck
      four_cards-IsDeckRight four_orders four_cards-IsValid refl everyone
      fours_or_fives-IsRight.is_true.sound fours_or_fives-IsRight.is_true.drawn
      fours_or_fives-IsRight.seen
