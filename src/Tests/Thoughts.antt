-- ===== src/Tests/Thoughts.antt =====
-- What is thought of two cards, a red one and a dark rainbow three, that are drawn and clued red, and
-- of which the second is shown.
use hanabi_bot.Base.{
  ℕ, zero, suc, ◌≡◌, ◌≢◌, refl, inl, inr, true, false, [], ◌∷◌, ◌∈◌, none, some, arith,
}
use hanabi_bot.Base.Int.{negsuc}
use hanabi_bot.Identity.{Identity, card, IsIdentity}
use hanabi_bot.IdentitySet.{
  IdentitySet, has, intersect, make, parse, length as set_length, to_mask, slot,
}
use hanabi_bot.IdentitySet.Members.{IsSubset}
use hanabi_bot.Variants.{
  colour, card_touched, touched_by, colour_touched, colour_rest, test, includes, starts_with,
  colourable_suits, name_eq,
}
use hanabi_bot.Basics.{ClueAction, assign}
use hanabi_bot.Card.{Card, new_card, reset_inferences, has_status, is_finessed, finessed}
use hanabi_bot.Card.Reset.{reset_inferences_lem}
use hanabi_bot.Thoughts.{Thoughts, includes_order, clue_thoughts, reveal_thoughts, draw_thoughts}
use hanabi_bot.Thoughts.Sound.{
  HasTruth, IsSound, AreDrawn, clue_thoughts-IsSound, draw_thoughts-IsSound,
}
use hanabi_bot.Tests.Clues.{special}

abbrev full : IdentitySet
full = record { num_suits = 4; value = 1048575 }

abbrev unknown : Identity
unknown = record { suit_index = negsuc 0; rank = negsuc 0 }

-- Order 0 is a red one, every other a dark rainbow three.
abbrev deal : ℕ → Identity
deal zero = card 0 1
deal (suc o) = card 1 3

deal-IsIdentity : (o : ℕ) → IsIdentity 4 (deal o)
deal-IsIdentity zero = (0, 1, refl, omega arith, omega arith, omega arith)
deal-IsIdentity (suc o) = (1, 3, refl, omega arith, omega arith, omega arith)

full-HasTruth : (o : ℕ) → HasTruth 4 (deal o) full
unfolding has to_mask slot
full-HasTruth zero = record { valid = omega arith; suits = refl; member = refl }
full-HasTruth (suc o) = record { valid = omega arith; suits = refl; member = refl }

abbrev t1 : Thoughts
t1 = draw_thoughts [] full 0 0 unknown

abbrev t2 : Thoughts
t2 = draw_thoughts t1 full 1 0 unknown

-- A red clue touches both cards.
abbrev red_clue : ClueAction
red_clue = record {
  giver = 1;
  target = 0;
  clue = record { type = colour; value = 0 };
  list = 0 ∷ 1 ∷ [];
}

red_rule :
    (o : ℕ)
    → o ∈ 0 ∷ 1 ∷ []
    → includes_order (0 ∷ 1 ∷ []) o ≡ card_touched (deal o) special red_clue.clue
unfolding card_touched touched_by colour_touched colour_rest test includes starts_with
    colourable_suits name_eq
red_rule o (inl e) = rw e
red_rule o (inr (inl e)) = rw e
red_rule o (inr (inr m)) = absurd m

t2-AreDrawn : AreDrawn t2 (0 ∷ 1 ∷ [])
unfolding draw_thoughts assign
t2-AreDrawn o (inl e) = rw e (_, refl)
t2-AreDrawn o (inr (inl e)) = rw e (_, refl)
t2-AreDrawn o (inr (inr m)) = absurd m

t2-IsSound : IsSound 4 deal t2
t2-IsSound =
    draw_thoughts-IsSound 4 deal t1 full 1 0 unknown
      (draw_thoughts-IsSound 4 deal [] full 0 0 unknown (λ o c h. absurd (ground arith))
        (full-HasTruth 0))
      (full-HasTruth 1)

clue_thoughts-IsSound_example :
    (ts : Thoughts) × (clue_thoughts special red_clue 5 t2 (0 ∷ 1 ∷ []) t2 ≡ some ts)
    × IsSound 4 deal ts
clue_thoughts-IsSound_example =
    clue_thoughts-IsSound special red_clue 5 deal t2 deal-IsIdentity t2-IsSound (0 ∷ 1 ∷ [])
      red_rule t2-AreDrawn

-- The second card is played.
abbrev t3 : Thoughts
t3 = elim (reveal_thoughts t2 1 (card 1 3)) [ none ↦ t2 | some ts ↦ ts ]

shown_3 : reveal_thoughts t2 1 (card 1 3) ≡ some t3
unfolding reveal_thoughts draw_thoughts assign
shown_3 = refl

-- A card whose lock, the red one, is impossible.
abbrev lost : Card
lost =
    record (new_card
      (record {
        id = unknown;
        order = 0;
        drawn_index = 0;
        clued = true;
        newly_clued = false;
        clues = [];
      })
      (record { num_suits = 4; value = 6 }) (record { num_suits = 4; value = 0 })) {
        info_lock = some (record { num_suits = 4; value = 1 });
      }

lost_possible : set_length lost.possible ≢ 0
unfolding set_length new_card
lost_possible h = omega (arith, h)

reset_inferences_lem_example :
    IsSubset (reset_inferences lost).inferred lost.possible
    × (set_length (reset_inferences lost).inferred ≢ 0)
    × ((reset_inferences lost).reset ≡ true)
    × (has_status is_finessed (reset_inferences lost).status ≡ false)
unfolding new_card
reset_inferences_lem_example =
    reset_inferences_lem lost (omega arith) (omega arith, refl) lost_possible refl

-- A finessed card whose lock is the red one and two, of which only the two is possible: the lock
-- becomes its inferences as it is.
abbrev finessed_card : Card
finessed_card = record lost {
  possible = record { num_suits = 4; value = 2 };
  info_lock = some (record { num_suits = 4; value = 3 });
  status = some finessed;
}

infers_impossible : has (reset_inferences finessed_card).inferred (card 0 1) ≡ true
unfolding reset_inferences new_card has to_mask slot set_length intersect make parse
infers_impossible = refl
