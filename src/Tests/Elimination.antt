-- ===== src/Tests/Elimination.antt =====
-- A game of one suit, in which the only red five is known and so ruled out for the other card.
use hanabi_bot.Base.{
  ℕ, zero, suc, ◌+◌, ◌<◌, ◌≡◌, refl, inl, inr, Bool, true, false, [], ◌∷◌, ◌∈◌, Option, none, some,
  length, every, every-mem, leb, arith, ap, Bool-cases, sym,
}
use mathlib.Core.Option.{some-injective}
use hanabi_bot.Base.Int.{negsuc}
use hanabi_bot.Identity.{Identity, card, IsIdentity, matches, is_unknown}
use hanabi_bot.IdentitySet.{
  has, to_mask, slot, subtract, parse, array, array_from, length as set_length,
}
use hanabi_bot.Variants.{
  Variant, codes, all_identities, test, includes, starts_with, card_count as variant_card_count,
}
use hanabi_bot.Variants.Touch.{all_identities_mem_iff}
use hanabi_bot.State.{State, start, base_count, card_count}
use hanabi_bot.Card.{Card, new_card, identity}
use hanabi_bot.Thoughts.{thought_at}
use hanabi_bot.Thoughts.Sound.{IsSound}
use hanabi_bot.Elimination.{Knowledge, done, known_orders, basic_elim}
use hanabi_bot.Elimination.Certains.{FitsDeck, copies, all_orders}
use hanabi_bot.Elimination.Truth.{IsTrue, IsSeenRight, weight}
use hanabi_bot.Elimination.Grown.{Grown}
use hanabi_bot.Elimination.Basic.{basic_elim-IsTrue}
use hanabi_bot.Tests.Clues.{suits_only}

abbrev pub red_only : Variant
red_only = suits_only (codes "Red" ∷ [])

abbrev pub two_cards : State
two_cards = record (start red_only 2 0 false false) { hands = (0 ∷ []) ∷ (1 ∷ []) ∷ [] }

-- Order 0 is the red five, every other a red one.
abbrev pub deal : ℕ → Identity
deal zero = card 0 5
deal (suc o) = card 0 1

pub deal-IsIdentity : (o : ℕ) → IsIdentity 1 (deal o)
deal-IsIdentity zero = (0, 5, refl, omega arith, omega arith, omega arith)
deal-IsIdentity (suc o) = (0, 1, refl, omega arith, omega arith, omega arith)

abbrev pub thought : ℕ → ℕ → Card
thought o value =
    new_card
      (record {
        id = record { suit_index = negsuc 0; rank = negsuc 0 };
        order = o;
        drawn_index = 0;
        clued = false;
        newly_clued = false;
        clues = [];
      })
      (record { num_suits = 1; value = value }) (record { num_suits = 1; value = value })

-- The five is known; the other card is a one or a five.
abbrev pub five_known : Knowledge
five_known = record {
  certain = record { id = card 0 5; order = 0; unknown_to = [] } ∷ [];
  thoughts = some (thought 0 16) ∷ some (thought 1 17) ∷ [];
  candidates = [];
  eliminated = record { num_suits = 1; value = 0 };
}

abbrev one_left : Option Card
one_left = elim (basic_elim 40 two_cards (card 0 5 ∷ []) five_known) [
  | done k changed ↦ thought_at k.thoughts 1
  | _ ↦ none
]

-- The other card is then known to be the one.
is_one :
    elim one_left [
      | none ↦ none
      | some c ↦ identity c (record { infer = false; symmetric = true; assume = false })
    ]
    ≡ some (card 0 1)
unfolding basic_elim new_card start identity base_count matches card_count variant_card_count test
    has to_mask slot set_length subtract parse array array_from
is_one = refl

same_possible : {c d : Card} → some c ≡ some d → c.possible ≡ d.possible
same_possible {c = c} {d = d} e = ap (λ (x : Card). x.possible) (some-injective c d e)

pub five_known-IsSound : IsSound 1 deal five_known.thoughts
unfolding new_card has to_mask slot
five_known-IsSound zero c e =
    rw (← same_possible e) (record { valid = omega arith; suits = refl; member = refl })
five_known-IsSound (suc zero) c e =
    rw (← same_possible e) (record { valid = omega arith; suits = refl; member = refl })
five_known-IsSound (suc (suc o)) c e = absurd (ground arith)

fits_table :
    every
      (λ id.
        leb
          (base_count two_cards id + length (copies deal id (all_orders two_cards.hands)))
          (card_count two_cards id))
      (all_identities (codes "Red" ∷ []))
    ≡ true
unfolding base_count card_count all_identities start variant_card_count test includes starts_with
    matches
fits_table = refl

pub two_cards-FitsDeck : FitsDeck two_cards deal
unfolding start
two_cards-FitsDeck id w =
    let m : id ∈ all_identities (codes "Red" ∷ []) =
      (all_identities_mem_iff (codes "Red" ∷ []) id).1 w in
    ground (arith, every-mem _ (all_identities (codes "Red" ∷ [])) id fits_table m)

pub five_known-IsTrue : IsTrue 1 deal (0 ∷ 1 ∷ []) five_known
unfolding known_orders
five_known-IsTrue = record {
  sound = five_known-IsSound;
  truth = λ c m. elim m [ inl e ↦ rw e (refl, inl refl) | inr n ↦ absurd n ];
  differ = λ id. elim (Bool-cases (matches (card 0 5) id)) [
    | inl t ↦ rw t ((λ n. n), tt)
    | inr f ↦ rw f tt
  ];
  drawn = λ o m. elim m [
    | inl e ↦ rw e (_, refl)
    | inr n ↦ elim n [ inl e ↦ rw e (_, refl) | inr k ↦ absurd k ]
  ];
}

pub five_only : (i : Identity) → i ∈ card 0 5 ∷ [] → IsIdentity 1 i
five_only i (inl e) = rw e (deal-IsIdentity 0)
five_only i (inr m) = absurd m

basic_elim-IsTrue_example :
    (k' : Knowledge) × (changed : Bool) × (basic_elim 40 two_cards (card 0 5 ∷ []) five_known
      ≡ done k' changed)
    × IsTrue 1 deal (0 ∷ 1 ∷ []) k'
    × Grown five_known k'
    × (changed ≡ true → weight k'.thoughts < weight five_known.thoughts)
unfolding start weight new_card
basic_elim-IsTrue_example =
    basic_elim-IsTrue two_cards deal deal-IsIdentity two_cards-FitsDeck 40 (card 0 5 ∷ [])
      five_known (omega arith) five_only five_known-IsTrue

pub nothing_seen : IsSeenRight deal five_known.thoughts
unfolding new_card
nothing_seen zero c e = (
  ap (λ (x : Card). x.rewind_ids) (sym (some-injective _ c e)),
  inl (ap (λ (x : Card). is_unknown x.actual.id) (sym (some-injective _ c e))),
)
nothing_seen (suc zero) c e = (
  ap (λ (x : Card). x.rewind_ids) (sym (some-injective _ c e)),
  inl (ap (λ (x : Card). is_unknown x.actual.id) (sym (some-injective _ c e))),
)
nothing_seen (suc (suc o)) c e = absurd (ground arith)
