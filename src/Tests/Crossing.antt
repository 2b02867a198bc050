-- ===== src/Tests/Crossing.antt =====
-- A game of one suit, in which the three fours and fives are all in one hand, and so ruled out for
-- the card of the other.
use hanabi_bot.Base.{
  ℕ, zero, suc, ◌+◌, ◌<◌, ◌≡◌, refl, ap, ◌⊎◌, inl, inr, Bool, true, false, [], ◌∷◌, ◌∈◌, Option,
  none, some, length, every, every-mem, leb, arith,
}
use mathlib.Core.Option.{some-injective}
use hanabi_bot.Base.Int.{negsuc, ◌+ℤ◌, ◌-ℤ◌}
use hanabi_bot.Identity.{
  Identity, card, IsIdentity, is_unknown, identity as basic_identity, matches as matches_id,
}
use hanabi_bot.IdentitySet.{
  IsValid, has, make, to_mask, slot, subtract, union, parse, array, array_from,
  length as set_length,
}
use hanabi_bot.Variants.{
  codes, all_identities, test, includes, starts_with, card_count as variant_card_count,
}
use hanabi_bot.Variants.Touch.{all_identities_mem_iff}
use hanabi_bot.State.{State, start, base_count, card_count}
use hanabi_bot.Card.{Card, new_card, identity}
use hanabi_bot.Thoughts.{thought_at}
use hanabi_bot.Thoughts.Sound.{IsSound}
use hanabi_bot.Elimination.{Entry, Knowledge, done, known_orders, entries_from, entries_of}
use hanabi_bot.Elimination.Counting.{AllDiffer}
use hanabi_bot.Elimination.Certains.{FitsDeck, copies, all_orders}
use hanabi_bot.Elimination.Truth.{IsRight, IsSeenRight, weight}
use hanabi_bot.Elimination.Grown.{Grown}
use hanabi_bot.Elimination.Endgame.Cards.{IsDeckRight}
use hanabi_bot.Elimination.Cross.{cross_elim}
use hanabi_bot.Elimination.Cross.Fits.{AreCandidates}
use hanabi_bot.Elimination.Cross.Search.{cross_elim-Ends}
use hanabi_bot.Tests.Elimination.{red_only, thought}
use hanabi_bot.Tests.Endgame.{actual}

abbrev unseen : Identity
unseen = record { suit_index = negsuc 0; rank = negsuc 0 }

abbrev pub four_cards : State
four_cards = record (start red_only 2 0 false false) {
  hands = (0 ∷ 1 ∷ 2 ∷ []) ∷ (3 ∷ []) ∷ [];
  deck =
      some (actual 0 unseen)
      ∷ some (actual 1 unseen)
      ∷ some (actual 2 unseen)
      ∷ some (actual 3 unseen)
      ∷ [];
}

-- The orders 0 and 1 are the fours, 2 is the five, every other a one.
abbrev pub high_cards : ℕ → Identity
high_cards zero = card 0 4
high_cards (suc zero) = card 0 4
high_cards (suc (suc zero)) = card 0 5
high_cards (suc (suc (suc o))) = card 0 1

pub high_cards-IsIdentity : (o : ℕ) → IsIdentity 1 (high_cards o)
high_cards-IsIdentity zero = (0, 4, refl, omega arith, omega arith, omega arith)
high_cards-IsIdentity (suc zero) = (0, 4, refl, omega arith, omega arith, omega arith)
high_cards-IsIdentity (suc (suc zero)) = (0, 5, refl, omega arith, omega arith, omega arith)
high_cards-IsIdentity (suc (suc (suc o))) = (0, 1, refl, omega arith, omega arith, omega arith)

abbrev entry : ℕ → Entry
entry o = record { order = o; player_index = 0 }

-- The cards of the first hand are fours or fives, the other card is a one or a four.
abbrev pub fours_or_fives : Knowledge
fours_or_fives = record {
  certain = [];
  thoughts =
      some (thought 0 24) ∷ some (thought 1 24) ∷ some (thought 2 24) ∷ some (thought 3 9) ∷ [];
  candidates = entry 0 ∷ entry 1 ∷ entry 2 ∷ [];
  eliminated = record { num_suits = 1; value = 0 };
}

abbrev other_card : Option Card
other_card = elim (cross_elim four_cards fours_or_fives) [
  | done k changed ↦ thought_at k.thoughts 3
  | _ ↦ none
]

-- The other card is then known to be the one.
is_one_left :
    elim other_card [
      | none ↦ none
      | some c ↦ identity c (record { infer = false; symmetric = true; assume = false })
    ]
    ≡ some (card 0 1)
unfolding cross_elim start new_card identity basic_identity base_count matches_id card_count
    variant_card_count test make has to_mask slot set_length subtract union parse array array_from
    ◌+ℤ◌ ◌-ℤ◌
is_one_left = refl

same_possible : {c d : Card} → some c ≡ some d → c.possible ≡ d.possible
same_possible {c = c} {d = d} e = ap (λ (x : Card). x.possible) (some-injective c d e)

fours_or_fives-IsSound : IsSound 1 high_cards fours_or_fives.thoughts
unfolding new_card has to_mask slot
fours_or_fives-IsSound zero c e =
    rw (← same_possible e) (record { valid = omega arith; suits = refl; member = refl })
fours_or_fives-IsSound (suc zero) c e =
    rw (← same_possible e) (record { valid = omega arith; suits = refl; member = refl })
fours_or_fives-IsSound (suc (suc zero)) c e =
    rw (← same_possible e) (record { valid = omega arith; suits = refl; member = refl })
fours_or_fives-IsSound (suc (suc (suc zero))) c e =
    rw (← same_possible e) (record { valid = omega arith; suits = refl; member = refl })
fours_or_fives-IsSound (suc (suc (suc (suc o)))) c e = absurd (ground arith)

hidden :
    (c d : Card) (id : Identity)
    → d.rewind_ids ≡ none
    → is_unknown d.actual.id ≡ true
    → some d ≡ some c
    → (c.rewind_ids ≡ none) × ((is_unknown c.actual.id ≡ true) ⊎ (c.actual.id ≡ id))
hidden c d id no_rewind unknown e =
    let same = some-injective d c e in rw (← same) (no_rewind, inl unknown)

nothing_shown : IsSeenRight high_cards fours_or_fives.thoughts
unfolding new_card
nothing_shown zero c e = hidden c (thought 0 24) (card 0 4) refl refl e
nothing_shown (suc zero) c e = hidden c (thought 1 24) (card 0 4) refl refl e
nothing_shown (suc (suc zero)) c e = hidden c (thought 2 24) (card 0 5) refl refl e
nothing_shown (suc (suc (suc zero))) c e = hidden c (thought 3 9) (card 0 1) refl refl e
nothing_shown (suc (suc (suc (suc o)))) c e = absurd (ground arith)

pub fours_or_fives-IsRight : IsRight 1 high_cards (0 ∷ 1 ∷ 2 ∷ 3 ∷ []) fours_or_fives
unfolding known_orders
fours_or_fives-IsRight = record {
  is_true = record {
    sound = fours_or_fives-IsSound;
    truth = λ c m. absurd m;
    differ = λ id. tt;
    drawn = λ o m. elim m [
      | inl e ↦ rw e (_, refl)
      | inr n ↦ elim n [
        | inl e ↦ rw e (_, refl)
        | inr k ↦ elim k [
          | inl e ↦ rw e (_, refl)
          | inr l ↦ elim l [ inl e ↦ rw e (_, refl) | inr j ↦ absurd j ]
        ]
      ]
    ];
  };
  seen = nothing_shown;
}

pub four_cards-IsDeckRight : IsDeckRight high_cards four_cards
unfolding start
four_cards-IsDeckRight o m = elim m [
  | inl e ↦ rw e (_, refl, inl refl)
  | inr n ↦ elim n [
    | inl e ↦ rw e (_, refl, inl refl)
    | inr k ↦ elim k [
      | inl e ↦ rw e (_, refl, inl refl)
      | inr l ↦ elim l [ inl e ↦ rw e (_, refl, inl refl) | inr j ↦ absurd j ]
    ]
  ]
]

fits_table :
    every
      (λ id.
        leb
          (base_count four_cards id + length (copies high_cards id (all_orders four_cards.hands)))
          (card_count four_cards id))
      (all_identities (codes "Red" ∷ []))
    ≡ true
unfolding base_count card_count all_identities start variant_card_count test includes starts_with
    matches_id
fits_table = refl

pub four_cards-FitsDeck : FitsDeck four_cards high_cards
unfolding start
four_cards-FitsDeck id w =
    let m : id ∈ all_identities (codes "Red" ∷ []) =
      (all_identities_mem_iff (codes "Red" ∷ []) id).1 w in
    ground (arith, every-mem _ (all_identities (codes "Red" ∷ [])) id fits_table m)

three_orders : AllDiffer (0 ∷ 1 ∷ 2 ∷ [])
three_orders = (
  λ m. elim m [ inl e ↦ ground arith | inr n ↦ elim n [ inl e ↦ ground arith | inr j ↦ j ] ],
  ((λ m. elim m [ inl e ↦ ground arith | inr j ↦ j ]), ((λ m. m), tt)),
)

pub four_orders : AllDiffer (0 ∷ 1 ∷ 2 ∷ 3 ∷ [])
four_orders = (
  λ m. elim m [
    | inl e ↦ ground arith
    | inr n ↦ elim n [ inl e ↦ ground arith | inr k ↦ elim k [ inl e ↦ ground arith | inr j ↦ j ] ]
  ],
  (
    λ m. elim m [ inl e ↦ ground arith | inr n ↦ elim n [ inl e ↦ ground arith | inr j ↦ j ] ],
    ((λ m. elim m [ inl e ↦ ground arith | inr j ↦ j ]), ((λ m. m), tt)),
  ),
)

four_cards-AreCandidates : AreCandidates four_cards fours_or_fives.candidates
unfolding start entries_from entries_of
four_cards-AreCandidates = record {
  in_hands = λ e m. elim m [
    | inl q ↦ inl q
    | inr n ↦
        inr (elim n [ inl q ↦ inl q | inr k ↦ inr (elim k [ inl q ↦ inl q | inr j ↦ absurd j ]) ])
  ];
  once = three_orders;
}

pub four_cards-IsValid : IsValid four_cards.base_ids
unfolding start make
four_cards-IsValid = omega arith

cross_elim-Ends_example :
    (k' : Knowledge) × (changed : Bool) × (cross_elim four_cards fours_or_fives ≡ done k' changed)
    × IsRight 1 high_cards (all_orders four_cards.hands) k'
    × Grown fours_or_fives k'
    × (changed ≡ true → weight k'.thoughts < weight fours_or_fives.thoughts)
unfolding start make
cross_elim-Ends_example =
    cross_elim-Ends four_cards high_cards high_cards-IsIdentity four_cards-FitsDeck
      four_cards-IsDeckRight four_orders four_cards-IsValid refl fours_or_fives
      fours_or_fives-IsRight four_cards-AreCandidates
