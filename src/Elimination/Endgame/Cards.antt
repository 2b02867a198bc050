-- ===== src/Elimination/Endgame/Cards.antt =====
-- What the tests of `endgame_elim` for a card say is right.
use hanabi_bot.Base.{
  ℕ, ◌≡◌, refl, sym, ap, ◌∙◌, ◌⊎◌, inl, inr, Bool, true, false, ◌||◌, ◌∈◌, none, some, arith,
  Bool-cases, Option-cases,
}
use mathlib.Core.Option.{some-injective}
use hanabi_bot.Base.Fallible.{◌||?◌, ||?-true}
use hanabi_bot.Identity.{
  Identity, IsIdentity, is_unknown, identity as basic_identity, matches as matches_id, matches_iff,
}
use hanabi_bot.State.{State, ActualCard, card_at}
use hanabi_bot.Basics.{◌>>=◌}
use hanabi_bot.Card.{Card, identity, matches}
use hanabi_bot.Thoughts.{Thoughts, thought_at}
use hanabi_bot.Player.{deck_matches}
use hanabi_bot.Elimination.{Knowledge, no_options}
use hanabi_bot.Elimination.Certains.{all_orders}
use hanabi_bot.Elimination.Truth.{IsTrue}
use hanabi_bot.Elimination.SetUp.{identity-lem}
use hanabi_bot.Elimination.Truth.{IsSeenRight}
use hanabi_bot.Elimination.Endgame.{is_copy, is_unidentified}
use hanabi_bot.Elimination.Endgame.Holders.{AreRight}

-- Each card of the deck that is seen is seen as what it is.
abbrev pub IsDeckRight : (deal : ℕ → Identity) → State → Type 0
IsDeckRight deal st =
    (o : ℕ)
    → o ∈ all_orders st.hands
    → (a : ActualCard) × (card_at st o ≡ some a) × ((is_unknown a.id ≡ true) ⊎ (a.id ≡ deal o))

deck_matches_lem :
    (a : ActualCard) (id own : Identity)
    → (is_unknown a.id ≡ true) ⊎ (a.id ≡ own)
    → deck_matches a id false ≡ true
    → own ≡ id
unfolding matches_id
deck_matches_lem a id own (inl hidden) h = absurd (ground arith)
deck_matches_lem a id own (inr seen) h =
    sym seen
    ∙ (matches_iff a.id id).0 (elim (Bool-cases (is_unknown a.id)) [
      | inl t ↦ absurd (ground arith)
      | inr f ↦ ground arith
    ])

matches_lem :
    (c : Card) (id i : Identity)
    → identity c no_options ≡ some i
    → matches c id no_options ≡ matches_id i id
unfolding matches matches_id
matches_lem c id i known = rw (known, matches) refl

matches-none :
    (c : Card) (id : Identity) → identity c no_options ≡ none → matches c id no_options ≡ false
unfolding matches
matches-none c id unknown = rw (unknown, matches) refl

pub basic_identity-shown : (id : Identity) → is_unknown id ≡ false → basic_identity id ≡ some id
unfolding basic_identity
basic_identity-shown id h = ground arith

pub basic_identity-hidden : (id : Identity) → is_unknown id ≡ true → basic_identity id ≡ none
unfolding basic_identity
basic_identity-hidden id h = ground arith

deck_matches-shown :
    (a : ActualCard) (id : Identity)
    → is_unknown a.id ≡ false
    → a.id ≡ id
    → deck_matches a id false ≡ true
unfolding matches_id
deck_matches-shown a id h e = let same = (matches_iff a.id id).1 e in ground arith

-- What the two tests give for a card of the deck and what is thought of it.
module _ (st : State) (thoughts : Thoughts) (o : ℕ) (a : ActualCard) (c : Card)
    (ea : card_at st o ≡ some a) (ec : thought_at thoughts o ≡ some c) where
  is_copy_lem :
      (id : Identity)
      → is_copy st thoughts id o ≡ some (deck_matches a id false || matches c id no_options)
  unfolding is_copy
  is_copy_lem id = rw (ea, ec) (either (deck_matches a id false) (matches c id no_options))
    where
      either : (x y : Bool) → (some x ||? some y) ≡ some (x || y)
      either true y = refl
      either false y = refl

  is_unidentified-shown : is_unknown a.id ≡ false → is_unidentified st thoughts o ≡ some false
  unfolding is_unidentified
  is_unidentified-shown h = rw (ea, ◌>>=◌, basic_identity-shown a.id h) refl

  is_unidentified-known :
      (i : Identity) → identity c no_options ≡ some i → is_unidentified st thoughts o ≡ some false
  unfolding is_unidentified
  is_unidentified-known i known = elim (Bool-cases (is_unknown a.id)) [
    | inl hidden ↦ rw (ea, ◌>>=◌, basic_identity-hidden a.id hidden, ec, ◌>>=◌, known) refl
    | inr shown ↦ is_unidentified-shown shown
  ]

  is_unidentified-open :
      is_unknown a.id ≡ true
      → identity c no_options ≡ none
      → is_unidentified st thoughts o ≡ some true
  unfolding is_unidentified
  is_unidentified-open hidden unknown =
      rw (ea, ◌>>=◌, basic_identity-hidden a.id hidden, ec, ◌>>=◌, unknown) refl

module _ (n : ℕ) (deal : ℕ → Identity) (st : State) (ids : (o : ℕ) → IsIdentity n (deal o))
    (deck : IsDeckRight deal st) where
  module _ (k : Knowledge) (id : Identity) (t : IsTrue n deal (all_orders st.hands) k)
      (right : IsSeenRight deal k.thoughts) where
    pub identified :
        (o : ℕ) (c : Card)
        → thought_at k.thoughts o ≡ some c
        → (i : Identity) → identity c no_options ≡ some i
        → i ≡ deal o
    identified o c at i e =
        let (rewound, seen) = right o c at in
        identity-lem n (deal o) i c false (ids o) (t.sound o c at) rewound seen e

    thought_true :
        (o : ℕ) (c : Card)
        → thought_at k.thoughts o ≡ some c
        → matches c id no_options ≡ true
        → deal o ≡ id
    thought_true o c at h = elim (Option-cases (identity c no_options)) [
      | inl unknown ↦ absurd (ground (arith, sym (matches-none c id unknown) ∙ h))
      | inr (i, known) ↦
          sym (identified o c at i known)
          ∙ (matches_iff i id).0 (sym (matches_lem c id i known) ∙ h)
    ]

    open_or_copy :
        (o : ℕ) (a : ActualCard) (c : Card)
        → card_at st o ≡ some a
        → thought_at k.thoughts o ≡ some c
        → (is_unknown a.id ≡ true) ⊎ (a.id ≡ deal o)
        → (is_unidentified st k.thoughts o ≡ some true)
          ⊎ ((is_unidentified st k.thoughts o ≡ some false)
              × (deal o ≡ id → is_copy st k.thoughts id o ≡ some true))
    open_or_copy o a c ea ec seen = elim (Bool-cases (is_unknown a.id)) [
      | inl hidden ↦ elim (Option-cases (identity c no_options)) [
        | inl unknown ↦ inl (is_unidentified-open st k.thoughts o a c ea ec hidden unknown)
        | inr (i, known) ↦ inr (
          is_unidentified-known st k.thoughts o a c ea ec i known,
          λ own.
              let same : matches c id no_options ≡ true =
                matches_lem c id i known ∙ (matches_iff i id).1 (identified o c ec i known ∙ own) in
              is_copy_lem st k.thoughts o a c ea ec id ∙ ap some (right_true _ _ same),
        )
      ]
      | inr shown ↦ inr (
        is_unidentified-shown st k.thoughts o a c ea ec shown,
        λ own.
            let same = deck_matches-shown a id shown (seen_as shown seen ∙ own) in
            is_copy_lem st k.thoughts o a c ea ec id ∙ ap some (left_true _ _ same),
      )
    ]
      where
        right_true : (x y : Bool) → y ≡ true → (x || y) ≡ true
        right_true x y e = ground arith

        left_true : (x y : Bool) → x ≡ true → (x || y) ≡ true
        left_true x y e = ground arith

        seen_as :
            is_unknown a.id ≡ false → (is_unknown a.id ≡ true) ⊎ (a.id ≡ deal o) → a.id ≡ deal o
        seen_as shown (inl hidden) = absurd (ground arith)
        seen_as shown (inr e) = e

    -- What the tests of a card say is right.
    pub tests-AreRight : AreRight deal st k.thoughts id (all_orders st.hands)
    tests-AreRight = record {
      copy_returns = λ o m.
          let (a, ea, seen) = deck o m in
          let (c, ec) = t.drawn o m in (_, is_copy_lem st k.thoughts o a c ea ec id);
      copy_true = λ o m h.
          let (a, ea, seen) = deck o m in
          let (c, ec) = t.drawn o m in
          elim (||?-true (some (deck_matches a id false)) (some (matches c id no_options))
            (either _ _ (sym (is_copy_lem st k.thoughts o a c ea ec id) ∙ h))) [
              | inl in_deck ↦ deck_matches_lem a id (deal o) seen (some-injective _ _ in_deck)
              | inr in_thoughts ↦ thought_true o c ec (some-injective _ _ in_thoughts)
            ];
      open_returns = λ o m.
          let (a, ea, seen) = deck o m in
          let (c, ec) = t.drawn o m in
          elim (open_or_copy o a c ea ec seen) [
            | inl open_card ↦ (true, open_card)
            | inr (shut, copy) ↦ (false, shut)
          ];
      closed_copy = λ o m h own.
          let (a, ea, seen) = deck o m in
          let (c, ec) = t.drawn o m in
          elim (open_or_copy o a c ea ec seen) [
            | inl open_card ↦ absurd (ground (arith, sym h ∙ open_card))
            | inr (shut, copy) ↦ copy own
          ];
    }
      where
        either : (x y : Bool) → some (x || y) ≡ some true → (some x ||? some y) ≡ some true
        either true y e = refl
        either false y e = e
