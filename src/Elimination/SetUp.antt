-- ===== src/Elimination/SetUp.antt =====
-- basics/player-elim.js, how `card_elim` begins: the identities that may be in the hands, the cards
-- that are known, and the candidates for the elimination by sets.
use hanabi_bot.Base.{
  ℕ, ◌≡◌, refl, sym, ◌∙◌, ◌⊎◌, inl, inr, Bool, true, false, not, ◌&&◌, ◌||◌, List, [], ◌∷◌, ◌++◌,
  ◌∈◌, Option, none, some, ◌==◌, ltb, if◌then◌else◌, some_of, arith, Bool-cases, Option-cases,
}
use mathlib.Core.Path.{subst}
use mathlib.Core.Option.{some-injective}
use hanabi_bot.Identity.{Identity, IsIdentity, is_unknown}
use hanabi_bot.IdentitySet.{IdentitySet, union, set, array, length as set_length}
use hanabi_bot.State.{State, is_basic_trash}
use hanabi_bot.Basics.{◌>>=◌}
use hanabi_bot.Card.{Card, MatchOptions, identity}
use hanabi_bot.Thoughts.{Thoughts, thought_at}
use hanabi_bot.Thoughts.Sound.{HasTruth, IsSound, AreDrawn}
use hanabi_bot.Elimination.{Certain, Entry, Knowledge, insert_certain, known_orders, entries_from}
use hanabi_bot.Elimination.Counting.{AllDiffer}
use hanabi_bot.Elimination.Certains.{
  all_orders, entries_from-order, insert_certain-AreTrue, insert_certain-AllDiffer,
}
use hanabi_bot.Elimination.Truth.{IsTrue, IsSeenRight, HasTruth-identity}

-- The first loop, which stops when every identity is possible.
unfoldable pub gather : State → Thoughts → List ℕ → IdentitySet → Option IdentitySet
gather st thoughts [] all = some all
gather st thoughts (o ∷ os) all = do
  c ← thought_at thoughts o
  let more = union all (set c.possible)
  let rest = gather st thoughts os more
  if set_length more == set_length st.all_ids then some more else rest

abbrev pub symmetric_if : Bool → MatchOptions
symmetric_if symmetric = record { infer = false; symmetric = symmetric; assume = false }

-- The test of a candidate.
unfoldable pub is_candidate : State → Card → Bool
is_candidate st c =
    ltb 1 (set_length c.possible)
    && some_of (λ p. not (is_basic_trash st p)) (array c.possible)
    && (ltb (set_length c.possible) 5 || c.actual.clued)

-- The body of the second loop; `is_common` is `this.playerIndex === -1`.
unfoldable pub set_up_card : State → (is_common : Bool) → Entry → Knowledge → Option Knowledge
unfolding is_candidate identity insert_certain
set_up_card st is_common e k = do
  c ← thought_at k.thoughts e.order
  let unknown_to : List ℕ = elim (identity c (symmetric_if true)) [
    | none ↦ e.player_index ∷ []
    | some i ↦ []
  ]
  let known : List Certain = elim (identity c (symmetric_if is_common)) [
    | none ↦ k.certain
    | some i ↦
        insert_certain (record { id = i; order = e.order; unknown_to = unknown_to }) k.certain
  ]
  some (record k {
    certain = known;
    candidates = if is_candidate st c then k.candidates ++ e ∷ [] else k.candidates;
  })

unfoldable pub set_up_cards : State → (is_common : Bool) → List Entry → Knowledge → Option Knowledge
unfolding set_up_card
set_up_cards st is_common [] k = some k
set_up_cards st is_common (e ∷ es) k = do
  k' ← set_up_card st is_common e k
  set_up_cards st is_common es k'

unfoldable pub set_up : State → (is_common : Bool) → Thoughts → Option Knowledge
unfolding set_up_cards entries_from
set_up st is_common thoughts =
    set_up_cards st is_common (entries_from 0 st.hands)
      (record { certain = []; thoughts = thoughts; candidates = []; eliminated = st.base_ids })

-- An identity that is found is the card's.
pub identity-lem :
    (n : ℕ) (own i : Identity) (c : Card) (symmetric : Bool)
    → IsIdentity n own
    → HasTruth n own c.possible
    → c.rewind_ids ≡ none
    → (is_unknown c.actual.id ≡ true) ⊎ (c.actual.id ≡ own)
    → identity c (symmetric_if symmetric) ≡ some i
    → i ≡ own
unfolding identity
identity-lem n own i c symmetric w t rewound seen h =
    elim (Bool-cases (set_length c.possible == 1)) [
      | inl one_left ↦
          let only = HasTruth-identity n own c w t one_left in
          some-injective i own (sym (rw one_left at (h)) ∙ (rw one_left at (only)))
      | inr more ↦ let shown = rw (more, rewound) at (h) in ground arith
    ]

-- One card: what is known stays true.
set_up_card-IsTrue :
    (n : ℕ) (deal : ℕ → Identity) (orders : List ℕ) (st : State) (is_common : Bool) (e : Entry)
    (k : Knowledge)
    → ((o : ℕ) → IsIdentity n (deal o))
    → IsSeenRight deal k.thoughts
    → e.order ∈ orders
    → IsTrue n deal orders k
    → (k' : Knowledge) × (set_up_card st is_common e k ≡ some k')
      × IsTrue n deal orders k'
      × (k'.thoughts ≡ k.thoughts)
unfolding set_up_card
set_up_card-IsTrue n deal orders st is_common e k ids right held t =
    let (c, at) = t.drawn e.order held in
    let (rewound, seen) = right e.order c at in
    elim (Option-cases (identity c (symmetric_if is_common))) [
      | inl unknown ↦
          rw (at, unknown)
            (
              _,
              refl,
              record { sound = t.sound; truth = t.truth; differ = t.differ; drawn = t.drawn },
              refl,
            )
      | inr (i, known) ↦
          let own =
            identity-lem n (deal e.order) i c is_common (ids e.order) (t.sound e.order c at) rewound
              seen known in
          rw (at, known)
            (
              _,
              refl,
              record {
                sound = t.sound;
                truth = insert_certain-AreTrue deal orders _ k.certain own held t.truth;
                differ = λ j. insert_certain-AllDiffer j _ k.certain (t.differ j);
                drawn = t.drawn;
              },
              refl,
            )
    ]

set_up_cards-IsTrue :
    (n : ℕ) (deal : ℕ → Identity) (orders : List ℕ) (st : State) (is_common : Bool)
    (es : List Entry) (k : Knowledge)
    → ((o : ℕ) → IsIdentity n (deal o))
    → IsSeenRight deal k.thoughts
    → ((e : Entry) → e ∈ es → e.order ∈ orders)
    → IsTrue n deal orders k
    → (k' : Knowledge) × (set_up_cards st is_common es k ≡ some k')
      × IsTrue n deal orders k'
      × (k'.thoughts ≡ k.thoughts)
unfolding set_up_cards
set_up_cards-IsTrue n deal orders st is_common [] k ids right held t = (k, refl, t, refl)
set_up_cards-IsTrue n deal orders st is_common (e ∷ es) k ids right held t =
    let (k', h, t', same) =
      set_up_card-IsTrue n deal orders st is_common e k ids right (held e (inl refl)) t in
    let (k'', h', t'', same') =
      set_up_cards-IsTrue n deal orders st is_common es k' ids
        (subst (IsSeenRight deal) (sym same) right) (λ d m. held d (inr m)) t' in
    rw h (k'', h', t'', same' ∙ same)

-- With the cards of all hands drawn, their possibilities sound and what is seen of them right,
-- `card_elim` begins without an error, and the cards that it then counts as known are what it takes
-- them for, each once; the thoughts are those given.
pub set_up-IsTrue :
    (n : ℕ) (deal : ℕ → Identity) (st : State) (is_common : Bool) (thoughts : Thoughts)
    → ((o : ℕ) → IsIdentity n (deal o))
    → IsSound n deal thoughts
    → AreDrawn thoughts (all_orders st.hands)
    → IsSeenRight deal thoughts
    → (k : Knowledge) × (set_up st is_common thoughts ≡ some k)
      × IsTrue n deal (all_orders st.hands) k
      × (k.thoughts ≡ thoughts)
unfolding set_up known_orders
set_up-IsTrue n deal st is_common thoughts ids sound drawn right =
    set_up_cards-IsTrue n deal (all_orders st.hands) st is_common (entries_from 0 st.hands) _ ids
      right (entries_from-order 0 st.hands)
      (record {
        sound = sound;
        truth = λ c m. absurd m;
        differ = λ id. no_orders id;
        drawn = drawn;
      })
  where
    no_orders : (id : Identity) → AllDiffer (known_orders id [])
    no_orders id = tt
