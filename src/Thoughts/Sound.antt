-- ===== src/Thoughts/Sound.antt =====
-- What is seen never rules out the identity that a card has.
use hanabi_bot.Base.{
  ℕ, zero, suc, ◌≡◌, refl, ◌⊎◌, inl, inr, Bool, true, List, [], ◌∷◌, ◌∈◌, some, length, set, arith,
  Bool-cases, Option-cases,
}
use mathlib.Core.Path.{subst}
use mathlib.Core.Option.{some-injective}
use hanabi_bot.Identity.{Identity, IsIdentity, is_unknown, matches_iff}
use hanabi_bot.IdentitySet.{IdentitySet, IsValid, has, intersect, subtract, make, one, array_of}
use hanabi_bot.IdentitySet.Members.{has-operations, operations-IsValid}
use hanabi_bot.Variants.{Variant, card_touched, find_possibilities}
use hanabi_bot.Variants.Touch.{clue_narrows, IsArgument-find_possibilities}
use hanabi_bot.Basics.{ClueAction, assign}
use hanabi_bot.Card.{Card, new_card}
use hanabi_bot.Thoughts.{
  Thoughts, thought_at, includes_order, narrow, clue_thought, clue_thoughts, reveal,
  reveal_thoughts, draw_thoughts,
}

-- The possibilities of a card of identity `id`, over `n` suits, with that identity among them.
pub record HasTruth (n : ℕ) (id : Identity) (possible : IdentitySet) : Type 0 where
  pub valid : IsValid possible
  pub suits : possible.num_suits ≡ n
  pub member : has possible id ≡ true

-- `deal` gives the identity of the card of each order.
abbrev pub IsSound : ℕ → (deal : ℕ → Identity) → Thoughts → Type 0
IsSound n deal thoughts =
    (o : ℕ) (c : Card) → thought_at thoughts o ≡ some c → HasTruth n (deal o) c.possible

pub thought_at-set :
    (ts : Thoughts) (o o' : ℕ) (c d : Card)
    → thought_at (set ts o (some c)) o' ≡ some d
    → ((o' ≡ o) × (d ≡ c)) ⊎ (thought_at ts o' ≡ some d)
thought_at-set [] o o' c d h = inr h
thought_at-set (t ∷ ts) zero zero c d h = ground arith
thought_at-set (t ∷ ts) zero (suc o') c d h = inr h
thought_at-set (t ∷ ts) (suc o) zero c d h = inr h
thought_at-set (t ∷ ts) (suc o) (suc o') c d h = ground (arith, thought_at-set ts o o' c d h)

pub set-IsSound :
    (n : ℕ) (deal : ℕ → Identity) (ts : Thoughts) (o : ℕ) (c : Card)
    → IsSound n deal ts
    → HasTruth n (deal o) c.possible
    → IsSound n deal (set ts o (some c))
set-IsSound n deal ts o c sound t o' d h = elim (thought_at-set ts o o' c d h) [
  | inl (e, f) ↦ rw (e, f) t
  | inr old ↦ sound o' d old
]

-- A card that is listed exactly if it is touched keeps its identity among its possibilities.
narrow-HasTruth :
    (v : Variant) (a : ClueAction) (id : Identity) (p : IdentitySet) (is_listed : Bool)
    → IsIdentity (length v.suits) id
    → is_listed ≡ card_touched id v a.clue
    → HasTruth (length v.suits) id p
    → HasTruth (length v.suits) id (narrow is_listed p (find_possibilities a.clue v))
unfolding intersect subtract make
narrow-HasTruth v a id p is_listed w e t =
    let keeps = clue_narrows p a.clue v id t.valid t.suits (rw t.suits w) in
    let still =
      operations-IsValid p (array_of (find_possibilities a.clue v)) t.valid
        (IsArgument-find_possibilities p.num_suits a.clue v t.suits) in
    elim (Bool-cases is_listed) [
      | inl t1 ↦
          rw t1 (record {
            valid = still.0;
            suits = t.suits;
            member = ground (arith, keeps.0, t.member);
          })
      | inr t0 ↦
          rw t0 (record {
            valid = still.1;
            suits = t.suits;
            member = ground (arith, keeps.1, t.member);
          })
    ]

reveal-HasTruth :
    (n : ℕ) (id : Identity) (c : Card)
    → IsIdentity n id
    → HasTruth n id c.possible
    → HasTruth n id (reveal id c).possible
unfolding reveal intersect make
reveal-HasTruth n id c w t =
    let w' : IsIdentity c.possible.num_suits id = rw t.suits w in
    record {
      valid = (operations-IsValid c.possible (one id) t.valid w').0;
      suits = t.suits;
      member = ground (
        arith,
        (has-operations c.possible (one id) id t.valid w' w').0,
        t.member,
        (matches_iff id id).1 refl,
      );
    }

-- `narrow` reads the possibilities before the clue, and `clue_thought` stores what it gives.
clue_thought-HasTruth :
    (v : Variant) (a : ClueAction) (turn o : ℕ) (id : Identity) (before draft : Card)
    → IsIdentity (length v.suits) id
    → includes_order a.list o ≡ card_touched id v a.clue
    → HasTruth (length v.suits) id before.possible
    → HasTruth (length v.suits) id (clue_thought v a turn o before draft).possible
unfolding clue_thought
clue_thought-HasTruth v a turn o id before draft w e t =
    narrow-HasTruth v a id before.possible (includes_order a.list o) w e t

-- Every order of `hand` has a card.
abbrev pub AreDrawn : Thoughts → List ℕ → Type 0
AreDrawn thoughts hand = (o : ℕ) → o ∈ hand → (c : Card) × (thought_at thoughts o ≡ some c)

pub thought_at-set_exists :
    (ts : Thoughts) (o o' : ℕ) (c d : Card)
    → thought_at ts o' ≡ some d
    → (e : Card) × (thought_at (set ts o (some c)) o' ≡ some e)
thought_at-set_exists [] o o' c d h = absurd (ground arith)
thought_at-set_exists (t ∷ ts) zero zero c d h = (c, refl)
thought_at-set_exists (t ∷ ts) zero (suc o') c d h = (d, h)
thought_at-set_exists (t ∷ ts) (suc o) zero c d h = (d, h)
thought_at-set_exists (t ∷ ts) (suc o) (suc o') c d h = thought_at-set_exists ts o o' c d h

module _ (v : Variant) (a : ClueAction) (turn : ℕ) (deal : ℕ → Identity) (common : Thoughts)
    (ids : (o : ℕ) → IsIdentity (length v.suits) (deal o))
    (sound : IsSound (length v.suits) deal common) where
  clue_loop-IsSound :
      (hand : List ℕ) (thoughts : Thoughts)
      → ((o : ℕ) → o ∈ hand → includes_order a.list o ≡ card_touched (deal o) v a.clue)
      → AreDrawn common hand
      → AreDrawn thoughts hand
      → IsSound (length v.suits) deal thoughts
      → (thoughts' : Thoughts) × (clue_thoughts v a turn common hand thoughts ≡ some thoughts')
        × IsSound (length v.suits) deal thoughts'
  unfolding clue_thoughts
  clue_loop-IsSound [] thoughts rule drawn drawn' s = (thoughts, refl, s)
  clue_loop-IsSound (o ∷ os) thoughts rule drawn drawn' s =
      let (before, e) = drawn o (inl refl) in
      let (draft, f) = drawn' o (inl refl) in
      let c = clue_thought v a turn o before draft in
      rw (e, f)
        (clue_loop-IsSound os (set thoughts o (some c)) (λ i m. rule i (inr m))
          (λ i m. drawn i (inr m))
          (λ i m. let (d, g) = drawn' i (inr m) in thought_at-set_exists thoughts o i c d g)
          (set-IsSound (length v.suits) deal thoughts o c s (
            clue_thought-HasTruth v a turn o (deal o) before draft (ids o) (rule o (inl refl))
              (sound o before e))))

  -- A clue that names exactly the touched cards of a hand, all of them drawn, is handled, and leaves
  -- each card's identity among its possibilities.
  pub clue_thoughts-IsSound :
      (hand : List ℕ)
      → ((o : ℕ) → o ∈ hand → includes_order a.list o ≡ card_touched (deal o) v a.clue)
      → AreDrawn common hand
      → (thoughts' : Thoughts) × (clue_thoughts v a turn common hand common ≡ some thoughts')
        × IsSound (length v.suits) deal thoughts'
  clue_thoughts-IsSound hand rule drawn = clue_loop-IsSound hand common rule drawn drawn sound

thought_at-assign :
    (ts : Thoughts) (o o' : ℕ) (c d : Card)
    → thought_at (assign ts o c) o' ≡ some d
    → ((o' ≡ o) × (d ≡ c)) ⊎ (thought_at ts o' ≡ some d)
unfolding assign
thought_at-assign [] zero zero c d h = ground arith
thought_at-assign [] zero (suc o') c d h = absurd (ground arith)
thought_at-assign [] (suc o) zero c d h = absurd (ground arith)
thought_at-assign [] (suc o) (suc o') c d h = ground (arith, thought_at-assign [] o o' c d h)
thought_at-assign (t ∷ ts) zero zero c d h = ground arith
thought_at-assign (t ∷ ts) zero (suc o') c d h = inr h
thought_at-assign (t ∷ ts) (suc o) zero c d h = inr h
thought_at-assign (t ∷ ts) (suc o) (suc o') c d h = ground (arith, thought_at-assign ts o o' c d h)

pub draw_thoughts-IsSound :
    (n : ℕ) (deal : ℕ → Identity) (ts : Thoughts) (all : IdentitySet) (o turn : ℕ) (seen : Identity)
    → IsSound n deal ts
    → HasTruth n (deal o) all
    → IsSound n deal (draw_thoughts ts all o turn seen)
unfolding draw_thoughts new_card
draw_thoughts-IsSound n deal ts all o turn seen sound t o' d h =
    elim (thought_at-assign ts o o' _ d h) [ inl (e, f) ↦ rw (e, f) t | inr old ↦ sound o' d old ]

pub reveal_thoughts-IsSound :
    (n : ℕ) (deal : ℕ → Identity) (ts ts' : Thoughts) (o : ℕ)
    → ((i : ℕ) → IsIdentity n (deal i))
    → IsSound n deal ts
    → reveal_thoughts ts o (deal o) ≡ some ts'
    → IsSound n deal ts'
unfolding reveal_thoughts
reveal_thoughts-IsSound n deal ts ts' o ids sound h = elim (Bool-cases (is_unknown (deal o))) [
  | inl u ↦ subst (IsSound n deal) (some-injective _ _ (rw u at (h))) sound
  | inr k ↦ elim (Option-cases (thought_at ts o)) [
    | inl e ↦ absurd (ground arith)
    | inr (c, e) ↦ subst (IsSound n deal) (some-injective _ _ (rw (k, e) at (h))) (
        set-IsSound n deal ts o (reveal (deal o) c) sound
          (reveal-HasTruth n (deal o) c (ids o) (sound o c e)))
  ]
]
