-- ===== src/Player/Hypo/Rounds.antt =====
-- The rounds of `update_hypo_stacks` end, since each that finds a playable card counts one of the
-- hands' cards as played that was not counted before.
use hanabi_bot.Base.{
  ℕ, zero, suc, ◌+◌, ◌≤◌, ◌<◌, ◌≡◌, refl, sym, ap, ◌∙◌, ◌⊎◌, inl, inr, true, false, not, ◌||◌, List,
  [], ◌∷◌, ◌++◌, ◌∈◌, ◌==◌, Option, some, arith, if◌then◌else◌, length, filter, Bool-cases,
  length-filter-le, append-mem, mem-append_left, mem-append_right,
}
use mathlib.Core.Path.{subst}
use mathlib.Core.Option.{some-injective}
use hanabi_bot.State.{State}
use hanabi_bot.Thoughts.{includes_order}
use hanabi_bot.Player.{Player, flat}
use hanabi_bot.Player.Bind.{>>=_some}
use hanabi_bot.Player.Hypo.{Hypo, try_card, try_hand, try_hands, rounds}
use hanabi_bot.Player.Hypo.Steps.{Grown, Grown-refl, Grown-trans, Effect, try_card-Effect}

includes-append :
    (xs : List ℕ) (o x : ℕ) → includes_order (xs ++ o ∷ []) x ≡ (includes_order xs x || o == x)
includes-append [] o x = ground arith
includes-append (y ∷ xs) o x = ground (arith, includes-append xs o x)

-- No order stands twice.
abbrev pub Distinct : List ℕ → Type 0
Distinct [] = Unit
Distinct (x ∷ xs) = (includes_order xs x ≡ false) × Distinct xs

append-Distinct :
    (xs : List ℕ) (o : ℕ) → includes_order xs o ≡ false → Distinct xs → Distinct (xs ++ o ∷ [])
append-Distinct [] o new d = (refl, tt)
append-Distinct (x ∷ xs) o new d =
    (ground (arith, includes-append xs o x), append-Distinct xs o (ground arith) d.1)

-- The cards of the hands that are not counted as played.
unfoldable pub left : List ℕ → List ℕ → ℕ
left orders played = length (filter (λ x. not (includes_order played x)) orders)

pub left_empty : (orders : List ℕ) → left orders [] ≤ length orders
unfolding left
left_empty orders = length-filter-le (λ x. not (includes_order [] x)) orders

left_le : (orders played : List ℕ) (o : ℕ) → left orders (played ++ o ∷ []) ≤ left orders played
unfolding left
left_le [] played o = omega arith
left_le (x ∷ orders) played o = ground (arith, left_le orders played o, includes-append played o x)

left_lt :
    (orders played : List ℕ) (o : ℕ)
    → o ∈ orders
    → includes_order played o ≡ false
    → left orders (played ++ o ∷ []) < left orders played
unfolding left
left_lt [] played o m new = absurd m
left_lt (x ∷ orders) played o (inl e) new =
    ground (arith, left_le orders played o, includes-append played o x)
left_lt (x ∷ orders) played o (inr m) new =
    ground (arith, left_lt orders played o m new, includes-append played o x)

-- What a sequence of tries changes. `all` are the orders of the hands.
pub record Progress (all : List ℕ) (h h' : Hypo) : Type 0 where
  pub grown : Grown h.stacks h'.stacks
  pub shrinks : left all h'.already_played ≤ left all h.already_played
  -- A play that is found is of a card that was not played.
  pub found :
      h'.found_new_playable ≡ true
      → (h.found_new_playable ≡ true) ⊎ (left all h'.already_played < left all h.already_played)
  pub listed :
      ((o : ℕ) → o ∈ h.already_played → o ∈ all) → (o : ℕ) → o ∈ h'.already_played → o ∈ all
  pub once : Distinct h.already_played → Distinct h'.already_played

same-Progress : (all : List ℕ) (h : Hypo) → Progress all h h
unfolding left
same-Progress all h = record {
  grown = Grown-refl h.stacks;
  shrinks = omega arith;
  found = λ e. inl e;
  listed = λ k. k;
  once = λ k. k;
}

Progress-trans :
    (all : List ℕ) (a b c : Hypo) → Progress all a b → Progress all b c → Progress all a c
Progress-trans all a b c p q = record {
  grown = Grown-trans a.stacks b.stacks c.stacks p.grown q.grown;
  shrinks = omega (arith, p.shrinks, q.shrinks);
  found = λ e. elim (q.found e) [
    | inr less ↦ inr (omega (arith, p.shrinks, less))
    | inl earlier ↦ elim (p.found earlier) [
      | inl first ↦ inl first
      | inr less ↦ inr (omega (arith, q.shrinks, less))
    ]
  ];
  listed = λ k. q.listed (p.listed k);
  once = λ k. q.once (p.once k);
}

Effect-Progress : (all : List ℕ) (o : ℕ) (h h' : Hypo) → o ∈ all → Effect o h h' → Progress all h h'
Effect-Progress all o h h' m e = record {
  grown = e.grown;
  shrinks = elim e.counted [
    | inl (played, unknown, found) ↦ omega (arith, ap (left all) played)
    | inr (new, played, unknown, found) ↦
        let less = left_lt all h.already_played o m new in omega (arith, less, ap (left all) played)
  ];
  found = λ f. elim e.counted [
    | inl (played, unknown, found) ↦ inl (sym found ∙ f)
    | inr (new, played, unknown, found) ↦
        let less = left_lt all h.already_played o m new in
        inr (omega (arith, less, ap (left all) played))
  ];
  listed = λ k x n. elim e.counted [
    | inl (played, unknown, found) ↦ k x (subst (λ (t : List ℕ). x ∈ t) played n)
    | inr (new, played, unknown, found) ↦
        elim (append-mem x h.already_played (o ∷ []) (subst (λ (t : List ℕ). x ∈ t) played n)) [
          | inl old ↦ k x old
          | inr (inl same) ↦ rw same m
          | inr (inr never) ↦ absurd never
        ]
  ];
  once = λ k. elim e.counted [
    | inl (played, unknown, found) ↦ subst Distinct (sym played) k
    | inr (new, played, unknown, found) ↦
        subst Distinct (sym played) (append-Distinct h.already_played o new k)
  ];
}

try_hand-Progress :
    (st : State) (p : Player) (ignore : Option (List ℕ)) (linked : List ℕ) (i : ℕ) (all : List ℕ)
    (os : List ℕ) (h h' : Hypo)
    → ((o : ℕ) → o ∈ os → o ∈ all)
    → try_hand st p ignore linked i os h ≡ some h'
    → Progress all h h'
unfolding try_hand
try_hand-Progress st p ignore linked i all [] h h' sub e =
    subst (Progress all h) (some-injective h h' e) (same-Progress all h)
try_hand-Progress st p ignore linked i all (o ∷ os) h h' sub e =
    let (mid, first, rest) =
      >>=_some (try_card st p ignore linked i o h) (try_hand st p ignore linked i os) h' e in
    Progress-trans all h mid h'
      (Effect-Progress all o h mid (sub o (inl refl))
        (try_card-Effect st p ignore linked i o h mid first))
      (try_hand-Progress st p ignore linked i all os mid h' (λ x m. sub x (inr m)) rest)

try_hands-Progress :
    (st : State) (p : Player) (ignore : Option (List ℕ)) (linked : List ℕ) (i : ℕ) (all : List ℕ)
    (hands : List (List ℕ)) (h h' : Hypo)
    → ((o : ℕ) → o ∈ flat hands → o ∈ all)
    → try_hands st p ignore linked i hands h ≡ some h'
    → Progress all h h'
unfolding try_hands
try_hands-Progress st p ignore linked i all [] h h' sub e =
    subst (Progress all h) (some-injective h h' e) (same-Progress all h)
try_hands-Progress st p ignore linked i all (hand ∷ hands) h h' sub e =
    let (mid, first, rest) =
      >>=_some (try_hand st p ignore linked i hand h) (try_hands st p ignore linked (i + 1) hands)
        h' e in
    Progress-trans all h mid h'
      (try_hand-Progress st p ignore linked i all hand h mid
        (λ x m. sub x (mem-append_left x hand (flat hands) m)) first)
      (try_hands-Progress st p ignore linked (i + 1) all hands mid h'
        (λ x m. sub x (mem-append_right x hand (flat hands) m)) rest)

restart :
    (all : List ℕ) (a b : Hypo)
    → Progress all a b
    → Progress all a (record b { found_new_playable = false })
restart all a b p = record {
  grown = p.grown;
  shrinks = p.shrinks;
  found = λ e. absurd (ground arith);
  listed = p.listed;
  once = p.once;
}

-- With more rounds than cards that are not played, the last round finds nothing.
pub rounds-end :
    (st : State) (p : Player) (ignore : Option (List ℕ)) (linked : List ℕ) (n : ℕ) (h h' : Hypo)
    → left (flat st.hands) h.already_played < n
    → rounds st p ignore linked n h ≡ some h'
    → (h'.found_new_playable ≡ false)
      × Progress (flat st.hands) (record h { found_new_playable = false }) h'
unfolding rounds
rounds-end st p ignore linked zero h h' lt e = absurd (omega arith)
rounds-end st p ignore linked (suc n) h h' lt e =
    let begin : Hypo = record h { found_new_playable = false } in
    let (mid, first, rest) =
      >>=_some (try_hands st p ignore linked 0 st.hands begin)
        (λ t. if t.found_new_playable then rounds st p ignore linked n t else some t) h' e in
    let round =
      try_hands-Progress st p ignore linked 0 (flat st.hands) st.hands begin mid (λ x m. m) first in
    elim (Bool-cases mid.found_new_playable) [
      | inr ends ↦
          let same : mid ≡ h' = some-injective mid h' (rw ends at (rest)) in
          subst (λ (t : Hypo). (t.found_new_playable ≡ false) × Progress (flat st.hands) begin t)
            same (ends, round)
      | inl more ↦
          let (ends, later) =
            rounds-end st p ignore linked n mid h' (omega (arith, lt, fewer mid round more))
              (rw more at (rest)) in
          (
            ends,
            Progress-trans (flat st.hands) begin (record mid { found_new_playable = false }) h'
                (restart (flat st.hands) begin mid round) later,
          )
    ]
  where
    fewer :
        (mid : Hypo)
        → Progress (flat st.hands) (record h { found_new_playable = false }) mid
        → mid.found_new_playable ≡ true
        → left (flat st.hands) mid.already_played < left (flat st.hands) h.already_played
    fewer mid round more = elim (round.found more) [
      | inl never ↦ absurd (ground arith)
      | inr less ↦ less
    ]
