-- ===== src/Player/Hypo/Total.antt =====
-- `update_hypo_stacks` does not throw, and what its result is.
use hanabi_bot.Base.{
  ℕ, zero, suc, ◌+◌, ◌≤◌, ◌≡◌, refl, sym, ap, ◌∙◌, false, List, [], ◌∷◌, ◌++◌, ◌∈◌, Option, none,
  some, arith, tests, if◌then◌else◌, length, get_elem?, filter, ltb, take, filter-mem, Bool-cases,
  inl, inr, mem-append_left, mem-append_right,
}
use hanabi_bot.Base.Fallible.{Returns, filter?-Returns, &&?-Returns}
use hanabi_bot.Identity.{Identity}
use hanabi_bot.State.{State, ActualCard, card_at}
use hanabi_bot.Card.{Card}
use hanabi_bot.Thoughts.{thought_at}
use hanabi_bot.Player.{
  Player, Link, flat, unknown_identities, total_unknown, is_unknown_link, linked_orders, hypo_score,
}
use hanabi_bot.Player.Bind.{>>=-Returns, if-Returns}
use hanabi_bot.Player.Safe.{HandsDrawn}
use hanabi_bot.Player.Playables.{has_consistent_inferences}
use hanabi_bot.Player.Hypo.{
  Hypo, is_hypo_playable, is_fake, existing_play, play_links_on, play_unknown, play_known,
  play_card, try_card, try_hand, try_hands, rounds, start_hypo, hypo_run, with_hypo, ignore_each,
  ignore_all, add_duplicate, is_skipped, is_fulfilled, update_hypo_stacks,
}
use hanabi_bot.Player.Hypo.Steps.{Grown}
use hanabi_bot.Player.Hypo.Rounds.{Distinct, rounds-end, left_empty}

-- The cards of the hands are drawn, each under its own order, and a link has an identity.
pub record WellPosed (st : State) (p : Player) : Type 0 where
  pub drawn : HandsDrawn st p
  pub orders :
      (o : ℕ) (c : Card)
      → o ∈ flat st.hands
      → thought_at p.thoughts o ≡ some c
      → Returns (card_at st c.actual.order)
  pub links : (l : Link) → l ∈ p.links → Returns (get_elem? l.identities 0)

module _ (st : State) (p : Player) (w : WellPosed st p) where
  unknown_identities-Returns : (id : Identity) → Returns (unknown_identities st p id)
  unfolding unknown_identities
  unknown_identities-Returns id =
      >>=-Returns _ _
        (filter?-Returns _ (flat st.hands)
          (λ o m. >>=-Returns _ _ (w.drawn o m).0 (λ c e. (_, refl))))
        (λ visible e. (_, refl))

  total_unknown-Returns : (ids : List Identity) → Returns (total_unknown st p ids)
  unfolding total_unknown
  total_unknown-Returns [] = (_, refl)
  total_unknown-Returns (id ∷ ids) =
      >>=-Returns _ _ (unknown_identities-Returns id)
        (λ n e. >>=-Returns _ _ (total_unknown-Returns ids) (λ rest f. (_, refl)))

  linked_orders-Returns : Returns (linked_orders st p)
  unfolding linked_orders is_unknown_link
  linked_orders-Returns =
      >>=-Returns _ _
        (filter?-Returns (is_unknown_link st p) p.links
          (λ l m. >>=-Returns _ _ (total_unknown-Returns l.identities) (λ n e. (_, refl))))
        (λ unknown e. (_, refl))

  is_hypo_playable-Returns :
      (h : Hypo) (o : ℕ) (c : Card)
      → o ∈ flat st.hands
      → thought_at p.thoughts o ≡ some c
      → Returns (is_hypo_playable st p h o c)
  unfolding is_hypo_playable has_consistent_inferences
  is_hypo_playable-Returns h o c m t =
      >>=-Returns _ _
        (filter?-Returns (is_fake st o) p.waiting_connections (λ wc n.
          if-Returns _ _ _ (>>=-Returns _ _ (w.drawn o m).1 (λ actual e. (_, refl))) (_, refl)))
        (λ fake e.
          &&?-Returns (has_consistent_inferences st c) _
            (>>=-Returns _ _ (w.orders o c m t) (λ actual e. (_, refl))) (_, refl))

  play_links_on-Returns :
      (ls : List Link) (h : Hypo)
      → ((l : Link) → l ∈ ls → l ∈ p.links)
      → Returns (play_links_on ls h)
  unfolding play_links_on
  play_links_on-Returns [] h sub = (_, refl)
  play_links_on-Returns (l ∷ ls) h sub =
      >>=-Returns _ _ (w.links l (sub l (inl refl)))
        (λ id e. play_links_on-Returns ls _ (λ k m. sub k (inr m)))

  play_card-Returns :
      (i o : ℕ) (c : Card) (h : Hypo) → o ∈ flat st.hands → Returns (play_card st p i o c h)
  unfolding play_card play_unknown
  play_card-Returns i o c h m =
      >>=-Returns _ _ (w.drawn o m).1
        (λ actual e. if-Returns _ _ _ (_, refl) (places actual (existing_play st p h actual) _))
    where
      unknown : Returns (play_unknown p o h)
      unknown =
          play_links_on-Returns (filter (is_fulfilled (h.unknown_plays ++ o ∷ []) o) p.links) _
            (λ l n. (filter-mem _ l p.links n).0)

      places :
          (actual : ActualCard) (existing : Option ℕ) (id : Option Identity)
          → Returns (elim existing [
            | some first ↦
                some (record h {
                  duplicated_plays = add_duplicate actual.id first o h.duplicated_plays;
                })
            | none ↦ elim id [
              | none ↦ play_unknown p o h
              | some known ↦ some (play_known o known h)
            ]
          ])
      places actual (some first) id = (_, refl)
      places actual none none = unknown
      places actual none (some known) = (_, refl)

  try_card-Returns :
      (ignore : Option (List ℕ)) (linked : List ℕ) (i o : ℕ) (h : Hypo)
      → o ∈ flat st.hands
      → Returns (try_card st p ignore linked i o h)
  unfolding try_card
  try_card-Returns ignore linked i o h m =
      if-Returns _ _ _ (_, refl)
        (>>=-Returns _ _ (w.drawn o m).0 (λ c t.
          if-Returns (is_skipped linked h o c) _ _ (_, refl)
            (>>=-Returns _ _ (is_hypo_playable-Returns h o c m t)
              (λ playable e. if-Returns playable _ _ (play_card-Returns i o c h m) (_, refl)))))

  try_hand-Returns :
      (ignore : Option (List ℕ)) (linked : List ℕ) (i : ℕ) (os : List ℕ) (h : Hypo)
      → ((o : ℕ) → o ∈ os → o ∈ flat st.hands)
      → Returns (try_hand st p ignore linked i os h)
  unfolding try_hand
  try_hand-Returns ignore linked i [] h sub = (_, refl)
  try_hand-Returns ignore linked i (o ∷ os) h sub =
      >>=-Returns _ _ (try_card-Returns ignore linked i o h (sub o (inl refl)))
        (λ mid e. try_hand-Returns ignore linked i os mid (λ x m. sub x (inr m)))

  try_hands-Returns :
      (ignore : Option (List ℕ)) (linked : List ℕ) (i : ℕ) (hands : List (List ℕ)) (h : Hypo)
      → ((o : ℕ) → o ∈ flat hands → o ∈ flat st.hands)
      → Returns (try_hands st p ignore linked i hands h)
  unfolding try_hands
  try_hands-Returns ignore linked i [] h sub = (_, refl)
  try_hands-Returns ignore linked i (hand ∷ hands) h sub =
      >>=-Returns _ _
        (try_hand-Returns ignore linked i hand h
          (λ x m. sub x (mem-append_left x hand (flat hands) m)))
        (λ mid e.
          try_hands-Returns ignore linked (i + 1) hands mid
            (λ x m. sub x (mem-append_right x hand (flat hands) m)))

  rounds-Returns :
      (ignore : Option (List ℕ)) (linked : List ℕ) (n : ℕ) (h : Hypo)
      → Returns (rounds st p ignore linked n h)
  unfolding rounds
  rounds-Returns ignore linked zero h = (_, refl)
  rounds-Returns ignore linked (suc n) h =
      >>=-Returns _ _ (try_hands-Returns ignore linked 0 st.hands _ (λ x m. m)) (λ mid e.
        if-Returns mid.found_new_playable _ _ (rounds-Returns ignore linked n mid) (_, refl))

-- The last round found nothing, no stack is lower than what has been played, and every card that is
-- counted as played is of a hand and is counted once.
pub record IsResult (st : State) (h : Hypo) : Type 0 where
  pub ended : h.found_new_playable ≡ false
  pub grown : Grown st.play_stacks h.stacks
  pub listed : (o : ℕ) → o ∈ h.already_played → o ∈ flat st.hands
  pub distinct : Distinct h.already_played

-- With the cards of the hands drawn, each thought read under its own order and an identity in every
-- link, the loops of `update_hypo_stacks` end within one round more than there are cards in the hands,
-- without an error: the last round finds no card to play. Then no stack is lower than the play stack,
-- and the cards that are counted as played are cards of the hands, each once.
pub hypo_run-IsResult :
    (st : State) (p : Player) (ignore : Option (List ℕ))
    → WellPosed st p
    → (h : Hypo) × (hypo_run st p ignore ≡ some h) × IsResult st h
unfolding hypo_run start_hypo
hypo_run-IsResult st p ignore w =
    let (linked, l) = linked_orders-Returns st p w in
    let rounds_given : ℕ = length (flat st.hands) + 1 in
    let (h, e) = rounds-Returns st p w ignore linked rounds_given (start_hypo st) in
    let (ends, progress) =
      rounds-end st p ignore linked rounds_given (start_hypo st) h
        (omega (arith, left_empty (flat st.hands))) e in
    (
      h,
      rw l e,
      record {
        ended = ends;
        grown = progress.grown;
        listed = progress.listed (λ o m. absurd m);
        distinct = progress.once tt;
      },
    )

-- The sets of ignored orders that are tried for one identity: the first order, and then one order more
-- in each try.
abbrev pub IsTry : (ignore orders tried : List ℕ) → Type 0
IsTry ignore orders tried =
    (n : ℕ) × (1 ≤ n) × (n ≤ length orders) × (tried ≡ ignore ++ take n orders)

-- The sets that are tried for all duplicated plays.
abbrev pub AllTries : List (Identity × List ℕ) → List ℕ → Type 0
AllTries ds tried =
    (id : Identity) × (orders : List ℕ) × ((id, orders) ∈ ds) × IsTry (take 1 orders) orders tried

-- The result of loops that ignore some orders or none, at least as good as `b` and as the results of
-- the loops for all sets of ignored orders in `Tries`.
abbrev pub IsBest : State → Player → Hypo → (Tries : List ℕ → Type 0) → Option Player → Type 0
IsBest st p b Tries result =
    (h : Hypo) × (result ≡ some (with_hypo p h))
    × ((ignore : Option (List ℕ)) × (hypo_run st p ignore ≡ some h))
    × IsResult st h
    × (hypo_score (with_hypo p b) ≤ hypo_score (with_hypo p h))
    × ((tried : List ℕ)
        → Tries tried
        → (other : Hypo) × (hypo_run st p (some tried) ≡ some other)
          × (hypo_score (with_hypo p other) ≤ hypo_score (with_hypo p h)))

IsRun : State → Player → Hypo → Type 0
IsRun st p b = ((ignore : Option (List ℕ)) × (hypo_run st p ignore ≡ some b)) × IsResult st b

append_assoc : (xs ys zs : List ℕ) → (xs ++ ys) ++ zs ≡ xs ++ (ys ++ zs)
append_assoc [] ys zs = refl
append_assoc (x ∷ xs) ys zs = ap (λ (ws : List ℕ). x ∷ ws) (append_assoc xs ys zs)

not_less : (a b : ℕ) → ltb a b ≡ false → b ≤ a
not_less a b h = ground arith

ignore_each-IsBest :
    (st : State) (p : Player) (ignore orders : List ℕ) (b : Hypo)
    → WellPosed st p
    → IsRun st p b
    → IsBest st p b (IsTry ignore orders) (ignore_each st p ignore orders (with_hypo p b))
unfolding ignore_each IsRun
ignore_each-IsBest st p ignore [] b w (run, good) =
    (b, refl, run, good, omega arith, λ tried (n, low, high, e). absurd (omega arith))
ignore_each-IsBest st p ignore (o ∷ os) b w (run, good) =
    let (h, e, result) = hypo_run-IsResult st p (some (ignore ++ o ∷ [])) w in
    let kept = ignore_each-IsBest st p (ignore ++ o ∷ []) os b w (run, good) in
    let better =
      ignore_each-IsBest st p (ignore ++ o ∷ []) os h w ((some (ignore ++ o ∷ []), e), result) in
    rw e (choose h e kept better)
  where
    -- The first try is `h`, each other one is a try of the rest.
    all_tries :
        (h top : Hypo)
        → hypo_run st p (some (ignore ++ o ∷ [])) ≡ some h
        → hypo_score (with_hypo p h) ≤ hypo_score (with_hypo p top)
        → ((tried : List ℕ)
            → IsTry (ignore ++ o ∷ []) os tried
            → (other : Hypo) × (hypo_run st p (some tried) ≡ some other)
              × (hypo_score (with_hypo p other) ≤ hypo_score (with_hypo p top)))
        → (tried : List ℕ) → IsTry ignore (o ∷ os) tried
        → (other : Hypo) × (hypo_run st p (some tried) ≡ some other)
          × (hypo_score (with_hypo p other) ≤ hypo_score (with_hypo p top))
    all_tries h top e le rest tried (zero, low, high, q) = absurd (omega arith)
    all_tries h top e le rest tried (suc zero, low, high, q) = rw q (h, e, le)
    all_tries h top e le rest tried (suc (suc n), low, high, q) =
        rest tried (
          suc n,
          omega arith,
          omega arith,
          q ∙ sym (append_assoc ignore (o ∷ []) (take (suc n) os)),
        )

    choose :
        (h : Hypo)
        → hypo_run st p (some (ignore ++ o ∷ [])) ≡ some h
        → IsBest st p b
            (IsTry (ignore ++ o ∷ []) os)
            (ignore_each st p (ignore ++ o ∷ []) os (with_hypo p b))
        → IsBest st p h
            (IsTry (ignore ++ o ∷ []) os)
            (ignore_each st p (ignore ++ o ∷ []) os (with_hypo p h))
        → IsBest st p b (IsTry ignore (o ∷ os)) (
            ignore_each st p (ignore ++ o ∷ []) os (
              if ltb (hypo_score (with_hypo p b)) (hypo_score (with_hypo p h))
              then with_hypo p h
              else with_hypo p b))
    choose h e kept (top, f, run', good', more, tries) =
        elim (Bool-cases (ltb (hypo_score (with_hypo p b)) (hypo_score (with_hypo p h)))) [
          | inl t ↦ rw t (top, f, run', good', omega (tests, t, more), all_tries h top e more tries)
          | inr not_better ↦
              let (top', f', run'', good'', more', tries') = kept in
              rw not_better (
                top',
                f',
                run'',
                good'',
                more',
                all_tries h top' e (omega (arith, not_less _ _ not_better, more')) tries',
              )
        ]

ignore_all-IsBest :
    (st : State) (p : Player) (ds : List (Identity × List ℕ)) (b : Hypo)
    → WellPosed st p
    → IsRun st p b
    → IsBest st p b (AllTries ds) (ignore_all st p ds (with_hypo p b))
unfolding ignore_all IsRun
ignore_all-IsBest st p [] b w (run, good) =
    (b, refl, run, good, omega arith, λ tried (id, orders, m, t). absurd m)
ignore_all-IsBest st p ((id, orders) ∷ ds) b w r =
    let (h, e, run, result, more, tries) = ignore_each-IsBest st p (take 1 orders) orders b w r in
    let (top, f, run', best, yet, later) = ignore_all-IsBest st p ds h w (run, result) in
    (
      top,
      rw e f,
      run',
      best,
      omega (arith, more, yet),
      λ tried (id', orders', m, t). elim m [
        | inl q ↦ first_tries h top tries yet tried orders' (ap snd q) t
        | inr n ↦ later tried (id', orders', n, t)
      ],
    )
  where
    snd : Identity × List ℕ → List ℕ
    snd (x, y) = y

    first_tries :
        (h top : Hypo)
        → ((tried : List ℕ)
            → IsTry (take 1 orders) orders tried
            → (other : Hypo) × (hypo_run st p (some tried) ≡ some other)
              × (hypo_score (with_hypo p other) ≤ hypo_score (with_hypo p h)))
        → hypo_score (with_hypo p h) ≤ hypo_score (with_hypo p top)
        → (tried orders' : List ℕ) → orders' ≡ orders
        → IsTry (take 1 orders') orders' tried
        → (other : Hypo) × (hypo_run st p (some tried) ≡ some other)
          × (hypo_score (with_hypo p other) ≤ hypo_score (with_hypo p top))
    first_tries h top tries yet tried orders' q t =
        let (other, e, le) = tries tried (rw q at (t)) in (other, e, omega (arith, le, yet))

-- Under the conditions of the loops, `update_hypo_stacks` ends without an error in the result of loops
-- that ignore some orders or none. Its score is at least that of the loops that ignore no card, and,
-- for each identity of which these find two plays, at least that of all loops that ignore the first of
-- its orders and the first `n` of them, from one to all.
pub update_hypo_stacks-IsBest :
    (st : State) (p : Player)
    → WellPosed st p
    → (first : Hypo) × (hypo_run st p none ≡ some first)
      × IsBest st p first (AllTries first.duplicated_plays) (update_hypo_stacks st p)
unfolding update_hypo_stacks IsRun
update_hypo_stacks-IsBest st p w =
    let (h, e, result) = hypo_run-IsResult st p none w in
    (h, e, rw e (ignore_all-IsBest st p h.duplicated_plays h w ((none, e), result)))
