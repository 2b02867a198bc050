-- ===== src/Elimination/Update.antt =====
-- `update_map` rules out no card's own identity, and so never runs into a card without
-- possibilities.
use hanabi_bot.Base.{
  ℕ, ◌≤◌, ◌<◌, ◌≡◌, ◌≢◌, refl, sym, ap, ◌∙◌, ◌⊎◌, inl, inr, true, false, not, ◌&&◌, List, [], ◌∷◌,
  ◌∈◌, ◌==◌, Option, some, filter, if◌then◌else◌, arith, Bool-cases, mem-some_of, append-mem,
}
use mathlib.Core.Path.{subst}
use hanabi_bot.Identity.{Identity, IsIdentity}
use hanabi_bot.IdentitySet.{IdentitySet, has, length as set_length}
use hanabi_bot.State.{State}
use hanabi_bot.Card.{Card, reset_inferences}
use hanabi_bot.Thoughts.{thought_at, includes_order}
use hanabi_bot.Thoughts.Sound.{HasTruth}
use hanabi_bot.Elimination.{
  Certain, Entry, Knowledge, Round, known_orders, entries_from, no_elim, put, remove_id, settle,
  update_card_elim, update_cards, update_map,
}
use hanabi_bot.Elimination.Certains.{
  all_orders, entries_from-order, insert_certain-AreTrue, insert_certain-AllDiffer,
  known_orders-insert_certain,
}
use hanabi_bot.Elimination.Grown.{Knows, Same, Same-refl, Same-trans, set-Same, Grown}
use hanabi_bot.Elimination.Truth.{
  weight, weight-set, reset_inferences-possible, reset_inferences-seen, remove_id-HasTruth,
  remove_id-lt, HasTruth-length, HasTruth-identity, IsTrue, AllKnown, put-IsTrue,
}

module _ (n : ℕ) (deal : ℕ → Identity) (orders : List ℕ) (es : List Entry)
    (in_hands : (e : Entry) → e ∈ es → e.order ∈ orders) (exclude : List ℕ) (id : Identity) where
  -- The state of a round is true, keeps `id` known, and the identities it has found are of the deck.
  record IsGood (r : Round) : Type 0 where
    is_true : IsTrue n deal orders r.knowledge
    known : AllKnown deal es exclude id r.knowledge
    found : (i : Identity) → i ∈ r.recursive_ids → IsIdentity n i

  -- A round rules out something, or changes nothing and finds nothing more.
  abbrev Shrinks : Round → Round → Type 0
  Shrinks r r' =
      (weight r'.knowledge.thoughts ≤ weight r.knowledge.thoughts)
      × (((r'.recursive_ids ≡ r.recursive_ids) × (r'.changed ≡ r.changed))
          ⊎ (weight r'.knowledge.thoughts < weight r.knowledge.thoughts))

  -- A round leaves the candidates and what is seen, and what is known stays known.
  abbrev Keeps : Round → Round → Type 0
  Keeps r r' =
      (r'.knowledge.candidates ≡ r.knowledge.candidates)
      × Knows r.knowledge.certain r'.knowledge.certain
      × Same r.knowledge.thoughts r'.knowledge.thoughts

  -- The code returns a good round that shrinks `r`.
  abbrev Advances : Round → Option Round → Type 0
  Advances r res = (r' : Round) × (res ≡ some r') × IsGood r' × Shrinks r r' × Keeps r r'

  settle-lem :
      (r : Round) (e : Entry) (c : Card)
      → IsIdentity n (deal e.order)
      → IsGood r
      → e.order ∈ orders
      → HasTruth n (deal e.order) c.possible
      → (set_length c.possible == 1) ≡ true
      → (r' : Round) × (settle r e c ≡ some r')
        × IsGood r'
        × (r'.knowledge.thoughts ≡ r.knowledge.thoughts)
        × Keeps r r'
  unfolding settle
  settle-lem r e c w g held h one_left = rw (HasTruth-identity n (deal e.order) c w h one_left) (
    _,
    refl,
    record {
      is_true = record {
        sound = t.sound;
        truth = insert_certain-AreTrue deal orders new r.knowledge.certain refl held t.truth;
        differ = λ i. insert_certain-AllDiffer i new r.knowledge.certain (t.differ i);
        drawn = t.drawn;
      };
      known = λ d m own. elim (g.known d m own) [
        | inl away ↦ inl away
        | inr old ↦ inr (known_orders-insert_certain id new r.knowledge.certain d.order old)
      ];
      found = λ i m. elim (append-mem i r.recursive_ids (deal e.order ∷ []) m) [
        | inl old ↦ g.found i old
        | inr fresh ↦ last i fresh
      ];
    },
    refl,
    (
      refl,
      (λ i o m. known_orders-insert_certain i new r.knowledge.certain o m),
      Same-refl r.knowledge.thoughts,
    ),
  )
    where
      t : IsTrue n deal orders r.knowledge
      t = g.is_true

      new : Certain
      new = record { id = deal e.order; order = e.order; unknown_to = [] }

      last : (i : Identity) → i ∈ deal e.order ∷ [] → IsIdentity n i
      last i (inl q) = rw q w
      last i (inr m) = absurd m

  -- A card that is not left as it is has `id` as a possibility, and it is another identity.
  no_elim-false :
      (k : Knowledge) (e : Entry) (c : Card)
      → AllKnown deal es exclude id k
      → e ∈ es
      → no_elim id exclude k e c ≡ false
      → (deal e.order ≢ id) × (has c.possible id ≡ true)
  unfolding no_elim
  no_elim-false k e c known held h = (
    λ own. elim (known e held own) [
      | inl away ↦ absurd (ground arith)
      | inr old ↦
          let listed : includes_order (known_orders id k.certain) e.order ≡ true =
            mem-some_of _ (known_orders id k.certain) e.order old (ground arith) in
          absurd (ground arith)
    ],
    ground arith,
  )

  module _ (w : IsIdentity n id) (ids : (o : ℕ) → IsIdentity n (deal o)) where
    update_card_elim-Advances :
        (e : Entry) (r : Round) → IsGood r → e ∈ es → Advances r (update_card_elim id exclude e r)
    unfolding update_card_elim
    update_card_elim-Advances e r g held =
        let (c, at) = g.is_true.drawn e.order (in_hands e held) in
        let own = g.is_true.sound e.order c at in
        elim (Bool-cases (no_elim id exclude r.knowledge e c)) [
          | inl stay ↦
              rw (at, stay)
                (
                  r,
                  refl,
                  g,
                  (omega arith, inl (refl, refl)),
                  (refl, (λ i o m. m), Same-refl r.knowledge.thoughts),
                )
          | inr go ↦
              let other = no_elim-false r.knowledge e c g.known held go in
              let h = remove_id-HasTruth n id (deal e.order) c w (ids e.order) other.0 own in
              rw
                (at, go, HasTruth-length n (deal e.order) (remove_id c id).possible (ids e.order) h)
                (narrowed c h at (remove_id-lt n id (deal e.order) c w own other.1))
        ]
      where
        stored : (c d : Card) → HasTruth n (deal e.order) d.possible → IsGood (put r e.order d)
        stored c d h = record {
          is_true = put-IsTrue n deal orders r e.order d g.is_true h;
          known = g.known;
          found = g.found;
        }

        lighter :
            (c d : Card)
            → thought_at r.knowledge.thoughts e.order ≡ some c
            → d.possible.value < c.possible.value
            → weight (put r e.order d).knowledge.thoughts < weight r.knowledge.thoughts
        lighter c d at lt = weight-set r.knowledge.thoughts e.order c d at lt

        replaced :
            (c d : Card)
            → thought_at r.knowledge.thoughts e.order ≡ some c
            → (d.rewind_ids ≡ c.rewind_ids) × (d.actual ≡ c.actual)
            → Same r.knowledge.thoughts (put r e.order d).knowledge.thoughts
        replaced c d at seen = set-Same r.knowledge.thoughts e.order c d at seen

        narrowed :
            (c : Card)
            → HasTruth n (deal e.order) (remove_id c id).possible
            → thought_at r.knowledge.thoughts e.order ≡ some c
            → (remove_id c id).possible.value < c.possible.value
            → Advances r (
                if set_length (remove_id c id).inferred == 0 && not c.reset
                then some (put r e.order (reset_inferences (remove_id c id)))
                else if set_length (remove_id c id).possible == 1
                then settle (put r e.order (remove_id c id)) e (remove_id c id)
                else some (put r e.order (remove_id c id)))
        narrowed c h at lt =
            let d = remove_id c id in
            let same = sym (reset_inferences-possible d) in
            let less = lighter c d at lt in
            elim (Bool-cases (set_length d.inferred == 0 && not c.reset)) [
              | inl lost ↦
                  let less' =
                    lighter c (reset_inferences d) at
                      (subst (λ (p : IdentitySet). p.value < c.possible.value) same lt) in
                  rw lost (
                    _,
                    refl,
                    stored c (reset_inferences d) (subst (HasTruth n (deal e.order)) same h),
                    (omega arith, inr less'),
                    (
                      refl,
                      (λ i o m. m),
                      replaced c (reset_inferences d) at (reset_inferences-seen d),
                    ),
                  )
              | inr kept ↦ elim (Bool-cases (set_length d.possible == 1)) [
                | inl one_left ↦
                    let (r', q, g', eq, (cands, knows, same)) =
                      settle-lem (put r e.order d) e d (ids e.order) (stored c d h)
                        (in_hands e held) h one_left in
                    rw (kept, one_left)
                      (
                        r',
                        q,
                        g',
                        (rw eq (omega arith), inr (rw eq less)),
                        (
                          cands,
                          knows,
                          Same-trans r.knowledge.thoughts (put r e.order d).knowledge.thoughts
                              r'.knowledge.thoughts (replaced c d at (refl, refl)) same,
                        ),
                      )
                | inr more ↦
                    rw (kept, more)
                      (
                        _,
                        refl,
                        stored c d h,
                        (omega arith, inr less),
                        (refl, (λ i o m. m), replaced c d at (refl, refl)),
                      )
              ]
            ]

    update_cards-Advances :
        (ds : List Entry) (r : Round)
        → ((e : Entry) → e ∈ ds → e ∈ es)
        → IsGood r
        → Advances r (update_cards id exclude ds r)
    unfolding update_cards
    update_cards-Advances [] r held g = (
      r,
      refl,
      g,
      (omega arith, inl (refl, refl)),
      (refl, (λ i o m. m), Same-refl r.knowledge.thoughts),
    )
    update_cards-Advances (e ∷ ds) r held g =
        let (r', h, g', (le, step), (same, knows, seen)) =
          update_card_elim-Advances e r g (held e (inl refl)) in
        let (r'', h', g'', (le', step'), (same', knows', seen')) =
          update_cards-Advances ds r' (λ d m. held d (inr m)) g' in
        rw h (
          r'',
          h',
          g'',
          (omega arith, both r' r'' le le' step step'),
          (
            same' ∙ same,
            (λ i o m. knows' i o (knows i o m)),
            Same-trans r.knowledge.thoughts r'.knowledge.thoughts r''.knowledge.thoughts seen seen',
          ),
        )
      where
        both :
            (r' r'' : Round)
            → weight r'.knowledge.thoughts ≤ weight r.knowledge.thoughts
            → weight r''.knowledge.thoughts ≤ weight r'.knowledge.thoughts
            → ((r'.recursive_ids ≡ r.recursive_ids) × (r'.changed ≡ r.changed))
              ⊎ (weight r'.knowledge.thoughts < weight r.knowledge.thoughts)
            → ((r''.recursive_ids ≡ r'.recursive_ids) × (r''.changed ≡ r'.changed))
              ⊎ (weight r''.knowledge.thoughts < weight r'.knowledge.thoughts)
            → ((r''.recursive_ids ≡ r.recursive_ids) × (r''.changed ≡ r.changed))
              ⊎ (weight r''.knowledge.thoughts < weight r.knowledge.thoughts)
        both r' r'' le le' (inl (p, p')) (inl (q, q')) = inl (q ∙ p, q' ∙ p')
        both r' r'' le le' (inl p) (inr q) = inr (omega arith)
        both r' r'' le le' (inr p) q = inr (omega arith)

-- `update_map` does not throw and what is known stays true. It rules out something, or changes
-- nothing and finds no identity.
pub update_map-IsTrue :
    (n : ℕ) (deal : ℕ → Identity) (st : State) (exclude : List ℕ) (id : Identity) (k : Knowledge)
    → IsIdentity n id
    → ((o : ℕ) → IsIdentity n (deal o))
    → IsTrue n deal (all_orders st.hands) k
    → AllKnown deal (entries_from 0 st.hands) exclude id k
    → (r : Round) × (update_map st id exclude k ≡ some r)
      × IsTrue n deal (all_orders st.hands) r.knowledge
      × ((i : Identity) → i ∈ r.recursive_ids → IsIdentity n i)
      × Grown k r.knowledge
      × (((r.recursive_ids ≡ []) × (r.changed ≡ false))
          ⊎ (weight r.knowledge.thoughts < weight k.thoughts))
unfolding update_map
update_map-IsTrue n deal st exclude id k w ids t known =
    let (r, h, g, (le, step), (same, knows, seen)) =
      update_cards-Advances n deal (all_orders st.hands) (entries_from 0 st.hands)
        (entries_from-order 0 st.hands) exclude id w ids (entries_from 0 st.hands)
        (record { knowledge = k; changed = false; recursive_ids = []; removals = [] }) (λ e m. m)
        (record { is_true = t; known = known; found = λ i m. absurd m }) in
    let t' = g.is_true in
    rw h (
      _,
      refl,
      record { sound = t'.sound; truth = t'.truth; differ = t'.differ; drawn = t'.drawn },
      g.found,
      record { lighter = le; known = knows; thinned = (_, ap (filter _) same); same = seen },
      step,
    )
