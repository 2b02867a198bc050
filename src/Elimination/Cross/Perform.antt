-- ===== src/Elimination/Cross/Perform.antt =====
-- `perform_elim` of `cross_elim` rules out no card's own identity.
use hanabi_bot.Base.{
  ℕ, suc, ◌+◌, ◌<◌, ◌≡◌, refl, sym, ap, ◌∙◌, inl, inr, Bool, true, false, ◌||◌, List, [], ◌∷◌, ◌++◌,
  ◌∈◌, Option, some, filter, length, All, arith, Bool-cases, Option-cases, append-mem, filter-mem,
  length-append, length-map,
}
use hanabi_bot.Base.Int.{ℤ, pos, ◌-ℤ◌, ◌≤ℤ◌, ltb_ℤ, int_laws}
use hanabi_bot.Identity.{Identity, IsIdentity, matches, matches_iff}
use hanabi_bot.IdentitySet.{IdentitySet, IsValid, has, make, union, one, array}
use hanabi_bot.IdentitySet.Members.{has-operations, operations-IsValid}
use hanabi_bot.IdentitySet.Elements.{array_mem_iff}
use hanabi_bot.State.{State}
use hanabi_bot.Elimination.{Entry, Knowledge, done, known_orders, entries_from}
use hanabi_bot.Elimination.Counting.{AllDiffer}
use hanabi_bot.Elimination.Certains.{FitsDeck, all_orders, entries_from-order, known_orders-mem}
use hanabi_bot.Elimination.Truth.{IsTrue, IsRight, AllKnown, weight}
use hanabi_bot.Elimination.Grown.{Grown, Grown-refl, Grown-trans, Same-IsSeenRight}
use hanabi_bot.Elimination.Update.{update_map-IsTrue}
use hanabi_bot.Elimination.Basic.{basic_elim-IsTrue}
use hanabi_bot.Elimination.Endgame.Cards.{IsDeckRight}
use hanabi_bot.Elimination.Cross.{
  Group, Crossing, cross_update, elim_groups, elim_ids, eliminate, cross_perform, is_outside,
  is_too_small, players_of, total_multiplicity,
}
use hanabi_bot.Elimination.Cross.Room.{cover}
use hanabi_bot.Elimination.Cross.Orders.{
  orders_of, AllDiffer-append, AllDiffer-filter, orders_of-mem, is_outside-not, same_entry,
  orders_of-entries_from, players_of-mem,
}
use hanabi_bot.Elimination.Cross.Groups.{IsPart, group_by-lem}

-- What is known since `k` is right, and it has changed only by ruling something out.
pub record IsCrossed (n : ℕ) (deal : ℕ → Identity) (orders : List ℕ) (k : Knowledge) (x : Crossing)
    : Type 0 where
  pub right : IsRight n deal orders x.knowledge
  pub grown : Grown k x.knowledge
  pub shrunk : x.changed ≡ true → weight x.knowledge.thoughts < weight k.thoughts

-- The orders that are known to be an identity are cards of a hand that are it.
pub known-deal :
    (st : State) (deal : ℕ → Identity) (k : Knowledge) (id : Identity) (o : ℕ)
    → IsTrue (length st.variant.suits) deal (all_orders st.hands) k
    → o ∈ known_orders id k.certain
    → (o ∈ all_orders st.hands) × (deal o ≡ id)
known-deal st deal k id o t m =
    let (c, mem, same, order) = known_orders-mem id k.certain o m in
    let (q, held) = t.truth c mem in (rw (← order) held, rw (← order) (sym q ∙ same))

module _ (st : State) (deal : ℕ → Identity)
    (ids : (o : ℕ) → IsIdentity (length st.variant.suits) (deal o)) (fits : FitsDeck st deal)
    (deck : IsDeckRight deal st) (differ : AllDiffer (all_orders st.hands)) where
  abbrev Crossed : Knowledge → Option Crossing → Type 0
  Crossed k res =
      (x : Crossing) × (res ≡ some x)
      × IsCrossed (length st.variant.suits) deal (all_orders st.hands) k x

  -- If the cards of an identity are among the entries `es` and the known ones, it may be ruled out
  -- for the players who have none of `es`.
  AllKnown-players :
      (es : List Entry) (certains : List ℕ) (id : Identity) (k : Knowledge)
      → ((e : Entry) → e ∈ es → e ∈ entries_from 0 st.hands)
      → ((o : ℕ) → o ∈ all_orders st.hands → deal o ≡ id → o ∈ (orders_of es ++ certains))
      → ((o : ℕ) → o ∈ certains → deal o ≡ id → o ∈ known_orders id k.certain)
      → AllKnown deal (entries_from 0 st.hands) (players_of es) id k
  AllKnown-players es certains id k sub all known e m own =
      elim (append-mem e.order (orders_of es) certains
        (all e.order (entries_from-order 0 st.hands e m) own)) [
          | inl a ↦
              let (d, mem, q) = orders_of-mem e.order es a in
              let same =
                same_entry (entries_from 0 st.hands) e d
                  (rw (orders_of-entries_from 0 st.hands) differ) m (sub d mem) (sym q) in
              inl (rw same (players_of-mem d es mem))
          | inr b ↦ inr (known e.order b own)
        ]

  cross_update-Crossed :
      (k : Knowledge) (x : Crossing) (id : Identity) (exclude : List ℕ)
      → IsIdentity (length st.variant.suits) id
      → AllKnown deal (entries_from 0 st.hands) exclude id x.knowledge
      → IsCrossed (length st.variant.suits) deal (all_orders st.hands) k x
      → Crossed k (cross_update st id exclude x)
  unfolding cross_update
  cross_update-Crossed k x id exclude w known g =
      let (r, h, t, found, grown, step) =
        update_map-IsTrue (length st.variant.suits) deal st exclude id x.knowledge w ids
          g.right.is_true known in
      rw h (
        _,
        refl,
        record {
          right = record {
            is_true = t;
            seen =
                Same-IsSeenRight deal x.knowledge.thoughts r.knowledge.thoughts grown.same
                  g.right.seen;
          };
          grown = Grown-trans g.grown grown;
          shrunk = λ c. elim step [
            | inl (none_found, same) ↦ absurd (ground (arith, sym c ∙ same))
            | inr less ↦ omega (arith, g.grown.lighter)
          ];
        },
      )

  elim_ids-Crossed :
      (k : Knowledge) (es : List Entry) (certains : List ℕ) (todo : List Identity) (x : Crossing)
      → ((e : Entry) → e ∈ es → e ∈ entries_from 0 st.hands)
      → ((i : Identity)
          → i ∈ todo
          → IsIdentity (length st.variant.suits) i
            × ((o : ℕ) → o ∈ all_orders st.hands → deal o ≡ i → o ∈ (orders_of es ++ certains)))
      → ((o : ℕ) → o ∈ certains → o ∈ known_orders (deal o) k.certain)
      → IsCrossed (length st.variant.suits) deal (all_orders st.hands) k x
      → Crossed k (elim_ids st todo (players_of es) x)
  unfolding elim_ids
  elim_ids-Crossed k es certains [] x sub all known g = (x, refl, g)
  elim_ids-Crossed k es certains (id ∷ todo) x sub all known g =
      let (w, covered) = all id (inl refl) in
      let (x', h, g') =
        cross_update-Crossed k x id (players_of es) w
          (AllKnown-players es certains id x.knowledge sub covered
            (λ o m own. rw (← own) (g.grown.known (deal o) o (known o m))))
          g in
      rw h (elim_ids-Crossed k es certains todo x' sub (λ i m. all i (inr m)) known g')

  not_less : (a b : ℤ) → ltb_ℤ a b ≡ false → b ≤ℤ a
  not_less a b h = ground arith

  module _ (base : IsValid st.base_ids)
      (suits : st.base_ids.num_suits ≡ length st.variant.suits) where
    -- A group that is large enough has, with the known cards outside of it, all cards of its identity.
    group-cover :
        (members : List Entry) (id : Identity) (k : Knowledge) (o : ℕ)
        → IsIdentity (length st.variant.suits) id
        → AllDiffer (orders_of members)
        → ((e : Entry) → e ∈ members → (e ∈ entries_from 0 st.hands) × (deal e.order ≡ id))
        → IsTrue (length st.variant.suits) deal (all_orders st.hands) k
        → is_too_small st id members k ≡ false
        → o ∈ all_orders st.hands
        → deal o ≡ id
        → o ∈ (orders_of members ++ filter (is_outside members) (known_orders id k.certain))
    unfolding union total_multiplicity make
    group-cover members id k o w d of t enough m own =
        let certains = filter (is_outside members) (known_orders id k.certain) in
        let ids_of = union st.base_ids (one id) in
        let w' : IsIdentity st.base_ids.num_suits id = rw suits w in
        let (v_meet, v_less, v) = operations-IsValid st.base_ids (one id) base w' in
        let own_in : has ids_of id ≡ true =
          let (a, b, c) = has-operations st.base_ids (one id) id base w' w' in
          let same : matches id id ≡ true = (matches_iff id id).1 refl in ground (arith, c, same) in
        let one_of : id ∈ array ids_of = (array_mem_iff ids_of id v).1 (w', own_in) in
        let long : length (orders_of members ++ certains) ≡ length members + length certains =
          length-append (orders_of members) certains
          ∙ ap (λ (x : ℕ). x + length certains) (length-map members (λ (e : Entry). e.order)) in
        let less =
          not_less (pos (length members)) (total_multiplicity st ids_of -ℤ pos (length certains))
            enough in
        cover st deal fits (array ids_of) (orders_of members ++ certains) o
          (λ i mi. rw (← suits) ((array_mem_iff ids_of i v).0 mi).0)
          (AllDiffer-append (orders_of members) certains d
            (AllDiffer-filter (is_outside members) (known_orders id k.certain) (t.differ id))
            (λ x mx.
              is_outside-not members x
                (filter-mem (is_outside members) x (known_orders id k.certain) mx).1))
          (λ x mx. elim (append-mem x (orders_of members) certains mx) [
            | inl a ↦
                let (e, mem, q) = orders_of-mem x members a in
                let (mem', same) = of e mem in
                (rw (← q) (entries_from-order 0 st.hands e mem'), rw (← q, same) one_of)
            | inr b ↦
                let (mem, same) =
                  known-deal st deal k id x t
                    (filter-mem (is_outside members) x (known_orders id k.certain) b).0 in
                (mem, rw same one_of)
          ])
          (omega (int_laws, less, long)) m (rw own one_of)

    elim_groups-Crossed :
        (k : Knowledge) (es : List Entry) (gs : List Group) (x : Crossing)
        → ((e : Entry) → e ∈ es → e ∈ entries_from 0 st.hands)
        → All (IsPart (length st.variant.suits) deal es []) gs
        → IsCrossed (length st.variant.suits) deal (all_orders st.hands) k x
        → Crossed k (elim_groups st gs x)
    unfolding elim_groups
    elim_groups-Crossed k es [] x sub h g = (x, refl, g)
    elim_groups-Crossed k es (p ∷ ps) x sub ((group, apart), hs) g = elim (Option-cases p.key) [
      | inl no_key ↦ rw (elim_groups, no_key) (elim_groups-Crossed k es ps x sub hs g)
      | inr (id, key) ↦ elim (Bool-cases (is_too_small st id p.members x.knowledge)) [
        | inl small ↦ rw (elim_groups, key, small) (elim_groups-Crossed k es ps x sub hs g)
        | inr enough ↦
            let (w, own) = group.key id key in
            let members_sub = λ (e : Entry) (m : e ∈ p.members). sub e (group.of e m) in
            let certains = filter (is_outside p.members) (known_orders id x.knowledge.certain) in
            let (x', q, g') =
              cross_update-Crossed k x id (players_of p.members) w
                (AllKnown-players p.members certains id x.knowledge members_sub
                  (λ o m same.
                    group-cover p.members id x.knowledge o w group.differ
                      (λ e mem. (members_sub e mem, own e mem)) g.right.is_true enough m same)
                  (λ o m same.
                    (filter-mem (is_outside p.members) o (known_orders id x.knowledge.certain)
                      m).0))
                g in
            rw (elim_groups, key, enough, q) (elim_groups-Crossed k es ps x' sub hs g')
      ]
    ]

    -- The entries and the known orders are all cards of `acc`, and `k` is right.
    pub record IsFull (es : List Entry) (certains : List ℕ) (acc : IdentitySet) (k : Knowledge)
        : Type 0 where
      pub entries : (e : Entry) → e ∈ es → e ∈ entries_from 0 st.hands
      pub differs : AllDiffer (orders_of es)
      pub valid : IsValid acc
      pub of_deck : acc.num_suits ≡ length st.variant.suits
      pub all :
          (o : ℕ)
          → o ∈ all_orders st.hands
          → has acc (deal o) ≡ true
          → o ∈ (orders_of es ++ certains)
      pub known : (o : ℕ) → o ∈ certains → o ∈ known_orders (deal o) k.certain
      pub right : IsRight (length st.variant.suits) deal (all_orders st.hands) k

    array-valid :
        (acc : IdentitySet)
        → IsValid acc
        → acc.num_suits ≡ length st.variant.suits
        → (i : Identity) → i ∈ array acc
        → IsIdentity (length st.variant.suits) i × (has acc i ≡ true)
    array-valid acc v suits' i m = let (w, h) = (array_mem_iff acc i v).0 m in (rw (← suits') w, h)

    eliminate-Crossed :
        (es : List Entry) (certains : List ℕ) (acc : IdentitySet) (k : Knowledge)
        → IsFull es certains acc k
        → Crossed k (eliminate st es acc k)
    unfolding eliminate
    eliminate-Crossed es certains acc k full =
        let (gs, q, parts) =
          group_by-lem (length st.variant.suits) deal st ids deck k full.right es es []
            (λ e m. entries_from-order 0 st.hands e (full.entries e m)) (λ e m. m) full.differs
            tt in
        let start : Crossing = record { knowledge = k; changed = false } in
        let (x, q', g) = elim_groups-Crossed k es gs start full.entries parts (record {
          right = full.right;
          grown = Grown-refl k;
          shrunk = λ c. absurd (ground arith);
        }) in
        rw (q, q')
          (elim_ids-Crossed k es certains (array acc) x full.entries
            (λ i m.
              let (w, h) = array-valid acc full.valid full.of_deck i m in
              (w, λ o held own. full.all o held (rw own h)))
            full.known g)

    -- `perform_elim` ends without an error, what is known stays right, and it says that something
    -- changed only if it did.
    pub cross_perform-lem :
        (es : List Entry) (certains : List ℕ) (acc : IdentitySet) (k : Knowledge)
        → IsFull es certains acc k
        → (k' : Knowledge) × (changed : Bool) × (cross_perform st es acc k ≡ done k' changed)
          × IsRight (length st.variant.suits) deal (all_orders st.hands) k'
          × Grown k k'
          × (changed ≡ true → weight k'.thoughts < weight k.thoughts)
    unfolding cross_perform
    cross_perform-lem es certains acc k full =
        let (x, q, g) = eliminate-Crossed es certains acc k full in
        let (k', b, q', t, grown, shrunk) =
          basic_elim-IsTrue st deal ids fits (suc (weight x.knowledge.thoughts)) (array acc)
            x.knowledge (omega arith) (λ i m. (array-valid acc full.valid full.of_deck i m).0)
            g.right.is_true in
        rw (q, cross_perform, q')
          (
            k',
            b || x.changed,
            refl,
            record {
              is_true = t;
              seen = Same-IsSeenRight deal x.knowledge.thoughts k'.thoughts grown.same g.right.seen;
            },
            Grown-trans g.grown grown,
            λ c. elim (Bool-cases b) [
              | inl yes_basic ↦ omega (arith, shrunk yes_basic, g.grown.lighter)
              | inr no_basic ↦ omega (arith, g.shrunk (ground (arith, c, no_basic)), grown.lighter)
            ],
          )
