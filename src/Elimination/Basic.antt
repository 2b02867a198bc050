-- ===== src/Elimination/Basic.antt =====
-- `basic_elim` ends, does not throw, and rules out no card's own identity.
use hanabi_bot.Base.{
  ℕ, zero, suc, ◌<◌, ◌≡◌, refl, sym, ◌∙◌, ◌⊎◌, inl, inr, Bool, true, false, List, [], ◌∷◌, ◌∈◌,
  some, length, arith, Bool-cases,
}
use hanabi_bot.Identity.{Identity, IsIdentity}
use hanabi_bot.IdentitySet.{union, one}
use hanabi_bot.State.{State}
use hanabi_bot.Elimination.{
  Knowledge, Pass, Outcome, done, with_changed, all_known, basic_loop, basic_elim,
}
use hanabi_bot.Elimination.Certains.{FitsDeck, all_orders, all_known_mem, entries_from-order}
use hanabi_bot.Elimination.Grown.{Grown, Grown-refl, Grown-trans}
use hanabi_bot.Elimination.Truth.{IsTrue, weight}
use hanabi_bot.Elimination.Update.{update_map-IsTrue}

module _ (st : State) (deal : ℕ → Identity)
    (ids : (o : ℕ) → IsIdentity (length st.variant.suits) (deal o)) (fits : FitsDeck st deal) where
  -- A pass that is true, whose identities are of the deck, and that has found some or changed
  -- something only by ruling something out since `k` was known.
  record IsGoodPass (k : Knowledge) (p : Pass) : Type 0 where
    is_true : IsTrue (length st.variant.suits) deal (all_orders st.hands) p.knowledge
    found : (i : Identity) → i ∈ p.recursive_ids → IsIdentity (length st.variant.suits) i
    grown : Grown k p.knowledge
    shrunk :
        ((p.recursive_ids ≡ []) × (p.changed ≡ false))
        ⊎ (weight p.knowledge.thoughts < weight k.thoughts)

  basic_loop-IsGoodPass :
      (todo : List Identity) (k : Knowledge) (p : Pass)
      → ((i : Identity) → i ∈ todo → IsIdentity (length st.variant.suits) i)
      → IsGoodPass k p
      → (p' : Pass) × (basic_loop st todo p ≡ some p') × IsGoodPass k p'
  unfolding basic_loop
  basic_loop-IsGoodPass [] k p valid g = (p, refl, g)
  basic_loop-IsGoodPass (id ∷ todo) k p valid g = elim (Bool-cases (all_known st id p.knowledge)) [
    | inr rest ↦ rw (rest, basic_loop) (basic_loop-IsGoodPass todo k p (λ i m. valid i (inr m)) g)
    | inl full ↦
        let t = g.is_true in
        let w = valid id (inl refl) in
        let (r, h, t', found, grown, step) =
          update_map-IsTrue (length st.variant.suits) deal st [] id
            (record p.knowledge { eliminated = union p.knowledge.eliminated (one id) }) w ids
            (record { sound = t.sound; truth = t.truth; differ = t.differ; drawn = t.drawn })
            (λ e m own. inr (
              all_known_mem st deal id p.knowledge e.order fits w t.truth (t.differ id) full
                (entries_from-order 0 st.hands e m) own)) in
        rw (full, basic_loop, h)
          (basic_loop-IsGoodPass todo k
            (record {
              knowledge = r.knowledge;
              changed = r.changed;
              recursive_ids = r.recursive_ids;
            })
            (λ i m. valid i (inr m))
            (record {
              is_true = t';
              found = found;
              grown = Grown-trans g.grown (record {
                lighter = grown.lighter;
                known = grown.known;
                thinned = grown.thinned;
                same = grown.same;
              });
              shrunk = elim step [ inl e ↦ inl e | inr lt ↦ inr (omega (arith, g.grown.lighter)) ];
            }))
  ]

  -- With more fuel than the sum of the cards' masks, `basic_elim` on identities of the deck comes to
  -- its end without an error, if what is known is true and the cards fit the deck; then what is
  -- known stays true, and so every card still has its identity among its possibilities, no order
  -- that is known is lost, the candidates are some of those before, and if it says that something
  -- changed, the sum of the masks has become smaller.
  pub basic_elim-IsTrue :
      (fuel : ℕ) (todo : List Identity) (k : Knowledge)
      → weight k.thoughts < fuel
      → ((i : Identity) → i ∈ todo → IsIdentity (length st.variant.suits) i)
      → IsTrue (length st.variant.suits) deal (all_orders st.hands) k
      → (k' : Knowledge) × (changed : Bool) × (basic_elim fuel st todo k ≡ done k' changed)
        × IsTrue (length st.variant.suits) deal (all_orders st.hands) k'
        × Grown k k'
        × (changed ≡ true → weight k'.thoughts < weight k.thoughts)
  unfolding basic_elim
  basic_elim-IsTrue zero todo k lt valid t = absurd (omega arith)
  basic_elim-IsTrue (suc fuel) todo k lt valid t =
      let start : Pass = record { knowledge = k; changed = false; recursive_ids = [] } in
      let (p, h, g) = basic_loop-IsGoodPass todo k start valid (record {
        is_true = t;
        found = λ i m. absurd m;
        grown = Grown-refl k;
        shrunk = inl (refl, refl);
      }) in
      rw (h, basic_elim)
        (again p.recursive_ids p g refl (λ id rest smaller valid'.
          basic_elim-IsTrue fuel (id ∷ rest) p.knowledge smaller valid' g.is_true))
    where
      End : Knowledge → Outcome → Type 0
      End k res =
          (k' : Knowledge) × (changed : Bool) × (res ≡ done k' changed)
          × IsTrue (length st.variant.suits) deal (all_orders st.hands) k'
          × Grown k k'
          × (changed ≡ true → weight k'.thoughts < weight k.thoughts)

      again :
          (found : List Identity) (p : Pass)
          → IsGoodPass k p
          → p.recursive_ids ≡ found
          → ((id : Identity) (rest : List Identity)
              → weight p.knowledge.thoughts < fuel
              → ((i : Identity) → i ∈ id ∷ rest → IsIdentity (length st.variant.suits) i)
              → End p.knowledge (basic_elim fuel st (id ∷ rest) p.knowledge))
          → End k (elim found [
            | [] ↦ done p.knowledge p.changed
            | (id ∷ rest) ↦ with_changed p.changed (basic_elim fuel st (id ∷ rest) p.knowledge)
          ])
      again [] p g e ih = (
        p.knowledge,
        p.changed,
        refl,
        g.is_true,
        g.grown,
        λ c. elim g.shrunk [
          | inl (none_found, same) ↦ absurd (ground (arith, sym c ∙ same))
          | inr less ↦ less
        ],
      )
      again (id ∷ rest) p g e ih =
          let less : weight p.knowledge.thoughts < weight k.thoughts = elim g.shrunk [
            | inl (none_found, same) ↦ absurd (ground arith)
            | inr less ↦ less
          ] in
          let (k', changed, h, t, grown, shrunk) = ih id rest (omega arith) (rw e at (g.found)) in
          let all = Grown-trans g.grown grown in
          rw h (k', p.changed, refl, t, all, λ c. omega (arith, grown.lighter))
