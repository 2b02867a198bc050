-- ===== src/Elimination/Backed/Basic.antt =====
-- `update_map` and `basic_elim` rule out for the deck only identities whose copies are all counted.
use hanabi_bot.Base.{
  ℕ, zero, suc, ◌+◌, ◌≡◌, refl, inl, inr, Bool, true, not, ◌&&◌, ◌==◌, List, [], ◌∷◌, ◌∈◌, Option,
  none, some, length, arith, Bool-cases, append-mem,
}
use hanabi_bot.Identity.{Identity, IsIdentity, matches, matches_iff}
use hanabi_bot.IdentitySet.{union, one, make, length as set_length}
use hanabi_bot.IdentitySet.Members.{has-operations, operations-IsValid}
use hanabi_bot.State.{State, base_count, card_count}
use hanabi_bot.Card.{Card, identity, reset_inferences}
use hanabi_bot.Thoughts.{thought_at}
use hanabi_bot.Elimination.{
  Entry, Knowledge, Round, Pass, Outcome, done, threw, out_of_fuel, known_orders, no_options,
  remove_id, put, no_elim, settle, update_card_elim, update_cards, entries_from, update_map,
  all_known, basic_loop, basic_elim, with_changed,
}
use hanabi_bot.Elimination.Truth.{reset_inferences-possible}
use hanabi_bot.Elimination.Backed.{
  Holds, >>=-Holds, read-Holds, if-Holds, Leaves, IsOver, subtract-IsOver, identity-IsIdentity,
  IsBacked, insert-IsBacked, set-IsBacked, thin-IsBacked,
}

module _ (st : State) where
  -- In a round, what is known is backed, and the identities that it has found are of the deck.
  record IsBackedRound (r : Round) : Type 0 where
    backed : IsBacked st r.knowledge
    found : (i : Identity) → i ∈ r.recursive_ids → IsIdentity (length st.variant.suits) i

  settle-IsBackedRound :
      (r : Round) (e : Entry) (c : Card)
      → IsBackedRound r
      → IsOver (length st.variant.suits) c.possible
      → (set_length c.possible == 1) ≡ true
      → Holds IsBackedRound (settle r e c)
  unfolding settle
  settle-IsBackedRound r e c g over one_left =
      read-Holds IsBackedRound (identity c no_options) _ (λ id at. record {
        backed = insert-IsBacked st r.knowledge _ g.backed;
        found = λ i m. elim (append-mem i r.recursive_ids (id ∷ []) m) [
          | inl old ↦ g.found i old
          | inr (inl q) ↦ rw q (identity-IsIdentity (length st.variant.suits) c id over one_left at)
          | inr (inr n) ↦ absurd n
        ];
      })

  put-IsBackedRound :
      (r : Round) (o : ℕ) (c : Card)
      → IsBackedRound r
      → IsOver (length st.variant.suits) c.possible
      → IsBackedRound (put r o c)
  put-IsBackedRound r o c g over = record {
    backed = set-IsBacked st r.knowledge o c g.backed over;
    found = g.found;
  }

  update_card_elim-IsBackedRound :
      (id : Identity) (exclude : List ℕ) (e : Entry) (r : Round)
      → IsBackedRound r
      → Holds IsBackedRound (update_card_elim id exclude e r)
  unfolding update_card_elim
  update_card_elim-IsBackedRound id exclude e r g =
      read-Holds IsBackedRound (thought_at r.knowledge.thoughts e.order) _ (λ c at.
        let d = remove_id c id in
        let over =
          subtract-IsOver (length st.variant.suits) c.possible (one id)
            (g.backed.possible e.order c at) in
        if-Holds IsBackedRound (no_elim id exclude r.knowledge e c) _ _ (λ kept. g)
          (λ ruled.
            if-Holds IsBackedRound (set_length d.possible == 0) _ _ (λ empty. tt)
              (λ some_left.
                if-Holds IsBackedRound (set_length d.inferred == 0 && not c.reset) _ _
                  (λ lost.
                    put-IsBackedRound r e.order (reset_inferences d) g
                      (rw (reset_inferences-possible d) over))
                  (λ held.
                    if-Holds IsBackedRound (set_length d.possible == 1) _ _
                      (λ one_left.
                        settle-IsBackedRound (put r e.order d) e d
                          (put-IsBackedRound r e.order d g over) over one_left)
                      (λ more. put-IsBackedRound r e.order d g over)))))

  update_cards-IsBackedRound :
      (id : Identity) (exclude : List ℕ) (es : List Entry) (r : Round)
      → IsBackedRound r
      → Holds IsBackedRound (update_cards id exclude es r)
  unfolding update_cards
  update_cards-IsBackedRound id exclude [] r g = g
  update_cards-IsBackedRound id exclude (e ∷ es) r g =
      >>=-Holds IsBackedRound IsBackedRound (update_card_elim id exclude e r) _
        (update_card_elim-IsBackedRound id exclude e r g)
        (λ r' q g'. update_cards-IsBackedRound id exclude es r' g')

  -- `update_map` keeps what is known backed and finds identities of the deck.
  pub update_map-IsBacked :
      (id : Identity) (exclude : List ℕ) (k : Knowledge)
      → IsBacked st k
      → Holds
          (λ r.
            IsBacked st r.knowledge
            × ((i : Identity) → i ∈ r.recursive_ids → IsIdentity (length st.variant.suits) i))
          (update_map st id exclude k)
  unfolding update_map
  update_map-IsBacked id exclude k g =
      >>=-Holds IsBackedRound _ (update_cards id exclude (entries_from 0 st.hands) _) _
        (update_cards-IsBackedRound id exclude (entries_from 0 st.hands) _
          (record { backed = g; found = λ i m. absurd m }))
        (λ r q g'. (thin-IsBacked st r.knowledge _ g'.backed, g'.found))

  -- An identity of which all copies are counted can be ruled out for the deck.
  union-IsBacked :
      (k : Knowledge) (id : Identity)
      → IsIdentity (length st.variant.suits) id
      → all_known st id k ≡ true
      → IsBacked st k
      → IsBacked st (record k { eliminated = union k.eliminated (one id) })
  unfolding union make
  union-IsBacked k id w full g =
      let (suits, valid) = g.ruled in
      record {
        possible = g.possible;
        ruled = (suits, (operations-IsValid k.eliminated (one id) valid (rw suits w)).2);
        counted = λ i wi at.
            let has_either =
              (has-operations k.eliminated (one id) i valid (rw suits w) (rw suits wi)).2 in
            elim (Bool-cases (matches id i)) [
              | inl same ↦ rw (← (matches_iff id i).0 same) (omega (arith, counted_all full))
              | inr other ↦ g.counted i wi (ground (arith, has_either, at, other))
            ];
      }
    where
      counted_all :
          all_known st id k ≡ true
          → base_count st id + length (known_orders id k.certain) ≡ card_count st id
      counted_all h = ground arith

  -- In a pass, what is known is backed, and the identities that it has found are of the deck.
  abbrev IsBackedPass : Pass → Type 0
  IsBackedPass p =
      IsBacked st p.knowledge
      × ((i : Identity) → i ∈ p.recursive_ids → IsIdentity (length st.variant.suits) i)

  basic_loop-IsBackedPass :
      (todo : List Identity) (p : Pass)
      → ((i : Identity) → i ∈ todo → IsIdentity (length st.variant.suits) i)
      → IsBackedPass p
      → Holds IsBackedPass (basic_loop st todo p)
  unfolding basic_loop
  basic_loop-IsBackedPass [] p valid g = g
  basic_loop-IsBackedPass (id ∷ todo) p valid g = elim (Bool-cases (all_known st id p.knowledge)) [
    | inr rest ↦ rw (rest, basic_loop) (basic_loop-IsBackedPass todo p (λ i m. valid i (inr m)) g)
    | inl full ↦
        rw (full, basic_loop)
          (>>=-Holds _ IsBackedPass (update_map st id [] _) _
            (update_map-IsBacked id [] _
              (union-IsBacked p.knowledge id (valid id (inl refl)) full g.0))
            (λ r q g'. basic_loop-IsBackedPass todo _ (λ i m. valid i (inr m)) g'))
  ]

  -- `basic_elim` on identities of the deck keeps what is known backed.
  pub basic_elim-IsBacked :
      (fuel : ℕ) (todo : List Identity) (k : Knowledge)
      → ((i : Identity) → i ∈ todo → IsIdentity (length st.variant.suits) i)
      → IsBacked st k
      → Leaves (IsBacked st) (basic_elim fuel st todo k)
  unfolding basic_elim
  basic_elim-IsBacked zero todo k valid g = tt
  basic_elim-IsBacked (suc fuel) todo k valid g =
      ended (basic_loop st todo _) (basic_loop-IsBackedPass todo _ valid (g, λ i m. absurd m))
        (λ k' ids valid' g'. basic_elim-IsBacked fuel ids k' valid' g')
    where
      Later : Type 0
      Later =
          (k' : Knowledge) (ids : List Identity)
          → ((i : Identity) → i ∈ ids → IsIdentity (length st.variant.suits) i)
          → IsBacked st k'
          → Leaves (IsBacked st) (basic_elim fuel st ids k')

      ended :
          (res : Option Pass)
          → Holds IsBackedPass res
          → Later
          → Leaves (IsBacked st) (elim res [
            | none ↦ threw
            | some p ↦ elim p.recursive_ids [
              | [] ↦ done p.knowledge p.changed
              | (id ∷ rest) ↦ with_changed p.changed (basic_elim fuel st (id ∷ rest) p.knowledge)
            ]
          ])
      ended none h ih = tt
      ended (some p) (g', found) ih = again p.recursive_ids found
        where
          same :
              (changed : Bool) (res : Outcome)
              → Leaves (IsBacked st) res
              → Leaves (IsBacked st) (with_changed changed res)
          same changed (done k' other) h = h
          same changed threw h = tt
          same changed out_of_fuel h = tt

          again :
              (ids : List Identity)
              → ((i : Identity) → i ∈ ids → IsIdentity (length st.variant.suits) i)
              → Leaves (IsBacked st) (elim ids [
                | [] ↦ done p.knowledge p.changed
                | (id ∷ rest) ↦ with_changed p.changed (basic_elim fuel st (id ∷ rest) p.knowledge)
              ])
          again [] valid' = g'
          again (id ∷ rest) valid' = same p.changed _ (ih p.knowledge (id ∷ rest) valid' g')
