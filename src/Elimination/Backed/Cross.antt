-- ===== src/Elimination/Backed/Cross.antt =====
-- `cross_elim` rules out for the deck only identities whose copies are all counted.
use hanabi_bot.Base.{
  ℕ, zero, suc, inl, inr, Bool, true, false, leb, List, [], ◌∷◌, ◌∈◌, Option, none, some, get_elem?,
  length, Bool-cases, Option-cases,
}
use hanabi_bot.Identity.{Identity, IsIdentity}
use hanabi_bot.IdentitySet.{IdentitySet, set, union, make, array}
use hanabi_bot.IdentitySet.Members.{operations-IsValid}
use hanabi_bot.IdentitySet.Elements.{array_mem_iff}
use hanabi_bot.State.{State}
use hanabi_bot.Card.{Card}
use hanabi_bot.Thoughts.{thought_at}
use hanabi_bot.Elimination.{
  Entry, Knowledge, Outcome, done, threw, out_of_fuel, update_map, basic_elim,
}
use hanabi_bot.Elimination.Truth.{weight}
use hanabi_bot.Elimination.Cross.{
  Group, Crossing, Subset, cross_update, is_too_small, players_of, elim_groups, elim_ids, eliminate,
  group_by, or_changed, cross_perform, with_item, is_out_of_reach, is_complete, unless_changed,
  try_subset, gen_subset, cross_elim,
}
use hanabi_bot.Elimination.Backed.{Holds, >>=-Holds, read-Holds, Leaves, IsOver, IsBacked}
use hanabi_bot.Elimination.Backed.Basic.{update_map-IsBacked, basic_elim-IsBacked}

pub array-IsIdentity :
    (n : ℕ) (p : IdentitySet) → IsOver n p → (i : Identity) → i ∈ array p → IsIdentity n i
array-IsIdentity n p (e, v) i m = rw (← e) ((array_mem_iff p i v).0 m).0

module _ (st : State) where
  abbrev IsBackedCrossing : Crossing → Type 0
  IsBackedCrossing x = IsBacked st x.knowledge

  cross_update-IsBacked :
      (id : Identity) (exclude : List ℕ) (x : Crossing)
      → IsBackedCrossing x
      → Holds IsBackedCrossing (cross_update st id exclude x)
  unfolding cross_update
  cross_update-IsBacked id exclude x g =
      >>=-Holds _ IsBackedCrossing (update_map st id exclude x.knowledge) _
        (update_map-IsBacked st id exclude x.knowledge g) (λ r q g'. g'.0)

  elim_groups-IsBacked :
      (gs : List Group) (x : Crossing)
      → IsBackedCrossing x
      → Holds IsBackedCrossing (elim_groups st gs x)
  unfolding elim_groups
  elim_groups-IsBacked [] x g = g
  elim_groups-IsBacked (h ∷ gs) x g = elim (Option-cases h.key) [
    | inl e ↦ rw (e, elim_groups) (elim_groups-IsBacked gs x g)
    | inr (id, e) ↦ elim (Bool-cases (is_too_small st id h.members x.knowledge)) [
      | inl small ↦ rw (e, small, elim_groups) (elim_groups-IsBacked gs x g)
      | inr large ↦
          rw (e, large, elim_groups)
            (>>=-Holds IsBackedCrossing IsBackedCrossing
              (cross_update st id (players_of h.members) x) _
              (cross_update-IsBacked id (players_of h.members) x g)
              (λ x' q g'. elim_groups-IsBacked gs x' g'))
    ]
  ]

  elim_ids-IsBacked :
      (ids : List Identity) (exclude : List ℕ) (x : Crossing)
      → IsBackedCrossing x
      → Holds IsBackedCrossing (elim_ids st ids exclude x)
  unfolding elim_ids
  elim_ids-IsBacked [] exclude x g = g
  elim_ids-IsBacked (id ∷ ids) exclude x g =
      >>=-Holds IsBackedCrossing IsBackedCrossing (cross_update st id exclude x) _
        (cross_update-IsBacked id exclude x g) (λ x' q g'. elim_ids-IsBacked ids exclude x' g')

  eliminate-IsBacked :
      (es : List Entry) (ids : IdentitySet) (k : Knowledge)
      → IsBacked st k
      → Holds IsBackedCrossing (eliminate st es ids k)
  unfolding eliminate
  eliminate-IsBacked es ids k g =
      read-Holds IsBackedCrossing (group_by st k.thoughts es []) _ (λ gs q.
        >>=-Holds IsBackedCrossing IsBackedCrossing (elim_groups st gs _) _
          (elim_groups-IsBacked gs _ g)
          (λ x q' g'. elim_ids-IsBacked (array ids) (players_of es) x g'))

  or_changed-Leaves :
      (P : Knowledge → Type 0) (changed : Bool) (res : Outcome)
      → Leaves P res
      → Leaves P (or_changed changed res)
  or_changed-Leaves P changed (done k other) h = h
  or_changed-Leaves P changed threw h = tt
  or_changed-Leaves P changed out_of_fuel h = tt

  unless_changed-Leaves :
      (P : Knowledge → Type 0) (res : Outcome) (f : Knowledge → Outcome)
      → Leaves P res
      → ((k : Knowledge) → P k → Leaves P (f k))
      → Leaves P (unless_changed res f)
  unless_changed-Leaves P (done k true) f h next = h
  unless_changed-Leaves P (done k false) f h next = next k h
  unless_changed-Leaves P threw f h next = tt
  unless_changed-Leaves P out_of_fuel f h next = tt

  cross_perform-IsBacked :
      (es : List Entry) (ids : IdentitySet) (k : Knowledge)
      → IsOver (length st.variant.suits) ids
      → IsBacked st k
      → Leaves (IsBacked st) (cross_perform st es ids k)
  unfolding cross_perform
  cross_perform-IsBacked es ids k over g =
      ended (eliminate st es ids k) (eliminate-IsBacked es ids k g)
    where
      ended :
          (res : Option Crossing)
          → Holds IsBackedCrossing res
          → Leaves (IsBacked st) (elim res [
            | none ↦ threw
            | some x ↦
                or_changed x.changed
                  (basic_elim (suc (weight x.knowledge.thoughts)) st (array ids) x.knowledge)
          ])
      ended none h = tt
      ended (some x) h =
          or_changed-Leaves (IsBacked st) x.changed
            (basic_elim (suc (weight x.knowledge.thoughts)) st (array ids) x.knowledge)
            (basic_elim-IsBacked st (suc (weight x.knowledge.thoughts)) (array ids) x.knowledge
              (array-IsIdentity (length st.variant.suits) ids over) h)

  try_subset-IsBacked :
      (s : Subset) (k : Knowledge)
      → IsOver (length st.variant.suits) s.acc_ids
      → IsBacked st k
      → Leaves (IsBacked st) (try_subset st s k)
  unfolding try_subset
  try_subset-IsBacked s k over g = elim (Bool-cases (is_complete st s)) [
    | inl whole ↦ rw (whole, try_subset) (cross_perform-IsBacked s.contained s.acc_ids k over g)
    | inr part ↦ rw (part, try_subset) g
  ]

  with_item-IsOver :
      (s : Subset) (item : Entry) (c : Card) (k : Knowledge)
      → IsOver (length st.variant.suits) s.acc_ids
      → IsOver (length st.variant.suits) c.possible
      → IsOver (length st.variant.suits) (with_item s item c k).acc_ids
  unfolding with_item union make
  with_item-IsOver s item c k (e, v) (e', v') =
      (e, (operations-IsValid s.acc_ids (set c.possible) v (rw e e', v')).2)

  gen_subset-IsBacked :
      (fuel : ℕ) (s : Subset) (next : ℕ) (k : Knowledge)
      → IsOver (length st.variant.suits) s.acc_ids
      → IsBacked st k
      → Leaves (IsBacked st) (gen_subset fuel st s next k)
  unfolding gen_subset
  gen_subset-IsBacked zero s next k over g = tt
  gen_subset-IsBacked (suc fuel) s next k over g = elim (Bool-cases (is_out_of_reach st s next k)) [
    | inl far ↦ rw (far, gen_subset) g
    | inr near ↦
        rw (near, gen_subset)
          (unless_changed-Leaves (IsBacked st) (try_subset st s k) _
            (try_subset-IsBacked s k over g)
            (λ k' g'. elim (Option-cases (get_elem? k'.candidates next)) [
              | inl e ↦ rw e g'
              | inr (item, e) ↦ elim (Option-cases (thought_at k'.thoughts item.order)) [
                | inl n ↦ rw (e, n) tt
                | inr (c, at) ↦
                    rw (e, at)
                      (unless_changed-Leaves (IsBacked st) _ _
                        (gen_subset-IsBacked fuel (with_item s item c k') (suc next) k'
                          (with_item-IsOver s item c k' over (g'.possible item.order c at)) g')
                        (λ k'' g''. gen_subset-IsBacked fuel s (suc next) k'' over g''))
              ]
            ]))
  ]

  pub cross_elim-IsBacked :
      (k : Knowledge)
      → IsOver (length st.variant.suits) st.base_ids
      → IsBacked st k
      → Leaves (IsBacked st) (cross_elim st k)
  unfolding cross_elim
  cross_elim-IsBacked k over g = elim (Bool-cases (leb (length k.candidates) 1)) [
    | inl few ↦ rw (few, cross_elim) g
    | inr more ↦
        rw (more, cross_elim)
          (gen_subset-IsBacked (suc (length k.candidates))
            (record { contained = []; acc_ids = st.base_ids; certains = [] }) 0 k over g)
  ]
