-- ===== src/Elimination/Backed/Rounds.antt =====
-- The set-up of `card_elim` and its rounds rule out for the deck only identities whose copies are all
-- counted.
use hanabi_bot.Base.{
  ℕ, zero, suc, inl, inr, Bool, true, false, List, [], ◌∷◌, ◌∈◌, Option, none, some, length, arith,
  Option-cases,
}
use hanabi_bot.Identity.{Identity, IsIdentity}
use hanabi_bot.State.{State}
use hanabi_bot.Card.{identity}
use hanabi_bot.Thoughts.{thought_at}
use hanabi_bot.Elimination.{Entry, Knowledge, Outcome, done, threw, out_of_fuel, basic_elim}
use hanabi_bot.Elimination.Truth.{weight}
use hanabi_bot.Elimination.SetUp.{set_up_card, set_up_cards, symmetric_if}
use hanabi_bot.Elimination.Endgame.{endgame_elim}
use hanabi_bot.Elimination.Cross.{cross_elim}
use hanabi_bot.Elimination.Whole.{cross_rounds, eliminate_all}
use hanabi_bot.Elimination.Backed.{
  Holds, >>=-Holds, read-Holds, Leaves, IsOver, length-insert_certain, IsBacked,
}
use hanabi_bot.Elimination.Backed.Basic.{basic_elim-IsBacked}
use hanabi_bot.Elimination.Backed.Endgame.{endgame_elim-IsBacked}
use hanabi_bot.Elimination.Backed.Cross.{cross_elim-IsBacked}

module _ (st : State) where
  set_up_card-IsBacked :
      (is_common : Bool) (e : Entry) (k : Knowledge)
      → IsBacked st k
      → Holds (IsBacked st) (set_up_card st is_common e k)
  unfolding set_up_card
  set_up_card-IsBacked is_common e k g =
      read-Holds (IsBacked st) (thought_at k.thoughts e.order) _ (λ c at. record {
        possible = g.possible;
        ruled = g.ruled;
        counted = λ id w held. elim (Option-cases (identity c (symmetric_if is_common))) [
          | inl q ↦ rw q (g.counted id w held)
          | inr (i, q) ↦
              rw q (omega (arith, g.counted id w held, length-insert_certain id _ k.certain))
        ];
      })

  pub set_up_cards-IsBacked :
      (is_common : Bool) (es : List Entry) (k : Knowledge)
      → IsBacked st k
      → Holds (IsBacked st) (set_up_cards st is_common es k)
  unfolding set_up_cards
  set_up_cards-IsBacked is_common [] k g = g
  set_up_cards-IsBacked is_common (e ∷ es) k g =
      >>=-Holds (IsBacked st) (IsBacked st) (set_up_card st is_common e k) _
        (set_up_card-IsBacked is_common e k g) (λ k' q g'. set_up_cards-IsBacked is_common es k' g')

  cross_rounds-IsBacked :
      (fuel : ℕ) (is_common : Bool) (todo : List Identity) (k : Knowledge)
      → IsOver (length st.variant.suits) st.base_ids
      → IsBacked st k
      → Leaves (IsBacked st) (cross_rounds fuel st is_common todo k)
  unfolding cross_rounds
  cross_rounds-IsBacked zero is_common todo k over g = tt
  cross_rounds-IsBacked (suc fuel) is_common todo k over g =
      ended (cross_elim st k) (cross_elim-IsBacked st k over g)
        (λ k' g'. cross_rounds-IsBacked fuel is_common todo k' over g')
    where
      last :
          (res : Option Knowledge)
          → Holds (IsBacked st) res
          → Leaves (IsBacked st) (elim res [ none ↦ threw | some k' ↦ done k' false ])
      last none h = tt
      last (some k') h = h

      ended :
          (res : Outcome)
          → Leaves (IsBacked st) res
          → ((k' : Knowledge)
              → IsBacked st k'
              → Leaves (IsBacked st) (cross_rounds fuel st is_common todo k'))
          → Leaves (IsBacked st) (elim res [
            | done k' changed ↦ elim changed [
              | true ↦ cross_rounds fuel st is_common todo k'
              | false ↦ elim (endgame_elim st is_common todo k') [
                | none ↦ threw
                | some k'' ↦ done k'' false
              ]
            ]
            | threw ↦ threw
            | out_of_fuel ↦ out_of_fuel
          ])
      ended (done k' true) h next = next k' h
      ended (done k' false) h next =
          last (endgame_elim st is_common todo k') (endgame_elim-IsBacked st is_common todo k' h)
      ended threw h next = tt
      ended out_of_fuel h next = tt

  pub eliminate_all-IsBacked :
      (is_common : Bool) (todo : List Identity) (k : Knowledge)
      → IsOver (length st.variant.suits) st.base_ids
      → ((i : Identity) → i ∈ todo → IsIdentity (length st.variant.suits) i)
      → IsBacked st k
      → Leaves (IsBacked st) (eliminate_all st is_common todo k)
  unfolding eliminate_all
  eliminate_all-IsBacked is_common todo k over valid g =
      first (endgame_elim st is_common todo k) (endgame_elim-IsBacked st is_common todo k g)
    where
      then_rounds :
          (res : Outcome)
          → Leaves (IsBacked st) res
          → Leaves (IsBacked st) (elim res [
            | done k' changed ↦ cross_rounds (suc (weight k'.thoughts)) st is_common todo k'
            | threw ↦ threw
            | out_of_fuel ↦ out_of_fuel
          ])
      then_rounds (done k' changed) h =
          cross_rounds-IsBacked (suc (weight k'.thoughts)) is_common todo k' over h
      then_rounds threw h = tt
      then_rounds out_of_fuel h = tt

      first :
          (res : Option Knowledge)
          → Holds (IsBacked st) res
          → Leaves (IsBacked st) (elim res [
            | none ↦ threw
            | some k' ↦ elim (basic_elim (suc (weight k'.thoughts)) st todo k') [
              | done k'' changed ↦ cross_rounds (suc (weight k''.thoughts)) st is_common todo k''
              | threw ↦ threw
              | out_of_fuel ↦ out_of_fuel
            ]
          ])
      first none h = tt
      first (some k') h =
          then_rounds (basic_elim (suc (weight k'.thoughts)) st todo k')
            (basic_elim-IsBacked st (suc (weight k'.thoughts)) todo k' valid h)
