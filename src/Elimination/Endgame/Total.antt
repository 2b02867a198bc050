-- ===== src/Elimination/Endgame/Total.antt =====
-- All of `endgame_elim`.
use hanabi_bot.Base.{
  ℕ, ◌≡◌, refl, inl, inr, Bool, not, ◌||◌, List, [], ◌∷◌, ◌∈◌, some, length, Bool-cases,
}
use hanabi_bot.Base.Int.{pos, ltb_ℤ}
use hanabi_bot.Identity.{Identity, IsIdentity}
use hanabi_bot.State.{State}
use hanabi_bot.Elimination.{Knowledge}
use hanabi_bot.Elimination.Certains.{FitsDeck, all_orders}
use hanabi_bot.Elimination.Grown.{Thins, Thins-refl}
use hanabi_bot.Elimination.Truth.{IsRight}
use hanabi_bot.Elimination.Endgame.{Ruling, endgame_ids, endgame_elim}
use hanabi_bot.Elimination.Endgame.Holders.{holders_of-lem}
use hanabi_bot.Elimination.Endgame.Cards.{IsDeckRight, tests-AreRight}
use hanabi_bot.Elimination.Endgame.Truth.{Succeeds, Succeeds-Thins, elim_others-Succeeds}

module _ (st : State) (deal : ℕ → Identity)
    (ids : (o : ℕ) → IsIdentity (length st.variant.suits) (deal o)) (fits : FitsDeck st deal)
    (deck : IsDeckRight deal st) where
  endgame_ids-Succeeds :
      (todo : List Identity) (r : Ruling)
      → ((i : Identity) → i ∈ todo → IsIdentity (length st.variant.suits) i)
      → IsRight (length st.variant.suits) deal (all_orders st.hands) r.knowledge
      → Succeeds
          (length st.variant.suits)
          deal
          (all_orders st.hands)
          r.knowledge.candidates
          (endgame_ids st todo r)
  unfolding endgame_ids
  endgame_ids-Succeeds [] r valid g = (r, refl, g, Thins-refl r.knowledge.candidates)
  endgame_ids-Succeeds (id ∷ todo) r valid g =
      let n = length st.variant.suits in
      let w = valid id (inl refl) in
      let right = λ (k : Knowledge) (i : IsRight n deal (all_orders st.hands) k).
        tests-AreRight n deal st ids deck k id i.is_true i.seen in
      let (holders, h, hold) =
        holders_of-lem deal st r.knowledge.thoughts id (right r.knowledge g) (fits id w) in
      let (r', h', g', thin) =
        elim_others-Succeeds n deal (all_orders st.hands) ids st id w
          (λ k i. (right k i).copy_returns) holders 0 st.hands r (λ o m. m) hold g in
      rw (h, h')
        (Succeeds-Thins n deal (all_orders st.hands) r.knowledge.candidates r'.knowledge.candidates
          _ thin (endgame_ids-Succeeds todo r' (λ i m. valid i (inr m)) g'))

  -- For identities of the deck `endgame_elim` does not throw, and it keeps what is known true and
  -- right, so that no card loses its own identity, if what is known is true, the cards fit the deck
  -- and what is seen of them is right; no candidate is added.
  pub endgame_elim-IsRight :
      (is_common : Bool) (todo : List Identity) (k : Knowledge)
      → ((i : Identity) → i ∈ todo → IsIdentity (length st.variant.suits) i)
      → IsRight (length st.variant.suits) deal (all_orders st.hands) k
      → (k' : Knowledge) × (endgame_elim st is_common todo k ≡ some k')
        × IsRight (length st.variant.suits) deal (all_orders st.hands) k'
        × Thins k.candidates k'.candidates
  unfolding endgame_elim
  endgame_elim-IsRight is_common todo k valid g =
      elim (Bool-cases (ltb_ℤ (pos 0) st.cards_left || not is_common)) [
        | inl stop ↦ rw (endgame_elim, stop) (k, refl, g, Thins-refl k.candidates)
        | inr go ↦
            let (r, h, g', thin) =
              endgame_ids-Succeeds todo (record { knowledge = k; removals = [] }) valid g in
            rw (endgame_elim, go, h) (r.knowledge, refl, g', thin)
      ]
