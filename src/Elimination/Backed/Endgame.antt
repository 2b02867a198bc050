-- ===== src/Elimination/Backed/Endgame.antt =====
-- `endgame_elim` rules out nothing for the deck, and what is known stays backed.
use hanabi_bot.Base.{
  ℕ, ◌+◌, inl, inr, Bool, not, ◌&&◌, ◌||◌, ◌==◌, List, [], ◌∷◌, some, length, if◌then◌else◌,
  Bool-cases,
}
use hanabi_bot.Base.Int.{pos, ltb_ℤ}
use hanabi_bot.Identity.{Identity}
use hanabi_bot.IdentitySet.{one, length as set_length}
use hanabi_bot.State.{State}
use hanabi_bot.Card.{Card, identity, reset_inferences}
use hanabi_bot.Thoughts.{thought_at, includes_order}
use hanabi_bot.Elimination.{Knowledge, remove_id, no_options}
use hanabi_bot.Elimination.Truth.{reset_inferences-possible}
use hanabi_bot.Elimination.Endgame.{
  Ruling, note_certain, rule_out, is_left, elim_card, elim_cards, perform_elim, holders_of,
  elim_others, endgame_ids, endgame_elim,
}
use hanabi_bot.Elimination.Backed.{
  Holds, >>=-Holds, read-Holds, if-Holds, IsOver, subtract-IsOver, IsBacked, insert-IsBacked,
  set-IsBacked, thin-IsBacked,
}

module _ (st : State) where
  abbrev IsBackedRuling : Ruling → Type 0
  IsBackedRuling r = IsBacked st r.knowledge

  rule_out-IsBacked :
      (id : Identity) (o : ℕ) (c : Card) (r : Ruling)
      → IsOver (length st.variant.suits) c.possible
      → IsBackedRuling r
      → Holds IsBackedRuling (rule_out id o c r)
  unfolding rule_out note_certain
  rule_out-IsBacked id o c r old g =
      let d = remove_id c id in
      let over = subtract-IsOver (length st.variant.suits) c.possible (one id) old in
      let g' = set-IsBacked st r.knowledge o d g over in
      if-Holds IsBackedRuling (set_length d.inferred == 0 && not c.reset) _ _
        (λ lost.
          set-IsBacked st r.knowledge o (reset_inferences d) g
            (rw (reset_inferences-possible d) over))
        (λ held.
          if-Holds IsBackedRuling (set_length d.possible == 1) _ _
            (λ one_left.
              read-Holds IsBackedRuling (identity d no_options) _
                (λ i at. insert-IsBacked st _ _ g'))
            (λ more. g'))

  elim_card-IsBacked :
      (id : Identity) (o : ℕ) (r : Ruling)
      → IsBackedRuling r
      → Holds IsBackedRuling (elim_card st id o r)
  unfolding elim_card
  elim_card-IsBacked id o r g =
      read-Holds IsBackedRuling (thought_at r.knowledge.thoughts o) _ (λ c at.
        read-Holds IsBackedRuling (is_left st r.knowledge.thoughts id o c) _ (λ left q.
          if-Holds IsBackedRuling left _ _ (λ kept. g)
            (λ ruled. rule_out-IsBacked id o c r (g.possible o c at) g)))

  elim_cards-IsBacked :
      (id : Identity) (os : List ℕ) (r : Ruling)
      → IsBackedRuling r
      → Holds IsBackedRuling (elim_cards st id os r)
  unfolding elim_cards
  elim_cards-IsBacked id [] r g = g
  elim_cards-IsBacked id (o ∷ os) r g =
      >>=-Holds IsBackedRuling IsBackedRuling (elim_card st id o r) _ (elim_card-IsBacked id o r g)
        (λ r' q g'. elim_cards-IsBacked id os r' g')

  perform_elim-IsBacked :
      (id : Identity) (hand : List ℕ) (r : Ruling)
      → IsBackedRuling r
      → Holds IsBackedRuling (perform_elim st id hand r)
  unfolding perform_elim
  perform_elim-IsBacked id hand r g =
      >>=-Holds IsBackedRuling IsBackedRuling (elim_cards st id hand r) _
        (elim_cards-IsBacked id hand r g) (λ r' q g'. thin-IsBacked st r'.knowledge _ g')

  elim_others-IsBacked :
      (id : Identity) (holders : List ℕ) (i : ℕ) (hands : List (List ℕ)) (r : Ruling)
      → IsBackedRuling r
      → Holds IsBackedRuling (elim_others st id holders i hands r)
  unfolding elim_others
  elim_others-IsBacked id holders i [] r g = g
  elim_others-IsBacked id holders i (hand ∷ hands) r g =
      >>=-Holds IsBackedRuling IsBackedRuling
        (if includes_order holders i then some r else perform_elim st id hand r) _
        (if-Holds IsBackedRuling (includes_order holders i) _ _ (λ held. g)
          (λ away. perform_elim-IsBacked id hand r g))
        (λ r' q g'. elim_others-IsBacked id holders (i + 1) hands r' g')

  endgame_ids-IsBacked :
      (ids : List Identity) (r : Ruling)
      → IsBackedRuling r
      → Holds IsBackedRuling (endgame_ids st ids r)
  unfolding endgame_ids
  endgame_ids-IsBacked [] r g = g
  endgame_ids-IsBacked (id ∷ ids) r g =
      read-Holds IsBackedRuling (holders_of st r.knowledge.thoughts id) _ (λ holders q.
        >>=-Holds IsBackedRuling IsBackedRuling (elim_others st id holders 0 st.hands r) _
          (elim_others-IsBacked id holders 0 st.hands r g)
          (λ r' q' g'. endgame_ids-IsBacked ids r' g'))

  pub endgame_elim-IsBacked :
      (is_common : Bool) (ids : List Identity) (k : Knowledge)
      → IsBacked st k
      → Holds (IsBacked st) (endgame_elim st is_common ids k)
  unfolding endgame_elim
  endgame_elim-IsBacked is_common ids k g =
      elim (Bool-cases (ltb_ℤ (pos 0) st.cards_left || not is_common)) [
        | inl early ↦ rw (early, endgame_elim) g
        | inr late ↦
            rw (late, endgame_elim)
              (>>=-Holds IsBackedRuling (IsBacked st) (endgame_ids st ids _) _
                (endgame_ids-IsBacked ids _ g) (λ r q g'. g'))
      ]
