-- ===== src/State/Trash.antt =====
-- The queries on an identity, against what they mean for the stacks.
use hanabi_bot.Base.{
  ℕ, suc, ◌≤◌, ◌<◌, ◌≡◌, ◌↔◌, ◌⊎◌, inl, inr, true, [], length, get_or, arith, dec_lt,
}
use hanabi_bot.Identity.{card}
use hanabi_bot.State.{State, card_count, is_basic_trash}
use hanabi_bot.State.WellFormed.{IsWellFormed, SuitIsOk}

-- How `is_basic_trash` reads the stacks, for an identity of the deck.
pub is_basic_trash-card :
    (st : State) (s k : ℕ)
    → (is_basic_trash st (card s (suc k)) ≡ true)
      ↔ ((k < get_or st.play_stacks s 0) ⊎ (get_or st.max_ranks s 0 < suc k))
unfolding is_basic_trash
is_basic_trash-card st s k = (λ h. ground arith, λ h. ground arith)

-- An identity is basic trash exactly if it has been played, or some rank of its suit up to its own
-- that has not been played has lost all its copies.
pub is_basic_trash_iff :
    (st : State) (s k : ℕ)
    → IsWellFormed st
    → s < length st.variant.suits
    → k < 5
    → (is_basic_trash st (card s (suc k)) ≡ true) ↔ (
        (k < get_or st.play_stacks s 0)
        ⊎ ((j : ℕ) × (get_or st.play_stacks s 0 ≤ j)
            × (j ≤ k)
            × (get_or (get_or st.discard_stacks s []) j 0 ≡ card_count st (card s (suc j)))))
unfolding card_count
is_basic_trash_iff st s k w hs hk = (
  λ h. forward ((is_basic_trash-card st s k).0 h),
  λ h. (is_basic_trash-card st s k).1 (backward h),
)
  where
    ok :
        SuitIsOk
          (get_or st.counts s [])
          (get_or st.discard_stacks s [])
          (get_or st.play_stacks s 0)
          (get_or st.max_ranks s 0)
    ok = w.suit s hs

    forward :
        (k < get_or st.play_stacks s 0) ⊎ (get_or st.max_ranks s 0 < suc k)
        → (k < get_or st.play_stacks s 0)
          ⊎ ((j : ℕ) × (get_or st.play_stacks s 0 ≤ j)
              × (j ≤ k)
              × (get_or (get_or st.discard_stacks s []) j 0 ≡ get_or (get_or st.counts s []) j 0))
    forward (inl h) = inl h
    forward (inr h) =
        inr (get_or st.max_ranks s 0, ok.play-le-max, omega arith, ok.exhausted (omega arith))

    backward :
        (k < get_or st.play_stacks s 0)
          ⊎ ((j : ℕ) × (get_or st.play_stacks s 0 ≤ j)
              × (j ≤ k)
              × (get_or (get_or st.discard_stacks s []) j 0 ≡ get_or (get_or st.counts s []) j 0))
        → (k < get_or st.play_stacks s 0) ⊎ (get_or st.max_ranks s 0 < suc k)
    backward (inl h) = inl h
    backward (inr (j, lo, hi, e)) = elim (dec_lt j (get_or st.max_ranks s 0)) [
      | yes p ↦ absurd (omega (arith, ok.available j p))
      | no p ↦ inr (omega arith)
    ]
