-- ===== src/Basics/Pace.antt =====
-- Critical cards, and what the actions do to the scores and the pace.
use hanabi_bot.Base.{
  ℕ, suc, ◌+◌, ◌-◌, ◌≤◌, ◌<◌, min, ◌≡◌, refl, ◌↔◌, Bool, true, false, List, [], length, get_or, set,
  sum, some, if◌then◌else◌, ◌==◌, arith, sum-set, get_or-set_self, Bool-cases, inl, inr,
}
use hanabi_bot.Identity.{card}
use hanabi_bot.Variants.{card_count as variant_card_count}
use hanabi_bot.State.{State, card_count, is_critical, max_score}
use hanabi_bot.State.Start.{card_count_bounds}
use hanabi_bot.State.WellFormed.{IsWellFormed}
use hanabi_bot.Basics.{CardAction, discard_state, count_discard}
use hanabi_bot.Basics.Effects.{discard_state-SameStacks}
use hanabi_bot.Basics.Invariant.{IsLegalDiscard, copy_left-get_or}

-- `is_critical` for an identity of the deck: it is not trash, and all copies but one are discarded.
is_critical-card :
    (st : State) (s k : ℕ)
    → IsWellFormed st
    → s < length st.variant.suits
    → k < 5
    → (is_critical st (card s (suc k)) ≡ true) ↔ (
        (get_or st.play_stacks s 0 ≤ k)
        × (k < get_or st.max_ranks s 0)
        × (get_or (get_or st.discard_stacks s []) k 0 + 1 ≡ get_or (get_or st.counts s []) k 0))
unfolding is_critical
is_critical-card st s k w hs hk =
    (λ h. ground (arith, copies), λ h. ground (arith, copies, some_copy))
  where
    copies : get_or (get_or st.counts s []) k 0 ≡ variant_card_count st.variant (card s (suc k))
    copies = let e : suc k ≡ k + 1 = omega arith in rw e (w.table s k hs hk)

    some_copy : 1 ≤ variant_card_count st.variant (card s (suc k))
    some_copy = (card_count_bounds st.variant s k hk).0

le_of_not_lt : {a b : ℕ} → ¬ (a < b) → b ≤ a
le_of_not_lt h = omega arith

true-ne-false : {b : Bool} → b ≡ true → b ≡ false → ⊥
true-ne-false p q = cc

-- The sum of the limits after the limit of a suit has been lowered to `k`, or left.
sum-lowered :
    (ms : List ℕ) (s k : ℕ)
    → s < length ms
    → (k < get_or ms s 0
        → sum (set ms s (min (get_or ms s 0) (suc k - 1))) + get_or ms s 0 ≡ sum ms + k)
      × (get_or ms s 0 ≤ k → sum (set ms s (min (get_or ms s 0) (suc k - 1))) ≡ sum ms)
sum-lowered ms s k h = (
  λ lt. let low : min (get_or ms s 0) (suc k - 1) ≡ k = omega arith in rw low (sum-set ms s k h),
  λ le.
      let same : min (get_or ms s 0) (suc k - 1) ≡ get_or ms s 0 = omega arith in
      rw same (omega (arith, sum-set ms s (get_or ms s 0) h)),
)

module _ (st : State) (s k : ℕ) (w : IsWellFormed st) (legal : IsLegalDiscard st s k) where
  row : List ℕ
  row = set (get_or st.discard_stacks s []) k (get_or (get_or st.discard_stacks s []) k 0 + 1)

  row_self : get_or row k 0 ≡ get_or (get_or st.discard_stacks s []) k 0 + 1
  unfolding row
  row_self =
      get_or-set_self (get_or st.discard_stacks s []) k _ 0
        (omega (arith, (w.suit s legal.suit).discards_length, legal.rank))

  -- The limits change exactly when the discarded card was critical.
  count_discard-max_score :
      (is_critical st (card s (suc k)) ≡ true
        → (max_score (count_discard st (card s (suc k))) + get_or st.max_ranks s 0
            ≡ max_score st + k)
          × (k < get_or st.max_ranks s 0))
      × (is_critical st (card s (suc k)) ≡ false
          → max_score (count_discard st (card s (suc k))) ≡ max_score st)
  unfolding count_discard card_count max_score row
  count_discard-max_score =
      let crit = is_critical-card st s k w legal.suit legal.rank in
      let limits = sum-lowered st.max_ranks s k (omega (arith, w.max_length, legal.suit)) in
      elim (Bool-cases (get_or row k 0 == get_or (get_or st.counts s []) k 0)) [
        | inl lost ↦
            let last : get_or (get_or st.discard_stacks s []) k 0 + 1
                ≡ get_or (get_or st.counts s []) k 0 =
              ground (arith, row_self) in
            let unplayed : get_or st.play_stacks s 0 ≤ k =
              ground (arith, copy_left-get_or st s k legal.copy_left) in
            rw lost (
              λ c. let lt = (crit.0 c).1 in (limits.0 lt, lt),
              λ n. limits.1 (le_of_not_lt (λ lt. true-ne-false (crit.1 (unplayed, lt, last)) n)),
            )
        | inr kept ↦ rw kept (λ c. absurd (ground (arith, row_self, (crit.0 c).2)), λ n. refl)
      ]

-- The points that are lost with the discard of the card of rank `k + 1` of suit `s`.
abbrev pub lost_points : State → (s k : ℕ) → ℕ
lost_points st s k = if is_critical st (card s (suc k)) then get_or st.max_ranks s 0 - k else 0

-- A legal discard of a critical card lowers the highest score that can still be reached by the
-- points of its suit from its rank up, and it lowers it for no other card.
pub max_score-discard_state :
    (st st' : State) (a : CardAction) (s k : ℕ)
    → IsWellFormed st
    → IsLegalDiscard st s k
    → a.id ≡ card s (suc k)
    → discard_state st a ≡ some st'
    → (max_score st' + lost_points st s k ≡ max_score st)
      × ((max_score st' < max_score st) ↔ (is_critical st a.id ≡ true))
unfolding max_score
max_score-discard_state st st' a s k w legal e h =
    let same = (discard_state-SameStacks st st' a s (suc k) e h).max in
    let change = count_discard-max_score st s k w legal in
    rw (e, same)
      (elim (Bool-cases (is_critical st (card s (suc k)))) [
        | inl c ↦ rw c (omega (arith, change.0 c), (λ lt. refl, λ t. omega (arith, change.0 c)))
        | inr n ↦
            rw n (omega (arith, change.1 n), (λ lt. absurd (omega (arith, change.1 n)), λ t. cc))
      ])
