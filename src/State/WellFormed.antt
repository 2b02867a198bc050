-- ===== src/State/WellFormed.antt =====
-- The invariant of the public state's stacks.
use hanabi_bot.Base.{ℕ, ◌+◌, ◌≤◌, ◌<◌, ◌≡◌, List, [], length, get_or, if◌then◌else◌, ltb}
use hanabi_bot.Identity.{card}
use hanabi_bot.Variants.{card_count as variant_card_count}
use hanabi_bot.State.{State}

-- One suit: its numbers of copies and of discarded copies by rank, its stack, and the highest rank
-- that can still be played. A rank below `max` has a copy left; the rank above it has none.
pub record SuitIsOk (counts discards : List ℕ) (play max : ℕ) : Type 0 where
  pub counts_length : length counts ≡ 5
  pub discards_length : length discards ≡ 5
  pub play-le-max : play ≤ max
  pub max-le : max ≤ 5
  pub copies :
      (k : ℕ) → k < 5 → get_or discards k 0 + (if ltb k play then 1 else 0) ≤ get_or counts k 0
  pub available : (k : ℕ) → k < max → get_or discards k 0 < get_or counts k 0
  pub exhausted : max < 5 → get_or discards max 0 ≡ get_or counts max 0

pub record IsWellFormed (st : State) : Type 0 where
  pub play_length : length st.play_stacks ≡ length st.variant.suits
  pub discard_length : length st.discard_stacks ≡ length st.variant.suits
  pub max_length : length st.max_ranks ≡ length st.variant.suits
  pub counts_length : length st.counts ≡ length st.variant.suits
  pub table :
      (s k : ℕ)
      → s < length st.variant.suits
      → k < 5
      → get_or (get_or st.counts s []) k 0 ≡ variant_card_count st.variant (card s (k + 1))
  pub suit :
      (s : ℕ)
      → s < length st.variant.suits
      → SuitIsOk
          (get_or st.counts s [])
          (get_or st.discard_stacks s [])
          (get_or st.play_stacks s 0)
          (get_or st.max_ranks s 0)
