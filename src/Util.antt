-- ===== src/Util.antt =====
-- tools/util.js, the functions on arrays. `-1` for "no index" is `none`.
pub mod Indices
pub mod Subsets
use hanabi_bot.Base.{
  ℕ, zero, suc, ◌+◌, ◌-◌, ◌%◌, Bool, true, false, ◌||◌, List, [], ◌∷◌, ◌++◌, Option, none, some,
  ◌==◌, ltb, if◌then◌else◌, length, get_elem?, map,
}

module _ {ℓ} {A : Type ℓ} where
  -- The loop of `findIndices`, from index `i` on.
  unfoldable pub find_from : (A → Bool) → List A → ℕ → List ℕ
  find_from test [] i = []
  find_from test (x ∷ xs) i =
      let rest = find_from test xs (i + 1) in if test x then i ∷ rest else rest

  unfoldable pub find_indices : List A → (A → Bool) → List ℕ
  unfolding find_from
  find_indices arr test = find_from test arr 0

  -- The loop of `nextIndex`, `n` rounds from `offset` on. An index is always one of the array's.
  unfoldable pub next_from : List A → (A → Bool) → (start n offset : ℕ) → Option ℕ
  next_from arr test start zero offset = none
  next_from arr test start (suc n) offset =
      let index = (start + offset) % length arr in
      let rest = next_from arr test start n (offset + 1) in
      elim (get_elem? arr index) [ none ↦ rest | some x ↦ if test x then some index else rest ]

  unfoldable pub next_index : List A → (A → Bool) → (start : ℕ) → Option ℕ
  unfolding next_from
  next_index arr test start = next_from arr test start (length arr) 1

  -- A size of 0, for which the source counts on below 0, gives no subset.
  unfoldable pub all_subsets_of_size : List A → ℕ → List (List A)
  all_subsets_of_size [] size = []
  all_subsets_of_size (x ∷ xs) size =
      let with_first = all_subsets_of_size xs (size - 1) in
      let without = all_subsets_of_size xs size in
      if ltb (length (x ∷ xs)) size
      then []
      else if size == length (x ∷ xs)
      then (x ∷ xs) ∷ []
      else if size == 1
      then map (λ i. i ∷ []) (x ∷ xs)
      else map (λ subset. subset ++ x ∷ []) with_first ++ without
