-- ===== src/Tests/Arrays.antt =====
-- The functions of tools/util.js on small arrays.
use hanabi_bot.Base.{
  ℕ, ◌≡◌, ◌↔◌, refl, false, List, [], ◌∷◌, none, some, ltb, length, get_elem?, arith,
}
use hanabi_bot.Util.{find_indices, next_index, all_subsets_of_size}
use hanabi_bot.Util.Indices.{Found, next_index_lem}
use hanabi_bot.Util.Subsets.{choose, length-all_subsets_of_size}

abbrev numbers : List ℕ
numbers = 4 ∷ 1 ∷ 7 ∷ 2 ∷ []

small_indices : find_indices numbers (λ x. ltb x 4) ≡ 1 ∷ 3 ∷ []
unfolding find_indices
small_indices = refl

wraps_around : next_index numbers (λ x. ltb x 2) 2 ≡ some 1
unfolding next_index
wraps_around = refl

abbrev one_to_three : List ℕ
one_to_three = 1 ∷ 2 ∷ 3 ∷ []

pairs : all_subsets_of_size one_to_three 2 ≡ (2 ∷ 1 ∷ []) ∷ (3 ∷ 1 ∷ []) ∷ (2 ∷ 3 ∷ []) ∷ []
unfolding all_subsets_of_size
pairs = refl

next_index_lem_example :
    Found numbers (λ x. ltb x 2) 2 1 4 (next_index numbers (λ x. ltb x 2) 2)
    × ((next_index numbers (λ x. ltb x 2) 2 ≡ none)
        ↔ ((i : ℕ) (x : ℕ) → get_elem? numbers i ≡ some x → ltb x 2 ≡ false))
next_index_lem_example = next_index_lem numbers (λ x. ltb x 2) 2 (omega arith)

length-all_subsets_of_size_example : length (all_subsets_of_size numbers 2) ≡ choose 4 2
length-all_subsets_of_size_example = length-all_subsets_of_size numbers 1
