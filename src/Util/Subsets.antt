-- ===== src/Util/Subsets.antt =====
-- `allSubsetsOfSize` gives the subsets of a size, as many as the binomial coefficient.
use hanabi_bot.Base.{
  ℕ, zero, suc, ◌+◌, ◌-◌, ◌<◌, ◌≡◌, refl, sym, ap, ◌∙◌, inl, inr, false, List, [], ◌∷◌, ◌++◌, ◌==◌,
  ltb, length, map, length-append, arith, Bool-cases,
}
use hanabi_bot.Util.{all_subsets_of_size}

-- The binomial coefficient, by Pascal's triangle.
unfoldable pub choose : ℕ → ℕ → ℕ
choose n zero = 1
choose zero (suc k) = 0
choose (suc n) (suc k) = choose n k + choose n (suc k)

choose_above : (n k : ℕ) → n < k → choose n k ≡ 0
unfolding choose
choose_above n zero lt = absurd (omega arith)
choose_above zero (suc k) lt = refl
choose_above (suc n) (suc k) lt =
    omega (arith, choose_above n k (omega arith), choose_above n (suc k) (omega arith))

choose_all : (n : ℕ) → choose n n ≡ 1
unfolding choose
choose_all zero = refl
choose_all (suc n) = omega (arith, choose_all n, choose_above n (suc n) (omega arith))

choose_one : (n : ℕ) → choose n 1 ≡ n
unfolding choose
choose_one zero = refl
choose_one (suc n) = omega (arith, choose_one n)

length-map {ℓ κ} :
    {A : Type ℓ} {B : Type κ} → (f : A → B) (xs : List A) → length (map f xs) ≡ length xs
length-map f [] = refl
length-map f (x ∷ xs) = ap suc (length-map f xs)

-- There are as many subsets of a size of at least one as the binomial coefficient says.
pub length-all_subsets_of_size {ℓ} :
    {A : Type ℓ}
    → (arr : List A) (k : ℕ)
    → length (all_subsets_of_size arr (suc k)) ≡ choose (length arr) (suc k)
unfolding all_subsets_of_size choose
length-all_subsets_of_size [] k = refl
length-all_subsets_of_size {A = A} (x ∷ xs) k = elim (Bool-cases (ltb (length (x ∷ xs)) (suc k))) [
  | inl t ↦ rw t (sym (choose_above (length (x ∷ xs)) (suc k) (ground arith)))
  | inr f ↦ rw f (elim (Bool-cases (suc k == length (x ∷ xs))) [
    | inl t ↦
        let e : k ≡ length xs = ground arith in
        let above = choose_above (length xs) (suc k) (omega arith) in
        rw (t, e) (omega (arith, choose_all (length xs), above))
    | inr g ↦ rw g (elim (Bool-cases (suc k == 1)) [
      | inl t ↦
          let e : k ≡ 0 = ground arith in
          let single : choose (length xs) (suc k) ≡ length xs =
            ap (λ (n : ℕ). choose (length xs) (suc n)) e ∙ choose_one (length xs) in
          rw (t, e) (omega (arith, length-map (λ (i : A). i ∷ []) xs, single))
      | inr h ↦ rw h (rest k h (λ j. length-all_subsets_of_size xs j))
    ])
  ])
]
  where
    rest :
        (k : ℕ)
        → (suc k == 1) ≡ false
        → ((j : ℕ) → length (all_subsets_of_size xs (suc j)) ≡ choose (length xs) (suc j))
        → length (
            map (λ subset. subset ++ x ∷ []) (all_subsets_of_size xs (suc k - 1))
            ++ all_subsets_of_size xs (suc k))
          ≡ choose (length xs) k + choose (length xs) (suc k)
    rest zero h ih = absurd (ground arith)
    rest (suc j) h ih =
        let e : suc (suc j) - 1 ≡ suc j = omega arith in
        rw e (
          length-append (map (λ subset. subset ++ x ∷ []) (all_subsets_of_size xs (suc j)))
            (all_subsets_of_size xs (suc (suc j)))
          ∙ omega (
            arith,
            length-map (λ subset. subset ++ x ∷ []) (all_subsets_of_size xs (suc j)),
            ih j,
            ih (suc j),
          ))
