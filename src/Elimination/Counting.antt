-- ===== src/Elimination/Counting.antt =====
-- Lists of different numbers that are as long as a list that holds them.
use hanabi_bot.Base.{
  ℕ, suc, ◌≤◌, ◌≡◌, ◌≢◌, refl, inl, inr, List, [], ◌∷◌, ◌∈◌, ◌==◌, if◌then◌else◌, length, arith,
  ℕ_discrete, Bool-cases,
}

abbrev pub AllDiffer : List ℕ → Type 0
AllDiffer [] = Unit {0}
AllDiffer (x ∷ xs) = (¬ (x ∈ xs)) × AllDiffer xs

-- `xs` without its first `x`.
abbrev erase : ℕ → List ℕ → List ℕ
erase x [] = []
erase x (y ∷ ys) = if y == x then ys else y ∷ erase x ys

length-erase : (x : ℕ) (ys : List ℕ) → x ∈ ys → suc (length (erase x ys)) ≡ length ys
length-erase x [] m = absurd m
length-erase x (y ∷ ys) (inl e) = ground arith
length-erase x (y ∷ ys) (inr m) = ground (arith, length-erase x ys m)

mem-erase : (x y : ℕ) (ys : List ℕ) → y ∈ ys → y ≢ x → y ∈ erase x ys
mem-erase x y [] m ne = absurd m
mem-erase x y (z ∷ zs) (inl e) ne = elim (Bool-cases (z == x)) [
  | inl t ↦ absurd (ne (ground arith))
  | inr f ↦ rw f (inl e)
]
mem-erase x y (z ∷ zs) (inr m) ne = elim (Bool-cases (z == x)) [
  | inl t ↦ rw t m
  | inr f ↦ rw f (inr (mem-erase x y zs m ne))
]

-- Different members of `ys`, as many as `ys` has, are all members of `ys`.
pub all_found :
    (xs ys : List ℕ) (y : ℕ)
    → AllDiffer xs
    → ((x : ℕ) → x ∈ xs → x ∈ ys)
    → length ys ≤ length xs
    → y ∈ ys
    → y ∈ xs
all_found [] [] y d sub le m = absurd m
all_found [] (z ∷ ys) y d sub le m = absurd (omega arith)
all_found (x ∷ xs) ys y (fresh, d) sub le m = elim (ℕ_discrete y x) [
  | yes e ↦ inl e
  | no ne ↦ inr (
      all_found xs (erase x ys) y d
        (λ z mz. mem-erase x z ys (sub z (inr mz)) (λ e. fresh (rw (← e) mz)))
        (omega (arith, length-erase x ys (sub x (inl refl)))) (mem-erase x y ys m ne))
]

-- Different members of `ys` are at most as many as `ys` has.
pub length-differ_le :
    (xs ys : List ℕ) → AllDiffer xs → ((x : ℕ) → x ∈ xs → x ∈ ys) → length xs ≤ length ys
length-differ_le [] ys d sub = omega arith
length-differ_le (x ∷ xs) ys (fresh, d) sub =
    let shorter =
      length-differ_le xs (erase x ys) d
        (λ z mz. mem-erase x z ys (sub z (inr mz)) (λ e. fresh (rw (← e) mz))) in
    omega (arith, shorter, length-erase x ys (sub x (inl refl)))
