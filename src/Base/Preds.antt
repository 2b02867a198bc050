-- ===== src/Base/Preds.antt =====
-- Selection and quantifiers over lists by a Boolean test, and their meaning.
use Prim.Native.Nat.{◌≤◌}
use mathlib.Core.Path.{◌≡◌, refl, sym}
use mathlib.Core.Logic.{◌⊎◌, inl, inr}
use mathlib.Core.Bool.{Bool, true, false, ◌&&◌, ◌||◌}
use mathlib.Core.List.{List, [], ◌∷◌, ◌++◌, map}
use native.Mathlib.Omega.{arith}
use hanabi_bot.Base.Tests.{if◌then◌else◌, Bool-cases}
use hanabi_bot.Base.Lists.{length}

module _ {ℓ} {A : Type ℓ} where
  -- `arr.filter(test)`, `arr.every(test)`, `arr.some(test)`.
  abbrev pub filter : (A → Bool) → List A → List A
  filter p [] = []
  filter p (x ∷ xs) = if p x then x ∷ filter p xs else filter p xs

  abbrev pub every : (A → Bool) → List A → Bool
  every p [] = true
  every p (x ∷ xs) = p x && every p xs

  abbrev pub some_of : (A → Bool) → List A → Bool
  some_of p [] = false
  some_of p (x ∷ xs) = p x || some_of p xs

  abbrev pub All {κ} : (A → Type κ) → List A → Type κ
  All P [] = Unit
  All P (x ∷ xs) = P x × All P xs

  pub length-filter-le : (p : A → Bool) (xs : List A) → length (filter p xs) ≤ length xs
  length-filter-le p [] = omega arith
  length-filter-le p (x ∷ xs) = ground (arith, length-filter-le p xs)

  pub filter-append :
      (p : A → Bool) (xs ys : List A) → filter p (xs ++ ys) ≡ filter p xs ++ filter p ys
  filter-append p [] ys = refl
  filter-append p (x ∷ xs) ys = ground (arith, filter-append p xs ys)

-- Membership, for the types of data that the program has.
module _ {A : Type 0} where
  infix 4 ◌∈◌
  abbrev pub ◌∈◌ : A → List A → Type 0
  a ∈ [] = ⊥
  a ∈ (x ∷ xs) = (a ≡ x) ⊎ (a ∈ xs)

  pub mem-filter : (p : A → Bool) (a : A) (xs : List A) → a ∈ xs → p a ≡ true → a ∈ filter p xs
  mem-filter p a [] m h = absurd m
  mem-filter p a (x ∷ xs) (inl e) h = ground arith
  mem-filter p a (x ∷ xs) (inr m) h = ground (arith, mem-filter p a xs m h)

  pub filter-mem : (p : A → Bool) (a : A) (xs : List A) → a ∈ filter p xs → (a ∈ xs) × (p a ≡ true)
  filter-mem p a [] m = absurd m
  filter-mem p a (x ∷ xs) m = ground (arith, filter-mem p a xs)

  pub mem-append_left : (a : A) (xs ys : List A) → a ∈ xs → a ∈ (xs ++ ys)
  mem-append_left a [] ys m = absurd m
  mem-append_left a (x ∷ xs) ys (inl e) = inl e
  mem-append_left a (x ∷ xs) ys (inr m) = inr (mem-append_left a xs ys m)

  pub mem-append_right : (a : A) (xs ys : List A) → a ∈ ys → a ∈ (xs ++ ys)
  mem-append_right a [] ys m = m
  mem-append_right a (x ∷ xs) ys m = inr (mem-append_right a xs ys m)

  pub append-mem : (a : A) (xs ys : List A) → a ∈ (xs ++ ys) → (a ∈ xs) ⊎ (a ∈ ys)
  append-mem a [] ys m = inr m
  append-mem a (x ∷ xs) ys m = ground (arith, append-mem a xs ys)

  pub every-mem : (p : A → Bool) (xs : List A) (a : A) → every p xs ≡ true → a ∈ xs → p a ≡ true
  every-mem p [] a h m = absurd m
  every-mem p (x ∷ xs) a h (inl e) = ground arith
  every-mem p (x ∷ xs) a h (inr m) = every-mem p xs a (ground arith) m

  pub some_of-mem :
      (p : A → Bool) (xs : List A) → some_of p xs ≡ true → (a : A) × (a ∈ xs) × (p a ≡ true)
  some_of-mem p [] h = absurd (ground arith)
  some_of-mem p (x ∷ xs) h = elim (Bool-cases (p x)) [
    | inl e ↦ (x, inl refl, e)
    | inr e ↦ let (a, m, q) = some_of-mem p xs (ground arith) in (a, inr m, q)
  ]

  pub mem-some_of : (p : A → Bool) (xs : List A) (a : A) → a ∈ xs → p a ≡ true → some_of p xs ≡ true
  mem-some_of p [] a m h = absurd m
  mem-some_of p (x ∷ xs) a (inl e) h = ground arith
  mem-some_of p (x ∷ xs) a (inr m) h = ground (arith, mem-some_of p xs a m h)

pub mem-map : {A B : Type 0} (f : A → B) (a : A) (xs : List A) → a ∈ xs → f a ∈ map f xs
mem-map f a [] m = absurd m
mem-map f a (x ∷ xs) (inl e) = inl (λ i. f (e i))
mem-map f a (x ∷ xs) (inr m) = inr (mem-map f a xs m)

pub All-of_mem : {A : Type 0} (P : A → Type 0) (xs : List A) → ((a : A) → a ∈ xs → P a) → All P xs
All-of_mem P [] h = tt
All-of_mem P (x ∷ xs) h = (h x (inl refl), All-of_mem P xs (λ a m. h a (inr m)))

pub All-mem : {A : Type 0} (P : A → Type 0) (xs : List A) (a : A) → All P xs → a ∈ xs → P a
All-mem P [] a h m = absurd m
All-mem P (x ∷ xs) a h (inl e) = rw e h.0
All-mem P (x ∷ xs) a h (inr m) = All-mem P xs a h.1 m

pub Bool-eq : (a b : Bool) → (a ≡ true → b ≡ true) → (b ≡ true → a ≡ true) → a ≡ b
Bool-eq true true p q = refl
Bool-eq true false p q = sym (p refl)
Bool-eq false true p q = q refl
Bool-eq false false p q = refl

pub mem-if_cons :
    {A : Type 0} (b : Bool) (a x : A) (xs : List A)
    → a ∈ (if b then x ∷ xs else xs)
    → ((a ≡ x) × (b ≡ true)) ⊎ (a ∈ xs)
mem-if_cons true a x xs (inl e) = inl (e, refl)
mem-if_cons true a x xs (inr m) = inr m
mem-if_cons false a x xs m = inr m
