-- ===== src/Base/Fallible.antt =====
-- `filter`, `some`, `every` and `&&`, `||` with tests that may throw, where `none` is the error. As in
-- the source, `some`, `every` and the connectives stop at the first test that decides.
use mathlib.Core.Path.{◌≡◌, refl, sym, ap, ◌∙◌, subst}
use mathlib.Core.Logic.{◌⊎◌, inl, inr}
use mathlib.Core.Bool.{Bool, true, false, not}
use mathlib.Core.List.{List, [], ◌∷◌}
use mathlib.Core.Option.{Option, none, some, some-injective}
use native.Mathlib.Omega.{arith}
use hanabi_bot.Base.Preds.{◌∈◌}

infixr 30 ◌&&?◌
infixr 25 ◌||?◌
abbrev pub ◌&&?◌ : Option Bool → Option Bool → Option Bool
none &&? b = none
some true &&? b = b
some false &&? b = some false

abbrev pub ◌||?◌ : Option Bool → Option Bool → Option Bool
none ||? b = none
some true ||? b = some true
some false ||? b = b

abbrev pub not? : Option Bool → Option Bool
not? none = none
not? (some b) = some (not b)

module _ {ℓ} {A : Type ℓ} where
  abbrev pub keep : A → Option Bool → Option (List A) → Option (List A)
  keep x none rest = none
  keep x (some b) none = none
  keep x (some true) (some ys) = some (x ∷ ys)
  keep x (some false) (some ys) = some ys

  unfoldable pub filter? : (A → Option Bool) → List A → Option (List A)
  filter? p [] = some []
  filter? p (x ∷ xs) = keep x (p x) (filter? p xs)

  unfoldable pub some? : (A → Option Bool) → List A → Option Bool
  some? p [] = some false
  some? p (x ∷ xs) = p x ||? some? p xs

  unfoldable pub every? : (A → Option Bool) → List A → Option Bool
  every? p [] = some true
  every? p (x ∷ xs) = p x &&? every? p xs

-- A computation that does not throw.
abbrev pub Returns {ℓ} : {A : Type ℓ} → Option A → Type ℓ
Returns {A = A} o = (a : A) × (o ≡ some a)

pub &&?-Returns : (a b : Option Bool) → Returns a → Returns b → Returns (a &&? b)
&&?-Returns (some true) b r s = s
&&?-Returns (some false) b r s = (false, refl)
&&?-Returns none b r s = absurd (ground arith)

pub ||?-Returns : (a b : Option Bool) → Returns a → Returns b → Returns (a ||? b)
||?-Returns (some true) b r s = (true, refl)
||?-Returns (some false) b r s = s
||?-Returns none b r s = absurd (ground arith)

pub &&?-true : (a b : Option Bool) → a &&? b ≡ some true → (a ≡ some true) × (b ≡ some true)
&&?-true none b e = absurd (ground arith)
&&?-true (some true) b e = (refl, e)
&&?-true (some false) b e = absurd (ground arith)

pub ||?-true : (a b : Option Bool) → a ||? b ≡ some true → (a ≡ some true) ⊎ (b ≡ some true)
||?-true none b e = inl (absurd (ground arith))
||?-true (some true) b e = inl refl
||?-true (some false) b e = inr e

module _ {A : Type 0} where
  pub filter?-Returns :
      (p : A → Option Bool) (xs : List A)
      → ((a : A) → a ∈ xs → Returns (p a))
      → Returns (filter? p xs)
  unfolding filter?
  filter?-Returns p [] h = ([], refl)
  filter?-Returns p (x ∷ xs) h =
      both (p x) (filter? p xs) (h x (inl refl)) (filter?-Returns p xs (λ a m. h a (inr m)))
    where
      both : (b : Option Bool) (r : Option (List A)) → Returns b → Returns r → Returns (keep x b r)
      both b none q s = absurd (ground arith)
      both none (some ys) q s = absurd (ground arith)
      both (some true) (some ys) q s = (x ∷ ys, refl)
      both (some false) (some ys) q s = (ys, refl)

  pub some?-Returns :
      (p : A → Option Bool) (xs : List A)
      → ((a : A) → a ∈ xs → Returns (p a))
      → Returns (some? p xs)
  unfolding some?
  some?-Returns p [] h = (false, refl)
  some?-Returns p (x ∷ xs) h =
      ||?-Returns (p x) (some? p xs) (h x (inl refl)) (some?-Returns p xs (λ a m. h a (inr m)))

  pub every?-Returns :
      (p : A → Option Bool) (xs : List A)
      → ((a : A) → a ∈ xs → Returns (p a))
      → Returns (every? p xs)
  unfolding every?
  every?-Returns p [] h = (true, refl)
  every?-Returns p (x ∷ xs) h =
      &&?-Returns (p x) (every? p xs) (h x (inl refl)) (every?-Returns p xs (λ a m. h a (inr m)))

  keep-mem :
      (x a : A) (b : Option Bool) (r : Option (List A)) (ys : List A)
      → keep x b r ≡ some ys
      → a ∈ ys
      → ((a ≡ x) × (b ≡ some true)) ⊎ ((zs : List A) × (r ≡ some zs) × (a ∈ zs))
  keep-mem x a none r ys e m = absurd (ground arith)
  keep-mem x a (some b) none ys e m = absurd (ground arith)
  keep-mem x a (some true) (some zs) ys e m =
      head (subst (λ (ws : List A). a ∈ ws) (sym (some-injective _ _ e)) m)
    where
      head :
          a ∈ x ∷ zs
          → ((a ≡ x) × (some true ≡ some true)) ⊎ ((ws : List A) × (some zs ≡ some ws) × (a ∈ ws))
      head (inl same) = inl (same, refl)
      head (inr later) = inr (zs, refl, later)
  keep-mem x a (some false) (some zs) ys e m =
      inr (zs, refl, subst (λ (ws : List A). a ∈ ws) (sym (some-injective _ _ e)) m)

  -- What the filter keeps passes the test and is of the list.
  pub filter?-mem :
      (p : A → Option Bool) (xs ys : List A) (a : A)
      → filter? p xs ≡ some ys
      → a ∈ ys
      → (a ∈ xs) × (p a ≡ some true)
  unfolding filter?
  filter?-mem p [] ys a e m =
      absurd (subst (λ (ws : List A). a ∈ ws) (sym (some-injective _ _ e)) m)
  filter?-mem p (x ∷ xs) ys a e m = elim (keep-mem x a (p x) (filter? p xs) ys e m) [
    | inl (same, t) ↦ (inl same, ap p same ∙ t)
    | inr (zs, r, later) ↦ let (n, t) = filter?-mem p xs zs a r later in (inr n, t)
  ]

  pub every?-mem :
      (p : A → Option Bool) (xs : List A) (a : A)
      → every? p xs ≡ some true
      → a ∈ xs
      → p a ≡ some true
  unfolding every?
  every?-mem p [] a e m = absurd m
  every?-mem p (x ∷ xs) a e (inl same) = ap p same ∙ (&&?-true (p x) (every? p xs) e).0
  every?-mem p (x ∷ xs) a e (inr m) = every?-mem p xs a (&&?-true (p x) (every? p xs) e).1 m

  pub some?-mem :
      (p : A → Option Bool) (xs : List A)
      → some? p xs ≡ some true
      → (a : A) × (a ∈ xs) × (p a ≡ some true)
  unfolding some?
  some?-mem p [] e = absurd (ground arith)
  some?-mem p (x ∷ xs) e = elim (||?-true (p x) (some? p xs) e) [
    | inl now ↦ (x, inl refl, now)
    | inr rest ↦ let (a, m, t) = some?-mem p xs rest in (a, inr m, t)
  ]
