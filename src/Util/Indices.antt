-- ===== src/Util/Indices.antt =====
-- `findIndices` and `nextIndex` give the indices whose element passes the test.
use hanabi_bot.Base.{
  ℕ, zero, suc, ◌+◌, ◌-◌, ◌%◌, ◌≤◌, ◌<◌, ◌≡◌, refl, sym, ◌∙◌, ◌↔◌, inl, inr, ◌⊎◌, Bool, true, false,
  List, [], ◌∷◌, ◌∈◌, Option, none, some, length, get_elem?, arith, Bool-cases, Option-cases,
  ℕ_discrete, dec_lt,
}
use native.Mathlib.Nat.{mod-eq_of_lt, add-mod_left}
use mathlib.Core.Path.{subst}
use mathlib.Core.Option.{some-injective}
use hanabi_bot.Util.{find_from, find_indices, next_from, next_index}

find_from-mem {ℓ} :
    {A : Type ℓ}
    → (test : A → Bool) (xs : List A) (from i : ℕ) → i ∈ find_from test xs from
    → (k : ℕ) × (x : A) × (i ≡ from + k) × (get_elem? xs k ≡ some x) × (test x ≡ true)
unfolding find_from
find_from-mem test [] from i m = absurd m
find_from-mem {A = A} test (x ∷ xs) from i m = elim (Bool-cases (test x)) [
  | inl t ↦ first t (rw t at (m)) (find_from-mem test xs (from + 1) i)
  | inr f ↦ later (find_from-mem test xs (from + 1) i (rw f at (m)))
]
  where
    later :
        (k : ℕ) × (y : A) × (i ≡ from + 1 + k) × (get_elem? xs k ≡ some y) × (test y ≡ true)
        → (k : ℕ) × (y : A) × (i ≡ from + k) × (get_elem? (x ∷ xs) k ≡ some y) × (test y ≡ true)
    later (k, y, e, g, t) = (suc k, y, omega arith, g, t)

    first :
        test x ≡ true
        → (i ≡ from) ⊎ (i ∈ find_from test xs (from + 1))
        → (i ∈ find_from test xs (from + 1)
            → (k : ℕ) × (y : A) × (i ≡ from + 1 + k) × (get_elem? xs k ≡ some y) × (test y ≡ true))
        → (k : ℕ) × (y : A) × (i ≡ from + k) × (get_elem? (x ∷ xs) k ≡ some y) × (test y ≡ true)
    first t (inl e) ih = (0, x, omega arith, refl, t)
    first t (inr m) ih = later (ih m)

mem-find_from {ℓ} :
    {A : Type ℓ}
    → (test : A → Bool) (xs : List A) (from k : ℕ) (x : A) → get_elem? xs k ≡ some x
    → test x ≡ true
    → (from + k) ∈ find_from test xs from
unfolding find_from
mem-find_from test [] from k x g t = absurd (ground arith)
mem-find_from test (y ∷ ys) from zero x g t =
    let own : y ≡ x = some-injective y x g in rw (own, t) (inl (omega arith))
mem-find_from test (y ∷ ys) from (suc k) x g t =
    let e : from + suc k ≡ from + 1 + k = omega arith in
    let m : (from + suc k) ∈ find_from test ys (from + 1) =
      subst (λ (n : ℕ). n ∈ find_from test ys (from + 1)) (sym e)
        (mem-find_from test ys (from + 1) k x g t) in
    elim (Bool-cases (test y)) [ inl u ↦ rw u (inr m) | inr f ↦ rw f m ]

-- `findIndices` gives exactly the indices of the elements that pass the test.
find_indices_mem_iff {ℓ} :
    {A : Type ℓ}
    → (arr : List A) (test : A → Bool) (i : ℕ)
    → (i ∈ find_indices arr test) ↔ ((x : A) × (get_elem? arr i ≡ some x) × (test x ≡ true))
unfolding find_indices
find_indices_mem_iff arr test i = (
  λ m.
      let (k, x, e, g, t) = find_from-mem test arr 0 i m in
      let same : i ≡ k = omega arith in rw same (x, g, t),
  λ p. let e : 0 + i ≡ i = omega arith in rw e at (mem-find_from test arr 0 i p.0 p.1 p.2),
)

-- What `nextIndex` gives: with `n` rounds from `offset` on, either no tried index passes, or the
-- first that does.
abbrev pub Tried {ℓ} : {A : Type ℓ} → List A → (A → Bool) → (start offset k : ℕ) → Type ℓ
Tried {A = A} arr test start offset k =
    (j : ℕ)
    → offset ≤ j
    → j < k
    → (x : A) → get_elem? arr ((start + j) % length arr) ≡ some x
    → test x ≡ false

abbrev pub Found {ℓ} : {A : Type ℓ} → List A → (A → Bool) → (start offset n : ℕ) → Option ℕ → Type ℓ
Found arr test start offset n none = Tried arr test start offset (offset + n)
Found {A = A} arr test start offset n (some i) =
    (k : ℕ) × (x : A) × (offset ≤ k)
    × (k < offset + n)
    × (i ≡ (start + k) % length arr)
    × (get_elem? arr i ≡ some x)
    × (test x ≡ true)
    × Tried arr test start offset k

next_from-Found {ℓ} :
    {A : Type ℓ}
    → (arr : List A) (test : A → Bool) (start n offset : ℕ)
    → Found arr test start offset n (next_from arr test start n offset)
unfolding next_from
next_from-Found arr test start zero offset = λ j lo hi x g. absurd (omega arith)
next_from-Found {A = A} arr test start (suc n) offset =
    let later = next_from-Found arr test start n (offset + 1) in
    elim (Option-cases (get_elem? arr ((start + offset) % length arr))) [
      | inl e ↦ skips later (rw (e, next_from)) (λ x g. absurd (ground arith))
      | inr (x, e) ↦ elim (Bool-cases (test x)) [
        | inl t ↦
            let hit : next_from arr test start (suc n) offset
                ≡ some ((start + offset) % length arr) =
              rw (e, t, next_from) in
            subst (Found arr test start offset (suc n)) (sym hit)
              (offset, x, omega arith, omega arith, refl, e, t, λ j lo hi y g. absurd (omega arith))
        | inr f ↦
            skips later (rw (e, f, next_from))
              (λ y g. let same : x ≡ y = some-injective x y (sym e ∙ g) in rw (← same) f)
      ]
    ]
  where
    more :
        (k : ℕ)
        → ((y : A) → get_elem? arr ((start + offset) % length arr) ≡ some y → test y ≡ false)
        → Tried arr test start (offset + 1) k
        → Tried arr test start offset k
    more k fails tried j lo hi y g = elim (ℕ_discrete j offset) [
      | yes same ↦ fails y (rw same at (g))
      | no ne ↦ tried j (omega arith) hi y g
    ]

    widen :
        (res : Option ℕ)
        → ((y : A) → get_elem? arr ((start + offset) % length arr) ≡ some y → test y ≡ false)
        → Found arr test start (offset + 1) n res
        → Found arr test start offset (suc n) res
    widen none fails tried =
        let e : offset + suc n ≡ offset + 1 + n = omega arith in rw e (more _ fails tried)
    widen (some i) fails (k, x, lo, hi, at, g, t, tried) =
        (k, x, omega arith, omega arith, at, g, t, more k fails tried)

    skips :
        Found arr test start (offset + 1) n (next_from arr test start n (offset + 1))
        → next_from arr test start (suc n) offset ≡ next_from arr test start n (offset + 1)
        → ((y : A) → get_elem? arr ((start + offset) % length arr) ≡ some y → test y ≡ false)
        → Found arr test start offset (suc n) (next_from arr test start (suc n) offset)
    skips later same fails =
        subst (Found arr test start offset (suc n)) (sym same)
          (widen (next_from arr test start n (offset + 1)) fails later)

get_elem?-lt {ℓ} :
    {A : Type ℓ} → (arr : List A) (i : ℕ) (x : A) → get_elem? arr i ≡ some x → i < length arr
get_elem?-lt [] i x g = absurd (ground arith)
get_elem?-lt (y ∷ ys) zero x g = omega arith
get_elem?-lt (y ∷ ys) (suc i) x g = omega (arith, get_elem?-lt ys i x g)

-- All indices are tried.
all_fail {ℓ} :
    {A : Type ℓ}
    → (arr : List A) (test : A → Bool) (start i : ℕ) (x : A) → start < length arr
    → Tried arr test start 1 (1 + length arr)
    → get_elem? arr i ≡ some x
    → test x ≡ false
all_fail arr test start i x lt tried g =
    let small = get_elem?-lt arr i x g in
    elim (dec_lt start i) [
      | yes p ↦
          let sum : start + (i - start) ≡ i = omega arith in
          tried (i - start) (omega arith) (omega (arith, small)) x (rw (sum, mod-eq_of_lt small) g)
      | no q ↦
          let sum : start + (length arr - start + i) ≡ length arr + i = omega (arith, lt) in
          tried (length arr - start + i) (omega (arith, lt)) (omega (arith, lt)) x
            (rw (sum, add-mod_left (length arr) i, mod-eq_of_lt small) g)
    ]

-- For a start inside the array, `nextIndex` gives the index of an element that passes the test, such
-- that those at the indices between, with wraparound, do not; it gives -1 exactly if no element
-- passes.
pub next_index_lem {ℓ} :
    {A : Type ℓ}
    → (arr : List A) (test : A → Bool) (start : ℕ) → start < length arr
    → Found arr test start 1 (length arr) (next_index arr test start)
      × ((next_index arr test start ≡ none)
          ↔ ((i : ℕ) (x : A) → get_elem? arr i ≡ some x → test x ≡ false))
unfolding next_index
next_index_lem {A = A} arr test start lt =
    let found = next_from-Found arr test start (length arr) 1 in
    (
      found,
      (
        (λ e i x g.
            all_fail arr test start i x lt (subst (Found arr test start 1 (length arr)) e found) g),
        λ fails. elim (Option-cases (next_from arr test start (length arr) 1)) [
          | inl e ↦ e
          | inr (i, e) ↦
              absurd (passes i fails (subst (Found arr test start 1 (length arr)) e found))
        ],
      ),
    )
  where
    passes :
        (i : ℕ)
        → ((i : ℕ) (x : A) → get_elem? arr i ≡ some x → test x ≡ false)
        → ¬ (Found arr test start 1 (length arr) (some i))
    passes i fails (k, x, lo, hi, at, g, t, tried) = let f = fails i x g in ground arith
