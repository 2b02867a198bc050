-- ===== src/Elimination/Grown.antt =====
-- How what `card_elim` knows changes: it may know more, and has fewer candidates and possibilities.
use hanabi_bot.Base.{
  ℕ, ◌≤◌, ◌≡◌, refl, sym, ap, ◌∙◌, ◌⊎◌, some, set, Bool, true, ◌&&◌, List, [], ◌∷◌, ◌∈◌, filter,
  arith, Bool-cases, inl, inr,
}
use mathlib.Core.Path.{subst}
use hanabi_bot.Identity.{Identity, is_unknown}
use hanabi_bot.Card.{Card}
use hanabi_bot.Thoughts.{Thoughts, thought_at}
use hanabi_bot.Thoughts.Sound.{thought_at-set}
use hanabi_bot.Elimination.{Certain, Entry, Knowledge, known_orders}
use hanabi_bot.Elimination.Truth.{IsSeenRight, weight}

-- Some of the candidates, in order.
abbrev pub Thins : List Entry → List Entry → Type 0
Thins xs ys = (p : Entry → Bool) × (ys ≡ filter p xs)

-- All orders that are known to be an identity stay known.
abbrev pub Knows : List Certain → List Certain → Type 0
Knows cs ds = (id : Identity) (o : ℕ) → o ∈ known_orders id cs → o ∈ known_orders id ds

-- The cards are those of before, as seen and as rewound.
abbrev pub Same : Thoughts → Thoughts → Type 0
Same ts us =
    (o : ℕ) (d : Card)
    → thought_at us o ≡ some d
    → (c : Card) × (thought_at ts o ≡ some c)
      × (d.rewind_ids ≡ c.rewind_ids)
      × (d.actual ≡ c.actual)

pub Same-refl : (ts : Thoughts) → Same ts ts
Same-refl ts o d e = (d, e, refl, refl)

pub Same-trans : (ts us vs : Thoughts) → Same ts us → Same us vs → Same ts vs
Same-trans ts us vs g h o d e =
    let (c, e', r, a) = h o d e in let (b, e'', r', a') = g o c e' in (b, e'', r ∙ r', a ∙ a')

-- A card is replaced by one that is seen and rewound alike.
pub set-Same :
    (ts : Thoughts) (o : ℕ) (c d : Card)
    → thought_at ts o ≡ some c
    → (d.rewind_ids ≡ c.rewind_ids) × (d.actual ≡ c.actual)
    → Same ts (set ts o (some d))
set-Same ts o c d at (r, a) i b e = elim (thought_at-set ts o i d b e) [
  | inl (same, own) ↦ rw (same, own) (c, at, r, a)
  | inr old ↦ (b, old, refl, refl)
]

-- What is seen right stays so.
pub Same-IsSeenRight :
    (deal : ℕ → Identity) (ts us : Thoughts)
    → Same ts us
    → IsSeenRight deal ts
    → IsSeenRight deal us
Same-IsSeenRight deal ts us g right o d e =
    let (c, at, r, a) = g o d e in
    let (rewound, seen) = right o c at in
    (r ∙ rewound, subst (λ x. (is_unknown x.id ≡ true) ⊎ (x.id ≡ deal o)) (sym a) seen)

pub record Grown (k k' : Knowledge) : Type 0 where
  pub lighter : weight k'.thoughts ≤ weight k.thoughts
  pub known : Knows k.certain k'.certain
  pub thinned : Thins k.candidates k'.candidates
  pub same : Same k.thoughts k'.thoughts

filter-true : (xs : List Entry) → xs ≡ filter (λ e. true) xs
filter-true [] = refl
filter-true (x ∷ xs) = ap (λ (ys : List Entry). x ∷ ys) (filter-true xs)

filter-filter :
    (p q : Entry → Bool) (xs : List Entry) → filter p (filter q xs) ≡ filter (λ e. q e && p e) xs
filter-filter p q [] = refl
filter-filter p q (x ∷ xs) = elim (Bool-cases (q x)) [
  | inl t ↦ ground (arith, filter-filter p q xs)
  | inr f ↦ ground (arith, filter-filter p q xs)
]

pub Thins-refl : (xs : List Entry) → Thins xs xs
Thins-refl xs = (λ e. true, filter-true xs)

pub Thins-trans : (xs ys zs : List Entry) → Thins xs ys → Thins ys zs → Thins xs zs
Thins-trans xs ys zs (p, e) (q, f) = (λ x. p x && q x, f ∙ ap (filter q) e ∙ filter-filter q p xs)

pub Grown-refl : (k : Knowledge) → Grown k k
Grown-refl k = record {
  lighter = omega arith;
  known = λ id o m. m;
  thinned = Thins-refl k.candidates;
  same = Same-refl k.thoughts;
}

pub Grown-trans : {k k' k'' : Knowledge} → Grown k k' → Grown k' k'' → Grown k k''
Grown-trans {k = k} {k' = k'} {k'' = k''} g h = record {
  lighter = omega (arith, g.lighter, h.lighter);
  known = λ id o m. h.known id o (g.known id o m);
  thinned = Thins-trans k.candidates k'.candidates k''.candidates g.thinned h.thinned;
  same = Same-trans k.thoughts k'.thoughts k''.thoughts g.same h.same;
}
