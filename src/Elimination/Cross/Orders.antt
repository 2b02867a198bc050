-- ===== src/Elimination/Cross/Orders.antt =====
-- Lists of cards with different orders, as `gen_subset` and `groupBy` build them.
use hanabi_bot.Base.{
  ℕ, zero, suc, ◌+◌, ◌≡◌, ◌≢◌, refl, sym, ap, ◌∙◌, ◌⊎◌, inl, inr, Bool, true, false, List, [], ◌∷◌,
  ◌++◌, ◌∈◌, ◌==◌, some, get_elem?, drop, filter, map, arith, Bool-cases, filter-mem, mem-some_of,
  mem-map, append-mem,
}
use hanabi_bot.Identity.{Identity}
use hanabi_bot.Thoughts.{includes_order}
use hanabi_bot.Elimination.{Entry, Certain, known_orders, entries_of, entries_from}
use hanabi_bot.Elimination.Counting.{AllDiffer}
use hanabi_bot.Elimination.Certains.{all_orders}
use hanabi_bot.Elimination.Cross.{is_outside, players_of, union_orders, known_of}

abbrev pub orders_of : List Entry → List ℕ
orders_of es = map (λ (e : Entry). e.order) es

pub AllDiffer-append :
    (xs ys : List ℕ)
    → AllDiffer xs
    → AllDiffer ys
    → ((x : ℕ) → x ∈ ys → ¬ (x ∈ xs))
    → AllDiffer (xs ++ ys)
AllDiffer-append [] ys d d' apart = d'
AllDiffer-append (x ∷ xs) ys (fresh, d) d' apart = (
  λ m. elim (append-mem x xs ys m) [ inl a ↦ fresh a | inr b ↦ apart x b (inl refl) ],
  AllDiffer-append xs ys d d' (λ y m n. apart y m (inr n)),
)

pub AllDiffer-filter : (p : ℕ → Bool) (xs : List ℕ) → AllDiffer xs → AllDiffer (filter p xs)
AllDiffer-filter p [] d = tt
AllDiffer-filter p (x ∷ xs) (fresh, d) = elim (Bool-cases (p x)) [
  | inl t ↦ rw t ((λ m. fresh (filter-mem p x xs m).0), AllDiffer-filter p xs d)
  | inr f ↦ rw f (AllDiffer-filter p xs d)
]

pub mem-orders_of : (e : Entry) (es : List Entry) → e ∈ es → e.order ∈ orders_of es
mem-orders_of e es m = mem-map (λ (x : Entry). x.order) e es m

pub orders_of-mem :
    (o : ℕ) (es : List Entry) → o ∈ orders_of es → (e : Entry) × (e ∈ es) × (e.order ≡ o)
orders_of-mem o [] m = absurd m
orders_of-mem o (e ∷ es) (inl q) = (e, inl refl, sym q)
orders_of-mem o (e ∷ es) (inr m) = let (d, n, q) = orders_of-mem o es m in (d, inr n, q)

pub is_outside-not : (es : List Entry) (o : ℕ) → is_outside es o ≡ true → ¬ (o ∈ orders_of es)
is_outside-not [] o h m = m
is_outside-not (e ∷ es) o h (inl q) = ground arith
is_outside-not (e ∷ es) o h (inr m) = is_outside-not es o (ground arith) m

-- An order that is not outside is of the list.
pub inside-mem : (es : List Entry) (o : ℕ) → is_outside es o ≡ false → o ∈ orders_of es
inside-mem [] o h = absurd (ground arith)
inside-mem (e ∷ es) o h = elim (Bool-cases (e.order == o)) [
  | inl t ↦ inl (ground arith)
  | inr f ↦ inr (inside-mem es o (ground arith))
]

-- The order tells the entry.
pub same_entry :
    (es : List Entry) (e d : Entry)
    → AllDiffer (orders_of es)
    → e ∈ es
    → d ∈ es
    → e.order ≡ d.order
    → e ≡ d
same_entry [] e d differ m n q = absurd m
same_entry (x ∷ es) e d differ (inl m) (inl n) q = m ∙ sym n
same_entry (x ∷ es) e d (fresh, differ) (inl m) (inr n) q =
    absurd (fresh (rw (← m, q) (mem-orders_of d es n)))
same_entry (x ∷ es) e d (fresh, differ) (inr m) (inl n) q =
    absurd (fresh (rw (← n, ← q) (mem-orders_of e es m)))
same_entry (x ∷ es) e d (fresh, differ) (inr m) (inr n) q = same_entry es e d differ m n q

pub orders_of-append : (xs ys : List Entry) → orders_of (xs ++ ys) ≡ orders_of xs ++ orders_of ys
orders_of-append [] ys = refl
orders_of-append (x ∷ xs) ys = ap (λ (zs : List ℕ). x.order ∷ zs) (orders_of-append xs ys)

orders_of-entries_of : (i : ℕ) (hand : List ℕ) → orders_of (entries_of i hand) ≡ hand
unfolding entries_of
orders_of-entries_of i [] = refl
orders_of-entries_of i (o ∷ os) = ap (λ (zs : List ℕ). o ∷ zs) (orders_of-entries_of i os)

pub orders_of-entries_from :
    (i : ℕ) (hands : List (List ℕ)) → orders_of (entries_from i hands) ≡ all_orders hands
unfolding entries_from
orders_of-entries_from i [] = refl
orders_of-entries_from i (hand ∷ hands) =
    orders_of-append (entries_of i hand) (entries_from (i + 1) hands)
    ∙ rw (orders_of-entries_of i hand, orders_of-entries_from (i + 1) hands) refl

pub players_of-mem :
    (e : Entry) (es : List Entry) → e ∈ es → includes_order (players_of es) e.player_index ≡ true
players_of-mem e es m =
    mem-some_of (λ x. x == e.player_index) (players_of es) e.player_index
      (mem-map (λ (x : Entry). x.player_index) e es m) (ground arith)

-- The union of sets of orders has the orders of both, each once.
pub union_orders-mem : (os ns : List ℕ) (o : ℕ) → o ∈ union_orders os ns → (o ∈ os) ⊎ (o ∈ ns)
unfolding union_orders
union_orders-mem os [] o m = inl m
union_orders-mem os (n ∷ ns) o m = elim (Bool-cases (includes_order os n)) [
  | inl t ↦ elim (union_orders-mem os ns o (rw t at (m))) [ inl a ↦ inl a | inr b ↦ inr (inr b) ]
  | inr f ↦ elim (union_orders-mem (os ++ n ∷ []) ns o (rw f at (m))) [
    | inl a ↦ elim (append-mem o os (n ∷ []) a) [
      | inl c ↦ inl c
      | inr l ↦ inr (elim l [ inl e ↦ inl e | inr k ↦ absurd k ])
    ]
    | inr b ↦ inr (inr b)
  ]
]

pub union_orders-AllDiffer : (os ns : List ℕ) → AllDiffer os → AllDiffer (union_orders os ns)
unfolding union_orders
union_orders-AllDiffer os [] d = d
union_orders-AllDiffer os (n ∷ ns) d = elim (Bool-cases (includes_order os n)) [
  | inl t ↦ rw t (union_orders-AllDiffer os ns d)
  | inr f ↦ rw f (
      union_orders-AllDiffer (os ++ n ∷ []) ns (
        AllDiffer-append os (n ∷ []) d ((λ m. m), tt)
          (λ x m old. elim m [
            | inl e ↦
                let listed = mem-some_of (λ y. y == n) os n (rw e at (old)) (ground arith) in
                ground arith
            | inr k ↦ k
          ])))
]

pub known_of-mem :
    (ids : List Identity) (cs : List Certain) (o : ℕ)
    → o ∈ known_of ids cs
    → (id : Identity) × (id ∈ ids) × (o ∈ known_orders id cs)
unfolding known_of
known_of-mem [] cs o m = absurd m
known_of-mem (id ∷ ids) cs o m = elim (append-mem o (known_orders id cs) (known_of ids cs) m) [
  | inl a ↦ (id, inl refl, a)
  | inr b ↦ let (i, n, k) = known_of-mem ids cs o b in (i, inr n, k)
]

-- The items from an index on.
pub get_elem?-drop : (es : List Entry) (n : ℕ) (e : Entry) → get_elem? es n ≡ some e → e ∈ drop n es
get_elem?-drop [] n e h = absurd (ground arith)
get_elem?-drop (d ∷ es) zero e h = inl (ground arith)
get_elem?-drop (d ∷ es) (suc n) e h = get_elem?-drop es n e h

pub drop-mem : (es : List Entry) (n : ℕ) (e : Entry) → e ∈ drop n es → e ∈ es
drop-mem [] zero e m = m
drop-mem [] (suc n) e m = m
drop-mem (d ∷ es) zero e m = m
drop-mem (d ∷ es) (suc n) e m = inr (drop-mem es n e m)

pub drop-suc : (es : List Entry) (n : ℕ) (e : Entry) → e ∈ drop (suc n) es → e ∈ drop n es
drop-suc [] n e m = absurd m
drop-suc (d ∷ es) zero e m = inr m
drop-suc (d ∷ es) (suc n) e m = drop-suc es n e m

pub drop-filter :
    (p : Entry → Bool) (es : List Entry) (n : ℕ) (e : Entry)
    → e ∈ drop n (filter p es)
    → e ∈ drop n es
drop-filter p [] zero e m = m
drop-filter p [] (suc n) e m = m
drop-filter p (d ∷ es) zero e m = (filter-mem p e (d ∷ es) m).0
drop-filter p (d ∷ es) (suc n) e m = elim (Bool-cases (p d)) [
  | inl t ↦ drop-filter p es n e (rw t at (m))
  | inr f ↦ drop-filter p es n e (drop-suc (filter p es) n e (rw f at (m)))
]

pub drop-differ :
    (es : List Entry) (n : ℕ) (x e : Entry)
    → AllDiffer (orders_of es)
    → get_elem? es n ≡ some x
    → e ∈ drop (suc n) es
    → e.order ≢ x.order
drop-differ [] n x e differ h m q = m
drop-differ (d ∷ es) zero x e (fresh, differ) h m q =
    let same : d ≡ x = ground arith in fresh (rw (same, ← q) (mem-orders_of e es m))
drop-differ (d ∷ es) (suc n) x e (fresh, differ) h m q = drop-differ es n x e differ h m q

pub orders_of-filter :
    (p : Entry → Bool) (es : List Entry)
    → AllDiffer (orders_of es)
    → AllDiffer (orders_of (filter p es))
orders_of-filter p [] d = tt
orders_of-filter p (e ∷ es) (fresh, d) = elim (Bool-cases (p e)) [
  | inl t ↦ rw t (
    (λ m.
        let (x, n, q) = orders_of-mem e.order (filter p es) m in
        fresh (rw (← q) (mem-orders_of x es (filter-mem p x es n).0))),
    orders_of-filter p es d,
  )
  | inr f ↦ rw f (orders_of-filter p es d)
]
