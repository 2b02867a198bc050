-- ===== src/Elimination/Certains.antt =====
-- The entries of `certain_map`, and when all copies of an identity are among them.
use hanabi_bot.Base.{
  ℕ, ◌+◌, ◌≤◌, ◌≡◌, refl, sym, ap, ◌∙◌, ◌⊎◌, inl, inr, true, ◌&&◌, List, [], ◌∷◌, ◌++◌, ◌∈◌, ◌==◌,
  filter, length, arith, Bool-cases, mem-filter, mem-append_left, mem-append_right, append-mem,
}
use hanabi_bot.Identity.{Identity, IsIdentity, matches, matches_iff}
use hanabi_bot.State.{State, base_count, card_count}
use hanabi_bot.Elimination.Counting.{AllDiffer, all_found}
use hanabi_bot.Elimination.{
  Certain, Entry, Knowledge, insert_certain, known_orders, entries_of, entries_from, all_known,
}

-- The orders of all hands.
abbrev pub all_orders : List (List ℕ) → List ℕ
all_orders [] = []
all_orders (hand ∷ hands) = hand ++ all_orders hands

entries_of-order : (i : ℕ) (hand : List ℕ) (e : Entry) → e ∈ entries_of i hand → e.order ∈ hand
unfolding entries_of
entries_of-order i [] e m = absurd m
entries_of-order i (o ∷ os) e (inl q) = rw q (inl refl)
entries_of-order i (o ∷ os) e (inr m) = inr (entries_of-order i os e m)

pub entries_from-order :
    (i : ℕ) (hands : List (List ℕ)) (e : Entry)
    → e ∈ entries_from i hands
    → e.order ∈ all_orders hands
unfolding entries_from
entries_from-order i [] e m = absurd m
entries_from-order i (hand ∷ hands) e m = elim (append-mem e (entries_of i hand) _ m) [
  | inl a ↦ mem-append_left e.order hand (all_orders hands) (entries_of-order i hand e a)
  | inr b ↦ mem-append_right e.order hand (all_orders hands) (entries_from-order (i + 1) hands e b)
]

-- Each entry names the identity of a card in a hand.
abbrev pub AreTrue : (deal : ℕ → Identity) → List ℕ → List Certain → Type 0
AreTrue deal orders cs = (c : Certain) → c ∈ cs → (c.id ≡ deal c.order) × (c.order ∈ orders)

insert_certain-mem :
    (e c : Certain) (cs : List Certain) → c ∈ insert_certain e cs → (c ≡ e) ⊎ (c ∈ cs)
unfolding insert_certain
insert_certain-mem e c [] (inl q) = inl q
insert_certain-mem e c [] (inr m) = absurd m
insert_certain-mem e c (d ∷ cs) m = elim (Bool-cases (matches d.id e.id && d.order == e.order)) [
  | inl t ↦ split_same (rw t at (m))
  | inr f ↦ split_rest (rw f at (m)) (insert_certain-mem e c cs)
]
  where
    split_same : (c ≡ e) ⊎ (c ∈ cs) → (c ≡ e) ⊎ (c ∈ d ∷ cs)
    split_same (inl q) = inl q
    split_same (inr m) = inr (inr m)

    split_rest :
        (c ≡ d) ⊎ (c ∈ insert_certain e cs)
        → (c ∈ insert_certain e cs → (c ≡ e) ⊎ (c ∈ cs))
        → (c ≡ e) ⊎ (c ∈ d ∷ cs)
    split_rest (inl q) ih = inr (inl q)
    split_rest (inr m) ih = split_same (ih m)

pub insert_certain-AreTrue :
    (deal : ℕ → Identity) (orders : List ℕ) (e : Certain) (cs : List Certain)
    → e.id ≡ deal e.order
    → e.order ∈ orders
    → AreTrue deal orders cs
    → AreTrue deal orders (insert_certain e cs)
insert_certain-AreTrue deal orders e cs q m h c mc = elim (insert_certain-mem e c cs mc) [
  | inl same ↦ rw same (q, m)
  | inr old ↦ h c old
]

pub known_orders-mem :
    (id : Identity) (cs : List Certain) (o : ℕ)
    → o ∈ known_orders id cs
    → (c : Certain) × (c ∈ cs) × (c.id ≡ id) × (c.order ≡ o)
unfolding known_orders
known_orders-mem id [] o m = absurd m
known_orders-mem id (c ∷ cs) o m = elim (Bool-cases (matches c.id id)) [
  | inl t ↦ here (rw t at (m)) ((matches_iff c.id id).0 t) (known_orders-mem id cs o)
  | inr f ↦ later (known_orders-mem id cs o (rw f at (m)))
]
  where
    later :
        (d : Certain) × (d ∈ cs) × (d.id ≡ id) × (d.order ≡ o)
        → (d : Certain) × (d ∈ c ∷ cs) × (d.id ≡ id) × (d.order ≡ o)
    later (d, m, e, f) = (d, inr m, e, f)

    here :
        (o ≡ c.order) ⊎ (o ∈ known_orders id cs)
        → c.id ≡ id
        → (o ∈ known_orders id cs → (d : Certain) × (d ∈ cs) × (d.id ≡ id) × (d.order ≡ o))
        → (d : Certain) × (d ∈ c ∷ cs) × (d.id ≡ id) × (d.order ≡ o)
    here (inl e) same ih = (c, inl refl, same, sym e)
    here (inr m) same ih = later (ih m)

mem-known_orders : (cs : List Certain) (c : Certain) → c ∈ cs → c.order ∈ known_orders c.id cs
unfolding known_orders
mem-known_orders [] c m = absurd m
mem-known_orders (d ∷ cs) c (inl e) =
    let own : matches d.id c.id ≡ true =
      (matches_iff d.id c.id).1 (ap (λ (x : Certain). x.id) (sym e)) in
    rw own (inl (ap (λ (x : Certain). x.order) e))
mem-known_orders (d ∷ cs) c (inr m) = elim (Bool-cases (matches d.id c.id)) [
  | inl t ↦ rw t (inr (mem-known_orders cs c m))
  | inr f ↦ rw f (mem-known_orders cs c m)
]

-- An insertion keeps the orders that are known, and they stay different.
pub known_orders-insert_certain :
    (id : Identity) (e : Certain) (cs : List Certain) (o : ℕ)
    → o ∈ known_orders id cs
    → o ∈ known_orders id (insert_certain e cs)
unfolding known_orders insert_certain
known_orders-insert_certain id e [] o m = absurd m
known_orders-insert_certain id e (c ∷ cs) o m =
    elim (Bool-cases (matches c.id e.id && c.order == e.order)) [
      | inl t ↦
          let same : c.id ≡ e.id = (matches_iff c.id e.id).0 (ground arith) in
          let order : c.order ≡ e.order = ground arith in rw (t, ← same, ← order) m
      | inr f ↦ elim (Bool-cases (matches c.id id)) [
        | inl own ↦ rw (f, own) (keep (rw own at (m)) (known_orders-insert_certain id e cs o))
        | inr other ↦ rw (f, other) (known_orders-insert_certain id e cs o (rw other at (m)))
      ]
    ]
  where
    keep :
        (o ≡ c.order) ⊎ (o ∈ known_orders id cs)
        → (o ∈ known_orders id cs → o ∈ known_orders id (insert_certain e cs))
        → (o ≡ c.order) ⊎ (o ∈ known_orders id (insert_certain e cs))
    keep (inl q) ih = inl q
    keep (inr n) ih = inr (ih n)

known_orders-insert_cases :
    (id : Identity) (e : Certain) (cs : List Certain) (o : ℕ)
    → o ∈ known_orders id (insert_certain e cs)
    → ((e.id ≡ id) × (e.order ≡ o)) ⊎ (o ∈ known_orders id cs)
known_orders-insert_cases id e cs o m =
    let (c, mc, same, order) = known_orders-mem id (insert_certain e cs) o m in
    elim (insert_certain-mem e c cs mc) [
      | inl q ↦ inl (rw (← q) (same, order))
      | inr old ↦ inr (rw (← same, ← order) (mem-known_orders cs c old))
    ]

pub insert_certain-AllDiffer :
    (id : Identity) (e : Certain) (cs : List Certain)
    → AllDiffer (known_orders id cs)
    → AllDiffer (known_orders id (insert_certain e cs))
unfolding known_orders insert_certain
insert_certain-AllDiffer id e [] d = elim (Bool-cases (matches e.id id)) [
  | inl t ↦ rw t ((λ m. m), tt)
  | inr f ↦ rw f tt
]
insert_certain-AllDiffer id e (c ∷ cs) d =
    elim (Bool-cases (matches c.id e.id && c.order == e.order)) [
      | inl t ↦
          let same : c.id ≡ e.id = (matches_iff c.id e.id).0 (ground arith) in
          let order : c.order ≡ e.order = ground arith in rw (t, ← same, ← order) d
      | inr f ↦ elim (Bool-cases (matches c.id id)) [
        | inl own ↦
            let (fresh, rest) = rw own at (d) in
            rw (f, own)
              (
                (λ m. elim (known_orders-insert_cases id e cs c.order m) [
                  | inl (p, q) ↦
                      let both : c.id ≡ e.id = (matches_iff c.id id).0 own ∙ sym p in
                      absurd (ground (arith, (matches_iff c.id e.id).1 both))
                  | inr old ↦ fresh old
                ]),
                insert_certain-AllDiffer id e cs rest,
              )
        | inr other ↦ rw (f, other) (insert_certain-AllDiffer id e cs (rw other at (d)))
      ]
    ]

-- The cards of a hand that are the identity.
abbrev pub copies : (deal : ℕ → Identity) → Identity → List ℕ → List ℕ
copies deal id orders = filter (λ o. matches (deal o) id) orders

-- There are no more copies of an identity on the stacks and in the hands than in the deck.
abbrev pub FitsDeck : State → (deal : ℕ → Identity) → Type 0
FitsDeck st deal =
    (id : Identity)
    → IsIdentity (length st.variant.suits) id
    → base_count st id + length (copies deal id (all_orders st.hands)) ≤ card_count st id

-- The orders that are known to be an identity are copies of it.
pub known_orders-copies :
    (deal : ℕ → Identity) (id : Identity) (orders : List ℕ) (cs : List Certain) (x : ℕ)
    → AreTrue deal orders cs
    → x ∈ known_orders id cs
    → x ∈ copies deal id orders
known_orders-copies deal id orders cs x truth mx =
    let (c, mc, same, order) = known_orders-mem id cs x mx in
    let (t, held) = truth c mc in
    mem-filter _ x orders (rw (← order) held)
      ((matches_iff (deal x) id).1 (rw (← order) (sym t ∙ same)))

-- If as many copies are known as there are, every card of a hand that is the identity is known.
pub all_known_mem :
    (st : State) (deal : ℕ → Identity) (id : Identity) (k : Knowledge) (o : ℕ)
    → FitsDeck st deal
    → IsIdentity (length st.variant.suits) id
    → AreTrue deal (all_orders st.hands) k.certain
    → AllDiffer (known_orders id k.certain)
    → all_known st id k ≡ true
    → o ∈ all_orders st.hands
    → deal o ≡ id
    → o ∈ known_orders id k.certain
all_known_mem st deal id k o fits w truth d full m own =
    all_found (known_orders id k.certain) (copies deal id (all_orders st.hands)) o d
      (λ x mx. known_orders-copies deal id (all_orders st.hands) k.certain x truth mx)
      (ground (arith, fits id w))
      (mem-filter _ o (all_orders st.hands) m ((matches_iff (deal o) id).1 own))
