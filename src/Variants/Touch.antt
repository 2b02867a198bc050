-- ===== src/Variants/Touch.antt =====
-- What `cardTouched` means: the cards that a clue leaves possible, and clues in a variant without
-- special suits.
use hanabi_bot.Base.{
  ℕ, zero, suc, ◌+◌, ◌≤◌, ◌<◌, ◌≡◌, refl, ◌↔◌, ◌⊎◌, inl, inr, true, not, ◌&&◌, List, some_of,
  length, arith, ◌∈◌, mem-filter, filter-mem, append-mem, mem-append_left, mem-append_right,
  ℕ_discrete, Bool-eq, All-of_mem, some_of-mem, mem-some_of,
}
use hanabi_bot.Identity.{Identity, card, IsIdentity, matches, matches_iff}
use hanabi_bot.IdentitySet.{IdentitySet, IsValid, array_of, has, intersect, subtract}
use hanabi_bot.IdentitySet.Members.{has-operations, IsArgument}
use hanabi_bot.Variants.{
  Name, Variant, BaseClue, card_touched, find_possibilities, all_identities, identities_from,
  ranks_of,
}

ranks_of-mem :
    (s n r : ℕ) (id : Identity)
    → id ∈ ranks_of s n r
    → (k : ℕ) × (r ≤ k) × (k < r + n) × (id ≡ card s k)
unfolding ranks_of
ranks_of-mem s zero r id m = absurd m
ranks_of-mem s (suc n) r id (inl e) = (r, omega arith, omega arith, e)
ranks_of-mem s (suc n) r id (inr m) =
    let (k, lo, hi, e) = ranks_of-mem s n (r + 1) id m in (k, omega arith, omega arith, e)

mem-ranks_of : (s n r k : ℕ) → r ≤ k → k < r + n → card s k ∈ ranks_of s n r
unfolding ranks_of
mem-ranks_of s zero r k lo hi = absurd (omega arith)
mem-ranks_of s (suc n) r k lo hi = ground (arith, mem-ranks_of s n (r + 1) k)

identities_from-mem :
    (n s : ℕ) (id : Identity)
    → id ∈ identities_from n s
    → (i : ℕ) × (r : ℕ) × (id ≡ card i r) × (s ≤ i) × (i < s + n) × (1 ≤ r) × (r ≤ 5)
unfolding identities_from
identities_from-mem zero s id m = absurd m
identities_from-mem (suc n) s id m =
    split (append-mem id (ranks_of s 5 1) (identities_from n (s + 1)) m)
      (identities_from-mem n (s + 1) id)
  where
    split :
        (id ∈ ranks_of s 5 1) ⊎ (id ∈ identities_from n (s + 1))
        → (id ∈ identities_from n (s + 1)
            → (i : ℕ) × (r : ℕ) × (id ≡ card i r)
              × (s + 1 ≤ i)
              × (i < s + 1 + n)
              × (1 ≤ r)
              × (r ≤ 5))
        → (i : ℕ) × (r : ℕ) × (id ≡ card i r) × (s ≤ i) × (i < s + suc n) × (1 ≤ r) × (r ≤ 5)
    split (inl h) ih =
        let (k, lo, hi, e) = ranks_of-mem s 5 1 id h in
        (s, k, e, omega arith, omega arith, omega arith, omega arith)
    split (inr h) ih =
        let (i, r, e, lo, hi, p, q) = ih h in (i, r, e, omega arith, omega arith, p, q)

mem-identities_from :
    (n s i r : ℕ) → s ≤ i → i < s + n → 1 ≤ r → r ≤ 5 → card i r ∈ identities_from n s
unfolding identities_from
mem-identities_from zero s i r lo hi p q = absurd (omega arith)
mem-identities_from (suc n) s i r lo hi p q = elim (ℕ_discrete i s) [
  | yes e ↦ rw e (mem-append_left _ (ranks_of s 5 1) _ (mem-ranks_of s 5 1 r p (omega arith)))
  | no e ↦
      mem-append_right _ (ranks_of s 5 1) _
        (mem-identities_from n (s + 1) i r (omega arith) (omega arith) p q)
]

-- `all_identities` lists the identities of the deck.
pub all_identities_mem_iff :
    (suits : List Name) (id : Identity) → (id ∈ all_identities suits) ↔ IsIdentity (length suits) id
unfolding all_identities
all_identities_mem_iff suits id = (
  λ m.
      let (i, r, e, lo, hi, p, q) = identities_from-mem (length suits) 0 id m in
      (i, r, e, omega arith, p, q),
  back,
)
  where
    back : IsIdentity (length suits) id → id ∈ identities_from (length suits) 0
    back (i, r, e, lt, p, q) =
        rw e (mem-identities_from (length suits) 0 i r (omega arith) (omega arith) p q)

-- The identities that a clue would touch, as the clue's possibilities.
pub find_possibilities_mem_iff :
    (clue : BaseClue) (v : Variant) (id : Identity)
    → (id ∈ find_possibilities clue v)
      ↔ (IsIdentity (length v.suits) id × (card_touched id v clue ≡ true))
unfolding find_possibilities
find_possibilities_mem_iff clue v id = (
  λ m.
      let (a, t) = filter-mem _ id (all_identities v.suits) m in
      ((all_identities_mem_iff v.suits id).0 a, t),
  λ p. mem-filter _ id _ ((all_identities_mem_iff v.suits id).1 p.0) p.1,
)

some_of-find_possibilities :
    (clue : BaseClue) (v : Variant) (id : Identity)
    → IsIdentity (length v.suits) id
    → some_of (λ i. matches i id) (find_possibilities clue v) ≡ card_touched id v clue
some_of-find_possibilities clue v id w =
    Bool-eq _ _
      (λ h.
        let (i, m, e) = some_of-mem _ (find_possibilities clue v) h in
        let same : i ≡ id = (matches_iff i id).0 e in
        rw same at (((find_possibilities_mem_iff clue v i).0 m).1))
      (λ t.
        mem-some_of _ (find_possibilities clue v) id
          ((find_possibilities_mem_iff clue v id).1 (w, t)) ((matches_iff id id).1 refl))

-- The possibilities of a clue are identities of the deck.
pub IsArgument-find_possibilities :
    (n : ℕ) (clue : BaseClue) (v : Variant)
    → n ≡ length v.suits
    → IsArgument n (array_of (find_possibilities clue v))
IsArgument-find_possibilities n clue v e =
    All-of_mem _ _ (λ i m. rw e (((find_possibilities_mem_iff clue v i).0 m).0))

-- What a clue tells about a card: a touched card keeps the possibilities that the clue touches, and
-- a card that is not touched keeps those that it does not touch.
pub clue_narrows :
    (p : IdentitySet) (clue : BaseClue) (v : Variant) (id : Identity)
    → IsValid p
    → p.num_suits ≡ length v.suits
    → IsIdentity p.num_suits id
    → let touched = array_of (find_possibilities clue v) in
      (has (intersect p touched) id ≡ (has p id && card_touched id v clue))
      × (has (subtract p touched) id ≡ (has p id && not (card_touched id v clue)))
clue_narrows p clue v id valid e w =
    let ops =
      has-operations p (array_of (find_possibilities clue v)) id valid
        (IsArgument-find_possibilities p.num_suits clue v e) w in
    let t = some_of-find_possibilities clue v id (rw e at w) in (rw t at (ops.0), rw t at (ops.1))
