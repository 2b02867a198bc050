-- ===== src/IdentitySet/Elements.antt =====
-- The array of a set: its members, each once, in the order of suits and ranks.
use native.Mathlib.Nat.{div-one, div-eq_of_lt}
use native.Mathlib.Nat.{
  pow-le-pow_right, pow-suc, one-le-pow, mod-eq_of_lt, lt_of_lt_of_le, div-div-eq-div-mul,
}
use native.Mathlib.Numerals.{add-one}
use hanabi_bot.Base.{
  ℕ, zero, suc, ◌+◌, ◌-◌, ◌*◌, ◌/◌, ◌%◌, ◌^◌, ◌≤◌, ◌<◌, ◌≡◌, refl, sym, ◌∙◌, ◌↔◌, true, List, [],
  ◌∷◌, ◌∈◌, inl, inr, if◌then◌else◌, arith, Bool-cases, ℕ_discrete, length as list_length,
}
use hanabi_bot.Bits.{test_bit}
use hanabi_bot.Bits.Laws.{bit_and-pow, test_bit-div}
use hanabi_bot.Identity.{Identity, card, IsIdentity}
use hanabi_bot.IdentitySet.{IdentitySet, IsValid, array, array_from, has, length}
use hanabi_bot.IdentitySet.Members.{has-slot, slot-card, card_at_slot}
use hanabi_bot.IdentitySet.Count.{ones, ones-add, ones-zero, length-ones}

-- The identities of the slots `i`, `i + 1`, …, `i + n - 1` that are set in `v`.
members : ℕ → ℕ → ℕ → List Identity
members v zero i = []
members v (suc n) i =
    if test_bit v i then card (i / 5) (i % 5 + 1) ∷ members v n (i + 1) else members v n (i + 1)

run_next : (i : ℕ) → i < 31 → 2 ^ i * 2 % 2 ^ 32 ≡ 2 ^ (i + 1)
run_next i h =
    let double : 2 ^ i * 2 ≡ 2 ^ (i + 1) = rw add-one (sym (pow-suc 2 i)) in
    rw double (
      mod-eq_of_lt (
        lt_of_lt_of_le (pow-lt (i + 1))
          (pow-le-pow_right {n = 2} (omega arith) {j = 32} (omega arith))))
  where
    pow-lt : (k : ℕ) → 2 ^ k < 2 ^ suc k
    pow-lt k = omega (arith, pow-suc 2 k, one-le-pow k 2 (omega arith))

array_from-members : (v n i : ℕ) → i + n ≤ 31 → array_from v n i (2 ^ i) ≡ members v n i
unfolding array_from members
array_from-members v zero i h = refl
array_from-members v (suc n) i h =
    rw (run_next i (omega arith), bit_and-pow v i, array_from-members v n (i + 1) (omega arith))

array-members : (s : IdentitySet) → IsValid s → array s ≡ members s.value (s.num_suits * 5) 0
unfolding array
array-members s v = array_from-members s.value (s.num_suits * 5) 0 (omega (arith, v.suits))

abbrev Found : ℕ → ℕ → ℕ → Identity → Type 0
Found v n i id =
    (k : ℕ) × (i ≤ k) × (k < i + n) × (id ≡ card (k / 5) (k % 5 + 1)) × (test_bit v k ≡ true)

Found-suc : (v n i : ℕ) (id : Identity) → Found v n (i + 1) id → Found v (suc n) i id
Found-suc v n i id (k, lo, hi, e, h) = (k, omega arith, omega arith, e, h)

members-mem : (v n i : ℕ) (id : Identity) → id ∈ members v n i → Found v n i id
unfolding members
members-mem v zero i id m = absurd m
members-mem v (suc n) i id m = elim (Bool-cases (test_bit v i)) [
  | inl t ↦ here (members-mem v n (i + 1) id) t (rw (t, members) at m)
  | inr f ↦ Found-suc v n i id (members-mem v n (i + 1) id (rw (f, members) at m))
]
  where
    here :
        (id ∈ members v n (i + 1) → Found v n (i + 1) id)
        → test_bit v i ≡ true
        → (id ∈ card (i / 5) (i % 5 + 1) ∷ members v n (i + 1))
        → Found v (suc n) i id
    here ih t (inl e) = (i, omega arith, omega arith, e, t)
    here ih t (inr r) = Found-suc v n i id (ih r)

mem-members :
    (v n i k : ℕ)
    → i ≤ k
    → k < i + n
    → test_bit v k ≡ true
    → card (k / 5) (k % 5 + 1) ∈ members v n i
unfolding members
mem-members v zero i k lo hi h = absurd (omega arith)
mem-members v (suc n) i k lo hi h = elim (ℕ_discrete k i) [
  | yes e ↦ ground arith
  | no e ↦ ground (arith, mem-members v n (i + 1) k (omega arith) (omega arith) h)
]

length-members : (v n i : ℕ) → list_length (members v n i) ≡ ones n (v / 2 ^ i)
unfolding members ones
length-members v zero i = refl
length-members v (suc n) i =
    let next : v / 2 ^ (i + 1) ≡ v / 2 ^ i / 2 =
      rw (add-one, pow-suc 2 i) (sym (div-div-eq-div-mul v (2 ^ i) 2)) in
    ground (arith, next, test_bit-div v i, length-members v n (i + 1))

-- The array of a valid set holds the identities of the deck that `has` accepts, and no others.
pub array_mem_iff :
    (s : IdentitySet) (id : Identity)
    → IsValid s
    → (id ∈ array s) ↔ (IsIdentity s.num_suits id × (has s id ≡ true))
array_mem_iff s id v =
    rw (array-members s v)
      (λ m. forward (members-mem s.value (s.num_suits * 5) 0 id m), λ p. backward p.0 p.1)
  where
    forward :
        (k : ℕ) × (0 ≤ k)
          × (k < 0 + s.num_suits * 5)
          × (id ≡ card (k / 5) (k % 5 + 1))
          × (test_bit s.value k ≡ true)
        → IsIdentity s.num_suits id × (has s id ≡ true)
    forward (k, lo, hi, e, h) =
        let (w, q) = card_at_slot s.num_suits k v.suits (omega arith) in
        rw e (w, rw (has-slot s _ w, q) h)

    backward :
        IsIdentity s.num_suits id → has s id ≡ true → id ∈ members s.value (s.num_suits * 5) 0
    backward (i, r, e, p, lo, hi) h =
        let w : IsIdentity s.num_suits (card i r) = (i, r, refl, p, lo, hi) in
        let q = slot-card i r (omega (arith, v.suits)) lo hi in
        let suit : (i * 5 + r - 1) / 5 ≡ i = omega arith in
        let rank : (i * 5 + r - 1) % 5 + 1 ≡ r = omega arith in
        let bit : test_bit s.value (i * 5 + r - 1) ≡ true =
          rw (e, has-slot s (card i r) w, q) at h in
        rw e (
          rw (suit, rank) at
            (mem-members s.value (s.num_suits * 5) 0 (i * 5 + r - 1) (omega arith) (omega arith)
              bit))

ones-full : (n v : ℕ) → n ≤ 32 → v < 2 ^ n → ones 32 v ≡ ones n v
ones-full n v h lt =
    rw (ones-add n (32 - n) 32 v (omega arith), div-eq_of_lt lt, ones-zero (32 - n)) (omega arith)

-- For a valid set `length` is the number of elements of the array.
pub length-array : (s : IdentitySet) → IsValid s → length s ≡ list_length (array s)
length-array s v =
    rw (array-members s v, length-members s.value (s.num_suits * 5) 0, div-one s.value)
      (length-ones s.num_suits s.value below
        ∙ ones-full (s.num_suits * 5) s.value (omega (arith, v.suits)) v.bits)
  where
    below : s.value < 2 ^ 32
    below =
        lt_of_lt_of_le v.bits
          (pow-le-pow_right {n = 2} (omega arith) {j = 32} (omega (arith, v.suits)))
