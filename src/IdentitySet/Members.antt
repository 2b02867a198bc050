-- ===== src/IdentitySet/Members.antt =====
-- Which identities the set operations keep.
use Prim.Native.Nat.{bit_or}
use native.Mathlib.Nat.{pow-le-pow_right, one-le-pow, pow-suc, lt_of_lt_of_le, le_trans}
use hanabi_bot.Base.{
  ℕ, suc, none, some, false, ◌+◌, ◌-◌, ◌*◌, ◌/◌, ◌%◌, ◌^◌, ◌≤◌, ◌<◌, ◌≡◌, refl, sym, ◌∙◌, ◌↔◌, Bool,
  true, not, ◌&&◌, ◌||◌, ◌==◌, List, [], ◌∷◌, All, some_of, arith,
}
use hanabi_bot.Bits.{test_bit, bit_not}
use hanabi_bot.Bits.Laws.{
  bit_and-pow, test_bit-bit_and, test_bit-bit_or, test_bit-bit_not, test_bit-pow, test_bit-zero,
  bit_and-le, bit_and-lt, bit_or-lt, eq_of_test_bit, test_bit-complement,
}
use hanabi_bot.Identity.{Identity, card, matches, IsIdentity}
use hanabi_bot.IdentitySet.{
  IdentitySet, IsValid, Argument, set, array_of, one, make, slot, to_mask, mask_onto,
  identities_to_mask, parse, has, intersect, subtract, union, equals,
}

pub slot-card : (s r : ℕ) → s < 6 → 1 ≤ r → r ≤ 5 → slot (card s r) ≡ s * 5 + r - 1
unfolding slot
slot-card s r p q t = ground arith

pub has-card : (s : IdentitySet) (i r : ℕ) → has s (card i r) ≡ test_bit s.value (slot (card i r))
unfolding has to_mask
has-card s i r = bit_and-pow s.value (slot (card i r))

pub has-slot :
    {n : ℕ} (s : IdentitySet) (id : Identity)
    → IsIdentity n id
    → has s id ≡ test_bit s.value (slot id)
has-slot s id (i, r, e, p, lo, hi) = rw e (has-card s i r)

-- Membership in an argument, read off its identities.
abbrev pub holds : Argument → Identity → Bool
holds (set t) id = has t id
holds (array_of ids) id = some_of (λ i. matches i id) ids
holds (one i) id = matches i id

abbrev pub IsArgument : ℕ → Argument → Type 0
IsArgument n (set t) = (t.num_suits ≡ n) × IsValid t
IsArgument n (array_of ids) = All (IsIdentity n) ids
IsArgument n (one i) = IsIdentity n i

-- Every identity of the deck that `a` has is one that `b` has.
abbrev pub IsSubset : IdentitySet → IdentitySet → Type 0
IsSubset a b = (id : Identity) → IsIdentity b.num_suits id → has a id ≡ true → has b id ≡ true

slot_injective :
    (s r s' r' : ℕ)
    → 1 ≤ r
    → r ≤ 5
    → 1 ≤ r'
    → r' ≤ 5
    → (s * 5 + r - 1 == s' * 5 + r' - 1) ≡ (s == s' && r == r')
slot_injective s r s' r' lo hi lo' hi' = ground arith

test_bit-to_mask :
    (n : ℕ) (i id : Identity)
    → n ≤ 6
    → IsIdentity n i
    → IsIdentity n id
    → test_bit (to_mask i) (slot id) ≡ matches i id
unfolding to_mask matches
test_bit-to_mask n i id h (s, r, e, p, lo, hi) (s', r', e', p', lo', hi') =
    rw
      (
        e,
        e',
        test_bit-pow (slot (card s r)) (slot (card s' r')),
        slot-card s r (omega arith) lo hi,
        slot-card s' r' (omega arith) lo' hi',
      )
      (slot_injective s r s' r' lo hi lo' hi')

test_bit-mask_onto :
    (n : ℕ) (mask : ℕ) (ids : List Identity) (id : Identity)
    → n ≤ 6
    → All (IsIdentity n) ids
    → IsIdentity n id
    → test_bit (mask_onto mask ids) (slot id)
      ≡ (test_bit mask (slot id) || some_of (λ i. matches i id) ids)
unfolding mask_onto
test_bit-mask_onto n mask [] id h a v = ground arith
test_bit-mask_onto n mask (i ∷ ids) id h a v = ground (
  arith,
  test_bit-mask_onto n (bit_or mask (to_mask i)) ids id h a.1 v,
  test_bit-bit_or mask (to_mask i) (slot id),
  test_bit-to_mask n i id h a.0 v,
)

test_bit-parse :
    (n : ℕ) (a : Argument) (id : Identity)
    → n ≤ 6
    → IsArgument n a
    → IsIdentity n id
    → test_bit (parse a) (slot id) ≡ holds a id
unfolding parse identities_to_mask
test_bit-parse n (set t) id h a (s, r, e, p, lo, hi) = rw e (sym (has-card t s r))
test_bit-parse n (array_of ids) id h a v =
    ground (arith, test_bit-mask_onto n 0 ids id h a v, test_bit-zero (slot id))
test_bit-parse n (one i) id h a v = test_bit-to_mask n i id h a v

pub slot-lt : (n : ℕ) (id : Identity) → n ≤ 6 → IsIdentity n id → slot id < n * 5
slot-lt n id h (s, r, e, p, lo, hi) = rw (e, slot-card s r (omega arith) lo hi) (omega arith)

pow-le : (n : ℕ) → n ≤ 6 → 2 ^ (n * 5) ≤ 2 ^ 32
pow-le n h = pow-le-pow_right {n = 2} (omega arith) {j = 32} (omega arith)

to_mask-lt : (n : ℕ) (id : Identity) → n ≤ 6 → IsIdentity n id → to_mask id < 2 ^ (n * 5)
unfolding to_mask
to_mask-lt n id h v =
    lt_of_lt_of_le (pow-lt (slot id)) (pow-le-pow_right {n = 2} (omega arith) (slot-lt n id h v))
  where
    pow-lt : (k : ℕ) → 2 ^ k < 2 ^ suc k
    pow-lt k = omega (arith, pow-suc 2 k, one-le-pow k 2 (omega arith))

mask_onto-lt :
    (n : ℕ) (ids : List Identity) (mask : ℕ)
    → n ≤ 6
    → All (IsIdentity n) ids
    → mask < 2 ^ (n * 5)
    → mask_onto mask ids < 2 ^ (n * 5)
unfolding mask_onto
mask_onto-lt n [] mask h a lt = lt
mask_onto-lt n (i ∷ ids) mask h a lt =
    mask_onto-lt n ids _ h a.1 (bit_or-lt (n * 5) mask (to_mask i) lt (to_mask-lt n i h a.0))

parse-lt : (n : ℕ) (a : Argument) → n ≤ 6 → IsArgument n a → parse a < 2 ^ (n * 5)
unfolding parse identities_to_mask
parse-lt n (set t) h (e, v) = rw (← e) v.bits
parse-lt n (array_of ids) h a = mask_onto-lt n ids 0 h a (one-le-pow (n * 5) 2 (omega arith))
parse-lt n (one i) h a = to_mask-lt n i h a

-- Of a valid set and identities of the deck, `intersect`, `subtract` and `union` are conjunction,
-- difference and disjunction of membership, whichever kind of argument (a set, an array, one
-- identity) they take.
pub has-operations :
    (s : IdentitySet) (a : Argument) (id : Identity)
    → IsValid s
    → IsArgument s.num_suits a
    → IsIdentity s.num_suits id
    → (has (intersect s a) id ≡ (has s id && holds a id))
      × (has (subtract s a) id ≡ (has s id && not (holds a id)))
      × (has (union s a) id ≡ (has s id || holds a id))
unfolding intersect subtract union make
has-operations s a id v va w =
    let arg = test_bit-parse s.num_suits a id v.suits va w in
    let low = slot-lt s.num_suits id v.suits w in
    let mask = le_trans (parse-lt s.num_suits a v.suits va) (pow-le s.num_suits v.suits) in
    (
      rw (has-slot (intersect s a) id w, has-slot s id w, test_bit-bit_and s.value (parse a), arg),
      rw (
        has-slot (subtract s a) id w,
        has-slot s id w,
        test_bit-bit_and s.value (bit_not (parse a)),
        test_bit-bit_not (parse a) (slot id) mask (omega (arith, v.suits)),
        arg,
      ),
      rw (has-slot (union s a) id w, has-slot s id w, test_bit-bit_or s.value (parse a), arg),
    )

-- The operations keep a valid set valid, with arguments of identities of the deck.
pub operations-IsValid :
    (s : IdentitySet) (a : Argument)
    → IsValid s
    → IsArgument s.num_suits a
    → IsValid (intersect s a) × IsValid (subtract s a) × IsValid (union s a)
unfolding intersect subtract union make
operations-IsValid s a v va = (
  record { suits = v.suits; bits = bit_and-lt _ s.value (parse a) v.bits },
  record { suits = v.suits; bits = bit_and-lt _ s.value (bit_not (parse a)) v.bits },
  record { suits = v.suits; bits = bit_or-lt _ s.value (parse a) v.bits (parse-lt _ a v.suits va) },
)

-- A set that is made without a mask has all identities.
pub make-all :
    (n : ℕ)
    → n ≤ 6
    → IsValid (make n none) × ((id : Identity) → IsIdentity n id → has (make n none) id ≡ true)
unfolding make
make-all n h = (
  record { suits = h; bits = omega (arith, one-le-pow (n * 5) 2 (omega arith)) },
  λ id w.
      let some_bits = one-le-pow (n * 5) 2 (omega arith) in
      let all_bits : 2 ^ (n * 5) - 1 ≡ 2 ^ (n * 5) - 1 - 0 = omega arith in
      let at = test_bit-complement (n * 5) 0 (slot id) some_bits (slot-lt n id h w) in
      has-slot (make n none) id w ∙ rw (all_bits, at, test_bit-zero (slot id)) refl,
)

-- A set that is made of no bits has no identities.
pub make-empty :
    (n : ℕ)
    → n ≤ 6
    → IsValid (make n (some 0)) × ((id : Identity) → has (make n (some 0)) id ≡ false)
unfolding make has to_mask
make-empty n h = (
  record { suits = h; bits = one-le-pow (n * 5) 2 (omega arith) },
  λ id. ground (arith, bit_and-le 0 (to_mask id)),
)

pub card_at_slot :
    (n k : ℕ)
    → n ≤ 6
    → k < n * 5
    → IsIdentity n (card (k / 5) (k % 5 + 1)) × (slot (card (k / 5) (k % 5 + 1)) ≡ k)
card_at_slot n k h lt = (
  (k / 5, k % 5 + 1, refl, omega arith, omega arith, omega arith),
  slot-card (k / 5) (k % 5 + 1) (omega arith) (omega arith) (omega arith) ∙ omega arith,
)

-- `equals` decides whether two valid sets over the same suits have the same members.
pub equals_iff :
    (s t : IdentitySet)
    → IsValid s
    → IsValid t
    → t.num_suits ≡ s.num_suits
    → (equals s (set t) ≡ true)
      ↔ ((id : Identity) → IsIdentity s.num_suits id → has s id ≡ has t id)
unfolding equals parse
equals_iff s t v w e = (
  λ h id k.
      let same : s.value ≡ t.value = ground arith in rw (has-slot s id k, has-slot t id k, same),
  λ h.
      let same : s.value ≡ t.value =
        eq_of_test_bit (s.num_suits * 5) s.value t.value v.bits (rw (← e) w.bits)
          (λ k lt. by_slot k (card_at_slot s.num_suits k v.suits lt) h) in
      ground arith,
)
  where
    by_slot :
        (k : ℕ)
        → IsIdentity s.num_suits (card (k / 5) (k % 5 + 1)) × (slot (card (k / 5) (k % 5 + 1)) ≡ k)
        → ((id : Identity) → IsIdentity s.num_suits id → has s id ≡ has t id)
        → test_bit s.value k ≡ test_bit t.value k
    by_slot k (i, q) h = rw q at (sym (has-slot s _ i) ∙ h _ i ∙ has-slot t _ i)
