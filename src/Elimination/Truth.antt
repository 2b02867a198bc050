-- ===== src/Elimination/Truth.antt =====
-- What is known is true, and a step that rules out another identity keeps it so.
use hanabi_bot.Base.{
  ℕ, zero, suc, ◌+◌, ◌≤◌, ◌<◌, ◌≡◌, ◌≢◌, ◌⊎◌, refl, sym, ap, inl, inr, true, false, List, [], ◌∷◌,
  ◌∈◌, ◌==◌, none, some, set, length, get_elem?, arith, Bool-cases,
}
use hanabi_bot.Identity.{Identity, IsIdentity, is_unknown, matches, matches_iff}
use hanabi_bot.IdentitySet.{
  IdentitySet, has, subtract, make, one, parse, array, length as set_length,
}
use hanabi_bot.IdentitySet.Members.{has-operations, operations-IsValid}
use hanabi_bot.IdentitySet.Elements.{array_mem_iff, length-array}
use hanabi_bot.Bits.{bit_not}
use hanabi_bot.Bits.Laws.{bit_and-le}
use hanabi_bot.Card.{Card, identity, reset_inferences, revert_status}
use hanabi_bot.Thoughts.{Thoughts, thought_at, includes_order}
use hanabi_bot.Thoughts.Sound.{HasTruth, IsSound, AreDrawn, set-IsSound, thought_at-set_exists}
use hanabi_bot.Elimination.{Entry, Knowledge, Round, known_orders, put, remove_id, no_options}
use hanabi_bot.Elimination.Counting.{AllDiffer}
use hanabi_bot.Elimination.Certains.{AreTrue}

-- The sum of the masks of all cards, which falls when a possibility is ruled out.
unfoldable pub weight : Thoughts → ℕ
weight [] = 0
weight (none ∷ ts) = weight ts
weight (some c ∷ ts) = c.possible.value + weight ts

pub weight-set :
    (ts : Thoughts) (o : ℕ) (c d : Card)
    → thought_at ts o ≡ some c
    → d.possible.value < c.possible.value
    → weight (set ts o (some d)) < weight ts
unfolding weight
weight-set [] o c d at lt = absurd (ground arith)
weight-set (none ∷ ts) zero c d at lt = absurd (ground arith)
weight-set (some b ∷ ts) zero c d at lt = ground arith
weight-set (none ∷ ts) (suc o) c d at lt = weight-set ts o c d at lt
weight-set (some b ∷ ts) (suc o) c d at lt = omega (arith, weight-set ts o c d at lt)

pub reset_inferences-possible : (c : Card) → (reset_inferences c).possible ≡ c.possible
unfolding reset_inferences revert_status
reset_inferences-possible c = ground arith

pub reset_inferences-seen :
    (c : Card)
    → ((reset_inferences c).rewind_ids ≡ c.rewind_ids) × ((reset_inferences c).actual ≡ c.actual)
unfolding reset_inferences revert_status
reset_inferences-seen c = ground arith

pub remove_id-HasTruth :
    (n : ℕ) (id own : Identity) (c : Card)
    → IsIdentity n id
    → IsIdentity n own
    → own ≢ id
    → HasTruth n own c.possible
    → HasTruth n own (remove_id c id).possible
unfolding subtract make
remove_id-HasTruth n id own c w w' ne t =
    let v : IsIdentity c.possible.num_suits id = rw t.suits w in
    let v' : IsIdentity c.possible.num_suits own = rw t.suits w' in
    record {
      valid = (operations-IsValid c.possible (one id) t.valid v).1;
      suits = t.suits;
      member = elim (Bool-cases (matches id own)) [
        | inl same ↦ absurd (ne (sym ((matches_iff id own).0 same)))
        | inr other ↦
            ground (arith, (has-operations c.possible (one id) own t.valid v v').1, t.member)
      ];
    }

pub remove_id-lt :
    (n : ℕ) (id own : Identity) (c : Card)
    → IsIdentity n id
    → HasTruth n own c.possible
    → has c.possible id ≡ true
    → (remove_id c id).possible.value < c.possible.value
unfolding subtract make
remove_id-lt n id own c w t h =
    let v : IsIdentity c.possible.num_suits id = rw t.suits w in
    let gone = (has-operations c.possible (one id) id t.valid v v).1 in
    let same : matches id id ≡ true = (matches_iff id id).1 refl in
    le_ne (bit_and-le c.possible.value (bit_not (parse (one id)))) (λ e.
      let kept : has (subtract c.possible (one id)) id ≡ has c.possible id =
        ap (λ (x : ℕ). has (record { num_suits = c.possible.num_suits; value = x }) id) e in
      ground arith)
  where
    le_ne : {a b : ℕ} → a ≤ b → a ≢ b → a < b
    le_ne le ne = omega arith

-- The identity is in the array.
HasTruth-array :
    (n : ℕ) (own : Identity) (p : IdentitySet) → IsIdentity n own → HasTruth n own p → own ∈ array p
HasTruth-array n own p w t = (array_mem_iff p own t.valid).1 (rw t.suits w, t.member)

pub HasTruth-length :
    (n : ℕ) (own : Identity) (p : IdentitySet)
    → IsIdentity n own
    → HasTruth n own p
    → (set_length p == 0) ≡ false
HasTruth-length n own p w t =
    rw (length-array p t.valid) (some_member own (array p) (HasTruth-array n own p w t))
  where
    some_member : (x : Identity) (xs : List Identity) → x ∈ xs → (length xs == 0) ≡ false
    some_member x [] m = absurd m
    some_member x (y ∷ xs) m = ground arith

-- A single possibility is the identity.
pub HasTruth-identity :
    (n : ℕ) (own : Identity) (c : Card)
    → IsIdentity n own
    → HasTruth n own c.possible
    → (set_length c.possible == 1) ≡ true
    → identity c no_options ≡ some own
unfolding identity
HasTruth-identity n own c w t one_left = rw one_left (
    only own (array c.possible) (HasTruth-array n own c.possible w t)
      (ground (arith, length-array c.possible t.valid)))
  where
    only : (x : Identity) (xs : List Identity) → x ∈ xs → length xs ≡ 1 → get_elem? xs 0 ≡ some x
    only x [] m e = absurd m
    only x (y ∷ []) (inl q) e = ap some (sym q)
    only x (y ∷ []) (inr m) e = absurd m
    only x (y ∷ z ∷ xs) m e = absurd (ground arith)

-- What `card_elim` knows is true: of `orders` in hands, and `deal` for the cards' identities.
pub record IsTrue (n : ℕ) (deal : ℕ → Identity) (orders : List ℕ) (k : Knowledge) : Type 0 where
  pub sound : IsSound n deal k.thoughts
  pub truth : AreTrue deal orders k.certain
  pub differ : (id : Identity) → AllDiffer (known_orders id k.certain)
  pub drawn : AreDrawn k.thoughts orders

-- A card that is seen is seen as what it is, and it has not been rewound to other identities.
abbrev pub IsSeenRight : (deal : ℕ → Identity) → Thoughts → Type 0
IsSeenRight deal thoughts =
    (o : ℕ) (c : Card)
    → thought_at thoughts o ≡ some c
    → (c.rewind_ids ≡ none) × ((is_unknown c.actual.id ≡ true) ⊎ (c.actual.id ≡ deal o))

-- What is known is true, and the cards are seen as what they are.
pub record IsRight (n : ℕ) (deal : ℕ → Identity) (orders : List ℕ) (k : Knowledge) : Type 0 where
  pub is_true : IsTrue n deal orders k
  pub seen : IsSeenRight deal k.thoughts

-- Every card of `es` that is `id` is known to be, unless its player is excluded.
abbrev pub AllKnown :
    (deal : ℕ → Identity) → List Entry → (exclude : List ℕ) → Identity → Knowledge → Type 0
AllKnown deal es exclude id k =
    (e : Entry)
    → e ∈ es
    → deal e.order ≡ id
    → (includes_order exclude e.player_index ≡ true) ⊎ (e.order ∈ known_orders id k.certain)

pub put-IsTrue :
    (n : ℕ) (deal : ℕ → Identity) (orders : List ℕ) (r : Round) (o : ℕ) (c : Card)
    → IsTrue n deal orders r.knowledge
    → HasTruth n (deal o) c.possible
    → IsTrue n deal orders (put r o c).knowledge
put-IsTrue n deal orders r o c t h = record {
  sound = set-IsSound n deal r.knowledge.thoughts o c t.sound h;
  truth = t.truth;
  differ = t.differ;
  drawn = λ i m. let (d, e) = t.drawn i m in thought_at-set_exists r.knowledge.thoughts o i c d e;
}
