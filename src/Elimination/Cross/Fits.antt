-- ===== src/Elimination/Cross/Fits.antt =====
-- What holds of the arguments of `gen_subset`, and how the next item keeps it.
use hanabi_bot.Base.{
  ℕ, suc, ◌≡◌, refl, sym, ◌∙◌, inl, inr, Bool, true, ◌||◌, List, [], ◌∷◌, ◌++◌, ◌∈◌, some, drop,
  filter, get_elem?, length, arith, append-mem, filter-mem,
}
use mathlib.Core.Path.{subst}
use hanabi_bot.Identity.{Identity, IsIdentity}
use hanabi_bot.IdentitySet.{IdentitySet, IsValid, has, make, union, subtract, set, array}
use hanabi_bot.IdentitySet.Members.{has-operations, operations-IsValid}
use hanabi_bot.IdentitySet.Elements.{array_mem_iff}
use hanabi_bot.State.{State}
use hanabi_bot.Card.{Card}
use hanabi_bot.Thoughts.{thought_at}
use hanabi_bot.Elimination.{Entry, Knowledge, known_orders, entries_from}
use hanabi_bot.Elimination.Counting.{AllDiffer}
use hanabi_bot.Elimination.Certains.{all_orders}
use hanabi_bot.Elimination.Truth.{IsRight}
use hanabi_bot.Elimination.Grown.{Grown, Thins}
use hanabi_bot.Elimination.Cross.{Subset, is_outside, union_orders, known_of, with_item}
use hanabi_bot.Elimination.Cross.Orders.{
  orders_of, AllDiffer-append, AllDiffer-filter, orders_of-append, union_orders-mem,
  union_orders-AllDiffer, known_of-mem, get_elem?-drop, drop-mem, drop-suc, drop-filter,
  drop-differ, orders_of-filter,
}
use hanabi_bot.Elimination.Cross.Perform.{known-deal}

-- The candidates are cards of the hands, each once.
pub record AreCandidates (st : State) (es : List Entry) : Type 0 where
  pub in_hands : (e : Entry) → e ∈ es → e ∈ entries_from 0 st.hands
  pub once : AllDiffer (orders_of es)

pub AreCandidates-thin :
    (st : State) (xs ys : List Entry) → Thins xs ys → AreCandidates st xs → AreCandidates st ys
AreCandidates-thin st xs ys (p, e) c = subst (AreCandidates st) (sym e) (record {
  in_hands = λ x m. c.in_hands x (filter-mem p x xs m).0;
  once = orders_of-filter p xs c.once;
})

pub AreCandidates-grow :
    (st : State) (k k' : Knowledge)
    → Grown k k'
    → AreCandidates st k.candidates
    → AreCandidates st k'.candidates
AreCandidates-grow st k k' g c = AreCandidates-thin st k.candidates k'.candidates g.thinned c

-- The subset has cards of its identities, each once, and no candidate from `next` on.
pub record IsFit (st : State) (deal : ℕ → Identity) (s : Subset) (next : ℕ) (k : Knowledge)
    : Type 0 where
  pub entries : (e : Entry) → e ∈ s.contained → e ∈ entries_from 0 st.hands
  pub once : AllDiffer (orders_of s.contained)
  pub certains_once : AllDiffer s.certains
  pub apart : (o : ℕ) → o ∈ s.certains → is_outside s.contained o ≡ true
  pub valid : IsValid s.acc_ids
  pub of_deck : s.acc_ids.num_suits ≡ length st.variant.suits
  pub own : (e : Entry) → e ∈ s.contained → has s.acc_ids (deal e.order) ≡ true
  pub certains_own : (o : ℕ) → o ∈ s.certains → has s.acc_ids (deal o) ≡ true
  pub known : (o : ℕ) → o ∈ s.certains → o ∈ known_orders (deal o) k.certain
  pub fresh : (e : Entry) → e ∈ drop next k.candidates → ¬ (e.order ∈ orders_of s.contained)

pub IsFit-grow :
    (st : State) (deal : ℕ → Identity) (s : Subset) (next : ℕ) (k k' : Knowledge)
    → Grown k k'
    → IsFit st deal s next k
    → IsFit st deal s next k'
IsFit-grow st deal s next k k' g f =
    let (p, e) = g.thinned in
    record {
      entries = f.entries;
      once = f.once;
      certains_once = f.certains_once;
      apart = f.apart;
      valid = f.valid;
      of_deck = f.of_deck;
      own = f.own;
      certains_own = f.certains_own;
      known = λ o m. g.known (deal o) o (f.known o m);
      fresh = λ x m. f.fresh x (drop-filter p k.candidates next x (rw e at (m)));
    }

pub IsFit-suc :
    (st : State) (deal : ℕ → Identity) (s : Subset) (next : ℕ) (k : Knowledge)
    → IsFit st deal s next k
    → IsFit st deal s (suc next) k
IsFit-suc st deal s next k f = record {
  entries = f.entries;
  once = f.once;
  certains_once = f.certains_once;
  apart = f.apart;
  valid = f.valid;
  of_deck = f.of_deck;
  own = f.own;
  certains_own = f.certains_own;
  known = f.known;
  fresh = λ x m. f.fresh x (drop-suc k.candidates next x m);
}

module _ (st : State) (deal : ℕ → Identity)
    (ids : (o : ℕ) → IsIdentity (length st.variant.suits) (deal o)) where
  -- The set of identities with those of the next item.
  acc-lem :
      (acc p : IdentitySet)
      → IsValid acc
      → acc.num_suits ≡ length st.variant.suits
      → IsValid p
      → p.num_suits ≡ length st.variant.suits
      → IsValid (union acc (set p))
        × ((i : Identity)
            → IsIdentity (length st.variant.suits) i
            → has (union acc (set p)) i ≡ (has acc i || has p i))
        × ((i : Identity) → i ∈ array (subtract p (set acc)) → has p i ≡ true)
  unfolding subtract make
  acc-lem acc p v e v' e' =
      let (vi, vs, vu) = operations-IsValid acc (set p) v (e' ∙ sym e, v') in
      let (wi, ws, wu) = operations-IsValid p (set acc) v' (e ∙ sym e', v) in
      (
        vu,
        (λ i w. let (a, b, c) = has-operations acc (set p) i v (e' ∙ sym e, v') (rw e w) in c),
        (λ i m.
            let (w, h) = (array_mem_iff (subtract p (set acc)) i ws).0 m in
            let (a, b, c) = has-operations p (set acc) i v' (e ∙ sym e', v) w in
            ground (arith, b, h)),
      )

  -- The next item joins the subset.
  pub with_item-IsFit :
      (s : Subset) (next : ℕ) (k : Knowledge) (item : Entry) (c : Card)
      → IsRight (length st.variant.suits) deal (all_orders st.hands) k
      → AreCandidates st k.candidates
      → IsFit st deal s next k
      → get_elem? k.candidates next ≡ some item
      → thought_at k.thoughts item.order ≡ some c
      → IsFit st deal (with_item s item c k) (suc next) k
  unfolding with_item union make
  with_item-IsFit s next k item c g cands f at here =
      let h = g.is_true.sound item.order c here in
      let (v, joined, rest) = acc-lem s.acc_ids c.possible f.valid f.of_deck h.valid h.suits in
      let item_next = get_elem?-drop k.candidates next item at in
      let item_in = cands.in_hands item (drop-mem k.candidates next item item_next) in
      let keeps =
        λ (i : Identity) (w : IsIdentity (length st.variant.suits) i)
            (old : has s.acc_ids i ≡ true).
          old_of i (joined i w) old in
      let gains =
        λ (i : Identity) (w : IsIdentity (length st.variant.suits) i)
            (new : has c.possible i ≡ true).
          new_of i (joined i w) new in
      let new_certains = known_of (array (subtract c.possible (set s.acc_ids))) k.certain in
      let from_union =
        λ (o : ℕ)
            (m : o
              ∈ filter (is_outside (s.contained ++ item ∷ []))
                  (union_orders s.certains new_certains)).
          union_orders-mem s.certains new_certains o
            (filter-mem (is_outside (s.contained ++ item ∷ [])) o
              (union_orders s.certains new_certains) m).0 in
      record {
        entries = λ e m. elim (append-mem e s.contained (item ∷ []) m) [
          | inl a ↦ f.entries e a
          | inr b ↦ rw (last e b) item_in
        ];
        once = rw (orders_of-append s.contained (item ∷ [])) (
            AllDiffer-append (orders_of s.contained) (item.order ∷ []) f.once ((λ m. m), tt)
              (λ x m. elim m [
                | inl q ↦ rw q (f.fresh item item_next)
                | inr no_more ↦ absurd no_more
              ]));
        certains_once =
            AllDiffer-filter _ _ (union_orders-AllDiffer s.certains new_certains f.certains_once);
        apart = λ o m.
            (filter-mem (is_outside (s.contained ++ item ∷ [])) o
              (union_orders s.certains new_certains) m).1;
        valid = v;
        of_deck = f.of_deck;
        own = λ e m. elim (append-mem e s.contained (item ∷ []) m) [
          | inl a ↦ keeps (deal e.order) (ids e.order) (f.own e a)
          | inr b ↦ rw (last e b) (gains (deal item.order) (ids item.order) h.member)
        ];
        certains_own = λ o m. elim (from_union o m) [
          | inl a ↦ keeps (deal o) (ids o) (f.certains_own o a)
          | inr b ↦
              let (id, mem, n) = known_of-mem _ k.certain o b in
              let (held, same) = known-deal st deal k id o g.is_true n in
              gains (deal o) (ids o) (rw same (rest id mem))
        ];
        known = λ o m. elim (from_union o m) [
          | inl a ↦ f.known o a
          | inr b ↦
              let (id, mem, n) = known_of-mem _ k.certain o b in
              let (held, same) = known-deal st deal k id o g.is_true n in rw same n
        ];
        fresh = λ e m old.
            let outside = f.fresh e (drop-suc k.candidates next e m) in
            elim (append-mem e.order (orders_of s.contained) (item.order ∷ [])
              (rw (orders_of-append s.contained (item ∷ [])) at (old))) [
                | inl a ↦ outside a
                | inr b ↦ elim b [
                  | inl q ↦ drop-differ k.candidates next item e cands.once at m q
                  | inr no_more ↦ no_more
                ]
              ];
      }
    where
      either : (x y : Bool) → y ≡ true → (x || y) ≡ true
      either x y e = ground arith

      last : (e : Entry) → e ∈ item ∷ [] → e ≡ item
      last e (inl q) = q
      last e (inr m) = absurd m

      old_of :
          (i : Identity)
          → has (union s.acc_ids (set c.possible)) i ≡ (has s.acc_ids i || has c.possible i)
          → has s.acc_ids i ≡ true
          → has (union s.acc_ids (set c.possible)) i ≡ true
      old_of i e old = e ∙ rw old refl

      new_of :
          (i : Identity)
          → has (union s.acc_ids (set c.possible)) i ≡ (has s.acc_ids i || has c.possible i)
          → has c.possible i ≡ true
          → has (union s.acc_ids (set c.possible)) i ≡ true
      new_of i e new = e ∙ either (has s.acc_ids i) (has c.possible i) new
