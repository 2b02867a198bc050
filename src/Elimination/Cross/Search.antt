-- ===== src/Elimination/Cross/Search.antt =====
-- `gen_subset` and all of `cross_elim`.
use hanabi_bot.Base.{
  ℕ, zero, suc, ◌+◌, ◌-◌, ◌≤◌, ◌<◌, ◌≡◌, refl, ap, ◌∙◌, inl, inr, Bool, true, false, List, [], ◌∷◌,
  ◌++◌, leb, some, get_elem?, length, arith, Bool-cases, Option-cases, append-mem, length-append,
  length-map, length-filter-le,
}
use hanabi_bot.Base.Int.{ℤ, pos, ◌≤ℤ◌, eq_ℤ, int_laws}
use hanabi_bot.Identity.{Identity, IsIdentity}
use hanabi_bot.IdentitySet.{IsValid, has, array}
use hanabi_bot.IdentitySet.Elements.{array_mem_iff}
use hanabi_bot.State.{State}
use hanabi_bot.Elimination.{Entry, Knowledge, Outcome, done}
use hanabi_bot.Elimination.Counting.{AllDiffer}
use hanabi_bot.Elimination.Certains.{FitsDeck, all_orders, entries_from-order}
use hanabi_bot.Elimination.Truth.{IsRight, weight}
use hanabi_bot.Elimination.Grown.{Grown, Grown-refl, Grown-trans}
use hanabi_bot.Elimination.Endgame.Cards.{IsDeckRight}
use hanabi_bot.Elimination.Cross.{
  Subset, with_item, missing, is_out_of_reach, is_complete, unless_changed, try_subset, gen_subset,
  cross_elim, total_multiplicity,
}
use hanabi_bot.Elimination.Cross.Room.{cover}
use hanabi_bot.Elimination.Cross.Orders.{
  orders_of, AllDiffer-append, orders_of-mem, is_outside-not, get_elem?-drop, drop-mem,
}
use hanabi_bot.Elimination.Cross.Perform.{IsFull, known-deal, cross_perform-lem}
use hanabi_bot.Elimination.Cross.Fits.{
  AreCandidates, AreCandidates-grow, IsFit, IsFit-grow, IsFit-suc, with_item-IsFit,
}

le_of_eq_ℤ : (a b : ℤ) → eq_ℤ a b ≡ true → a ≤ℤ b
le_of_eq_ℤ a b h = ground arith

-- The call ends without an error, what is known stays right, and it says that something changed only
-- if it did.
abbrev pub Ends : State → (deal : ℕ → Identity) → Knowledge → Outcome → Type 0
Ends st deal k res =
    (k' : Knowledge) × (changed : Bool) × (res ≡ done k' changed)
    × IsRight (length st.variant.suits) deal (all_orders st.hands) k'
    × Grown k k'
    × (changed ≡ true → weight k'.thoughts < weight k.thoughts)

unless_changed-Ends :
    (st : State) (deal : ℕ → Identity) (k : Knowledge) (res : Outcome) (f : Knowledge → Outcome)
    → Ends st deal k res
    → ((k' : Knowledge)
        → IsRight (length st.variant.suits) deal (all_orders st.hands) k'
        → Grown k k'
        → Ends st deal k' (f k'))
    → Ends st deal k (unless_changed res f)
unless_changed-Ends st deal k res f (k', true, e, right, grown, less) next =
    rw e (k', true, refl, right, grown, less)
unless_changed-Ends st deal k res f (k', false, e, right, grown, less) next =
    let (k'', b, e', right', grown', less') = next k' right grown in
    rw e (k'', b, e', right', Grown-trans grown grown', λ c. omega (arith, less' c, grown.lighter))

get_elem?-lt : (es : List Entry) (n : ℕ) (e : Entry) → get_elem? es n ≡ some e → n < length es
get_elem?-lt [] n e h = absurd (ground arith)
get_elem?-lt (d ∷ es) zero e h = omega arith
get_elem?-lt (d ∷ es) (suc n) e h = omega (arith, get_elem?-lt es n e h)

thinned-length : (k k' : Knowledge) → Grown k k' → length k'.candidates ≤ length k.candidates
thinned-length k k' g = let (p, e) = g.thinned in rw e (length-filter-le p k.candidates)

module _ (st : State) (deal : ℕ → Identity)
    (ids : (o : ℕ) → IsIdentity (length st.variant.suits) (deal o)) (fits : FitsDeck st deal)
    (deck : IsDeckRight deal st) (differ : AllDiffer (all_orders st.hands))
    (base : IsValid st.base_ids) (suits : st.base_ids.num_suits ≡ length st.variant.suits) where
  -- A subset of as many cards as copies are missing has, with the known ones, all of them.
  complete-IsFull :
      (s : Subset) (next : ℕ) (k : Knowledge)
      → is_complete st s ≡ true
      → IsRight (length st.variant.suits) deal (all_orders st.hands) k
      → IsFit st deal s next k
      → IsFull st deal ids fits deck differ base suits s.contained s.certains s.acc_ids k
  unfolding total_multiplicity
  complete-IsFull s next k full g f =
      let exact = le_of_eq_ℤ (missing st s) (pos (length s.contained)) (ground arith) in
      let long : length (orders_of s.contained ++ s.certains)
          ≡ length s.contained + length s.certains =
        length-append (orders_of s.contained) s.certains
        ∙ ap (λ (x : ℕ). x + length s.certains) (length-map s.contained (λ (e : Entry). e.order)) in
      let within = λ (o : ℕ) (h : has s.acc_ids (deal o) ≡ true).
        (array_mem_iff s.acc_ids (deal o) f.valid).1 (rw f.of_deck (ids o), h) in
      record {
        entries = f.entries;
        differs = f.once;
        valid = f.valid;
        of_deck = f.of_deck;
        all = λ o m own.
            cover st deal fits (array s.acc_ids) (orders_of s.contained ++ s.certains) o
              (λ i mi. rw (← f.of_deck) ((array_mem_iff s.acc_ids i f.valid).0 mi).0)
              (AllDiffer-append (orders_of s.contained) s.certains f.once f.certains_once
                (λ x mx. is_outside-not s.contained x (f.apart x mx)))
              (λ x mx. elim (append-mem x (orders_of s.contained) s.certains mx) [
                | inl a ↦
                    let (e, mem, q) = orders_of-mem x s.contained a in
                    (
                      rw (← q) (entries_from-order 0 st.hands e (f.entries e mem)),
                      rw (← q) (within e.order (f.own e mem)),
                    )
                | inr b ↦
                    let (held, same) = known-deal st deal k (deal x) x g.is_true (f.known x b) in
                    (held, within x (f.certains_own x b))
              ])
              (omega (int_laws, exact, long)) m (within o own);
        known = f.known;
        right = g;
      }

  try_subset-Ends :
      (s : Subset) (next : ℕ) (k : Knowledge)
      → IsRight (length st.variant.suits) deal (all_orders st.hands) k
      → IsFit st deal s next k
      → Ends st deal k (try_subset st s k)
  unfolding try_subset
  try_subset-Ends s next k g f = elim (Bool-cases (is_complete st s)) [
    | inl full ↦
        rw (try_subset, full)
          (cross_perform-lem st deal ids fits deck differ base suits s.contained s.certains
            s.acc_ids k (complete-IsFull s next k full g f))
    | inr part ↦ rw (try_subset, part) (k, false, refl, g, Grown-refl k, λ c. absurd (ground arith))
  ]

  -- With fuel for the candidates that are left and one more.
  gen_subset-Ends :
      (fuel : ℕ) (s : Subset) (next : ℕ) (k : Knowledge)
      → length k.candidates - next < fuel
      → IsRight (length st.variant.suits) deal (all_orders st.hands) k
      → AreCandidates st k.candidates
      → IsFit st deal s next k
      → Ends st deal k (gen_subset fuel st s next k)
  unfolding gen_subset
  gen_subset-Ends zero s next k lt g cands f = absurd (omega arith)
  gen_subset-Ends (suc fuel) s next k lt g cands f =
      elim (Bool-cases (is_out_of_reach st s next k)) [
        | inl far ↦
            rw (gen_subset, far) (k, false, refl, g, Grown-refl k, λ c. absurd (ground arith))
        | inr near ↦
            rw (gen_subset, near)
              (unless_changed-Ends st deal k (try_subset st s k) _ (try_subset-Ends s next k g f)
                (λ k' g' grown.
                  let cands' = AreCandidates-grow st k k' grown cands in
                  let f' = IsFit-grow st deal s next k k' grown f in
                  elim (Option-cases (get_elem? k'.candidates next)) [
                    | inl over ↦
                        rw over (k', false, refl, g', Grown-refl k', λ c. absurd (ground arith))
                    | inr (item, at) ↦
                        let inside = get_elem?-lt k'.candidates next item at in
                        let shorter = thinned-length k k' grown in
                        let held = cands'.in_hands item (
                          drop-mem k'.candidates next item
                            (get_elem?-drop k'.candidates next item at)) in
                        let (c, here) =
                          g'.is_true.drawn item.order (entries_from-order 0 st.hands item held) in
                        rw (at, here)
                          (unless_changed-Ends st deal k'
                            (gen_subset fuel st (with_item s item c k') (suc next) k')
                            (gen_subset fuel st s (suc next))
                            (gen_subset-Ends fuel (with_item s item c k') (suc next) k'
                              (omega arith) g' cands'
                              (with_item-IsFit st deal ids s next k' item c g' cands' f' at here))
                            (λ k'' g'' grown'.
                              let shorter' = thinned-length k' k'' grown' in
                              gen_subset-Ends fuel s (suc next) k'' (omega arith) g''
                                (AreCandidates-grow st k' k'' grown' cands')
                                (IsFit-suc st deal s next k''
                                  (IsFit-grow st deal s next k' k'' grown' f'))))
                  ]))
      ]

  -- With candidates that are cards of the hands, each once, `cross_elim` ends without an error and
  -- keeps what is known right, so that no card loses its own identity, if what is known is right, the
  -- cards fit the deck and are in one hand each, what is seen of them is right, and the set `base_ids`
  -- is valid and over the deck's suits; if it says that something changed, the sum of the masks has
  -- become smaller, no order that is known is lost, and no candidate is added.
  pub cross_elim-Ends :
      (k : Knowledge)
      → IsRight (length st.variant.suits) deal (all_orders st.hands) k
      → AreCandidates st k.candidates
      → Ends st deal k (cross_elim st k)
  unfolding cross_elim
  cross_elim-Ends k g cands = elim (Bool-cases (leb (length k.candidates) 1)) [
    | inl few ↦ rw (cross_elim, few) (k, false, refl, g, Grown-refl k, λ c. absurd (ground arith))
    | inr more ↦
        rw (cross_elim, more)
          (gen_subset-Ends (suc (length k.candidates))
            (record { contained = []; acc_ids = st.base_ids; certains = [] }) 0 k (omega arith) g
            cands
            (record {
              entries = λ e m. absurd m;
              once = tt;
              certains_once = tt;
              apart = λ o m. absurd m;
              valid = base;
              of_deck = suits;
              own = λ e m. absurd m;
              certains_own = λ o m. absurd m;
              known = λ o m. absurd m;
              fresh = λ e m n. n;
            }))
  ]
