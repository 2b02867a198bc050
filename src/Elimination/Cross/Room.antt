-- ===== src/Elimination/Cross/Room.antt =====
-- As many cards of some identities as there are copies are all the cards of these identities.
use hanabi_bot.Base.{
  ℕ, ◌+◌, ◌≤◌, ◌≡◌, refl, inl, inr, List, [], ◌∷◌, ◌∈◌, filter, some_of, length, arith, mem-filter,
  mem-some_of,
}
use hanabi_bot.Base.Int.{pos, ◌≤ℤ◌, int_laws}
use hanabi_bot.Identity.{Identity, IsIdentity, matches, matches_iff}
use hanabi_bot.State.{State}
use hanabi_bot.Elimination.Counting.{AllDiffer, all_found}
use hanabi_bot.Elimination.Certains.{FitsDeck, all_orders, copies}
use hanabi_bot.Elimination.Cross.{multiplicity_of}

-- The cards of a hand that are one of `ids`.
abbrev held : (deal : ℕ → Identity) → List Identity → List ℕ → List ℕ
held deal ids orders = filter (λ o. some_of (λ i. matches (deal o) i) ids) orders

length-held :
    (deal : ℕ → Identity) (id : Identity) (ids : List Identity) (orders : List ℕ)
    → length (held deal (id ∷ ids) orders)
      ≤ length (copies deal id orders) + length (held deal ids orders)
length-held deal id ids [] = omega arith
length-held deal id ids (o ∷ os) = ground (arith, length-held deal id ids os)

held-none : (deal : ℕ → Identity) (orders : List ℕ) → length (held deal [] orders) ≡ 0
held-none deal [] = refl
held-none deal (o ∷ os) = held-none deal os

module _ (st : State) (deal : ℕ → Identity) (fits : FitsDeck st deal) where
  held-multiplicity :
      (ids : List Identity)
      → ((i : Identity) → i ∈ ids → IsIdentity (length st.variant.suits) i)
      → pos (length (held deal ids (all_orders st.hands))) ≤ℤ multiplicity_of st ids
  unfolding multiplicity_of
  held-multiplicity [] valid = omega (arith, held-none deal (all_orders st.hands))
  held-multiplicity (id ∷ ids) valid =
      let ih = held-multiplicity ids (λ i m. valid i (inr m)) in
      let le = length-held deal id ids (all_orders st.hands) in
      let fit = fits id (valid id (inl refl)) in omega (int_laws, ih, le, fit)

  pub cover :
      (ids : List Identity) (xs : List ℕ) (o : ℕ)
      → ((i : Identity) → i ∈ ids → IsIdentity (length st.variant.suits) i)
      → AllDiffer xs
      → ((x : ℕ) → x ∈ xs → (x ∈ all_orders st.hands) × (deal x ∈ ids))
      → multiplicity_of st ids ≤ℤ pos (length xs)
      → o ∈ all_orders st.hands
      → deal o ∈ ids
      → o ∈ xs
  cover ids xs o valid d sub le m own =
      let few = held-multiplicity ids valid in
      all_found xs (held deal ids (all_orders st.hands)) o d
        (λ x mx. let (mem, of) = sub x mx in is_held x mem of) (omega (int_laws, few, le))
        (is_held o m own)
    where
      is_held :
          (x : ℕ) → x ∈ all_orders st.hands → deal x ∈ ids → x ∈ held deal ids (all_orders st.hands)
      is_held x m own =
          mem-filter (λ i. some_of (λ j. matches (deal i) j) ids) x (all_orders st.hands) m
            (mem-some_of (matches (deal x)) ids (deal x) own
              ((matches_iff (deal x) (deal x)).1 refl))
