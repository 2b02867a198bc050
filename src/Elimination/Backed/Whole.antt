-- ===== src/Elimination/Backed/Whole.antt =====
-- All of `card_elim` rules out for the deck no identity of a card that is left in it.
use hanabi_bot.Base.{
  ℕ, ◌+◌, ◌≤◌, ◌≡◌, refl, ◌∙◌, inl, inr, true, false, List, [], ◌∷◌, ◌∈◌, length, arith, Bool-cases,
  mem-filter,
}
use mathlib.Core.Path.{subst}
use hanabi_bot.Base.Int.{negsuc, eq_ℤ}
use hanabi_bot.Identity.{Identity, IsIdentity, matches_iff}
use hanabi_bot.IdentitySet.{IdentitySet, IsValid, set, has, subtract, make, array}
use hanabi_bot.IdentitySet.Members.{has-operations}
use hanabi_bot.State.{State, base_count, card_count}
use hanabi_bot.Thoughts.Sound.{HasTruth, IsSound, AreDrawn}
use hanabi_bot.Player.{Player}
use hanabi_bot.Elimination.{known_orders, entries_from}
use hanabi_bot.Elimination.Counting.{AllDiffer, length-differ_le}
use hanabi_bot.Elimination.Certains.{FitsDeck, all_orders, copies, known_orders-copies}
use hanabi_bot.Elimination.Truth.{IsSeenRight}
use hanabi_bot.Elimination.SetUp.{set_up}
use hanabi_bot.Elimination.Endgame.Cards.{IsDeckRight}
use hanabi_bot.Elimination.Whole.{eliminated, with_elimination, card_elim}
use hanabi_bot.Elimination.Whole.Total.{card_elim-Ends}
use hanabi_bot.Elimination.Backed.{Holds, Leaves, IsOver, subtract-IsOver, IsBacked}
use hanabi_bot.Elimination.Backed.Rounds.{set_up_cards-IsBacked, eliminate_all-IsBacked}

-- Ruling out another identity leaves a card's own.
subtract-HasTruth :
    (n : ℕ) (p e : IdentitySet) (id : Identity)
    → HasTruth n id p
    → IsIdentity n id
    → IsOver n e
    → ¬ (has e id ≡ true)
    → HasTruth n id (subtract p (set e))
unfolding subtract make
subtract-HasTruth n p e id t w over out = record {
  valid = (subtract-IsOver n p (set e) (t.suits, t.valid)).1;
  suits = t.suits;
  member =
      (has-operations p (set e) id t.valid (rw t.suits over) (rw t.suits w)).1
      ∙ elim (Bool-cases (has e id)) [
        | inl at ↦ absurd (out at)
        | inr away ↦ rw (t.member, away) refl
      ];
}

-- There are no more copies of an identity on the stacks, in the hands and among the cards that are
-- left than in the deck.
abbrev pub FitsWith : State → (deal : ℕ → Identity) → (left : List ℕ) → Type 0
FitsWith st deal left =
    (id : Identity)
    → IsIdentity (length st.variant.suits) id
    → base_count st id
        + length (copies deal id (all_orders st.hands))
        + length (copies deal id left)
      ≤ card_count st id

pub FitsWith-FitsDeck :
    (st : State) (deal : ℕ → Identity) (left : List ℕ) → FitsWith st deal left → FitsDeck st deal
FitsWith-FitsDeck st deal left fits id w = omega (arith, fits id w)

module _ (st : State) (deal : ℕ → Identity)
    (ids : (o : ℕ) → IsIdentity (length st.variant.suits) (deal o)) (left : List ℕ)
    (fits : FitsWith st deal left) (deck : IsDeckRight deal st)
    (differ : AllDiffer (all_orders st.hands)) (base : IsValid st.base_ids)
    (suits : st.base_ids.num_suits ≡ length st.variant.suits)
    (none_ruled : (id : Identity) → has st.base_ids id ≡ false) where
  -- In a state in which the cards on the stacks, in the hands and left in the deck fit the deck, each
  -- held card is drawn and in one hand, what is seen of the cards is right, and `base_ids` is empty,
  -- `card_elim` ends without an error from sound thoughts, the thoughts stay sound, and no card that
  -- is left loses its identity from `all_possible`, what the player expects in the deck.
  pub card_elim-keeps_left :
      (p : Player)
      → IsSound (length st.variant.suits) deal p.thoughts
      → AreDrawn p.thoughts (all_orders st.hands)
      → IsSeenRight deal p.thoughts
      → (p' : Player) × (card_elim p st ≡ eliminated p')
        × IsSound (length st.variant.suits) deal p'.thoughts
        × ((o : ℕ)
            → o ∈ left
            → HasTruth (length st.variant.suits) (deal o) p.all_possible
            → HasTruth (length st.variant.suits) (deal o) p'.all_possible)
  unfolding with_elimination set_up known_orders
  card_elim-keeps_left p sound drawn right =
      let is_common = eq_ℤ p.player_index (negsuc 0) in
      let (all, k, k', changed, h, start, run, valid, g) =
        card_elim-Ends st deal ids (FitsWith-FitsDeck st deal left fits) deck differ base suits p
          sound drawn right in
      let started : IsBacked st k = subst (Holds (IsBacked st)) start (
        set_up_cards-IsBacked st is_common (entries_from 0 st.hands)
          (record {
            certain = [];
            thoughts = p.thoughts;
            candidates = [];
            eliminated = st.base_ids;
          })
          (record {
            possible = λ o c at. let t = sound o c at in (t.suits, t.valid);
            ruled = (suits, base);
            counted = λ id w at. absurd (ground (arith, none_ruled id));
          })) in
      let backed : IsBacked st k' =
        subst (Leaves (IsBacked st)) run
          (eliminate_all-IsBacked st is_common (array all) k (suits, base) valid started) in
      (
        with_elimination p k',
        h,
        g.is_true.sound,
        λ o m t.
            subtract-HasTruth (length st.variant.suits) p.all_possible k'.eliminated (deal o) t
              (ids o) backed.ruled
              (λ at.
                let known =
                  length-differ_le (known_orders (deal o) k'.certain)
                    (copies deal (deal o) (all_orders st.hands)) (g.is_true.differ (deal o))
                    (λ x mx.
                      known_orders-copies deal (deal o) (all_orders st.hands) k'.certain x
                        g.is_true.truth mx) in
                let here =
                  some_member o (copies deal (deal o) left)
                    (mem-filter _ o left m ((matches_iff (deal o) (deal o)).1 refl)) in
                omega
                  (arith, fits (deal o) (ids o), backed.counted (deal o) (ids o) at, known, here)),
      )
    where
      some_member : (x : ℕ) (xs : List ℕ) → x ∈ xs → 1 ≤ length xs
      some_member x [] m = absurd m
      some_member x (y ∷ xs) m = omega arith
