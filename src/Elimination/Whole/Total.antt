-- ===== src/Elimination/Whole/Total.antt =====
-- `card_elim` ends, does not throw, and rules out no card's own identity.
use hanabi_bot.Base.{
  ℕ, zero, suc, ◌<◌, ◌≡◌, refl, sym, ap, inl, inr, ◌++◌, Bool-cases, Bool, some, false, List, [],
  ◌∷◌, ◌∈◌, length, arith,
}
use mathlib.Core.Path.{subst}
use hanabi_bot.Base.Int.{negsuc, eq_ℤ}
use hanabi_bot.Identity.{Identity, IsIdentity}
use hanabi_bot.IdentitySet.{IdentitySet, IsValid, array}
use hanabi_bot.IdentitySet.Elements.{array_mem_iff}
use hanabi_bot.State.{State}
use hanabi_bot.Thoughts.Sound.{IsSound, AreDrawn}
use hanabi_bot.Player.{Player, flat}
use hanabi_bot.Elimination.{Knowledge, Outcome, done}
use hanabi_bot.Elimination.Counting.{AllDiffer}
use hanabi_bot.Elimination.Certains.{FitsDeck, all_orders}
use hanabi_bot.Elimination.Truth.{IsRight, IsSeenRight, weight}
use hanabi_bot.Elimination.Grown.{Same-IsSeenRight}
use hanabi_bot.Elimination.Basic.{basic_elim-IsTrue}
use hanabi_bot.Elimination.SetUp.{set_up, set_up-IsTrue}
use hanabi_bot.Elimination.Endgame.Cards.{IsDeckRight}
use hanabi_bot.Elimination.Endgame.Total.{endgame_elim-IsRight}
use hanabi_bot.Elimination.Cross.Fits.{AreCandidates, AreCandidates-grow, AreCandidates-thin}
use hanabi_bot.Elimination.Cross.Search.{cross_elim-Ends}
use hanabi_bot.Elimination.Whole.{
  cross_rounds, eliminate_all, eliminated, with_elimination, card_elim,
}
use hanabi_bot.Elimination.Whole.Start.{gather-IsValid, set_up-AreCandidates}

module _ (st : State) (deal : ℕ → Identity)
    (ids : (o : ℕ) → IsIdentity (length st.variant.suits) (deal o)) (fits : FitsDeck st deal)
    (deck : IsDeckRight deal st) (differ : AllDiffer (all_orders st.hands))
    (base : IsValid st.base_ids) (suits : st.base_ids.num_suits ≡ length st.variant.suits) where
  -- The calls end without an error, and what is known stays right.
  abbrev Finishes : Outcome → Type 0
  Finishes res =
      (k : Knowledge) × (changed : Bool) × (res ≡ done k changed)
      × IsRight (length st.variant.suits) deal (all_orders st.hands) k

  cross_rounds-Finishes :
      (fuel : ℕ) (is_common : Bool) (todo : List Identity) (k : Knowledge)
      → weight k.thoughts < fuel
      → ((i : Identity) → i ∈ todo → IsIdentity (length st.variant.suits) i)
      → IsRight (length st.variant.suits) deal (all_orders st.hands) k
      → AreCandidates st k.candidates
      → Finishes (cross_rounds fuel st is_common todo k)
  unfolding cross_rounds
  cross_rounds-Finishes zero is_common todo k lt valid g cands = absurd (omega arith)
  cross_rounds-Finishes (suc fuel) is_common todo k lt valid g cands =
      let (k', changed, h, g', grown, less) =
        cross_elim-Ends st deal ids fits deck differ base suits k g cands in
      elim (Bool-cases changed) [
        | inl again ↦
            rw (cross_rounds, h, again)
              (cross_rounds-Finishes fuel is_common todo k' (omega (arith, less again)) valid g'
                (AreCandidates-grow st k k' grown cands))
        | inr last ↦
            let (k'', q, g'', thin) =
              endgame_elim-IsRight st deal ids fits deck is_common todo k' valid g' in
            rw (cross_rounds, h, last, q) (k'', false, refl, g'')
      ]

  eliminate_all-Finishes :
      (is_common : Bool) (todo : List Identity) (k : Knowledge)
      → ((i : Identity) → i ∈ todo → IsIdentity (length st.variant.suits) i)
      → IsRight (length st.variant.suits) deal (all_orders st.hands) k
      → AreCandidates st k.candidates
      → Finishes (eliminate_all st is_common todo k)
  unfolding eliminate_all
  eliminate_all-Finishes is_common todo k valid g cands =
      let (k1, h, g1, thin) = endgame_elim-IsRight st deal ids fits deck is_common todo k valid g in
      let (k2, changed, h', t, grown, less) =
        basic_elim-IsTrue st deal ids fits (suc (weight k1.thoughts)) todo k1 (omega arith) valid
          g1.is_true in
      rw (h, eliminate_all, h')
        (cross_rounds-Finishes (suc (weight k2.thoughts)) is_common todo k2 (omega arith) valid
          (record {
            is_true = t;
            seen = Same-IsSeenRight deal k1.thoughts k2.thoughts grown.same g1.seen;
          })
          (AreCandidates-grow st k1 k2 grown
            (AreCandidates-thin st k.candidates k1.candidates thin cands)))

  -- `card_elim` comes to its end with what it knows right, found from the maps that it sets up.
  pub card_elim-Ends :
      (p : Player)
      → IsSound (length st.variant.suits) deal p.thoughts
      → AreDrawn p.thoughts (all_orders st.hands)
      → IsSeenRight deal p.thoughts
      → (all : IdentitySet) × (k : Knowledge) × (k' : Knowledge) × (changed : Bool) × (card_elim p
            st
          ≡ eliminated (with_elimination p k'))
        × (set_up st (eq_ℤ p.player_index (negsuc 0)) p.thoughts ≡ some k)
        × (eliminate_all st (eq_ℤ p.player_index (negsuc 0)) (array all) k ≡ done k' changed)
        × ((i : Identity) → i ∈ array all → IsIdentity (length st.variant.suits) i)
        × IsRight (length st.variant.suits) deal (all_orders st.hands) k'
  unfolding card_elim
  card_elim-Ends p sound drawn right =
      let n = length st.variant.suits in
      let is_common = eq_ℤ p.player_index (negsuc 0) in
      let (all, h, v, s) =
        gather-IsValid n deal st p.thoughts (flat st.hands) st.base_ids sound
          (rw (flat_lem st.hands) drawn) base suits in
      let (k, h', t, same) = set_up-IsTrue n deal st is_common p.thoughts ids sound drawn right in
      let valid : (i : Identity) → i ∈ array all → IsIdentity n i =
        λ i m. rw (← s) ((array_mem_iff all i v).0 m).0 in
      let (k', changed, h'', g) =
        eliminate_all-Finishes is_common (array all) k valid
          (record { is_true = t; seen = subst (IsSeenRight deal) (sym same) right })
          (set_up-AreCandidates st is_common p.thoughts k h' differ) in
      (all, k, k', changed, rw (h, h', card_elim, h'') refl, h', h'', valid, g)
    where
      flat_lem : (hands : List (List ℕ)) → flat hands ≡ all_orders hands
      flat_lem [] = refl
      flat_lem (hand ∷ hands) = ap (λ (os : List ℕ). hand ++ os) (flat_lem hands)

  -- `card_elim` ends without an error within its fuel, and of the new player's thoughts, as of those
  -- before, the possibilities of each card have its identity, and all cards of the hands are drawn, if
  -- the cards fit the deck, are in one hand each, and what is seen of them in the deck and in the
  -- thoughts is right, and the set `base_ids` is valid and over the deck's suits.
  pub card_elim-IsSound :
      (p : Player)
      → IsSound (length st.variant.suits) deal p.thoughts
      → AreDrawn p.thoughts (all_orders st.hands)
      → IsSeenRight deal p.thoughts
      → (p' : Player) × (card_elim p st ≡ eliminated p')
        × IsSound (length st.variant.suits) deal p'.thoughts
        × AreDrawn p'.thoughts (all_orders st.hands)
  unfolding with_elimination
  card_elim-IsSound p sound drawn right =
      let (all, k, k', changed, h, start, run, valid, g) = card_elim-Ends p sound drawn right in
      (with_elimination p k', h, g.is_true.sound, g.is_true.drawn)
