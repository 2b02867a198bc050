-- ===== src/Elimination/Whole.antt =====
-- basics/player-elim.js, all of `card_elim`. The loop over `cross_elim` is given fuel above the sum of
-- the cards' masks, which each of its rounds but the last makes smaller.
pub mod Start
pub mod Total
use hanabi_bot.Base.{ℕ, zero, suc, Bool, true, false, Option, none, some, List}
use hanabi_bot.Base.Int.{negsuc, eq_ℤ}
use hanabi_bot.Identity.{Identity}
use hanabi_bot.IdentitySet.{IdentitySet, subtract, set, array}
use hanabi_bot.State.{State}
use hanabi_bot.Thoughts.{Thoughts}
use hanabi_bot.Player.{Player, flat}
use hanabi_bot.Elimination.{Knowledge, Outcome, done, threw, out_of_fuel, basic_elim}
use hanabi_bot.Elimination.Truth.{weight}
use hanabi_bot.Elimination.SetUp.{gather, set_up}
use hanabi_bot.Elimination.Endgame.{endgame_elim}
use hanabi_bot.Elimination.Cross.{cross_elim}

-- `while (cross_elim() || endgame_elim(ids))`, where the results of `endgame_elim` count as `false`.
unfoldable pub cross_rounds :
    (fuel : ℕ) → State → (is_common : Bool) → List Identity → Knowledge → Outcome
unfolding cross_elim endgame_elim
cross_rounds zero st is_common ids k = out_of_fuel
cross_rounds (suc fuel) st is_common ids k = elim (cross_elim st k) [
  | done k' changed ↦ elim changed [
    | true ↦ cross_rounds fuel st is_common ids k'
    | false ↦ elim (endgame_elim st is_common ids k') [ none ↦ threw | some k'' ↦ done k'' false ]
  ]
  | threw ↦ threw
  | out_of_fuel ↦ out_of_fuel
]

-- The calls after the set-up.
unfoldable pub eliminate_all : State → (is_common : Bool) → List Identity → Knowledge → Outcome
unfolding endgame_elim basic_elim cross_rounds weight
eliminate_all st is_common ids k = elim (endgame_elim st is_common ids k) [
  | none ↦ threw
  | some k' ↦ elim (basic_elim (suc (weight k'.thoughts)) st ids k') [
    | done k'' changed ↦ cross_rounds (suc (weight k''.thoughts)) st is_common ids k''
    | threw ↦ threw
    | out_of_fuel ↦ out_of_fuel
  ]
]

pub data Elimination : Type 0 where
  eliminated : Player → Elimination
  elim_threw elim_out_of_fuel : Elimination

-- The statements that make the new player.
unfoldable pub with_elimination : Player → Knowledge → Player
unfolding subtract
with_elimination p k = record p {
  all_possible = subtract p.all_possible (set k.eliminated);
  all_inferred = subtract p.all_inferred (set k.eliminated);
  thoughts = k.thoughts;
}

unfoldable pub card_elim : Player → State → Elimination
unfolding gather set_up eliminate_all with_elimination array
card_elim p st =
    let is_common = eq_ℤ p.player_index (negsuc 0) in
    elim (gather st p.thoughts (flat st.hands) st.base_ids) [
      | none ↦ elim_threw
      | some all ↦ elim (set_up st is_common p.thoughts) [
        | none ↦ elim_threw
        | some k ↦ elim (eliminate_all st is_common (array all) k) [
          | done k' changed ↦ eliminated (with_elimination p k')
          | threw ↦ elim_threw
          | out_of_fuel ↦ elim_out_of_fuel
        ]
      ]
    ]
