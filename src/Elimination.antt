-- ===== src/Elimination.antt =====
-- basics/player-elim.js, `basic_elim` and `update_map` of `card_elim`: an identity of which all
-- copies are known is ruled out for every other card. The maps `certain_map` and `newThoughts` are
-- lists of entries and the thoughts with the new ones in place. The key of an identity is the
-- identity, since the cards' names differ. SetUp has how they are set up, Endgame has `endgame_elim`,
-- Cross `cross_elim` and Whole all of `card_elim`.
pub mod Counting
pub mod Certains
pub mod Truth
pub mod Grown
pub mod Update
pub mod Basic
pub mod Backed
pub mod SetUp
pub mod Endgame
pub mod Cross
pub mod Whole
use hanabi_bot.Base.{
  ℕ, zero, suc, ◌+◌, Bool, true, false, not, ◌&&◌, ◌||◌, List, [], ◌∷◌, ◌++◌, Option, none, some,
  ◌==◌, if◌then◌else◌, set, some_of, filter, length,
}
use hanabi_bot.Identity.{Identity, matches}
use hanabi_bot.IdentitySet.{IdentitySet, has, subtract, union, one, length as set_length}
use hanabi_bot.State.{State, base_count, card_count}
use hanabi_bot.Basics.{◌>>=◌}
use hanabi_bot.Card.{Card, MatchOptions, identity, reset_inferences}
use hanabi_bot.Thoughts.{Thoughts, thought_at, includes_order}

-- An entry of `certain_map`: the card of this order is known to have the identity, but not to the
-- players of `unknown_to`.
pub record Certain : Type 0 where
  pub id : Identity
  pub order : ℕ
  pub unknown_to : List ℕ

-- A card in a hand.
pub record Entry : Type 0 where
  pub order : ℕ
  pub player_index : ℕ

-- The variables of `card_elim`.
pub record Knowledge : Type 0 where
  pub certain : List Certain
  pub thoughts : Thoughts
  pub candidates : List Entry
  pub eliminated : IdentitySet

-- `mapInsertMap(certain_map, logCard(id), order, unknown_to)`.
unfoldable pub insert_certain : Certain → List Certain → List Certain
insert_certain e [] = e ∷ []
insert_certain e (c ∷ cs) =
    if matches c.id e.id && c.order == e.order then e ∷ cs else c ∷ insert_certain e cs

-- The keys of `certain_map.get(id)`.
unfoldable pub known_orders : Identity → List Certain → List ℕ
known_orders id [] = []
known_orders id (c ∷ cs) =
    let rest = known_orders id cs in if matches c.id id then c.order ∷ rest else rest

-- `certain_map.get(id)?.values().some(unknown_tos => unknown_tos.includes(playerIndex))`.
abbrev pub is_hidden_from : Identity → ℕ → List Certain → Bool
is_hidden_from id player cs =
    some_of (λ (c : Certain). matches c.id id && includes_order c.unknown_to player) cs

-- The two loops over the players and their hands, from player `i` on.
unfoldable pub entries_of : ℕ → List ℕ → List Entry
entries_of i [] = []
entries_of i (o ∷ os) = record { order = o; player_index = i } ∷ entries_of i os

unfoldable pub entries_from : ℕ → List (List ℕ) → List Entry
unfolding entries_of
entries_from i [] = []
entries_from i (hand ∷ hands) = entries_of i hand ++ entries_from (i + 1) hands

unfoldable pub no_elim : Identity → List ℕ → Knowledge → Entry → Card → Bool
unfolding known_orders
no_elim id exclude k e c =
    includes_order exclude e.player_index
    || not (has c.possible id)
    || includes_order (known_orders id k.certain) e.order
    || is_hidden_from id e.player_index k.certain

-- The local variables of `update_map`.
pub record Round : Type 0 where
  pub knowledge : Knowledge
  pub changed : Bool
  pub recursive_ids : List Identity
  pub removals : List ℕ

-- `newThoughts.set(order, card)`.
abbrev pub put : Round → ℕ → Card → Round
put r o c = record r {
  knowledge = record r.knowledge { thoughts = set r.knowledge.thoughts o (some c) };
  changed = true;
}

abbrev pub remove_id : Card → Identity → Card
remove_id c id = record c {
  possible = subtract c.possible (one id);
  inferred = subtract c.inferred (one id);
}

abbrev pub no_options : MatchOptions
no_options = record { infer = false; symmetric = false; assume = false }

-- A card that has one possibility left.
unfoldable pub settle : Round → Entry → Card → Option Round
unfolding insert_certain
settle r e c = do
  id ← identity c no_options
  some (record r {
    knowledge = record r.knowledge {
      certain =
          insert_certain (record { id = id; order = e.order; unknown_to = [] }) r.knowledge.certain;
    };
    recursive_ids = r.recursive_ids ++ id ∷ [];
    removals = r.removals ++ e.order ∷ [];
  })

-- The body of the loop; `none` is a card without possibilities, where the source throws.
unfoldable pub update_card_elim : Identity → List ℕ → Entry → Round → Option Round
unfolding no_elim settle
update_card_elim id exclude e r = do
  c ← thought_at r.knowledge.thoughts e.order
  let updated = remove_id c id
  if no_elim id exclude r.knowledge e c
      then some r
      else if set_length updated.possible == 0
      then none
      else if set_length updated.inferred == 0 && not c.reset
      then some (put r e.order (reset_inferences updated))
      else if set_length updated.possible == 1
      then settle (put r e.order updated) e updated
      else some (put r e.order updated)

unfoldable pub update_cards : Identity → List ℕ → List Entry → Round → Option Round
unfolding update_card_elim
update_cards id exclude [] r = some r
update_cards id exclude (e ∷ es) r = do
  r' ← update_card_elim id exclude e r
  update_cards id exclude es r'

unfoldable pub update_map : State → Identity → List ℕ → Knowledge → Option Round
unfolding update_cards entries_from
update_map st id exclude k = do
  r ←
      update_cards id exclude (entries_from 0 st.hands)
        (record { knowledge = k; changed = false; recursive_ids = []; removals = [] })
  let candidates =
      filter (λ (e : Entry). not (includes_order r.removals e.order)) r.knowledge.candidates
  some (record r { knowledge = record r.knowledge { candidates = candidates } })

-- The loop of `basic_elim`, whose variables `changed` and `recursive_ids` each `update_map` assigns
-- anew.
pub record Pass : Type 0 where
  pub knowledge : Knowledge
  pub changed : Bool
  pub recursive_ids : List Identity

abbrev pub all_known : State → Identity → Knowledge → Bool
all_known st id k = base_count st id + length (known_orders id k.certain) == card_count st id

unfoldable pub basic_loop : State → List Identity → Pass → Option Pass
unfolding update_map known_orders
basic_loop st [] p = some p
basic_loop st (id ∷ ids) p = elim (all_known st id p.knowledge) [
  | true ↦ do
    r ←
        update_map st id []
          (record p.knowledge { eliminated = union p.knowledge.eliminated (one id) })
    basic_loop st ids
        (record { knowledge = r.knowledge; changed = r.changed; recursive_ids = r.recursive_ids })
  | false ↦ basic_loop st ids p
]

pub data Outcome : Type 0 where
  done : Knowledge → (changed : Bool) → Outcome
  threw out_of_fuel : Outcome

-- The result of the call for the identities that were found is not read.
abbrev pub with_changed : Bool → Outcome → Outcome
with_changed changed (done k other) = done k changed
with_changed changed threw = threw
with_changed changed out_of_fuel = out_of_fuel

-- `basic_elim`, which calls itself on the identities that were found last.
unfoldable pub basic_elim : (fuel : ℕ) → State → List Identity → Knowledge → Outcome
unfolding basic_loop
basic_elim zero st ids k = out_of_fuel
basic_elim (suc fuel) st ids k =
    elim (basic_loop st ids (record { knowledge = k; changed = false; recursive_ids = [] })) [
      | none ↦ threw
      | some p ↦ elim p.recursive_ids [
        | [] ↦ done p.knowledge p.changed
        | (id ∷ rest) ↦ with_changed p.changed (basic_elim fuel st (id ∷ rest) p.knowledge)
      ]
    ]
