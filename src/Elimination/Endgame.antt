-- ===== src/Elimination/Endgame.antt =====
-- basics/player-elim.js, `endgame_elim` of `card_elim`: when all cards are drawn, an identity is ruled
-- out for the hands in which it cannot be. The set `holders` is a list of players. The source's
-- results, `false` and `undefined`, both end the loop that calls it, and are left out.
pub mod Holders
pub mod Cards
pub mod Truth
pub mod Total
use hanabi_bot.Base.{
  ℕ, zero, suc, ◌+◌, Bool, true, false, not, ◌&&◌, ◌||◌, List, [], ◌∷◌, ◌++◌, Option, none, some,
  ◌==◌, if◌then◌else◌, set, filter, length,
}
use hanabi_bot.Base.Int.{pos, ltb_ℤ}
use hanabi_bot.Base.Fallible.{◌||?◌, filter?, some?}
use hanabi_bot.Identity.{Identity, identity as basic_identity}
use hanabi_bot.IdentitySet.{has, length as set_length}
use hanabi_bot.State.{State, base_count, card_count, card_at}
use hanabi_bot.Basics.{◌>>=◌}
use hanabi_bot.Card.{Card, identity, matches, reset_inferences}
use hanabi_bot.Thoughts.{Thoughts, thought_at, includes_order}
use hanabi_bot.Player.{deck_matches}
use hanabi_bot.Elimination.{Entry, Knowledge, insert_certain, remove_id, no_options}

-- `state.deck[o].matches(id) || getThoughts(o).matches(id)`.
unfoldable pub is_copy : State → Thoughts → Identity → ℕ → Option Bool
unfolding matches
is_copy st thoughts id o =
    (do actual ← card_at st o; some (deck_matches actual id false))
    ||? (do c ← thought_at thoughts o; some (matches c id no_options))

-- `(state.deck[o].identity() ?? getThoughts(o).identity()) === undefined`.
unfoldable pub is_unidentified : State → Thoughts → ℕ → Option Bool
unfolding basic_identity identity
is_unidentified st thoughts o = do
  actual ← card_at st o
  elim (basic_identity actual.id) [
    | some i ↦ some false
    | none ↦ do
      c ← thought_at thoughts o
      elim (identity c no_options) [ some i ↦ some false | none ↦ some true ]
  ]

-- The variables that `perform_elim` changes; `removals` is `cross_elim_removals`.
pub record Ruling : Type 0 where
  pub knowledge : Knowledge
  pub removals : List ℕ

-- `newThoughts.set(order, card)`.
abbrev pub put_ruled : Ruling → ℕ → Card → Ruling
put_ruled r o c = record r {
  knowledge = record r.knowledge { thoughts = set r.knowledge.thoughts o (some c) };
}

-- A card that has one possibility left.
unfoldable pub note_certain : Ruling → ℕ → Card → Option Ruling
unfolding insert_certain identity
note_certain r o c = do
  id ← identity c no_options
  some (record r {
    knowledge = record r.knowledge {
      certain = insert_certain (record { id = id; order = o; unknown_to = [] }) r.knowledge.certain;
    };
    removals = r.removals ++ o ∷ [];
  })

unfoldable pub rule_out : Identity → ℕ → Card → Ruling → Option Ruling
unfolding note_certain reset_inferences
rule_out id o c r =
    let updated = remove_id c id in
    if set_length updated.inferred == 0 && not c.reset
    then some (put_ruled r o (reset_inferences updated))
    else if set_length updated.possible == 1
    then note_certain (put_ruled r o updated) o updated
    else some (put_ruled r o updated)

-- The guard of `perform_elim`.
unfoldable pub is_left : State → Thoughts → Identity → ℕ → Card → Option Bool
unfolding is_copy has
is_left st thoughts id o c = some (not (has c.possible id)) ||? is_copy st thoughts id o

-- The body of the loop of `perform_elim`.
unfoldable pub elim_card : State → Identity → ℕ → Ruling → Option Ruling
unfolding is_left rule_out
elim_card st id o r = do
  c ← thought_at r.knowledge.thoughts o
  left ← is_left st r.knowledge.thoughts id o c
  if left then some r else rule_out id o c r

unfoldable pub elim_cards : State → Identity → List ℕ → Ruling → Option Ruling
unfolding elim_card
elim_cards st id [] r = some r
elim_cards st id (o ∷ os) r = do r' ← elim_card st id o r; elim_cards st id os r'

unfoldable pub perform_elim : State → Identity → List ℕ → Ruling → Option Ruling
unfolding elim_cards
perform_elim st id hand r = do
  r' ← elim_cards st id hand r
  let candidates =
      filter (λ (e : Entry). not (includes_order r'.removals e.order)) r'.knowledge.candidates
  some (record r' { knowledge = record r'.knowledge { candidates = candidates } })

pub record Count : Type 0 where
  pub total : ℕ
  pub holders : List ℕ

-- The loop that counts the copies, from player `i` on.
unfoldable pub count_holders :
    State → Thoughts → Identity → (i : ℕ) → List (List ℕ) → Count → Option Count
unfolding is_copy filter?
count_holders st thoughts id i [] n = some n
count_holders st thoughts id i (hand ∷ hands) n = do
  found ← filter? (is_copy st thoughts id) hand
  count_holders st thoughts id (i + 1) hands (record {
    total = n.total + length found;
    holders = if length found == 0 then n.holders else n.holders ++ i ∷ [];
  })

-- The loop that adds the players of whose hand a card is not identified.
unfoldable pub add_unidentified :
    State → Thoughts → (i : ℕ) → List (List ℕ) → List ℕ → Option (List ℕ)
unfolding is_unidentified some?
add_unidentified st thoughts i [] holders = some holders
add_unidentified st thoughts i (hand ∷ hands) holders = do
  open_card ← some? (is_unidentified st thoughts) hand
  add_unidentified st thoughts (i + 1) hands (if open_card then holders ++ i ∷ [] else holders)

unfoldable pub holders_of : State → Thoughts → Identity → Option (List ℕ)
unfolding count_holders add_unidentified base_count card_count
holders_of st thoughts id = do
  n ← count_holders st thoughts id 0 st.hands (record { total = base_count st id; holders = [] })
  if n.total == card_count st id
      then some n.holders
      else add_unidentified st thoughts 0 st.hands n.holders

-- The loop that rules the identity out for those who do not hold it.
unfoldable pub elim_others :
    State → Identity → List ℕ → (i : ℕ) → List (List ℕ) → Ruling → Option Ruling
unfolding perform_elim
elim_others st id holders i [] r = some r
elim_others st id holders i (hand ∷ hands) r = do
  r' ← if includes_order holders i then some r else perform_elim st id hand r
  elim_others st id holders (i + 1) hands r'

unfoldable pub endgame_ids : State → List Identity → Ruling → Option Ruling
unfolding holders_of elim_others
endgame_ids st [] r = some r
endgame_ids st (id ∷ ids) r = do
  holders ← holders_of st r.knowledge.thoughts id
  r' ← elim_others st id holders 0 st.hands r
  endgame_ids st ids r'

-- `is_common` is `this.playerIndex === -1`.
unfoldable pub endgame_elim :
    State → (is_common : Bool) → List Identity → Knowledge → Option Knowledge
unfolding endgame_ids
endgame_elim st is_common ids k = elim (ltb_ℤ (pos 0) st.cards_left || not is_common) [
  | true ↦ some k
  | false ↦ do r ← endgame_ids st ids (record { knowledge = k; removals = [] }); some r.knowledge
]
