-- ===== src/Player.antt =====
-- Class Player of basics/Player.js: what a player, or everyone (`player_index` -1), thinks of the
-- cards of all hands. A set of orders is a list of them, which is only asked for members, or gets a
-- member that it does not have. The patches that a player records for the others, JSON and copies are
-- left out. `none` is a run that throws, as a read of an order without a card does.
pub mod Playables
pub mod Bind
pub mod Safe
pub mod Hypo
pub mod Links
use hanabi_bot.Base.{
  ℕ, zero, suc, ◌+◌, ◌-◌, Bool, true, false, not, ◌&&◌, List, [], ◌∷◌, ◌++◌, Option, none, some,
  ◌==◌, if◌then◌else◌, length, get_elem?, filter, some_of, every, ltb, leb, sum,
}
use hanabi_bot.Base.Int.{ℤ, pos, negsuc, eq_ℤ, ltb_ℤ, ◌-ℤ◌, ◌+ℤ◌, pos_part}
use hanabi_bot.Base.Fallible.{filter?}
use hanabi_bot.Identity.{Identity, is_unknown}
use hanabi_bot.IdentitySet.{IdentitySet}
use hanabi_bot.State.{State, ActualCard, card_at, at_suit, base_count, card_count}
use hanabi_bot.Basics.{◌>>=◌, set_suit}
use hanabi_bot.Card.{Card, MatchOptions, matches}
use hanabi_bot.Thoughts.{Thoughts, thought_at, includes_order}

-- The fields of the types Link, Connection and WaitingConnection that this class reads.
pub record Link : Type 0 where
  pub orders : List ℕ
  pub identities : List Identity
  pub promised : Bool
  pub target : Option ℕ

pub record Connection : Type 0 where
  pub order : ℕ
  pub identities : List Identity

pub record WaitingConnection : Type 0 where
  pub connections : List Connection
  pub target : ℕ
  pub conn_index : ℕ
  pub focus : ℕ
  pub inference : Identity
  pub symmetric : Bool

-- Orders that play together before another one does.
pub record PlayLink : Type 0 where
  pub orders : List ℕ
  pub connected : ℕ

pub record Player : Type 0 where
  pub player_index : ℤ
  pub thoughts : Thoughts
  pub links : List Link
  pub play_links : List PlayLink
  pub hypo_stacks : List ℕ
  pub hypo_plays : List ℕ
  -- By suit and rank, the order of the card that is played.
  pub hypo_map : List (List (Option ℕ))
  pub all_possible : IdentitySet
  pub all_inferred : IdentitySet
  pub unknown_plays : List ℕ
  pub waiting_connections : List WaitingConnection
  -- The orders that an identity was removed from.
  pub elims : List (Identity × List ℕ)

abbrev pub no_options : MatchOptions
no_options = record { infer = false; symmetric = false; assume = false }

-- The orders of all hands, `state.hands.flat()`.
abbrev pub flat {ℓ} : {A : Type ℓ} → List (List A) → List A
flat [] = []
flat (xs ∷ xss) = xs ++ flat xss

-- `deck[o].matches(id, { assume })`.
abbrev pub deck_matches : ActualCard → Identity → Bool → Bool
deck_matches c id assume =
    if is_unknown c.id then assume else eq_ℤ c.id.suit_index id.suit_index && eq_ℤ c.id.rank id.rank

-- `unknownIdentities` of hanabi-util.js.
abbrev thought_matches : Player → Identity → ℕ → Option Bool
thought_matches p id o = do c ← thought_at p.thoughts o; some (matches c id no_options)

unfoldable pub unknown_identities : State → Player → Identity → Option ℤ
unfolding matches filter? ◌-ℤ◌ base_count card_count
unknown_identities st p id = do
  visible ← filter? (thought_matches p id) (flat st.hands)
  some (pos (card_count st id) -ℤ pos (base_count st id) -ℤ pos (length visible))

-- The sum over the identities of a link.
unfoldable pub total_unknown : State → Player → List Identity → Option ℤ
unfolding unknown_identities ◌+ℤ◌
total_unknown st p [] = some (pos 0)
total_unknown st p (id ∷ ids) = do
  n ← unknown_identities st p id
  rest ← total_unknown st p ids
  some (n +ℤ rest)

-- `link.orders.length` exceeds the copies of its identities that are still unknown.
unfoldable pub is_unknown_link : State → Player → Link → Option Bool
unfolding total_unknown
is_unknown_link st p link = do
  total ← total_unknown st p link.identities
  some (ltb_ℤ total (pos (length link.orders)))

abbrev pub orders_of : List Link → List ℕ
orders_of [] = []
orders_of (l ∷ ls) = l.orders ++ orders_of ls

unfoldable pub linked_orders : State → Player → Option (List ℕ)
unfolding is_unknown_link filter?
linked_orders st p = do
  unknown_links ← filter? (is_unknown_link st p) p.links
  some (orders_of unknown_links)

-- The connections of `wc` from `conn_index` on that use `order`: those after the first `skip`.
unfoldable pub depending : ℕ → ℕ → List Connection → List Connection
depending order skip [] = []
depending order zero (c ∷ cs) =
    let rest = depending order zero cs in if c.order == order then c ∷ rest else rest
depending order (suc skip) (c ∷ cs) = depending order skip cs

abbrev pub depends_on : ℕ → WaitingConnection → Bool
unfolding depending
depends_on order wc = not (length (depending order wc.conn_index wc.connections) == 0)

unfoldable pub dependent_connections : Player → ℕ → List WaitingConnection
unfolding depending
dependent_connections p order = filter (depends_on order) p.waiting_connections

unfoldable pub hypo_score : Player → ℕ
unfolding sum
hypo_score p = sum p.hypo_stacks + length p.unknown_plays

-- The stack of a suit, where an index outside the array gives `undefined`.
abbrev pub stack_of : List ℕ → ℤ → Option ℕ
stack_of stacks (pos s) = get_elem? stacks s
stack_of stacks (negsuc s) = none

unfoldable pub undo_hypo_stacks : Player → Identity → Player
undo_hypo_stacks p id = record p {
  hypo_stacks = set_suit p.hypo_stacks id.suit_index (
      if ltb (at_suit p.hypo_stacks id.suit_index 0) (pos_part id.rank - 1)
      then at_suit p.hypo_stacks id.suit_index 0
      else pos_part id.rank - 1);
}
