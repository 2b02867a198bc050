-- ===== src/Player/Links.antt =====
-- find_links of basics/player-elim.js: links are groups of cards that share their inferences. `none` is
-- a run that throws. Logging is left out.
pub mod Refresh
pub mod Group
pub mod Total
use hanabi_bot.Base.{
  ℕ, ◌+◌, Bool, true, false, not, ◌&&◌, ◌||◌, List, [], ◌∷◌, ◌++◌, Option, none, some, ◌==◌, ltb,
  leb, if◌then◌else◌, length, get_elem?, set, some_of, every,
}
use hanabi_bot.Base.Int.{ℤ, pos, negsuc, eq_ℤ}
use hanabi_bot.Base.Fallible.{filter?, some?}
use hanabi_bot.Identity.{Identity, matches as same_identity}
use hanabi_bot.IdentitySet.{
  IdentitySet, Argument, has, array, intersect, subtract, union, equals, one, set as of_set,
  length as set_length,
}
use hanabi_bot.State.{State, is_basic_trash}
use hanabi_bot.Basics.{◌>>=◌}
use hanabi_bot.Card.{Card, identity, reset_inferences}
use hanabi_bot.Thoughts.{Thoughts, thought_at, includes_order}
use hanabi_bot.Player.{Player, Link, no_options, orders_of, flat}
use hanabi_bot.Player.Playables.{every_id, some_id}

unfoldable pub is_identified : Card → Bool
unfolding identity
is_identified c = elim (identity c no_options) [ none ↦ false | some id ↦ true ]

-- The producer that gives a card new inferences, or resets it if none are left.
unfoldable pub with_inferred : Card → IdentitySet → Card
unfolding reset_inferences set_length
with_inferred c ids =
    if set_length ids == 0 && not c.reset then reset_inferences c else record c { inferred = ids }

-- The only focused card of a link of one identity has it, and the others do not.
unfoldable pub settle_focus : (focused : ℕ) → Identity → List ℕ → Thoughts → Option Thoughts
unfolding with_inferred intersect subtract
settle_focus focused id [] ts = some ts
settle_focus focused id (o ∷ os) ts = do
  c ← thought_at ts o
  let new_inferred =
      if o == focused then intersect c.inferred (one id) else subtract c.inferred (one id)
  settle_focus focused id os (set ts o (some (with_inferred c new_inferred)))

abbrev pub is_focused : Thoughts → ℕ → Option Bool
is_focused ts o = do c ← thought_at ts o; some c.focused

-- The guard of `find_links`: the card is in no group that could be a link.
unfoldable pub is_unlinkable : State → (linked : List ℕ) → ℕ → Card → Bool
unfolding is_identified every_id is_basic_trash set_length
is_unlinkable st linked o c =
    includes_order linked o
    || is_identified c
    || set_length c.inferred == 0
    || ltb 3 (set_length c.inferred)
    || every_id (is_basic_trash st) c.inferred

unfoldable pub shares_inferences : Thoughts → IdentitySet → ℕ → Option Bool
unfolding equals
shares_inferences ts ids o = do c ← thought_at ts o; some (equals ids (of_set c.inferred))

-- The variables of the loop of `find_links`: `thoughts` are those of `newPlayer`.
pub record LinkSearch : Type 0 where
  pub thoughts : Thoughts
  pub links : List Link
  pub linked_orders : List ℕ

-- A link, if there are enough cards for the identities.
unfoldable pub add_link : (orders : List ℕ) → IdentitySet → LinkSearch → LinkSearch
unfolding array set_length
add_link orders ids s =
    if leb (set_length ids) (length orders)
    then record s {
      links =
          s.links
          ++ record { orders = orders; identities = array ids; promised = false; target = none }
            ∷ [];
      linked_orders = s.linked_orders ++ orders;
    }
    else s

-- What the loop does with the cards `orders` that share the inferences `ids`, by those that are
-- focused.
unfoldable pub focus_group :
    (focused_orders orders : List ℕ) → IdentitySet → LinkSearch → Option LinkSearch
unfolding settle_focus add_link array set_length
focus_group [] orders ids s = some (add_link orders ids s)
focus_group (focused ∷ []) orders ids s =
    if set_length ids == 1
    then (do
      id ← get_elem? (array ids) 0
      ts ← settle_focus focused id orders s.thoughts
      some (record s { thoughts = ts }))
    else some (add_link orders ids s)
focus_group (f ∷ g ∷ fs) orders ids s = some (add_link orders ids s)

unfoldable pub link_group :
    (old : Thoughts) → (orders : List ℕ) → IdentitySet → LinkSearch → Option LinkSearch
unfolding filter? focus_group
link_group old orders ids s = do
  focused_orders ← filter? (is_focused old) orders
  focus_group focused_orders orders ids s

unfoldable pub link_card :
    State → (old : Thoughts) → (hand : List ℕ) → ℕ → LinkSearch → Option LinkSearch
unfolding is_unlinkable filter? shares_inferences link_group
link_card st old hand o s = do
  c ← thought_at old o
  if is_unlinkable st s.linked_orders o c then some s else do
    orders ← filter? (shares_inferences old c.inferred) hand
    if length orders == 1 then some s else link_group old orders c.inferred s

unfoldable pub link_cards :
    State → (old : Thoughts) → (hand os : List ℕ) → LinkSearch → Option LinkSearch
unfolding link_card
link_cards st old hand [] s = some s
link_cards st old hand (o ∷ os) s = do s' ← link_card st old hand o s; link_cards st old hand os s'

-- `find_links` for one hand.
unfoldable pub find_links_in : State → Player → (hand : List ℕ) → Option Player
unfolding link_cards
find_links_in st p hand = do
  s ←
      link_cards st p.thoughts hand hand
        (record { thoughts = p.thoughts; links = []; linked_orders = orders_of p.links })
  some (record p { thoughts = s.thoughts; links = p.links ++ s.links })

unfoldable pub find_links_each : State → List (List ℕ) → Player → Option Player
unfolding find_links_in
find_links_each st [] p = some p
find_links_each st (hand ∷ hands) p = do p' ← find_links_in st p hand; find_links_each st hands p'

-- `find_links(state)`: in the own hand, or in every hand for common knowledge.
unfoldable pub find_links : State → Player → Option Player
unfolding find_links_in find_links_each
find_links st p = elim p.player_index [
  | pos i ↦ do hand ← get_elem? st.hands i; find_links_in st p hand
  | negsuc i ↦ find_links_each st st.hands p
]
