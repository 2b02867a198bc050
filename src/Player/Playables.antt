-- ===== src/Player/Playables.antt =====
-- Player.thinksPlayables, thinksTrash, thinksLoaded and thinksLocked of basics/Player.js, which throw
-- for an index without a hand. A state's
-- `hasConsistentInferences` is that of basics/State.js.
use hanabi_bot.Base.{
  ℕ, ◌+◌, Bool, true, false, not, ◌&&◌, ◌||◌, List, [], ◌∷◌, Option, none, some, ◌==◌,
  if◌then◌else◌, length, get_elem?, filter, some_of, every,
}
use hanabi_bot.Base.Int.{pos, negsuc, eq_ℤ, ltb_ℤ}
use hanabi_bot.Base.Fallible.{filter?, some?, every?, ◌&&?◌, ◌||?◌, not?}
use hanabi_bot.Identity.{Identity, is_unknown}
use hanabi_bot.IdentitySet.{IdentitySet, has, array, length as set_length}
use hanabi_bot.State.{State, card_at, at_suit, is_basic_trash, is_playable, rank_le}
use hanabi_bot.Basics.{◌>>=◌}
use hanabi_bot.Card.{Card, matches, possibilities, saved, blind_playing, has_status, is_chop_moved}
use hanabi_bot.Thoughts.{thought_at, includes_order}
use hanabi_bot.Player.{
  Player, Link, Connection, WaitingConnection, flat, deck_matches, linked_orders, depending,
  depends_on,
}

-- `ids.every(test)`, `ids.some(test)` on a set.
unfoldable pub every_id : (Identity → Bool) → IdentitySet → Bool
unfolding array
every_id test ids = every test (array ids)

unfoldable pub some_id : (Identity → Bool) → IdentitySet → Bool
unfolding array
some_id test ids = some_of test (array ids)

unfoldable pub has_consistent_inferences : State → Card → Option Bool
unfolding has set_length
has_consistent_inferences st c = do
  actual ← card_at st c.actual.order
  some (is_unknown actual.id || set_length c.possible == 1 || has c.inferred actual.id)

-- The options `assume`, which is true if it is not given, and `symmetric`.
pub record PlayableOptions : Type 0 where
  pub assume : Bool
  pub symmetric : Bool

-- Whether `id` is of a rank that is above the next one and can still be reached.
abbrev pub is_later : State → Identity → Bool
is_later st id =
    ltb_ℤ (pos (at_suit st.play_stacks id.suit_index 0 + 1)) id.rank
    && rank_le id.rank (at_suit st.max_ranks id.suit_index 0)

-- `Array.from(linked_orders).some(o2 => this.thoughts[o].focused && o2 !== o)`.
abbrev focused_other : (linked : List ℕ) → ℕ → Card → Bool
focused_other linked o c = some_of (λ o2. c.focused && not (o2 == o)) linked

unfoldable pub unsafe_linked : State → (linked : List ℕ) → ℕ → Card → Bool
unfolding some_id
unsafe_linked st linked o c =
    includes_order linked o
    && (st.strikes == 2
        || not (eq_ℤ st.endgame_turns (negsuc 0))
        || some_id (is_later st) c.possible
        || focused_other linked o c)

abbrev is_trash_or_playable : State → Identity → Bool
unfolding is_basic_trash is_playable
is_trash_or_playable st id = is_basic_trash st id || is_playable st id

abbrev all_playable : State → IdentitySet → Bool
unfolding every_id some_id is_trash_or_playable is_playable
all_playable st ids = every_id (is_trash_or_playable st) ids && some_id (is_playable st) ids

unfoldable pub known_playable : State → Player → Card → Bool
unfolding all_playable
known_playable st p c =
    all_playable st c.possible
    || (c.focused
        && elim c.info_lock [ none ↦ false | some lock ↦ all_playable st lock ]
        && not (
            some_of (λ (wc : WaitingConnection). wc.focus == c.actual.order) p.waiting_connections))

-- Not a symmetric connection when these are our own playables.
abbrev is_considered : State → (player_index : ℕ) → WaitingConnection → Bool
is_considered st i wc = not (i == st.our_player && wc.symmetric)

abbrev is_unplayable_target : State → ℕ → Card → WaitingConnection → Bool
unfolding is_playable has
is_unplayable_target st o c wc =
    wc.focus == o && not (is_playable st wc.inference) && has c.possible wc.inference

-- The first connection that uses the card has an identity that is possible and not playable.
abbrev has_unplayable : State → ℕ → Card → WaitingConnection → Bool
unfolding is_playable has depending
has_unplayable st o c wc = elim (depending o wc.conn_index wc.connections) [
  | [] ↦ false
  | conn ∷ _ ↦
      some_of (λ (i : Identity). not (is_playable st i) && has c.possible i) conn.identities
]

-- Another connection with the same focus does not use the card; `wc` itself uses it.
abbrev is_replaceable : Player → ℕ → WaitingConnection → Bool
is_replaceable p o wc =
    some_of
      (λ (wc2 : WaitingConnection).
        wc2.focus == wc.focus
        && every (λ (conn : Connection). not (conn.order == o)) wc2.connections)
      p.waiting_connections

unfoldable pub conflicting_conn : State → Player → (player_index : ℕ) → ℕ → Card → Bool
unfolding is_unplayable_target has_unplayable depends_on
conflicting_conn st p i o c =
    let considered = filter (is_considered st i) p.waiting_connections in
    let dependents = filter (depends_on o) considered in
    some_of (is_unplayable_target st o c) considered
    || some_of (has_unplayable st o c) dependents
    || (not (length dependents == 0) && every (is_replaceable p o) dependents)

-- The possibilities are playable; those of a chop-moved card may also be trash.
unfoldable pub seems_playable : State → Card → Bool
unfolding some_id is_basic_trash is_playable possibilities
seems_playable st c =
    every_id
      (λ id. (has_status is_chop_moved c.status && is_basic_trash st id) || is_playable st id)
      (possibilities c)
    && some_id (is_playable st) (possibilities c)

-- The test of `thinksPlayables` on one card.
unfoldable pub is_playable_card :
    State → Player → (player_index : ℕ) → PlayableOptions → (linked : List ℕ) → ℕ → Option Bool
unfolding every_id some_id unsafe_linked known_playable conflicting_conn seems_playable
    has_consistent_inferences is_basic_trash is_playable
is_playable_card st p i options linked o = do
  c ← thought_at p.thoughts o
  if c.trash && not (every_id (λ id. not (is_basic_trash st id)) c.possible)
      then some false
      else if c.assume_playable && some_id (is_playable st) c.possible
      then some true
      else if unsafe_linked st linked o c
      then some false
      else some (seems_playable st c)
        &&? some (
            options.assume
            || known_playable st p c
            || ((not c.uncertain || i == st.our_player) && not (conflicting_conn st p i o c)))
        &&? (some options.symmetric ||? has_consistent_inferences st c)

unfoldable pub thinks_playables : State → Player → ℕ → PlayableOptions → Option (List ℕ)
unfolding linked_orders is_playable_card filter?
thinks_playables st p i options = do
  linked ← linked_orders st p
  hand ← get_elem? st.hands i
  filter? (is_playable_card st p i options linked) hand

-- The test of `visible_elsewhere` on the card of order `o`.
unfoldable pub is_visible_copy : State → Player → Identity → ℕ → ℕ → Option Bool
unfolding matches blind_playing
is_visible_copy st p id order o = do
  c ← thought_at p.thoughts o
  if not (matches c id (record { infer = true; symmetric = false; assume = false }))
      then some false
      else do
        actual ← card_at st o
        some (
            deck_matches actual id true
            && (actual.clued || (blind_playing c && not c.uncertain))
            && not (o == order)
            && not (some_of (λ (l : Link). includes_order l.orders order) p.links))

unfoldable pub visible_elsewhere : State → Player → Identity → ℕ → Option Bool
unfolding is_visible_copy some?
visible_elsewhere st p id order = some? (is_visible_copy st p id order) (flat st.hands)

-- The test of `thinksTrash` on one card.
unfoldable pub is_trash_card : State → Player → ℕ → Option Bool
unfolding visible_elsewhere every? possibilities array is_basic_trash
is_trash_card st p o = do
  c ← thought_at p.thoughts o
  if c.trash
      then some true
      else every? (λ id. some (is_basic_trash st id) ||? visible_elsewhere st p id o)
          (array (if c.uncertain then c.possible else possibilities c))

unfoldable pub thinks_trash : State → Player → ℕ → Option (List ℕ)
unfolding is_trash_card filter?
thinks_trash st p i = do hand ← get_elem? st.hands i; filter? (is_trash_card st p) hand

unfoldable pub thinks_loaded : State → Player → ℕ → PlayableOptions → Option Bool
unfolding thinks_playables thinks_trash
thinks_loaded st p i options =
    (do playables ← thinks_playables st p i options; some (not (length playables == 0)))
    ||? (do trash ← thinks_trash st p i; some (not (length trash == 0)))

-- A connection of the player that still waits for the order and cannot be made now.
unfoldable pub in_waiting : State → Player → (player_index : ℕ) → ℕ → Bool
unfolding depending is_playable
in_waiting st p i o =
    some_of
      (λ (wc : WaitingConnection).
        wc.target == i
        && some_of
            (λ (conn : Connection).
              some_of (λ (id : Identity). not (is_playable st id)) conn.identities)
            (depending o wc.conn_index wc.connections))
      p.waiting_connections

unfoldable pub thinks_locked : State → Player → ℕ → (symmetric : Bool) → Option Bool
unfolding saved in_waiting every? thinks_loaded
thinks_locked st p i symmetric = do
  hand ← get_elem? st.hands i
  every? (λ o. do c ← thought_at p.thoughts o; some (saved c || (symmetric && in_waiting st p i o)))
        hand
      &&? not? (thinks_loaded st p i (record { assume = true; symmetric = false }))
