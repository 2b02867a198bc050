-- ===== src/Player/Hypo.antt =====
-- Player.update_hypo_stacks of basics/Player.js: the stacks as they will be when every card that the
-- player can tell to be playable has been played. The loop `while (found_new_playable)` is given as
-- many rounds as there are cards in the hands, and one more. The hands are those of all players.
pub mod Steps
pub mod Rounds
pub mod Total
use hanabi_bot.Base.{
  ℕ, zero, suc, ◌+◌, Bool, true, false, not, ◌&&◌, ◌||◌, List, [], ◌∷◌, ◌++◌, Option, none, some,
  ◌==◌, ltb, if◌then◌else◌, length, get_elem?, get_or, filter, some_of, every, map, replicate, take,
}
use hanabi_bot.Base.Int.{ℤ, pos, negsuc, eq_ℤ, pos_part}
use hanabi_bot.Base.Fallible.{filter?, ◌&&?◌}
use hanabi_bot.Identity.{Identity, is_unknown, matches as same_identity}
use hanabi_bot.IdentitySet.{IdentitySet, make, has, array, subtract, union, one, array_of}
use hanabi_bot.State.{State, ActualCard, card_at, at_suit, card_count}
use hanabi_bot.Basics.{◌>>=◌, set_suit, assign}
use hanabi_bot.Card.{Card, MatchOptions, identity, saved, blind_playing}
use hanabi_bot.Thoughts.{thought_at, includes_order}
use hanabi_bot.Player.{
  Player, Link, PlayLink, WaitingConnection, flat, deck_matches, linked_orders, stack_of,
  hypo_score,
}
use hanabi_bot.Player.Playables.{has_consistent_inferences}

-- The variables of `update_hypo_stacks`.
pub record Hypo : Type 0 where
  pub stacks : List ℕ
  pub unknown_plays : List ℕ
  pub already_played : List ℕ
  pub card_map : List (List (Option ℕ))
  pub good_touch_elim : IdentitySet
  pub duplicated_plays : List (Identity × List ℕ)
  pub found_new_playable : Bool

-- `hypo_stacks[id.suitIndex] + 1 === id.rank`.
abbrev pub is_next : List ℕ → Identity → Bool
is_next stacks id = elim (stack_of stacks id.suit_index) [
  | none ↦ false
  | some n ↦ eq_ℤ (pos (n + 1)) id.rank
]

unfoldable pub delayed_playable : Hypo → List Identity → Bool
unfolding has
delayed_playable h poss =
    let remaining = filter (λ (c : Identity). not (has h.good_touch_elim c)) poss in
    not (length remaining == 0) && every (is_next h.stacks) remaining

-- A connection to the card whose inference the deck contradicts.
abbrev is_fake : State → ℕ → WaitingConnection → Option Bool
is_fake st o wc =
    if wc.focus == o
    then (do actual ← card_at st o; some (not (deck_matches actual wc.inference true)))
    else some false

unfoldable pub is_hypo_playable : State → Player → Hypo → ℕ → Card → Option Bool
unfolding filter? delayed_playable has_consistent_inferences array subtract blind_playing
is_hypo_playable st p h o c = do
  fake_wcs ← filter? (is_fake st o) p.waiting_connections
  has_consistent_inferences st c
      &&? some (
          delayed_playable h (array c.possible)
          || delayed_playable h (
              array (
                subtract c.inferred
                  (array_of (map (λ (wc : WaitingConnection). wc.inference) fake_wcs))))
          || (blind_playing c && delayed_playable h (c.actual.id ∷ []))
          || some_of
              (λ (pl : PlayLink).
                pl.connected == o && every (includes_order h.unknown_plays) pl.orders)
              p.play_links)

abbrev is_common : Player → Bool
is_common p = eq_ℤ p.player_index (negsuc 0)

-- Another card of the deck that is `id`.
abbrev is_other_copy : Identity → ℕ → Option ActualCard → Bool
is_other_copy id o none = false
is_other_copy id o (some a) = deck_matches a id false && not (a.order == o)

-- Common knowledge may not put a card on the stacks whose other copies are all in the deck, or that
-- is none of its inferences.
unfoldable pub is_false_update : State → Player → ℕ → Card → Option Identity → ActualCard → Bool
unfolding has card_count
is_false_update st p o c id actual =
    is_common p
    && (elim id [
      | none ↦ false
      | some i ↦ length (filter (is_other_copy i o) st.deck) == card_count st i
    ]
        || (not (is_unknown actual.id) && not (has c.inferred actual.id)))

-- The first unknown play that is of identity `id`; the card of each of them has been read.
unfoldable pub find_existing : State → Identity → List ℕ → Option ℕ
find_existing st id [] = none
find_existing st id (o ∷ os) =
    let rest = find_existing st id os in
    elim (card_at st o) [ none ↦ rest | some a ↦ if deck_matches a id false then some o else rest ]

unfoldable pub existing_play : State → Player → Hypo → ActualCard → Option ℕ
unfolding find_existing
existing_play st p h actual =
    if is_common p && not (is_unknown actual.id)
    then find_existing st actual.id h.unknown_plays
    else none

unfoldable pub add_duplicate :
    Identity → (existing order : ℕ) → List (Identity × List ℕ) → List (Identity × List ℕ)
unfolding same_identity
add_duplicate id existing o [] = (id, existing ∷ o ∷ []) ∷ []
add_duplicate id existing o ((key, os) ∷ rest) =
    let later = add_duplicate id existing o rest in
    if same_identity key id then (key, os ++ o ∷ []) ∷ rest else (key, os) ∷ later

-- `hypo_stacks[suitIndex] = rank; good_touch_elim = good_touch_elim.union(id)`.
unfoldable pub raise_stack : Identity → Hypo → Hypo
unfolding union
raise_stack id h = record h {
  stacks = set_suit h.stacks id.suit_index (pos_part id.rank);
  good_touch_elim = union h.good_touch_elim (one id);
}

-- The cards of the promised links that are now fulfilled.
unfoldable pub play_links_on : List Link → Hypo → Option Hypo
unfolding raise_stack
play_links_on [] h = some h
play_links_on (l ∷ ls) h = do
  id ← get_elem? l.identities 0
  play_links_on ls (if is_next h.stacks id then raise_stack id h else h)

abbrev is_fulfilled : List ℕ → ℕ → Link → Bool
is_fulfilled unknown o l =
    l.promised && includes_order l.orders o && every (includes_order unknown) l.orders

-- A playable card whose identity the player does not know.
unfoldable pub play_unknown : Player → ℕ → Hypo → Option Hypo
unfolding play_links_on
play_unknown p o h =
    let unknown = h.unknown_plays ++ o ∷ [] in
    play_links_on (filter (is_fulfilled unknown o) p.links) (record h {
      unknown_plays = unknown;
      already_played = h.already_played ++ o ∷ [];
      found_new_playable = true;
    })

unfoldable pub play_known : ℕ → Identity → Hypo → Hypo
unfolding raise_stack assign
play_known o id h =
    if is_next h.stacks id
    then record (raise_stack id h) {
      found_new_playable = true;
      already_played = h.already_played ++ o ∷ [];
      card_map =
          set_suit h.card_map id.suit_index
            (assign (at_suit h.card_map id.suit_index []) (pos_part id.rank) o);
    }
    else h

-- The guard that skips a card.
unfoldable pub is_skipped : (linked : List ℕ) → Hypo → ℕ → Card → Bool
unfolding saved has
is_skipped linked h o c =
    not (saved c)
    || has h.good_touch_elim c.actual.id
    || includes_order linked o
    || includes_order h.unknown_plays o
    || includes_order h.already_played o

-- What is done with a card that is playable.
unfoldable pub play_card : State → Player → (player_index : ℕ) → ℕ → Card → Hypo → Option Hypo
unfolding identity is_false_update existing_play add_duplicate play_unknown play_known
play_card st p i o c h = do
  actual ← card_at st o
  let id : Option Identity =
      identity c (record { infer = true; symmetric = eq_ℤ p.player_index (pos i); assume = false })
  if is_false_update st p o c id actual then some h else elim (existing_play st p h actual) [
    | some existing ↦
        some (record h { duplicated_plays = add_duplicate actual.id existing o h.duplicated_plays })
    | none ↦ elim id [ none ↦ play_unknown p o h | some known ↦ some (play_known o known h) ]
  ]

-- The body of the loops, for the card `o` of player `i`.
unfoldable pub try_card :
    State
    → Player
    → (ignore : Option (List ℕ)) → (linked : List ℕ) → (player_index : ℕ) → ℕ
    → Hypo
    → Option Hypo
unfolding is_skipped is_hypo_playable play_card
try_card st p ignore linked i o h =
    if elim ignore [ none ↦ false | some os ↦ includes_order os o ] then some h else do
      c ← thought_at p.thoughts o
      if is_skipped linked h o c then some h else do
        playable ← is_hypo_playable st p h o c
        if playable then play_card st p i o c h else some h

unfoldable pub try_hand :
    State
    → Player
    → (ignore : Option (List ℕ)) → (linked : List ℕ) → (player_index : ℕ) → List ℕ
    → Hypo
    → Option Hypo
unfolding try_card
try_hand st p ignore linked i [] h = some h
try_hand st p ignore linked i (o ∷ os) h = do
  h' ← try_card st p ignore linked i o h
  try_hand st p ignore linked i os h'

unfoldable pub try_hands :
    State
    → Player
    → (ignore : Option (List ℕ)) → (linked : List ℕ) → (player_index : ℕ) → List (List ℕ)
    → Hypo
    → Option Hypo
unfolding try_hand
try_hands st p ignore linked i [] h = some h
try_hands st p ignore linked i (hand ∷ hands) h = do
  h' ← try_hand st p ignore linked i hand h
  try_hands st p ignore linked (i + 1) hands h'

unfoldable pub rounds :
    State → Player → (ignore : Option (List ℕ)) → (linked : List ℕ) → (n : ℕ) → Hypo → Option Hypo
unfolding try_hands
rounds st p ignore linked zero h = some h
rounds st p ignore linked (suc n) h = do
  h' ← try_hands st p ignore linked 0 st.hands (record h { found_new_playable = false })
  if h'.found_new_playable then rounds st p ignore linked n h' else some h'

unfoldable pub start_hypo : State → Hypo
unfolding make
start_hypo st = record {
  stacks = st.play_stacks;
  unknown_plays = [];
  already_played = [];
  card_map = replicate (length st.variant.suits) [];
  good_touch_elim = make (length st.variant.suits) (some 0);
  duplicated_plays = [];
  found_new_playable = true;
}

unfoldable pub hypo_run : State → Player → (ignore : Option (List ℕ)) → Option Hypo
unfolding linked_orders rounds start_hypo
hypo_run st p ignore = do
  linked ← linked_orders st p
  rounds st p ignore linked (length (flat st.hands) + 1) (start_hypo st)

unfoldable pub with_hypo : Player → Hypo → Player
with_hypo p h = record p {
  hypo_stacks = h.stacks;
  unknown_plays = h.unknown_plays;
  hypo_plays = h.already_played;
  hypo_map = h.card_map;
}

-- The orders of one duplicated play are ignored one after the other.
unfoldable pub ignore_each :
    State → Player → (ignore orders : List ℕ) → (best : Player) → Option Player
unfolding hypo_run with_hypo hypo_score
ignore_each st p ignore [] best = some best
ignore_each st p ignore (o ∷ os) best = do
  h ← hypo_run st p (some (ignore ++ o ∷ []))
  let new_player = with_hypo p h
  ignore_each st p (ignore ++ o ∷ []) os
      (if ltb (hypo_score best) (hypo_score new_player) then new_player else best)

unfoldable pub ignore_all :
    State → Player → List (Identity × List ℕ) → (best : Player) → Option Player
unfolding ignore_each
ignore_all st p [] best = some best
ignore_all st p ((id, orders) ∷ rest) best = do
  better ← ignore_each st p (take 1 orders) orders best
  ignore_all st p rest better

unfoldable pub update_hypo_stacks : State → Player → Option Player
unfolding hypo_run with_hypo ignore_all
update_hypo_stacks st p = do
  h ← hypo_run st p none
  ignore_all st p h.duplicated_plays (with_hypo p h)
