-- ===== src/State.antt =====
-- basics/State.js: the public state of a game, and class ActualCard of basics/Card.js, the cards of
-- its deck. The list `actionList`, the players' names and the copies of a state (`shallowCopy`,
-- `minimalCopy`, `fromJSON`), which have no effect on values that never change, are left out.
pub mod WellFormed
pub mod Trash
pub mod Start
use hanabi_bot.Base.{
  ℕ, zero, suc, ◌+◌, ◌-◌, ◌*◌, ◌%◌, ◌≤◌, ◌<◌, Bool, true, false, not, ◌&&◌, ◌||◌, List, [], ◌∷◌,
  ◌++◌, Option, none, some, ◌==◌, ltb, leb, if◌then◌else◌, filter, length, sum, get_or, get_elem?,
  replicate, map, arith,
}
use hanabi_bot.Base.Fallible.{filter?}
use hanabi_bot.Base.Int.{ℤ, pos, negsuc, ◌+ℤ◌, ◌-ℤ◌, ◌*ℤ◌, eq_ℤ, ltb_ℤ, leb_ℤ}
use hanabi_bot.Identity.{Identity, card, is_unknown, identity, matches}
use hanabi_bot.IdentitySet.{IdentitySet, make}
use hanabi_bot.IdentitySet
use hanabi_bot.Variants.{
  Variant, ClueType, BaseClue, Clue, card_count as variant_card_count, card_touched,
  colourable_suits, colour, rank, is_rank, at_rank,
}

pub record CardClue : Type 0 where
  pub clue : BaseClue
  pub giver : ℕ
  pub turn : ℕ

-- Class ActualCard; every card of a deck is given its order and the turn on which it was drawn.
pub record ActualCard : Type 0 where
  pub id : Identity
  pub order : ℕ
  pub drawn_index : ℕ
  pub clued : Bool
  pub newly_clued : Bool
  pub clues : List CardClue

pub data DiscardState : Type 0 where
  shout scream gen : DiscardState

pub record State : Type 0 where
  pub turn_count : ℕ
  pub clue_tokens : ℤ
  pub strikes : ℕ
  pub early_game : Bool
  pub discard_state : Option DiscardState
  pub dda : Option Identity
  pub hands : List (List ℕ)
  -- An order that is not drawn yet has no card.
  pub deck : List (Option ActualCard)
  pub play_stacks : List ℕ
  pub discard_stacks : List (List ℕ)
  pub max_ranks : List ℕ
  pub counts : List (List ℕ)
  pub cards_left : ℤ
  pub base_ids : IdentitySet
  pub all_ids : IdentitySet
  pub current_player : ℕ
  pub card_order : ℤ
  pub endgame_turns : ℤ
  pub num_players : ℕ
  pub our_player : ℕ
  pub variant : Variant
  pub one_less_card : Bool
  pub one_extra_card : Bool

-- `arr[suitIndex]`.
abbrev pub at_suit {ℓ} : {A : Type ℓ} → List A → ℤ → A → A
at_suit xs (pos s) d = get_or xs s d
at_suit xs (negsuc s) d = d

-- The copies of the ranks `from`, … of one suit.
unfoldable pub suit_counts : Variant → ℕ → ℕ → ℕ → List ℕ
suit_counts v s zero from = []
suit_counts v s (suc n) from = variant_card_count v (card s from) ∷ suit_counts v s n (from + 1)

unfoldable pub all_counts : Variant → ℕ → ℕ → List (List ℕ)
unfolding suit_counts
all_counts v zero s = []
all_counts v (suc n) s = suit_counts v s 5 1 ∷ all_counts v n (s + 1)

-- The constructor.
unfoldable pub start : Variant → (num_players our_player : ℕ) → (one_less one_extra : Bool) → State
unfolding all_counts sum make
start v players us less extra =
    let suits = length v.suits in
    let counts = all_counts v suits 0 in
    record {
      turn_count = 0;
      clue_tokens = pos 8;
      strikes = 0;
      early_game = true;
      discard_state = none;
      dda = none;
      hands = replicate players [];
      deck = [];
      play_stacks = replicate suits 0;
      discard_stacks = replicate suits (replicate 5 0);
      max_ranks = replicate suits 5;
      counts = counts;
      cards_left = pos (sum (map sum counts));
      base_ids = make suits (some 0);
      all_ids = make suits none;
      current_player = 0;
      card_order = negsuc 0;
      endgame_turns = negsuc 0;
      num_players = players;
      our_player = us;
      variant = v;
      one_less_card = less;
      one_extra_card = extra;
    }

-- `createBlank`.
unfoldable pub create_blank : State → State
unfolding start
create_blank st = start st.variant st.num_players st.our_player st.one_less_card st.one_extra_card

-- HAND_SIZE of constants.js; other numbers of players do not occur.
abbrev pub hand_sizes : List ℤ
hand_sizes = negsuc 0 ∷ negsuc 0 ∷ pos 5 ∷ pos 5 ∷ pos 4 ∷ pos 4 ∷ pos 3 ∷ []

unfoldable pub hand_size : State → ℤ
unfolding ◌+ℤ◌
hand_size st =
    get_or hand_sizes st.num_players (pos 0)
    +ℤ (if st.one_less_card then negsuc 0 else if st.one_extra_card then pos 1 else pos 0)

-- A variant has a suit, so that there are stacks to sum. On arrays without elements the `reduce` of the
-- source throws, here and in `max_score`, and the sum is 0.
unfoldable pub score : State → ℕ
unfolding sum
score st = sum st.play_stacks

unfoldable pub max_score : State → ℕ
unfolding sum
max_score st = sum st.max_ranks

unfoldable pub pace : State → ℤ
unfolding score max_score
pace st = pos (score st) +ℤ st.cards_left +ℤ pos st.num_players -ℤ pos (max_score st)

unfoldable pub ended : State → Bool
ended st = eq_ℤ st.endgame_turns (pos 0)

unfoldable pub next_player_index : State → ℕ → ℕ
next_player_index st i = (i + 1) % st.num_players

unfoldable pub last_player_index : State → ℕ → ℕ
last_player_index st i = (i + st.num_players - 1) % st.num_players

unfoldable pub in_endgame : State → Bool
unfolding pace
in_endgame st = ltb_ℤ (pace st) (pos st.num_players)

-- `rank` is at most the number `n`, where the rank of an identity is not -1.
abbrev pub rank_le : ℤ → ℕ → Bool
rank_le r n = leb_ℤ r (pos n)

unfoldable pub base_count : State → Identity → ℕ
base_count st id =
    if is_unknown id
    then 0
    else (if rank_le id.rank (at_suit st.play_stacks id.suit_index 0) then 1 else 0)
      + at_rank (at_suit st.discard_stacks id.suit_index []) id.rank

unfoldable pub card_count : State → Identity → ℕ
card_count st id = if is_unknown id then 4 else at_rank (at_suit st.counts id.suit_index []) id.rank

unfoldable pub is_basic_trash : State → Identity → Bool
is_basic_trash st id =
    if is_unknown id
    then false
    else rank_le id.rank (at_suit st.play_stacks id.suit_index 0)
      || ltb_ℤ (pos (at_suit st.max_ranks id.suit_index 0)) id.rank

unfoldable pub is_critical : State → Identity → Bool
unfolding is_basic_trash ◌-ℤ◌
is_critical st id =
    if is_unknown id
    then false
    else not (is_basic_trash st id)
      && eq_ℤ (pos (at_rank (at_suit st.discard_stacks id.suit_index []) id.rank))
          (pos (variant_card_count st.variant id) -ℤ pos 1)

unfoldable pub playable_away : State → Identity → ℤ
unfolding ◌-ℤ◌
playable_away st id =
    if is_unknown id then pos 5 else id.rank -ℤ pos (at_suit st.play_stacks id.suit_index 0 + 1)

unfoldable pub is_playable : State → Identity → Bool
unfolding playable_away
is_playable st id = eq_ℤ (playable_away st id) (pos 0)

unfoldable pub in_starting_hand : State → ℕ → Bool
unfolding hand_size ◌*ℤ◌
in_starting_hand st order = ltb_ℤ (pos order) (pos st.num_players *ℤ hand_size st)

-- `deck[order]`.
abbrev pub card_at : State → ℕ → Option ActualCard
card_at st o = elim (get_elem? st.deck o) [ none ↦ none | some c ↦ c ]

-- The test of `clueTouched`, which throws for an order without a card.
unfoldable pub order_touched : State → BaseClue → ℕ → Option Bool
unfolding identity
order_touched st clue o = elim (card_at st o) [
  | none ↦ none
  | some c ↦ some (not (is_unknown c.id) && card_touched c.id st.variant clue)
]

unfoldable pub clue_touched : State → List ℕ → BaseClue → Option (List ℕ)
unfolding order_touched filter?
clue_touched st orders clue = filter? (order_touched st clue) orders

-- The two loops of `allValidClues`: `n` rounds, the first at `r` or at `s`.
unfoldable pub rank_candidates : State → ℕ → ℕ → ℕ → List Clue
rank_candidates st target zero r = []
rank_candidates st target (suc n) r =
    let rest = rank_candidates st target n (r + 1) in
    if is_rank (pos r) st.variant.special_rank
      && (st.variant.no_clue_ranks || st.variant.all_clue_ranks || st.variant.deceptive)
    then rest
    else record { type = rank; value = r; target = target } ∷ rest

unfoldable pub colour_candidates : ℕ → ℕ → ℕ → List Clue
colour_candidates target zero s = []
colour_candidates target (suc n) s =
    record { type = colour; value = s; target = target } ∷ colour_candidates target n (s + 1)

abbrev touches : State → List ℕ → Clue → Option Bool
unfolding clue_touched
touches st hand c = elim (clue_touched st hand (record { type = c.type; value = c.value })) [
  | none ↦ none
  | some touched ↦ some (not (length touched == 0))
]

unfoldable pub all_valid_clues : State → ℕ → Option (List Clue)
unfolding clue_touched filter? rank_candidates colour_candidates colourable_suits
all_valid_clues st target = elim (get_elem? st.hands target) [
  | none ↦ none
  | some hand ↦ filter? (touches st hand) (
      rank_candidates st target 5 1
      ++ colour_candidates target (length (colourable_suits st.variant)) 0)
]
