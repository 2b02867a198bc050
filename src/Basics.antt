-- ===== src/Basics.antt =====
-- basics.js, the part of each handler that changes the public state (the producer of `newState`, and
-- the statements on `newState` that follow it in `onClue`). `none` is a run that throws: a player
-- without a hand, an order without a card, a hand that is too large. A suit index is one of the
-- variant's.
pub mod Suit
pub mod Effects
pub mod Invariant
pub mod Reach
pub mod Pace
pub mod Tempo
pub mod Tokens
use hanabi_bot.Base.{
  ℕ, zero, suc, ◌+◌, ◌-◌, ◌≤◌, ◌<◌, Bool, true, false, not, ◌&&◌, ◌||◌, List, [], ◌∷◌, ◌++◌, Option,
  none, some, ◌==◌, if◌then◌else◌, length, get_or, get_elem?, set, min,
}
use hanabi_bot.Base.Int.{ℤ, pos, negsuc, pos_part, ◌+ℤ◌, ◌-ℤ◌, eq_ℤ, ltb_ℤ}
use hanabi_bot.Identity.{Identity, is_unknown}
use hanabi_bot.Variants.{BaseClue, at_rank}
use hanabi_bot.State.{State, ActualCard, CardClue, at_suit, card_at, card_count, hand_size}

infixl 5 ◌>>=◌
abbrev pub ◌>>=◌ {ℓ κ} : {A : Type ℓ} {B : Type κ} → Option A → (A → Option B) → Option B
none >>= f = none
some a >>= f = f a

-- `arr[suitIndex] = v`.
abbrev pub set_suit {ℓ} : {A : Type ℓ} → List A → ℤ → A → List A
set_suit xs (pos s) v = set xs s v
set_suit xs (negsuc s) v = xs

-- `arr[rank - 1]++`.
abbrev pub bump_rank : List ℕ → ℤ → List ℕ
bump_rank xs (pos zero) = xs
bump_rank xs (pos (suc k)) = set xs k (get_or xs k 0 + 1)
bump_rank xs (negsuc k) = xs

-- `arr[i] = v`, which fills the places up to `i` of a shorter array with `undefined`.
unfoldable pub assign {ℓ} : {A : Type ℓ} → List (Option A) → ℕ → A → List (Option A)
assign [] zero v = some v ∷ []
assign [] (suc i) v = none ∷ assign [] i v
assign (x ∷ xs) zero v = some v ∷ xs
assign (x ∷ xs) (suc i) v = x ∷ assign xs i v

unfoldable pub index_of : ℕ → List ℕ → Option ℕ
index_of o [] = none
index_of o (x ∷ xs) =
    if x == o then some 0 else elim (index_of o xs) [ none ↦ none | some i ↦ some (i + 1) ]

abbrev pub remove_at : List ℕ → ℕ → List ℕ
remove_at [] i = []
remove_at (x ∷ xs) zero = xs
remove_at (x ∷ xs) (suc i) = x ∷ remove_at xs i

abbrev pub drop_last : List ℕ → List ℕ
drop_last [] = []
drop_last (x ∷ []) = []
drop_last (x ∷ y ∷ xs) = x ∷ drop_last (y ∷ xs)

-- `hand.splice(hand.indexOf(order), 1)`: an index of -1 stands for the last place.
unfoldable pub splice_order : List ℕ → ℕ → List ℕ
unfolding index_of
splice_order hand o = elim (index_of o hand) [ none ↦ drop_last hand | some i ↦ remove_at hand i ]

-- Lines of `onDiscard` and `onPlay`: the card leaves the hand.
unfoldable pub take_from_hand : State → ℕ → ℕ → Option State
unfolding splice_order
take_from_hand st player o = do
  hand ← get_elem? st.hands player
  some (record st { hands = set st.hands player (splice_order hand o) })

-- `deck[order].suitIndex = suitIndex; deck[order].rank = rank`.
unfoldable pub identify : State → ℕ → Identity → Option State
identify st o id = do
  c ← card_at st o
  some (record st { deck = set st.deck o (some (record c { id = id })) })

-- `if (endgameTurns !== -1) endgameTurns--`.
unfoldable pub endgame_tick : State → State
unfolding ◌-ℤ◌
endgame_tick st = record st {
  endgame_turns =
      if eq_ℤ st.endgame_turns (negsuc 0) then st.endgame_turns else st.endgame_turns -ℤ pos 1;
}

pub record ClueAction : Type 0 where
  pub giver : ℕ
  pub target : ℕ
  pub clue : BaseClue
  pub list : List ℕ

-- A play or a discard; `failed` is a misplay, which the server reports as a discard.
pub record CardAction : Type 0 where
  pub player_index : ℕ
  pub order : ℕ
  pub id : Identity
  pub failed : Bool

-- `update_card` of `onClue`, on a card of the deck.
unfoldable pub update_card : BaseClue → ℕ → ℕ → ActualCard → ActualCard
update_card clue giver turn c = record c {
  clued = true;
  newly_clued = if c.clued then c.newly_clued else true;
  clues = c.clues ++ (record { clue = clue; giver = giver; turn = turn }) ∷ [];
}

unfoldable pub clue_cards : ClueAction → List ℕ → State → Option State
unfolding update_card
clue_cards a [] st = some st
clue_cards a (o ∷ os) st = do
  c ← card_at st o
  clue_cards a os
      (record st { deck = set st.deck o (some (update_card a.clue a.giver st.turn_count c)) })

unfoldable pub clue_state : State → ClueAction → Option State
unfolding endgame_tick ◌-ℤ◌
clue_state st a = do
  st' ← clue_cards a a.list st
  let ticked = endgame_tick st'
  some (record ticked { clue_tokens = ticked.clue_tokens -ℤ pos 1 })

-- The discard of a known card: its copy is counted, and a rank that has lost its last copy bounds
-- the suit.
unfoldable pub count_discard : State → Identity → State
unfolding card_count
count_discard st id =
    let row = bump_rank (at_suit st.discard_stacks id.suit_index []) id.rank in
    let lost = at_rank row id.rank == card_count st id in
    record st {
      discard_stacks = set_suit st.discard_stacks id.suit_index row;
      max_ranks =
          if lost
          then set_suit st.max_ranks id.suit_index
              (min (at_suit st.max_ranks id.suit_index 0) (pos_part id.rank - 1))
          else st.max_ranks;
    }

-- `Math.min(clue_tokens + 1, 8)`.
unfoldable pub regain_token : ℤ → ℤ
unfolding ◌+ℤ◌
regain_token t = if ltb_ℤ (t +ℤ pos 1) (pos 8) then t +ℤ pos 1 else pos 8

unfoldable pub discard_state : State → CardAction → Option State
unfolding take_from_hand identify count_discard endgame_tick regain_token
discard_state st a = do
  taken ← take_from_hand st a.player_index a.order
  counted ←
      (if is_unknown a.id then some taken else identify (count_discard taken a.id) a.order a.id)
  let ticked = endgame_tick counted
  some (
      if a.failed
      then record ticked { strikes = ticked.strikes + 1 }
      else record ticked { clue_tokens = regain_token ticked.clue_tokens })

unfoldable pub play_state : State → CardAction → Option State
unfolding take_from_hand identify endgame_tick ◌+ℤ◌
play_state st a = do
  taken ← take_from_hand st a.player_index a.order
  played ←
      (if is_unknown a.id
        then some taken
        else identify
            (record taken {
              play_stacks = set_suit taken.play_stacks a.id.suit_index (pos_part a.id.rank);
            })
            a.order a.id)
  let ticked = endgame_tick played
  some (
      if eq_ℤ a.id.rank (pos 5) && ltb_ℤ ticked.clue_tokens (pos 8)
      then record ticked { clue_tokens = ticked.clue_tokens +ℤ pos 1 }
      else ticked)

pub record DrawAction : Type 0 where
  pub order : ℕ
  pub player_index : ℕ
  pub id : Identity

-- `onDraw`; `known` is `game.deck_ids[order]`.
unfoldable pub draw_state : State → Option Identity → DrawAction → Option State
unfolding assign hand_size ◌-ℤ◌
draw_state st known a = do
  hand ← get_elem? st.hands a.player_index
  if ltb_ℤ (hand_size st) (pos (length hand))
      then none
      else some (
          let left = st.cards_left -ℤ pos 1 in
          record st {
            hands = set st.hands a.player_index (a.order ∷ hand);
            deck = assign st.deck a.order (record {
              id = elim known [ none ↦ a.id | some id ↦ id ];
              order = a.order;
              drawn_index = st.turn_count;
              clued = false;
              newly_clued = false;
              clues = [];
            });
            card_order = pos a.order;
            cards_left = left;
            endgame_turns = if eq_ℤ left (pos 0) then pos st.num_players else st.endgame_turns;
          })
