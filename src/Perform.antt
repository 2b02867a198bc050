-- ===== src/Perform.antt =====
-- tools/util.js, `performToAction` and `clueToPerform`: the request of a player, which names a card
-- or a clue, becomes the action that the server reports. `none` is a run that throws: an order
-- without an entry in the deck, a player without a hand. The deck's identities are known.
pub mod Sorted
pub mod Legal
use hanabi_bot.Base.{
  ℕ, zero, suc, ◌+◌, ◌/◌, ◌%◌, Bool, true, false, List, [], ◌∷◌, ◌++◌, Option, none, some, ◌==◌,
  ltb, if◌then◌else◌, get_elem?,
}
use hanabi_bot.Base.Int.{ℤ, pos, eq_ℤ}
use hanabi_bot.Identity.{Identity}
use hanabi_bot.Variants.{Variant, BaseClue, Clue, ClueType, colour, rank, card_touched}
use hanabi_bot.State.{State, at_suit}
use hanabi_bot.Basics.{CardAction, ClueAction, ◌>>=◌}

-- ACTION of constants.js.
pub data PerformType : Type 0 where
  play discard colour_clue rank_clue end_game : PerformType

pub record PerformAction : Type 0 where
  pub type : PerformType
  pub target : ℕ
  pub value : ℕ

pub data Action : Type 0 where
  clue_action : ClueAction → Action
  play_action discard_action : CardAction → Action
  game_over : (player_index end_condition : ℕ) → Action

unfoldable pub clue_to_perform : Clue → PerformAction
clue_to_perform c = record {
  type = elim c.type [ colour ↦ colour_clue | rank ↦ rank_clue ];
  target = c.target;
  value = c.value;
}

-- The decimal digits of a number, the highest first, for `fuel` digits at most.
unfoldable pub decimal : (fuel : ℕ) → ℕ → List ℕ
decimal zero n = []
decimal (suc fuel) n = if ltb n 10 then n ∷ [] else decimal fuel (n / 10) ++ n % 10 ∷ []

-- The order of strings, on their digits.
unfoldable pub digits_before : List ℕ → List ℕ → Bool
digits_before [] ys = true
digits_before (x ∷ xs) [] = false
digits_before (x ∷ xs) (y ∷ ys) =
    if ltb x y then true else if ltb y x then false else digits_before xs ys

-- `sort()` compares numbers by their decimal strings. A number has fewer digits than its successor.
unfoldable pub insert_sorted : ℕ → List ℕ → List ℕ
unfolding decimal digits_before
insert_sorted x [] = x ∷ []
insert_sorted x (y ∷ ys) =
    if digits_before (decimal (x + 1) x) (decimal (y + 1) y)
    then x ∷ y ∷ ys
    else y ∷ insert_sorted x ys

unfoldable pub sort : List ℕ → List ℕ
unfolding insert_sorted
sort [] = []
sort (x ∷ xs) = insert_sorted x (sort xs)

-- `hand.filter(o => cardTouched(deck[o], variant, clue))`.
unfoldable pub touched_in : Variant → BaseClue → (deck : List Identity) → List ℕ → Option (List ℕ)
touched_in v clue deck [] = some []
touched_in v clue deck (o ∷ os) = do
  id ← get_elem? deck o
  rest ← touched_in v clue deck os
  some (if card_touched id v clue then o ∷ rest else rest)

unfoldable pub perform_clue :
    State → ClueType → PerformAction → (giver : ℕ) → (deck : List Identity) → Option Action
unfolding touched_in sort
perform_clue st type p giver deck = do
  hand ← get_elem? st.hands p.target
  list ← touched_in st.variant (record { type = type; value = p.value }) deck hand
  some (
      clue_action (record {
        giver = giver;
        target = p.target;
        clue = record { type = type; value = p.value };
        list = sort list;
      }))

unfoldable pub perform_play : State → PerformAction → (player : ℕ) → Identity → Action
perform_play st p player id =
    if eq_ℤ (pos (at_suit st.play_stacks id.suit_index 0 + 1)) id.rank
    then play_action (record { player_index = player; order = p.target; id = id; failed = false })
    else discard_action (record { player_index = player; order = p.target; id = id; failed = true })

unfoldable pub perform_to_action :
    State → PerformAction → (player : ℕ) → (deck : List Identity) → Option Action
unfolding perform_clue perform_play
perform_to_action st p player deck = elim p.type [
  | play ↦ do id ← get_elem? deck p.target; some (perform_play st p player id)
  | discard ↦ do
    id ← get_elem? deck p.target
    some (
        discard_action
          (record { player_index = player; order = p.target; id = id; failed = false }))
  | rank_clue ↦ perform_clue st rank p player deck
  | colour_clue ↦ perform_clue st colour p player deck
  | end_game ↦ some (game_over p.target p.value)
]
