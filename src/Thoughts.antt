-- ===== src/Thoughts.antt =====
-- basics.js, the part of each handler that changes what is thought of the cards by what is seen: the
-- loop of `onClue`, the producers of `common` in `onDiscard` and `onPlay`, and the new card of
-- `onDraw`. The eliminations that follow (`card_elim`, `good_touch_elim`, `refresh_links`) and the
-- patches that a player keeps are not part of it. `none` is a run that throws.
pub mod Sound
pub mod Seen
use hanabi_bot.Base.{
  ℕ, Bool, true, false, not, ◌&&◌, ◌||◌, List, [], ◌∷◌, ◌++◌, Option, none, some, ◌==◌, ltb,
  if◌then◌else◌, get_elem?, set, some_of,
}
use hanabi_bot.Base.Int.{ℤ, pos, negsuc}
use hanabi_bot.Identity.{Identity, is_unknown}
use hanabi_bot.IdentitySet.{IdentitySet, intersect, subtract, one, array_of, length}
use hanabi_bot.Variants.{Variant, BaseClue, find_possibilities}
use hanabi_bot.State.{ActualCard}
use hanabi_bot.Basics.{ClueAction, DrawAction, assign, update_card, ◌>>=◌}
use hanabi_bot.Card.{Card, new_card, update_status, clued}

-- The array `thoughts` of a player; an order that is not drawn yet has no card.
abbrev pub Thoughts : Type 0
Thoughts = List (Option Card)

abbrev pub thought_at : Thoughts → ℕ → Option Card
thought_at thoughts o = elim (get_elem? thoughts o) [ none ↦ none | some c ↦ c ]

-- `list.includes(order)`.
abbrev pub includes_order : List ℕ → ℕ → Bool
includes_order list o = some_of (λ x. x == o) list

-- `inferred[operation](new_possible)`.
abbrev pub narrow : Bool → IdentitySet → List Identity → IdentitySet
narrow is_listed ids new_possible =
    if is_listed
    then intersect ids (array_of new_possible)
    else subtract ids (array_of new_possible)

-- The statements for a card that is touched; `before` is the card in `common.thoughts`.
unfoldable pub touch : ClueAction → (turn : ℕ) → (before draft : Card) → Card
unfolding update_status update_card
touch a turn before draft =
    let first =
      if before.actual.clued
      then draft
      else update_status
          (record draft { first_touch = some (record { giver = a.giver; turn = turn }) })
          (some clued) in
    record first { actual = update_card a.clue a.giver turn first.actual }

-- The producer of the loop.
unfoldable pub clue_thought :
    Variant → ClueAction → (turn : ℕ) → (o : ℕ) → (before draft : Card) → Card
unfolding touch find_possibilities
clue_thought v a turn o before draft =
    let new_possible = find_possibilities a.clue v in
    let is_listed = includes_order a.list o in
    let new_inferred = narrow is_listed before.inferred new_possible in
    let touched = if is_listed then touch a turn before draft else draft in
    record touched {
      possible = narrow is_listed before.possible new_possible;
      inferred = new_inferred;
      reasoning_turn =
          if is_listed && ltb (length new_inferred) (length before.inferred)
          then touched.reasoning_turn ++ turn ∷ []
          else touched.reasoning_turn;
    }

-- The loop of `onClue` over the hand of the target, from `thoughts` on.
unfoldable pub clue_thoughts :
    Variant → ClueAction → (turn : ℕ) → (common : Thoughts) → List ℕ → Thoughts → Option Thoughts
unfolding clue_thought
clue_thoughts v a turn common [] thoughts = some thoughts
clue_thoughts v a turn common (o ∷ os) thoughts = do
  before ← thought_at common o
  draft ← thought_at thoughts o
  clue_thoughts v a turn common os (set thoughts o (some (clue_thought v a turn o before draft)))

-- The producer of `onDiscard` and `onPlay`.
unfoldable pub reveal : Identity → Card → Card
reveal id c = record c {
  actual = record c.actual { id = id };
  old_possible = some c.possible;
  old_inferred = some c.inferred;
  possible = intersect c.possible (one id);
  inferred = intersect c.inferred (one id);
}

unfoldable pub reveal_thoughts : Thoughts → ℕ → Identity → Option Thoughts
unfolding reveal
reveal_thoughts thoughts o id =
    if is_unknown id
    then some thoughts
    else do c ← thought_at thoughts o; some (set thoughts o (some (reveal id c)))

-- The new card of `onDraw`, for a player or for `common`, where `seen` is the identity that they
-- see.
unfoldable pub draw_thoughts :
    Thoughts → (all_possible : IdentitySet) → (order turn : ℕ) → (seen : Identity) → Thoughts
unfolding assign new_card
draw_thoughts thoughts all_possible o turn seen = assign thoughts o (
    new_card
      (record {
        id = seen;
        order = o;
        drawn_index = turn;
        clued = false;
        newly_clued = false;
        clues = [];
      })
      all_possible all_possible)

-- The identity that player `i` sees of a card that `drawer` draws.
unfoldable pub seen_by : (us : ℕ) → DrawAction → (i : ℕ) → Identity
seen_by us a i =
    if not (i == a.player_index) || i == us
    then a.id
    else record { suit_index = negsuc 0; rank = negsuc 0 }
