-- ===== src/Card.antt =====
-- Class Card of basics/Card.js: what is thought of one card. The fields of ActualCard are those of
-- `actual`, which holds the identity if it is seen. A field that is not set is `none`. The note that
-- is shown for a card, JSON and copies are left out.
pub mod Reset
use hanabi_bot.Base.{
  ℕ, Bool, true, false, not, ◌&&◌, ◌||◌, List, [], ◌∷◌, Option, none, some, ◌==◌, if◌then◌else◌,
  get_elem?,
}
use hanabi_bot.Base.Int.{ℤ, pos, negsuc, eq_ℤ}
use hanabi_bot.Identity.{Identity, is_unknown}
use hanabi_bot.IdentitySet.{IdentitySet, intersect, set, length, array}
use hanabi_bot.State.{ActualCard}

-- CARD_STATUS; its values are different strings.
pub data Status : Type 0 where
  clued finessed bluffed maybe_finessed maybe_bluffed finessed_maybe_bluffed : Status
  chop_moved called_to_play called_to_discard gentlemans_discarded : Status

pub record FirstTouch : Type 0 where
  pub giver : ℕ
  pub turn : ℕ

pub record Card : Type 0 where
  pub actual : ActualCard
  pub possible : IdentitySet
  pub inferred : IdentitySet
  pub finesse_ids : Option IdentitySet
  pub rewind_ids : Option IdentitySet
  pub old_inferred : Option IdentitySet
  pub old_possible : Option IdentitySet
  pub info_lock : Option IdentitySet
  pub status : Option Status
  pub last_status : Option Status
  pub focused : Bool
  pub reset : Bool
  pub chop_when_first_clued : Bool
  pub superposition : Bool
  pub hidden : Bool
  pub permission_to_discard : Bool
  pub certain_finessed : Bool
  pub assume_playable : Bool
  pub maybe_layered : Bool
  pub trash : Bool
  pub uncertain : Bool
  pub known : Bool
  pub first_touch : Option FirstTouch
  pub finesse_index : ℤ
  pub reasoning_turn : List ℕ
  pub rewinded : Bool

-- The constructor, with the fields' initial values.
unfoldable pub new_card : ActualCard → (possible inferred : IdentitySet) → Card
new_card actual possible inferred = record {
  actual = actual;
  possible = possible;
  inferred = inferred;
  finesse_ids = none;
  rewind_ids = none;
  old_inferred = none;
  old_possible = none;
  info_lock = none;
  status = none;
  last_status = none;
  focused = false;
  reset = false;
  chop_when_first_clued = false;
  superposition = false;
  hidden = false;
  permission_to_discard = false;
  certain_finessed = false;
  assume_playable = false;
  maybe_layered = false;
  trash = false;
  uncertain = false;
  known = false;
  first_touch = none;
  finesse_index = negsuc 0;
  reasoning_turn = [];
  rewinded = false;
}

unfoldable pub possibilities : Card → IdentitySet
possibilities c = if length c.inferred == 0 then c.possible else c.inferred

-- The tests of a status.
abbrev pub is_touch : Status → Bool
is_touch clued = true
is_touch finessed = true
is_touch bluffed = true
is_touch maybe_finessed = false
is_touch maybe_bluffed = false
is_touch finessed_maybe_bluffed = true
is_touch chop_moved = false
is_touch called_to_play = true
is_touch called_to_discard = false
is_touch gentlemans_discarded = true

abbrev pub is_chop_moved : Status → Bool
is_chop_moved chop_moved = true
is_chop_moved _ = false

abbrev pub is_finessed : Status → Bool
is_finessed finessed = true
is_finessed _ = false

abbrev pub is_blind : Status → Bool
is_blind finessed = true
is_blind bluffed = true
is_blind called_to_play = true
is_blind _ = false

abbrev pub has_status : (Status → Bool) → Option Status → Bool
has_status p none = false
has_status p (some s) = p s

unfoldable pub touched : Card → Bool
touched c = c.known || has_status is_touch c.status

unfoldable pub saved : Card → Bool
unfolding touched
saved c = touched c || has_status is_chop_moved c.status

unfoldable pub blind_playing : Card → Bool
blind_playing c = has_status is_blind c.status

unfoldable pub update_status : Card → Option Status → Card
update_status c s = record c { last_status = c.status; status = s }

unfoldable pub revert_status : Card → Card
revert_status c = record c {
  status = if c.actual.clued then some clued else c.last_status;
  last_status = none;
}

-- The options `infer`, `symmetric` and `assume`.
pub record MatchOptions : Type 0 where
  pub infer : Bool
  pub symmetric : Bool
  pub assume : Bool

-- `ids?.length === 1`.
abbrev pub is_single : Option IdentitySet → Bool
is_single none = false
is_single (some ids) = length ids == 1

-- `ids.array[0]`.
abbrev pub first_of : Option IdentitySet → Option Identity
first_of none = none
first_of (some ids) = get_elem? (array ids) 0

unfoldable pub identity : Card → MatchOptions → Option Identity
identity c o =
    if is_single (some c.possible)
    then first_of (some c.possible)
    else if not (is_unknown c.actual.id) && not o.symmetric
    then some c.actual.id
    else if is_single c.rewind_ids && not o.symmetric
    then first_of c.rewind_ids
    else if not o.infer
    then none
    else if is_single c.info_lock
    then first_of c.info_lock
    else if is_single (some c.inferred)
    then first_of (some c.inferred)
    else none

unfoldable pub matches : Card → Identity → MatchOptions → Bool
unfolding identity
matches c id o = elim (identity c o) [
  | none ↦ o.assume
  | some i ↦ eq_ℤ i.suit_index id.suit_index && eq_ℤ i.rank id.rank
]

unfoldable pub duplicate_of : Card → ActualCard → MatchOptions → Bool
unfolding matches
duplicate_of c other o = matches c other.id o && not (c.actual.order == other.order)

-- `info_lock !== undefined && info_lock.intersect(possible).length === 0`.
abbrev pub broke_info_lock : Card → Bool
broke_info_lock c = elim c.info_lock [
  | none ↦ false
  | some lock ↦ length (intersect lock (set c.possible)) == 0
]

-- The inferences of a card that was finessed; `c` is the card before, whose lock is unbroken if
-- `lock` is a set.
abbrev pub finessed_inferences : Card → (lock : Option IdentitySet) → IdentitySet
finessed_inferences c (some lock) = lock
finessed_inferences c none = elim c.old_inferred [
  | none ↦ c.possible
  | some old ↦ intersect old (set c.possible)
]

-- `info_lock?.intersect(possible) ?? possible`.
abbrev pub locked_inferences : Card → IdentitySet
locked_inferences c = elim c.info_lock [
  | none ↦ c.possible
  | some lock ↦ intersect lock (set c.possible)
]

unfoldable pub reset_inferences : Card → Card
unfolding revert_status
reset_inferences c =
    let broke = broke_info_lock c in
    let lock = if broke then none else c.info_lock in
    let draft = record c { reset = true; known = false; info_lock = lock } in
    if has_status is_finessed c.status
    then record (revert_status draft) { hidden = false; inferred = finessed_inferences c lock }
    else if not broke
    then record draft { info_lock = some (locked_inferences c); inferred = locked_inferences c }
    else record draft { inferred = c.possible }
