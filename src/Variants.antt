-- ===== src/Variants.antt =====
-- variants.js: the suits of a variant, which clue touches which card, and how many copies of a card
-- there are. A suit's name is the list of its characters' codes. The variant's properties that are
-- not set are `none` or `false`. The lists of variants and of short forms, which are fetched over
-- the network, are not modelled.
pub mod Touch
pub mod Clues
pub mod Plain
use Prim.Native.Char.{code}
use Prim.Native.String.{String}
use hanabi_bot.Base.{
  ℕ, zero, suc, ◌+◌, ◌-◌, ◌%◌, ◌≤◌, ◌<◌, Bool, true, false, not, ◌&&◌, ◌||◌, List, [], ◌∷◌, ◌++◌,
  Option, none, some, ◌==◌, ltb, leb, if◌then◌else◌, filter, some_of, length, get_elem?, get_or,
  arith, ◌≡◌, ◌∈◌,
}
use hanabi_bot.Base.Int.{ℤ, pos, negsuc, sub_ℕ, eq_ℤ, leb_ℤ, ◌+ℤ◌, ◌-ℤ◌}
use hanabi_bot.Identity.{Identity, card, is_unknown}
use hanabi_bot.IdentitySet.{max_stack_rank}

abbrev pub Name : Type 0
Name = List ℕ

abbrev pub codes : String → Name
codes String.[] = []
codes (String.◌∷◌ c s) = code c ∷ codes s

unfoldable pub name_eq : Name → Name → Bool
name_eq [] [] = true
name_eq [] (y ∷ ys) = false
name_eq (x ∷ xs) [] = false
name_eq (x ∷ xs) (y ∷ ys) = x == y && name_eq xs ys

unfoldable pub starts_with : Name → Name → Bool
starts_with [] s = true
starts_with (p ∷ ps) [] = false
starts_with (p ∷ ps) (c ∷ s) = p == c && starts_with ps s

unfoldable pub includes : Name → Name → Bool
includes p [] = starts_with p []
includes p (c ∷ s) = starts_with p (c ∷ s) || includes p s

-- The regular expressions of this file are alternatives of plain words.
abbrev pub Regex : Type 0
Regex = List Name

-- `regex.test(suit)`; a suit that is `undefined` is tested by that word.
unfoldable pub test : Regex → Option Name → Bool
unfolding includes starts_with
test re none = some_of (λ word. includes word (codes "undefined")) re
test re (some suit) = some_of (λ word. includes word suit) re

-- `combineRegex`.
abbrev pub combine_regex : List Regex → Regex
combine_regex [] = []
combine_regex (re ∷ res) = re ++ combine_regex res

abbrev pub whitish : Regex
whitish = codes "White" ∷ codes "Gray" ∷ codes "Light" ∷ codes "Null" ∷ []

abbrev pub rainbowish : Regex
rainbowish = codes "Rainbow" ∷ codes "Omni" ∷ []

abbrev pub brownish : Regex
brownish = codes "Brown" ∷ codes "Muddy" ∷ codes "Cocoa" ∷ codes "Null" ∷ []

abbrev pub pinkish : Regex
pinkish = codes "Pink" ∷ codes "Omni" ∷ []

abbrev pub dark : Regex
dark = codes "Black" ∷ codes "Dark" ∷ codes "Gray" ∷ codes "Cocoa" ∷ []

abbrev pub prism : Regex
prism = codes "Prism" ∷ []

abbrev pub no_colour : Regex
no_colour = combine_regex (whitish ∷ rainbowish ∷ prism ∷ [])

pub record Variant : Type 0 where
  pub suits : List Name
  pub special_rank : Option ℕ
  pub all_clue_colors : Bool
  pub no_clue_colors : Bool
  pub all_clue_ranks : Bool
  pub no_clue_ranks : Bool
  pub deceptive : Bool
  pub chimneys : Bool
  pub funnels : Bool
  pub critical_rank : Option ℕ
  pub clue_ranks : Option (List ℕ)

pub data ClueType : Type 0 where
  colour rank : ClueType

-- `BaseClue`: `value` is an index into the colourable suits, or a rank.
pub record BaseClue : Type 0 where
  pub type : ClueType
  pub value : ℕ

unfoldable pub colourable_suits : Variant → List Name
colourable_suits v = filter (λ suit. not (test no_colour (some suit))) v.suits

-- `variant.suits[suitIndex]`.
abbrev pub suit_at : Variant → ℤ → Option Name
suit_at v (pos s) = get_elem? v.suits s
suit_at v (negsuc s) = none

-- `rank === variant.specialRank`, and the like.
abbrev pub is_rank : ℤ → Option ℕ → Bool
is_rank r none = false
is_rank r (some k) = eq_ℤ r (pos k)

-- `a % n`, with the sign of `a`.
abbrev pub js_rem : ℤ → ℕ → ℤ
js_rem (pos a) n = pos (a % n)
js_rem (negsuc a) n = sub_ℕ 0 ((a + 1) % n)

-- `===` between two entries of arrays of names.
abbrev pub same_suit : Option Name → Option Name → Bool
same_suit none none = true
same_suit none (some b) = false
same_suit (some a) none = false
same_suit (some a) (some b) = name_eq a b

-- The branches of `cardTouched` for a colour clue, after the tests on the suit and special rank.
unfoldable pub colour_rest : Identity → Variant → ℕ → Bool
colour_rest id v value =
    let suit = suit_at v id.suit_index in
    let n = length (colourable_suits v) in
    if test prism suit
    then (if n == 0 then false else eq_ℤ (js_rem (id.rank -ℤ pos 1) n) (pos value))
    else same_suit suit (get_elem? (colourable_suits v) value)

unfoldable pub colour_touched : Identity → Variant → ℕ → Bool
colour_touched id v value =
    let suit = suit_at v id.suit_index in
    if eq_ℤ id.suit_index (negsuc 0) || test whitish suit
    then false
    else if test rainbowish suit
    then true
    else if is_rank id.rank v.special_rank && v.all_clue_colors
    then true
    else if is_rank id.rank v.special_rank && v.no_clue_colors
    then false
    else colour_rest id v value

-- The branches for a rank clue, after those on the special rank.
unfoldable pub rank_rest : Identity → Variant → ℕ → Bool
rank_rest id v value =
    if test pinkish (suit_at v id.suit_index)
    then true
    else if v.chimneys
    then leb_ℤ (pos value) id.rank
    else if v.funnels
    then leb_ℤ id.rank (pos value)
    else eq_ℤ id.rank (pos value)

unfoldable pub rank_touched : Identity → Variant → ℕ → Bool
rank_touched id v value =
    if eq_ℤ id.rank (negsuc 0) || test brownish (suit_at v id.suit_index)
    then false
    else if is_rank id.rank v.special_rank && v.all_clue_ranks
    then not (eq_ℤ id.rank (pos value))
    else if is_rank id.rank v.special_rank && v.no_clue_ranks
    then false
    else if is_rank id.rank v.special_rank && v.deceptive
    then eq_ℤ (js_rem id.suit_index 4 +ℤ pos (if is_rank (pos 1) v.special_rank then 2 else 1))
        (pos value)
      && not (eq_ℤ id.rank (pos value))
    else rank_rest id v value

unfoldable pub touched_by : Identity → Variant → ClueType → ℕ → Bool
touched_by id v colour value = colour_touched id v value
touched_by id v rank value = rank_touched id v value

-- `cardTouched`.
unfoldable pub card_touched : Identity → Variant → BaseClue → Bool
card_touched id v clue = touched_by id v clue.type clue.value

-- The ranks `from`, `from + 1`, … of one suit.
unfoldable pub ranks_of : ℕ → ℕ → ℕ → List Identity
ranks_of s zero from = []
ranks_of s (suc n) from = card s from ∷ ranks_of s n (from + 1)

unfoldable pub identities_from : ℕ → ℕ → List Identity
identities_from zero s = []
identities_from (suc n) s = ranks_of s 5 1 ++ identities_from n (s + 1)

-- `all_identities`.
unfoldable pub all_identities : List Name → List Identity
unfolding identities_from ranks_of
all_identities suits = identities_from (length suits) 0

unfoldable pub find_possibilities : BaseClue → Variant → List Identity
find_possibilities clue v = filter (λ id. card_touched id v clue) (all_identities v.suits)

-- `arr[rank - 1]` for an array of numbers with an entry for each rank. Other ranks, where the source
-- reads `undefined`, do not occur.
abbrev pub at_rank : List ℕ → ℤ → ℕ
at_rank xs (pos zero) = 0
at_rank xs (pos (suc k)) = get_or xs k 0
at_rank xs (negsuc k) = 0

-- `cardCount`.
unfoldable pub card_count : Variant → Identity → ℕ
card_count v id =
    if is_unknown id
    then 4
    else if test dark (suit_at v id.suit_index)
    then 1
    else if is_rank id.rank v.critical_rank
    then 1
    else at_rank (3 ∷ 2 ∷ 2 ∷ 2 ∷ 1 ∷ []) id.rank

pub record Clue : Type 0 where
  pub type : ClueType
  pub value : ℕ
  pub target : ℕ

-- The two loops of `direct_clues`: `n` rounds, the first at `value`.
unfoldable pub colour_clues : Variant → ℕ → Identity → ℕ → ℕ → List Clue
colour_clues v target id zero value = []
colour_clues v target id (suc n) value =
    let rest = colour_clues v target id n (value + 1) in
    if card_touched id v (record { type = colour; value = value })
    then record { type = colour; value = value; target = target } ∷ rest
    else rest

-- `variant.clueRanks?.includes(rank) ?? true`.
abbrev pub may_clue_rank : Variant → ℕ → Bool
may_clue_rank v r = elim v.clue_ranks [ none ↦ true | some rs ↦ some_of (λ k. k == r) rs ]

unfoldable pub rank_clues : Variant → ℕ → Identity → ℕ → ℕ → List Clue
rank_clues v target id zero value = []
rank_clues v target id (suc n) value =
    let rest = rank_clues v target id n (value + 1) in
    if may_clue_rank v value && card_touched id v (record { type = rank; value = value })
    then record { type = rank; value = value; target = target } ∷ rest
    else rest

-- The options of `direct_clues`; its option `save` is not read.
pub record ClueOptions : Type 0 where
  pub exclude_colour : Bool
  pub exclude_rank : Bool

unfoldable pub direct_clues : Variant → ℕ → Identity → ClueOptions → List Clue
unfolding colour_clues rank_clues colourable_suits
direct_clues v target id options =
    (if options.exclude_colour
      then []
      else colour_clues v target id (length (colourable_suits v)) 0)
    ++ (if options.exclude_rank then [] else rank_clues v target id 5 1)

pub record IsOrdinary (s : Name) : Type 0 where
  pub not_whitish : test whitish (some s) ≡ false
  pub not_rainbowish : test rainbowish (some s) ≡ false
  pub not_brownish : test brownish (some s) ≡ false
  pub not_pinkish : test pinkish (some s) ≡ false
  pub not_prism : test prism (some s) ≡ false
  pub colourable : test no_colour (some s) ≡ false
  pub not_dark : test dark (some s) ≡ false

-- A variant of different suits with none of the special words in their names, and with no other
-- special property.
pub record IsPlain (v : Variant) : Type 0 where
  pub colours : (s : Name) → s ∈ v.suits → IsOrdinary s
  pub distinct :
      (i j : ℕ) (s : Name) → get_elem? v.suits i ≡ some s → get_elem? v.suits j ≡ some s → i ≡ j
  pub no_special_rank : v.special_rank ≡ none
  pub no_chimneys : v.chimneys ≡ false
  pub no_funnels : v.funnels ≡ false
