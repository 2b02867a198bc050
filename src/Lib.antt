-- ===== src/Lib.antt =====
-- hanabi-bot: the public state of a game of Hanabi, the sets of card identities, the variants, and what
-- the players think of the cards by what they see.
--
-- The program keeps a `Game`: a public `State` (src/basics/State.js) and, for each player and for what
-- all of them know, the thoughts about each card, whose possibilities are bit masks
-- (src/basics/IdentitySet.js). The server's actions reach the handlers of src/basics.js, which change
-- the state with `produce` and narrow the thoughts with the possibilities of a clue, which
-- src/variants.js computes. A state that `produce` returns is a record with the changed fields here.
--
-- Files:
--   Base: lists, options, Boolean tests and signed integers over the native numbers.
--   Bits: bits of natural numbers; `bit_not` is `~` on masks below 2 ^ 31.
--   Identity: BasicCard of src/basics/Card.js (`identity`, `matches`, `playedBefore`).
--   IdentitySet: the class of src/basics/IdentitySet.js. Members has the laws of membership, Count
--     those of `length`, Elements those of `array`. The methods that pass a callback to the array's
--     method of the same name are left out.
--   Variants: `cardTouched`, `find_possibilities`, `direct_clues`, `cardCount`, `colourableSuits` of
--     src/variants.js. A regular expression of that file is its list of words, a name its list of
--     character codes. Touch, Plain and Clues have what the clues mean.
--   State: the class of src/basics/State.js and ActualCard of src/basics/Card.js. WellFormed states
--     the invariant of the stacks, Start the new game, Trash the queries.
--   Basics: the producers of `newState` in `onClue`, `onDiscard`, `onDraw` and `onPlay` of
--     src/basics.js. Suit has the arithmetic of one suit, Effects what each handler changes, Invariant
--     and Reach the invariant, Pace and Tempo the scores and the pace, Tokens the clue tokens and the
--     end of the game.
--   Card: class Card of src/basics/Card.js, what is thought of one card. Reset has the law of
--     `reset_inferences`.
--   Thoughts: what `onClue`, `onDiscard`, `onPlay` and `onDraw` of src/basics.js change in the thoughts
--     by what is seen, before eliminations. Sound has the single handlers, Seen whole games, in which
--     the eliminations are steps of their own.
--   Elimination: `card_elim` of src/basics/player-elim.js. SetUp has how it begins, the parent
--     `update_map` and `basic_elim`, Endgame `endgame_elim`, where Holders has who holds an identity,
--     Cross `cross_elim`, and Whole all of it. Counting and Certains have when all copies of an
--     identity are known, Truth and Grown what is kept, Update `update_map`, Basic `basic_elim`.
--     Backed has what is ruled out for the cards that are left in the deck, part by part.
--     `basic_elim` and the loop over `cross_elim` are given fuel above the sum of the cards' masks,
--     which they make smaller, and `gen_subset` a level for each candidate and one more.
--   Perform: `performToAction` and `clueToPerform` of src/tools/util.js. Sorted has the list of a clue,
--     Legal what the handlers of src/basics.js do with the action.
--   Util: `findIndices`, `nextIndex` and `allSubsetsOfSize` of src/tools/util.js, with their laws in
--     Indices and Subsets.
--   Fraction: src/tools/fraction.js on integers. Loop and Reduce have `reduce`, Values `plus`, Products
--     `multiply` and `divide`, Order the comparisons. `reduce` is given fuel above the sum of the
--     absolute values, which is enough for every fraction but 0/0, and `find_gcd` that of its second
--     argument.
--   Player: class Player of src/basics/Player.js and `unknownIdentities` of src/basics/hanabi-util.js.
--     Playables has `thinksPlayables`, `thinksTrash`, `thinksLoaded` and `thinksLocked`, Safe what the
--     cards are that these give, Hypo `update_hypo_stacks`; there Steps has what one card changes,
--     Rounds the end of the loops, Total the results.
--     Links has `find_links` of src/basics/player-elim.js and, in Refresh, `refresh_links` and
--     `restore_elim`; Group has the links that are found, Total when the refresh throws.
--   Tests: runs on small inputs.
--
-- Numbers: a count, an order or an index that is never negative is a native natural number, a rank, a
-- suit index, tokens, the cards left and the turns left are integers, since the source uses -1 for what
-- is not known. Shift counts are taken modulo 32 and the running bit modulo 2 ^ 32, as the source's
-- 32-bit operators do; a variant has at most six suits, so that masks stay below 2 ^ 31. Every loop is a
-- structural recursion over a list or over the number of its rounds, but for
-- `basic_elim`, the loop over `cross_elim` and `gen_subset`, whose fuel is named above with its bound.
--
-- A handler's result is `none` where the source throws. The server's promises about the cards, that a
-- play which succeeds is of the next rank of its stack and that a discarded card was in the deck, are
-- the hypotheses of the steps of a game.
--
-- Not modelled: the conventions (src/conventions), the game's rewinds, the search for endgames, the
-- elimination by good touch, the network and the console, the download of the
-- variants, logging.
pub mod Base
pub mod Bits
pub mod Identity
pub mod IdentitySet
pub mod Variants
pub mod State
pub mod Basics
pub mod Card
pub mod Thoughts
pub mod Elimination
pub mod Perform
pub mod Util
pub mod Fraction
pub mod Player
pub mod Tests
