-- ===== src/Tests/Games.antt =====
-- basics.js and basics/State.js on the first turns of a game of two players without special suits.
use hanabi_bot.Base.{
  ℕ, suc, ◌+◌, ◌≤◌, ◌<◌, ◌≡◌, ◌↔◌, ◌⊎◌, refl, true, false, List, [], ◌∷◌, Option, none, some,
  length, get_or, arith,
}
use hanabi_bot.Base.Int.{pos, ◌-ℤ◌, ◌+ℤ◌}
use hanabi_bot.Identity.{card}
use hanabi_bot.Variants.{test, includes, starts_with, card_count as variant_card_count}
use hanabi_bot.State.{
  State, start, suit_counts, all_counts, score, max_score, pace, hand_size, base_count, card_count,
  is_basic_trash, is_critical, ended,
}
use hanabi_bot.State.WellFormed.{IsWellFormed}
use hanabi_bot.State.Trash.{is_basic_trash_iff}
use hanabi_bot.State.Start.{start-IsWellFormed}
use hanabi_bot.Basics.{CardAction, DrawAction, play_state, discard_state, draw_state}
use hanabi_bot.Basics.Invariant.{IsLegalPlay, IsLegalDiscard}
use hanabi_bot.Basics.Reach.{Reach, here, next, drawn, played, game-IsWellFormed}
use hanabi_bot.Basics.Pace.{max_score-discard_state, lost_points}
use hanabi_bot.Basics.Tempo.{pace-play_draw, pace-discard_draw}
use hanabi_bot.Basics.Tokens.{
  act, run, TurnAction, plays, discards, TokensInRange, act-TokensInRange, run-ended,
}
use hanabi_bot.Tests.Clues.{no_variant}

-- A result, or the state itself if the run throws.
abbrev or_else : State → Option State → State
or_else st none = st
or_else st (some st') = st'

abbrev new_game : State
new_game = start no_variant 2 0 false false

abbrev r1_drawn : DrawAction
r1_drawn = record { order = 0; player_index = 0; id = card 0 1 }

abbrev r5_drawn : DrawAction
r5_drawn = record { order = 1; player_index = 0; id = card 0 5 }

abbrev pub s1 : State
s1 = or_else new_game (draw_state new_game none r1_drawn)

abbrev pub s2 : State
s2 = or_else s1 (draw_state s1 none r5_drawn)

drawn_1 : draw_state new_game none r1_drawn ≡ some s1
unfolding draw_state start hand_size suit_counts all_counts
drawn_1 = refl

drawn_2 : draw_state s1 none r5_drawn ≡ some s2
unfolding draw_state start hand_size
drawn_2 = refl

s2-Reach : Reach new_game s2
s2-Reach = next (next here (drawn none r1_drawn drawn_1)) (drawn none r5_drawn drawn_2)

abbrev r1_played : CardAction
r1_played = record { player_index = 0; order = 0; id = card 0 1; failed = false }

abbrev s3 : State
s3 = or_else s2 (play_state s2 r1_played)

played_r1 : play_state s2 r1_played ≡ some s3
unfolding play_state draw_state start hand_size ◌+ℤ◌
played_r1 = refl

-- Five suits stand below the stacks' limits.
s2_play : IsLegalPlay s2 0
unfolding draw_state start
s2_play = record { suit = omega arith; below_max = omega arith }

s3-Reach : Reach new_game s3
unfolding draw_state start
s3-Reach = next s2-Reach (played r1_played 0 s2_play refl played_r1)

game-IsWellFormed_example : IsWellFormed s3
game-IsWellFormed_example = game-IsWellFormed no_variant 2 0 false false s3 s3-Reach

score_3 : score s3 ≡ 1
unfolding score play_state draw_state start hand_size
score_3 = refl

start-IsWellFormed_example :
    IsWellFormed (start no_variant 2 0 false false)
    × (score (start no_variant 2 0 false false) ≡ 0)
    × (max_score (start no_variant 2 0 false false) ≡ 25)
start-IsWellFormed_example = start-IsWellFormed no_variant 2 0 false false

pub s2-IsWellFormed : IsWellFormed s2
s2-IsWellFormed = game-IsWellFormed no_variant 2 0 false false s2 s2-Reach

s3-IsWellFormed : IsWellFormed s3
s3-IsWellFormed = game-IsWellFormed no_variant 2 0 false false s3 s3-Reach

is_basic_trash_iff_example : (is_basic_trash s2 (card 0 1) ≡ true) ↔ (
    (0 < get_or s2.play_stacks 0 0)
    ⊎ ((j : ℕ) × (get_or s2.play_stacks 0 0 ≤ j)
        × (j ≤ 0)
        × (get_or (get_or s2.discard_stacks 0 []) j 0 ≡ card_count s2 (card 0 (suc j)))))
unfolding draw_state start
is_basic_trash_iff_example = is_basic_trash_iff s2 0 0 s2-IsWellFormed (omega arith) (omega arith)

-- The only red five is discarded.
abbrev r5_lost : CardAction
r5_lost = record { player_index = 0; order = 1; id = card 0 5; failed = false }

abbrev s4 : State
s4 = or_else s2 (discard_state s2 r5_lost)

discarded_r5 : discard_state s2 r5_lost ≡ some s4
unfolding discard_state draw_state start hand_size
discarded_r5 = refl

s2_discard : IsLegalDiscard s2 0 4
unfolding draw_state start base_count card_count variant_card_count all_counts suit_counts test
    includes starts_with
s2_discard = record { suit = omega arith; rank = omega arith; copy_left = omega arith }

max_score-discard_state_example :
    (max_score s4 + lost_points s2 0 4 ≡ max_score s2)
    × ((max_score s4 < max_score s2) ↔ (is_critical s2 (card 0 5) ≡ true))
max_score-discard_state_example =
    max_score-discard_state s2 s4 r5_lost 0 4 s2-IsWellFormed s2_discard refl discarded_r5

one_point_lost : max_score s4 ≡ 24
unfolding max_score discard_state draw_state start hand_size variant_card_count all_counts
    suit_counts test includes starts_with
one_point_lost = refl

abbrev y1_drawn : DrawAction
y1_drawn = record { order = 2; player_index = 0; id = card 1 1 }

abbrev s5 : State
s5 = or_else s3 (draw_state s3 none y1_drawn)

abbrev s6 : State
s6 = or_else s4 (draw_state s4 none y1_drawn)

drawn_5 : draw_state s3 none y1_drawn ≡ some s5
unfolding play_state draw_state start hand_size ◌+ℤ◌
drawn_5 = refl

drawn_6 : draw_state s4 none y1_drawn ≡ some s6
unfolding discard_state draw_state start hand_size
drawn_6 = refl

pace-play_draw_example :
    (score s5 ≡ score s2 + 1) × (max_score s5 ≡ max_score s2) × (pace s5 ≡ pace s2)
unfolding draw_state start
pace-play_draw_example =
    pace-play_draw s2 s3 s5 r1_played 0 none y1_drawn s2-IsWellFormed s2_play refl played_r1 drawn_5

pace-discard_draw_example :
    (score s6 ≡ score s2) × (pace s6 ≡ pace s2 +ℤ pos (lost_points s2 0 4) -ℤ pos 1)
pace-discard_draw_example =
    pace-discard_draw s2 s4 s6 r5_lost 0 4 none y1_drawn s2-IsWellFormed s2_discard refl
      discarded_r5 drawn_6

act-TokensInRange_example : TokensInRange s4
unfolding draw_state start act
act-TokensInRange_example =
    act-TokensInRange s2 s4 (discards r5_lost) (omega arith, omega arith) tt discarded_r5

-- Two turns are left after the last draw.
abbrev last_round : State
last_round = record s2 { endgame_turns = pos 2; cards_left = pos 0 }

abbrev last_actions : List TurnAction
last_actions = discards r5_lost ∷ plays r1_played ∷ []

abbrev last_state : State
last_state = or_else last_round (run last_round last_actions)

last_run : run last_round last_actions ≡ some last_state
unfolding run act discard_state play_state draw_state start hand_size ◌+ℤ◌
last_run = refl

run-ended_example :
    (last_state.endgame_turns ≡ pos 0) × ((ended last_state ≡ true) ↔ (length last_actions ≡ 2))
run-ended_example = run-ended last_actions last_round last_state 2 refl (omega arith) last_run
