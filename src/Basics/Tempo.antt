-- ===== src/Basics/Tempo.antt =====
-- How each action moves the pace, `score + cardsLeft + numPlayers - maxScore`.
use hanabi_bot.Base.{ℕ, suc, ◌+◌, ◌≡◌, refl, get_or, set, sum, Option, some, arith, sum-set}
use hanabi_bot.Base.Int.{ℤ, pos, ◌+ℤ◌, ◌-ℤ◌, int_laws}
use hanabi_bot.Identity.{Identity, card}
use hanabi_bot.State.{State, score, max_score, pace}
use hanabi_bot.State.WellFormed.{IsWellFormed}
use hanabi_bot.Basics.{CardAction, DrawAction, play_state, discard_state, draw_state, count_discard}
use hanabi_bot.Basics.Effects.{
  play_state-SameStacks, discard_state-SameStacks, draw_state-SameStacks,
}
use hanabi_bot.Basics.Invariant.{IsLegalPlay, IsLegalDiscard}
use hanabi_bot.Basics.Pace.{max_score-discard_state, lost_points}

play_state-counts :
    (st st' : State) (a : CardAction)
    → play_state st a ≡ some st'
    → (st'.cards_left ≡ st.cards_left) × (st'.num_players ≡ st.num_players)
unfolding play_state
play_state-counts st st' a h = ground arith

discard_state-counts :
    (st st' : State) (a : CardAction)
    → discard_state st a ≡ some st'
    → (st'.cards_left ≡ st.cards_left) × (st'.num_players ≡ st.num_players)
unfolding discard_state
discard_state-counts st st' a h = ground arith

draw_state-counts :
    (st st' : State) (known : Option Identity) (a : DrawAction)
    → draw_state st known a ≡ some st'
    → (st'.cards_left ≡ st.cards_left -ℤ pos 1) × (st'.num_players ≡ st.num_players)
unfolding draw_state
draw_state-counts st st' known a h = ground arith

draw_state-pace :
    (st st' : State) (known : Option Identity) (a : DrawAction)
    → draw_state st known a ≡ some st'
    → (score st' ≡ score st) × (max_score st' ≡ max_score st) × (pace st' ≡ pace st -ℤ pos 1)
unfolding pace score max_score
draw_state-pace st st' known a h =
    let same = draw_state-SameStacks st st' known a h in
    let n = draw_state-counts st st' known a h in
    rw (same.play, same.max, n.0, n.1) (refl, refl, omega int_laws)

play_state-pace :
    (st st' : State) (a : CardAction) (s : ℕ)
    → IsWellFormed st
    → IsLegalPlay st s
    → a.id ≡ card s (suc (get_or st.play_stacks s 0))
    → play_state st a ≡ some st'
    → (score st' ≡ score st + 1) × (max_score st' ≡ max_score st) × (pace st' ≡ pace st +ℤ pos 1)
unfolding pace score max_score
play_state-pace st st' a s w legal e h =
    let same = play_state-SameStacks st st' a s _ e h in
    let n = play_state-counts st st' a h in
    let gain : sum (set st.play_stacks s (suc (get_or st.play_stacks s 0)))
        ≡ sum st.play_stacks + 1 =
      omega (
        arith,
        sum-set st.play_stacks s (suc (get_or st.play_stacks s 0))
            (omega (arith, w.play_length, legal.suit)),
      ) in
    rw (same.play, same.max, n.0, n.1, gain) (refl, refl, omega int_laws)

-- A turn that plays the next card of a stack and draws a card scores one point and leaves the pace
-- and the highest score that can be reached as they were.
pub pace-play_draw :
    (st mid st' : State) (a : CardAction) (s : ℕ) (known : Option Identity) (d : DrawAction)
    → IsWellFormed st
    → IsLegalPlay st s
    → a.id ≡ card s (suc (get_or st.play_stacks s 0))
    → play_state st a ≡ some mid
    → draw_state mid known d ≡ some st'
    → (score st' ≡ score st + 1) × (max_score st' ≡ max_score st) × (pace st' ≡ pace st)
pace-play_draw st mid st' a s known d w legal e h g =
    let played = play_state-pace st mid a s w legal e h in
    let drawn = draw_state-pace mid st' known d g in
    rw (drawn.0, drawn.1, drawn.2, played.0, played.1, played.2) (refl, refl, omega int_laws)

gap :
    (score n m lost max : ℕ) (left : ℤ)
    → m + lost ≡ max
    → pos score +ℤ (left -ℤ pos 1) +ℤ pos n -ℤ pos m
      ≡ pos score +ℤ left +ℤ pos n -ℤ pos max +ℤ pos lost -ℤ pos 1
gap score n m lost max left e = omega int_laws

-- A turn that discards a card and draws one lowers the pace by one, less the points that are lost
-- with a critical card.
pub pace-discard_draw :
    (st mid st' : State) (a : CardAction) (s k : ℕ) (known : Option Identity) (d : DrawAction)
    → IsWellFormed st
    → IsLegalDiscard st s k
    → a.id ≡ card s (suc k)
    → discard_state st a ≡ some mid
    → draw_state mid known d ≡ some st'
    → (score st' ≡ score st) × (pace st' ≡ pace st +ℤ pos (lost_points st s k) -ℤ pos 1)
unfolding pace score max_score count_discard
pace-discard_draw st mid st' a s k known d w legal e h g =
    let same = discard_state-SameStacks st mid a s (suc k) e h in
    let n = discard_state-counts st mid a h in
    let lost = (max_score-discard_state st mid a s k w legal e h).0 in
    let drawn = draw_state-SameStacks mid st' known d g in
    let m = draw_state-counts mid st' known d g in
    rw (drawn.play, drawn.max, m.0, m.1, same.play, n.0, n.1)
      (
        refl,
        gap (sum st.play_stacks) st.num_players (max_score mid) (lost_points st s k) (max_score st)
            st.cards_left lost,
      )
