-- ===== src/Basics/Effects.antt =====
-- What each handler leaves of the stacks.
use hanabi_bot.Base.{ℕ, ◌≡◌, refl, Option, some, List, [], ◌∷◌, Option-cases, inl, inr, set, arith}
use hanabi_bot.Identity.{Identity, card}
use hanabi_bot.State.{State, ActualCard, card_at}
use hanabi_bot.Basics.{
  CardAction, ClueAction, DrawAction, play_state, discard_state, clue_state, clue_cards,
  update_card, draw_state, take_from_hand, identify, endgame_tick, count_discard,
}

-- What the queries on identities read.
pub record SameStacks (st st' : State) : Type 0 where
  pub play : st'.play_stacks ≡ st.play_stacks
  pub discards : st'.discard_stacks ≡ st.discard_stacks
  pub max : st'.max_ranks ≡ st.max_ranks
  pub counts : st'.counts ≡ st.counts
  pub variant : st'.variant ≡ st.variant

pub take_from_hand-SameStacks :
    (st st' : State) (p o : ℕ) → take_from_hand st p o ≡ some st' → SameStacks st st'
unfolding take_from_hand
take_from_hand-SameStacks st st' p o h = ground arith

identify-SameStacks :
    (st st' : State) (o : ℕ) (id : Identity) → identify st o id ≡ some st' → SameStacks st st'
unfolding identify
identify-SameStacks st st' o id h = ground arith

endgame_tick-SameStacks : (st : State) → SameStacks st (endgame_tick st)
unfolding endgame_tick
endgame_tick-SameStacks st = record {
  play = refl;
  discards = refl;
  max = refl;
  counts = refl;
  variant = refl;
}

-- A play puts the rank on the stack of its suit, and leaves the other stacks and limits.
pub play_state-SameStacks :
    (st st' : State) (a : CardAction) (s r : ℕ)
    → a.id ≡ card s r
    → play_state st a ≡ some st'
    → SameStacks (record st { play_stacks = set st.play_stacks s r }) st'
unfolding play_state
play_state-SameStacks st st' a s r e h = ground arith

pub discard_state-SameStacks :
    (st st' : State) (a : CardAction) (s r : ℕ)
    → a.id ≡ card s r
    → discard_state st a ≡ some st'
    → SameStacks (count_discard st (card s r)) st'
unfolding discard_state
discard_state-SameStacks st st' a s r e h = ground arith

clue_cards-SameStacks :
    (a : ClueAction) (os : List ℕ) (st st' : State)
    → clue_cards a os st ≡ some st'
    → SameStacks st st'
unfolding clue_cards
clue_cards-SameStacks a [] st st' h = ground arith
clue_cards-SameStacks a (o ∷ os) st st' h = elim (Option-cases (card_at st o)) [
  | inl e ↦ absurd (ground arith)
  | inr (c, e) ↦
      let ih : SameStacks (marked st c) st' =
        clue_cards-SameStacks a os (marked st c) st' (rw (e, clue_cards) at h) in
      record {
        play = ih.play;
        discards = ih.discards;
        max = ih.max;
        counts = ih.counts;
        variant = ih.variant;
      }
]
  where
    marked : State → ActualCard → State
    marked st c = record st {
      deck = set st.deck o (some (update_card a.clue a.giver st.turn_count c));
    }

pub clue_state-SameStacks :
    (st st' : State) (a : ClueAction) → clue_state st a ≡ some st' → SameStacks st st'
unfolding clue_state endgame_tick
clue_state-SameStacks st st' a h = elim (Option-cases (clue_cards a a.list st)) [
  | inl e ↦ absurd (ground arith)
  | inr (mid, e) ↦ ground (arith, clue_cards-SameStacks a a.list st mid e)
]

pub draw_state-SameStacks :
    (st st' : State) (known : Option Identity) (a : DrawAction)
    → draw_state st known a ≡ some st'
    → SameStacks st st'
unfolding draw_state
draw_state-SameStacks st st' known a h = ground arith
