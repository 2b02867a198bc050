-- ===== src/Basics/Reach.antt =====
-- A game as a sequence of actions that the rules allow.
use hanabi_bot.Base.{ℕ, suc, ◌≡◌, Bool, Option, some, get_or, inl, inr}
use hanabi_bot.Identity.{Identity, card}
use hanabi_bot.Variants.{Variant}
use hanabi_bot.State.{State, start}
use hanabi_bot.State.WellFormed.{IsWellFormed}
use hanabi_bot.State.Start.{start-IsWellFormed}
use hanabi_bot.Basics.{
  CardAction, ClueAction, DrawAction, play_state, discard_state, clue_state, draw_state,
}
use hanabi_bot.Basics.Invariant.{
  IsLegalPlay, IsLegalDiscard, clue_draw-IsWellFormed, play_state-IsWellFormed,
  discard_state-IsWellFormed,
}

-- One handled action. A card that is played is the next of its stack; of a card that is discarded
-- there is a copy. These are facts about the cards that the server deals.
pub data Step (st st' : State) : Type 0 where
  clued : (a : ClueAction) → clue_state st a ≡ some st' → Step st st'
  drawn :
      (known : Option Identity) (a : DrawAction) → draw_state st known a ≡ some st' → Step st st'
  played :
      (a : CardAction) (s : ℕ)
      → IsLegalPlay st s
      → a.id ≡ card s (suc (get_or st.play_stacks s 0))
      → play_state st a ≡ some st'
      → Step st st'
  discarded :
      (a : CardAction) (s k : ℕ)
      → IsLegalDiscard st s k
      → a.id ≡ card s (suc k)
      → discard_state st a ≡ some st'
      → Step st st'

pub data Reach (st : State) : State → Type 0 where
  here : Reach st st
  next : {st' st'' : State} → Reach st st' → Step st' st'' → Reach st st''

Step-IsWellFormed : (st st' : State) → Step st st' → IsWellFormed st → IsWellFormed st'
Step-IsWellFormed st st' (clued a h) w = clue_draw-IsWellFormed st st' w (inl (a, h))
Step-IsWellFormed st st' (drawn known a h) w = clue_draw-IsWellFormed st st' w (inr (known, a, h))
Step-IsWellFormed st st' (played a s legal e h) w = play_state-IsWellFormed st st' a s w legal e h
Step-IsWellFormed st st' (discarded a s k legal e h) w =
    discard_state-IsWellFormed st st' a s k w legal e h

Reach-IsWellFormed : {st st' : State} → IsWellFormed st → Reach st st' → IsWellFormed st'
Reach-IsWellFormed w here = w
Reach-IsWellFormed w (next r step) = Step-IsWellFormed _ _ step (Reach-IsWellFormed w r)

-- In every state of every game, of any variant, the stacks are well-formed: no rank has more copies
-- played and discarded than there are, the limit of each suit stands above its stack, every rank
-- below the limit has a copy left, and the rank above it has none.
pub game-IsWellFormed :
    (v : Variant) (players us : ℕ) (less extra : Bool) (st : State)
    → Reach (start v players us less extra) st
    → IsWellFormed st
game-IsWellFormed v players us less extra st r =
    Reach-IsWellFormed (start-IsWellFormed v players us less extra).0 r
