-- ===== src/Basics/Tokens.antt =====
-- Clue tokens, and the turns that are left once the deck is empty.
use hanabi_bot.Base.{
  ℕ, suc, ◌+◌, ◌-◌, ◌≤◌, ◌≡◌, ◌↔◌, sym, ap, ◌∙◌, true, ◌&&◌, List, [], ◌∷◌, length, Option, some,
  if◌then◌else◌, arith, Option-cases, inl, inr,
}
use mathlib.Core.Option.{some-injective}
use hanabi_bot.Base.Int.{pos, ◌+ℤ◌, ◌-ℤ◌, ◌≤ℤ◌, eq_ℤ, ltb_ℤ}
use hanabi_bot.State.{State, card_at, ended}
use hanabi_bot.Basics.{
  CardAction, ClueAction, play_state, discard_state, clue_state, clue_cards, ◌>>=◌, endgame_tick,
  regain_token,
}

-- The actions that a player chooses from.
pub data TurnAction : Type 0 where
  clues : ClueAction → TurnAction
  plays discards : CardAction → TurnAction

unfoldable pub act : State → TurnAction → Option State
act st (clues a) = clue_state st a
act st (plays a) = play_state st a
act st (discards a) = discard_state st a

clue_cards-counts :
    (a : ClueAction) (os : List ℕ) (st st' : State)
    → clue_cards a os st ≡ some st'
    → (st'.clue_tokens ≡ st.clue_tokens) × (st'.endgame_turns ≡ st.endgame_turns)
unfolding clue_cards
clue_cards-counts a [] st st' h = ground arith
clue_cards-counts a (o ∷ os) st st' h = elim (Option-cases (card_at st o)) [
  | inl e ↦ absurd (ground arith)
  | inr (c, e) ↦ clue_cards-counts a os _ st' (rw (e, clue_cards) at h)
]

clue_state-tokens :
    (st st' : State) (a : ClueAction)
    → clue_state st a ≡ some st'
    → (st'.clue_tokens ≡ st.clue_tokens -ℤ pos 1)
      × (st'.endgame_turns ≡ (endgame_tick st).endgame_turns)
unfolding clue_state endgame_tick
clue_state-tokens st st' a h = elim (Option-cases (clue_cards a a.list st)) [
  | inl e ↦ absurd (ground arith)
  | inr (mid, e) ↦ ground (arith, clue_cards-counts a a.list st mid e)
]

play_state-turns :
    (st st' : State) (a : CardAction)
    → play_state st a ≡ some st'
    → st'.endgame_turns ≡ (endgame_tick st).endgame_turns
unfolding play_state
play_state-turns st st' a h = ground arith

discard_state-turns :
    (st st' : State) (a : CardAction)
    → discard_state st a ≡ some st'
    → st'.endgame_turns ≡ (endgame_tick st).endgame_turns
unfolding discard_state
discard_state-turns st st' a h = ground arith

play_state-tokens :
    (st st' : State) (a : CardAction)
    → play_state st a ≡ some st'
    → st'.clue_tokens ≡ (
        if eq_ℤ a.id.rank (pos 5) && ltb_ℤ st.clue_tokens (pos 8)
        then st.clue_tokens +ℤ pos 1
        else st.clue_tokens)
unfolding play_state
play_state-tokens st st' a h = ground arith

discard_state-tokens :
    (st st' : State) (a : CardAction)
    → discard_state st a ≡ some st'
    → (st'.clue_tokens ≡ (if a.failed then st.clue_tokens else regain_token st.clue_tokens))
      × (st'.strikes ≡ (if a.failed then st.strikes + 1 else st.strikes))
unfolding discard_state
discard_state-tokens st st' a h = ground arith

-- A clue wants a token.
abbrev pub HasToken : State → TurnAction → Type 0
HasToken st (clues a) = pos 1 ≤ℤ st.clue_tokens
HasToken st (plays a) = Unit {0}
HasToken st (discards a) = Unit {0}

abbrev pub TokensInRange : State → Type 0
TokensInRange st = (pos 0 ≤ℤ st.clue_tokens) × (st.clue_tokens ≤ℤ pos 8)

-- The number of clue tokens stays from 0 to 8 under every action, as long as no clue is given
-- without a token.
pub act-TokensInRange :
    (st st' : State) (x : TurnAction)
    → TokensInRange st
    → HasToken st x
    → act st x ≡ some st'
    → TokensInRange st'
unfolding act regain_token ◌+ℤ◌ ◌-ℤ◌
act-TokensInRange st st' (clues a) r t h = rw (clue_state-tokens st st' a h).0 (ground arith)
act-TokensInRange st st' (plays a) r t h = rw (play_state-tokens st st' a h) (ground arith)
act-TokensInRange st st' (discards a) r t h = rw (discard_state-tokens st st' a h).0 (ground arith)

act-turns :
    (st st' : State) (x : TurnAction)
    → act st x ≡ some st'
    → st'.endgame_turns ≡ (endgame_tick st).endgame_turns
unfolding act
act-turns st st' (clues a) h = (clue_state-tokens st st' a h).1
act-turns st st' (plays a) h = play_state-turns st st' a h
act-turns st st' (discards a) h = discard_state-turns st st' a h

tick_pos :
    (st : State) (k : ℕ)
    → st.endgame_turns ≡ pos k
    → 1 ≤ k
    → (endgame_tick st).endgame_turns ≡ pos (k - 1)
unfolding endgame_tick ◌-ℤ◌
tick_pos st k e h = rw e (ground arith)

unfoldable pub run : State → List TurnAction → Option State
run st [] = some st
run st (x ∷ xs) = do st' ← act st x; run st' xs

-- When the last card has been drawn, and `k` turns are left, the game has ended after `k` actions,
-- whatever they are, and not after fewer.
pub run-ended :
    (xs : List TurnAction) (st st' : State) (k : ℕ)
    → st.endgame_turns ≡ pos k
    → length xs ≤ k
    → run st xs ≡ some st'
    → (st'.endgame_turns ≡ pos (k - length xs)) × ((ended st' ≡ true) ↔ (length xs ≡ k))
unfolding run ended
run-ended [] st st' k e le h =
    let now : st'.endgame_turns ≡ pos k =
      ap (λ (t : State). t.endgame_turns) (sym (some-injective _ _ h)) ∙ e in
    rw now (ap pos (omega arith), (λ t. ground arith, λ z. ground arith))
run-ended (x ∷ xs) st st' k e le h = elim (Option-cases (act st x)) [
  | inl n ↦ absurd (ground arith)
  | inr (mid, a) ↦
      let later : mid.endgame_turns ≡ pos (k - 1) =
        act-turns st mid x a ∙ tick_pos st k e (omega arith) in
      shift k (length xs) (omega arith)
        (run-ended xs mid st' (k - 1) later (omega arith) (rw (a, run) at h))
]
  where
    shift :
        (k n : ℕ)
        → suc n ≤ k
        → (st'.endgame_turns ≡ pos (k - 1 - n)) × ((ended st' ≡ true) ↔ (n ≡ k - 1))
        → (st'.endgame_turns ≡ pos (k - suc n)) × ((ended st' ≡ true) ↔ (suc n ≡ k))
    shift k n h (p, q) =
        let same : k - 1 - n ≡ k - suc n = omega arith in
        (rw same at p, (λ t. omega (arith, q.0 t), λ z. q.1 (omega arith)))
