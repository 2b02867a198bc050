-- ===== src/Perform/Legal.antt =====
-- What a player requests is handled as the rules want it.
use hanabi_bot.Base.{
  ℕ, suc, ◌+◌, ◌≡◌, refl, ◌∙◌, ◌⊎◌, inl, inr, Bool, true, false, List, ◌∈◌, Option, some, ◌==◌,
  get_or, get_elem?, arith, Bool-cases, Option-cases, dec_lt, mem-some_of,
}
use mathlib.Core.Option.{some-injective}
use hanabi_bot.Identity.{Identity, card, is_unknown}
use hanabi_bot.Variants.{ClueType, card_touched}
use hanabi_bot.State.{State, ActualCard, card_at}
use hanabi_bot.State.WellFormed.{IsWellFormed}
use hanabi_bot.Basics.{CardAction, ClueAction, play_state, discard_state, clue_state}
use hanabi_bot.Basics.Invariant.{
  IsLegalPlay, IsLegalDiscard, play_state-IsWellFormed, discard_state-IsWellFormed,
  copy_left-get_or,
}
use hanabi_bot.Thoughts.{includes_order}
use hanabi_bot.Perform.{
  PerformAction, play, discard, Action, clue_action, play_action, discard_action, game_over,
  perform_to_action, perform_play, perform_clue, touched_in,
}
use hanabi_bot.Perform.Sorted.{includes_order-sort, touched_in-includes}

-- What the handler of basics.js for an action makes of the public state: the producer of `newState`
-- in it, without the thoughts of the players. The end of a game leaves the state.
unfoldable pub handle : State → Action → Option State
handle st (clue_action a) = clue_state st a
handle st (play_action a) = play_state st a
handle st (discard_action a) = discard_state st a
handle st (game_over i c) = some st

module _ (st : State) (a : CardAction) (hand : List ℕ) (c : ActualCard)
    (has_hand : get_elem? st.hands a.player_index ≡ some hand)
    (has_card : card_at st a.order ≡ some c) where
  play_state_runs : (st' : State) × (play_state st a ≡ some st')
  unfolding play_state
  play_state_runs = elim (Bool-cases (is_unknown a.id)) [
    | inl u ↦ rw (has_hand, u) (_, refl)
    | inr k ↦ rw (has_hand, k, has_card) (_, refl)
  ]

  discard_state_runs : (st' : State) × (discard_state st a ≡ some st')
  unfolding discard_state
  discard_state_runs = elim (Bool-cases (is_unknown a.id)) [
    | inl u ↦ rw (has_hand, u) (_, refl)
    | inr k ↦ rw (has_hand, k, has_card) (_, refl)
  ]

-- A held card that is the next of its stack can still be played.
held-IsLegalPlay :
    (st : State) (s k : ℕ)
    → IsWellFormed st
    → IsLegalDiscard st s k
    → k ≡ get_or st.play_stacks s 0
    → IsLegalPlay st s
held-IsLegalPlay st s k w legal e =
    elim (dec_lt (get_or st.play_stacks s 0) (get_or st.max_ranks s 0)) [
      | yes lt ↦ record { suit = legal.suit; below_max = lt }
      | no not_lt ↦
          let ok = w.suit s legal.suit in
          let top : get_or st.max_ranks s 0 ≡ k = omega (arith, ok.play-le-max, legal.rank) in
          let gone = rw top at (ok.exhausted (omega (arith, legal.rank))) in
          absurd (omega (arith, gone, copy_left-get_or st s k legal.copy_left))
    ]

-- A request to play or discard a held card, of which the deck tells the identity and a copy is left,
-- becomes an action whose change of the public state, as `onPlay` and `onDiscard` make it, succeeds
-- and keeps the stacks well-formed, whether or not the card is playable. The thoughts of the players
-- are not part of it.
pub perform_card-IsWellFormed :
    (st : State) (p : PerformAction) (player s k : ℕ) (deck : List Identity) (hand : List ℕ)
    (c : ActualCard)
    → IsWellFormed st
    → IsLegalDiscard st s k
    → (p.type ≡ play) ⊎ (p.type ≡ discard)
    → get_elem? deck p.target ≡ some (card s (suc k))
    → get_elem? st.hands player ≡ some hand
    → card_at st p.target ≡ some c
    → (a : Action) × (st' : State) × (perform_to_action st p player deck ≡ some a)
      × (handle st a ≡ some st')
      × IsWellFormed st'
unfolding perform_to_action perform_play handle
perform_card-IsWellFormed st p player s k deck hand c w legal type held has_hand has_card =
    elim type [
      | inl e ↦ elim (Bool-cases (get_or st.play_stacks s 0 + 1 == suc k)) [
        | inl t ↦
            let next : k ≡ get_or st.play_stacks s 0 = ground arith in
            let (st', h) = play_state_runs st (action false) hand c has_hand has_card in
            rw (e, held, t)
              (
                _,
                st',
                refl,
                h,
                play_state-IsWellFormed st st' (action false) s w
                    (held-IsLegalPlay st s k w legal next) (rw next) h,
              )
        | inr f ↦ rw (e, held, f) (discards true)
      ]
      | inr e ↦ rw (e, held) (discards false)
    ]
  where
    action : Bool → CardAction
    action failed = record {
      player_index = player;
      order = p.target;
      id = card s (suc k);
      failed = failed;
    }

    discards :
        (failed : Bool)
        → (a : Action) × (st' : State) × (◌≡◌ {A = Option Action}
            (some (discard_action (action failed)))
            (some a))
          × (handle st a ≡ some st')
          × IsWellFormed st'
    discards failed =
        let (st', h) = discard_state_runs st (action failed) hand c has_hand has_card in
        (_, st', refl, h, discard_state-IsWellFormed st st' (action failed) s k w legal refl h)

clue_of : {a b : ClueAction} → clue_action a ≡ clue_action b → a ≡ b
clue_of e = ground arith

-- The action of a clue names exactly the cards of the hand that the clue touches.
pub perform_clue_lem :
    (st : State) (type : ClueType) (p : PerformAction) (giver o : ℕ) (deck : List Identity)
    (hand : List ℕ) (id : Identity) (a : ClueAction)
    → get_elem? st.hands p.target ≡ some hand
    → o ∈ hand
    → get_elem? deck o ≡ some id
    → perform_clue st type p giver deck ≡ some (clue_action a)
    → includes_order a.list o ≡ card_touched id st.variant a.clue
unfolding perform_clue
perform_clue_lem st type p giver o deck hand id a has_hand m d h =
    elim (Option-cases
      (touched_in st.variant (record { type = type; value = p.value }) deck hand)) [
        | inl e ↦ absurd (ground arith)
        | inr (list, e) ↦
            let named =
              touched_in-includes st.variant (record { type = type; value = p.value }) deck hand
                list o id e d in
            let listed : includes_order hand o ≡ true = mem-some_of _ hand o m (ground arith) in
            let made = some-injective _ _ (rw (has_hand, e) at (h)) in
            let named' : includes_order list o
                ≡ card_touched id st.variant (record { type = type; value = p.value }) =
              ground (arith, named) in
            rw (← clue_of made) (includes_order-sort list o ∙ named')
      ]
