-- ===== src/Basics/Invariant.antt =====
-- The handlers keep the stacks well-formed.
use hanabi_bot.Base.{
  ℕ, suc, ◌+◌, ◌-◌, ◌<◌, min, ◌≡◌, ◌≢◌, refl, ◌∙◌, ◌⊎◌, inl, inr, Bool, true, false, List, [],
  length, get_or, set, Option, some, if◌then◌else◌, ltb, ◌==◌, arith, ℕ_discrete, length-set,
  get_or-set_self, get_or-set_ne,
}
use hanabi_bot.Identity.{Identity, card}
use hanabi_bot.State.{State, base_count, card_count}
use hanabi_bot.State.WellFormed.{IsWellFormed}
use hanabi_bot.Basics.{
  CardAction, ClueAction, DrawAction, play_state, discard_state, clue_state, draw_state,
  count_discard,
}
use hanabi_bot.Basics.Effects.{
  SameStacks, play_state-SameStacks, discard_state-SameStacks, clue_state-SameStacks,
  draw_state-SameStacks,
}
use hanabi_bot.Basics.Suit.{play-SuitIsOk, discard-SuitIsOk}

SameStacks-IsWellFormed : {st st' : State} → SameStacks st st' → IsWellFormed st → IsWellFormed st'
SameStacks-IsWellFormed e w = record {
  play_length = rw (e.play, e.variant) w.play_length;
  discard_length = rw (e.discards, e.variant) w.discard_length;
  max_length = rw (e.max, e.variant) w.max_length;
  counts_length = rw (e.counts, e.variant) w.counts_length;
  table = rw (e.counts, e.variant) w.table;
  suit = rw (e.play, e.discards, e.max, e.counts, e.variant) w.suit;
}

-- A clue and a draw do not touch the stacks.
pub clue_draw-IsWellFormed :
    (st st' : State)
    → IsWellFormed st
    → ((a : ClueAction) × (clue_state st a ≡ some st'))
      ⊎ ((known : Option Identity) × (a : DrawAction) × (draw_state st known a ≡ some st'))
    → IsWellFormed st'
clue_draw-IsWellFormed st st' w (inl (a, h)) =
    SameStacks-IsWellFormed (clue_state-SameStacks st st' a h) w
clue_draw-IsWellFormed st st' w (inr (known, a, h)) =
    SameStacks-IsWellFormed (draw_state-SameStacks st st' known a h) w

-- A play of the next card of a stack, of which a copy is left.
pub record IsLegalPlay (st : State) (s : ℕ) : Type 0 where
  pub suit : s < length st.variant.suits
  pub below_max : get_or st.play_stacks s 0 < get_or st.max_ranks s 0

pub play_state-IsWellFormed :
    (st st' : State) (a : CardAction) (s : ℕ)
    → IsWellFormed st
    → IsLegalPlay st s
    → a.id ≡ card s (suc (get_or st.play_stacks s 0))
    → play_state st a ≡ some st'
    → IsWellFormed st'
play_state-IsWellFormed st st' a s w legal e h =
    SameStacks-IsWellFormed (play_state-SameStacks st st' a s (suc (get_or st.play_stacks s 0)) e h)
      (record {
        play_length = length-set st.play_stacks s _ ∙ w.play_length;
        discard_length = w.discard_length;
        max_length = w.max_length;
        counts_length = w.counts_length;
        table = w.table;
        suit = λ t lt. elim (ℕ_discrete t s) [
          | yes same ↦
              rw
                (
                  same,
                  get_or-set_self st.play_stacks s (suc (get_or st.play_stacks s 0)) 0
                      (omega (arith, w.play_length, legal.suit)),
                )
                (play-SuitIsOk _ _ _ _ (w.suit s legal.suit) legal.below_max)
          | no other ↦
              rw (get_or-set_ne st.play_stacks s t (suc (get_or st.play_stacks s 0)) 0 other)
                (w.suit t lt)
        ];
      })

-- A discard of an identity of which a copy is neither played nor discarded yet.
pub record IsLegalDiscard (st : State) (s k : ℕ) : Type 0 where
  pub suit : s < length st.variant.suits
  pub rank : k < 5
  pub copy_left : base_count st (card s (suc k)) < card_count st (card s (suc k))

length-if_set :
    (b : Bool) (xs : List ℕ) (s v : ℕ) → length (if b then set xs s v else xs) ≡ length xs
length-if_set true xs s v = length-set xs s v
length-if_set false xs s v = refl

get_or-if_set_self :
    (b : Bool) (xs : List ℕ) (s v : ℕ)
    → s < length xs
    → get_or (if b then set xs s v else xs) s 0 ≡ (if b then v else get_or xs s 0)
get_or-if_set_self true xs s v h = get_or-set_self xs s v 0 h
get_or-if_set_self false xs s v h = refl

get_or-if_set_ne :
    (b : Bool) (xs : List ℕ) (s t v : ℕ)
    → t ≢ s
    → get_or (if b then set xs s v else xs) t 0 ≡ get_or xs t 0
get_or-if_set_ne true xs s t v h = get_or-set_ne xs s t v 0 h
get_or-if_set_ne false xs s t v h = refl

pub copy_left-get_or :
    (st : State) (s k : ℕ)
    → base_count st (card s (suc k)) < card_count st (card s (suc k))
    → get_or (get_or st.discard_stacks s []) k 0
        + (if ltb k (get_or st.play_stacks s 0) then 1 else 0)
      < get_or (get_or st.counts s []) k 0
unfolding base_count card_count
copy_left-get_or st s k h = ground arith

count_discard-IsWellFormed :
    (st : State) (s k : ℕ)
    → IsWellFormed st
    → IsLegalDiscard st s k
    → IsWellFormed (count_discard st (card s (suc k)))
unfolding count_discard card_count
count_discard-IsWellFormed st s k w legal = record {
  play_length = w.play_length;
  discard_length = length-set st.discard_stacks s _ ∙ w.discard_length;
  max_length = length-if_set _ st.max_ranks s _ ∙ w.max_length;
  counts_length = w.counts_length;
  table = w.table;
  suit = λ t lt. elim (ℕ_discrete t s) [
    | yes same ↦
        rw
          (
            same,
            get_or-set_self st.discard_stacks s row []
                (omega (arith, w.discard_length, legal.suit)),
            get_or-if_set_self (get_or row k 0 == get_or (get_or st.counts s []) k 0) st.max_ranks s
                (min (get_or st.max_ranks s 0) (suc k - 1))
                (omega (arith, w.max_length, legal.suit)),
            pred_suc,
          )
          (discard-SuitIsOk _ _ _ _ k (w.suit s legal.suit) legal.rank
            (copy_left-get_or st s k legal.copy_left))
    | no other ↦
        rw
          (
            get_or-set_ne st.discard_stacks s t row [] other,
            get_or-if_set_ne (get_or row k 0 == get_or (get_or st.counts s []) k 0) st.max_ranks s t
                (min (get_or st.max_ranks s 0) (suc k - 1)) other,
          )
          (w.suit t lt)
  ];
}
  where
    row : List ℕ
    row = set (get_or st.discard_stacks s []) k (get_or (get_or st.discard_stacks s []) k 0 + 1)

    pred_suc : suc k - 1 ≡ k
    pred_suc = omega arith

pub discard_state-IsWellFormed :
    (st st' : State) (a : CardAction) (s k : ℕ)
    → IsWellFormed st
    → IsLegalDiscard st s k
    → a.id ≡ card s (suc k)
    → discard_state st a ≡ some st'
    → IsWellFormed st'
discard_state-IsWellFormed st st' a s k w legal e h =
    SameStacks-IsWellFormed (discard_state-SameStacks st st' a s (suc k) e h)
      (count_discard-IsWellFormed st s k w legal)
