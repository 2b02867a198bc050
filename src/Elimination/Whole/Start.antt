-- ===== src/Elimination/Whole/Start.antt =====
-- What holds when `card_elim` begins.
use hanabi_bot.Base.{
  ℕ, ◌≡◌, refl, sym, ap, ◌∙◌, inl, inr, Bool, true, false, List, [], ◌∷◌, ◌++◌, ◌∈◌, some, ◌==◌,
  if◌then◌else◌, Bool-cases, append-mem,
}
use mathlib.Core.Option.{some-injective}
use hanabi_bot.Identity.{Identity}
use hanabi_bot.IdentitySet.{IdentitySet, IsValid, union, set, make, length as set_length}
use hanabi_bot.IdentitySet.Members.{operations-IsValid}
use hanabi_bot.State.{State}
use hanabi_bot.Thoughts.{Thoughts, thought_at}
use hanabi_bot.Thoughts.Sound.{IsSound, AreDrawn}
use hanabi_bot.Player.Bind.{>>=_some}
use hanabi_bot.Elimination.{Entry, Knowledge, entries_from}
use hanabi_bot.Elimination.Counting.{AllDiffer}
use hanabi_bot.Elimination.Certains.{all_orders}
use hanabi_bot.Elimination.SetUp.{gather, is_candidate, set_up, set_up_card, set_up_cards}
use hanabi_bot.Elimination.Cross.Orders.{
  orders_of, orders_of-append, mem-orders_of, orders_of-entries_from, AllDiffer-append,
}
use hanabi_bot.Elimination.Cross.Fits.{AreCandidates}

-- `gather` does not throw, and gives a valid set.
pub gather-IsValid :
    (n : ℕ) (deal : ℕ → Identity) (st : State) (thoughts : Thoughts) (os : List ℕ)
    (all : IdentitySet)
    → IsSound n deal thoughts
    → AreDrawn thoughts os
    → IsValid all
    → all.num_suits ≡ n
    → (ids : IdentitySet) × (gather st thoughts os all ≡ some ids)
      × IsValid ids
      × (ids.num_suits ≡ n)
unfolding gather union make
gather-IsValid n deal st thoughts [] all sound drawn v e = (all, refl, v, e)
gather-IsValid n deal st thoughts (o ∷ os) all sound drawn v e =
    let (c, at) = drawn o (inl refl) in
    let t = sound o c at in
    let (meet, less, v') = operations-IsValid all (set c.possible) v (t.suits ∙ sym e, t.valid) in
    let more = union all (set c.possible) in
    let (ids, h, w, s) =
      gather-IsValid n deal st thoughts os more sound (λ i m. drawn i (inr m)) v' e in
    elim (Bool-cases (set_length more == set_length st.all_ids)) [
      | inl full ↦ rw (at, full) (more, refl, v', e)
      | inr part ↦ rw (at, part) (ids, h, w, s)
    ]

-- The candidates before the cards `es`.
record AreBefore (st : State) (es : List Entry) (cands : List Entry) : Type 0 where
  good : AreCandidates st cands
  apart : (e : Entry) → e ∈ es → ¬ (e.order ∈ orders_of cands)

set_up_card-AreBefore :
    (st : State) (is_common : Bool) (e : Entry) (es : List Entry) (k k' : Knowledge)
    → set_up_card st is_common e k ≡ some k'
    → e ∈ entries_from 0 st.hands
    → ¬ (e.order ∈ orders_of es)
    → AreBefore st (e ∷ es) k.candidates
    → AreBefore st es k'.candidates
unfolding set_up_card
set_up_card-AreBefore st is_common e es k k' h held fresh b =
    let (c, at, q) = >>=_some (thought_at k.thoughts e.order) _ k' h in
    let same = ap (λ (x : Knowledge). x.candidates) (some-injective _ k' q) in
    rw (← same) (either (is_candidate st c))
  where
    longer : AreBefore st es (k.candidates ++ e ∷ [])
    longer = record {
      good = record {
        in_hands = λ d m. elim (append-mem d k.candidates (e ∷ []) m) [
          | inl old ↦ b.good.in_hands d old
          | inr new ↦ elim new [ inl q ↦ rw q held | inr no_more ↦ absurd no_more ]
        ];
        once = rw (orders_of-append k.candidates (e ∷ [])) (
            AllDiffer-append (orders_of k.candidates) (e.order ∷ []) b.good.once ((λ m. m), tt)
              (λ x m. elim m [
                | inl q ↦ rw q (b.apart e (inl refl))
                | inr no_more ↦ absurd no_more
              ]));
      };
      apart = λ d m old.
          elim (append-mem d.order (orders_of k.candidates) (e.order ∷ [])
            (rw (orders_of-append k.candidates (e ∷ [])) at (old))) [
              | inl a ↦ b.apart d (inr m) a
              | inr l ↦ elim l [
                | inl q ↦ fresh (rw (← q) (mem-orders_of d es m))
                | inr no_more ↦ no_more
              ]
            ];
    }

    either : (t : Bool) → AreBefore st es (if t then k.candidates ++ e ∷ [] else k.candidates)
    either true = longer
    either false = record { good = b.good; apart = λ d m. b.apart d (inr m) }

set_up_cards-AreCandidates :
    (st : State) (is_common : Bool) (es : List Entry) (k k' : Knowledge)
    → set_up_cards st is_common es k ≡ some k'
    → ((e : Entry) → e ∈ es → e ∈ entries_from 0 st.hands)
    → AllDiffer (orders_of es)
    → AreBefore st es k.candidates
    → AreCandidates st k'.candidates
unfolding set_up_cards
set_up_cards-AreCandidates st is_common [] k k' h held differ b =
    rw (← some-injective k k' h) b.good
set_up_cards-AreCandidates st is_common (e ∷ es) k k' h held (fresh, differ) b =
    let (k1, first, q) = >>=_some (set_up_card st is_common e k) _ k' h in
    set_up_cards-AreCandidates st is_common es k1 k' q (λ d m. held d (inr m)) differ
      (set_up_card-AreBefore st is_common e es k k1 first (held e (inl refl)) fresh b)

-- The candidates of the set-up are cards of the hands, each once, and it leaves the thoughts.
pub set_up-AreCandidates :
    (st : State) (is_common : Bool) (thoughts : Thoughts) (k : Knowledge)
    → set_up st is_common thoughts ≡ some k
    → AllDiffer (all_orders st.hands)
    → AreCandidates st k.candidates
unfolding set_up
set_up-AreCandidates st is_common thoughts k h differ =
    set_up_cards-AreCandidates st is_common (entries_from 0 st.hands) _ k h (λ e m. m)
      (rw (orders_of-entries_from 0 st.hands) differ)
      (record { good = record { in_hands = λ e m. absurd m; once = tt }; apart = λ e m old. old })
