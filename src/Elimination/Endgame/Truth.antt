-- ===== src/Elimination/Endgame/Truth.antt =====
-- `endgame_elim` does not throw, and rules out no card's own identity.
use hanabi_bot.Base.{
  ℕ, ◌+◌, ◌≡◌, ◌≢◌, refl, sym, ◌∙◌, ◌⊎◌, inl, inr, Bool, true, false, not, ◌&&◌, List, [], ◌∷◌, ◌∈◌,
  ◌==◌, Option, some, if◌then◌else◌, arith, Bool-cases, mem-append_left, mem-append_right,
  mem-some_of,
}
use mathlib.Core.Path.{subst}
use hanabi_bot.Base.Fallible.{Returns, ||?-Returns}
use hanabi_bot.Identity.{Identity, IsIdentity, is_unknown}
use hanabi_bot.IdentitySet.{has, length as set_length}
use hanabi_bot.State.{State}
use hanabi_bot.Basics.{◌>>=◌}
use hanabi_bot.Card.{Card, reset_inferences}
use hanabi_bot.Thoughts.{thought_at, includes_order}
use hanabi_bot.Thoughts.Sound.{HasTruth, thought_at-set}
use hanabi_bot.Elimination.{Entry, Knowledge, remove_id}
use hanabi_bot.Elimination.Certains.{all_orders, insert_certain-AreTrue, insert_certain-AllDiffer}
use hanabi_bot.Elimination.Grown.{Thins, Thins-refl, Thins-trans}
use hanabi_bot.Elimination.Truth.{
  IsRight, reset_inferences-seen, put-IsTrue, remove_id-HasTruth, reset_inferences-possible,
  HasTruth-identity,
}
use hanabi_bot.Elimination.Endgame.{
  Ruling, is_copy, is_left, put_ruled, note_certain, rule_out, elim_card, elim_cards, perform_elim,
  elim_others,
}
use hanabi_bot.Player.Bind.{>>=_known}
use hanabi_bot.Elimination.Endgame.Holders.{Hold}

put-IsRight :
    (n : ℕ) (deal : ℕ → Identity) (orders : List ℕ) (r : Ruling) (o : ℕ) (c d : Card)
    → thought_at r.knowledge.thoughts o ≡ some c
    → HasTruth n (deal o) d.possible
    → (d.rewind_ids ≡ c.rewind_ids) × (d.actual ≡ c.actual)
    → IsRight n deal orders r.knowledge
    → IsRight n deal orders (put_ruled r o d).knowledge
put-IsRight n deal orders r o c d at h (rewound, seen) g = record {
  is_true =
      put-IsTrue n deal orders
        (record { knowledge = r.knowledge; changed = false; recursive_ids = []; removals = [] }) o d
        g.is_true h;
  seen = λ i x e. elim (thought_at-set r.knowledge.thoughts o i d x e) [
    | inl (same, own) ↦
        let (no_rewind, right) = g.seen o c at in
        rw (same, own)
          (
            rewound ∙ no_rewind,
            subst (λ a. (is_unknown a.id ≡ true) ⊎ (a.id ≡ deal o)) (sym seen) right,
          )
    | inr old ↦ g.seen i x old
  ];
}

-- The step succeeds, what is known stays right, and the candidates are some of `cands`.
abbrev pub Succeeds :
    ℕ → (deal : ℕ → Identity) → List ℕ → (cands : List Entry) → Option Ruling → Type 0
Succeeds n deal orders cands res =
    (r : Ruling) × (res ≡ some r)
    × IsRight n deal orders r.knowledge
    × Thins cands r.knowledge.candidates

pub Succeeds-Thins :
    (n : ℕ) (deal : ℕ → Identity) (orders : List ℕ) (xs ys : List Entry) (res : Option Ruling)
    → Thins xs ys
    → Succeeds n deal orders ys res
    → Succeeds n deal orders xs res
Succeeds-Thins n deal orders xs ys res thin (r, e, g, thin') =
    (r, e, g, Thins-trans xs ys r.knowledge.candidates thin thin')

module _ (n : ℕ) (deal : ℕ → Identity) (orders : List ℕ)
    (ids : (o : ℕ) → IsIdentity n (deal o)) where
  note_certain-Succeeds :
      (r : Ruling) (o : ℕ) (c : Card)
      → o ∈ orders
      → HasTruth n (deal o) c.possible
      → (set_length c.possible == 1) ≡ true
      → IsRight n deal orders r.knowledge
      → Succeeds n deal orders r.knowledge.candidates (note_certain r o c)
  unfolding note_certain
  note_certain-Succeeds r o c held h one_left g =
      let t = g.is_true in
      rw (HasTruth-identity n (deal o) c (ids o) h one_left) (
        _,
        refl,
        record {
          is_true = record {
            sound = t.sound;
            truth = insert_certain-AreTrue deal orders _ r.knowledge.certain refl held t.truth;
            differ = λ i. insert_certain-AllDiffer i _ r.knowledge.certain (t.differ i);
            drawn = t.drawn;
          };
          seen = g.seen;
        },
        Thins-refl r.knowledge.candidates,
      )

  rule_out-Succeeds :
      (id : Identity) (o : ℕ) (c : Card) (r : Ruling)
      → IsIdentity n id
      → deal o ≢ id
      → o ∈ orders
      → thought_at r.knowledge.thoughts o ≡ some c
      → IsRight n deal orders r.knowledge
      → Succeeds n deal orders r.knowledge.candidates (rule_out id o c r)
  unfolding rule_out
  rule_out-Succeeds id o c r w ne held at g =
      let d = remove_id c id in
      let h = remove_id-HasTruth n id (deal o) c w (ids o) ne (g.is_true.sound o c at) in
      let stored = put-IsRight n deal orders r o c d at h (refl, refl) g in
      elim (Bool-cases (set_length d.inferred == 0 && not c.reset)) [
        | inl lost ↦ rw lost (
          _,
          refl,
          put-IsRight n deal orders r o c (reset_inferences d) at
              (subst (HasTruth n (deal o)) (sym (reset_inferences-possible d)) h)
              (reset_inferences-seen d) g,
          Thins-refl r.knowledge.candidates,
        )
        | inr kept ↦ elim (Bool-cases (set_length d.possible == 1)) [
          | inl one_left ↦
              let (r', q, g', thin) =
                note_certain-Succeeds (put_ruled r o d) o d held h one_left stored in
              rw (kept, one_left) (r', rw one_left at (q), g', thin)
          | inr more ↦ rw (kept, more) (_, refl, stored, Thins-refl r.knowledge.candidates)
        ]
      ]

  module _ (st : State) (id : Identity) (w : IsIdentity n id)
      (copy_returns : (k : Knowledge)
        → IsRight n deal orders k
        → (o : ℕ) → o ∈ orders
        → Returns (is_copy st k.thoughts id o)) where
    elim_card-Succeeds :
        (o : ℕ) (r : Ruling)
        → deal o ≢ id
        → o ∈ orders
        → IsRight n deal orders r.knowledge
        → Succeeds n deal orders r.knowledge.candidates (elim_card st id o r)
    unfolding elim_card is_left
    elim_card-Succeeds o r ne held g =
        let (c, at) = g.is_true.drawn o held in
        let (b, h) =
          ||?-Returns (some (not (has c.possible id))) (is_copy st r.knowledge.thoughts id o)
            (_, refl) (copy_returns r.knowledge g o held) in
        let (r', e, g', thin) = branch b c at in
        (r', >>=_known _ _ c at (>>=_known _ _ b h e), g', thin)
      where
        branch :
            (b : Bool) (c : Card)
            → thought_at r.knowledge.thoughts o ≡ some c
            → Succeeds n deal orders r.knowledge.candidates
                (if b then some r else rule_out id o c r)
        branch true c at = (r, refl, g, Thins-refl r.knowledge.candidates)
        branch false c at = rule_out-Succeeds id o c r w ne held at g

    elim_cards-Succeeds :
        (os : List ℕ) (r : Ruling)
        → ((o : ℕ) → o ∈ os → (deal o ≢ id) × (o ∈ orders))
        → IsRight n deal orders r.knowledge
        → Succeeds n deal orders r.knowledge.candidates (elim_cards st id os r)
    unfolding elim_cards
    elim_cards-Succeeds [] r held g = (r, refl, g, Thins-refl r.knowledge.candidates)
    elim_cards-Succeeds (o ∷ os) r held g =
        let (ne, m) = held o (inl refl) in
        let (r', h, g', thin) = elim_card-Succeeds o r ne m g in
        rw h (
          Succeeds-Thins n deal orders r.knowledge.candidates r'.knowledge.candidates _ thin
            (elim_cards-Succeeds os r' (λ i l. held i (inr l)) g'))

    perform_elim-Succeeds :
        (hand : List ℕ) (r : Ruling)
        → ((o : ℕ) → o ∈ hand → (deal o ≢ id) × (o ∈ orders))
        → IsRight n deal orders r.knowledge
        → Succeeds n deal orders r.knowledge.candidates (perform_elim st id hand r)
    unfolding perform_elim
    perform_elim-Succeeds hand r held g =
        let (r', h, g', thin) = elim_cards-Succeeds hand r held g in
        let t = g'.is_true in
        rw h (
          _,
          refl,
          record {
            is_true = record {
              sound = t.sound;
              truth = t.truth;
              differ = t.differ;
              drawn = t.drawn;
            };
            seen = g'.seen;
          },
          Thins-trans r.knowledge.candidates r'.knowledge.candidates _ thin (_, refl),
        )

    pub elim_others-Succeeds :
        (holders : List ℕ) (i : ℕ) (hands : List (List ℕ)) (r : Ruling)
        → ((o : ℕ) → o ∈ all_orders hands → o ∈ orders)
        → Hold (λ o. deal o ≡ id) i hands holders
        → IsRight n deal orders r.knowledge
        → Succeeds n deal orders r.knowledge.candidates (elim_others st id holders i hands r)
    unfolding elim_others
    elim_others-Succeeds holders i [] r sub hold g = (r, refl, g, Thins-refl r.knowledge.candidates)
    elim_others-Succeeds holders i (hand ∷ hands) r sub (now, hold) g =
        let later = λ (o : ℕ) (m : o ∈ all_orders hands).
          sub o (mem-append_right o hand (all_orders hands) m) in
        elim (Bool-cases (includes_order holders i)) [
          | inl holder ↦
              rw (holder, ◌>>=◌) (elim_others-Succeeds holders (i + 1) hands r later hold g)
          | inr other ↦
              let (r', h, g', thin) =
                perform_elim-Succeeds hand r
                  (λ o m. (
                    (λ own.
                        let listed =
                          mem-some_of (λ x. x == i) holders i (now o m own) (ground arith) in
                        ground arith),
                    sub o (mem-append_left o hand (all_orders hands) m),
                  ))
                  g in
              rw (other, h, ◌>>=◌)
                (Succeeds-Thins n deal orders r.knowledge.candidates r'.knowledge.candidates _ thin
                  (elim_others-Succeeds holders (i + 1) hands r' later hold g'))
        ]
