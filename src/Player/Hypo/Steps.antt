-- ===== src/Player/Hypo/Steps.antt =====
-- What `update_hypo_stacks` does with one card: it skips it, or counts it as played, once, and raises
-- stacks.
use hanabi_bot.Base.{
  ℕ, zero, suc, ◌+◌, ◌≤◌, ◌≡◌, refl, ◌∙◌, ◌⊎◌, inl, inr, Bool, true, false, not, ◌||◌, List, [],
  ◌∷◌, ◌++◌, Option, none, some, arith, if◌then◌else◌, length, get_or, set, get_elem?, length-set,
  Bool-cases, Option-cases, filter,
}
use mathlib.Core.Path.{subst}
use mathlib.Core.Option.{some-injective}
use hanabi_bot.Base.Int.{ℤ, pos, negsuc, pos_part, eq_ℤ}
use hanabi_bot.Identity.{Identity}
use hanabi_bot.State.{State, ActualCard, card_at}
use hanabi_bot.Basics.{◌>>=◌, set_suit}
use hanabi_bot.IdentitySet.{has}
use hanabi_bot.Card.{Card, identity, saved}
use hanabi_bot.Thoughts.{thought_at, includes_order}
use hanabi_bot.Player.{Player, Link}
use hanabi_bot.Player.Bind.{>>=_some}
use hanabi_bot.Player.Hypo.{
  Hypo, is_next, raise_stack, play_links_on, play_unknown, play_known, play_card, is_skipped,
  is_hypo_playable, try_card, is_false_update, existing_play, is_fulfilled, add_duplicate,
}

-- The stacks of as many suits, none of them lower.
abbrev pub Grown : List ℕ → List ℕ → Type 0
Grown xs ys = (length ys ≡ length xs) × ((s : ℕ) → get_or xs s 0 ≤ get_or ys s 0)

pub Grown-refl : (xs : List ℕ) → Grown xs xs
Grown-refl xs = (refl, λ s. omega arith)

pub Grown-trans : (xs ys zs : List ℕ) → Grown xs ys → Grown ys zs → Grown xs zs
Grown-trans xs ys zs (e, f) (g, h) = (g ∙ e, λ s. omega (arith, f s, h s))

set-higher : (xs : List ℕ) (s v j : ℕ) → get_or xs s 0 ≤ v → get_or xs j 0 ≤ get_or (set xs s v) j 0
set-higher [] s v j h = omega arith
set-higher (x ∷ xs) zero v zero h = h
set-higher (x ∷ xs) zero v (suc j) h = omega arith
set-higher (x ∷ xs) (suc s) v zero h = omega arith
set-higher (x ∷ xs) (suc s) v (suc j) h = set-higher xs s v j h

stack_of-get_or : (xs : List ℕ) (s n : ℕ) → get_elem? xs s ≡ some n → get_or xs s 0 ≡ n
stack_of-get_or [] s n e = absurd (ground arith)
stack_of-get_or (x ∷ xs) zero n e = some-injective x n e
stack_of-get_or (x ∷ xs) (suc s) n e = stack_of-get_or xs s n e

-- A stack that a card fits on is raised by it.
next-Grown :
    (xs : List ℕ) (suit rank : ℤ)
    → is_next xs (record { suit_index = suit; rank = rank }) ≡ true
    → Grown xs (set_suit xs suit (pos_part rank))
next-Grown xs (negsuc s) rank e = Grown-refl xs
next-Grown xs (pos s) rank e = elim (Option-cases (get_elem? xs s)) [
  | inl gone ↦ absurd (ground (arith, rw (gone, is_next) at (e)))
  | inr (n, at) ↦
      let height = stack_of-get_or xs s n at in
      let fits : eq_ℤ (pos (n + 1)) rank ≡ true = rw (at, is_next) at (e) in
      (length-set xs s _, λ j. set-higher xs s _ j (rw height (below rank n fits)))
]
  where
    below : (rank : ℤ) (n : ℕ) → eq_ℤ (pos (n + 1)) rank ≡ true → n ≤ pos_part rank
    below (pos r) n h = ground arith
    below (negsuc r) n h = absurd (ground arith)

-- The counts that a change of the stacks leaves.
abbrev SameCounts : Hypo → Hypo → Type 0
SameCounts h h' =
    (h'.unknown_plays ≡ h.unknown_plays)
    × (h'.already_played ≡ h.already_played)
    × (h'.found_new_playable ≡ h.found_new_playable)

play_links_on-Grown :
    (ls : List Link) (h h' : Hypo)
    → play_links_on ls h ≡ some h'
    → Grown h.stacks h'.stacks × SameCounts h h'
unfolding play_links_on raise_stack
play_links_on-Grown [] h h' e =
    let same : h ≡ h' = some-injective h h' e in
    subst (λ (t : Hypo). Grown h.stacks t.stacks × SameCounts h t) same
      (Grown-refl h.stacks, (refl, refl, refl))
play_links_on-Grown (l ∷ ls) h h' e =
    let (id, first, rest) =
      >>=_some (get_elem? l.identities 0)
        (λ id. play_links_on ls (if is_next h.stacks id then raise_stack id h else h)) h' e in
    elim (Bool-cases (is_next h.stacks id)) [
      | inr stays ↦ play_links_on-Grown ls h h' (rw stays at (rest))
      | inl fits ↦
          let raised : Hypo = raise_stack id h in
          let (grown, counts) = play_links_on-Grown ls raised h' (rw fits at (rest)) in
          (
            Grown-trans h.stacks raised.stacks h'.stacks
                (next-Grown h.stacks id.suit_index id.rank fits) grown,
            counts,
          )
    ]

-- What one card can change.
pub record Effect (o : ℕ) (h h' : Hypo) : Type 0 where
  pub grown : Grown h.stacks h'.stacks
  pub counted :
      ((h'.already_played ≡ h.already_played)
        × (h'.unknown_plays ≡ h.unknown_plays)
        × (h'.found_new_playable ≡ h.found_new_playable))
      ⊎ ((includes_order h.already_played o ≡ false)
          × (h'.already_played ≡ h.already_played ++ o ∷ [])
          × ((h'.unknown_plays ≡ h.unknown_plays) ⊎ (h'.unknown_plays ≡ h.unknown_plays ++ o ∷ []))
          × (h'.found_new_playable ≡ true))

same-Effect : (o : ℕ) (h : Hypo) → Effect o h h
same-Effect o h = record { grown = Grown-refl h.stacks; counted = inl (refl, refl, refl) }

-- A play of a card whose identity is not known.
play_unknown-Effect :
    (p : Player) (o : ℕ) (h h' : Hypo)
    → includes_order h.already_played o ≡ false
    → play_unknown p o h ≡ some h'
    → Effect o h h'
unfolding play_unknown
play_unknown-Effect p o h h' new e =
    let unknown_plays = h.unknown_plays ++ o ∷ [] in
    let counted : Hypo = record h {
      unknown_plays = unknown_plays;
      already_played = h.already_played ++ o ∷ [];
      found_new_playable = true;
    } in
    let (grown, (unknown, played, found)) =
      play_links_on-Grown (filter (is_fulfilled unknown_plays o) p.links) counted h' e in
    record { grown = grown; counted = inr (new, played, inr unknown, found) }

play_known-Effect :
    (o : ℕ) (id : Identity) (h : Hypo)
    → includes_order h.already_played o ≡ false
    → Effect o h (play_known o id h)
unfolding play_known raise_stack
play_known-Effect o id h new = elim (Bool-cases (is_next h.stacks id)) [
  | inr stays ↦ rw stays (same-Effect o h)
  | inl fits ↦ rw fits (record {
    grown = next-Grown h.stacks id.suit_index id.rank fits;
    counted = inr (new, refl, inl refl, refl);
  })
]

play_card-Effect :
    (st : State) (p : Player) (i o : ℕ) (c : Card) (h h' : Hypo)
    → includes_order h.already_played o ≡ false
    → play_card st p i o c h ≡ some h'
    → Effect o h h'
unfolding play_card
play_card-Effect st p i o c h h' new e =
    let id : Option Identity =
      identity c
        (record { infer = true; symmetric = eq_ℤ p.player_index (pos i); assume = false }) in
    let (actual, at, rest) = >>=_some (card_at st o) (after id) h' e in
    elim (Bool-cases (is_false_update st p o c id actual)) [
      | inl wrong ↦ kept (rw wrong at (rest))
      | inr fine ↦ elim (Option-cases (existing_play st p h actual)) [
        | inr (existing, twice) ↦ delayed (rw (fine, twice) at (rest))
        | inl once ↦ elim (Option-cases id) [
          | inl unknown ↦ play_unknown-Effect p o h h' new (rw (fine, once, unknown) at (rest))
          | inr (known, is_known) ↦
              subst (Effect o h) (some-injective _ _ (rw (fine, once, is_known) at (rest)))
                (play_known-Effect o known h new)
        ]
      ]
    ]
  where
    after : Option Identity → ActualCard → Option Hypo
    after id actual =
        if is_false_update st p o c id actual then some h else elim (existing_play st p h actual) [
          | some existing ↦ some (record h {
            duplicated_plays = add_duplicate actual.id existing o h.duplicated_plays;
          })
          | none ↦ elim id [ none ↦ play_unknown p o h | some known ↦ some (play_known o known h) ]
        ]

    kept : some h ≡ some h' → Effect o h h'
    kept same = subst (Effect o h) (some-injective h h' same) (same-Effect o h)

    delayed :
        {d : List (Identity × List ℕ)}
        → some (record h { duplicated_plays = d }) ≡ some h'
        → Effect o h h'
    delayed same =
        subst (Effect o h) (some-injective _ h' same)
          (record { grown = Grown-refl h.stacks; counted = inl (refl, refl, refl) })

||_right : (a b : Bool) → (a || b) ≡ false → b ≡ false
||_right a b e = ground arith

skipped-not_played :
    (linked : List ℕ) (h : Hypo) (o : ℕ) (c : Card)
    → is_skipped linked h o c ≡ false
    → includes_order h.already_played o ≡ false
unfolding is_skipped
skipped-not_played linked h o c e =
    ||_right
      (not (saved c)
        || has h.good_touch_elim c.actual.id
        || includes_order linked o
        || includes_order h.unknown_plays o)
      (includes_order h.already_played o) e

-- `try_card` skips the card, or counts it as played for the first time.
pub try_card-Effect :
    (st : State) (p : Player) (ignore : Option (List ℕ)) (linked : List ℕ) (i o : ℕ) (h h' : Hypo)
    → try_card st p ignore linked i o h ≡ some h'
    → Effect o h h'
unfolding try_card
try_card-Effect st p ignore linked i o h h' e =
    elim (Bool-cases (elim ignore [ none ↦ false | some os ↦ includes_order os o ])) [
      | inl ignored ↦ kept (rw ignored at (e))
      | inr tried ↦
          let (c, t, rest) = >>=_some (thought_at p.thoughts o) after h' (rw tried at (e)) in
          elim (Bool-cases (is_skipped linked h o c)) [
            | inl skipped ↦ kept (rw skipped at (rest))
            | inr new ↦
                let (playable, b, last) =
                  >>=_some (is_hypo_playable st p h o c)
                    (λ playable. if playable then play_card st p i o c h else some h) h'
                    (rw new at (rest)) in
                decided c playable (skipped-not_played linked h o c new) last
          ]
    ]
  where
    after : Card → Option Hypo
    after c =
        if is_skipped linked h o c
        then some h
        else (is_hypo_playable st p h o c >>= λ playable.
            if playable then play_card st p i o c h else some h)

    kept : some h ≡ some h' → Effect o h h'
    kept same = subst (Effect o h) (some-injective h h' same) (same-Effect o h)

    decided :
        (c : Card) (playable : Bool)
        → includes_order h.already_played o ≡ false
        → (if playable then play_card st p i o c h else some h) ≡ some h'
        → Effect o h h'
    decided c true new same = play_card-Effect st p i o c h h' new same
    decided c false new same = kept same
