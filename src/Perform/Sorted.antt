-- ===== src/Perform/Sorted.antt =====
-- A clue's list names the touched cards of the hand, whatever order it is in.
use hanabi_bot.Base.{
  ℕ, ◌+◌, ◌≡◌, refl, sym, ap, ◌∙◌, inl, inr, Bool, ◌&&◌, ◌||◌, List, [], ◌∷◌, some, ◌==◌,
  if◌then◌else◌, get_elem?, arith, Bool-cases, Option-cases,
}
use mathlib.Core.Option.{some-injective}
use hanabi_bot.Identity.{Identity}
use hanabi_bot.Variants.{Variant, BaseClue, card_touched}
use hanabi_bot.Thoughts.{includes_order}
use hanabi_bot.Perform.{insert_sorted, sort, decimal, digits_before, touched_in}

includes_order-insert_sorted :
    (x : ℕ) (ys : List ℕ) (o : ℕ)
    → includes_order (insert_sorted x ys) o ≡ (x == o || includes_order ys o)
unfolding insert_sorted
includes_order-insert_sorted x [] o = refl
includes_order-insert_sorted x (y ∷ ys) o =
    elim (Bool-cases (digits_before (decimal (x + 1) x) (decimal (y + 1) y))) [
      | inl t ↦ rw t
      | inr f ↦ rw (f, includes_order-insert_sorted x ys o) (swap (y == o) (x == o) _)
    ]
  where
    swap : (a b c : Bool) → (a || (b || c)) ≡ (b || (a || c))
    swap a b c = ground arith

pub includes_order-sort : (xs : List ℕ) (o : ℕ) → includes_order (sort xs) o ≡ includes_order xs o
unfolding sort
includes_order-sort [] o = refl
includes_order-sort (x ∷ xs) o =
    includes_order-insert_sorted x (sort xs) o
    ∙ ap (λ (b : Bool). x == o || b) (includes_order-sort xs o)

-- An order outside the hand, or one that the clue does not touch, is not listed.
pub touched_in-includes :
    (v : Variant) (clue : BaseClue) (deck : List Identity) (hand list : List ℕ) (o : ℕ)
    (id : Identity)
    → touched_in v clue deck hand ≡ some list
    → get_elem? deck o ≡ some id
    → includes_order list o ≡ (includes_order hand o && card_touched id v clue)
unfolding touched_in
touched_in-includes v clue deck [] list o id h d = ground arith
touched_in-includes v clue deck (x ∷ hand) list o id h d = elim (Option-cases (get_elem? deck x)) [
  | inl e ↦ absurd (ground arith)
  | inr (i, e) ↦ elim (Option-cases (touched_in v clue deck hand)) [
    | inl f ↦ absurd (ground arith)
    | inr (rest, f) ↦
        let made : (if card_touched i v clue then x ∷ rest else rest) ≡ list =
          some-injective _ _ (rw (e, f) at (h)) in
        let ih = touched_in-includes v clue deck hand rest o id f d in rw (← made) (one i rest e ih)
  ]
]
  where
    one :
        (i : Identity) (rest : List ℕ)
        → get_elem? deck x ≡ some i
        → includes_order rest o ≡ (includes_order hand o && card_touched id v clue)
        → includes_order (if card_touched i v clue then x ∷ rest else rest) o
          ≡ ((x == o || includes_order hand o) && card_touched id v clue)
    one i rest e ih = elim (Bool-cases (x == o)) [
      | inl t ↦
          let same : x ≡ o = ground arith in
          let own : i ≡ id = some-injective i id (sym e ∙ ap (get_elem? deck) same ∙ d) in
          rw own (ground (arith, ih))
      | inr f ↦ elim (Bool-cases (card_touched i v clue)) [
        | inl t ↦ rw (t, f) ih
        | inr n ↦ rw (n, f) ih
      ]
    ]
