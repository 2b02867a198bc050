-- ===== src/Variants/Plain.antt =====
-- Clues in a variant with neither special suits nor special ranks.
use hanabi_bot.Base.{
  ℕ, zero, suc, ◌<◌, ◌≡◌, refl, sym, ap, ◌∙◌, ◌↔◌, inl, inr, Bool, true, not, List, [], ◌∷◌, some,
  ◌==◌, filter, length, get_elem?, arith, ◌∈◌, Bool-eq,
}
use mathlib.Core.Option.{some-injective}
use hanabi_bot.Identity.{card}
use hanabi_bot.Variants.{
  Name, Variant, IsPlain, IsOrdinary, card_touched, colourable_suits, colour, rank, name_eq,
  touched_by, colour_touched, colour_rest, rank_touched, rank_rest,
}

get_elem?-some :
    (xs : List Name) (i : ℕ) → i < length xs → (x : Name) × (get_elem? xs i ≡ some x) × (x ∈ xs)
get_elem?-some [] i h = absurd (omega arith)
get_elem?-some (x ∷ xs) zero h = (x, refl, inl refl)
get_elem?-some (x ∷ xs) (suc i) h =
    let (y, e, m) = get_elem?-some xs i (omega arith) in (y, e, inr m)

name_eq_iff : (a b : Name) → (name_eq a b ≡ true) ↔ (a ≡ b)
unfolding name_eq
name_eq_iff [] [] = (λ h. refl, λ h. refl)
name_eq_iff [] (y ∷ ys) = (λ h. cc, λ h. cc)
name_eq_iff (x ∷ xs) [] = (λ h. cc, λ h. cc)
name_eq_iff (x ∷ xs) (y ∷ ys) =
    (λ h. ground (arith, (name_eq_iff xs ys).0), λ h. ground (arith, (name_eq_iff xs ys).1))

filter_all :
    (p : Name → Bool) (xs : List Name) → ((x : Name) → x ∈ xs → p x ≡ true) → filter p xs ≡ xs
filter_all p [] h = refl
filter_all p (x ∷ xs) h = rw (h x (inl refl), filter_all p xs (λ y m. h y (inr m)))

colourable_suits-IsPlain : (v : Variant) → IsPlain v → colourable_suits v ≡ v.suits
unfolding colourable_suits
colourable_suits-IsPlain v p = filter_all _ v.suits (λ s m. ap not ((p.colours s m).colourable))

colour_touched-IsOrdinary :
    (v : Variant) (s r c : ℕ) (x y : Name)
    → IsPlain v
    → get_elem? v.suits s ≡ some x
    → get_elem? v.suits c ≡ some y
    → IsOrdinary x
    → card_touched (card s r) v (record { type = colour; value = c }) ≡ name_eq x y
unfolding card_touched touched_by colour_touched colour_rest
colour_touched-IsOrdinary v s r c x y p e f o = simp (
  e,
  colourable_suits-IsPlain v p,
  f,
  o.not_whitish,
  o.not_rainbowish,
  o.not_prism,
  p.no_special_rank,
)

rank_touched-IsOrdinary :
    (v : Variant) (s r c : ℕ) (x : Name)
    → IsPlain v
    → get_elem? v.suits s ≡ some x
    → IsOrdinary x
    → card_touched (card s r) v (record { type = rank; value = c }) ≡ (r == c)
unfolding card_touched touched_by rank_touched rank_rest
rank_touched-IsOrdinary v s r c x p e o =
    simp (e, o.not_brownish, o.not_pinkish, p.no_special_rank, p.no_chimneys, p.no_funnels)

-- In a plain variant a clue of the colour of a suit touches exactly the cards of that suit, and a rank
-- clue, of whatever rank, exactly those of its rank.
pub card_touched-IsPlain :
    (v : Variant) (s r c k : ℕ)
    → IsPlain v
    → s < length v.suits
    → c < length v.suits
    → (card_touched (card s r) v (record { type = colour; value = c }) ≡ (s == c))
      × (card_touched (card s r) v (record { type = rank; value = k }) ≡ (r == k))
card_touched-IsPlain v s r c k p hs hc = (
  colour_clue (get_elem?-some v.suits s hs) (get_elem?-some v.suits c hc),
  rank_clue (get_elem?-some v.suits s hs),
)
  where
    colour_clue :
        (x : Name) × (get_elem? v.suits s ≡ some x) × (x ∈ v.suits)
        → (y : Name) × (get_elem? v.suits c ≡ some y) × (y ∈ v.suits)
        → card_touched (card s r) v (record { type = colour; value = c }) ≡ (s == c)
    colour_clue (x, e, m) (y, f, n) =
        colour_touched-IsOrdinary v s r c x y p e f (p.colours x m)
        ∙ Bool-eq _ _
            (λ h.
              let same : x ≡ y = (name_eq_iff x y).0 h in
              ground (arith, p.distinct s c y (rw same at e) f))
            (λ h.
              let same : s ≡ c = ground arith in
              (name_eq_iff x y).1 (some-injective x y (sym e ∙ ap (get_elem? v.suits) same ∙ f)))

    rank_clue :
        (x : Name) × (get_elem? v.suits s ≡ some x) × (x ∈ v.suits)
        → card_touched (card s r) v (record { type = rank; value = k }) ≡ (r == k)
    rank_clue (x, e, m) = rank_touched-IsOrdinary v s r k x p e (p.colours x m)
