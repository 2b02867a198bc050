-- ===== src/Tests/Clues.antt =====
-- variants.js on a deck of five ordinary suits, and on one with special suits.
use hanabi_bot.Base.{
  ℕ, zero, suc, ◌≡◌, ◌↔◌, refl, true, false, not, ◌&&◌, ◌==◌, List, [], ◌∷◌, ◌∈◌, none, some,
  get_elem?, length, arith, if◌then◌else◌, All, ap, sym, ◌∙◌, All-mem,
}
use mathlib.Core.Option.{some-injective}
use hanabi_bot.Base.Int.{◌-ℤ◌}
use hanabi_bot.Identity.{card}
use hanabi_bot.IdentitySet.{IdentitySet, array_of, has, intersect, subtract}
use hanabi_bot.Variants.{
  Name, codes, Variant, BaseClue, ClueOptions, IsOrdinary, IsPlain, colour, rank, test, includes,
  starts_with, card_touched, touched_by, colour_touched, colour_rest, colourable_suits,
  find_possibilities, direct_clues, card_count,
}
use hanabi_bot.Variants.Touch.{clue_narrows}
use hanabi_bot.Variants.Plain.{card_touched-IsPlain}
use hanabi_bot.Variants.Clues.{IsAllowed, direct_clues_mem_iff}

abbrev pub suits_only : List Name → Variant
suits_only suits = record {
  suits = suits;
  special_rank = none;
  all_clue_colors = false;
  no_clue_colors = false;
  all_clue_ranks = false;
  no_clue_ranks = false;
  deceptive = false;
  chimneys = false;
  funnels = false;
  critical_rank = none;
  clue_ranks = none;
}

abbrev pub no_variant : Variant
no_variant =
    suits_only (codes "Red" ∷ codes "Yellow" ∷ codes "Green" ∷ codes "Blue" ∷ codes "Purple" ∷ [])

abbrev pub special : Variant
special = suits_only (codes "Red" ∷ codes "Dark Rainbow" ∷ codes "White" ∷ codes "Prism" ∷ [])

red_touches_rainbow : card_touched (card 1 3) special (record { type = colour; value = 0 }) ≡ true
unfolding card_touched touched_by colour_touched test includes starts_with
red_touches_rainbow = refl

red_misses_white : card_touched (card 2 3) special (record { type = colour; value = 0 }) ≡ false
unfolding card_touched touched_by colour_touched test includes starts_with
red_misses_white = refl

red_touches_prism : card_touched (card 3 3) special (record { type = colour; value = 0 }) ≡ true
unfolding card_touched touched_by colour_touched colour_rest test includes starts_with
    colourable_suits ◌-ℤ◌
red_touches_prism = refl

dark_is_unique : card_count special (card 1 2) ≡ 1
unfolding card_count test includes starts_with
dark_is_unique = refl

IsOrdinary-Red : IsOrdinary (codes "Red")
unfolding test includes starts_with
IsOrdinary-Red = record {
  not_whitish = refl;
  not_rainbowish = refl;
  not_brownish = refl;
  not_pinkish = refl;
  not_prism = refl;
  colourable = refl;
  not_dark = refl;
}

IsOrdinary-Yellow : IsOrdinary (codes "Yellow")
unfolding test includes starts_with
IsOrdinary-Yellow = record {
  not_whitish = refl;
  not_rainbowish = refl;
  not_brownish = refl;
  not_pinkish = refl;
  not_prism = refl;
  colourable = refl;
  not_dark = refl;
}

IsOrdinary-Green : IsOrdinary (codes "Green")
unfolding test includes starts_with
IsOrdinary-Green = record {
  not_whitish = refl;
  not_rainbowish = refl;
  not_brownish = refl;
  not_pinkish = refl;
  not_prism = refl;
  colourable = refl;
  not_dark = refl;
}

IsOrdinary-Blue : IsOrdinary (codes "Blue")
unfolding test includes starts_with
IsOrdinary-Blue = record {
  not_whitish = refl;
  not_rainbowish = refl;
  not_brownish = refl;
  not_pinkish = refl;
  not_prism = refl;
  colourable = refl;
  not_dark = refl;
}

IsOrdinary-Purple : IsOrdinary (codes "Purple")
unfolding test includes starts_with
IsOrdinary-Purple = record {
  not_whitish = refl;
  not_rainbowish = refl;
  not_brownish = refl;
  not_pinkish = refl;
  not_prism = refl;
  colourable = refl;
  not_dark = refl;
}

-- The place of a suit, by the number of letters of its name and the last of them.
abbrev place : Name → ℕ
place [] = 5
place (c ∷ []) = 5
place (c ∷ d ∷ name) =
    if d == 101
    then (if length name == 1 then 0 else 1)
    else if d == 114
    then 2
    else if d == 108
    then 3
    else 4

place_at : (i : ℕ) (s : Name) → get_elem? no_variant.suits i ≡ some s → place s ≡ i
place_at zero s e = ap place (sym (some-injective _ _ e))
place_at (suc zero) s e = ap place (sym (some-injective _ _ e))
place_at (suc (suc zero)) s e = ap place (sym (some-injective _ _ e))
place_at (suc (suc (suc zero))) s e = ap place (sym (some-injective _ _ e))
place_at (suc (suc (suc (suc zero)))) s e = ap place (sym (some-injective _ _ e))
place_at (suc (suc (suc (suc (suc i))))) s e = cc

pub no_variant-IsPlain : IsPlain no_variant
no_variant-IsPlain = record {
  colours = λ s m.
      let all : All IsOrdinary no_variant.suits = (
        IsOrdinary-Red,
        (IsOrdinary-Yellow, (IsOrdinary-Green, (IsOrdinary-Blue, (IsOrdinary-Purple, tt)))),
      ) in
      All-mem IsOrdinary no_variant.suits s all m;
  distinct = λ i j s e f. sym (place_at i s e) ∙ place_at j s f;
  no_special_rank = refl;
  no_chimneys = refl;
  no_funnels = refl;
}

abbrev full : IdentitySet
full = record { num_suits = 4; value = 1048575 }

abbrev red : BaseClue
red = record { type = colour; value = 0 }

-- What a red clue leaves of a full set in `special`, for the dark rainbow three.
clue_narrows_example :
    (has (intersect full (array_of (find_possibilities red special))) (card 1 3)
      ≡ (has full (card 1 3) && card_touched (card 1 3) special red))
    × (has (subtract full (array_of (find_possibilities red special))) (card 1 3)
        ≡ (has full (card 1 3) && not (card_touched (card 1 3) special red)))
clue_narrows_example =
    clue_narrows full red special (card 1 3) (omega arith) refl
      (1, 3, refl, omega arith, omega arith, omega arith)

abbrev both : ClueOptions
both = record { exclude_colour = false; exclude_rank = false }

direct_clues_mem_iff_example :
    (record { type = rank; value = 3; target = 1 } ∈ direct_clues special 1 (card 1 3) both) ↔ (
      ◌≡◌ {A = ℕ} 1 1
      × IsAllowed special both rank 3
      × (card_touched (card 1 3) special (record { type = rank; value = 3 }) ≡ true))
direct_clues_mem_iff_example = direct_clues_mem_iff special 1 (card 1 3) both rank 3 1

card_touched-IsPlain_example :
    (card_touched (card 2 4) no_variant (record { type = colour; value = 3 }) ≡ (2 == 3))
    × (card_touched (card 2 4) no_variant (record { type = rank; value = 5 }) ≡ (4 == 5))
card_touched-IsPlain_example =
    card_touched-IsPlain no_variant 2 4 3 5 no_variant-IsPlain (omega arith) (omega arith)
