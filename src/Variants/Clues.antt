-- ===== src/Variants/Clues.antt =====
-- `direct_clues` lists the clues that touch a card.
use hanabi_bot.Base.{
  ℕ, zero, suc, ◌+◌, ◌≤◌, ◌<◌, ◌≡◌, refl, sym, ◌↔◌, ◌⊎◌, inl, inr, Bool, true, false, ◌&&◌, [],
  if◌then◌else◌, length, arith, ◌∈◌, mem-if_cons, append-mem, mem-append_left, mem-append_right,
}
use mathlib.Core.Path.{subst}
use hanabi_bot.Identity.{Identity}
use hanabi_bot.Variants.{
  Variant, ClueType, Clue, ClueOptions, card_touched, colour, rank, colour_clues, rank_clues,
  direct_clues, may_clue_rank, colourable_suits,
}

abbrev Touches : Identity → Variant → ClueType → ℕ → Type 0
Touches id v type value = card_touched id v (record { type = type; value = value }) ≡ true

abbrev clue : ClueType → ℕ → ℕ → Clue
clue type value target = record { type = type; value = value; target = target }

and-true : (a b : Bool) → (a && b) ≡ true → (a ≡ true) × (b ≡ true)
and-true a b h = ground arith

-- The clues that the options and the variant leave: a colour clue by its index among the
-- colourable suits, a rank clue by a rank that may be clued.
abbrev pub IsAllowed : Variant → ClueOptions → ClueType → ℕ → Type 0
IsAllowed v o colour value = (o.exclude_colour ≡ false) × (value < length (colourable_suits v))
IsAllowed v o rank value =
    (o.exclude_rank ≡ false) × (1 ≤ value) × (value ≤ 5) × (may_clue_rank v value ≡ true)

module _ (v : Variant) (target : ℕ) (id : Identity) where
  colour_clues-mem :
      (n from : ℕ) (c : Clue)
      → c ∈ colour_clues v target id n from
      → (k : ℕ) × (c ≡ clue colour k target) × (from ≤ k) × (k < from + n) × Touches id v colour k
  unfolding colour_clues
  colour_clues-mem zero from c m = absurd m
  colour_clues-mem (suc n) from c m =
      split (mem-if_cons _ c _ (colour_clues v target id n (from + 1)) m)
        (colour_clues-mem n (from + 1) c)
    where
      split :
          ((c ≡ clue colour from target) × Touches id v colour from)
            ⊎ (c ∈ colour_clues v target id n (from + 1))
          → (c ∈ colour_clues v target id n (from + 1)
              → (k : ℕ) × (c ≡ clue colour k target)
                × (from + 1 ≤ k)
                × (k < from + 1 + n)
                × Touches id v colour k)
          → (k : ℕ) × (c ≡ clue colour k target)
            × (from ≤ k)
            × (k < from + suc n)
            × Touches id v colour k
      split (inl (e, t)) ih = (from, e, omega arith, omega arith, t)
      split (inr r) ih = let (k, e, lo, hi, t) = ih r in (k, e, omega arith, omega arith, t)

  mem-colour_clues :
      (n from k : ℕ)
      → from ≤ k
      → k < from + n
      → Touches id v colour k
      → clue colour k target ∈ colour_clues v target id n from
  unfolding colour_clues
  mem-colour_clues zero from k lo hi t = absurd (omega arith)
  mem-colour_clues (suc n) from k lo hi t = ground (arith, mem-colour_clues n (from + 1) k)

  rank_clues-mem :
      (n from : ℕ) (c : Clue)
      → c ∈ rank_clues v target id n from
      → (k : ℕ) × (c ≡ clue rank k target)
        × (from ≤ k)
        × (k < from + n)
        × (may_clue_rank v k ≡ true)
        × Touches id v rank k
  unfolding rank_clues
  rank_clues-mem zero from c m = absurd m
  rank_clues-mem (suc n) from c m =
      split (mem-if_cons _ c _ (rank_clues v target id n (from + 1)) m)
        (rank_clues-mem n (from + 1) c)
    where
      split :
          ((c ≡ clue rank from target)
              × ((may_clue_rank v from && card_touched id v (record { type = rank; value = from }))
                  ≡ true))
            ⊎ (c ∈ rank_clues v target id n (from + 1))
          → (c ∈ rank_clues v target id n (from + 1)
              → (k : ℕ) × (c ≡ clue rank k target)
                × (from + 1 ≤ k)
                × (k < from + 1 + n)
                × (may_clue_rank v k ≡ true)
                × Touches id v rank k)
          → (k : ℕ) × (c ≡ clue rank k target)
            × (from ≤ k)
            × (k < from + suc n)
            × (may_clue_rank v k ≡ true)
            × Touches id v rank k
      split (inl (e, t)) ih =
          let (a, b) = and-true _ _ t in (from, e, omega arith, omega arith, a, b)
      split (inr r) ih =
          let (k, e, lo, hi, may, t) = ih r in (k, e, omega arith, omega arith, may, t)

  mem-rank_clues :
      (n from k : ℕ)
      → from ≤ k
      → k < from + n
      → may_clue_rank v k ≡ true
      → Touches id v rank k
      → clue rank k target ∈ rank_clues v target id n from
  unfolding rank_clues
  mem-rank_clues zero from k lo hi may t = absurd (omega arith)
  mem-rank_clues (suc n) from k lo hi may t = ground (arith, mem-rank_clues n (from + 1) k)

  abbrev IsListed : ClueOptions → Clue → Type 0
  IsListed o c =
      (c.target ≡ target)
      × IsAllowed v o c.type c.value
      × (card_touched id v (record { type = c.type; value = c.value }) ≡ true)

  direct_clues-mem : (o : ClueOptions) (c : Clue) → c ∈ direct_clues v target id o → IsListed o c
  unfolding direct_clues
  direct_clues-mem o c m = from o.exclude_colour o.exclude_rank refl refl (append-mem c _ _ m)
    where
      from :
          (ec er : Bool)
          → o.exclude_colour ≡ ec
          → o.exclude_rank ≡ er
          → (c ∈ (if ec then [] else colour_clues v target id (length (colourable_suits v)) 0))
            ⊎ (c ∈ (if er then [] else rank_clues v target id 5 1))
          → IsListed o c
      from true er p q (inl m) = absurd m
      from false er p q (inl m) =
          let (k, e, lo, hi, t) = colour_clues-mem (length (colourable_suits v)) 0 c m in
          subst (IsListed o) (sym e) (refl, (p, omega arith), t)
      from ec true p q (inr m) = absurd m
      from ec false p q (inr m) =
          let (k, e, lo, hi, may, t) = rank_clues-mem 5 1 c m in
          subst (IsListed o) (sym e) (refl, (q, lo, omega arith, may), t)

  mem-direct_clues :
      (o : ClueOptions) (type : ClueType) (value : ℕ)
      → IsAllowed v o type value
      → Touches id v type value
      → clue type value target ∈ direct_clues v target id o
  unfolding direct_clues
  mem-direct_clues o colour value (p, lt) t = rw p (
      mem-append_left (clue colour value target)
        (colour_clues v target id (length (colourable_suits v)) 0) _
        (mem-colour_clues (length (colourable_suits v)) 0 value (omega arith) (omega arith) t))
  mem-direct_clues o rank value (p, lo, hi, may) t = rw p (
      mem-append_right (clue rank value target)
        (if o.exclude_colour then [] else colour_clues v target id (length (colourable_suits v)) 0)
        _ (mem-rank_clues 5 1 value lo (omega arith) may t))

  -- `direct_clues` lists the clues to the target that the options and the variant leave and that
  -- touch the card, and no others.
  pub direct_clues_mem_iff :
      (o : ClueOptions) (type : ClueType) (value t : ℕ)
      → (clue type value t ∈ direct_clues v target id o) ↔ (
          (t ≡ target)
          × IsAllowed v o type value
          × (card_touched id v (record { type = type; value = value }) ≡ true))
  direct_clues_mem_iff o type value t = (
    direct_clues-mem o (clue type value t),
    λ h. rw (h.0) (mem-direct_clues o type value h.1 h.2),
  )
