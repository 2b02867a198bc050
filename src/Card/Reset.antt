-- ===== src/Card/Reset.antt =====
-- What `reset_inferences` leaves.
use hanabi_bot.Base.{
  ◌≡◌, ◌≢◌, refl, true, false, none, some, ◌==◌, arith, Bool-cases, inl, inr, Option-cases, sym,
}
use hanabi_bot.IdentitySet.{IdentitySet, IsValid, intersect, set, length}
use hanabi_bot.IdentitySet.Members.{IsSubset, has-operations}
use hanabi_bot.Card.{Card, has_status, is_finessed, reset_inferences}

-- The lock of a card, if it has one, is a set over the suits of its possibilities.
abbrev pub LockIsValid : Card → Type 0
LockIsValid c = elim c.info_lock [
  | none ↦ Unit {0}
  | some lock ↦ IsValid lock × (lock.num_suits ≡ c.possible.num_suits)
]

-- The inferences that are reset on a card that was not finessed are possibilities, there is one if
-- there is a possibility, and the card does not become finessed.
pub reset_inferences_lem :
    (c : Card)
    → IsValid c.possible
    → LockIsValid c
    → length c.possible ≢ 0
    → has_status is_finessed c.status ≡ false
    → IsSubset (reset_inferences c).inferred c.possible
      × (length (reset_inferences c).inferred ≢ 0)
      × ((reset_inferences c).reset ≡ true)
      × (has_status is_finessed (reset_inferences c).status ≡ false)
unfolding reset_inferences
reset_inferences_lem c v l n f = rw f (elim (Option-cases c.info_lock) [
  | inl e ↦ rw e (λ id w h. h, n, refl, f)
  | inr (lock, e) ↦
      let (lv, same) = rw e at (l) in
      rw e (elim (Bool-cases (length (intersect lock (set c.possible)) == 0)) [
        | inl broke ↦ rw broke (λ id w h. h, n, refl, f)
        | inr kept ↦ rw kept (common_has lock lv same, λ z. ground arith, refl, f)
      ])
])
  where
    common_has :
        (lock : IdentitySet)
        → IsValid lock
        → lock.num_suits ≡ c.possible.num_suits
        → IsSubset (intersect lock (set c.possible)) c.possible
    common_has lock lv same id w h =
        let both = (has-operations lock (set c.possible) id lv (sym same, v) (rw same w)).0 in
        ground arith
