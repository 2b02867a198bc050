-- ===== src/Identity.antt =====
-- basics/Card.js, class BasicCard (and the type Identity of types.js, which has the same fields):
-- a suit index and a rank, where -1 stands for "not known".
use hanabi_bot.Base.{
  ℕ, ◌<◌, ◌≤◌, ◌≡◌, Bool, true, ◌&&◌, ◌||◌, Option, none, some, if◌then◌else◌, arith, ◌↔◌,
}
use hanabi_bot.Base.Int.{ℤ, pos, negsuc, ltb_ℤ, leb_ℤ, eq_ℤ}

pub record Identity : Type 0 where
  pub suit_index : ℤ
  pub rank : ℤ

abbrev pub card : ℕ → ℕ → Identity
card s r = record { suit_index = pos s; rank = pos r }

-- `suitIndex === -1 || rank === -1`.
abbrev pub is_unknown : Identity → Bool
is_unknown id = eq_ℤ id.suit_index (negsuc 0) || eq_ℤ id.rank (negsuc 0)

-- An identity of a deck with `n` suits.
abbrev pub IsIdentity : ℕ → Identity → Type 0
IsIdentity n id = (s : ℕ) × (r : ℕ) × (id ≡ card s r) × (s < n) × (1 ≤ r) × (r ≤ 5)

-- `BasicCard.identity`, where `none` is `undefined`.
unfoldable pub identity : Identity → Option Identity
identity id = if is_unknown id then none else some id

-- `BasicCard.matches`.
unfoldable pub matches : Identity → Identity → Bool
matches c id = eq_ℤ c.suit_index id.suit_index && eq_ℤ c.rank id.rank

-- `BasicCard.playedBefore`, with the option `equal`.
unfoldable pub played_before : Identity → Identity → Bool → Bool
played_before c id equal =
    eq_ℤ c.suit_index id.suit_index
    && (if equal then leb_ℤ c.rank id.rank else ltb_ℤ c.rank id.rank)

-- `matches` decides equality.
pub matches_iff : (c id : Identity) → (matches c id ≡ true) ↔ (c ≡ id)
unfolding matches
matches_iff c id = (λ h. ground arith, λ h. ground arith)
