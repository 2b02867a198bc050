-- ===== src/State/Start.antt =====
-- The state at the start of a game is well-formed.
use hanabi_bot.Base.{
  ℕ, zero, suc, ◌+◌, ◌*◌, ◌≤◌, ◌<◌, ◌≡◌, refl, ap, ◌∙◌, Bool, Bool-cases, [], ◌∷◌, length, get_or,
  replicate, arith, length-replicate, get_or-replicate, sum-replicate, inl, inr,
}
use hanabi_bot.Base.Int.{pos}
use hanabi_bot.Identity.{card}
use hanabi_bot.Variants.{Variant, card_count as variant_card_count, test, dark, suit_at, is_rank}
use hanabi_bot.State.{suit_counts, all_counts, start, score, max_score}
use hanabi_bot.State.WellFormed.{IsWellFormed, SuitIsOk}

-- Every identity of the deck has one to three copies.
pub card_count_bounds :
    (v : Variant) (s k : ℕ)
    → k < 5
    → (1 ≤ variant_card_count v (card s (suc k))) × (variant_card_count v (card s (suc k)) ≤ 3)
unfolding variant_card_count
card_count_bounds v s k h = elim (Bool-cases (test dark (suit_at v (pos s)))) [
  | inl t ↦ rw t (omega arith)
  | inr f ↦ rw f (elim (Bool-cases (is_rank (pos (suc k)) v.critical_rank)) [
    | inl t ↦ rw t (omega arith)
    | inr f ↦ rw f (table k h)
  ])
]
  where
    table :
        (k : ℕ)
        → k < 5
        → (1 ≤ get_or (3 ∷ 2 ∷ 2 ∷ 2 ∷ 1 ∷ []) k 0) × (get_or (3 ∷ 2 ∷ 2 ∷ 2 ∷ 1 ∷ []) k 0 ≤ 3)
    table zero h = omega arith
    table (suc zero) h = omega arith
    table (suc (suc zero)) h = omega arith
    table (suc (suc (suc zero))) h = omega arith
    table (suc (suc (suc (suc zero)))) h = omega arith
    table (suc (suc (suc (suc (suc k))))) h = absurd (omega arith)

length-suit_counts : (v : Variant) (s n from : ℕ) → length (suit_counts v s n from) ≡ n
unfolding suit_counts
length-suit_counts v s zero from = refl
length-suit_counts v s (suc n) from = ap suc (length-suit_counts v s n (from + 1))

get_or-suit_counts :
    (v : Variant) (s n from k : ℕ)
    → k < n
    → get_or (suit_counts v s n from) k 0 ≡ variant_card_count v (card s (from + k))
unfolding suit_counts
get_or-suit_counts v s zero from k h = absurd (omega arith)
get_or-suit_counts v s (suc n) from zero h = let e : from + 0 ≡ from = omega arith in rw e
get_or-suit_counts v s (suc n) from (suc k) h =
    let e : from + suc k ≡ from + 1 + k = omega arith in
    rw e (get_or-suit_counts v s n (from + 1) k (omega arith))

length-all_counts : (v : Variant) (n s : ℕ) → length (all_counts v n s) ≡ n
unfolding all_counts
length-all_counts v zero s = refl
length-all_counts v (suc n) s = ap suc (length-all_counts v n (s + 1))

get_or-all_counts :
    (v : Variant) (n s i : ℕ) → i < n → get_or (all_counts v n s) i [] ≡ suit_counts v (s + i) 5 1
unfolding all_counts
get_or-all_counts v zero s i h = absurd (omega arith)
get_or-all_counts v (suc n) s zero h = let e : s + 0 ≡ s = omega arith in rw e
get_or-all_counts v (suc n) s (suc i) h =
    let e : s + suc i ≡ s + 1 + i = omega arith in
    rw e (get_or-all_counts v n (s + 1) i (omega arith))

start_count :
    (v : Variant) (s k : ℕ)
    → s < length v.suits
    → k < 5
    → get_or (get_or (all_counts v (length v.suits) 0) s []) k 0
      ≡ variant_card_count v (card s (suc k))
start_count v s k hs hk =
    let e : 0 + s ≡ s = omega arith in
    let f : 1 + k ≡ suc k = omega arith in
    rw (get_or-all_counts v (length v.suits) 0 s hs, get_or-suit_counts v (0 + s) 5 1 k hk, e, f)

-- A new game, of any variant and any number of players, is well-formed: nothing is played, nothing
-- is discarded, and every rank can be reached.
pub start-IsWellFormed :
    (v : Variant) (players us : ℕ) (less extra : Bool)
    → IsWellFormed (start v players us less extra)
      × (score (start v players us less extra) ≡ 0)
      × (max_score (start v players us less extra) ≡ 5 * length v.suits)
unfolding start score max_score
start-IsWellFormed v players us less extra = (
  record {
    play_length = length-replicate n 0;
    discard_length = length-replicate n _;
    max_length = length-replicate n 5;
    counts_length = length-all_counts v n 0;
    table = λ s k hs hk. let e : k + 1 ≡ suc k = omega arith in rw e (start_count v s k hs hk);
    suit = λ s hs.
        rw
          (
            get_or-replicate n s (replicate {A = ℕ} 5 0) [] hs,
            get_or-replicate {A = ℕ} n s 0 0 hs,
            get_or-replicate {A = ℕ} n s 5 0 hs,
          )
          (fresh s hs);
  },
  sum-replicate n 0 ∙ omega arith,
  sum-replicate n 5 ∙ omega arith,
)
  where
    n : ℕ
    n = length v.suits

    fresh : (s : ℕ) → s < n → SuitIsOk (get_or (all_counts v n 0) s []) (replicate 5 0) 0 5
    fresh s hs = record {
      counts_length = ap length (get_or-all_counts v n 0 s hs) ∙ length-suit_counts v (0 + s) 5 1;
      discards_length = refl;
      play-le-max = omega arith;
      max-le = omega arith;
      copies = λ k lt. rw (get_or-replicate {A = ℕ} 5 k 0 0 lt) (ground arith);
      available = λ k lt.
          rw (get_or-replicate {A = ℕ} 5 k 0 0 lt, start_count v s k hs lt)
            ((card_count_bounds v s k lt).0);
      exhausted = λ lt. absurd (omega arith);
    }
