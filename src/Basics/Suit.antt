-- ===== src/Basics/Suit.antt =====
-- One suit under a play and a discard.
use hanabi_bot.Base.{
  ℕ, suc, ◌+◌, ◌≤◌, ◌<◌, min, ◌≡◌, ◌≢◌, ◌∙◌, List, get_or, set, if◌then◌else◌, ltb, ◌==◌, arith,
  ℕ_discrete, dec_lt, ap, length-set, get_or-set_self, get_or-set_ne, ==_true, ==_false,
}
use hanabi_bot.State.WellFormed.{SuitIsOk}

pub play-SuitIsOk : (c d : List ℕ) (p m : ℕ) → SuitIsOk c d p m → p < m → SuitIsOk c d (suc p) m
play-SuitIsOk c d p m ok h = record {
  counts_length = ok.counts_length;
  discards_length = ok.discards_length;
  play-le-max = h;
  max-le = ok.max-le;
  copies = λ k lt. ground (arith, ok.copies k lt, ok.available k);
  available = ok.available;
  exhausted = ok.exhausted;
}

module _ (c d : List ℕ) (p m k : ℕ) (ok : SuitIsOk c d p m) (hk : k < 5)
    (legal : get_or d k 0 + (if ltb k p then 1 else 0) < get_or c k 0) where
  bumped : List ℕ
  bumped = set d k (get_or d k 0 + 1)

  bumped_self : get_or bumped k 0 ≡ get_or d k 0 + 1
  unfolding bumped
  bumped_self = get_or-set_self d k _ 0 (omega (arith, ok.discards_length))

  bumped_other : (j : ℕ) → j ≢ k → get_or bumped j 0 ≡ get_or d j 0
  unfolding bumped
  bumped_other j = get_or-set_ne d k j _ 0

  bumped_copies : (j : ℕ) → j < 5 → get_or bumped j 0 + (if ltb j p then 1 else 0) ≤ get_or c j 0
  bumped_copies j lt = elim (ℕ_discrete j k) [
    | yes e ↦ rw (e, bumped_self) (omega arith)
    | no n ↦ rw (bumped_other j n) (ok.copies j lt)
  ]

  -- The last copy goes: ranks from this one on are lost.
  lost-SuitIsOk : get_or d k 0 + 1 ≡ get_or c k 0 → SuitIsOk c bumped p (min m k)
  unfolding bumped
  lost-SuitIsOk e = record {
    counts_length = ok.counts_length;
    discards_length = length-set d k _ ∙ ok.discards_length;
    play-le-max = ground (arith, ok.play-le-max);
    max-le = omega (arith, ok.max-le);
    copies = bumped_copies;
    available = λ j lt. rw (bumped_other j (omega arith)) (ok.available j (omega arith));
    exhausted = λ lt. elim (dec_lt k m) [
      | yes h ↦ let there : min m k ≡ k = omega arith in rw (there, bumped_self) e
      | no h ↦
          let there : min m k ≡ m = omega arith in
          let full : get_or d m 0 ≡ get_or c m 0 = ok.exhausted (omega arith) in
          let other : m ≢ k = λ same. absurd (
            omega (
              arith,
              ap (λ (i : ℕ). get_or d i 0) same,
              ap (λ (i : ℕ). get_or c i 0) same,
              full,
            )) in
          rw (there, bumped_other m other) full
    ];
  }

  -- A copy is left: nothing is lost.
  kept-SuitIsOk : get_or d k 0 + 1 ≢ get_or c k 0 → SuitIsOk c bumped p m
  unfolding bumped
  kept-SuitIsOk n = record {
    counts_length = ok.counts_length;
    discards_length = length-set d k _ ∙ ok.discards_length;
    play-le-max = ok.play-le-max;
    max-le = ok.max-le;
    copies = bumped_copies;
    available = λ j lt. elim (ℕ_discrete j k) [
      | yes e ↦ rw (e, bumped_self) (omega arith)
      | no d ↦ rw (bumped_other j d) (ok.available j lt)
    ];
    exhausted = λ lt.
        let full : get_or d m 0 ≡ get_or c m 0 = ok.exhausted lt in
        let other : m ≢ k = λ same. absurd (
          omega
            (arith, ap (λ (i : ℕ). get_or d i 0) same, ap (λ (i : ℕ). get_or c i 0) same, full)) in
        rw (bumped_other m other) full;
  }

  pub discard-SuitIsOk :
      SuitIsOk c
        (set d k (get_or d k 0 + 1))
        p
        (if get_or (set d k (get_or d k 0 + 1)) k 0 == get_or c k 0 then min m k else m)
  unfolding bumped
  discard-SuitIsOk = rw bumped_self (elim (ℕ_discrete (get_or d k 0 + 1) (get_or c k 0)) [
    | yes e ↦ rw (==_true _ _ e) (lost-SuitIsOk e)
    | no n ↦ rw (==_false _ _ n) (kept-SuitIsOk n)
  ])
