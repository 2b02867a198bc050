-- ===== src/Elimination/Endgame/Holders.antt =====
-- The players that `endgame_elim` takes for holders of an identity are all who have it.
use hanabi_bot.Base.{
  ℕ, ◌+◌, ◌≤◌, ◌≡◌, refl, sym, ap, ◌∙◌, ◌⊎◌, inl, inr, Bool, true, false, ◌≢◌, List, [], ◌∷◌, ◌++◌,
  ◌∈◌, ◌==◌, Option, none, some, if◌then◌else◌, filter, length, arith, Bool-cases, length-append,
  filter-append, mem-filter, mem-append_left, mem-append_right,
}
use hanabi_bot.Base.Fallible.{◌||?◌, Returns, filter?, some?, some?-Returns}
use hanabi_bot.Identity.{Identity, matches, matches_iff}
use hanabi_bot.State.{State, base_count, card_count}
use hanabi_bot.Thoughts.{Thoughts}
use hanabi_bot.Elimination.Certains.{all_orders, copies}
use hanabi_bot.Elimination.Endgame.{
  Count, is_copy, is_unidentified, count_holders, add_unidentified, holders_of,
}

-- Who has a card of the kind `P` in hand is among `holders`; `i` is the player of the first hand.
abbrev pub Hold : (P : ℕ → Type 0) → ℕ → List (List ℕ) → List ℕ → Type 0
Hold P i [] holders = Unit {0}
Hold P i (hand ∷ hands) holders =
    ((o : ℕ) → o ∈ hand → P o → i ∈ holders) × Hold P (i + 1) hands holders

Hold-or :
    (P Q R : ℕ → Type 0) (i : ℕ) (hands : List (List ℕ)) (holders : List ℕ)
    → ((o : ℕ) → o ∈ all_orders hands → P o → Q o ⊎ R o)
    → Hold Q i hands holders
    → Hold R i hands holders
    → Hold P i hands holders
Hold-or P Q R i [] holders h q r = tt
Hold-or P Q R i (hand ∷ hands) holders h (q, qs) (r, rs) = (
  λ o m p. elim (h o (mem-append_left o hand (all_orders hands) m) p) [
    | inl a ↦ q o m a
    | inr b ↦ r o m b
  ],
  Hold-or P Q R (i + 1) hands holders (λ o m. h o (mem-append_right o hand (all_orders hands) m)) qs
      rs,
)

Hold-grow :
    (P : ℕ → Type 0) (i : ℕ) (hands : List (List ℕ)) (holders more : List ℕ)
    → ((j : ℕ) → j ∈ holders → j ∈ more)
    → Hold P i hands holders
    → Hold P i hands more
Hold-grow P i [] holders more g h = tt
Hold-grow P i (hand ∷ hands) holders more g (h, hs) =
    (λ o m p. g i (h o m p), Hold-grow P (i + 1) hands holders more g hs)

-- What the tests of a card say: `deal` has the identities of the cards.
pub record AreRight (deal : ℕ → Identity) (st : State) (thoughts : Thoughts) (id : Identity)
    (orders : List ℕ) : Type 0 where
  pub copy_returns : (o : ℕ) → o ∈ orders → Returns (is_copy st thoughts id o)
  pub copy_true : (o : ℕ) → o ∈ orders → is_copy st thoughts id o ≡ some true → deal o ≡ id
  pub open_returns : (o : ℕ) → o ∈ orders → Returns (is_unidentified st thoughts o)
  pub closed_copy :
      (o : ℕ)
      → o ∈ orders
      → is_unidentified st thoughts o ≡ some false
      → deal o ≡ id
      → is_copy st thoughts id o ≡ some true

-- The filter of the copies gives all that pass the test, and no more than a weaker test.
found_lem :
    (p : ℕ → Option Bool) (q : ℕ → Bool) (xs : List ℕ)
    → ((x : ℕ) → x ∈ xs → Returns (p x))
    → ((x : ℕ) → x ∈ xs → p x ≡ some true → q x ≡ true)
    → (found : List ℕ) × (filter? p xs ≡ some found)
      × (length found ≤ length (filter q xs))
      × ((x : ℕ) → x ∈ xs → p x ≡ some true → x ∈ found)
unfolding filter?
found_lem p q [] r sub = ([], refl, omega arith, λ x m t. m)
found_lem p q (x ∷ xs) r sub =
    let (b, e) = r x (inl refl) in
    let (found, h, le, all) = found_lem p q xs (λ y m. r y (inr m)) (λ y m. sub y (inr m)) in
    elim (Bool-cases b) [
      | inl t ↦
          let passes : p x ≡ some true = e ∙ ap some t in
          let weaker = sub x (inl refl) passes in
          rw (passes, h)
            (
              x ∷ found,
              refl,
              ground arith,
              λ y m u. elim m [ inl same ↦ inl same | inr later ↦ inr (all y later u) ],
            )
      | inr f ↦
          let fails : p x ≡ some false = e ∙ ap some f in
          rw (fails, h)
            (
              found,
              refl,
              ground arith,
              λ y m u. elim m [
                | inl same ↦ absurd (ground (arith, sym (ap p same) ∙ u))
                | inr later ↦ all y later u
              ],
            )
    ]

-- A player whose count is not 0 is added.
mem-length : (x : ℕ) (xs : List ℕ) → x ∈ xs → 1 ≤ length xs
mem-length x [] m = absurd m
mem-length x (y ∷ xs) m = omega arith

holders-add :
    (i n : ℕ) (holders : List ℕ) → 1 ≤ n → i ∈ (if n == 0 then holders else holders ++ i ∷ [])
holders-add i n holders le =
    let some_found : (n == 0) ≡ false = ground arith in
    rw some_found (mem-append_right i holders (i ∷ []) (inl refl))

some?-false :
    (p : ℕ → Option Bool) (x : ℕ) (xs : List ℕ) → some? p xs ≡ some false → x ∈ xs → p x ≢ some true
unfolding some?
some?-false p x [] h m e = m
some?-false p x (y ∷ xs) h (inl same) e = ground (arith, sym (ap p same) ∙ e)
some?-false p x (y ∷ xs) h (inr m) e = some?-false p x xs (rest (p y) (some? p xs) h) m e
  where
    rest : (a b : Option Bool) → a ||? b ≡ some false → b ≡ some false
    rest none b h = absurd (ground arith)
    rest (some true) b h = absurd (ground arith)
    rest (some false) b h = h

if-grow :
    (b : Bool) (i j : ℕ) (holders : List ℕ)
    → j ∈ holders
    → j ∈ (if b then holders else holders ++ i ∷ [])
if-grow true i j holders m = m
if-grow false i j holders m = mem-append_left j holders (i ∷ []) m

module _ (deal : ℕ → Identity) (st : State) (thoughts : Thoughts) (id : Identity) where
  AreRight-rest :
      (hand : List ℕ) (hands : List (List ℕ))
      → AreRight deal st thoughts id (hand ++ all_orders hands)
      → AreRight deal st thoughts id (all_orders hands)
  AreRight-rest hand hands r =
      let later =
        λ (o : ℕ) (m : o ∈ all_orders hands). mem-append_right o hand (all_orders hands) m in
      record {
        copy_returns = λ o m. r.copy_returns o (later o m);
        copy_true = λ o m. r.copy_true o (later o m);
        open_returns = λ o m. r.open_returns o (later o m);
        closed_copy = λ o m. r.closed_copy o (later o m);
      }

  -- The loop adds at most the copies; who has a card that is found to be a copy is a holder, and if
  -- all are found, so is everyone who has one.
  count_holders-lem :
      (i : ℕ) (hands : List (List ℕ)) (n : Count)
      → AreRight deal st thoughts id (all_orders hands)
      → (n' : Count) × (count_holders st thoughts id i hands n ≡ some n')
        × ((j : ℕ) → j ∈ n.holders → j ∈ n'.holders)
        × (n'.total ≤ n.total + length (copies deal id (all_orders hands)))
        × Hold (λ o. is_copy st thoughts id o ≡ some true) i hands n'.holders
        × (n'.total ≡ n.total + length (copies deal id (all_orders hands))
            → Hold (λ o. deal o ≡ id) i hands n'.holders)
  unfolding count_holders
  count_holders-lem i [] n r = (n, refl, (λ j m. m), omega arith, tt, λ e. tt)
  count_holders-lem i (hand ∷ hands) n r =
      let now = λ (o : ℕ) (m : o ∈ hand). mem-append_left o hand (all_orders hands) m in
      let test : ℕ → Bool = λ o. matches (deal o) id in
      let (found, h, le, all) =
        found_lem (is_copy st thoughts id) test hand (λ o m. r.copy_returns o (now o m))
          (λ o m t. (matches_iff (deal o) id).1 (r.copy_true o (now o m) t)) in
      let holders = if length found == 0 then n.holders else n.holders ++ i ∷ [] in
      let (n', h', grow, le', hold, full) =
        count_holders-lem (i + 1) hands
          (record { total = n.total + length found; holders = holders })
          (AreRight-rest hand hands r) in
      let both : length (copies deal id (hand ++ all_orders hands))
          ≡ length (copies deal id hand) + length (copies deal id (all_orders hands)) =
        ap length (filter-append test hand (all_orders hands))
        ∙ length-append (copies deal id hand) (copies deal id (all_orders hands)) in
      rw h (
        n',
        h',
        (λ j m. grow j (if-grow (length found == 0) i j n.holders m)),
        omega (arith, le, le', both),
        (
          (λ o m t.
              grow i (holders-add i (length found) n.holders (mem-length o found (all o m t)))),
          hold,
        ),
        λ e. (
          (λ o m own.
              let some_copy = mem-filter test o hand m ((matches_iff (deal o) id).1 own) in
              let one_found = mem-length o (copies deal id hand) some_copy in
              grow i (
                holders-add i (length found) n.holders
                  (omega (arith, le, le', both, e, one_found)))),
          full (omega (arith, le, le', both, e)),
        ),
      )

  -- Who has a card that is not identified becomes a holder.
  add_unidentified-lem :
      (i : ℕ) (hands : List (List ℕ)) (holders : List ℕ)
      → AreRight deal st thoughts id (all_orders hands)
      → (more : List ℕ) × (add_unidentified st thoughts i hands holders ≡ some more)
        × ((j : ℕ) → j ∈ holders → j ∈ more)
        × Hold (λ o. is_unidentified st thoughts o ≡ some true) i hands more
  unfolding add_unidentified
  add_unidentified-lem i [] holders r = (holders, refl, (λ j m. m), tt)
  add_unidentified-lem i (hand ∷ hands) holders r =
      let now = λ (o : ℕ) (m : o ∈ hand). mem-append_left o hand (all_orders hands) m in
      let (b, h) =
        some?-Returns (is_unidentified st thoughts) hand (λ o m. r.open_returns o (now o m)) in
      elim (Bool-cases b) [
        | inl t ↦
            let (more, h', grow, hold) =
              add_unidentified-lem (i + 1) hands (holders ++ i ∷ []) (AreRight-rest hand hands r) in
            rw (h, t)
              (
                more,
                h',
                (λ j m. grow j (mem-append_left j holders (i ∷ []) m)),
                ((λ o m u. grow i (mem-append_right i holders (i ∷ []) (inl refl))), hold),
              )
        | inr f ↦
            let (more, h', grow, hold) =
              add_unidentified-lem (i + 1) hands holders (AreRight-rest hand hands r) in
            rw (h, f)
              (
                more,
                h',
                grow,
                (
                  (λ o m u.
                      absurd
                        (some?-false (is_unidentified st thoughts) o hand (h ∙ ap some f) m u)),
                  hold,
                ),
              )
      ]

  -- Everyone who has the identity is a holder, if there are no more copies than in the deck.
  pub holders_of-lem :
      AreRight deal st thoughts id (all_orders st.hands)
      → base_count st id + length (copies deal id (all_orders st.hands)) ≤ card_count st id
      → (holders : List ℕ) × (holders_of st thoughts id ≡ some holders)
        × Hold (λ o. deal o ≡ id) 0 st.hands holders
  unfolding holders_of
  holders_of-lem r fits =
      let (n, h, grow, le, hold, full) =
        count_holders-lem 0 st.hands (record { total = base_count st id; holders = [] }) r in
      elim (Bool-cases (n.total == card_count st id)) [
        | inl all ↦
            let reached : n.total ≡ card_count st id = ground arith in
            rw (h, all) (n.holders, refl, full (omega (arith, le, reached, fits)))
        | inr some_left ↦
            let (more, h', grow', open_hold) = add_unidentified-lem 0 st.hands n.holders r in
            rw (h, some_left)
              (
                more,
                h',
                Hold-or _ _ _ 0 st.hands more
                    (λ o m own.
                      closed_or_open o (r.open_returns o m) (λ shut. r.closed_copy o m shut own))
                    (Hold-grow _ 0 st.hands n.holders more grow' hold) open_hold,
              )
      ]
    where
      closed_or_open :
          (o : ℕ)
          → Returns (is_unidentified st thoughts o)
          → (is_unidentified st thoughts o ≡ some false → is_copy st thoughts id o ≡ some true)
          → (is_copy st thoughts id o ≡ some true) ⊎ (is_unidentified st thoughts o ≡ some true)
      closed_or_open o (true, e) closed = inr e
      closed_or_open o (false, e) closed = inl (closed e)
