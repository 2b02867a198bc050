-- ===== src/Thoughts/Seen.antt =====
-- What a player, or everyone in common, thinks of the cards through a game, as far as it follows from
-- what is seen: the thoughts, and the identities that are expected in the deck.
use hanabi_bot.Base.{
  ℕ, ◌≤◌, ◌≡◌, refl, sym, ap, ◌∙◌, inl, inr, List, [], ◌∷◌, ◌∈◌, none, some, length, arith,
}
use mathlib.Core.Path.{subst}
use mathlib.Core.Option.{some-injective}
use hanabi_bot.Identity.{Identity, IsIdentity}
use hanabi_bot.IdentitySet.{make}
use hanabi_bot.IdentitySet.Members.{make-all, make-empty}
use hanabi_bot.Variants.{Variant, card_touched}
use hanabi_bot.State.{State}
use hanabi_bot.Basics.{ClueAction}
use hanabi_bot.Player.{Player}
use hanabi_bot.Elimination.Counting.{AllDiffer}
use hanabi_bot.Elimination.Certains.{all_orders}
use hanabi_bot.Elimination.Truth.{IsSeenRight}
use hanabi_bot.Elimination.Endgame.Cards.{IsDeckRight}
use hanabi_bot.Elimination.Whole.{eliminated, card_elim}
use hanabi_bot.Elimination.Backed.Whole.{FitsWith, card_elim-keeps_left}
use hanabi_bot.Thoughts.{Thoughts, includes_order, clue_thoughts, reveal_thoughts, draw_thoughts}
use hanabi_bot.Thoughts.Sound.{
  HasTruth, IsSound, AreDrawn, clue_thoughts-IsSound, reveal_thoughts-IsSound,
  draw_thoughts-IsSound,
}

-- The state in which the player eliminates: the cards on the stacks, in the hands and those that are
-- left fit the deck, each held card is drawn and in one hand, what is seen of the cards is right and
-- no card is rewound to other identities, and `base_ids` is empty, as a new state sets it.
pub record IsTable (v : Variant) (deal : ℕ → Identity) (p : Player) (left : List ℕ) (st : State)
    : Type 0 where
  pub variant : st.variant ≡ v
  pub fits : FitsWith st deal left
  pub deck : IsDeckRight deal st
  pub differ : AllDiffer (all_orders st.hands)
  pub base : st.base_ids ≡ make (length v.suits) (some 0)
  pub drawn : AreDrawn p.thoughts (all_orders st.hands)
  pub seen : IsSeenRight deal p.thoughts

-- One change of the player and of the orders that are left in the deck, where `deal` gives the cards'
-- identities: a clue, which by the rules names the cards of the hand that it touches; a card that is
-- played or discarded, and so shown; the next card, that is drawn; and `card_elim`.
pub data Seen (v : Variant) (deal : ℕ → Identity) : Player → List ℕ → Player → List ℕ → Type 0 where
  clued :
      {p : Player} {left : List ℕ} (a : ClueAction) (turn : ℕ) (hand : List ℕ) (ts : Thoughts)
      → ((o : ℕ) → o ∈ hand → includes_order a.list o ≡ card_touched (deal o) v a.clue)
      → AreDrawn p.thoughts hand
      → clue_thoughts v a turn p.thoughts hand p.thoughts ≡ some ts
      → Seen v deal p left (record p { thoughts = ts }) left
  shown :
      {p : Player} {left : List ℕ} (o : ℕ) (ts : Thoughts)
      → reveal_thoughts p.thoughts o (deal o) ≡ some ts
      → Seen v deal p left (record p { thoughts = ts }) left
  drawn :
      {p : Player} {left : List ℕ} (o turn : ℕ) (seen : Identity)
      → Seen v deal p
          (o ∷ left)
          (record p { thoughts = draw_thoughts p.thoughts p.all_possible o turn seen })
          left
  ruled_out :
      {p p' : Player} {left : List ℕ} (st : State)
      → IsTable v deal p left st
      → card_elim p st ≡ eliminated p'
      → Seen v deal p left p' left

-- A game starts without thoughts, with all identities to be expected in the deck.
pub data History (v : Variant) (deal : ℕ → Identity) : Player → List ℕ → Type 0 where
  start :
      {p : Player} {cards : List ℕ}
      → p.thoughts ≡ []
      → p.all_possible ≡ make (length v.suits) none
      → History v deal p cards
  after :
      {p p' : Player} {left left' : List ℕ}
      → History v deal p left
      → Seen v deal p left p' left'
      → History v deal p' left'

module _ (v : Variant) (deal : ℕ → Identity) (ids : (o : ℕ) → IsIdentity (length v.suits) (deal o))
    (le : length v.suits ≤ 6) where
  -- The cards that are drawn can be what they are, and so can those that are left.
  abbrev IsOpen : Player → List ℕ → Type 0
  IsOpen p left =
      IsSound (length v.suits) deal p.thoughts
      × ((o : ℕ) → o ∈ left → HasTruth (length v.suits) (deal o) p.all_possible)

  ruled_out-IsOpen :
      (p p' : Player) (left : List ℕ) (st : State)
      → IsOpen p left
      → IsTable v deal p left st
      → card_elim p st ≡ eliminated p'
      → IsOpen p' left
  unfolding make
  ruled_out-IsOpen p p' left st (sound, expected) t h =
      let same : length st.variant.suits ≡ length v.suits =
        ap (λ (u : Variant). length u.suits) t.variant in
      let (valid, empty) = make-empty (length v.suits) le in
      let (p'', h', sound', keeps) =
        card_elim-keeps_left st deal (λ o. rw same (ids o)) left t.fits t.deck t.differ
          (rw t.base valid) (rw (t.base, same) refl) (λ id. rw t.base (empty id)) p (rw same sound)
          t.drawn t.seen in
      let one_end : p'' ≡ p' = eliminated-injective (sym h' ∙ h) in
      subst (λ q. IsOpen q left) one_end
        (rw same at (sound'), λ o m. rw same at (keeps o m (rw same (expected o m))))
    where
      eliminated-injective : {q q' : Player} → eliminated q ≡ eliminated q' → q ≡ q'
      eliminated-injective e = ground arith

  Seen-IsOpen :
      (p p' : Player) (left left' : List ℕ)
      → IsOpen p left
      → Seen v deal p left p' left'
      → IsOpen p' left'
  Seen-IsOpen p p' left left' (sound, expected) (clued a turn hand ts rule held h) =
      let (ts', e, t) = clue_thoughts-IsSound v a turn deal p.thoughts ids sound hand rule held in
      (subst (IsSound (length v.suits) deal) (some-injective _ _ (sym e ∙ h)) t, expected)
  Seen-IsOpen p p' left left' (sound, expected) (shown o ts h) =
      (reveal_thoughts-IsSound (length v.suits) deal p.thoughts ts o ids sound h, expected)
  Seen-IsOpen p p' left left' (sound, expected) (drawn {left = rest} o turn seen) = (
    draw_thoughts-IsSound (length v.suits) deal p.thoughts p.all_possible o turn seen sound
        (expected o (inl refl)),
    λ i m. expected i (inr m),
  )
  Seen-IsOpen p p' left left' g (ruled_out st t h) = ruled_out-IsOpen p p' left st g t h

  -- In every game of a variant with at most six suits, after any sequence of clues that follow the
  -- rules, shown cards, draws, and runs of `card_elim` in states where the cards on the stacks, in
  -- the hands and left in the deck fit the deck, each held card is drawn and in one hand, what is
  -- seen of the cards is right, and `base_ids` is empty, every drawn card has its identity among its
  -- possibilities, and every card that is left in the deck has its identity in `all_possible`, the
  -- possibilities it will be drawn with.
  pub history-IsSound :
      (p : Player) (left : List ℕ)
      → History v deal p left
      → IsSound (length v.suits) deal p.thoughts
        × ((o : ℕ) → o ∈ left → HasTruth (length v.suits) (deal o) p.all_possible)
  unfolding make
  history-IsSound p left (start none_drawn all) =
      let (valid, every) = make-all (length v.suits) le in
      (
        rw none_drawn (λ o c h. absurd (ground arith)),
        λ o m. rw all (record { valid = valid; suits = refl; member = every (deal o) (ids o) }),
      )
  history-IsSound p left (after {p = before} {left = left_before} past step) =
      Seen-IsOpen before p left_before left (history-IsSound before left_before past) step
