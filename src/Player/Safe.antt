-- ===== src/Player/Safe.antt =====
-- What the cards that a player counts as playable or trash are, if their identities are possible.
use hanabi_bot.Base.{
  ℕ, if◌then◌else◌, ◌≡◌, ◌≢◌, inl, inr, Bool, true, false, not, ◌&&◌, ◌||◌, List, ◌∈◌, Option, some,
  arith, get_elem?, every-mem, Bool-cases, ◌==◌,
}
use mathlib.Core.Option.{some-injective}
use hanabi_bot.Base.Fallible.{filter?, ◌&&?◌, ◌||?◌, Returns, filter?-mem, &&?-true}
use hanabi_bot.Identity.{Identity, IsIdentity}
use hanabi_bot.IdentitySet.{IdentitySet, IsValid, has, array}
use hanabi_bot.IdentitySet.Elements.{array_mem_iff}
use hanabi_bot.State.{State, ActualCard, card_at, is_basic_trash, is_playable}
use hanabi_bot.Card.{Card, MatchOptions, matches, possibilities, has_status, is_chop_moved}
use hanabi_bot.Thoughts.{thought_at}
use hanabi_bot.Basics.{◌>>=◌}
use hanabi_bot.Player.Bind.{>>=_some}
use hanabi_bot.Player.{Player, flat, deck_matches, linked_orders}
use hanabi_bot.Player.Playables.{
  PlayableOptions, every_id, unsafe_linked, known_playable, conflicting_conn,
  has_consistent_inferences, is_playable_card, thinks_playables, seems_playable,
}

-- Every card in a hand is drawn and the player has thoughts about it.
abbrev pub HandsDrawn : State → Player → Type 0
HandsDrawn st p =
    (o : ℕ) → o ∈ flat st.hands → Returns (thought_at p.thoughts o) × Returns (card_at st o)

-- The options `{ infer: true }`.
abbrev infer_only : MatchOptions
infer_only = record { infer = true; symmetric = false; assume = false }

-- The set that the tests of a card go over.
abbrev pub trash_possibilities : Card → IdentitySet
unfolding possibilities
trash_possibilities c = if c.uncertain then c.possible else possibilities c

-- A drawn card in a hand, other than `o`, that the player takes for `id`, and that is not seen to be
-- another one.
abbrev pub SeenCopy : State → Player → Identity → ℕ → Type 0
SeenCopy st p id o =
    (o2 : ℕ) × (c2 : Card) × (actual : ActualCard) × (o2 ∈ flat st.hands)
    × (o2 ≢ o)
    × (thought_at p.thoughts o2 ≡ some c2)
    × (card_at st o2 ≡ some actual)
    × (matches c2 id infer_only ≡ true)
    × (deck_matches actual id true ≡ true)

&&_left : (a b : Bool) → (a && b) ≡ true → a ≡ true
&&_left a b e = ground arith

-- The test of a possibility in `seems_playable`.
abbrev may_play : State → Card → Identity → Bool
unfolding is_basic_trash is_playable
may_play st c id = (has_status is_chop_moved c.status && is_basic_trash st id) || is_playable st id

-- A card that `thinksPlayables` gives, that is neither assumed to be playable nor chop moved and has a
-- valid set of possibilities, is playable on the stacks, whatever identity of them it has.
pub thinks_playables_lem :
    (st : State) (p : Player) (i : ℕ) (options : PlayableOptions) (os : List ℕ) (o : ℕ) (c : Card)
    (id : Identity)
    → thinks_playables st p i options ≡ some os
    → o ∈ os
    → thought_at p.thoughts o ≡ some c
    → c.assume_playable ≡ false
    → has_status is_chop_moved c.status ≡ false
    → IsValid (possibilities c)
    → IsIdentity (possibilities c).num_suits id
    → has (possibilities c) id ≡ true
    → is_playable st id ≡ true
unfolding thinks_playables is_playable_card seems_playable every_id may_play
thinks_playables_lem st p i options os o c id e m t not_assumed not_moved valid is_id member =
    let (linked, l, chosen) =
      >>=_some (linked_orders st p)
        (λ linked.
          get_elem? st.hands i >>= λ hand. filter? (is_playable_card st p i options linked) hand)
        os e in
    let (hand, held, test) =
      >>=_some (get_elem? st.hands i)
        (λ hand. filter? (is_playable_card st p i options linked) hand) os chosen in
    let (in_hand, own) = filter?-mem (is_playable_card st p i options linked) hand os o test m in
    elim (Bool-cases (c.trash && not (every_id (λ id. not (is_basic_trash st id)) c.possible))) [
      | inl gone ↦ absurd (ground (arith, rw (t, gone) at (own)))
      | inr stays ↦ elim (Bool-cases (unsafe_linked st linked o c)) [
        | inl unsafe ↦ absurd (ground (arith, rw (t, stays, not_assumed, unsafe) at (own)))
        | inr safe ↦
            let later : Option Bool =
              some (
                options.assume
                || known_playable st p c
                || ((not c.uncertain || i == st.our_player) && not (conflicting_conn st p i o c)))
              &&? (some options.symmetric ||? has_consistent_inferences st c) in
            let seems : seems_playable st c ≡ true =
              some-injective _ _
                (&&?-true (some (seems_playable st c)) later
                  (rw (t, stays, not_assumed, safe) at (own))).0 in
            let each =
              every-mem (may_play st c) (array (possibilities c)) id (&&_left _ _ seems)
                ((array_mem_iff (possibilities c) id valid).1 (is_id, member)) in
            rw not_moved at (each)
      ]
    ]
