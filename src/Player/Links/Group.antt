-- ===== src/Player/Links/Group.antt =====
-- The links that `find_links` adds.
use hanabi_bot.Base.{
  ℕ, ◌≤◌, ◌≡◌, ◌≢◌, refl, sym, ap, inl, inr, Bool, true, false, ◌||◌, List, [], ◌∷◌, ◌++◌, ◌∈◌,
  Option, none, some, ◌==◌, arith, if◌then◌else◌, length, get_elem?, leb, ltb, leb→le, tests,
  Bool-cases, append-mem,
}
use mathlib.Core.Path.{subst}
use mathlib.Core.Option.{some-injective}
use hanabi_bot.Base.Fallible.{filter?, filter?-mem}
use hanabi_bot.IdentitySet.{IdentitySet, array, equals, set as of_set, length as set_length}
use hanabi_bot.State.{State, is_basic_trash}
use hanabi_bot.Basics.{◌>>=◌}
use hanabi_bot.Card.{Card}
use hanabi_bot.Thoughts.{Thoughts, thought_at, includes_order}
use hanabi_bot.Player.{Player, Link, orders_of}
use hanabi_bot.Player.Bind.{>>=_some}
use hanabi_bot.Player.Playables.{every_id}
use hanabi_bot.Player.Links.{
  LinkSearch, is_focused, is_identified, is_unlinkable, shares_inferences, settle_focus, add_link,
  focus_group, link_group, link_card, link_cards, find_links_in,
}

-- A link of cards of the hand that have the same one to three inferences, at least two cards and at
-- least as many as inferences.
pub record IsGroup (old : Thoughts) (hand : List ℕ) (l : Link) : Type 0 where
  pub promised : l.promised ≡ false
  pub ids : IdentitySet
  pub identities : l.identities ≡ array ids
  pub some_left : 1 ≤ set_length ids
  pub small : set_length ids ≤ 3
  pub several : 2 ≤ length l.orders
  pub enough : set_length ids ≤ length l.orders
  pub share :
      (o : ℕ)
      → o ∈ l.orders
      → (o ∈ hand)
        × (c : Card) × (thought_at old o ≡ some c)
        × (equals ids (of_set c.inferred) ≡ true)

-- The links that a search has found.
abbrev AllGroups : Thoughts → List ℕ → LinkSearch → Type 0
AllGroups old hand s = (l : Link) → l ∈ s.links → IsGroup old hand l

shares-mem :
    (old : Thoughts) (ids : IdentitySet) (hand orders : List ℕ) (o : ℕ)
    → filter? (shares_inferences old ids) hand ≡ some orders
    → o ∈ orders
    → (o ∈ hand)
      × (c : Card) × (thought_at old o ≡ some c)
      × (equals ids (of_set c.inferred) ≡ true)
unfolding shares_inferences
shares-mem old ids hand orders o e m =
    let (in_hand, test) = filter?-mem (shares_inferences old ids) hand orders o e m in
    let (c, t, same) = >>=_some (thought_at old o) _ true test in
    (in_hand, c, t, some-injective _ _ same)

add_link-Groups :
    (old : Thoughts) (hand orders : List ℕ) (ids : IdentitySet) (s : LinkSearch)
    → filter? (shares_inferences old ids) hand ≡ some orders
    → 1 ≤ set_length ids
    → set_length ids ≤ 3
    → length orders ≢ 1
    → AllGroups old hand s
    → AllGroups old hand (add_link orders ids s)
unfolding add_link
add_link-Groups old hand orders ids s e low high ne groups l m =
    elim (Bool-cases (leb (set_length ids) (length orders))) [
      | inr few ↦ groups l (rw few at (m))
      | inl enough ↦ elim (append-mem l s.links (new ∷ []) (rw enough at (m))) [
        | inl old_link ↦ groups l old_link
        | inr (inr never) ↦ absurd never
        | inr (inl same) ↦ subst (IsGroup old hand) (sym same) (record {
          promised = refl;
          ids = ids;
          identities = refl;
          some_left = low;
          small = high;
          several = omega (tests, enough, low, ne);
          enough = leb→le _ _ enough;
          share = λ o n. shares-mem old ids hand orders o e n;
        })
      ]
    ]
  where
    new : Link
    new = record { orders = orders; identities = array ids; promised = false; target = none }

||_false : (a b : Bool) → (a || b) ≡ false → (a ≡ false) × (b ≡ false)
||_false a b e = (ground arith, ground arith)

-- A card that can be linked has one to three inferences.
linkable :
    (st : State) (linked : List ℕ) (o : ℕ) (c : Card)
    → is_unlinkable st linked o c ≡ false
    → (1 ≤ set_length c.inferred) × (set_length c.inferred ≤ 3)
unfolding is_unlinkable
linkable st linked o c e =
    let listed : Bool = includes_order linked o || is_identified c in
    let (some_left, useless) =
      ||_false (listed || set_length c.inferred == 0 || ltb 3 (set_length c.inferred))
        (every_id (is_basic_trash st) c.inferred) e in
    let (fits, many) =
      ||_false (listed || set_length c.inferred == 0) (ltb 3 (set_length c.inferred)) some_left in
    let (none_listed, empty) = ||_false listed (set_length c.inferred == 0) fits in
    (positive (set_length c.inferred) empty, small (set_length c.inferred) many)
  where
    positive : (n : ℕ) → (n == 0) ≡ false → 1 ≤ n
    positive n h = ground arith

    small : (n : ℕ) → ltb 3 n ≡ false → n ≤ 3
    small n h = ground arith

focus_group-Groups :
    (old : Thoughts) (hand orders : List ℕ) (ids : IdentitySet) (s s' : LinkSearch) (fs : List ℕ)
    → AllGroups old hand s
    → AllGroups old hand (add_link orders ids s)
    → focus_group fs orders ids s ≡ some s'
    → AllGroups old hand s'
unfolding focus_group
focus_group-Groups old hand orders ids s s' [] kept added r =
    subst (AllGroups old hand) (some-injective _ s' r) added
focus_group-Groups old hand orders ids s s' (f ∷ []) kept added r =
    elim (Bool-cases (set_length ids == 1)) [
      | inr many ↦ subst (AllGroups old hand) (some-injective _ s' (rw many at (r))) added
      | inl one ↦
          let (id, first, rest) =
            >>=_some (get_elem? (array ids) 0)
              (λ id.
                settle_focus f id orders s.thoughts >>= λ ts. some (record s { thoughts = ts }))
              s' (rw one at (r)) in
          let (ts, settled, last) =
            >>=_some (settle_focus f id orders s.thoughts) (λ ts. some (record s { thoughts = ts }))
              s' rest in
          subst (AllGroups old hand) (some-injective (record s { thoughts = ts }) s' last) kept
    ]
focus_group-Groups old hand orders ids s s' (f ∷ g ∷ fs) kept added r =
    subst (AllGroups old hand) (some-injective _ s' r) added

link_card-Groups :
    (st : State) (old : Thoughts) (hand : List ℕ) (o : ℕ) (s s' : LinkSearch)
    → AllGroups old hand s
    → link_card st old hand o s ≡ some s'
    → AllGroups old hand s'
unfolding link_card link_group
link_card-Groups st old hand o s s' groups r =
    let (c, t, rest) = >>=_some (thought_at old o) after s' r in
    elim (Bool-cases (is_unlinkable st s.linked_orders o c)) [
      | inl skipped ↦ same (rw skipped at (rest))
      | inr linked ↦
          let (orders, e, group) =
            >>=_some (filter? (shares_inferences old c.inferred) hand)
              (λ orders. if length orders == 1 then some s else link_group old orders c.inferred s)
              s' (rw linked at (rest)) in
          elim (Bool-cases (length orders == 1)) [
            | inl alone ↦ same (rw alone at (group))
            | inr several ↦
                let (low, high) = linkable st s.linked_orders o c linked in
                let (fs, f, last) =
                  >>=_some (filter? (is_focused old) orders)
                    (λ fs. focus_group fs orders c.inferred s) s' (rw several at (group)) in
                focus_group-Groups old hand orders c.inferred s s' fs groups
                  (add_link-Groups old hand orders c.inferred s e low high
                    (not_one (length orders) several) groups)
                  last
          ]
    ]
  where
    after : Card → Option LinkSearch
    after c =
        if is_unlinkable st s.linked_orders o c
        then some s
        else (filter? (shares_inferences old c.inferred) hand >>= λ orders.
            if length orders == 1 then some s else link_group old orders c.inferred s)

    same : some s ≡ some s' → AllGroups old hand s'
    same e = subst (AllGroups old hand) (some-injective s s' e) groups

    not_one : (n : ℕ) → (n == 1) ≡ false → n ≢ 1
    not_one n h e = ground arith

link_cards-Groups :
    (st : State) (old : Thoughts) (hand os : List ℕ) (s s' : LinkSearch)
    → AllGroups old hand s
    → link_cards st old hand os s ≡ some s'
    → AllGroups old hand s'
unfolding link_cards
link_cards-Groups st old hand [] s s' groups r =
    subst (AllGroups old hand) (some-injective s s' r) groups
link_cards-Groups st old hand (o ∷ os) s s' groups r =
    let (mid, first, rest) =
      >>=_some (link_card st old hand o s) (link_cards st old hand os) s' r in
    link_cards-Groups st old hand os mid s' (link_card-Groups st old hand o s mid groups first) rest

-- `find_links` keeps the links of the player and adds links of cards of the hand that have the same
-- one to three inferences, at least two cards and at least as many as inferences each.
pub find_links_in-IsGroup :
    (st : State) (p p' : Player) (hand : List ℕ)
    → find_links_in st p hand ≡ some p'
    → (added : List Link) × (p'.links ≡ p.links ++ added)
      × ((l : Link) → l ∈ added → IsGroup p.thoughts hand l)
unfolding find_links_in
find_links_in-IsGroup st p p' hand e =
    let begin : LinkSearch = record {
      thoughts = p.thoughts;
      links = [];
      linked_orders = orders_of p.links;
    } in
    let (s, found, last) =
      >>=_some (link_cards st p.thoughts hand hand begin)
        (λ s. some (record p { thoughts = s.thoughts; links = p.links ++ s.links })) p' e in
    (
      s.links,
      ap (λ (q : Player). q.links) (sym (some-injective _ p' last)),
      link_cards-Groups st p.thoughts hand hand begin s (λ l m. absurd m) found,
    )
