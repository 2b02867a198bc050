-- ===== src/Player/Links/Refresh.antt =====
-- refresh_links and restore_elim of basics/player-elim.js. `none` is a run that throws. A promised link
-- has an identity. Logging is left out.
use hanabi_bot.Base.{
  ℕ, Bool, false, not, ◌||◌, List, [], ◌∷◌, ◌++◌, Option, none, some, ◌==◌, ltb, if◌then◌else◌,
  length, get_elem?, set, some_of,
}
use hanabi_bot.Base.Int.{eq_ℤ}
use hanabi_bot.Base.Fallible.{filter?, some?}
use hanabi_bot.Identity.{Identity, matches as same_identity}
use hanabi_bot.IdentitySet.{has, intersect, union, one}
use hanabi_bot.State.{State}
use hanabi_bot.Basics.{◌>>=◌}
use hanabi_bot.Card.{identity}
use hanabi_bot.Thoughts.{Thoughts, thought_at}
use hanabi_bot.Player.{Player, Link, no_options}
use hanabi_bot.Player.Links.{is_identified, settle_focus, is_focused, find_links}
use hanabi_bot.Player.Playables.{some_id}

-- A card of a promised link that is known to have the identity.
unfoldable pub is_match : Thoughts → Identity → ℕ → Option Bool
unfolding identity same_identity
is_match ts id o = do
  c ← thought_at ts o
  some (elim (identity c no_options) [ none ↦ false | some i ↦ same_identity i id ])

unfoldable pub can_be : Thoughts → Identity → ℕ → Option Bool
unfolding has
can_be ts id o = do c ← thought_at ts o; some (has c.possible id)

-- The target of the link has lost the suits of its identities.
unfoldable pub lost_target : Thoughts → Link → Option Bool
unfolding some_id
lost_target ts l = elim l.target [
  | none ↦ some false
  | some t ↦ do
    c ← thought_at ts t
    some (
        not (
          some_id (λ i. some_of (λ (j : Identity). eq_ℤ i.suit_index j.suit_index) l.identities)
            c.possible))
]

-- The variables of the loop of `refresh_links`: `thoughts` are those of `newPlayer`.
pub record Refresh : Type 0 where
  pub thoughts : Thoughts
  pub links : List Link

abbrev add_refreshed : Link → Refresh → Refresh
add_refreshed l r = record r { links = r.links ++ l ∷ [] }

-- A promised link whose promise is not resolved: `viable` are the cards that can have the identity.
unfoldable pub keep_viable : Link → Identity → (viable : List ℕ) → Refresh → Option Refresh
unfolding intersect
keep_viable l id [] r = some r
keep_viable l id (o ∷ []) r = do
  c ← thought_at r.thoughts o
  some (record r {
    thoughts = set r.thoughts o (some (record c { inferred = intersect c.inferred (one id) }));
  })
keep_viable l id (o ∷ o2 ∷ os) r = some (add_refreshed (record l { orders = o ∷ o2 ∷ os }) r)

unfoldable pub refresh_promised : (old : Thoughts) → Link → Refresh → Option Refresh
unfolding some? is_match lost_target filter? can_be keep_viable
refresh_promised old l r = if ltb 1 (length l.identities) then none else do
  id ← get_elem? l.identities 0
  resolved ← some? (is_match old id) l.orders
  if resolved then some r else do
    lost ← lost_target old l
    if lost then some r else do viable ← filter? (can_be old id) l.orders; keep_viable l id viable r

unfoldable pub is_revealed : Thoughts → List Identity → ℕ → Option Bool
unfolding is_identified has
is_revealed ts ids o = do
  c ← thought_at ts o
  some (is_identified c || some_of (λ id. not (has c.possible id)) ids)

unfoldable pub lacks : Thoughts → Identity → ℕ → Option Bool
unfolding has
lacks ts id o = do c ← thought_at ts o; some (not (has c.inferred id))

-- An identity of the link that a card has lost is looked for in the current thoughts.
unfoldable pub refresh_lost : Link → Refresh → Option Refresh
unfolding some? lacks
refresh_lost l r = do
  lost ← some? (λ id. some? (lacks r.thoughts id) l.orders) l.identities
  some (if lost then r else add_refreshed l r)

-- A link that is not promised and of which no card is revealed, by the cards that are focused.
unfoldable pub focus_found : (focused_orders : List ℕ) → Link → Refresh → Option Refresh
unfolding settle_focus refresh_lost
focus_found [] l r = refresh_lost l r
focus_found (focused ∷ []) l r =
    if length l.identities == 1
    then (do
      id ← get_elem? l.identities 0
      ts ← settle_focus focused id l.orders r.thoughts
      some (record r { thoughts = ts }))
    else refresh_lost l r
focus_found (f ∷ g ∷ fs) l r = refresh_lost l r

unfoldable pub refresh_found : Link → Refresh → Option Refresh
unfolding filter? is_revealed focus_found
refresh_found l r = do
  revealed ← filter? (is_revealed r.thoughts l.identities) l.orders
  if ltb 0 (length revealed) then some r else do
    focused_orders ← filter? (is_focused r.thoughts) l.orders
    focus_found focused_orders l r

unfoldable pub refresh_link : (old : Thoughts) → Link → Refresh → Option Refresh
unfolding refresh_promised refresh_found
refresh_link old l r = if l.promised then refresh_promised old l r else refresh_found l r

unfoldable pub refresh_each : (old : Thoughts) → List Link → Refresh → Option Refresh
unfolding refresh_link
refresh_each old [] r = some r
refresh_each old (l ∷ ls) r = do r' ← refresh_link old l r; refresh_each old ls r'

unfoldable pub refresh_links : State → Player → Option Player
unfolding refresh_each find_links
refresh_links st p = do
  r ← refresh_each p.thoughts p.links (record { thoughts = p.thoughts; links = [] })
  find_links st (record p { thoughts = r.thoughts; links = r.links })

-- `restore_elim` gives an identity back to the cards that it was removed from. The filter of the source
-- gives a function for each order, which counts as true, so every order is kept.
unfoldable pub elims_of : List (Identity × List ℕ) → Identity → List ℕ
unfolding same_identity
elims_of [] id = []
elims_of ((key, os) ∷ rest) id =
    let later = elims_of rest id in if same_identity key id then os else later

unfoldable pub without_elims : List (Identity × List ℕ) → Identity → List (Identity × List ℕ)
unfolding same_identity
without_elims [] id = []
without_elims ((key, os) ∷ rest) id =
    let later = without_elims rest id in if same_identity key id then later else (key, os) ∷ later

unfoldable pub restore_each : Identity → List ℕ → Thoughts → Option Thoughts
unfolding union
restore_each id [] ts = some ts
restore_each id (o ∷ os) ts = do
  c ← thought_at ts o
  restore_each id os (
      if c.focused then ts else set ts o (some (record c { inferred = union c.inferred (one id) })))

unfoldable pub restore_elim : Player → Identity → Option Player
unfolding elims_of without_elims restore_each union
restore_elim p id = do
  ts ← restore_each id (elims_of p.elims id) p.thoughts
  some (record p {
    thoughts = ts;
    all_inferred = union p.all_inferred (one id);
    elims = without_elims p.elims id;
  })
