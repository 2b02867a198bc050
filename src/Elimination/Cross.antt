-- ===== src/Elimination/Cross.antt =====
-- basics/player-elim.js, `cross_elim` of `card_elim`: as many cards as there are copies of the
-- identities that they may have rule these identities out elsewhere. A set of orders is a list
-- without repetition. `basic_elim` is given fuel above the sum of the cards' masks, and `gen_subset`
-- a level for each candidate and one more.
pub mod Room
pub mod Orders
pub mod Groups
pub mod Perform
pub mod Fits
pub mod Search
use hanabi_bot.Base.{
  ℕ, zero, suc, ◌+◌, Bool, true, false, not, ◌&&◌, ◌||◌, List, [], ◌∷◌, ◌++◌, Option, none, some,
  ◌==◌, leb, if◌then◌else◌, get_elem?, some_of, filter, map, length,
}
use hanabi_bot.Base.Int.{ℤ, pos, ◌+ℤ◌, ◌-ℤ◌, eq_ℤ, ltb_ℤ}
use hanabi_bot.Identity.{Identity, identity as basic_identity, matches}
use hanabi_bot.IdentitySet.{IdentitySet, union, subtract, one, set, array}
use hanabi_bot.State.{State, base_count, card_count, card_at}
use hanabi_bot.Basics.{◌>>=◌}
use hanabi_bot.Card.{Card, identity}
use hanabi_bot.Thoughts.{Thoughts, thought_at, includes_order}
use hanabi_bot.Elimination.{
  Entry, Certain, Knowledge, Outcome, done, threw, out_of_fuel, known_orders, update_map,
  basic_elim, no_options,
}
use hanabi_bot.Elimination.Truth.{weight}

unfoldable pub multiplicity_of : State → List Identity → ℤ
unfolding base_count card_count ◌+ℤ◌ ◌-ℤ◌
multiplicity_of st [] = pos 0
multiplicity_of st (id ∷ ids) =
    (pos (card_count st id) -ℤ pos (base_count st id)) +ℤ multiplicity_of st ids

unfoldable pub total_multiplicity : State → IdentitySet → ℤ
unfolding multiplicity_of array
total_multiplicity st ids = multiplicity_of st (array ids)

-- `state.deck[order].identity() ?? getThoughts(order).identity()`.
unfoldable pub seen_identity : State → Thoughts → ℕ → Option (Option Identity)
unfolding basic_identity identity
seen_identity st thoughts o = do
  actual ← card_at st o
  elim (basic_identity actual.id) [
    | some i ↦ some (some i)
    | none ↦ do c ← thought_at thoughts o; some (identity c no_options)
  ]

-- A group of `groupBy`; the key is the identity itself.
pub record Group : Type 0 where
  pub key : Option Identity
  pub members : List Entry

abbrev pub same_key : Option Identity → Option Identity → Bool
same_key none none = true
same_key none (some j) = false
same_key (some i) none = false
same_key (some i) (some j) = matches i j

unfoldable pub insert_group : Option Identity → Entry → List Group → List Group
unfolding matches
insert_group key e [] = record { key = key; members = e ∷ [] } ∷ []
insert_group key e (g ∷ gs) =
    let rest = insert_group key e gs in
    if same_key g.key key then record g { members = g.members ++ e ∷ [] } ∷ gs else g ∷ rest

unfoldable pub group_by : State → Thoughts → List Entry → List Group → Option (List Group)
unfolding seen_identity insert_group
group_by st thoughts [] gs = some gs
group_by st thoughts (e ∷ es) gs = do
  key ← seen_identity st thoughts e.order
  group_by st thoughts es (insert_group key e gs)

-- `!group.some(g => g.order === order)`.
abbrev pub is_outside : List Entry → ℕ → Bool
is_outside members o = not (some_of (λ (e : Entry). e.order == o) members)

abbrev pub players_of : List Entry → List ℕ
players_of es = map (λ (e : Entry). e.player_index) es

-- The variables of `perform_elim`.
pub record Crossing : Type 0 where
  pub knowledge : Knowledge
  pub changed : Bool

-- The assignment `({ changed } = update_map(id, exclude))`.
unfoldable pub cross_update : State → Identity → List ℕ → Crossing → Option Crossing
unfolding update_map
cross_update st id exclude x = do
  r ← update_map st id exclude x.knowledge
  some (record { knowledge = r.knowledge; changed = r.changed })

abbrev pub is_too_small : State → Identity → List Entry → Knowledge → Bool
is_too_small st id members k =
    let certains = length (filter (is_outside members) (known_orders id k.certain)) in
    ltb_ℤ (pos (length members))
      (total_multiplicity st (union st.base_ids (one id)) -ℤ pos certains)

unfoldable pub elim_groups : State → List Group → Crossing → Option Crossing
unfolding cross_update total_multiplicity known_orders
elim_groups st [] x = some x
elim_groups st (g ∷ gs) x = elim g.key [
  | none ↦ elim_groups st gs x
  | some id ↦ elim (is_too_small st id g.members x.knowledge) [
    | true ↦ elim_groups st gs x
    | false ↦ do x' ← cross_update st id (players_of g.members) x; elim_groups st gs x'
  ]
]

unfoldable pub elim_ids : State → List Identity → List ℕ → Crossing → Option Crossing
unfolding cross_update
elim_ids st [] exclude x = some x
elim_ids st (id ∷ ids) exclude x = do x' ← cross_update st id exclude x; elim_ids st ids exclude x'

unfoldable pub eliminate : State → List Entry → IdentitySet → Knowledge → Option Crossing
unfolding group_by elim_groups elim_ids array
eliminate st entries ids k = do
  gs ← group_by st k.thoughts entries []
  x ← elim_groups st gs (record { knowledge = k; changed = false })
  elim_ids st (array ids) (players_of entries) x

-- `basic_elim(identities.array) || changed`.
abbrev pub or_changed : Bool → Outcome → Outcome
or_changed changed (done k other) = done k (other || changed)
or_changed changed threw = threw
or_changed changed out_of_fuel = out_of_fuel

-- `perform_elim`.
unfoldable pub cross_perform : State → List Entry → IdentitySet → Knowledge → Outcome
unfolding eliminate basic_elim array weight
cross_perform st entries ids k = elim (eliminate st entries ids k) [
  | none ↦ threw
  | some x ↦
      or_changed x.changed
        (basic_elim (suc (weight x.knowledge.thoughts)) st (array ids) x.knowledge)
]

-- The union of sets of orders.
unfoldable pub union_orders : List ℕ → List ℕ → List ℕ
union_orders os [] = os
union_orders os (n ∷ ns) = union_orders (if includes_order os n then os else os ++ n ∷ []) ns

unfoldable pub known_of : List Identity → List Certain → List ℕ
unfolding known_orders
known_of [] cs = []
known_of (id ∷ ids) cs = known_orders id cs ++ known_of ids cs

-- The arguments of `gen_subset`.
pub record Subset : Type 0 where
  pub contained : List Entry
  pub acc_ids : IdentitySet
  pub certains : List ℕ

-- The subset with the next item.
unfoldable pub with_item : Subset → Entry → Card → Knowledge → Subset
unfolding union_orders known_of union subtract array
with_item s item c k =
    let next_contained = s.contained ++ item ∷ [] in
    let new_certains = known_of (array (subtract c.possible (set s.acc_ids))) k.certain in
    record {
      contained = next_contained;
      acc_ids = union s.acc_ids (set c.possible);
      certains = filter (is_outside next_contained) (union_orders s.certains new_certains);
    }

-- `multiplicity - certains.size`.
abbrev pub missing : State → Subset → ℤ
missing st s = total_multiplicity st s.acc_ids -ℤ pos (length s.certains)

abbrev pub is_out_of_reach : State → Subset → (next : ℕ) → Knowledge → Bool
is_out_of_reach st s next k =
    ltb_ℤ (pos (length s.contained) +ℤ (pos (length k.candidates) -ℤ pos next)) (missing st s)

abbrev pub is_complete : State → Subset → Bool
is_complete st s = leb 2 (length s.contained) && eq_ℤ (missing st s) (pos (length s.contained))

-- What follows if nothing was changed; the results `true` and errors end the search.
abbrev pub unless_changed : Outcome → (Knowledge → Outcome) → Outcome
unless_changed (done k true) f = done k true
unless_changed (done k false) f = f k
unless_changed threw f = threw
unless_changed out_of_fuel f = out_of_fuel

-- The elimination for the subset itself.
unfoldable pub try_subset : State → Subset → Knowledge → Outcome
unfolding cross_perform total_multiplicity
try_subset st s k = elim (is_complete st s) [
  | true ↦ cross_perform st s.contained s.acc_ids k
  | false ↦ done k false
]

unfoldable pub gen_subset : (fuel : ℕ) → State → Subset → (next : ℕ) → Knowledge → Outcome
unfolding try_subset with_item total_multiplicity
gen_subset zero st s next k = out_of_fuel
gen_subset (suc fuel) st s next k = elim (is_out_of_reach st s next k) [
  | true ↦ done k false
  | false ↦ unless_changed (try_subset st s k) (λ k'. elim (get_elem? k'.candidates next) [
    | none ↦ done k' false
    | some item ↦ elim (thought_at k'.thoughts item.order) [
      | none ↦ threw
      | some c ↦
          unless_changed (gen_subset fuel st (with_item s item c k') (suc next) k')
            (gen_subset fuel st s (suc next))
    ]
  ])
]

-- The first call; a result `undefined` counts as `false`.
unfoldable pub cross_elim : State → Knowledge → Outcome
unfolding gen_subset
cross_elim st k = elim (leb (length k.candidates) 1) [
  | true ↦ done k false
  | false ↦
      gen_subset (suc (length k.candidates)) st
        (record { contained = []; acc_ids = st.base_ids; certains = [] }) 0 k
]
