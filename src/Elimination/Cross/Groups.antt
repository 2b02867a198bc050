-- ===== src/Elimination/Cross/Groups.antt =====
-- The groups of `perform_elim` of `cross_elim` have cards of one identity.
use hanabi_bot.Base.{
  ℕ, ◌≡◌, refl, sym, ap, ◌∙◌, inl, inr, true, List, [], ◌∷◌, ◌++◌, ◌∈◌, Option, none, some, All,
  arith, Bool-cases, append-mem,
}
use mathlib.Core.Option.{some-injective}
use hanabi_bot.Identity.{Identity, IsIdentity, is_unknown, matches_iff}
use hanabi_bot.State.{State}
use hanabi_bot.Card.{identity}
use hanabi_bot.Player.Bind.{>>=_known}
use hanabi_bot.Elimination.{Entry, Knowledge, no_options}
use hanabi_bot.Elimination.Counting.{AllDiffer}
use hanabi_bot.Elimination.Certains.{all_orders}
use hanabi_bot.Elimination.Truth.{IsRight}
use hanabi_bot.Elimination.Endgame.Cards.{
  IsDeckRight, identified, basic_identity-shown, basic_identity-hidden,
}
use hanabi_bot.Elimination.Cross.{Group, seen_identity, same_key, insert_group, group_by}
use hanabi_bot.Elimination.Cross.Orders.{
  orders_of, AllDiffer-append, orders_of-mem, orders_of-append,
}

module _ (n : ℕ) (deal : ℕ → Identity) (es : List Entry) where
  -- Cards of `es`, each once, that are the identity of the key.
  pub record IsGroup (g : Group) : Type 0 where
    pub of : (e : Entry) → e ∈ g.members → e ∈ es
    pub differ : AllDiffer (orders_of g.members)
    pub key :
        (i : Identity)
        → g.key ≡ some i
        → IsIdentity n i × ((e : Entry) → e ∈ g.members → deal e.order ≡ i)

  -- A group without the cards of `todo`.
  abbrev pub IsPart : List Entry → Group → Type 0
  IsPart todo g = IsGroup g × ((m : Entry) → m ∈ g.members → ¬ (m.order ∈ orders_of todo))

  weaken :
      (e : Entry) (todo : List Entry) (gs : List Group)
      → All (IsPart (e ∷ todo)) gs
      → All (IsPart todo) gs
  weaken e todo [] h = tt
  weaken e todo (g ∷ gs) ((h, apart), hs) =
      ((h, λ m mem later. apart m mem (inr later)), weaken e todo gs hs)

  module _ (ids : (o : ℕ) → IsIdentity n (deal o)) (key : Option Identity) (e : Entry)
      (todo : List Entry) (within : e ∈ es) (fresh : ¬ (e.order ∈ orders_of todo))
      (right : (i : Identity) → key ≡ some i → i ≡ deal e.order) where
    same_key_lem :
        (k : Option Identity) (i : Identity) → same_key k key ≡ true → k ≡ some i → key ≡ some i
    same_key_lem none i h q = absurd (ground arith)
    same_key_lem (some j) i h q = pick key h
      where
        pick : (k : Option Identity) → same_key (some j) k ≡ true → k ≡ some i
        pick none h = absurd (ground arith)
        pick (some l) h = ap some (sym ((matches_iff j l).0 h)) ∙ q

    insert_group-IsPart :
        (gs : List Group) → All (IsPart (e ∷ todo)) gs → All (IsPart todo) (insert_group key e gs)
    unfolding insert_group
    insert_group-IsPart [] h = (
      (
        record {
          of = λ d m. elim m [ inl q ↦ rw q within | inr k ↦ absurd k ];
          differ = ((λ m. m), tt);
          key = λ i q. (
            rw (right i q) (ids e.order),
            λ d m. elim m [ inl same ↦ rw same (sym (right i q)) | inr k ↦ absurd k ],
          );
        },
        λ d m. elim m [ inl q ↦ rw q fresh | inr k ↦ absurd k ],
      ),
      tt,
    )
    insert_group-IsPart (g ∷ gs) ((h, apart), hs) = elim (Bool-cases (same_key g.key key)) [
      | inl t ↦ rw t ((extended t, apart'), weaken e todo gs hs)
      | inr f ↦ rw f ((h, λ m mem later. apart m mem (inr later)), insert_group-IsPart gs hs)
    ]
      where
        last : (d : Entry) → d ∈ e ∷ [] → d ≡ e
        last d (inl q) = q
        last d (inr k) = absurd k

        apart' : (m : Entry) → m ∈ g.members ++ e ∷ [] → ¬ (m.order ∈ orders_of todo)
        apart' m mem later = elim (append-mem m g.members (e ∷ []) mem) [
          | inl old ↦ apart m old (inr later)
          | inr new ↦ fresh (rw (last m new) at (later))
        ]

        new_order : (x : ℕ) → x ∈ e.order ∷ [] → ¬ (x ∈ orders_of g.members)
        new_order x (inl q) m =
            let (d, mem, same) = orders_of-mem x g.members m in apart d mem (inl (same ∙ q))
        new_order x (inr k) m = absurd k

        extended : same_key g.key key ≡ true → IsGroup (record g { members = g.members ++ e ∷ [] })
        extended t = record {
          of = λ d m. elim (append-mem d g.members (e ∷ []) m) [
            | inl old ↦ h.of d old
            | inr new ↦ rw (last d new) within
          ];
          differ = rw (orders_of-append g.members (e ∷ [])) (
              AllDiffer-append (orders_of g.members) (e.order ∷ []) h.differ ((λ m. m), tt)
                new_order);
          key = λ i q. (
            (h.key i q).0,
            λ d m. elim (append-mem d g.members (e ∷ []) m) [
              | inl old ↦ (h.key i q).1 d old
              | inr new ↦ rw (last d new) (sym (right i (same_key_lem g.key i t q)))
            ],
          );
        }

module _ (n : ℕ) (deal : ℕ → Identity) (st : State) (ids : (o : ℕ) → IsIdentity n (deal o))
    (deck : IsDeckRight deal st) (k : Knowledge) (g : IsRight n deal (all_orders st.hands) k) where
  -- The key of a card is its identity, if it has one.
  seen_identity_lem :
      (o : ℕ)
      → o ∈ all_orders st.hands
      → (key : Option Identity) × (seen_identity st k.thoughts o ≡ some key)
        × ((i : Identity) → key ≡ some i → i ≡ deal o)
  unfolding seen_identity
  seen_identity_lem o m =
      let (a, ea, seen) = deck o m in
      let (c, ec) = g.is_true.drawn o m in
      elim (Bool-cases (is_unknown a.id)) [
        | inl hidden ↦ (
          identity c no_options,
          >>=_known _ _ a ea (rw (basic_identity-hidden a.id hidden) (>>=_known _ _ c ec refl)),
          identified n deal st ids deck k a.id g.is_true g.seen o c ec,
        )
        | inr shown ↦ (
          some a.id,
          >>=_known _ _ a ea (rw (basic_identity-shown a.id shown) refl),
          λ i q.
              sym (some-injective a.id i q)
              ∙ elim seen [ inl hidden ↦ absurd (ground arith) | inr e ↦ e ],
        )
      ]

  pub group_by-lem :
      (es todo : List Entry) (gs : List Group)
      → ((e : Entry) → e ∈ es → e.order ∈ all_orders st.hands)
      → ((e : Entry) → e ∈ todo → e ∈ es)
      → AllDiffer (orders_of todo)
      → All (IsPart n deal es todo) gs
      → (gs' : List Group) × (group_by st k.thoughts todo gs ≡ some gs')
        × All (IsPart n deal es []) gs'
  unfolding group_by
  group_by-lem es [] gs held sub differ h = (gs, refl, h)
  group_by-lem es (e ∷ todo) gs held sub (fresh, differ) h =
      let within = sub e (inl refl) in
      let (key, q, right) = seen_identity_lem e.order (held e within) in
      let (gs', q', h') =
        group_by-lem es todo (insert_group key e gs) held (λ d m. sub d (inr m)) differ
          (insert_group-IsPart n deal es ids key e todo within fresh right gs h) in
      rw q (gs', q', h')
