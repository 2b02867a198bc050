-- ===== src/Elimination/Backed.antt =====
-- An identity that `card_elim` rules out for the deck has all its copies on the stacks or among the
-- cards that are known.
pub mod Basic
pub mod Endgame
pub mod Cross
pub mod Rounds
pub mod Whole
use hanabi_bot.Base.{
  ℕ, zero, suc, ◌+◌, ◌≤◌, ◌≡◌, refl, sym, ap, ◌∙◌, inl, inr, Bool, true, false, not, ◌&&◌, ◌||◌,
  ◌==◌, List, [], ◌∷◌, ◌++◌, ◌∈◌, Option, none, some, if◌then◌else◌, set, get_elem?, length, arith,
  Bool-cases, append-mem,
}
use hanabi_bot.Identity.{Identity, IsIdentity, matches, matches_iff}
use hanabi_bot.IdentitySet.{
  IdentitySet, IsValid, Argument, has, subtract, union, one, make, parse, array,
  length as set_length,
}
use hanabi_bot.IdentitySet.Members.{has-operations, operations-IsValid}
use hanabi_bot.IdentitySet.Elements.{array_mem_iff}
use hanabi_bot.Bits.{bit_not}
use hanabi_bot.Bits.Laws.{bit_and-lt}
use hanabi_bot.State.{State, base_count, card_count}
use hanabi_bot.Basics.{◌>>=◌}
use hanabi_bot.Card.{Card, identity, reset_inferences}
use hanabi_bot.Thoughts.{thought_at}
use hanabi_bot.Thoughts.Sound.{thought_at-set}
use hanabi_bot.Elimination.{
  Certain, Entry, Knowledge, Round, Pass, Outcome, done, threw, out_of_fuel, insert_certain,
  known_orders, no_options, remove_id, put, no_elim, settle, update_card_elim, update_cards,
  entries_from, update_map, all_known, basic_loop, basic_elim, with_changed,
}
use hanabi_bot.Elimination.Truth.{reset_inferences-possible}

-- What holds of a result, if there is one.
abbrev pub Holds {ℓ} : {A : Type ℓ} → (A → Type 0) → Option A → Type 0
Holds P none = Unit
Holds P (some a) = P a

pub >>=-Holds {ℓ κ} :
    {A : Type ℓ} {B : Type κ} (P : A → Type 0) (Q : B → Type 0) (o : Option A) (f : A → Option B)
    → Holds P o
    → ((a : A) → o ≡ some a → P a → Holds Q (f a))
    → Holds Q (o >>= f)
>>=-Holds P Q none f p h = tt
>>=-Holds P Q (some a) f p h = h a refl p

pub read-Holds {ℓ κ} :
    {A : Type ℓ} {B : Type κ} (Q : B → Type 0) (o : Option A) (f : A → Option B)
    → ((a : A) → o ≡ some a → Holds Q (f a))
    → Holds Q (o >>= f)
read-Holds Q none f h = tt
read-Holds Q (some a) f h = h a refl

pub if-Holds {ℓ} :
    {A : Type ℓ} (Q : A → Type 0) (b : Bool) (x y : Option A)
    → (b ≡ true → Holds Q x)
    → (b ≡ false → Holds Q y)
    → Holds Q (if b then x else y)
if-Holds Q true x y p q = p refl
if-Holds Q false x y p q = q refl

-- What holds of the knowledge at the end of a search, if it comes to an end.
abbrev pub Leaves : (Knowledge → Type 0) → Outcome → Type 0
Leaves P (done k changed) = P k
Leaves P threw = Unit
Leaves P out_of_fuel = Unit

-- A valid set over `n` suits.
abbrev pub IsOver : ℕ → IdentitySet → Type 0
IsOver n p = (p.num_suits ≡ n) × IsValid p

pub subtract-IsOver :
    (n : ℕ) (p : IdentitySet) (a : Argument) → IsOver n p → IsOver n (subtract p a)
unfolding subtract make
subtract-IsOver n p a (e, v) =
    (e, record { suits = v.suits; bits = bit_and-lt _ p.value (bit_not (parse a)) v.bits })

-- A card's only possibility is an identity of the deck.
pub identity-IsIdentity :
    (n : ℕ) (c : Card) (i : Identity)
    → IsOver n c.possible
    → (set_length c.possible == 1) ≡ true
    → identity c no_options ≡ some i
    → IsIdentity n i
unfolding identity
identity-IsIdentity n c i (e, v) one_left h =
    rw (← e) ((array_mem_iff c.possible i v).0 (first (array c.possible) (rw one_left at h))).0
  where
    first : (xs : List Identity) → get_elem? xs 0 ≡ some i → i ∈ xs
    first [] h = absurd (ground arith)
    first (x ∷ xs) h = inl (ground arith)

pub length-insert_certain :
    (id : Identity) (e : Certain) (cs : List Certain)
    → length (known_orders id cs) ≤ length (known_orders id (insert_certain e cs))
unfolding known_orders insert_certain
length-insert_certain id e [] = omega arith
length-insert_certain id e (c ∷ cs) = elim (Bool-cases (matches c.id e.id && c.order == e.order)) [
  | inl t ↦
      let same : c.id ≡ e.id = (matches_iff c.id e.id).0 (ground arith) in
      rw (t, same) (longer (matches e.id id))
  | inr f ↦ rw f (both (matches c.id id) (length-insert_certain id e cs))
]
  where
    longer :
        (b : Bool)
        → length (if b then c.order ∷ known_orders id cs else known_orders id cs)
          ≤ length (if b then e.order ∷ known_orders id cs else known_orders id cs)
    longer true = omega arith
    longer false = omega arith

    both :
        (b : Bool)
        → length (known_orders id cs) ≤ length (known_orders id (insert_certain e cs))
        → length (if b then c.order ∷ known_orders id cs else known_orders id cs)
          ≤ length (
              if b
              then c.order ∷ known_orders id (insert_certain e cs)
              else known_orders id (insert_certain e cs))
    both true h = omega arith
    both false h = omega arith

-- All copies of `id` are on the stacks or known.
abbrev pub IsCounted : State → List Certain → Identity → Type 0
IsCounted st cs id = card_count st id ≤ base_count st id + length (known_orders id cs)

-- The cards' possibilities and `eliminated` are sets over the deck's suits, and all copies of what is
-- eliminated are counted.
pub record IsBacked (st : State) (k : Knowledge) : Type 0 where
  pub possible :
      (o : ℕ) (c : Card)
      → thought_at k.thoughts o ≡ some c
      → IsOver (length st.variant.suits) c.possible
  pub ruled : IsOver (length st.variant.suits) k.eliminated
  pub counted :
      (id : Identity)
      → IsIdentity (length st.variant.suits) id
      → has k.eliminated id ≡ true
      → IsCounted st k.certain id

module _ (st : State) where
  pub insert-IsBacked :
      (k : Knowledge) (e : Certain)
      → IsBacked st k
      → IsBacked st (record k { certain = insert_certain e k.certain })
  insert-IsBacked k e g = record {
    possible = g.possible;
    ruled = g.ruled;
    counted = λ id w at. omega (arith, g.counted id w at, length-insert_certain id e k.certain);
  }

  pub set-IsBacked :
      (k : Knowledge) (o : ℕ) (c : Card)
      → IsBacked st k
      → IsOver (length st.variant.suits) c.possible
      → IsBacked st (record k { thoughts = set k.thoughts o (some c) })
  set-IsBacked k o c g over = record {
    possible = λ i d at. elim (thought_at-set k.thoughts o i c d at) [
      | inl (same, own) ↦ rw own over
      | inr old ↦ g.possible i d old
    ];
    ruled = g.ruled;
    counted = g.counted;
  }

  pub thin-IsBacked :
      (k : Knowledge) (es : List Entry) → IsBacked st k → IsBacked st (record k { candidates = es })
  thin-IsBacked k es g = record { possible = g.possible; ruled = g.ruled; counted = g.counted }
