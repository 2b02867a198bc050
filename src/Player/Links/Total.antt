-- ===== src/Player/Links/Total.antt =====
-- The loop of `refresh_links` throws at a promised link with several identities, and only there.
use hanabi_bot.Base.{
  ℕ, ◌≤◌, ◌≡◌, refl, sym, ◌∙◌, ◌↔◌, ◌⊎◌, inl, inr, Bool, true, false, List, [], ◌∷◌, ◌++◌, ◌∈◌,
  Option, none, some, ◌==◌, arith, ltb→lt, if◌then◌else◌, length, get_elem?, ltb, Bool-cases,
  Option-cases, set,
}
use mathlib.Core.Path.{subst}
use hanabi_bot.Base.Fallible.{Returns, filter?-Returns, filter?-mem, some?-Returns}
use hanabi_bot.Identity.{Identity}
use hanabi_bot.Basics.{◌>>=◌}
use hanabi_bot.Card.{Card}
use hanabi_bot.Thoughts.{Thoughts, thought_at}
use hanabi_bot.Thoughts.Sound.{thought_at-set_exists}
use hanabi_bot.Player.{Link}
use hanabi_bot.Player.Bind.{>>=-Returns}
use hanabi_bot.IdentitySet.{intersect, subtract, one}
use hanabi_bot.Player.Links.{with_inferred, is_focused, settle_focus}
use hanabi_bot.Player.Links.Refresh.{
  Refresh, is_match, can_be, lost_target, keep_viable, refresh_promised, is_revealed, lacks,
  refresh_lost, focus_found, refresh_found, refresh_link, refresh_each,
}

-- The cards that have thoughts in `ts` have thoughts in `us`.
abbrev pub Keeps : Thoughts → Thoughts → Type 0
Keeps ts us = (o : ℕ) → Returns (thought_at ts o) → Returns (thought_at us o)

-- The cards of a link are drawn, and it has an identity.
pub record LinkDrawn (ts : Thoughts) (l : Link) : Type 0 where
  pub orders : (o : ℕ) → o ∈ l.orders → Returns (thought_at ts o)
  pub target : (t : ℕ) → l.target ≡ some t → Returns (thought_at ts t)
  pub identity : Returns (get_elem? l.identities 0)

set-Keeps : (ts : Thoughts) (o : ℕ) (c : Card) → Keeps ts (set ts o (some c))
set-Keeps ts o c o' (d, e) = thought_at-set_exists ts o o' c d e

settle_focus-Keeps :
    (focused : ℕ) (id : Identity) (os : List ℕ) (ts : Thoughts)
    → ((o : ℕ) → o ∈ os → Returns (thought_at ts o))
    → (us : Thoughts) × (settle_focus focused id os ts ≡ some us) × Keeps ts us
unfolding settle_focus
settle_focus-Keeps focused id [] ts drawn = (ts, refl, λ o r. r)
settle_focus-Keeps focused id (o ∷ os) ts drawn =
    let (c, e) = drawn o (inl refl) in
    let settled : Card =
      with_inferred c
        (if o == focused then intersect c.inferred (one id) else subtract c.inferred (one id)) in
    let (us, f, keeps) =
      settle_focus-Keeps focused id os (set ts o (some settled))
        (λ x m. set-Keeps ts o settled x (drawn x (inr m))) in
    (us, rw e f, λ x r. keeps x (set-Keeps ts o settled x r))

-- A step that does not throw and loses no thoughts.
abbrev Goes : Refresh → Option Refresh → Type 0
Goes r result = (r' : Refresh) × (result ≡ some r') × Keeps r.thoughts r'.thoughts

stays : (r : Refresh) → Goes r (some r)
stays r = (r, refl, λ o k. k)

if-Goes :
    (r : Refresh) (b : Bool) (x y : Option Refresh)
    → Goes r x
    → Goes r y
    → Goes r (if b then x else y)
if-Goes r true x y g h = g
if-Goes r false x y g h = h

>>=-Goes {ℓ} :
    {A : Type ℓ}
    → (r : Refresh) (o : Option A) (f : A → Option Refresh) → Returns o
    → ((a : A) → o ≡ some a → Goes r (f a))
    → Goes r (o >>= f)
>>=-Goes r none f q h = absurd (ground arith)
>>=-Goes r (some a) f q h = h a refl

keep_viable-Goes :
    (l : Link) (id : Identity) (viable : List ℕ) (r : Refresh)
    → ((o : ℕ) → o ∈ viable → Returns (thought_at r.thoughts o))
    → Goes r (keep_viable l id viable r)
unfolding keep_viable
keep_viable-Goes l id [] r drawn = stays r
keep_viable-Goes l id (o ∷ []) r drawn =
    >>=-Goes r _ _ (drawn o (inl refl)) (λ c e. (_, refl, set-Keeps r.thoughts o _))
keep_viable-Goes l id (o ∷ o2 ∷ os) r drawn = (_, refl, λ x k. k)

lost_target-Returns : (ts : Thoughts) (l : Link) → LinkDrawn ts l → Returns (lost_target ts l)
unfolding lost_target
lost_target-Returns ts l drawn = elim (Option-cases l.target) [
  | inl e ↦ rw e (false, refl)
  | inr (t, e) ↦ rw e (>>=-Returns _ _ (drawn.target t e) (λ c f. (_, refl)))
]

refresh_promised-Goes :
    (old : Thoughts) (l : Link) (r : Refresh)
    → LinkDrawn old l
    → Keeps old r.thoughts
    → ltb 1 (length l.identities) ≡ false
    → Goes r (refresh_promised old l r)
unfolding refresh_promised is_match can_be
refresh_promised-Goes old l r drawn keeps few = rw few (
    >>=-Goes r _ _ drawn.identity (λ id e.
      >>=-Goes r _ _
        (some?-Returns (is_match old id) l.orders
          (λ o m. >>=-Returns _ _ (drawn.orders o m) (λ c t. (_, refl))))
        (λ resolved f. if-Goes r resolved _ _ (stays r) (
          >>=-Goes r _ _ (lost_target-Returns old l drawn) (λ lost g. if-Goes r lost _ _ (stays r) (
            >>=-Goes r _ _
              (filter?-Returns (can_be old id) l.orders
                (λ o m. >>=-Returns _ _ (drawn.orders o m) (λ c t. (_, refl))))
              (λ viable h. keep_viable-Goes l id viable r (λ o m.
                keeps o
                  (drawn.orders o (filter?-mem (can_be old id) l.orders viable o h m).0)))))))))

refresh_lost-Goes :
    (l : Link) (r : Refresh)
    → ((o : ℕ) → o ∈ l.orders → Returns (thought_at r.thoughts o))
    → Goes r (refresh_lost l r)
unfolding refresh_lost lacks
refresh_lost-Goes l r drawn =
    >>=-Goes r _ _
      (some?-Returns _ l.identities (λ id n.
        some?-Returns (lacks r.thoughts id) l.orders
          (λ o m. >>=-Returns _ _ (drawn o m) (λ c t. (_, refl)))))
      (λ lost e. if-same lost)
  where
    if-same :
        (lost : Bool) → Goes r (some (if lost then r else record r { links = r.links ++ l ∷ [] }))
    if-same true = stays r
    if-same false = (_, refl, λ x k. k)

focus_found-Goes :
    (fs : List ℕ) (l : Link) (r : Refresh)
    → ((o : ℕ) → o ∈ l.orders → Returns (thought_at r.thoughts o))
    → Returns (get_elem? l.identities 0)
    → Goes r (focus_found fs l r)
unfolding focus_found
focus_found-Goes [] l r drawn first = refresh_lost-Goes l r drawn
focus_found-Goes (f ∷ []) l r drawn first =
    if-Goes r _ _ _
      (>>=-Goes r _ _ first (λ id e.
        let (us, g, keeps) = settle_focus-Keeps f id l.orders r.thoughts drawn in
        (record r { thoughts = us }, rw g refl, keeps)))
      (refresh_lost-Goes l r drawn)
focus_found-Goes (f ∷ g ∷ fs) l r drawn first = refresh_lost-Goes l r drawn

refresh_found-Goes :
    (l : Link) (r : Refresh)
    → ((o : ℕ) → o ∈ l.orders → Returns (thought_at r.thoughts o))
    → Returns (get_elem? l.identities 0)
    → Goes r (refresh_found l r)
unfolding refresh_found is_revealed
refresh_found-Goes l r drawn first =
    >>=-Goes r _ _
      (filter?-Returns (is_revealed r.thoughts l.identities) l.orders
        (λ o m. >>=-Returns _ _ (drawn o m) (λ c t. (_, refl))))
      (λ revealed e. if-Goes r _ _ _ (stays r) (
        >>=-Goes r _ _
          (filter?-Returns (is_focused r.thoughts) l.orders
            (λ o m. >>=-Returns _ _ (drawn o m) (λ c t. (_, refl))))
          (λ fs g. focus_found-Goes fs l r drawn first)))

-- Some promised link has more than one identity.
abbrev pub Overpromised : List Link → Type 0
Overpromised ls = (l : Link) × (l ∈ ls) × (l.promised ≡ true) × (2 ≤ length l.identities)

refresh_link-cases :
    (old : Thoughts) (l : Link) (r : Refresh)
    → LinkDrawn old l
    → Keeps old r.thoughts
    → ((refresh_link old l r ≡ none) × (l.promised ≡ true) × (2 ≤ length l.identities))
      ⊎ (Goes r (refresh_link old l r) × (l.promised ≡ true → 2 ≤ length l.identities → ⊥))
unfolding refresh_link refresh_promised
refresh_link-cases old l r own keeps = elim (Bool-cases l.promised) [
  | inr found ↦ inr (
    chosen false found (refresh_found-Goes l r (λ o m. keeps o (own.orders o m)) own.identity),
    λ p q. ground arith,
  )
  | inl promise ↦ elim (Bool-cases (ltb 1 (length l.identities))) [
    | inl many ↦ inl (rw promise (rw many refl), promise, ltb→lt 1 (length l.identities) many)
    | inr few ↦ inr (
      chosen true promise (refresh_promised-Goes old l r own keeps few),
      λ p q. not_many (length l.identities) few q,
    )
  ]
]
  where
    not_many : (n : ℕ) → ltb 1 n ≡ false → 2 ≤ n → ⊥
    not_many n f le = ground arith

    chosen :
        (b : Bool)
        → l.promised ≡ b
        → Goes r (if b then refresh_promised old l r else refresh_found l r)
        → Goes r (if l.promised then refresh_promised old l r else refresh_found l r)
    chosen b e g =
        subst (λ (t : Bool). Goes r (if t then refresh_promised old l r else refresh_found l r))
          (sym e) g

-- A loop that has met no such link yet either throws at a later one or ends.
refresh_each-cases :
    (old : Thoughts) (ls : List Link) (r : Refresh)
    → ((l : Link) → l ∈ ls → LinkDrawn old l)
    → Keeps old r.thoughts
    → ((refresh_each old ls r ≡ none) × Overpromised ls)
      ⊎ (Returns (refresh_each old ls r) × ¬ (Overpromised ls))
unfolding refresh_each
refresh_each-cases old [] r drawn keeps = inr ((r, refl), λ (l, m, p, q). m)
refresh_each-cases old (l ∷ ls) r drawn keeps =
    let later = λ (r' : Refresh) (k : Keeps r.thoughts r'.thoughts).
      refresh_each-cases old ls r' (λ k' m. drawn k' (inr m)) (λ o d. k o (keeps o d)) in
    elim (refresh_link-cases old l r (drawn l (inl refl)) keeps) [
      | inl (throws, promise, many) ↦ inl (rw throws refl, (l, inl refl, promise, many))
      | inr (goes, fine) ↦ after (refresh_link old l r) goes fine later
    ]
  where
    after :
        (step : Option Refresh)
        → Goes r step
        → (l.promised ≡ true → 2 ≤ length l.identities → ⊥)
        → ((r' : Refresh)
            → Keeps r.thoughts r'.thoughts
            → ((refresh_each old ls r' ≡ none) × Overpromised ls)
              ⊎ (Returns (refresh_each old ls r') × ¬ (Overpromised ls)))
        → (((step >>= refresh_each old ls) ≡ none) × Overpromised (l ∷ ls))
          ⊎ (Returns (step >>= refresh_each old ls) × ¬ (Overpromised (l ∷ ls)))
    after step (r', e, k) fine later = elim (later r' k) [
      | inl (throws, broken) ↦ inl (rw e throws, (broken.0, inr broken.1, broken.2, broken.3))
      | inr (ends, none_broken) ↦ inr (rw e ends, here none_broken)
    ]
      where
        here : ¬ (Overpromised ls) → ¬ (Overpromised (l ∷ ls))
        here none_broken (k, inl same, p, q) = fine (rw same at (p)) (rw same at (q))
        here none_broken (k, inr m, p, q) = none_broken (k, m, p, q)

-- With the cards of the links drawn and an identity in every link, the loop of `refresh_links` throws
-- exactly if a promised link has more than one identity.
pub refresh_each-none_iff :
    (ts : Thoughts) (ls : List Link)
    → ((l : Link) → l ∈ ls → LinkDrawn ts l)
    → (refresh_each ts ls (record { thoughts = ts; links = [] }) ≡ none) ↔ Overpromised ls
refresh_each-none_iff ts ls drawn =
    elim (refresh_each-cases ts ls (record { thoughts = ts; links = [] }) drawn (λ o k. k)) [
      | inl (e, broken) ↦ (λ h. broken, λ h. e)
      | inr ((r, e), fine) ↦ (λ h. absurd (ground (arith, sym e ∙ h)), λ h. absurd (fine h))
    ]
