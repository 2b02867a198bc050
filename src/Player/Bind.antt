-- ===== src/Player/Bind.antt =====
-- Chains of results that may be missing.
use hanabi_bot.Base.{◌≡◌, refl, Option, none, some, arith, Bool, true, if◌then◌else◌, false}
use hanabi_bot.Base.Fallible.{Returns}
use hanabi_bot.Basics.{◌>>=◌}

module _ {ℓ κ} {A : Type ℓ} {B : Type κ} where
  pub >>=_some :
      (o : Option A) (f : A → Option B) (b : B)
      → (o >>= f) ≡ some b
      → (a : A) × (o ≡ some a) × (f a ≡ some b)
  >>=_some none f b e = absurd (ground arith)
  >>=_some (some a) f b e = (a, refl, e)

  pub >>=_known :
      (o : Option A) (f : A → Option B) (a : A) {r : Option B}
      → o ≡ some a
      → f a ≡ r
      → (o >>= f) ≡ r
  >>=_known o f a e h = rw e h

  pub >>=-Returns :
      (o : Option A) (f : A → Option B)
      → Returns o
      → ((a : A) → o ≡ some a → Returns (f a))
      → Returns (o >>= f)
  >>=-Returns none f r h = absurd (ground arith)
  >>=-Returns (some a) f r h = h a refl

pub if-Returns {ℓ} :
    {A : Type ℓ} (b : Bool) (x y : Option A) → Returns x → Returns y → Returns (if b then x else y)
if-Returns true x y r s = r
if-Returns false x y r s = s
