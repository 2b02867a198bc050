-- ===== src/Base/Mul.antt =====
-- Products and exact quotients of the integers.
use native.Mathlib.Nat.{mod-lt, mul-pos, div-mul_cancel, dvd_of_mod-eq-zero}
use Prim.Native.Nat.{◌∣◌}
use hanabi_bot.Base.{
  ℕ, zero, suc, ◌+◌, ◌*◌, ◌/◌, ◌%◌, ◌<◌, ◌≡◌, ◌≢◌, refl, ap, ◌∙◌, Bool, true, arith, ◌&&◌, not, ◌⊎◌,
  inl, inr,
}
use hanabi_bot.Base.Int.{
  ℤ, ◌+ℤ◌, ◌-ℤ◌, +ℤ_parts, -ℤ_parts, pos, negsuc, pos_part, neg_part, ◌*ℤ◌, eq_of_parts, eq_ℤ,
}

-- The absolute value, and a number with the sign of an integer.
abbrev pub abs : ℤ → ℕ
abs (pos n) = n
abs (negsuc n) = suc n

abbrev pub neg : ℕ → ℤ
neg zero = pos 0
neg (suc n) = negsuc n

abbrev pub neg_ℤ : ℤ → ℤ
neg_ℤ (pos n) = neg n
neg_ℤ (negsuc n) = pos (suc n)

pub abs_parts : (a : ℤ) → abs a ≡ pos_part a + neg_part a
abs_parts (pos n) = omega arith
abs_parts (negsuc n) = omega arith

pub pos_part-*ℤ : (x y : ℤ) → pos_part (x *ℤ y) ≡ neg_part x * neg_part y + pos_part x * pos_part y
unfolding ◌*ℤ◌
pos_part-*ℤ x y = ground arith

pub neg_part-*ℤ : (x y : ℤ) → neg_part (x *ℤ y) ≡ neg_part x * pos_part y + pos_part x * neg_part y
unfolding ◌*ℤ◌
neg_part-*ℤ x y = ground arith

pub ruleset products = (pos_part-*ℤ, neg_part-*ℤ)

pub *ℤ_assoc : (x y z : ℤ) → x *ℤ y *ℤ z ≡ x *ℤ (y *ℤ z)
*ℤ_assoc x y z = eq_of_parts _ _ (simp products (omega arith))

pub *ℤ_comm : (x y : ℤ) → x *ℤ y ≡ y *ℤ x
*ℤ_comm x y = eq_of_parts _ _ (simp products (omega arith))

pub *ℤ-one : (x : ℤ) → x *ℤ pos 1 ≡ x
*ℤ-one x = eq_of_parts _ _ (simp products (omega arith))

-- (x y) (z w) = (x z) (y w)
pub *ℤ_swap : (x y z w : ℤ) → x *ℤ y *ℤ (z *ℤ w) ≡ x *ℤ z *ℤ (y *ℤ w)
*ℤ_swap x y z w = eq_of_parts _ _ (simp products (omega arith))

pub abs-*ℤ : (x y : ℤ) → abs (x *ℤ y) ≡ abs x * abs y
abs-*ℤ x y = rw (abs_parts (x *ℤ y), abs_parts x, abs_parts y) (simp products (omega arith))

pos_part-neg : (n : ℕ) → pos_part (neg n) ≡ 0
pos_part-neg zero = refl
pos_part-neg (suc n) = refl

neg_part-neg : (n : ℕ) → neg_part (neg n) ≡ n
neg_part-neg zero = refl
neg_part-neg (suc n) = refl

ruleset signs = (products, pos_part-neg, neg_part-neg)

-- The sign of a product.
pub pos-*ℤ : (m n : ℕ) → pos m *ℤ pos n ≡ pos (m * n)
pos-*ℤ m n = eq_of_parts _ _ (simp products (omega arith))

pos-*ℤ-negsuc : (m n : ℕ) → pos m *ℤ negsuc n ≡ neg (m * suc n)
pos-*ℤ-negsuc m n = eq_of_parts _ _ (simp signs (omega arith))

neg-*ℤ-pos : (m n : ℕ) → neg m *ℤ pos n ≡ neg (m * n)
neg-*ℤ-pos m n = eq_of_parts _ _ (simp signs (omega arith))

neg-*ℤ-negsuc : (m n : ℕ) → neg m *ℤ negsuc n ≡ pos (m * suc n)
neg-*ℤ-negsuc m n = eq_of_parts _ _ (simp signs (omega arith))

-- (x y) (z w) = (x w) (y z)
pub *ℤ_cross : (x y z w : ℤ) → x *ℤ y *ℤ (z *ℤ w) ≡ x *ℤ w *ℤ (y *ℤ z)
*ℤ_cross x y z w = eq_of_parts _ _ (simp products (omega arith))

pub *ℤ_right_comm : (x y z : ℤ) → x *ℤ y *ℤ z ≡ x *ℤ z *ℤ y
*ℤ_right_comm x y z = eq_of_parts _ _ (simp products (omega arith))

pub +ℤ-*ℤ : (x y z : ℤ) → (x +ℤ y) *ℤ z ≡ x *ℤ z +ℤ y *ℤ z
+ℤ-*ℤ x y z =
    let sum = simp products at (+ℤ_parts (x *ℤ z) (y *ℤ z)) in
    let top = ap (λ (t : ℕ). t * pos_part z) (+ℤ_parts x y) in
    let bottom = ap (λ (t : ℕ). t * neg_part z) (+ℤ_parts x y) in
    eq_of_parts _ _ (simp products (omega (arith, sum, top, bottom)))

-- JavaScript's `%` and `/`: the remainder has the sign of the dividend, the quotient is rounded
-- towards zero (the source divides only where the quotient is exact).
unfoldable pub rem : ℤ → ℤ → ℤ
rem (pos m) b = pos (m % abs b)
rem (negsuc m) b = neg (suc m % abs b)

unfoldable pub quot : ℤ → ℤ → ℤ
quot (pos m) (pos n) = pos (m / n)
quot (pos m) (negsuc n) = neg (m / suc n)
quot (negsuc m) (pos n) = neg (suc m / n)
quot (negsuc m) (negsuc n) = pos (suc m / suc n)

-- `a % b === 0`. A remainder by 0 is NaN, which is not 0.
unfoldable pub divides : ℤ → ℤ → Bool
unfolding rem
divides b a = not (eq_ℤ b (pos 0)) && eq_ℤ (rem a b) (pos 0)

pub abs_zero : (b : ℤ) → (b ≡ pos 0) ⊎ (0 < abs b)
abs_zero (pos zero) = inl refl
abs_zero (pos (suc n)) = inr (omega arith)
abs_zero (negsuc n) = inr (omega arith)

pub abs-rem_lt : (a b : ℤ) → b ≢ pos 0 → abs (rem a b) < abs b
unfolding rem
abs-rem_lt a b h = elim (abs_zero b) [ inl e ↦ absurd (h e) | inr lt ↦ small a lt ]
  where
    abs-neg : (n : ℕ) → abs (neg n) ≡ n
    abs-neg zero = refl
    abs-neg (suc n) = refl

    small : (a : ℤ) → 0 < abs b → abs (rem a b) < abs b
    small (pos m) lt = mod-lt m lt
    small (negsuc m) lt = rw (abs-neg (suc m % abs b)) (mod-lt (suc m) lt)

pub nonzero-*ℤ : (a b : ℤ) → a ≢ pos 0 → b ≢ pos 0 → a *ℤ b ≢ pos 0
nonzero-*ℤ a b h k e = elim (abs_zero a) [
  | inl z ↦ h z
  | inr p ↦ elim (abs_zero b) [
    | inl z ↦ k z
    | inr q ↦ let both = mul-pos p q in omega (arith, both, abs-*ℤ a b, ap abs e)
  ]
]

-- A factor that is not 0 cancels.
pub *ℤ_cancel : (x y k : ℤ) → k ≢ pos 0 → x *ℤ k ≡ y *ℤ k → x ≡ y
*ℤ_cancel x y k h e = elim (abs_zero (x -ℤ y)) [
  | inl z ↦ eq_of_parts x y (omega (arith, -ℤ_parts x y, ap pos_part z, ap neg_part z))
  | inr p ↦ absurd (nonzero-*ℤ (x -ℤ y) k (λ z. omega (arith, p, ap abs z)) h difference)
]
  where
    difference : (x -ℤ y) *ℤ k ≡ pos 0
    difference =
        let top = ap (λ (t : ℕ). t * pos_part k) (-ℤ_parts x y) in
        let bottom = ap (λ (t : ℕ). t * neg_part k) (-ℤ_parts x y) in
        let same_top = simp products at (ap pos_part e) in
        let same_bottom = simp products at (ap neg_part e) in
        eq_of_parts _ _ (simp products (omega (arith, top, bottom, same_top, same_bottom)))

neg_injective : (n : ℕ) → neg n ≡ pos 0 → n ≡ 0
neg_injective zero e = refl
neg_injective (suc n) e = absurd (ground arith)

pub divides-nonzero : (b a : ℤ) → divides b a ≡ true → b ≢ pos 0
unfolding divides
divides-nonzero b a h e = ground arith

pub divides-dvd : (b a : ℤ) → divides b a ≡ true → abs b ∣ abs a
unfolding divides rem
divides-dvd b (pos m) h = dvd_of_mod-eq-zero (abs b) (ground arith)
divides-dvd b (negsuc m) h = dvd_of_mod-eq-zero (abs b) (neg_injective _ (ground arith))

-- A quotient without remainder.
pub quot-divides : (b a : ℤ) → divides b a ≡ true → quot a b *ℤ b ≡ a
unfolding quot
quot-divides b a h = quotient a b (divides-dvd b a h)
  where
    quotient : (a b : ℤ) → abs b ∣ abs a → quot a b *ℤ b ≡ a
    quotient (pos m) (pos n) d = pos-*ℤ (m / n) n ∙ ap pos (div-mul_cancel n d)
    quotient (pos m) (negsuc n) d = neg-*ℤ-negsuc (m / suc n) n ∙ ap pos (div-mul_cancel (suc n) d)
    quotient (negsuc m) (pos n) d = neg-*ℤ-pos (suc m / n) n ∙ ap neg (div-mul_cancel n d)
    quotient (negsuc m) (negsuc n) d =
        pos-*ℤ-negsuc (suc m / suc n) n ∙ ap neg (div-mul_cancel (suc n) d)
