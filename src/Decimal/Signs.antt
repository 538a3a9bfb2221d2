-- ===== src/Decimal/Signs.antt =====
-- Signs through the arithmetic: what is not negative stays so, and rounding makes nothing zero.
use native.Mathlib.Nat.{pow-suc, mul-le-mul_left, one-le-mul, le-div_iff_mul-le}
use aurexis.Base.{
  ℕ, zero, suc, ◌+◌, ◌-◌, ◌*◌, ◌/◌, ◌^◌, ◌≤◌, ◌<◌, max, ◌≡◌, refl, ◌⊎◌, inl, inr, true, false, ltb,
  ◌==◌, arith, Bool-cases, ℤ, pos, negsuc, pos_part, neg_part, sub_ℕ, ◌*ℤ◌, magnitude,
}
use aurexis.Decimal.{
  Decimal, dec, dec_zero, Checked, ok, excess_digits, round_half_even, round_magnitude,
  context_round, add, mul, abs, div, ltb_dec, eqb_dec, max_dec, Checked-cases,
}
use aurexis.Decimal.Order.{ten_pow_pos}
use aurexis.Decimal.Division.{div_pos, div_zero}

-- The coefficient has no negative part.
abbrev pub IsNonneg : Decimal → Type 0
IsNonneg a = neg_part a.coeff ≡ 0

context_round-nonneg : (c : ℤ) → neg_part c ≡ 0 → neg_part (context_round c) ≡ 0
unfolding context_round
context_round-nonneg (pos n) h = refl
context_round-nonneg (negsuc n) h = absurd (omega arith)

sub_ℕ-nonneg : (a b : ℕ) → b ≡ 0 → neg_part (sub_ℕ a b) ≡ 0
sub_ℕ-nonneg a b h = ground arith

sum-nonneg :
    (x u v k l : ℕ) → u ≡ 0 → v ≡ 0 → neg_part (context_round (sub_ℕ x (u * k + v * l))) ≡ 0
sum-nonneg x u v k l hu hv =
    context_round-nonneg (sub_ℕ x (u * k + v * l))
      (sub_ℕ-nonneg x (u * k + v * l) (rw (hu, hv) (omega arith)))

pub add-IsNonneg : (a b : Decimal) → IsNonneg a → IsNonneg b → IsNonneg (add a b)
unfolding add
add-IsNonneg a b ha hb =
    let s = max a.scale b.scale in
    sum-nonneg _ (neg_part a.coeff) (neg_part b.coeff) (10 ^ (s - a.scale)) (10 ^ (s - b.scale)) ha
      hb

product-nonneg :
    (x p q u v : ℕ) → u ≡ 0 → v ≡ 0 → neg_part (context_round (sub_ℕ x (p * v + u * q))) ≡ 0
product-nonneg x p q u v hu hv =
    context_round-nonneg (sub_ℕ x (p * v + u * q))
      (sub_ℕ-nonneg x (p * v + u * q) (rw (hu, hv) (omega arith)))

pub mul-IsNonneg : (a b : Decimal) → IsNonneg a → IsNonneg b → IsNonneg (mul a b)
unfolding mul ◌*ℤ◌
mul-IsNonneg a b ha hb =
    product-nonneg _ (pos_part a.coeff) (pos_part b.coeff) (neg_part a.coeff) (neg_part b.coeff) ha
      hb

pub abs-IsNonneg : (a : Decimal) → IsNonneg (abs a)
unfolding abs context_round
abs-IsNonneg a = refl

one_sided : (c : ℤ) → (pos_part c ≡ 0) ⊎ (neg_part c ≡ 0)
one_sided (pos n) = inr refl
one_sided (negsuc n) = inl refl

not_below :
    (pa na pb nb x y : ℕ)
    → (pa ≡ 0) ⊎ (na ≡ 0)
    → nb ≡ 0
    → 1 ≤ y
    → ltb (pa * y + nb * x) (pb * x + na * y) ≡ false
    → na ≡ 0
not_below pa na pb nb x y (inr h) hb hy low = h
not_below pa na pb nb x y (inl h) hb hy low =
    let least : ltb (0 * y + 0 * x) (pb * x + na * y) ≡ false = rw (h, hb) at low in
    ground (arith, least, mul-le-mul_left na hy)

-- The larger of two, the second not negative, is not negative.
pub max_dec-IsNonneg : (a b : Decimal) → IsNonneg b → IsNonneg (max_dec a b)
unfolding max_dec ltb_dec
max_dec-IsNonneg a b h = elim (Bool-cases (ltb_dec a b)) [
  | inl below ↦ rw below h
  | inr over ↦ rw over (
      not_below (pos_part a.coeff) (neg_part a.coeff) (pos_part b.coeff) (neg_part b.coeff)
        (10 ^ a.scale) (10 ^ b.scale) (one_sided a.coeff) h (ten_pow_pos b.scale) over)
]

excess_digits_le : (f n : ℕ) → 0 < n → 10 ^ excess_digits f n ≤ n
unfolding excess_digits
excess_digits_le zero n h = omega arith
excess_digits_le (suc f) n h = elim (Bool-cases (ltb n (10 ^ 28))) [
  | inl small ↦ rw small (omega arith)
  | inr large ↦
      rw (large, pow-suc) (omega (arith, excess_digits_le f (n / 10) (ground (arith, large))))
]

nearest_pos : (n m : ℕ) → 0 < m → m ≤ n → 0 < round_half_even n m
unfolding round_half_even
nearest_pos n m hm h =
    let q : 1 ≤ n / m = (le-div_iff_mul-le hm).1 (omega (arith, h)) in ground (arith, q)

-- Rounding to the precision makes no number zero.
pub round_magnitude_pos : (n : ℕ) → 0 < n → 0 < round_magnitude n
unfolding round_magnitude
round_magnitude_pos n h =
    let unit = 10 ^ excess_digits n n in
    one-le-mul (nearest_pos n unit (ten_pow_pos (excess_digits n n)) (excess_digits_le n n h))
      (ten_pow_pos (excess_digits n n))

-- The call returns a value that is not negative.
abbrev pub ReturnsNonneg : Checked Decimal → Type 0
ReturnsNonneg m = (x : Decimal) × (m ≡ ok x) × IsNonneg x

div_parts-ReturnsNonneg :
    (c c' : ℤ) (s t : ℕ)
    → neg_part c ≡ 0
    → neg_part c' ≡ 0
    → (magnitude c' == 0) ≡ false
    → ReturnsNonneg (div (record { coeff = c; scale = s }) (record { coeff = c'; scale = t }))
div_parts-ReturnsNonneg (negsuc m) c' s t h k nonzero = absurd (omega arith)
div_parts-ReturnsNonneg (pos m) (negsuc n) s t h k nonzero = absurd (omega arith)
div_parts-ReturnsNonneg (pos m) (pos zero) s t h k nonzero = absurd (ground arith)
div_parts-ReturnsNonneg (pos zero) (pos (suc n)) s t h k nonzero = (dec 0 0, div_zero s n t, refl)
div_parts-ReturnsNonneg (pos (suc m)) (pos (suc n)) s t h k nonzero = (_, div_pos m s n t, refl)

pub div-ReturnsNonneg :
    (a b : Decimal)
    → IsNonneg a
    → IsNonneg b
    → (magnitude b.coeff == 0) ≡ false
    → ReturnsNonneg (div a b)
div-ReturnsNonneg a b ha hb nonzero =
    div_parts-ReturnsNonneg a.coeff b.coeff a.scale b.scale ha hb nonzero

-- A value that differs from zero has a coefficient that does.
pub nonzero-eqb_dec : (a : Decimal) → eqb_dec a dec_zero ≡ false → (magnitude a.coeff == 0) ≡ false
unfolding eqb_dec
nonzero-eqb_dec a h = coefficient a.coeff a.scale h
  where
    coefficient :
        (c : ℤ) (s : ℕ)
        → (pos_part c * 10 ^ 0 + 0 * 10 ^ s == (0 * 10 ^ s + neg_part c * 10 ^ 0)) ≡ false
        → (magnitude c == 0) ≡ false
    coefficient (pos n) s k = ground arith
    coefficient (negsuc n) s k = ground arith

rounded_pos :
    (x u k l : ℕ)
    → u ≡ 0
    → 0 < x
    → (magnitude (context_round (sub_ℕ x (0 * k + u * l))) == 0) ≡ false
unfolding context_round
rounded_pos x u k l hu hx =
    let whole : sub_ℕ x (0 * k + u * l) ≡ pos x = rw hu (ground arith) in
    rw whole (ground (arith, round_magnitude_pos x))

-- One more than a value that is not negative is not zero.
pub one_plus_nonzero : (a : Decimal) → IsNonneg a → (magnitude (add (dec 1 0) a).coeff == 0) ≡ false
unfolding add
one_plus_nonzero a h =
    let s = max 0 a.scale in
    rounded_pos (1 * 10 ^ (s - 0) + pos_part a.coeff * 10 ^ (s - a.scale)) (neg_part a.coeff)
      (10 ^ (s - 0)) (10 ^ (s - a.scale)) h (omega (arith, ten_pow_pos (s - 0)))

-- A quotient by a value that is not zero raises nothing.
pub div_returns :
    (a b : Decimal) → (magnitude b.coeff == 0) ≡ false → (x : Decimal) × (div a b ≡ ok x)
unfolding div
div_returns a b nonzero = elim (Checked-cases (div a b)) [
  | inl returned ↦ returned
  | inr (e, raised) ↦ absurd (ground (arith, nonzero, raised))
]

pub positive-nonzero : (a : Decimal) → ltb_dec dec_zero a ≡ true → (magnitude a.coeff == 0) ≡ false
unfolding ltb_dec
positive-nonzero a h = coefficient a.coeff a.scale h
  where
    coefficient :
        (z : ℤ) (s : ℕ)
        → ltb (0 * 10 ^ s + neg_part z * 10 ^ 0) (pos_part z * 10 ^ 0 + 0 * 10 ^ s) ≡ true
        → (magnitude z == 0) ≡ false
    coefficient (pos n) s k = ground arith
    coefficient (negsuc n) s k = ground arith
