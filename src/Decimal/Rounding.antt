-- ===== src/Decimal/Rounding.antt =====
-- What the context's rounding does to a result: nothing below 10 ^ 28, and never much above it.
use native.Mathlib.Nat.{div-add-mod, mul-div_left, mul-mod_left}
use aurexis.Base.{
  ℕ, zero, suc, ◌+◌, ◌*◌, ◌^◌, ◌≤◌, ◌<◌, ◌≡◌, refl, ap, arith, lt→ltb, ℤ, pos, negsuc, magnitude,
  ◌*ℤ◌,
}
use aurexis.Decimal.{
  Decimal, dec, ok, excess_digits, round_half_even, round_magnitude, context_round, mul, quantize,
  half_even,
}
use aurexis.Decimal.Order.{ten_pow_pos}

round_half_even_one : (n : ℕ) → round_half_even n 1 ≡ n
unfolding round_half_even
round_half_even_one n = ground arith

excess_digits_small : (f n : ℕ) → n < 10 ^ 28 → excess_digits f n ≡ 0
unfolding excess_digits
excess_digits_small zero n h = refl
excess_digits_small (suc f) n h = ground arith

pub round_magnitude_small : (n : ℕ) → n < 10 ^ 28 → round_magnitude n ≡ n
unfolding round_magnitude
round_magnitude_small n h =
    rw (excess_digits_small n n h) (rw (round_half_even_one n) (omega arith))

pub context_round_small : (c : ℤ) → magnitude c < 10 ^ 28 → context_round c ≡ c
unfolding context_round
context_round_small (pos n) h = ap pos (round_magnitude_small n h)
context_round_small (negsuc n) h = rw (round_magnitude_small (suc n) h)

-- Rounding n / m stays within half a unit.
pub round_half_even_bounds :
    (n m : ℕ)
    → 0 < m
    → (2 * (round_half_even n m * m) ≤ 2 * n + m) × (2 * n ≤ 2 * (round_half_even n m * m) + m)
unfolding round_half_even
round_half_even_bounds n m h = grind (arith, div-add-mod n m)

-- A product of at most 28 digits is exact.
pub mul_exact :
    (a b : Decimal)
    → magnitude (a.coeff *ℤ b.coeff) < 10 ^ 28
    → mul a b ≡ record { coeff = a.coeff *ℤ b.coeff; scale = a.scale + b.scale }
unfolding mul
mul_exact a b h =
    ap (λ (c : ℤ). record { coeff = c; scale = a.scale + b.scale })
      (context_round_small (a.coeff *ℤ b.coeff) h)

round_half_even_multiple : (k m : ℕ) → 0 < m → round_half_even (k * m) m ≡ k
unfolding round_half_even
round_half_even_multiple k m h = rw (mul-div_left k h, mul-mod_left k m) (rw (lt→ltb _ _ h))

-- Quantizing to the digits that a value has changes nothing.
pub quantize_same : (k s : ℕ) → k < 10 ^ 28 → quantize half_even s (dec k s) ≡ ok (dec k s)
unfolding quantize
quantize_same k s h = rw (round_half_even_multiple k (10 ^ s) (ten_pow_pos s)) (rw (lt→ltb _ _ h))
