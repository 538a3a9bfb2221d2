-- ===== src/Risk/Sizing/Steps.antt =====
-- The rounding of raw lots to whole lot steps (the second half of `calculate_lot_size`), in numbers.
use native.Mathlib.Nat.{one-le-mul, le_of_mul-le-mul_right, mul-le-mul_right, div-mul-le_self}
use aurexis.Base.{
  ℕ, zero, suc, ◌+◌, ◌*◌, ◌/◌, ◌^◌, ◌≤◌, ◌<◌, ◌≡◌, refl, ◌∙◌, ap, true, Option, none, some, arith,
  ltb, ltb→lt, lt→ltb, ℤ, pos, negsuc, opposite, ◌≢◌, sym, if◌then◌else◌, ◌*ℤ◌, Bool-cases, inl,
  inr,
}
use aurexis.Decimal.{
  Decimal, dec, Checked, ok, err, invalid_operation, ◌>>=◌, ltb_dec, mul, quotient, quantize, down,
  half_even,
}
use aurexis.Decimal.Order.{ten_pow_pos}
use aurexis.Decimal.Rounding.{mul_exact, quantize_same}
use aurexis.Decimal.Division.{quotient_close, div_pos, div_neg, div_zero}
use aurexis.Risk.Sizing.{percentage_policy, round_lots}

-- Whole lot steps in raw lots of m / 10 ^ s.
abbrev whole_steps : ℕ → ℕ → ℕ
whole_steps m s = let (m2, s2) = quotient (m * 10 ^ 2) (1 * 10 ^ s) in m2 * 10 ^ 0 / 10 ^ s2

-- What the rounding of raw lots returns, in numbers.
abbrev lots_of_steps : ℕ → Checked (Option Decimal)
lots_of_steps k =
    if ltb k (10 ^ 28)
    then (if ltb k 1 then ok none else ok (some (dec k 2)))
    else err invalid_operation

times_one : (k : ℕ) → pos k *ℤ pos 1 ≡ pos k
unfolding ◌*ℤ◌
times_one k = ground arith

mul_step : (k : ℕ) → k < 10 ^ 28 → mul (dec k 0) (dec 1 2) ≡ dec k 2
mul_step k h =
    mul_exact (dec k 0) (dec 1 2) (rw (times_one k) h)
    ∙ ap (λ (c : ℤ). record { coeff = c; scale = 0 + 2 }) (times_one k)

quantize_down_pos :
    (q s : ℕ)
    → quantize down 0 (record { coeff = pos q; scale = s }) ≡ (
        if ltb (q * 10 ^ 0 / 10 ^ s) (10 ^ 28)
        then ok (dec (q * 10 ^ 0 / 10 ^ s) 0)
        else err invalid_operation)
unfolding quantize
quantize_down_pos q s = refl

below_minimum : (k : ℕ) → ltb_dec (dec k 2) (dec 1 2) ≡ ltb k 1
unfolding ltb_dec
below_minimum k = ground arith

-- From the whole steps on.
rest_of_steps : Decimal → Checked (Option Decimal)
rest_of_steps steps =
    let lots = mul steps (dec 1 2) in
    if ltb_dec lots (dec 1 2)
    then ok none
    else (quantize half_even 2 lots >>= λ lot_size. ok (some lot_size))

rest_of_steps_lem : (k : ℕ) → k < 10 ^ 28 → rest_of_steps (dec k 0) ≡ lots_of_steps k
unfolding rest_of_steps
rest_of_steps_lem k h =
    rw (mul_step k h) (rw (below_minimum k, quantize_same k 2 h) (rw (lt→ltb _ _ h)))

quantized_lots :
    (k : ℕ)
    → ((if ltb k (10 ^ 28) then ok (dec k 0) else err invalid_operation) >>= rest_of_steps)
      ≡ lots_of_steps k
quantized_lots k = elim (Bool-cases (ltb k (10 ^ 28))) [
  | inl short ↦ rw short (rest_of_steps_lem k (ltb→lt _ _ short) ∙ rw short)
  | inr long ↦ rw long
]

round_lots_pos :
    (pct : Decimal) (m s : ℕ)
    → round_lots (percentage_policy pct) (record { coeff = pos (suc m); scale = s })
      ≡ lots_of_steps (whole_steps (suc m) s)
unfolding round_lots rest_of_steps
round_lots_pos pct m s = rw (div_pos m s 0 2, quantize_down_pos _ _) (quantized_lots _)

-- Raw lots that are zero or negative are refused.
pub round_lots_zero :
    (pct : Decimal) (s : ℕ)
    → round_lots (percentage_policy pct) (record { coeff = pos 0; scale = s }) ≡ ok none
unfolding round_lots rest_of_steps
round_lots_zero pct s = rw (div_zero s 0 2, quantize_down_pos 0 0) (quantized_lots 0)

times_one_neg : (i : ℕ) → negsuc i *ℤ pos 1 ≡ negsuc i
unfolding ◌*ℤ◌
times_one_neg i = ground arith

mul_step_neg :
    (i : ℕ)
    → suc i < 10 ^ 28
    → mul (record { coeff = negsuc i; scale = 0 }) (dec 1 2)
      ≡ record { coeff = negsuc i; scale = 2 }
mul_step_neg i h =
    mul_exact (record { coeff = negsuc i; scale = 0 }) (dec 1 2) (rw (times_one_neg i) h)
    ∙ ap (λ (c : ℤ). record { coeff = c; scale = 0 + 2 }) (times_one_neg i)

neg_below_minimum : (i : ℕ) → ltb_dec (record { coeff = negsuc i; scale = 2 }) (dec 1 2) ≡ true
unfolding ltb_dec
neg_below_minimum i = ground arith

rest_of_steps_neg :
    (k : ℕ) → k < 10 ^ 28 → rest_of_steps (record { coeff = opposite k; scale = 0 }) ≡ ok none
unfolding rest_of_steps
rest_of_steps_neg zero h = rest_of_steps_lem 0 h
rest_of_steps_neg (suc i) h = rw (mul_step_neg i h) (rw (neg_below_minimum i))

quantize_down_neg :
    (j s : ℕ)
    → quantize down 0 (record { coeff = negsuc j; scale = s }) ≡ (
        if ltb (suc j * 10 ^ 0 / 10 ^ s) (10 ^ 28)
        then ok (record { coeff = opposite (suc j * 10 ^ 0 / 10 ^ s); scale = 0 })
        else err invalid_operation)
unfolding quantize
quantize_down_neg j s = refl

quantized_lots_neg :
    (k : ℕ) (lots : Decimal)
    → ((if ltb k (10 ^ 28)
          then ok (record { coeff = opposite k; scale = 0 })
          else err invalid_operation)
        >>= rest_of_steps)
      ≢ ok (some lots)
quantized_lots_neg k lots = elim (Bool-cases (ltb k (10 ^ 28))) [
  | inl short ↦ rw short (rw (rest_of_steps_neg k (ltb→lt _ _ short)) (λ e. cc))
  | inr long ↦ rw long (λ e. cc)
]

lots_of_steps-some :
    (k : ℕ) (lots : Decimal) → lots_of_steps k ≡ ok (some lots) → (1 ≤ k) × (lots ≡ dec k 2)
lots_of_steps-some k lots h = ground arith

neg_steps :
    (q s : ℕ) (lots : Decimal)
    → (quantize down 0 (record { coeff = opposite q; scale = s }) >>= rest_of_steps)
      ≢ ok (some lots)
neg_steps zero s lots = rw (quantize_down_pos 0 s) (
    rw (quantized_lots (0 * 10 ^ 0 / 10 ^ s))
      (λ e. absurd (grind (arith, lots_of_steps-some (0 * 10 ^ 0 / 10 ^ s) lots e))))
neg_steps (suc j) s lots = rw (quantize_down_neg j s) (quantized_lots_neg _ lots)

round_lots_neg :
    (pct : Decimal) (j s : ℕ) (lots : Decimal)
    → round_lots (percentage_policy pct) (record { coeff = negsuc j; scale = s }) ≢ ok (some lots)
unfolding round_lots rest_of_steps
round_lots_neg pct j s lots = rw (div_neg j s 0 2) (neg_steps _ _ lots)

cover :
    (m2 x p k b : ℕ)
    → 0 < x
    → k * x ≤ m2 * 1
    → 2 * 10 ^ 27 * (m2 * (1 * p)) ≤ (2 * 10 ^ 27 + 1) * (b * x)
    → 2 * 10 ^ 27 * (k * p) ≤ (2 * 10 ^ 27 + 1) * b
cover m2 x p k b hx h e = le_of_mul-le-mul_right (omega (arith, mul-le-mul_right p h)) hx

-- The whole steps, and the raw lots that they come from.
whole_steps_close :
    (m s : ℕ)
    → 2 * 10 ^ 27 * (whole_steps (suc m) s * 10 ^ s) ≤ (2 * 10 ^ 27 + 1) * (suc m * 10 ^ 2)
whole_steps_close m s =
    let (m2, s2) = quotient (suc m * 10 ^ 2) (1 * 10 ^ s) in
    cover m2 (10 ^ s2) (10 ^ s) (m2 * 10 ^ 0 / 10 ^ s2) (suc m * 10 ^ 2) (ten_pow_pos s2)
      (div-mul-le_self (m2 * 1) (10 ^ s2))
      (quotient_close (suc m * 10 ^ 2) (1 * 10 ^ s) (omega arith)
        (one-le-mul (omega arith) (ten_pow_pos s)))

steps_of :
    (pct : Decimal) (c : ℤ) (s : ℕ) (lots : Decimal)
    → round_lots (percentage_policy pct) (record { coeff = c; scale = s }) ≡ ok (some lots)
    → (m k : ℕ) × (c ≡ pos m)
      × (lots ≡ dec k 2)
      × (1 ≤ k)
      × (2 * 10 ^ 27 * (k * 10 ^ s) ≤ (2 * 10 ^ 27 + 1) * (m * 10 ^ 2))
steps_of pct (pos zero) s lots h = cc (h, round_lots_zero pct s)
steps_of pct (pos (suc m)) s lots h =
    let (low, same) =
      lots_of_steps-some (whole_steps (suc m) s) lots (sym (round_lots_pos pct m s) ∙ h) in
    (suc m, whole_steps (suc m) s, refl, same, low, whole_steps_close m s)
steps_of pct (negsuc j) s lots h = absurd (round_lots_neg pct j s lots h)

-- Lots in numbers: k whole steps, which the raw lots cover up to the rounding of the division.
pub round_lots_steps :
    (pct raw lots : Decimal)
    → round_lots (percentage_policy pct) raw ≡ ok (some lots)
    → (m k : ℕ) × (raw.coeff ≡ pos m)
      × (lots ≡ dec k 2)
      × (1 ≤ k)
      × (2 * 10 ^ 27 * (k * 10 ^ raw.scale) ≤ (2 * 10 ^ 27 + 1) * (m * 10 ^ 2))
round_lots_steps pct raw lots h = steps_of pct raw.coeff raw.scale lots h
