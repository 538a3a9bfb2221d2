-- ===== src/Risk/Sizing/Budget.antt =====
-- What a lot size of the percentage policy promises: it is a whole number of lot steps, at least the
-- minimum, and the money that it puts at risk stays within the budget.
use native.Mathlib.Nat.{one-le-mul, le_of_mul-le-mul_right, mul-le-mul_right}
use aurexis.Base.{
  ℕ, zero, suc, ◌+◌, ◌*◌, ◌^◌, ◌≤◌, ◌<◌, ◌≡◌, refl, ap, subst, Bool, Option, none, some, arith, ℤ,
  pos, negsuc, opposite, pos_part, ◌≢◌, sym, magnitude, if◌then◌else◌, ◌*ℤ◌,
}
use aurexis.Decimal
use aurexis.Decimal.{
  Decimal, dec, dec_zero, Checked, ok, err, invalid_operation, ◌>>=◌, ltb_dec, leb_dec, mul, div,
  context_round, round_magnitude, quotient, quantize, down, half_even,
}
use aurexis.Decimal.Order.{ten_pow_pos}
use aurexis.Decimal.Division.{quotient_close, div_pos, div_neg, div_zero}
use aurexis.Risk.Sizing.Steps.{round_lots_steps, round_lots_zero}
use aurexis.Risk.Sizing.{percentage_policy, round_lots, sized_lots, percentage_lot_size}

-- The money at risk for k lot steps of 0.01 at `per_lot` a lot, against the budget `risk`:
-- k / 100 * per_lot ≤ risk, in whole numbers.
abbrev pub WithinBudget : ℕ → Decimal → Decimal → Type 0
WithinBudget k per_lot risk =
    k * magnitude per_lot.coeff * 10 ^ risk.scale
    ≤ 10 ^ 2 * magnitude risk.coeff * 10 ^ per_lot.scale

-- The product that a budget of below 10 ^ 24 units leaves no room to round over.
budget_exact :
    (k den num : ℕ)
    → 10 ^ 2 * num < 10 ^ 26
    → (2 * 10 ^ 27) * (2 * 10 ^ 27) * (k * den)
      ≤ (2 * 10 ^ 27 + 1) * (2 * 10 ^ 27 + 1) * (10 ^ 2 * num)
    → k * den ≤ 10 ^ 2 * num
budget_exact k den num h e = omega arith

-- Two roundings in a row.
chain_close :
    (k m den num x : ℕ)
    → 0 < x
    → 2 * 10 ^ 27 * (k * x) ≤ (2 * 10 ^ 27 + 1) * (m * 10 ^ 2)
    → 2 * 10 ^ 27 * (m * den) ≤ (2 * 10 ^ 27 + 1) * (num * x)
    → (2 * 10 ^ 27) * (2 * 10 ^ 27) * (k * den)
      ≤ (2 * 10 ^ 27 + 1) * (2 * 10 ^ 27 + 1) * (10 ^ 2 * num)
chain_close k m den num x hx h e = le_of_mul-le-mul_right (omega (arith, mul-le-mul_right den h)) hx

sized_lots_within :
    (pct : Decimal) (r sr d sd : ℕ) (lots : Decimal)
    → 10 ^ 2 * (suc r * 10 ^ sd) < 10 ^ 26
    → (div (record { coeff = pos (suc r); scale = sr }) (record { coeff = pos (suc d); scale = sd })
        >>= λ raw. round_lots (percentage_policy pct) raw)
      ≡ ok (some lots)
    → (k : ℕ) × (lots ≡ dec k 2) × (1 ≤ k) × (k * (suc d * 10 ^ sr) ≤ 10 ^ 2 * (suc r * 10 ^ sd))
sized_lots_within pct r sr d sd lots small h =
    let num = suc r * 10 ^ sd in
    let den = suc d * 10 ^ sr in
    let (q, s) = quotient num den in
    let (m, k, em, same, low, close) =
      round_lots_steps pct (record { coeff = pos q; scale = s }) lots
        (rw (div_pos r sr d sd) at h) in
    let e : q ≡ m = ap pos_part em in
    (
      k,
      same,
      low,
      budget_exact k den num small (
          chain_close k q den num (10 ^ s) (ten_pow_pos s) (rw e close) (
            quotient_close num den (one-le-mul (omega arith) (ten_pow_pos sd))
              (one-le-mul (omega arith) (ten_pow_pos sr)))),
    )

div_by_zero : (a : Decimal) (s : ℕ) {b : Decimal} → div a (dec 0 s) ≢ ok b
unfolding div
div_by_zero a s = ground arith

bind_ok :
    {A B : Type 0} (m : Checked A) (f : A → Checked B) {b : B}
    → (m >>= f) ≡ ok b
    → (a : A) × (m ≡ ok a) × (f a ≡ ok b)
bind_ok (ok a) f h = (a, refl, h)
bind_ok (err e) f h = cc

opposite-eq-pos : (q m : ℕ) → opposite q ≡ pos m → m ≡ 0
opposite-eq-pos zero m h = sym (ap pos_part h)
opposite-eq-pos (suc q) m h = cc

no_lots_of_negative :
    (pct : Decimal) (q s : ℕ) (lots : Decimal)
    → round_lots (percentage_policy pct) (record { coeff = opposite q; scale = s }) ≢ ok (some lots)
no_lots_of_negative pct q s lots h =
    let (m, k, em, same, low, close) =
      round_lots_steps pct (record { coeff = opposite q; scale = s }) lots h in
    omega (arith, opposite-eq-pos q m em, one-le-mul low (ten_pow_pos s))

sized_by_sign :
    (pct : Decimal) (rc : ℤ) (sr d sd : ℕ) (lots : Decimal)
    → 10 ^ 2 * (magnitude rc * 10 ^ sd) < 10 ^ 26
    → (div (record { coeff = rc; scale = sr }) (dec d sd) >>= λ raw.
        round_lots (percentage_policy pct) raw)
      ≡ ok (some lots)
    → (k : ℕ) × (lots ≡ dec k 2) × (1 ≤ k) × (k * (d * 10 ^ sr) ≤ 10 ^ 2 * (magnitude rc * 10 ^ sd))
sized_by_sign pct rc sr zero sd lots small h =
    absurd (div_by_zero _ sd (bind_ok (div _ (dec 0 sd)) (round_lots (percentage_policy pct)) h).1)
sized_by_sign pct (pos zero) sr (suc d) sd lots small h =
    cc (rw (div_zero sr d sd) at h, round_lots_zero pct 0)
sized_by_sign pct (pos (suc r)) sr (suc d) sd lots small h =
    sized_lots_within pct r sr d sd lots small h
sized_by_sign pct (negsuc r) sr (suc d) sd lots small h =
    absurd (no_lots_of_negative pct _ _ lots (rw (div_neg r sr d sd) at h))

times_pos : (a b : ℕ) → pos a *ℤ pos b ≡ pos (a * b)
unfolding ◌*ℤ◌
times_pos a b = ground arith

-- The risk of one lot is never negative.
per_lot_pos : (x : Decimal) → (n : ℕ) × ((mul (Decimal.abs x) (dec 100 0)).coeff ≡ pos n)
unfolding mul Decimal.abs
per_lot_pos x = (_, ap context_round (times_pos (round_magnitude (magnitude x.coeff)) 100))

sized_within :
    (pct risk per_lot lots : Decimal) (d : ℕ)
    → per_lot.coeff ≡ pos d
    → 10 ^ 2 * (magnitude risk.coeff * 10 ^ per_lot.scale) < 10 ^ 26
    → (div risk per_lot >>= λ raw. round_lots (percentage_policy pct) raw) ≡ ok (some lots)
    → (k : ℕ) × (lots ≡ dec k 2) × (1 ≤ k) × WithinBudget k per_lot risk
sized_within pct risk per_lot lots d e small h =
    let same : per_lot ≡ dec d per_lot.scale =
      ap (λ (c : ℤ). record { coeff = c; scale = per_lot.scale }) e in
    let (k, el, low, within) = sized_by_sign pct risk.coeff risk.scale d per_lot.scale lots small (
      subst
        (λ (p : Decimal).
          (div risk p >>= λ raw. round_lots (percentage_policy pct) raw) ≡ ok (some lots))
        same h) in
    let e' : magnitude per_lot.coeff ≡ d = ap magnitude e in (k, el, low, rw e' (omega arith))

past_guards :
    (b c : Bool) (x : Checked (Option Decimal)) (lots : Decimal)
    → (if b then ok none else if c then ok none else x) ≡ ok (some lots)
    → x ≡ ok (some lots)
past_guards b c x lots h = ground arith

-- The lots that the percentage policy authorizes are a whole number k ≥ 1 of steps of 0.01, and the
-- loss at the stop, k / 100 * risk per lot, is within equity * percentage. The figures are those
-- that the code computes; the budget, in units of both scales, is below 10 ^ 24, which keeps the two
-- roundings of the quotient from reaching the next step.
pub percentage_lot_size-WithinBudget :
    (pct equity entry stop lots : Decimal)
    → let risk = mul equity pct in
      let per_lot = mul (Decimal.abs (Decimal.sub entry stop)) (dec 100 0) in
      10 ^ 2 * (magnitude risk.coeff * 10 ^ per_lot.scale) < 10 ^ 26
      → percentage_lot_size (percentage_policy pct) equity (some entry) (some stop) ≡ ok (some lots)
      → (k : ℕ) × (lots ≡ dec k 2) × (1 ≤ k) × WithinBudget k per_lot risk
unfolding percentage_lot_size
percentage_lot_size-WithinBudget pct equity entry stop lots small h =
    let dist = Decimal.abs (Decimal.sub entry stop) in
    sized_within pct (mul equity pct) (mul dist (dec 100 0)) lots
      (per_lot_pos (Decimal.sub entry stop)).0 (per_lot_pos (Decimal.sub entry stop)).1 small
      (past_guards (leb_dec dist dec_zero) (leb_dec equity dec_zero)
        (sized_lots (percentage_policy pct) equity dist) lots h)
