-- ===== src/Tests/Sizing.antt =====
-- Position sizing at concrete figures.
use aurexis.Base.{ℕ, ◌≡◌, ◌≤◌, ◌<◌, ◌*◌, ◌^◌, magnitude, arith, refl, some}
use aurexis.Decimal
use aurexis.Decimal.{Decimal, dec, ok, mul}
use aurexis.Risk.Sizing.{percentage_policy, percentage_lot_size}
use aurexis.Risk.Sizing.Budget.{WithinBudget, percentage_lot_size-WithinBudget}

-- 1% of 10000.00 USD, entry 2000.20, stop 1995.17: 100 USD over 503 USD a lot.
sized_at_one_percent :
    percentage_lot_size
      (percentage_policy (dec 1 2))
      (dec 1000000 2)
      (some (dec 200020 2))
      (some (dec 199517 2))
    ≡ ok (some (dec 19 2))
unfolding percentage_lot_size Decimal.abs Decimal.sub mul Decimal.div Decimal.quantize
    Decimal.ltb_dec Decimal.leb_dec
sized_at_one_percent = refl

small_budget :
    let per_lot = mul (Decimal.abs (Decimal.sub (dec 200020 2) (dec 199517 2))) (dec 100 0) in
    10 ^ 2 * (magnitude (mul (dec 1000000 2) (dec 1 2)).coeff * 10 ^ per_lot.scale) < 10 ^ 26
unfolding mul Decimal.abs Decimal.sub
small_budget = omega arith

percentage_lot_size-WithinBudget_example :
    (k : ℕ) × (dec 19 2 ≡ dec k 2)
    × (1 ≤ k)
    × WithinBudget k
        (mul (Decimal.abs (Decimal.sub (dec 200020 2) (dec 199517 2))) (dec 100 0))
        (mul (dec 1000000 2) (dec 1 2))
percentage_lot_size-WithinBudget_example =
    percentage_lot_size-WithinBudget (dec 1 2) (dec 1000000 2) (dec 200020 2) (dec 199517 2)
      (dec 19 2) small_budget sized_at_one_percent
