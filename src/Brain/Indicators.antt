-- ===== src/Brain/Indicators.antt =====
-- brain/indicators.py: averages, ranges and strength on closed bars. A period is a natural number,
-- and an exception of the arithmetic ends the call (`Checked`).
pub mod Totality
pub mod Returning
pub mod Streams
pub mod Adx
use aurexis.Base.{
  ℕ, suc, zero, ◌+◌, ◌-◌, ◌*◌, Bool, true, false, ◌&&◌, ◌||◌, Option, none, some, List, [], ◌∷◌,
  ◌++◌, ◌==◌, ltb, length, take, drop, map, magnitude, if◌then◌else◌,
}
use aurexis.Decimal
use aurexis.Decimal.{Decimal, dec, dec_zero, Checked, ok, ◌>>=◌, ltb_dec, eqb_dec, max_dec}
use aurexis.Brain.MarketData.{Bar}

-- `sum(values, Decimal("0"))`
unfoldable pub sum_from : Decimal → List Decimal → Decimal
sum_from total [] = total
sum_from total (x ∷ xs) = sum_from (Decimal.add total x) xs

abbrev pub sum : List Decimal → Decimal
sum xs = sum_from dec_zero xs

-- `total / Decimal(str(n))`
abbrev pub over : Decimal → ℕ → Checked Decimal
over total n = Decimal.div total (dec n 0)

abbrev pub closes : List Bar → List Decimal
closes bars = map (λ b. b.close_price) bars

-- `len(bars) < needed or period <= 0`
abbrev pub too_few {ℓ} : {A : Type ℓ} → List A → ℕ → ℕ → Bool
too_few bars needed period = ltb (length bars) needed || period == 0

abbrev pub found : Checked Decimal → Checked (Option Decimal)
found m = m >>= λ x. ok (some x)

unfoldable pub calculate_sma : List Bar → ℕ → Checked (Option Decimal)
calculate_sma bars period =
    if too_few bars period period
    then ok none
    else found (over (sum (closes (drop (length bars - period) bars))) period)

-- The loop of the exponential average.
abbrev pub ema_step : Decimal → Decimal → Decimal → Decimal
ema_step k ema close = Decimal.add (Decimal.mul close k) (Decimal.mul ema (Decimal.sub (dec 1 0) k))

unfoldable pub ema_from : Decimal → Decimal → List Decimal → Decimal
ema_from k ema [] = ema
ema_from k ema (close ∷ rest) = ema_from k (ema_step k ema close) rest

unfoldable pub ema_of : ℕ → List Decimal → Checked Decimal
ema_of period prices = do
  k ← over (dec 2 0) (period + 1)
  first ← over (sum (take period prices)) period
  ok (ema_from k first (drop period prices))

unfoldable pub calculate_ema : List Bar → ℕ → Checked (Option Decimal)
calculate_ema bars period =
    if too_few bars period period then ok none else found (ema_of period (closes bars))

abbrev pub true_range : Bar → Bar → Decimal
true_range prev current =
    max_dec
      (max_dec (Decimal.sub current.high_price current.low_price)
        (Decimal.abs (Decimal.sub current.high_price prev.close_price)))
      (Decimal.abs (Decimal.sub current.low_price prev.close_price))

-- A value for each bar but the first, from it and the bar before it.
unfoldable pub pairwise_from {ℓ} : {A : Type ℓ} → (Bar → Bar → A) → Bar → List Bar → List A
pairwise_from f prev [] = []
pairwise_from f prev (bar ∷ bars) = f prev bar ∷ pairwise_from f bar bars

abbrev pub pairwise {ℓ} : {A : Type ℓ} → (Bar → Bar → A) → List Bar → List A
pairwise f [] = []
pairwise f (bar ∷ bars) = pairwise_from f bar bars

unfoldable pub true_ranges : List Bar → List Decimal
unfolding pairwise_from
true_ranges bars = pairwise true_range bars

-- Wilder's smoothing: (average * (period - 1) + x) / period.
unfoldable pub wilder_step : ℕ → Decimal → Decimal → Checked Decimal
wilder_step period average x =
    over (Decimal.add (Decimal.mul average (dec (period - 1) 0)) x) period

unfoldable pub wilder_from : ℕ → Decimal → List Decimal → Checked Decimal
wilder_from period average [] = ok average
wilder_from period average (x ∷ xs) = do
  next ← wilder_step period average x
  wilder_from period next xs

-- The mean of the first values, smoothed over the others.
unfoldable pub wilder : ℕ → List Decimal → Checked Decimal
wilder period values = do
  first ← over (sum (take period values)) period
  wilder_from period first (drop period values)

-- The second test, on the number of the true ranges, cannot succeed after the first.
unfoldable pub calculate_atr : List Bar → ℕ → Checked (Option Decimal)
calculate_atr bars period =
    if too_few bars (period + 1) period
    then ok none
    else if ltb (length (true_ranges bars)) period
    then ok none
    else found (wilder period (true_ranges bars))

abbrev pub change : Bar → Bar → Decimal
change prev current = Decimal.sub current.close_price prev.close_price

abbrev pub gain_of : Decimal → Decimal
gain_of c = if ltb_dec dec_zero c then c else dec_zero

abbrev pub loss_of : Decimal → Decimal
loss_of c = if ltb_dec dec_zero c then dec_zero else Decimal.abs c

unfoldable pub gains : List Bar → List Decimal
unfolding pairwise_from
gains bars = pairwise (λ prev current. gain_of (change prev current)) bars

unfoldable pub losses : List Bar → List Decimal
unfolding pairwise_from
losses bars = pairwise (λ prev current. loss_of (change prev current)) bars

unfoldable pub strength_index : Decimal → Decimal → Checked Decimal
strength_index avg_gain avg_loss =
    if eqb_dec avg_loss dec_zero
    then ok (dec 100 0)
    else if eqb_dec avg_gain dec_zero
    then ok (dec 0 0)
    else (do
      rs ← Decimal.div avg_gain avg_loss
      part ← Decimal.div (dec 100 0) (Decimal.add (dec 1 0) rs)
      ok (Decimal.sub (dec 100 0) part))

-- The two averages are smoothed in one loop; neither reads the other.
unfoldable pub calculate_rsi : List Bar → ℕ → Checked (Option Decimal)
calculate_rsi bars period =
    if too_few bars (period + 1) period
    then ok none
    else if ltb (length (gains bars)) period
    then ok none
    else (do
      avg_gain ← wilder period (gains bars)
      avg_loss ← wilder period (losses bars)
      found (strength_index avg_gain avg_loss))

-- The ranges of the windows that end at each of the last bars, those that exist.
unfoldable pub window_ranges : List Bar → ℕ → ℕ → ℕ → Checked (List Decimal)
window_ranges bars period from zero = ok []
window_ranges bars period from (suc n) = do
  value ← calculate_atr (take (from + 1) bars) period
  rest ← window_ranges bars period (from + 1) n
  ok (elim value [ none ↦ rest | some x ↦ x ∷ rest ])

abbrev pub average_of : List Decimal → Checked (Option Decimal)
average_of [] = ok none
average_of (x ∷ xs) = found (over (sum (x ∷ xs)) (length (x ∷ xs)))

unfoldable pub calculate_atr_baseline : List Bar → ℕ → ℕ → Checked (Option Decimal)
unfolding window_ranges
calculate_atr_baseline bars atr_period baseline_bars =
    if too_few bars (atr_period + 1 + baseline_bars) baseline_bars then ok none else (do
      values ← window_ranges bars atr_period (length bars - baseline_bars) baseline_bars
      average_of values)
