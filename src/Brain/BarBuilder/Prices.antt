-- ===== src/Brain/BarBuilder/Prices.antt =====
-- The prices of a bar: the low and the high enclose the open and the close.
use aurexis.Base.{
  ◌≡◌, refl, inl, inr, true, Option, none, some, [], ◌∷◌, All, All-append, ◌==◌, magnitude, arith,
  Bool-cases, if◌then◌else◌,
}
use aurexis.Decimal
use aurexis.Decimal.{Decimal, dec, div, Checked, ok, err, ◌>>=◌, ltb_dec, leb_dec}
use aurexis.Decimal.Order.{leb_dec_trans, leb_dec_refl, leb_dec_of_ltb, leb_dec_of_not_ltb}
use aurexis.Brain.MarketData.{Timestamp, Tick, Bar}
use aurexis.Brain.BarBuilder.{
  Running, BarBuilder, begin, closed_bar, extend, process_price, process_tick, bucket_start,
  volume_of,
}

abbrev Encloses : Decimal → Decimal → Decimal → Type 0
Encloses low high price = (leb_dec low price ≡ true) × (leb_dec price high ≡ true)

abbrev pub IsCandle : Bar → Type 0
IsCandle bar =
    Encloses bar.low_price bar.high_price bar.open_price
    × Encloses bar.low_price bar.high_price bar.close_price

abbrev IsRunningCandle : Running → Type 0
IsRunningCandle r =
    Encloses r.low_price r.high_price r.open_price × Encloses r.low_price r.high_price r.close_price

-- A tick closes no bar, or one of which `P` holds.
abbrev pub Returns : (Bar → Type 0) → Option Bar → Type 0
Returns P none = Unit {0}
Returns P (some bar) = P bar

-- The running bar, where there is one, and every closed bar.
abbrev pub HasCandles : BarBuilder → Type 0
HasCandles b =
    elim b.running [ none ↦ Unit {0} | some r ↦ IsRunningCandle r ] × All IsCandle b.closed_bars

begin-candle :
    (start : Timestamp) (price volume : Decimal) → IsRunningCandle (begin start price volume)
begin-candle start price volume = ground (arith, leb_dec_refl price)

lower_encloses :
    (low price x : Decimal)
    → leb_dec low x ≡ true
    → (leb_dec (if ltb_dec price low then price else low) x ≡ true)
      × (leb_dec (if ltb_dec price low then price else low) price ≡ true)
lower_encloses low price x h = ground (
  arith,
  leb_dec_trans price low x,
  leb_dec_of_ltb price low,
  leb_dec_refl price,
  leb_dec_of_not_ltb low price,
)

raise_encloses :
    (high price x : Decimal)
    → leb_dec x high ≡ true
    → (leb_dec x (if ltb_dec high price then price else high) ≡ true)
      × (leb_dec price (if ltb_dec high price then price else high) ≡ true)
raise_encloses high price x h = ground (
  arith,
  leb_dec_trans x high price,
  leb_dec_of_ltb high price,
  leb_dec_refl price,
  leb_dec_of_not_ltb price high,
)

extend-candle :
    (r : Running) (price volume : Decimal)
    → IsRunningCandle r
    → IsRunningCandle (extend r price volume)
unfolding extend
extend-candle r price volume h =
    let low = lower_encloses r.low_price price r.open_price h.0.0 in
    let high = raise_encloses r.high_price price r.open_price h.0.1 in
    ((low.0, high.0), (low.1, high.1))

candle_step :
    (b : BarBuilder) (running : Option Running) (price volume : Decimal) (bucket : Timestamp)
    → b.running ≡ running
    → HasCandles b
    → HasCandles (process_price b price volume bucket).1
unfolding process_price
candle_step b none price volume bucket e h = ground (arith, begin-candle bucket price volume)
candle_step b (some r) price volume bucket e h = ground (
  arith,
  begin-candle bucket price volume,
  extend-candle r price volume,
  All-append IsCandle b.closed_bars (closed_bar b r ∷ []),
)

returned-IsCandle :
    (b : BarBuilder) (price volume : Decimal) (bucket : Timestamp)
    → HasCandles b
    → Returns IsCandle (process_price b price volume bucket).0
unfolding process_price
returned-IsCandle b price volume bucket h = ground arith

pub div_two : (a : Decimal) → (p : Decimal) × (div a (dec 2 0) ≡ ok p)
unfolding div
div_two a = elim (Bool-cases (magnitude a.coeff == 0)) [
  | inl z ↦ rw z (dec 0 0, refl)
  | inr n ↦ rw n (_, refl)
]

-- The price of every tick can be computed, so no tick is lost: each gives a new state, and perhaps
-- the bar that it closes. However ticks arrive, the low of the running bar and of each closed bar
-- is at most its open and its close, and the high at least both; the tick keeps this, and the bar
-- that it returns has it.
pub process_tick-HasCandles :
    (b : BarBuilder) (tick : Tick)
    → HasCandles b
    → (closed : Option Bar) × (b' : BarBuilder) × (process_tick b tick ≡ ok (closed, b'))
      × HasCandles b'
      × Returns IsCandle closed
unfolding process_tick
process_tick-HasCandles b tick h =
    let (price, e) = div_two (Decimal.add tick.bid tick.ask) in
    let bucket = bucket_start b.interval_seconds tick.tick_time in
    let step = process_price b price (volume_of tick) bucket in
    (
      step.0,
      step.1,
      rw e refl,
      candle_step b b.running price (volume_of tick) bucket refl h,
      returned-IsCandle b price (volume_of tick) bucket h,
    )
