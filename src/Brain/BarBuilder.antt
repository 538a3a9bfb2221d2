-- ===== src/Brain/BarBuilder.antt =====
-- brain/bar_builder.py: ticks into bars. A builder is explicit state, and the running bar, five
-- fields that are set together in the code, is one optional value. A datetime is a number of
-- microseconds, so `int(dt.timestamp())` is a division.
pub mod Prices
pub mod Timeline
pub mod Seeds
use aurexis.Base.{
  ℕ, zero, suc, ◌+◌, ◌-◌, ◌*◌, ◌/◌, String, Bool, true, false, Option, none, some, List, [], ◌∷◌,
  ◌++◌, ltb, leb, length, drop, lookup, insert, Dict, String_key, ℕ_key, map, if◌then◌else◌,
}
use aurexis.Decimal
use aurexis.Decimal.{Decimal, dec, Checked, ok, err, ◌>>=◌, ltb_dec}
use aurexis.Brain.MarketData.{Timestamp, Tick, mid, Bar}

-- The running bar: `_current_bar_start`, `_open`, `_high`, `_low`, `_close` and `_volume`.
pub record Running : Type 0 where
  pub start : Timestamp
  pub open_price : Decimal
  pub high_price : Decimal
  pub low_price : Decimal
  pub close_price : Decimal
  pub volume : Decimal

pub record BarBuilder : Type 0 where
  pub symbol : String
  pub timeframe : String
  pub interval_seconds : ℕ
  pub running : Option Running
  pub closed_bars : List Bar

unfoldable pub timeframe_seconds : Dict String ℕ
timeframe_seconds =
    ("M1", 60)
    ∷ ("M5", 300)
    ∷ ("M15", 900)
    ∷ ("M30", 1800)
    ∷ ("H1", 3600)
    ∷ ("H4", 14400)
    ∷ ("D1", 86400)
    ∷ []

-- The constructor, which raises `ValueError` (`none`) on an unknown timeframe.
unfoldable pub new_builder : String → String → Option BarBuilder
unfolding timeframe_seconds
new_builder symbol timeframe = elim (lookup timeframe timeframe_seconds) [
  | none ↦ none
  | some seconds ↦ some (record {
    symbol = symbol;
    timeframe = timeframe;
    interval_seconds = seconds;
    running = none;
    closed_bars = [];
  })
]

abbrev pub microseconds : ℕ → ℕ
microseconds seconds = seconds * 1000000

unfoldable pub bucket_start : ℕ → Timestamp → Timestamp
bucket_start interval t = microseconds (t / 1000000 / interval * interval)

abbrev pub begin : Timestamp → Decimal → Decimal → Running
begin start price volume = record {
  start = start;
  open_price = price;
  high_price = price;
  low_price = price;
  close_price = price;
  volume = volume;
}

abbrev pub closed_bar : BarBuilder → Running → Bar
closed_bar b r = record {
  symbol = b.symbol;
  timeframe = b.timeframe;
  open_time = r.start;
  close_time = r.start + microseconds b.interval_seconds;
  open_price = r.open_price;
  high_price = r.high_price;
  low_price = r.low_price;
  close_price = r.close_price;
  volume = r.volume;
  is_closed = true;
}

unfoldable pub extend : Running → Decimal → Decimal → Running
extend r price volume = record r {
  high_price = if ltb_dec r.high_price price then price else r.high_price;
  low_price = if ltb_dec price r.low_price then price else r.low_price;
  close_price = price;
  volume = Decimal.add r.volume volume;
}

-- `process_tick`, given the price, the volume and the bucket of the tick.
unfoldable pub process_price : BarBuilder → Decimal → Decimal → Timestamp → Option Bar × BarBuilder
process_price b price volume bucket = elim b.running [
  | none ↦ (none, record b { running = some (begin bucket price volume) })
  | some r ↦
      if ltb r.start bucket
      then (
        some (closed_bar b r),
        record b {
          running = some (begin bucket price volume);
          closed_bars = b.closed_bars ++ closed_bar b r ∷ [];
        },
      )
      else (none, record b { running = some (extend r price volume) })
]

abbrev pub volume_of : Tick → Decimal
volume_of tick = elim tick.volume [ none ↦ dec 1 0 | some volume ↦ volume ]

unfoldable pub process_tick : BarBuilder → Tick → Checked (Option Bar × BarBuilder)
process_tick b tick = do
  price ← mid tick
  ok (process_price b price (volume_of tick) (bucket_start b.interval_seconds tick.tick_time))

-- `existing_by_time[b.open_time] = b`, for the bars of the argument that are closed.
unfoldable pub merge : Dict Timestamp Bar → List Bar → Dict Timestamp Bar
merge known [] = known
merge known (bar ∷ bars) =
    let next = if bar.is_closed then insert bar.open_time bar known else known in merge next bars

-- `{b.open_time: b for b in bars}`
unfoldable pub by_time : Dict Timestamp Bar → List Bar → Dict Timestamp Bar
by_time known [] = known
by_time known (bar ∷ bars) = by_time (insert bar.open_time bar known) bars

-- `sorted(…, key=lambda b: b.open_time)`, which is stable.
unfoldable pub place : Bar → List Bar → List Bar
place bar [] = bar ∷ []
place bar (c ∷ cs) =
    let rest = place bar cs in if leb bar.open_time c.open_time then bar ∷ c ∷ cs else c ∷ rest

unfoldable pub sort_bars : List Bar → List Bar
sort_bars [] = []
sort_bars (bar ∷ bars) = place bar (sort_bars bars)

-- `bars[-n:]` of a list that is longer, and the list itself otherwise.
abbrev pub last_bars : ℕ → List Bar → List Bar
last_bars n bars = if ltb n (length bars) then drop (length bars - n) bars else bars

unfoldable pub seed_closed_bars : List Bar → BarBuilder → BarBuilder
seed_closed_bars bars b =
    let known = merge (by_time [] b.closed_bars) bars in
    record b { closed_bars = last_bars 300 (sort_bars (map (λ entry. entry.1) known)) }
