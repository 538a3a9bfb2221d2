-- ===== src/Tests/Brain.antt =====
-- Bars and structure at concrete inputs.
use aurexis.Base.{
  ℕ, ◌+◌, ◌≤◌, ◌≡◌, refl, true, Option, none, some, List, [], ◌∷◌, ◌++◌, All, length, map, insert,
  ◌-◌,
}
use aurexis.Decimal
use aurexis.Decimal.{Decimal, dec, ok}
use aurexis.Brain.MarketData.{Tick, Bar}
use aurexis.Brain.BarBuilder.{
  BarBuilder, process_tick, seed_closed_bars, merge, by_time, sort_bars, place,
}
use aurexis.Brain.BarBuilder.Prices.{HasCandles, IsCandle, Returns, process_tick-HasCandles}
use aurexis.Brain.BarBuilder.Timeline.{HasTimeline, returned, process_tick-HasTimeline}
use aurexis.Brain.BarBuilder.Seeds.{Ascending, seed_closed_bars-Ascending}
use aurexis.Brain.Structure.{
  SwingPoint, detect_swing_points, swings_from, swings_at, beats_window, analyze_structure, scaled,
  last_two, highs_of, lows_of,
}
use aurexis.Brain.Structure.Extremes.{StandsOut, detect_swing_points-StandsOut}
use aurexis.Brain.Structure.Swings.{detect_swing_points-append}
use aurexis.Brain.Structure.Readings.{Reading, analyze_structure-Reading}

abbrev minute_builder : BarBuilder
minute_builder = record {
  symbol = "XAUUSD";
  timeframe = "M1";
  interval_seconds = 60;
  running = some (record {
    start = 60000000;
    open_price = dec 2000 0;
    high_price = dec 2003 0;
    low_price = dec 1999 0;
    close_price = dec 2001 0;
    volume = dec 3 0;
  });
  closed_bars = [];
}

abbrev next_tick : Tick
next_tick = record {
  symbol = "XAUUSD";
  bid = dec 200200 2;
  ask = dec 200220 2;
  tick_time = 125000000;
  volume = none;
}

builder-HasCandles : HasCandles minute_builder
unfolding Decimal.leb_dec
builder-HasCandles = (((refl, refl), (refl, refl)), tt)

process_tick-HasCandles_example :
    (closed : Option Bar) × (b' : BarBuilder) × (process_tick minute_builder next_tick
      ≡ ok (closed, b'))
    × HasCandles b'
    × Returns IsCandle closed
process_tick-HasCandles_example =
    process_tick-HasCandles minute_builder next_tick builder-HasCandles

builder-HasTimeline : HasTimeline minute_builder
builder-HasTimeline = (tt, ((1, refl), tt))

process_tick-HasTimeline_example :
    (closed : Option Bar) × (b' : BarBuilder) × (process_tick minute_builder next_tick
      ≡ ok (closed, b'))
    × HasTimeline b'
    × (b'.closed_bars ≡ [] ++ returned closed)
process_tick-HasTimeline_example =
    process_tick-HasTimeline minute_builder next_tick builder-HasTimeline

abbrev bar_at : ℕ → ℕ → Bar
bar_at t price = record {
  symbol = "XAUUSD";
  timeframe = "M1";
  open_time = t;
  close_time = t + 60;
  open_price = dec price 0;
  high_price = dec (price + 1) 0;
  low_price = dec (price - 1) 0;
  close_price = dec price 0;
  volume = dec 1 0;
  is_closed = true;
}

abbrev seeds : List Bar
seeds = bar_at 180 2003 ∷ bar_at 60 2001 ∷ bar_at 180 2004 ∷ []

seeded_times :
    map (λ b. b.open_time) (seed_closed_bars seeds minute_builder).closed_bars ≡ 60 ∷ 180 ∷ []
unfolding seed_closed_bars merge by_time sort_bars place insert
seeded_times = refl

seed_closed_bars-Ascending_example :
    Ascending (seed_closed_bars seeds minute_builder).closed_bars
    × (length (seed_closed_bars seeds minute_builder).closed_bars ≤ 300)
seed_closed_bars-Ascending_example = seed_closed_bars-Ascending seeds minute_builder

abbrev series : List Bar
series = bar_at 0 2001 ∷ bar_at 60 2005 ∷ bar_at 120 2002 ∷ bar_at 180 2004 ∷ []

one_high : map (λ s. s.bar_index) (detect_swing_points series 1) ≡ 1 ∷ 2 ∷ []
unfolding detect_swing_points swings_from swings_at beats_window Decimal.ltb_dec
one_high = refl

detect_swing_points-append_example :
    (more : List SwingPoint) × (detect_swing_points (series ++ bar_at 240 2000 ∷ []) 1
      ≡ detect_swing_points series 1 ++ more)
    × All (λ s. 4 ≤ s.bar_index + 1) more
detect_swing_points-append_example = detect_swing_points-append series (bar_at 240 2000 ∷ []) 1

analyze_structure-Reading_example :
    let state = analyze_structure series 1 none (dec 30 2) in
    let swings = detect_swing_points series 1 in
    Reading
      (scaled none (dec 30 2))
      (last_two (highs_of swings))
      (last_two (lows_of swings))
      state.bias
      state.last_event
      state.structural_direction
analyze_structure-Reading_example = analyze_structure-Reading series 1 none (dec 30 2)

detect_swing_points-StandsOut_example :
    All (StandsOut 1 0 (bar_at 0 2001)) (detect_swing_points series 1)
detect_swing_points-StandsOut_example =
    detect_swing_points-StandsOut series 1 0 (bar_at 0 2001) refl
