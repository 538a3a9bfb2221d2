-- ===== src/Tests/Indicators.antt =====
-- The indicators, the regime and the signal pipeline at concrete inputs.
use aurexis.Base.{ℕ, ◌+◌, ◌-◌, ◌≡◌, refl, ◌⊎◌, true, false, none, some, List, [], ◌∷◌, ◌++◌}
use aurexis.Decimal
use aurexis.Decimal.{Decimal, dec, Checked, ok, IfOk}
use aurexis.Decimal.Signs.{IsNonneg}
use aurexis.Brain.MarketData.{Tick, Bar}
use aurexis.Brain.Config.{default_strat_config}
use aurexis.Brain.Indicators.{
  too_few, found, calculate_rsi, sum_from, wilder_from, calculate_atr, wilder, wilder_step,
  true_range, true_ranges,
}
use aurexis.Brain.Indicators.Streams.{last_bar, calculate_atr-append}
use aurexis.Brain.Indicators.Totality.{calculate_atr_total, calculate_rsi_total}
use aurexis.Brain.Regime.{classify_regime}
use aurexis.Brain.Regime.Entry.{Open}
use aurexis.Brain.Regime.Totality.{classify_regime_lem}
use aurexis.Brain.Scoring.{RegimeContext}
use aurexis.Brain.SignalPipeline.{regime_parameters, process}
use aurexis.Brain.SignalPipeline.Gates.{Proposed}
use aurexis.Brain.SignalPipeline.Totality.{process_gated}
use aurexis.Brain.Interfaces.{CandidateSignal}

abbrev hour_bar : ℕ → ℕ → Bar
hour_bar t price = record {
  symbol = "XAUUSD";
  timeframe = "H1";
  open_time = t;
  close_time = t + 3600;
  open_price = dec price 0;
  high_price = dec (price + 3) 0;
  low_price = dec (price - 2) 0;
  close_price = dec (price + 1) 0;
  volume = dec 1 0;
  is_closed = true;
}

abbrev later_bars : List Bar
later_bars = hour_bar 3600 2004 ∷ hour_bar 7200 2001 ∷ []

abbrev hours : List Bar
hours = hour_bar 0 2000 ∷ later_bars

calculate_atr_total_example :
    ((too_few hours 3 2 ≡ true) × (calculate_atr hours 2 ≡ ok none))
    ⊎ ((too_few hours 3 2 ≡ false)
        × ((a : Decimal) × (calculate_atr hours 2 ≡ ok (some a)) × IsNonneg a))
calculate_atr_total_example = calculate_atr_total (hour_bar 0 2000) later_bars 2

abbrev range_of_hours : Decimal
range_of_hours = dec 6000000000000000000000000000 27

range_of_hours_lem : calculate_atr hours 2 ≡ ok (some range_of_hours)
unfolding calculate_atr wilder true_ranges wilder_step sum_from wilder_from Decimal.div Decimal.add
    Decimal.max_dec Decimal.sub Decimal.abs
range_of_hours_lem = refl

calculate_atr-append_example :
    calculate_atr (hours ++ hour_bar 10800 2003 ∷ []) 2
    ≡ found (
        wilder_step 2 range_of_hours
          (true_range (last_bar (hour_bar 0 2000) later_bars) (hour_bar 10800 2003)))
calculate_atr-append_example =
    calculate_atr-append (hour_bar 0 2000) later_bars (hour_bar 10800 2003) 2 range_of_hours
      range_of_hours_lem

classify_regime_lem_example :
    (c : RegimeContext) × (classify_regime hours (regime_parameters default_strat_config) ≡ ok c)
    × Open hours (regime_parameters default_strat_config) c
unfolding regime_parameters
classify_regime_lem_example =
    classify_regime_lem hours (regime_parameters default_strat_config) refl

abbrev hour_tick : Tick
hour_tick = record {
  symbol = "XAUUSD";
  bid = dec 200200 2;
  ask = dec 200220 2;
  tick_time = 10900000000;
  volume = none;
}

process_gated_example :
    (signal : CandidateSignal) × (process default_strat_config 10901000000 10900500000 hour_tick
        hours "CLEAR"
      ≡ ok signal)
    × Proposed default_strat_config 10901000000 10900500000 hour_tick hours "CLEAR" signal
process_gated_example =
    process_gated default_strat_config 10901000000 10900500000 hour_tick hours "CLEAR"

calculate_rsi_total_example :
    ((too_few hours 3 2 ≡ true) × (calculate_rsi hours 2 ≡ ok none))
    ⊎ ((too_few hours 3 2 ≡ false) × ((x : Decimal) × (calculate_rsi hours 2 ≡ ok (some x))))
calculate_rsi_total_example = calculate_rsi_total (hour_bar 0 2000) later_bars 2
