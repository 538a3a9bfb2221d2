-- ===== src/Brain/SignalPipeline.antt =====
-- `SignalPipeline` of brain/pipeline.py: closed bars and a tick into a candidate signal. The clock
-- and the time when the tick was received are arguments, and its age is compared exactly, not in
-- floats. The correlation id and the setup that are attached to the signal are left out, and so are
-- its texts.
pub mod Gates
pub mod Totality
use aurexis.Base.{
  ℕ, String, Bool, true, false, not, ◌||◌, Option, none, some, List, [], ◌∷◌, ◌==◌, all, ltb, ◌+◌,
  ◌*◌, if◌then◌else◌,
}
use aurexis.Decimal.{Decimal, dec, Checked, ok, ◌>>=◌, value_or}
use aurexis.Brain.Interfaces.{CandidateSignal, SignalDirection}
use aurexis.Brain.MarketData.{Tick, Bar}
use aurexis.Brain.Config.{BrainConfig, is_fully_configured}
use aurexis.Brain.Indicators.{calculate_atr}
use aurexis.Brain.Structure.{analyze_structure}
use aurexis.Brain.Regime.{RegimeParameters, classify_regime}
use aurexis.Brain.Setups.{detect_setup}
use aurexis.Brain.Scoring.{MultiFactorScorer}
use aurexis.Brain.Scoring.Signals.{evaluate}

-- `period or default`: zero counts as missing.
abbrev pub number_or : Option ℕ → ℕ → ℕ
number_or none default = default
number_or (some n) default = if n == 0 then default else n

abbrev pub no_direction_signal : BrainConfig → String → Bool → CandidateSignal
no_direction_signal c symbol configured = record {
  symbol = symbol;
  direction = SignalDirection.no_direction;
  confidence_score = none;
  suggested_stop_loss = none;
  suggested_take_profit = none;
  strategy_id = c.strategy_id;
  strategy_version = c.strategy_version;
  is_configured = configured;
  entry_reference = none;
}

-- `_empty_signal`
abbrev pub empty_signal : BrainConfig → String → CandidateSignal
empty_signal c symbol = no_direction_signal c symbol (is_fully_configured c)

-- `staleness_ms > max_stale_ms`, where a limit is set.
abbrev pub tick_too_old : BrainConfig → ℕ → ℕ → Bool
tick_too_old c now received_at = elim c.max_tick_staleness_ms [
  | none ↦ false
  | some limit ↦ ltb (received_at + limit * 1000) now
]

unfoldable pub regime_parameters : BrainConfig → RegimeParameters
regime_parameters c = record {
  fast_period = number_or c.trend.fast_ma_period 20;
  slow_period = number_or c.trend.slow_ma_period 50;
  rsi_period = number_or c.momentum.rsi_period 14;
  atr_period = number_or c.volatility.atr_period 14;
  adx_period = number_or c.regime.adx_period 14;
  trending_threshold = value_or c.regime.trending_threshold (dec 20 0);
  rsi_bullish_min = value_or c.momentum.rsi_bullish_min (dec 52 0);
  rsi_bearish_max = value_or c.momentum.rsi_bearish_max (dec 48 0);
  rsi_overbought = value_or c.momentum.rsi_overbought (dec 70 0);
  rsi_oversold = value_or c.momentum.rsi_oversold (dec 30 0);
  atr_baseline_bars = number_or c.volatility.atr_baseline_bars 50;
  volatility_normal_ratio = value_or c.volatility.normal_ratio_upper (dec 150 2);
  volatility_high_ratio = value_or c.volatility.abnormal_high_ratio (dec 200 2);
  max_atr_threshold = c.volatility.max_atr_threshold_usd;
}

unfoldable pub scorer_of : BrainConfig → MultiFactorScorer
scorer_of c = record {
  strategy_id = c.strategy_id;
  strategy_version = c.strategy_version;
  min_conf = value_or c.scoring.min_confidence_threshold (dec 70 2);
  w_st = value_or c.scoring.weight_structure (dec 25 2);
  w_tr = value_or c.scoring.weight_trend (dec 20 2);
  w_se = value_or c.scoring.weight_setup (dec 25 2);
  w_mo = value_or c.scoring.weight_momentum (dec 10 2);
  w_vo = value_or c.scoring.weight_volatility (dec 10 2);
  w_re = value_or c.scoring.weight_regime (dec 10 2);
  sl_buffer = value_or c.sl_tp.sl_atr_buffer (dec 50 2);
  min_sl_atr = value_or c.sl_tp.min_sl_atr (dec 30 2);
  rr = value_or c.sl_tp.rr_target (dec 20 1);
  max_spread = value_or c.max_spread_usd (dec 100 2);
}

-- Stages 4 to 8.
unfoldable pub scored_signal : BrainConfig → Tick → List Bar → String → Checked CandidateSignal
scored_signal c tick bars news_state = do
  atr ← calculate_atr bars (number_or c.volatility.atr_period 14)
  let structure =
      analyze_structure bars (number_or c.structure.swing_lookback_bars 3) atr
        (value_or c.structure.min_bos_atr_multiplier (dec 30 2))
  regime ← classify_regime bars (regime_parameters c)
  setup ← detect_setup bars structure atr (value_or c.breakout.min_displacement_atr (dec 30 2))
  ok (evaluate (scorer_of c) tick structure regime news_state setup.setup_type)

-- `not closed_bars or not all(b.is_closed for b in closed_bars)`
abbrev pub all_closed : List Bar → Bool
all_closed [] = false
all_closed (bar ∷ bars) = all (λ b. b.is_closed) (bar ∷ bars)

unfoldable pub process : BrainConfig → ℕ → ℕ → Tick → List Bar → String → Checked CandidateSignal
process c now received_at tick bars news_state =
    if not (all_closed bars)
    then ok (empty_signal c tick.symbol)
    else if not (is_fully_configured c)
    then ok (no_direction_signal c tick.symbol false)
    else if tick_too_old c now received_at
    then ok (empty_signal c tick.symbol)
    else scored_signal c tick bars news_state
