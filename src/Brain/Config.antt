-- ===== src/Brain/Config.antt =====
-- brain/config.py: the parameters of the strategy. A parameter that is `None` is undefined. The
-- daily risk parameters, which no modelled code reads, are left out.
use aurexis.Base.{ℕ, String, Bool, ◌&&◌, Option, some, is_some}
use aurexis.Decimal.{Decimal, dec}

pub record StructureConfig : Type 0 where
  pub swing_lookback_bars : Option ℕ
  pub min_bos_atr_multiplier : Option Decimal
  pub equal_level_tolerance_atr : Option Decimal
  pub max_level_age_bars : Option ℕ

pub record RegimeConfig : Type 0 where
  pub adx_period : Option ℕ
  pub trending_threshold : Option Decimal
  pub regime_confirmation_bars : Option ℕ
  pub volatility_baseline_bars : Option ℕ
  pub volatility_normal_ratio : Option Decimal
  pub volatility_high_ratio : Option Decimal

pub record TrendConfig : Type 0 where
  pub fast_ma_period : Option ℕ
  pub slow_ma_period : Option ℕ
  pub trend_consistency_bars : Option ℕ

pub record MomentumConfig : Type 0 where
  pub rsi_period : Option ℕ
  pub rsi_overbought : Option Decimal
  pub rsi_oversold : Option Decimal
  pub rsi_bullish_min : Option Decimal
  pub rsi_bearish_max : Option Decimal

pub record VolatilityConfig : Type 0 where
  pub atr_period : Option ℕ
  pub atr_baseline_bars : Option ℕ
  pub normal_ratio_upper : Option Decimal
  pub abnormal_high_ratio : Option Decimal
  pub max_atr_threshold_usd : Option Decimal

pub record BreakoutConfig : Type 0 where
  pub breakout_confirmation_bars : Option ℕ
  pub min_displacement_atr : Option Decimal
  pub setup_expiry_bars : Option ℕ
  pub fakeout_reversal_bars : Option ℕ

pub record ScoringConfig : Type 0 where
  pub min_confidence_threshold : Option Decimal
  pub weight_structure : Option Decimal
  pub weight_trend : Option Decimal
  pub weight_setup : Option Decimal
  pub weight_momentum : Option Decimal
  pub weight_volatility : Option Decimal
  pub weight_regime : Option Decimal

pub record SlTpConfig : Type 0 where
  pub sl_atr_buffer : Option Decimal
  pub min_sl_atr : Option Decimal
  pub rr_target : Option Decimal
  pub min_rr : Option Decimal

pub record BrainConfig : Type 0 where
  pub strategy_id : String
  pub strategy_version : String
  pub structure : StructureConfig
  pub regime : RegimeConfig
  pub trend : TrendConfig
  pub momentum : MomentumConfig
  pub volatility : VolatilityConfig
  pub breakout : BreakoutConfig
  pub scoring : ScoringConfig
  pub sl_tp : SlTpConfig
  pub max_spread_usd : Option Decimal
  pub max_tick_staleness_ms : Option ℕ

unfoldable pub is_fully_configured : BrainConfig → Bool
is_fully_configured c =
    is_some c.structure.swing_lookback_bars
    && (is_some c.regime.adx_period
        && (is_some c.regime.trending_threshold
            && (is_some c.trend.fast_ma_period
                && (is_some c.trend.slow_ma_period
                    && (is_some c.momentum.rsi_period
                        && (is_some c.volatility.atr_period
                            && is_some c.scoring.min_confidence_threshold))))))

abbrev pub default_strat_config : BrainConfig
default_strat_config = record {
  strategy_id = "AUREXIS_CORE";
  strategy_version = "AUREXIS-STRAT-1.0.0";
  structure = record {
    swing_lookback_bars = some 3;
    min_bos_atr_multiplier = some (dec 30 2);
    equal_level_tolerance_atr = some (dec 10 2);
    max_level_age_bars = some 100;
  };
  regime = record {
    adx_period = some 14;
    trending_threshold = some (dec 20 0);
    regime_confirmation_bars = some 2;
    volatility_baseline_bars = some 50;
    volatility_normal_ratio = some (dec 150 2);
    volatility_high_ratio = some (dec 200 2);
  };
  trend = record {
    fast_ma_period = some 20;
    slow_ma_period = some 50;
    trend_consistency_bars = some 3;
  };
  momentum = record {
    rsi_period = some 14;
    rsi_overbought = some (dec 70 0);
    rsi_oversold = some (dec 30 0);
    rsi_bullish_min = some (dec 52 0);
    rsi_bearish_max = some (dec 48 0);
  };
  volatility = record {
    atr_period = some 14;
    atr_baseline_bars = some 50;
    normal_ratio_upper = some (dec 150 2);
    abnormal_high_ratio = some (dec 200 2);
    max_atr_threshold_usd = some (dec 1500 2);
  };
  breakout = record {
    breakout_confirmation_bars = some 1;
    min_displacement_atr = some (dec 30 2);
    setup_expiry_bars = some 3;
    fakeout_reversal_bars = some 1;
  };
  scoring = record {
    min_confidence_threshold = some (dec 70 2);
    weight_structure = some (dec 25 2);
    weight_trend = some (dec 20 2);
    weight_setup = some (dec 25 2);
    weight_momentum = some (dec 10 2);
    weight_volatility = some (dec 10 2);
    weight_regime = some (dec 10 2);
  };
  sl_tp = record {
    sl_atr_buffer = some (dec 50 2);
    min_sl_atr = some (dec 30 2);
    rr_target = some (dec 20 1);
    min_rr = some (dec 15 1);
  };
  max_spread_usd = some (dec 100 2);
  max_tick_staleness_ms = some 2000;
}
