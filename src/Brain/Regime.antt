-- ===== src/Brain/Regime.antt =====
-- `classify_regime` of brain/regime.py: the indicators into the states of a regime. The fields of
-- the context that the scorer does not read are left out.
pub mod Entry
pub mod Totality
use aurexis.Base.{
  ℕ, ◌+◌, max, Bool, true, false, not, ◌&&◌, ◌||◌, Option, none, some, List, ltb, leb, length,
  is_some, if◌then◌else◌,
}
use aurexis.Decimal
use aurexis.Decimal.{Decimal, dec, dec_zero, Checked, ok, ◌>>=◌, ltb_dec, leb_dec}
use aurexis.Brain.MarketData.{Bar}
use aurexis.Brain.Indicators.{calculate_ema, calculate_atr, calculate_rsi, calculate_atr_baseline}
use aurexis.Brain.Indicators.Adx.{calculate_adx}
use aurexis.Brain.Scoring.{
  Regime, trend_up, trend_down, range, transition, high_volatility, Trend, TrendStrength, trending,
  weak, Momentum, exhausted, Volatility, normal, expanding, contracting, abnormal_high,
  RegimeContext,
}

pub record RegimeParameters : Type 0 where
  pub fast_period : ℕ
  pub slow_period : ℕ
  pub rsi_period : ℕ
  pub atr_period : ℕ
  pub adx_period : ℕ
  pub trending_threshold : Decimal
  pub rsi_bullish_min : Decimal
  pub rsi_bearish_max : Decimal
  pub rsi_overbought : Decimal
  pub rsi_oversold : Decimal
  pub atr_baseline_bars : ℕ
  pub volatility_normal_ratio : Decimal
  pub volatility_high_ratio : Decimal
  pub max_atr_threshold : Option Decimal

unfoldable pub min_bars : RegimeParameters → ℕ
min_bars p = max (max p.slow_period (p.rsi_period + 1)) (p.atr_period + 1)

-- `_unknown`
abbrev pub unknown_context : RegimeContext
unknown_context = record {
  regime = Regime.unknown;
  trend_direction = Trend.neutral;
  trend_strength = TrendStrength.unknown;
  momentum_state = Momentum.neutral;
  atr = none;
  volatility_state = Volatility.unknown;
}

unfoldable pub trend_direction : Option Decimal → Option Decimal → Trend
trend_direction (some fast) (some slow) =
    if ltb_dec slow fast
    then Trend.bullish
    else if ltb_dec fast slow
    then Trend.bearish
    else Trend.neutral
trend_direction (some fast) none = Trend.neutral
trend_direction none slow = Trend.neutral

abbrev pub is_neutral : Trend → Bool
is_neutral Trend.neutral = true
is_neutral _ = false

unfoldable pub trend_strength : RegimeParameters → Option Decimal → Trend → TrendStrength
trend_strength p (some adx) t = if leb_dec p.trending_threshold adx then trending else weak
trend_strength p none t = if is_neutral t then TrendStrength.unknown else trending

-- `trend_dir == "BULLISH" and rsi >= rsi_overbought or trend_dir == "BEARISH" and rsi <= …`
abbrev overdone : RegimeParameters → Trend → Decimal → Bool
overdone p Trend.bullish rsi = leb_dec p.rsi_overbought rsi
overdone p Trend.bearish rsi = leb_dec rsi p.rsi_oversold
overdone p Trend.neutral rsi = false

unfoldable pub momentum_state : RegimeParameters → Trend → Option Decimal → Momentum
momentum_state p t none = Momentum.neutral
momentum_state p t (some rsi) =
    if overdone p t rsi
    then exhausted
    else if leb_dec p.rsi_bullish_min rsi
    then Momentum.bullish
    else if leb_dec rsi p.rsi_bearish_max
    then Momentum.bearish
    else Momentum.neutral

-- `max_atr_threshold is not None and atr > max_atr_threshold`
abbrev pub over_threshold : Option Decimal → Decimal → Volatility
over_threshold none atr = normal
over_threshold (some limit) atr = if ltb_dec limit atr then abnormal_high else normal

abbrev pub by_ratio : RegimeParameters → Decimal → Decimal → Volatility
by_ratio p ratio inverse =
    if leb_dec p.volatility_high_ratio ratio
    then abnormal_high
    else if leb_dec p.volatility_normal_ratio ratio
    then expanding
    else if ltb_dec ratio inverse
    then contracting
    else normal

-- The inverse is computed only where it is compared.
abbrev pub ratio_state : RegimeParameters → Decimal → Checked Volatility
ratio_state p ratio =
    if leb_dec p.volatility_high_ratio ratio || leb_dec p.volatility_normal_ratio ratio
    then ok (by_ratio p ratio dec_zero)
    else (do
      inverse ← Decimal.div (dec 1 0) p.volatility_normal_ratio
      ok (by_ratio p ratio inverse))

abbrev pub against_baseline : RegimeParameters → Decimal → Option Decimal → Checked Volatility
against_baseline p atr none = ok (over_threshold p.max_atr_threshold atr)
against_baseline p atr (some baseline) =
    if ltb_dec dec_zero baseline
    then (do ratio ← Decimal.div atr baseline; ratio_state p ratio)
    else ok (over_threshold p.max_atr_threshold atr)

unfoldable pub volatility_state :
    RegimeParameters → Option Decimal → Option Decimal → Checked Volatility
volatility_state p none baseline = ok normal
volatility_state p (some atr) baseline = against_baseline p atr baseline

-- `trend_dir == t and trend_str == "TRENDING" and mom_state in (same, "NEUTRAL")`
abbrev runs_up : Trend → TrendStrength → Momentum → Bool
runs_up Trend.bullish trending Momentum.bullish = true
runs_up Trend.bullish trending Momentum.neutral = true
runs_up _ _ _ = false

abbrev runs_down : Trend → TrendStrength → Momentum → Bool
runs_down Trend.bearish trending Momentum.bearish = true
runs_down Trend.bearish trending Momentum.neutral = true
runs_down _ _ _ = false

abbrev pub is_weak : TrendStrength → Bool
is_weak weak = true
is_weak _ = false

abbrev pub is_abnormal : Volatility → Bool
is_abnormal abnormal_high = true
is_abnormal _ = false

unfoldable pub regime_of : Bool → Trend → TrendStrength → Momentum → Volatility → Regime
regime_of has_averages t s m v =
    if is_abnormal v
    then high_volatility
    else if not has_averages
    then Regime.unknown
    else if runs_up t s m
    then trend_up
    else if runs_down t s m
    then trend_down
    else if is_weak s && not (is_neutral t)
    then transition
    else range

abbrev pub baseline_of : List Bar → RegimeParameters → Checked (Option Decimal)
baseline_of bars p =
    if leb (p.atr_period + 1 + p.atr_baseline_bars) (length bars)
    then calculate_atr_baseline bars p.atr_period p.atr_baseline_bars
    else ok none

unfoldable pub classified :
    RegimeParameters
    → Option Decimal
    → Option Decimal
    → Option Decimal
    → Option Decimal
    → Option Decimal
    → Volatility
    → RegimeContext
unfolding trend_direction trend_strength momentum_state regime_of
classified p fast slow rsi atr adx volatility =
    let t = trend_direction fast slow in
    let s = trend_strength p adx t in
    let m = momentum_state p t rsi in
    record {
      regime = regime_of (is_some fast && is_some slow) t s m volatility;
      trend_direction = t;
      trend_strength = s;
      momentum_state = m;
      atr = atr;
      volatility_state = volatility;
    }

unfoldable pub classify_regime : List Bar → RegimeParameters → Checked RegimeContext
classify_regime bars p = if ltb (length bars) (min_bars p) then ok unknown_context else (do
  fast ← calculate_ema bars p.fast_period
  slow ← calculate_ema bars p.slow_period
  rsi ← calculate_rsi bars p.rsi_period
  atr ← calculate_atr bars p.atr_period
  adx ← calculate_adx bars p.adx_period
  baseline ← baseline_of bars p
  volatility ← volatility_state p atr baseline
  ok (classified p fast slow rsi atr adx.adx volatility))
