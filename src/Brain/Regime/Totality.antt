-- ===== src/Brain/Regime/Totality.antt =====
-- The classification returns, whatever the bars are.
use aurexis.Base.{
  ◌+◌, ◌≡◌, refl, ◌||◌, false, Option, none, some, List, ltb, leb, length, ◌==◌, magnitude, subst,
}
use aurexis.Decimal.{Decimal, dec, dec_zero, ok, div, IfOk, ltb_dec, leb_dec}
use aurexis.Decimal.Signs.{div_returns, positive-nonzero}
use aurexis.Brain.MarketData.{Bar}
use aurexis.Brain.Indicators.{calculate_ema, calculate_atr, calculate_rsi}
use aurexis.Brain.Indicators.Adx.{Adx, calculate_adx}
use aurexis.Decimal.Returning.{Returns, bind-Returns, if-Returns}
use aurexis.Brain.Indicators.Returning.{
  calculate_ema-Returns, calculate_atr-Returns, calculate_rsi-Returns, calculate_adx-Returns,
  calculate_atr_baseline-Returns,
}
use aurexis.Brain.Scoring.{RegimeContext}
use aurexis.Brain.Regime.Entry.{Open, classify_regime-Open}
use aurexis.Brain.Regime.{
  RegimeParameters, min_bars, unknown_context, over_threshold, by_ratio, ratio_state,
  against_baseline, volatility_state, baseline_of, classified, classify_regime,
}

baseline_of-Returns : (bars : List Bar) (p : RegimeParameters) → Returns (baseline_of bars p)
baseline_of-Returns bars p =
    if-Returns (leb (p.atr_period + 1 + p.atr_baseline_bars) (length bars)) _ (ok none)
      (λ enough. calculate_atr_baseline-Returns bars p.atr_period p.atr_baseline_bars)
      (λ few. (none, refl))

module _ (p : RegimeParameters)
    (nonzero : (magnitude p.volatility_normal_ratio.coeff == 0) ≡ false) where
  ratio_state-Returns : (ratio : Decimal) → Returns (ratio_state p ratio)
  ratio_state-Returns ratio =
      if-Returns (leb_dec p.volatility_high_ratio ratio || leb_dec p.volatility_normal_ratio ratio)
        _ _ (λ high. (by_ratio p ratio dec_zero, refl))
        λ low.
          bind-Returns (div (dec 1 0) p.volatility_normal_ratio)
            (λ inverse. ok (by_ratio p ratio inverse))
            (div_returns (dec 1 0) p.volatility_normal_ratio nonzero)
            (λ inverse. (by_ratio p ratio inverse, refl))

  against_baseline-Returns :
      (atr : Decimal) (baseline : Option Decimal) → Returns (against_baseline p atr baseline)
  against_baseline-Returns atr none = (_, refl)
  against_baseline-Returns atr (some baseline) =
      if-Returns (ltb_dec dec_zero baseline) _ (ok (over_threshold p.max_atr_threshold atr))
        (λ positive.
          bind-Returns (div atr baseline) (ratio_state p)
            (div_returns atr baseline (positive-nonzero baseline positive)) ratio_state-Returns)
        (λ flat. (_, refl))

  volatility_state-Returns :
      (atr baseline : Option Decimal) → Returns (volatility_state p atr baseline)
  unfolding volatility_state
  volatility_state-Returns none baseline = (_, refl)
  volatility_state-Returns (some atr) baseline = against_baseline-Returns atr baseline

  -- The classification raises nothing where the ratio of a normal volatility is not zero.
  pub classify_regime-Returns : (bars : List Bar) → Returns (classify_regime bars p)
  unfolding classify_regime
  classify_regime-Returns bars =
      if-Returns (ltb (length bars) (min_bars p)) (ok unknown_context) _
        (λ few. (unknown_context, refl))
        λ enough.
          bind-Returns (calculate_ema bars p.fast_period) _
            (calculate_ema-Returns bars p.fast_period)
            λ fast.
              bind-Returns (calculate_ema bars p.slow_period) _
                (calculate_ema-Returns bars p.slow_period)
                λ slow.
                  bind-Returns (calculate_rsi bars p.rsi_period) _
                    (calculate_rsi-Returns bars p.rsi_period)
                    λ rsi.
                      bind-Returns (calculate_atr bars p.atr_period) _
                        (calculate_atr-Returns bars p.atr_period)
                        λ atr.
                          bind-Returns (calculate_adx bars p.adx_period) _
                            (calculate_adx-Returns bars p.adx_period)
                            λ (adx : Adx).
                              bind-Returns (baseline_of bars p) _ (baseline_of-Returns bars p)
                                λ baseline.
                                  bind-Returns (volatility_state p atr baseline)
                                    (λ volatility.
                                      ok (classified p fast slow rsi atr adx.adx volatility))
                                    (volatility_state-Returns atr baseline)
                                    λ volatility.
                                      (classified p fast slow rsi atr adx.adx volatility, refl)

-- Where the ratio of a normal volatility is not zero, a regime is returned. One that permits a new
-- entry was classified on at least the least number of bars, with a volatility that is not abnormal,
-- and with a trend that is not weak or has no direction.
pub classify_regime_lem :
    (bars : List Bar) (p : RegimeParameters)
    → (magnitude p.volatility_normal_ratio.coeff == 0) ≡ false
    → (c : RegimeContext) × (classify_regime bars p ≡ ok c) × Open bars p c
classify_regime_lem bars p nonzero =
    let (c, e) = classify_regime-Returns p nonzero bars in
    (c, e, subst (IfOk (Open bars p)) e (classify_regime-Open bars p))
