-- ===== src/Brain/Regime/Entry.antt =====
-- Which regimes permit an entry: the classification fails closed.
use aurexis.Base.{
  ◌≤◌, ◌≡◌, refl, ◌⊎◌, inl, inr, Bool, true, false, ◌&&◌, Option, List, ltb, length, arith,
  Bool-cases, is_some,
}
use aurexis.Decimal.{Decimal, IfOk, bind-IfOk}
use aurexis.Brain.MarketData.{Bar}
use aurexis.Brain.Indicators.{calculate_ema, calculate_atr, calculate_rsi}
use aurexis.Brain.Indicators.Adx.{Adx, calculate_adx}
use aurexis.Brain.Scoring.{Volatility, RegimeContext, permits_new_entry}
use aurexis.Brain.Regime.{
  RegimeParameters, min_bars, is_neutral, is_weak, is_abnormal, regime_of, baseline_of,
  volatility_state, classified, classify_regime,
}

-- No entry, or bars enough, no abnormal volatility, and no weak trend in a direction.
abbrev pub Open : List Bar → RegimeParameters → RegimeContext → Type 0
Open bars p c =
    (permits_new_entry c ≡ false)
    ⊎ ((min_bars p ≤ length bars)
        × (is_abnormal c.volatility_state ≡ false)
        × ((is_weak c.trend_strength ≡ false) ⊎ (is_neutral c.trend_direction ≡ true)))

regime_of-Open :
    (has : Bool) (c : RegimeContext)
    → c.regime
      ≡ regime_of has c.trend_direction c.trend_strength c.momentum_state c.volatility_state
    → (permits_new_entry c ≡ false)
      ⊎ ((is_abnormal c.volatility_state ≡ false)
          × ((is_weak c.trend_strength ≡ false) ⊎ (is_neutral c.trend_direction ≡ true)))
unfolding regime_of permits_new_entry
regime_of-Open has c h = ground arith

module _ (bars : List Bar) (p : RegimeParameters)
    (enough : ltb (length bars) (min_bars p) ≡ false) where
  classified-Open :
      (fast slow rsi atr adx : Option Decimal) (v : Volatility)
      → Open bars p (classified p fast slow rsi atr adx v)
  unfolding classified
  classified-Open fast slow rsi atr adx v =
      elim (regime_of-Open (is_some fast && is_some slow) (classified p fast slow rsi atr adx v)
        refl) [ inl shut ↦ inl shut | inr (calm, firm) ↦ inr (ground (arith, enough), calm, firm) ]

-- A regime that permits a new entry was classified on at least the least number of bars, with a
-- volatility that is not abnormal, and with a trend that is not weak or has no direction.
pub classify_regime-Open :
    (bars : List Bar) (p : RegimeParameters) → IfOk (Open bars p) (classify_regime bars p)
unfolding classify_regime permits_new_entry
classify_regime-Open bars p = elim (Bool-cases (ltb (length bars) (min_bars p))) [
  | inl few ↦ rw few (inl refl)
  | inr enough ↦ rw enough (
      bind-IfOk (Open bars p) (calculate_ema bars p.fast_period) _ λ fast.
        bind-IfOk (Open bars p) (calculate_ema bars p.slow_period) _ λ slow.
          bind-IfOk (Open bars p) (calculate_rsi bars p.rsi_period) _ λ rsi.
            bind-IfOk (Open bars p) (calculate_atr bars p.atr_period) _ λ atr.
              bind-IfOk (Open bars p) (calculate_adx bars p.adx_period) _ λ (adx : Adx).
                bind-IfOk (Open bars p) (baseline_of bars p) _ λ baseline.
                  bind-IfOk (Open bars p) (volatility_state p atr baseline) _ λ volatility.
                    classified-Open bars p enough fast slow rsi atr adx.adx volatility)
]
