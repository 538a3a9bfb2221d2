-- ===== src/Brain/SignalPipeline/Totality.antt =====
-- The pipeline returns a signal, whatever the configuration, the bars and the tick are.
use aurexis.Base.{
  ℕ, String, ◌≡◌, refl, inl, inr, false, not, Option, none, some, List, ◌==◌, magnitude, Bool-cases,
  subst,
}
use aurexis.Decimal.{Decimal, dec, ok, IfOk, value_or}
use aurexis.Brain.Interfaces.{CandidateSignal}
use aurexis.Brain.MarketData.{Tick, Bar}
use aurexis.Brain.Config.{BrainConfig, is_fully_configured}
use aurexis.Brain.Indicators.{calculate_atr}
use aurexis.Decimal.Returning.{Returns, bind-Returns, if-Returns}
use aurexis.Brain.Indicators.Returning.{calculate_atr-Returns}
use aurexis.Brain.Structure.{StructureState, analyze_structure}
use aurexis.Brain.Regime.{classify_regime}
use aurexis.Brain.Regime.Totality.{classify_regime-Returns}
use aurexis.Brain.Setups.{SetupDetectionResult, detect_setup}
use aurexis.Brain.Setups.Totality.{detect_setup-Returns}
use aurexis.Brain.Scoring.{RegimeContext}
use aurexis.Brain.Scoring.Signals.{evaluate}
use aurexis.Brain.SignalPipeline.{
  number_or, all_closed, tick_too_old, regime_parameters, scorer_of, scored_signal, process,
}
use aurexis.Brain.SignalPipeline.Gates.{Proposed, process-Proposed}

value_or_nonzero :
    (x : Option Decimal) (default : Decimal)
    → (magnitude default.coeff == 0) ≡ false
    → (magnitude (value_or x default).coeff == 0) ≡ false
value_or_nonzero none default h = h
value_or_nonzero (some x) default h = elim (Bool-cases (magnitude x.coeff == 0)) [
  | inl zero_value ↦ rw zero_value h
  | inr nonzero ↦ rw nonzero nonzero
]

regime_parameters_nonzero :
    (c : BrainConfig) → (magnitude (regime_parameters c).volatility_normal_ratio.coeff == 0) ≡ false
unfolding regime_parameters
regime_parameters_nonzero c = value_or_nonzero c.volatility.normal_ratio_upper (dec 150 2) refl

scored_signal-Returns :
    (c : BrainConfig) (tick : Tick) (bars : List Bar) (news : String)
    → Returns (scored_signal c tick bars news)
unfolding scored_signal
scored_signal-Returns c tick bars news =
    bind-Returns (calculate_atr bars (number_or c.volatility.atr_period 14)) _
      (calculate_atr-Returns bars (number_or c.volatility.atr_period 14))
      λ atr.
        bind-Returns (classify_regime bars (regime_parameters c)) _
          (classify_regime-Returns (regime_parameters c) (regime_parameters_nonzero c) bars)
          λ (regime : RegimeContext).
            bind-Returns
              (detect_setup bars (structure_at atr) atr
                (value_or c.breakout.min_displacement_atr (dec 30 2)))
              (λ setup.
                ok (evaluate (scorer_of c) tick (structure_at atr) regime news setup.setup_type))
              (detect_setup-Returns bars (structure_at atr) atr
                (value_or c.breakout.min_displacement_atr (dec 30 2)))
              λ (setup : SetupDetectionResult).
                (evaluate (scorer_of c) tick (structure_at atr) regime news setup.setup_type, refl)
  where
    structure_at : Option Decimal → StructureState
    structure_at atr =
        analyze_structure bars (number_or c.structure.swing_lookback_bars 3) atr
          (value_or c.structure.min_bos_atr_multiplier (dec 30 2))

pub process-Returns :
    (c : BrainConfig) (now received : ℕ) (tick : Tick) (bars : List Bar) (news : String)
    → Returns (process c now received tick bars news)
unfolding process
process-Returns c now received tick bars news =
    if-Returns (not (all_closed bars)) _ _ (λ h. (_, refl))
      λ closed.
        if-Returns (not (is_fully_configured c)) _ _ (λ h. (_, refl))
          λ full.
            if-Returns (tick_too_old c now received) _ _ (λ h. (_, refl))
              λ fresh. scored_signal-Returns c tick bars news

-- The pipeline always returns a signal. It has no direction, or all of the following hold: there are
-- bars and all are closed, the configuration is complete, the tick is not too old, the news state is
-- "CLEAR", the spread is within its limit, and the bars were classified into a regime that permits a
-- new entry.
pub process_gated :
    (c : BrainConfig) (now received : ℕ) (tick : Tick) (bars : List Bar) (news : String)
    → (signal : CandidateSignal) × (process c now received tick bars news ≡ ok signal)
      × Proposed c now received tick bars news signal
process_gated c now received tick bars news =
    let (signal, e) = process-Returns c now received tick bars news in
    (
      signal,
      e,
      subst (IfOk (Proposed c now received tick bars news)) e
          (process-Proposed c now received tick bars news),
    )
