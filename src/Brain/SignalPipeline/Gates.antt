-- ===== src/Brain/SignalPipeline/Gates.antt =====
-- What a proposed direction rests on, through the whole of the signal pipeline.
use aurexis.Base.{ℕ, String, ◌≡◌, refl, ◌⊎◌, inl, inr, true, false, Option, List, Bool-cases}
use aurexis.Decimal.{Decimal, ok, IfOk, bind-IfOk, bind-IfOk_at, ltb_dec, value_or, dec}
use aurexis.Brain.Interfaces.{CandidateSignal, no_direction}
use aurexis.Brain.MarketData.{Tick, Bar}
use aurexis.Brain.Config.{BrainConfig, is_fully_configured}
use aurexis.Brain.Structure.{StructureState, analyze_structure}
use aurexis.Brain.Regime.{classify_regime}
use aurexis.Brain.Scoring.{RegimeContext, permits_new_entry}
use aurexis.Brain.Scoring.Signals.{spread}
use aurexis.Brain.Scoring.Verdicts.{Verdict, blocked, undirected, directed, evaluate-Verdict}
use aurexis.Brain.Indicators.{calculate_atr}
use aurexis.Brain.Setups.{detect_setup, SetupDetectionResult}
use aurexis.Brain.SignalPipeline.{
  all_closed, tick_too_old, regime_parameters, scorer_of, number_or, scored_signal, process,
}

-- No direction, or every gate before it is open.
abbrev pub Proposed : BrainConfig → ℕ → ℕ → Tick → List Bar → String → CandidateSignal → Type 0
Proposed c now received tick bars news signal =
    (signal.direction ≡ no_direction)
    ⊎ ((all_closed bars ≡ true)
        × (is_fully_configured c ≡ true)
        × (tick_too_old c now received ≡ false)
        × (news ≡ "CLEAR")
        × (ltb_dec (value_or c.max_spread_usd (dec 100 2)) (spread tick) ≡ false)
        × ((regime : RegimeContext) × (classify_regime bars (regime_parameters c) ≡ ok regime)
            × (permits_new_entry regime ≡ true)))

Verdict-Proposed :
    (c : BrainConfig) (now received : ℕ) (tick : Tick) (bars : List Bar) (news setup : String)
    (structure : StructureState) (regime : RegimeContext) (signal : CandidateSignal)
    → all_closed bars ≡ true
    → is_fully_configured c ≡ true
    → tick_too_old c now received ≡ false
    → classify_regime bars (regime_parameters c) ≡ ok regime
    → Verdict (scorer_of c) tick structure regime setup news signal
    → Proposed c now received tick bars news signal
unfolding scorer_of
Verdict-Proposed c now received tick bars news setup structure regime signal closed full fresh e v =
    go signal v
  where
    go :
        (signal : CandidateSignal)
        → Verdict (scorer_of c) tick structure regime setup news signal
        → Proposed c now received tick bars news signal
    go _ (blocked _) = inl refl
    go _ (undirected _ _) = inl refl
    go _ (directed d sl_tp clear narrow permits _ _ _ _ _) =
        inr (closed, full, fresh, clear, narrow, (regime, e, permits))

scored-Proposed :
    (c : BrainConfig) (now received : ℕ) (tick : Tick) (bars : List Bar) (news : String)
    → all_closed bars ≡ true
    → is_fully_configured c ≡ true
    → tick_too_old c now received ≡ false
    → IfOk (Proposed c now received tick bars news) (scored_signal c tick bars news)
unfolding scored_signal
scored-Proposed c now received tick bars news closed full fresh =
    bind-IfOk P (calculate_atr bars (number_or c.volatility.atr_period 14)) _ λ atr.
      bind-IfOk_at P (classify_regime bars (regime_parameters c)) _ λ regime e.
        bind-IfOk P
          (detect_setup bars (structure_at atr) atr
            (value_or c.breakout.min_displacement_atr (dec 30 2)))
          _
          λ (setup : SetupDetectionResult).
            Verdict-Proposed c now received tick bars news setup.setup_type (structure_at atr)
              regime _ closed full fresh e
              (evaluate-Verdict (scorer_of c) tick (structure_at atr) regime setup.setup_type news)
  where
    P : CandidateSignal → Type 0
    P = Proposed c now received tick bars news

    structure_at : Option Decimal → StructureState
    structure_at atr =
        analyze_structure bars (number_or c.structure.swing_lookback_bars 3) atr
          (value_or c.structure.min_bos_atr_multiplier (dec 30 2))

-- A signal of the pipeline has no direction, or all of the following hold: there are bars and all are
-- closed, the configuration is complete, the tick is not too old, the news state is "CLEAR", the
-- spread is within its limit, and the bars were classified into a regime that permits a new entry.
pub process-Proposed :
    (c : BrainConfig) (now received : ℕ) (tick : Tick) (bars : List Bar) (news : String)
    → IfOk (Proposed c now received tick bars news) (process c now received tick bars news)
unfolding process
process-Proposed c now received tick bars news = elim (Bool-cases (all_closed bars)) [
  | inr open_bar ↦ rw (open_bar, process) (inl refl)
  | inl closed ↦ elim (Bool-cases (is_fully_configured c)) [
    | inr partial ↦ rw (closed, partial, process) (inl refl)
    | inl full ↦ elim (Bool-cases (tick_too_old c now received)) [
      | inl old ↦ rw (closed, full, old, process) (inl refl)
      | inr fresh ↦
          rw (closed, full, fresh, process)
            (scored-Proposed c now received tick bars news closed full fresh)
    ]
  ]
]
