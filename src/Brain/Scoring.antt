-- ===== src/Brain/Scoring.antt =====
-- brain/scoring.py: the evidence of six dimensions into one score for each side, and the signal. The
-- states of the market's regime (`RegimeContext` of brain/regime.py) are data types with a
-- constructor for each text. The texts of the signal are left out.
pub mod Signals
pub mod Verdicts
use aurexis.Base.{
  String, Bool, true, false, not, ◌&&◌, ◌||◌, Option, none, some, List, [], ◌∷◌, ◌==◌, str_eq,
  magnitude, if◌then◌else◌,
}
use aurexis.Decimal
use aurexis.Decimal.{Decimal, dec, dec_zero, ltb_dec, leb_dec}
use aurexis.Brain.Interfaces.{CandidateSignal, SignalDirection}
use aurexis.Brain.MarketData.{Tick}
use aurexis.Brain.Structure
use aurexis.Brain.Structure.{StructureState, Bias, StructureEvent, Direction}

pub data Regime : Type 0 where
  trend_up trend_down range transition high_volatility unknown : Regime

pub data Trend : Type 0 where
  bullish bearish neutral : Trend

pub data TrendStrength : Type 0 where
  trending weak unknown : TrendStrength

pub data Momentum : Type 0 where
  bullish bearish neutral exhausted : Momentum

pub data Volatility : Type 0 where
  normal expanding contracting abnormal_high unknown : Volatility

-- The fields that the scorer reads.
pub record RegimeContext : Type 0 where
  pub regime : Regime
  pub trend_direction : Trend
  pub trend_strength : TrendStrength
  pub momentum_state : Momentum
  pub atr : Option Decimal
  pub volatility_state : Volatility

-- `self.regime not in NO_TRADE_REGIMES`
unfoldable pub permits_new_entry : RegimeContext → Bool
permits_new_entry reg = elim reg.regime [
  | Regime.trend_up ↦ true
  | Regime.trend_down ↦ true
  | Regime.range ↦ true
  | _ ↦ false
]

-- The two values of the loop, "BUY" and "SELL".
pub data Side : Type 0 where
  buy sell : Side

abbrev is_bullish : Bias → Bool
is_bullish b = elim b [ Bias.bullish ↦ true | _ ↦ false ]

abbrev is_bearish : Bias → Bool
is_bearish b = elim b [ Bias.bearish ↦ true | _ ↦ false ]

abbrev turned_up : StructureEvent → Bool
turned_up e = elim e [ StructureEvent.choch_bullish ↦ true | _ ↦ false ]

abbrev turned_down : StructureEvent → Bool
turned_down e = elim e [ StructureEvent.choch_bearish ↦ true | _ ↦ false ]

abbrev goes_up : Direction → Bool
goes_up d = elim d [ Direction.up ↦ true | _ ↦ false ]

abbrev goes_down : Direction → Bool
goes_down d = elim d [ Direction.down ↦ true | _ ↦ false ]

abbrev first_score : Bool → Bool → Bool → Decimal
first_score full reversal drift =
    if full then dec 10 1 else if reversal then dec 6 1 else if drift then dec 4 1 else dec 0 1

unfoldable pub score_structure : Side → StructureState → Decimal
score_structure buy s =
    first_score (is_bullish s.bias) (turned_up s.last_event) (goes_up s.structural_direction)
score_structure sell s =
    first_score (is_bearish s.bias) (turned_down s.last_event) (goes_down s.structural_direction)

abbrev aligned : Side → Trend → Bool
aligned buy Trend.bullish = true
aligned sell Trend.bearish = true
aligned _ _ = false

abbrev plus_half : Bool → Decimal → Decimal
plus_half test score = if test then Decimal.add score (dec 5 1) else score

unfoldable pub score_trend : Side → RegimeContext → Decimal
score_trend d reg =
    plus_half (elim reg.trend_strength [ TrendStrength.trending ↦ true | _ ↦ false ])
      (plus_half (aligned d reg.trend_direction) (dec 0 1))

abbrev breakout : Side → String
breakout buy = "LONG_BREAKOUT"
breakout sell = "SHORT_BREAKOUT"

abbrev fakeout : Side → String
fakeout buy = "LONG_FAKEOUT_REVERSAL"
fakeout sell = "SHORT_FAKEOUT_REVERSAL"

unfoldable pub score_setup : Side → String → Decimal
score_setup d setup =
    if str_eq setup (breakout d)
    then dec 10 1
    else if str_eq setup (fakeout d)
    then dec 8 1
    else if str_eq setup "CONTINUATION"
    then dec 5 1
    else dec 0 1

unfoldable pub score_momentum : Side → RegimeContext → Decimal
score_momentum buy reg = elim reg.momentum_state [
  | Momentum.bullish ↦ dec 10 1
  | Momentum.neutral ↦ dec 5 1
  | _ ↦ dec 0 1
]
score_momentum sell reg = elim reg.momentum_state [
  | Momentum.bearish ↦ dec 10 1
  | Momentum.neutral ↦ dec 5 1
  | _ ↦ dec 0 1
]

unfoldable pub score_volatility : RegimeContext → Decimal
score_volatility reg = elim reg.volatility_state [
  | Volatility.normal ↦ dec 10 1
  | Volatility.contracting ↦ dec 8 1
  | Volatility.expanding ↦ dec 5 1
  | _ ↦ dec 0 1
]

abbrev with_regime : Side → Regime → Bool
with_regime buy Regime.trend_up = true
with_regime sell Regime.trend_down = true
with_regime _ _ = false

unfoldable pub score_regime : Side → RegimeContext → Decimal
score_regime d reg =
    if with_regime d reg.regime
    then dec 10 1
    else elim reg.regime [ Regime.range ↦ dec 3 1 | _ ↦ dec 0 1 ]

pub record MultiFactorScorer : Type 0 where
  pub strategy_id : String
  pub strategy_version : String
  pub min_conf : Decimal
  pub w_st : Decimal
  pub w_tr : Decimal
  pub w_se : Decimal
  pub w_mo : Decimal
  pub w_vo : Decimal
  pub w_re : Decimal
  pub sl_buffer : Decimal
  pub min_sl_atr : Decimal
  pub rr : Decimal
  pub max_spread : Decimal
