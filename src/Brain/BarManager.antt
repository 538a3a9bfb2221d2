-- ===== src/Brain/BarManager.antt =====
-- brain/market_data/multi_timeframe.py: the bars of several timeframes from one stream of ticks. The
-- clock is an argument, and a threshold is a number of microseconds. An exception of the arithmetic
-- leaves no manager. `none` is the `ValueError` of a timeframe that is not tracked or of a tick that
-- is not valid.
pub mod Streams
use aurexis.Base.{
  ℕ, suc, ◌+◌, String, Bool, true, false, not, ◌||◌, Option, none, some, List, [], ◌∷◌, ltb, str_eq,
  lookup, insert, Dict, String_key, if◌then◌else◌,
}
use aurexis.Decimal
use aurexis.Decimal.{Decimal, dec_zero, Checked, ok, ◌>>=◌, ltb_dec, leb_dec}
use aurexis.Brain.MarketData.{Timestamp, Tick, Bar}
use aurexis.Brain.Scoring.Signals.{spread}
use aurexis.Brain.BarBuilder.{BarBuilder, new_builder, process_tick, seed_closed_bars}

pub record BarManager : Type 0 where
  pub symbol : String
  pub max_spread_usd : Decimal
  pub staleness_threshold : ℕ
  pub builders : Dict String BarBuilder
  pub last_tick : Option Tick
  pub tick_count : ℕ

-- `DEFAULT_TIMEFRAMES`
abbrev pub default_timeframes : List String
default_timeframes = "M5" ∷ "M15" ∷ "H1" ∷ []

-- `{tf: BarBuilder(symbol=symbol, timeframe=tf) for tf in self.timeframes}`
unfoldable pub new_builders :
    String → Dict String BarBuilder → List String → Option (Dict String BarBuilder)
new_builders symbol known [] = some known
new_builders symbol known (tf ∷ rest) = elim (new_builder symbol tf) [
  | none ↦ none
  | some b ↦ new_builders symbol (insert tf b known) rest
]

-- The constructor.
unfoldable pub new_manager : String → List String → Decimal → ℕ → Option BarManager
new_manager symbol timeframes max_spread threshold = elim (new_builders symbol [] timeframes) [
  | none ↦ none
  | some builders ↦ some (record {
    symbol = symbol;
    max_spread_usd = max_spread;
    staleness_threshold = threshold;
    builders = builders;
    last_tick = none;
    tick_count = 0;
  })
]

-- `TickValidationResult`, with its message as a constructor.
pub data TickValidation : Type 0 where
  valid symbol_mismatch non_positive_price crossed_spread out_of_order : TickValidation

abbrev pub is_valid : TickValidation → Bool
is_valid valid = true
is_valid _ = false

abbrev pub earlier : Tick → Option Tick → Bool
earlier tick none = false
earlier tick (some last) = ltb tick.tick_time last.tick_time

unfoldable pub validate_tick : BarManager → Tick → TickValidation
validate_tick m tick =
    if not (str_eq tick.symbol m.symbol)
    then symbol_mismatch
    else if leb_dec tick.bid dec_zero || leb_dec tick.ask dec_zero
    then non_positive_price
    else if ltb_dec tick.ask tick.bid
    then crossed_spread
    else if earlier tick m.last_tick
    then out_of_order
    else valid

unfoldable pub is_stale : BarManager → ℕ → Bool
is_stale m now = elim m.last_tick [
  | none ↦ true
  | some tick ↦ ltb (tick.tick_time + m.staleness_threshold) now
]

unfoldable pub current_spread : BarManager → Option Decimal
current_spread m = elim m.last_tick [ none ↦ none | some tick ↦ some (spread tick) ]

unfoldable pub is_spread_acceptable : BarManager → Bool
unfolding current_spread
is_spread_acceptable m = elim (current_spread m) [
  | none ↦ false
  | some s ↦ leb_dec s m.max_spread_usd
]

abbrev pub add_closed : String → Option Bar → Dict String Bar → Dict String Bar
add_closed tf none closed = closed
add_closed tf (some bar) closed = (tf, bar) ∷ closed

-- The loop over the builders: the bars that have just closed, and the builders.
unfoldable pub update_builders :
    Tick → Dict String BarBuilder → Checked (Dict String Bar × Dict String BarBuilder)
update_builders tick [] = ok ([], [])
update_builders tick ((tf, b) ∷ rest) = do
  updated ← process_tick b tick
  others ← update_builders tick rest
  ok (add_closed tf updated.0 others.0, (tf, updated.1) ∷ others.1)

unfoldable pub ingest_tick : BarManager → Tick → Checked (Option (Dict String Bar × BarManager))
ingest_tick m tick = if not (is_valid (validate_tick m tick)) then ok none else (do
  updated ← update_builders tick m.builders
  ok (
      some (
        updated.0,
        record m { builders = updated.1; last_tick = some tick; tick_count = suc m.tick_count },
      )))

unfoldable pub get_closed_bars : BarManager → String → Option (List Bar)
get_closed_bars m timeframe = elim (lookup timeframe m.builders) [
  | none ↦ none
  | some b ↦ some b.closed_bars
]

abbrev last_bar : List Bar → Option Bar
last_bar [] = none
last_bar (bar ∷ []) = some bar
last_bar (bar ∷ next ∷ rest) = last_bar (next ∷ rest)

-- `bars[-1] if bars else None`, within the bars of the timeframe.
unfoldable pub get_latest_closed_bar : BarManager → String → Option (Option Bar)
get_latest_closed_bar m timeframe = elim (get_closed_bars m timeframe) [
  | none ↦ none
  | some bars ↦ some (last_bar bars)
]

unfoldable pub seed_timeframe : BarManager → String → List Bar → Option BarManager
seed_timeframe m timeframe bars = elim (lookup timeframe m.builders) [
  | none ↦ none
  | some b ↦ some (record m { builders = insert timeframe (seed_closed_bars bars b) m.builders })
]
