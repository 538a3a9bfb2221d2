-- ===== src/Risk/Gates.antt =====
-- What the checks of `RiskEngine.evaluate` (backend/risk/engine.py) compute with: the age of a tick,
-- the profit of the day, the drawdown, the profit lock and the lots.
pub mod Checks
use Prim.Native.String.{◌++◌ as join}
use aurexis.Base.{
  String, Bool, false, not, ◌&&◌, Option, none, some, List, [], ◌∷◌, str_eq, one_of, or_else,
  if◌then◌else◌, ℤ, ltb_ℤ,
}
use aurexis.Decimal
use aurexis.Decimal.{Decimal, dec_zero, Checked, ok, ◌>>=◌, ltb_dec, leb_dec}
use aurexis.Risk.States.{RiskState, SignalDecision}
use aurexis.Risk.Config.{RiskConfig, is_fully_configured, missing_parameters}
use aurexis.Risk.Snapshot.{
  Timestamp, AccountRiskSnapshot, MarketCondition, effective_spread, ProfitLockStatus, ReasonCode,
  RiskDecision,
}

-- What the engine takes from its surroundings: the clock, the age of a tick
-- (`int((now - t).total_seconds() * 1000)`, computed in floats), and a fresh correlation id.
pub record Runtime : Type 0 where
  pub now : Timestamp
  pub elapsed_ms : Timestamp → ℤ
  pub fresh_id : String

-- `",".join(names)`
unfoldable pub comma_separated : List String → String
comma_separated [] = ""
comma_separated (s ∷ []) = s
comma_separated (s ∷ t ∷ rest) = join s (join "," (comma_separated (t ∷ rest)))

-- `correlation_id or str(uuid.uuid4())`: an empty text is false too.
abbrev pub correlation : Runtime → Option String → String
correlation rt none = rt.fresh_id
correlation rt (some c) = if str_eq c "" then rt.fresh_id else c

abbrev pub at_least_ℤ : ℤ → ℤ → Bool
at_least_ℤ a b = not (ltb_ℤ a b)

abbrev pub age_at : Runtime → Option Timestamp → Option ℤ
age_at rt none = none
age_at rt (some t) = some (rt.elapsed_ms t)

abbrev pub staleness_ms : Runtime → MarketCondition → Option ℤ
staleness_ms rt m = or_else m.tick_age_ms (age_at rt m.tick_timestamp)

abbrev pub is_stale : Runtime → RiskConfig → MarketCondition → Bool
is_stale rt config m = elim (staleness_ms rt m) [
  | none ↦ false
  | some age ↦ ltb_ℤ config.max_tick_staleness_ms age
]

abbrev pub exceeds : Option Decimal → Option Decimal → Bool
exceeds none limit = false
exceeds (some value) none = false
exceeds (some value) (some limit) = ltb_dec limit value

abbrev pub spread_too_wide : RiskConfig → MarketCondition → Bool
spread_too_wide config m = exceeds (effective_spread m) config.max_spread_usd

abbrev pub total_daily_pnl : AccountRiskSnapshot → Decimal
total_daily_pnl snapshot =
    Decimal.add snapshot.daily_realized_pnl_usd snapshot.daily_floating_pnl_usd

abbrev pub drawdown : AccountRiskSnapshot → Decimal
drawdown snapshot = Decimal.sub snapshot.equity_peak_usd snapshot.current_equity_usd

abbrev pub caution_reached : RiskConfig → AccountRiskSnapshot → Decimal → Bool
caution_reached config snapshot max_dd = elim config.caution_drawdown_pct [
  | none ↦ false
  | some pct ↦ leb_dec (Decimal.mul max_dd pct) (drawdown snapshot)
]

abbrev pub lock_status : RiskConfig → AccountRiskSnapshot → Decimal → Decimal → ProfitLockStatus
lock_status config snapshot session_open peak_profit =
    let session_profit = Decimal.sub snapshot.current_equity_usd session_open in
    let active = leb_dec config.profit_lock_threshold_usd peak_profit in
    let protected_floor =
      if active then Decimal.mul peak_profit config.profit_lock_floor_pct else dec_zero in
    record {
      is_active = active;
      session_profit_usd = session_profit;
      peak_profit_usd = peak_profit;
      protected_floor_usd = protected_floor;
      is_breached = active && ltb_dec session_profit protected_floor;
    }

abbrev pub lock_of :
    RiskConfig → AccountRiskSnapshot → Option Decimal → Option Decimal → Option ProfitLockStatus
lock_of config snapshot (some session_open) (some peak_profit) =
    some (lock_status config snapshot session_open peak_profit)
lock_of config snapshot (some session_open) none = none
lock_of config snapshot none _ = none

unfoldable pub profit_lock : RiskConfig → AccountRiskSnapshot → Option ProfitLockStatus
profit_lock config snapshot =
    lock_of config snapshot snapshot.session_open_equity_usd snapshot.session_peak_profit_usd

abbrev pub lock_breached : Option ProfitLockStatus → Bool
lock_breached none = false
lock_breached (some status) = status.is_breached

-- `authorized_lots or Decimal("0")`: a zero is false too, and has the same value.
abbrev pub proposed_lots : Option Decimal → Decimal
proposed_lots none = dec_zero
proposed_lots (some lots) = lots

abbrev pub total_lots : AccountRiskSnapshot → Option Decimal → Decimal
total_lots snapshot lots =
    Decimal.add (Decimal.add snapshot.open_lot_exposure snapshot.in_flight_lot_exposure)
      (proposed_lots lots)
