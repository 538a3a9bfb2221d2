-- ===== src/Risk/Snapshot.antt =====
-- The values that the risk engine takes and gives (the dataclasses of backend/risk/engine.py).
use aurexis.Base.{ℕ, String, Bool, Option, none, some, ℤ}
use aurexis.Decimal
use aurexis.Decimal.{Decimal}
use aurexis.Risk.States.{RiskState, SignalDecision}

-- Microseconds since the epoch.
abbrev pub Timestamp : Type 0
Timestamp = ℕ

pub record AccountRiskSnapshot : Type 0 where
  pub account_id : String
  pub current_balance_usd : Decimal
  pub current_equity_usd : Decimal
  pub equity_peak_usd : Decimal
  pub daily_realized_pnl_usd : Decimal
  pub daily_floating_pnl_usd : Decimal
  pub open_position_count : ℤ
  pub snapshot_at : Timestamp
  pub session_open_equity_usd : Option Decimal
  pub session_peak_profit_usd : Option Decimal
  pub open_lot_exposure : Decimal
  pub in_flight_lot_exposure : Decimal

pub record MarketCondition : Type 0 where
  pub symbol : String
  pub bid : Option Decimal
  pub ask : Option Decimal
  pub tick_timestamp : Option Timestamp
  pub tick_age_ms : Option ℤ
  pub spread : Option Decimal
  pub market_data_status : String

abbrev ask_minus_bid : Option Decimal → Option Decimal → Option Decimal
ask_minus_bid (some ask) (some bid) = some (Decimal.sub ask bid)
ask_minus_bid (some ask) none = none
ask_minus_bid none bid = none

abbrev given_or : Option Decimal → Option Decimal → Option Decimal
given_or (some spread) _ = some spread
given_or none computed = computed

unfoldable pub effective_spread : MarketCondition → Option Decimal
effective_spread m = given_or m.spread (ask_minus_bid m.ask m.bid)

pub record ProfitLockStatus : Type 0 where
  pub is_active : Bool
  pub session_profit_usd : Decimal
  pub peak_profit_usd : Decimal
  pub protected_floor_usd : Decimal
  pub is_breached : Bool

-- The reason codes, each with the text that the code formats into it.
pub data ReasonCode : Type 0 where
  emergency_stop_active : ReasonCode
  missing_parameter_names : String → ReasonCode
  market_data_not_ready : String → ReasonCode
  stale_market_data spread_too_high : ReasonCode
  news_event_window news_data_unavailable : String → ReasonCode
  daily_loss_limit_hit max_drawdown_hit caution_drawdown_reached : ReasonCode
  profit_lock_floor_breached max_positions_reached max_lots_exceeded : ReasonCode
  all_checks_passed : ReasonCode

pub record RiskDecision : Type 0 where
  pub decision : SignalDecision
  pub reason_code : ReasonCode
  pub risk_state : RiskState
  pub account_id : String
  pub correlation_id : String
  pub decided_at : Timestamp
  pub equity_at_decision : Option Decimal
  pub drawdown_at_decision : Option Decimal
  pub daily_pnl_at_decision : Option Decimal
  pub profit_lock_status : Option ProfitLockStatus
  pub authorized_lot_size : Option Decimal

abbrev pub is_approved : SignalDecision → Bool
is_approved SignalDecision.approved = Bool.true
is_approved _ = Bool.false

unfoldable pub trading_allowed : RiskDecision → Bool
trading_allowed d = is_approved d.decision
