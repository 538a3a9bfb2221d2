-- ===== src/Services/Database.antt =====
-- The rows that the services read and write (backend/db/models/execution.py, risk.py, equity.py,
-- signal.py and audit_log.py), and the database as lists of them, oldest first. An id is a text.
-- A NUMERIC column holds the decimal that was written. Left out are the columns that no modelled
-- code reads or writes, and the texts of a payload.
use aurexis.Base.{
  ℕ, String, Bool, true, false, ◌&&◌, Option, List, ◌∷◌, [], ◌++◌, ◌==◌, str_eq, ℤ, none, some, ltb,
  if◌then◌else◌,
}
use aurexis.Decimal.{Decimal}
use aurexis.Brain.Interfaces.{SignalDirection}
use aurexis.Risk.States.{RiskState, SignalDecision}
use aurexis.Risk.Snapshot.{ReasonCode}
use aurexis.Execution.Commands.{CommandAction, CommandState}

pub record CommandRow : Type 0 where
  pub id : String
  pub account_id : String
  pub signal_id : Option String
  pub correlation_id : String
  pub idempotency_key : String
  pub action : CommandAction
  pub symbol : String
  pub order_type : String
  pub volume_lots : Decimal
  pub price : Option Decimal
  pub stop_loss : Option Decimal
  pub take_profit : Option Decimal
  pub status : CommandState
  pub expires_at : ℕ
  pub sent_at : Option ℕ

pub record ReportRow : Type 0 where
  pub account_id : String
  pub command_id : Option String
  pub correlation_id : Option String
  pub idempotency_key : Option String
  pub broker_ticket : Option ℕ
  pub broker_deal_id : Option ℕ
  pub status : String
  pub fill_volume_lots : Option Decimal
  pub fill_price : Option Decimal
  pub slippage_points : Option ℤ
  pub commission_usd : Option Decimal
  pub swap_usd : Option Decimal
  pub broker_error_code : Option ℤ
  pub broker_error_message : Option String
  pub executed_at : ℕ

-- "OPEN" and "CLOSED"
pub data PositionStatus : Type 0 where
  opened closed : PositionStatus

abbrev pub is_opened : PositionStatus → Bool
is_opened opened = true
is_opened closed = false

pub record PositionRow : Type 0 where
  pub account_id : String
  pub command_id : Option String
  pub broker_ticket : ℕ
  pub symbol : String
  pub side : String
  pub lots : Decimal
  pub open_price : Decimal
  pub stop_loss : Option Decimal
  pub take_profit : Option Decimal
  pub current_price : Option Decimal
  pub unrealized_pnl_usd : Decimal
  pub commission_usd : Decimal
  pub swap_usd : Decimal
  pub status : PositionStatus
  pub opened_at : ℕ
  pub closed_at : Option ℕ
  pub close_price : Option Decimal

-- The texts that a signal's status takes; a block carries its reason.
pub data SignalStatus : Type 0 where
  proposed expired : SignalStatus
  blocked : ReasonCode → SignalStatus
  execution_rejected executed : SignalStatus

pub record SignalRow : Type 0 where
  pub id : String
  pub account_id : String
  pub correlation_id : String
  pub symbol : String
  pub direction : SignalDirection
  pub strategy_id : String
  pub strategy_version : String
  pub confidence_score : Option Decimal
  pub entry_reference : Option Decimal
  pub suggested_stop_loss : Option Decimal
  pub suggested_take_profit : Option Decimal
  pub spread_at_signal : Decimal
  pub news_state_at_signal : String
  pub status : SignalStatus
  pub generated_at : ℕ
  pub expires_at : ℕ

pub record RiskConfigurationRow : Type 0 where
  pub account_id : String
  pub version : ℕ
  pub profit_lock_threshold_usd : Decimal
  pub profit_lock_floor_pct : Decimal
  pub max_tick_staleness_ms : ℤ
  pub news_pre_event_window_minutes : ℤ
  pub news_post_event_window_minutes : ℤ
  pub daily_loss_limit_usd : Option Decimal
  pub max_drawdown_usd : Option Decimal
  pub max_open_positions : Option ℤ
  pub max_open_lots : Option Decimal
  pub max_spread_usd : Option Decimal
  pub risk_per_trade_pct : Option Decimal
  pub kill_switch_active : Bool

pub record RiskDecisionRow : Type 0 where
  pub account_id : String
  pub signal_id : Option String
  pub correlation_id : String
  pub decision : SignalDecision
  pub reason_code : ReasonCode
  pub risk_state : RiskState
  pub equity_at_decision : Option Decimal
  pub drawdown_at_decision : Option Decimal
  pub daily_pnl_at_decision : Option Decimal
  pub profit_lock_active : Bool
  pub profit_lock_floor_usd : Option Decimal
  pub decided_at : ℕ

pub record EquitySnapshotRow : Type 0 where
  pub account_id : String
  pub balance_usd : Decimal
  pub equity_usd : Decimal
  pub snapped_at : ℕ

-- A date is the number of the day.
pub record DailySessionRow : Type 0 where
  pub account_id : String
  pub session_date : ℕ
  pub session_open_equity_usd : Decimal
  pub session_peak_profit_usd : Decimal
  pub realized_pnl_usd : Decimal
  pub floating_pnl_usd : Option Decimal

pub record AuditEntry : Type 0 where
  pub event_type : String
  pub severity : String
  pub account_id : String
  pub correlation_id : Option String

pub record Database : Type 0 where
  pub commands : List CommandRow
  pub reports : List ReportRow
  pub positions : List PositionRow
  pub signals : List SignalRow
  pub risk_configurations : List RiskConfigurationRow
  pub risk_decisions : List RiskDecisionRow
  pub equity_snapshots : List EquitySnapshotRow
  pub daily_sessions : List DailySessionRow
  pub audit_log : List AuditEntry

-- `record_audit_event` of backend/services/audit.py, given what it is called with.
unfoldable pub record_audit_event : String → String → String → Option String → Database → Database
record_audit_event event_type severity account correlation_id db = record db {
  audit_log =
      db.audit_log
      ++ (record {
        event_type = event_type;
        severity = severity;
        account_id = account;
        correlation_id = correlation_id;
      }
          ∷ []);
}

-- The row has the account and the ticket, which are unique together.
abbrev pub has_ticket : String → ℕ → PositionRow → Bool
has_ticket account ticket row = str_eq row.account_id account && row.broker_ticket == ticket

-- `.order_by(desc(key)).limit(1)`
unfoldable pub latest_from {ℓ} : {A : Type ℓ} → (A → ℕ) → Option A → List A → Option A
latest_from key best [] = best
latest_from key none (row ∷ rows) = latest_from key (some row) rows
latest_from key (some best) (row ∷ rows) =
    latest_from key (if ltb (key best) (key row) then some row else some best) rows
