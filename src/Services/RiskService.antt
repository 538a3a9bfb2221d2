-- ===== src/Services/RiskService.antt =====
-- backend/services/risk_service.py: the risk engine over the rows of the database. Where an order
-- leaves rows level, the first of them is taken. The sum of the lots starts at zero and adds in the
-- order of the rows. Left out are the id of the signal where it is no UUID, and the payloads.
pub mod Peak
pub mod Decisions
use aurexis.Base.{
  ℕ, ◌/◌, String, Bool, true, false, ◌&&◌, Option, none, some, List, [], ◌∷◌, ◌++◌, ◌==◌, ltb,
  length, select, str_eq, if◌then◌else◌, ℤ, pos, magnitude,
}
use aurexis.Decimal
use aurexis.Decimal.{value_or, Decimal, dec_zero, Checked, ok, ◌>>=◌, ltb_dec, max_dec}
use aurexis.Brain.Interfaces.{CandidateSignal}
use aurexis.Risk.Config.{RiskConfig, default_config}
use aurexis.Risk.Snapshot.{AccountRiskSnapshot, MarketCondition, ProfitLockStatus, RiskDecision}
use aurexis.Risk.Gates.{Runtime}
use aurexis.Risk.Engine.{evaluate}
use aurexis.Services.Database.{
  PositionRow, SignalRow, RiskConfigurationRow, RiskDecisionRow, EquitySnapshotRow, DailySessionRow,
  Database, record_audit_event, latest_from,
}
use aurexis.Services.ExecutionService.Operations.{is_open_row}

abbrev pub config_of : RiskConfigurationRow → RiskConfig
config_of row = record default_config {
  daily_loss_limit_usd = row.daily_loss_limit_usd;
  max_drawdown_usd = row.max_drawdown_usd;
  max_open_positions = row.max_open_positions;
  max_open_lots = row.max_open_lots;
  max_spread_usd = row.max_spread_usd;
  risk_per_trade_pct = row.risk_per_trade_pct;
  profit_lock_threshold_usd = row.profit_lock_threshold_usd;
  profit_lock_floor_pct = row.profit_lock_floor_pct;
  max_tick_staleness_ms = row.max_tick_staleness_ms;
  news_pre_event_window_minutes = row.news_pre_event_window_minutes;
  news_post_event_window_minutes = row.news_post_event_window_minutes;
  emergency_stop_active = row.kill_switch_active;
}

unfoldable pub latest_configuration : String → Database → Option RiskConfigurationRow
unfolding latest_from
latest_configuration account db =
    latest_from (λ row. row.version) none
      (select (λ row. str_eq row.account_id account) db.risk_configurations)

unfoldable pub get_latest_risk_config : String → Database → RiskConfig
get_latest_risk_config account db = elim (latest_configuration account db) [
  | none ↦ default_config
  | some row ↦ config_of row
]

abbrev pub snapshots_of : String → Database → List EquitySnapshotRow
snapshots_of account db = select (λ row. str_eq row.account_id account) db.equity_snapshots

unfoldable pub latest_equity : String → Database → Option EquitySnapshotRow
unfolding latest_from
latest_equity account db = latest_from (λ row. row.snapped_at) none (snapshots_of account db)

-- `func.max(EquitySnapshot.equity_usd)`, NULL where there is no row.
unfoldable pub max_equity : Option Decimal → List EquitySnapshotRow → Option Decimal
max_equity best [] = best
max_equity none (row ∷ rows) = max_equity (some row.equity_usd) rows
max_equity (some best) (row ∷ rows) = max_equity (some (max_dec best row.equity_usd)) rows

-- `hwm_res.scalar() or current_equity`, and at least the current equity.
unfoldable pub peak_equity : Option Decimal → Decimal → Decimal
peak_equity hwm current =
    let peak = value_or hwm current in if ltb_dec peak current then current else peak

-- `datetime.now(UTC).date()`
abbrev pub day_of : ℕ → ℕ
day_of now = now / 86400000000

abbrev first_row : List DailySessionRow → Option DailySessionRow
first_row [] = none
first_row (row ∷ _) = some row

unfoldable pub daily_state : String → ℕ → Database → Option DailySessionRow
daily_state account now db = first_row (
    select (λ row. str_eq row.account_id account && row.session_date == day_of now)
      db.daily_sessions)

abbrev pub open_positions : String → Database → List PositionRow
open_positions account db = select (is_open_row account) db.positions

unfoldable pub total_lots_from : Decimal → List PositionRow → Decimal
total_lots_from total [] = total
total_lots_from total (row ∷ rows) = total_lots_from (Decimal.add total row.lots) rows

-- A field of a row that may be missing, or a default.
abbrev pub field_or {ℓ} : {A : Type ℓ} {B : Type 0} → Option B → (B → A) → A → A
field_or none f default = default
field_or (some row) f default = f row

abbrev decimal_or_zero : Option Decimal → Decimal
decimal_or_zero none = dec_zero
decimal_or_zero (some x) = x

unfoldable pub build_account_risk_snapshot : String → ℕ → Database → AccountRiskSnapshot
unfolding total_lots_from
build_account_risk_snapshot account now db =
    let latest = latest_equity account db in
    let current = field_or latest (λ row. row.equity_usd) dec_zero in
    let state = daily_state account now db in
    record {
      account_id = account;
      current_balance_usd = field_or latest (λ row. row.balance_usd) dec_zero;
      current_equity_usd = current;
      equity_peak_usd = peak_equity (max_equity none (snapshots_of account db)) current;
      daily_realized_pnl_usd = field_or state (λ row. row.realized_pnl_usd) dec_zero;
      daily_floating_pnl_usd =
          field_or state (λ row. decimal_or_zero row.floating_pnl_usd) dec_zero;
      open_position_count = pos (length (open_positions account db));
      snapshot_at = now;
      session_open_equity_usd = some (field_or state (λ row. row.session_open_equity_usd) current);
      session_peak_profit_usd = some (field_or state (λ row. row.session_peak_profit_usd) dec_zero);
      open_lot_exposure = total_lots_from dec_zero (open_positions account db);
      in_flight_lot_exposure = dec_zero;
    }

-- The engine reads a row's price and stop as it reads those of a candidate signal.
abbrev pub as_candidate : SignalRow → CandidateSignal
as_candidate row = record {
  symbol = row.symbol;
  direction = row.direction;
  confidence_score = row.confidence_score;
  suggested_stop_loss = row.suggested_stop_loss;
  suggested_take_profit = row.suggested_take_profit;
  strategy_id = row.strategy_id;
  strategy_version = row.strategy_version;
  is_configured = true;
  entry_reference = row.entry_reference;
}

unfoldable pub decision_row : String → SignalRow → RiskDecision → RiskDecisionRow
decision_row account signal d = record {
  account_id = account;
  signal_id = some signal.id;
  correlation_id = d.correlation_id;
  decision = d.decision;
  reason_code = d.reason_code;
  risk_state = d.risk_state;
  equity_at_decision = d.equity_at_decision;
  drawdown_at_decision = d.drawdown_at_decision;
  daily_pnl_at_decision = d.daily_pnl_at_decision;
  profit_lock_active = field_or d.profit_lock_status (λ status. status.is_active) false;
  profit_lock_floor_usd =
      field_or d.profit_lock_status (λ status. some status.protected_floor_usd) none;
  decided_at = d.decided_at;
}

-- An exception of the engine's arithmetic leaves the call before anything is written.
unfoldable pub evaluate_and_record_risk :
    Runtime
    → String
    → SignalRow
    → MarketCondition
    → String
    → String
    → Database
    → Checked (RiskDecision × Database)
evaluate_and_record_risk rt account signal market news_state correlation_id db = do
  decision ←
      evaluate rt (get_latest_risk_config account db) none
        (build_account_risk_snapshot account rt.now db) (some (as_candidate signal)) (some market)
        (some news_state) (some correlation_id)
  ok (
    decision,
    record_audit_event "RISK_EVALUATED" "INFO" account none (record db {
      risk_decisions = db.risk_decisions ++ decision_row account signal decision ∷ [];
    }),
  )
