-- ===== src/Tests/RiskRows.antt =====
-- The risk service and the agents' sessions at concrete rows.
use aurexis.Base.{
  ◌*ℤ◌, ℕ, ◌≡◌, refl, ◌⊎◌, true, false, none, some, Option, String, [], ◌∷◌, ◌++◌, ◌==◌, All, pos,
  str_eq, if◌then◌else◌,
}
use aurexis.Decimal
use aurexis.Decimal.{Decimal, dec, leb_dec, Checked, ok}
use aurexis.Risk.Snapshot.{MarketCondition, RiskDecision, ReasonCode}
use aurexis.Risk.States.{SignalDecision, RiskState}
use aurexis.Risk.Gates.{Runtime}
use aurexis.Risk.Engine.Approval.{IsCoherent}
use aurexis.Risk.Engine.{evaluate, early_decision, authorized_lots, late_decision, sizing_policy}
use aurexis.Risk.Gates.Checks.{
  emergency_gate, configuration_gate, market_gate, news_gate, daily_loss_gate, approval,
  drawdown_gate, lots_gate, positions_gate, profit_lock_gate,
}
use aurexis.Risk.Config.{is_fully_configured, missing_parameters}
use aurexis.Risk.Snapshot.{effective_spread}
use aurexis.Risk.Gates.{comma_separated, profit_lock}
use aurexis.Risk.Sizing.{calculate_lot_size, percentage_lot_size, round_lots, sized_lots}
use aurexis.Services.Database.{latest_from, record_audit_event, Database, EquitySnapshotRow}
use aurexis.Services.RiskService.{
  get_latest_risk_config, latest_configuration, daily_state, latest_equity, peak_equity,
  total_lots_from, build_account_risk_snapshot, max_equity, snapshots_of, decision_row,
  evaluate_and_record_risk,
}
use aurexis.Services.RiskService.Peak.{is_zero_mark, AtMost, build_account_risk_snapshot-AtMost}
use aurexis.Services.RiskService.Decisions.{Backed, evaluate_and_record_risk-Backed}
use aurexis.Services.Mt5Session.{
  AgentStatus, beaten, find, Agent, Registry, get_agent_connection_state, new_session_service,
  process_agent_heartbeat, is_connected, record_heartbeat, status_text, status_of, says_connected,
  agent_timeout_seconds,
}
use aurexis.Services.Mt5Session.Heartbeats.{effective_status-process_agent_heartbeat}
use aurexis.Tests.Orders.{buy_signal, empty_database}

abbrev equity_at : ℕ → ℕ → EquitySnapshotRow
equity_at t equity = record {
  account_id = "a1";
  balance_usd = dec 10000 0;
  equity_usd = dec equity 0;
  snapped_at = t;
}

abbrev rows : Database
rows = record empty_database {
  equity_snapshots = equity_at 1 10000 ∷ equity_at 2 10200 ∷ equity_at 3 9900 ∷ [];
  risk_configurations =
      record {
        account_id = "a1";
        version = 1;
        profit_lock_threshold_usd = dec 500 0;
        profit_lock_floor_pct = dec 80 2;
        max_tick_staleness_ms = pos 2000;
        news_pre_event_window_minutes = pos 30;
        news_post_event_window_minutes = pos 30;
        daily_loss_limit_usd = some (dec 500 0);
        max_drawdown_usd = some (dec 1000 0);
        max_open_positions = some (pos 3);
        max_open_lots = some (dec 1 0);
        max_spread_usd = some (dec 100 2);
        risk_per_trade_pct = some (dec 1 2);
        kill_switch_active = false;
      }
      ∷ [];
}

build_account_risk_snapshot-AtMost_example :
    let s = build_account_risk_snapshot "a1" 1000 rows in
    (leb_dec s.current_equity_usd s.equity_peak_usd ≡ true)
    × ((is_zero_mark (max_equity none (snapshots_of "a1" rows)) ≡ true)
        ⊎ All (AtMost s.equity_peak_usd) (snapshots_of "a1" rows))
build_account_risk_snapshot-AtMost_example = build_account_risk_snapshot-AtMost "a1" 1000 rows

abbrev clock : Runtime
clock = record { now = 1000; elapsed_ms = λ t. pos 5; fresh_id = "r1" }

abbrev gold_market : MarketCondition
gold_market = record {
  symbol = "XAUUSD";
  bid = some (dec 200000 2);
  ask = some (dec 200020 2);
  tick_timestamp = some 900;
  tick_age_ms = some (pos 5);
  spread = some (dec 20 2);
  market_data_status = "READY";
}

abbrev verdict : Checked (RiskDecision × Database)
verdict = evaluate_and_record_risk clock "a1" buy_signal gold_market "CLEAR" "r1" rows

abbrev granted : RiskDecision
granted = record {
  decision = SignalDecision.approved;
  reason_code = ReasonCode.all_checks_passed;
  risk_state = RiskState.normal;
  account_id = "a1";
  correlation_id = "r1";
  decided_at = 1000;
  equity_at_decision = some (dec 9900 0);
  drawdown_at_decision = some (dec 300 0);
  daily_pnl_at_decision = some (dec 0 0);
  profit_lock_status = some (record {
    is_active = false;
    session_profit_usd = dec 0 0;
    peak_profit_usd = dec 0 0;
    protected_floor_usd = dec 0 0;
    is_breached = false;
  });
  authorized_lot_size = some (dec 9 2);
}

abbrev rows_after : Database
rows_after = record rows {
  risk_decisions = decision_row "a1" buy_signal granted ∷ [];
  audit_log =
      record {
        event_type = "RISK_EVALUATED";
        severity = "INFO";
        account_id = "a1";
        correlation_id = none;
      }
      ∷ [];
}

granted_lem : verdict ≡ ok (granted, rows_after)
unfolding evaluate_and_record_risk evaluate early_decision emergency_gate get_latest_risk_config
    latest_configuration configuration_gate is_fully_configured market_gate effective_spread
    Decimal.ltb_dec news_gate daily_loss_gate leb_dec Decimal.add build_account_risk_snapshot
    daily_state Decimal.neg ◌*ℤ◌ Decimal.abs Decimal.context_round Decimal.div Decimal.excess_digits
    Decimal.max_dec Decimal.mul Decimal.quantize Decimal.quotient Decimal.round_half_even
    Decimal.round_magnitude Decimal.shift_for Decimal.sub missing_parameters authorized_lots
    late_decision sizing_policy approval drawdown_gate lots_gate positions_gate profit_lock_gate
    comma_separated profit_lock calculate_lot_size percentage_lot_size round_lots sized_lots
    latest_from record_audit_event decision_row latest_equity max_equity peak_equity total_lots_from
granted_lem = refl

evaluate_and_record_risk-Backed_example :
    (rows_after.risk_decisions ≡ [] ++ decision_row "a1" buy_signal granted ∷ [])
    × ((record rows_after { risk_decisions = []; audit_log = [] }) ≡ rows)
    × IsCoherent granted
    × Backed clock "a1" gold_market "CLEAR" rows granted
evaluate_and_record_risk-Backed_example =
    evaluate_and_record_risk-Backed clock "a1" buy_signal gold_market "CLEAR" "r1" rows granted
      rows_after granted_lem

abbrev numbered : String → Option ℕ
numbered id = if str_eq id "a1" then some 1 else if str_eq id "agent" then some 7 else none

abbrev agent : Agent
agent = record {
  id = 7;
  account_id = 1;
  created_at = 0;
  last_seen_at = none;
  last_known_status = AgentStatus.disconnected;
  ea_version = none;
  mt5_version = none;
}

abbrev registry : Registry
registry = record { agents = agent ∷ []; events = [] }

abbrev agent_after : Agent
agent_after = beaten 1000000 (some "2.1") none true agent

effective_status-process_agent_heartbeat_example :
    let r' =
      (process_agent_heartbeat numbered 1000000 "agent" "a1" (some "2.1") none true registry).1 in
    (find (λ b. b.id == 7) r'.agents ≡ some agent_after)
    × (says_connected (get_agent_connection_state numbered 12000000 "a1" r')
        ≡ is_connected 12000000 "agent" (
            record_heartbeat 1000000 "agent" "a1"
              (status_text (status_of true))
              none
              (some "2.1")
              new_session_service))
unfolding process_agent_heartbeat find agent_timeout_seconds new_session_service beaten latest_from
effective_status-process_agent_heartbeat_example =
    effective_status-process_agent_heartbeat numbered 1000000 12000000 "agent" "a1" (some "2.1")
      none true registry new_session_service none agent_after agent refl (refl, tt) refl refl refl
