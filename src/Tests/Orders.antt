-- ===== src/Tests/Orders.antt =====
-- The execution service at concrete inputs: an approved signal, and repeated.
use aurexis.Base.{◌≡◌, refl, none, some, [], ◌∷◌, ◌++◌, ℕ_key, arith}
use aurexis.Decimal.{dec, leb_dec}
use aurexis.Brain.Interfaces.{SignalDirection}
use aurexis.Risk.States.{SignalDecision, RiskState}
use aurexis.Risk.Snapshot.{RiskDecision, ReasonCode, trading_allowed}
use aurexis.Execution.Commands.{transition_to, valid_transitions, state_in, is_expired}
use aurexis.Execution.Simulator.{
  new_simulator, get_open_positions, execute_command, dispatch, open_order,
}
use aurexis.Services.Database.{SignalRow, SignalStatus, Database, PositionRow, ReportRow, opened}
use aurexis.Services.ExecutionService.{
  Dispatch, Request, World, Outcome, refused, constraint_violated, reported, key_exists,
  dispatched_lots, new_command, report_row,
}
use aurexis.Services.ExecutionService.Operations.{
  opened_rows, sent_command, dispatch_command, execute_approved_signal,
}
use aurexis.Services.ExecutionService.Permission.{
  Permitted, Settled, execute_approved_signal-Settled,
}
use aurexis.Services.ExecutionService.Tickets.{Step, here, next}
use aurexis.Services.ExecutionService.Repeats.{execute_approved_signal-repeated}
use aurexis.Services.ExecutionService.Sync.{IsSynced}
use aurexis.Services.ExecutionService.Fills.{order, answer}
use aurexis.Services.ExecutionService.Clean.{
  Opens, execute_approved_signal_filled, execute_approved_signal-violated,
}

abbrev pub buy_signal : SignalRow
buy_signal = record {
  id = "s1";
  account_id = "a1";
  correlation_id = "r1";
  symbol = "XAUUSD";
  direction = SignalDirection.buy;
  strategy_id = "core";
  strategy_version = "1";
  confidence_score = some (dec 8 1);
  entry_reference = some (dec 200020 2);
  suggested_stop_loss = some (dec 199000 2);
  suggested_take_profit = some (dec 202000 2);
  spread_at_signal = dec 20 2;
  news_state_at_signal = "CLEAR";
  status = SignalStatus.proposed;
  generated_at = 0;
  expires_at = 60000000;
}

abbrev pub approved_decision : RiskDecision
approved_decision = record {
  decision = SignalDecision.approved;
  reason_code = ReasonCode.all_checks_passed;
  risk_state = RiskState.normal;
  account_id = "a1";
  correlation_id = "r1";
  decided_at = 0;
  equity_at_decision = none;
  drawdown_at_decision = none;
  daily_pnl_at_decision = none;
  profit_lock_status = none;
  authorized_lot_size = some (dec 10 2);
}

abbrev pub empty_database : Database
empty_database = record {
  commands = [];
  reports = [];
  positions = [];
  signals = [];
  risk_configurations = [];
  risk_decisions = [];
  equity_snapshots = [];
  daily_sessions = [];
  audit_log = [];
}

abbrev pub fresh_world : World
fresh_world = record {
  db = empty_database;
  simulator = new_simulator (dec 200000 2) (dec 200020 2);
}

abbrev pub first_dispatch : Dispatch
first_dispatch = record {
  command_id = "c1";
  fresh_correlation_id = "r9";
  created_at = 100;
  sent_at = 110;
  broker_at = 120;
}

abbrev pub first_request : Request
first_request = record {
  account_id = "a1";
  signal = buy_signal;
  decision = approved_decision;
  current_price = some (dec 200020 2);
  correlation_id = some "r1";
  idempotency_key = some "exec_a1_s1";
}

abbrev pub retry_dispatch : Dispatch
retry_dispatch = record first_dispatch { command_id = "c2"; created_at = 900; broker_at = 950 }

permitted : Permitted first_dispatch first_request fresh_world (dec 10 2)
unfolding trading_allowed key_exists leb_dec
permitted = record { allowed = refl; authorized = refl; positive = refl; new_key = refl }

fresh_world-IsSynced : IsSynced "a1" fresh_world
unfolding get_open_positions
fresh_world-IsSynced = record { tracked = tt; held = tt; given_out = tt }

execute_approved_signal-Settled_example :
    Settled first_dispatch first_request fresh_world
      (execute_approved_signal first_dispatch first_request fresh_world)
execute_approved_signal-Settled_example =
    execute_approved_signal-Settled first_dispatch first_request fresh_world

abbrev first_report : ReportRow
first_report =
    report_row first_request (order first_dispatch first_request (dec 10 2) fresh_world)
      (answer first_dispatch first_request (dec 10 2) fresh_world).0

abbrev second_request : Request
second_request = record first_request { idempotency_key = some "exec_a1_s2" }

abbrev pub first_run : Outcome × World
first_run = execute_approved_signal first_dispatch first_request fresh_world

first_reported : first_run.0 ≡ reported first_report
unfolding execute_approved_signal dispatch_command trading_allowed key_exists leb_dec
    dispatched_lots sent_command new_command transition_to valid_transitions state_in is_expired
    execute_command dispatch open_order opened_rows
first_reported = refl

-- The world after the order and one more, of another signal.
abbrev second_run : Outcome × World
second_run = execute_approved_signal retry_dispatch second_request first_run.1

execute_approved_signal-repeated_example :
    execute_approved_signal retry_dispatch first_request second_run.1 ≡ (refused, second_run.1)
execute_approved_signal-repeated_example =
    execute_approved_signal-repeated first_dispatch retry_dispatch first_request first_request
      fresh_world second_run.1 "exec_a1_s1" first_report refl refl refl first_reported
      (next here (Step.order retry_dispatch second_request first_run.1))

execute_approved_signal_filled_example :
    (report : ReportRow) × (row : PositionRow) × (first_run.0 ≡ reported report)
    × (report.status ≡ "FILLED")
    × (report.broker_ticket ≡ some row.broker_ticket)
    × (first_run.1.db.positions ≡ [] ++ row ∷ [])
    × Opens first_dispatch first_request (dec 10 2) fresh_world row
execute_approved_signal_filled_example =
    execute_approved_signal_filled first_dispatch first_request (dec 10 2) fresh_world permitted
      (omega arith) fresh_world-IsSynced

-- After a restart of the broker's counter the first ticket is on a row already.
abbrev old_row : PositionRow
old_row = record {
  account_id = "a1";
  command_id = none;
  broker_ticket = 1000001;
  symbol = "XAUUSD";
  side = "BUY";
  lots = dec 10 2;
  open_price = dec 200020 2;
  stop_loss = none;
  take_profit = none;
  current_price = none;
  unrealized_pnl_usd = dec 0 2;
  commission_usd = dec 0 2;
  swap_usd = dec 0 2;
  status = opened;
  opened_at = 0;
  closed_at = none;
  close_price = none;
}

abbrev pub restarted_world : World
restarted_world = record fresh_world { db = record empty_database { positions = old_row ∷ [] } }

Permitted-again : Permitted first_dispatch first_request restarted_world (dec 10 2)
unfolding trading_allowed key_exists leb_dec
Permitted-again = record { allowed = refl; authorized = refl; positive = refl; new_key = refl }

execute_approved_signal-violated_example :
    let (o, w') = execute_approved_signal first_dispatch first_request restarted_world in
    (o ≡ constraint_violated)
    × (w'.db ≡ restarted_world.db)
    × (w'.simulator ≡ (answer first_dispatch first_request (dec 10 2) restarted_world).1)
execute_approved_signal-violated_example =
    execute_approved_signal-violated first_dispatch first_request (dec 10 2) restarted_world
      Permitted-again (omega arith) refl
