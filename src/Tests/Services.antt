-- ===== src/Tests/Services.antt =====
-- The agent's commands and the gate at concrete inputs.
use aurexis.Base.{
  ℕ, ◌+◌, ◌≡◌, ◌↔◌, refl, inl, true, none, some, String, List, [], ◌∷◌, ◌++◌, All, map, length, min,
  pos, arith,
}
use aurexis.Decimal
use aurexis.Decimal.{dec}
use aurexis.Risk.Config.{RiskConfig, default_config}
use aurexis.Risk.Snapshot.{AccountRiskSnapshot}
use aurexis.Services.AgentCommands.{
  supported_command_type, AgentCommand, CommandStatus, pending, acknowledged, completed, failed,
  Database, command_sent, event_of, get_command,
}
use aurexis.Services.AgentCommands.Operations.{
  Environment, claim_pending_commands, acknowledge_command, fail_command, complete_command,
}
use aurexis.Services.AgentCommands.Claims.{
  backlog, others, IsClaimed, Splits, claim_pending_commands_lem,
}
use aurexis.Services.AgentCommands.Transitions.{Outcome, reports-Outcome}
use aurexis.Services.AgentCommands.Calls.{
  Call, claim, acknowledge, complete, fail, run_calls, HasKey, run_calls-get_command,
}
use aurexis.Services.RiskGate.{
  Tick, allow, Surroundings, normalize_symbol, starts_with, evaluate_freshness,
}
use aurexis.Services.RiskGate.Checks.{
  tick_used, evaluate_risk_gate, all_checks, kill_switch_check, symbol_check, agent_check,
  tick_check, price_check, account_check, limits_check, news_check,
}
use aurexis.Services.RiskGate.Allowed.{EntryAllowed, evaluate_risk_gate_allows_iff}

abbrev row : ℕ → ℕ → CommandStatus → AgentCommand
row id agent_id status = record {
  id = id;
  agent_id = agent_id;
  command_type = "PING";
  status = status;
  payload_json = none;
  result_json = none;
  error_message = none;
  sent_at = none;
  acknowledged_at = none;
  completed_at = none;
}

abbrev table : Database
table = record {
  rows = row 1 10 pending ∷ row 2 11 pending ∷ row 3 10 completed ∷ row 4 10 pending ∷ [];
  audit = [];
}

-- Texts stand for values that serialize to themselves.
abbrev now_at : ℕ → Environment String
now_at t = record { now = t; fresh_id = 9; upper = λ s. s; dumps = some }

claimed_two : map (λ c. c.id) (claim_pending_commands 50 10 5 table).0 ≡ 1 ∷ 4 ∷ []
unfolding claim_pending_commands
claimed_two = refl

claim_pending_commands_lem_example :
    let (got, db') = claim_pending_commands 50 10 5 table in
    (length got ≡ min 5 (backlog 10 table.rows))
    × (length got + backlog 10 db'.rows ≡ backlog 10 table.rows)
    × All (IsClaimed 50 10) got
    × (others 10 db'.rows ≡ others 10 table.rows)
    × (db'.audit ≡ [] ++ map (λ c. event_of command_sent c none) got)
    × Splits 50 10 table.rows db'.rows got
claim_pending_commands_lem_example = claim_pending_commands_lem 50 10 5 table

reports-Outcome_example :
    let found = get_command 10 1 table in
    Outcome acknowledged found table (acknowledge_command 70 10 1 table)
    × Outcome failed found table (fail_command 70 10 1 (some "no") table)
    × Outcome completed found table (complete_command (now_at 70) 10 1 (some "ok") table)
reports-Outcome_example = reports-Outcome (now_at 70) 70 10 1 (some "no") (some "ok") table

table-HasKey : HasKey table.rows
table-HasKey = ground arith

third_found : get_command 10 3 table ≡ some (row 3 10 completed)
unfolding get_command
third_found = refl

abbrev calls : List (Call String)
calls =
    claim 50 10 5 ∷ fail 60 10 3 none ∷ complete (now_at 70) 10 1 none ∷ acknowledge 80 11 3 ∷ []

run_calls-get_command_example :
    HasKey (run_calls calls table).rows
    × (get_command 10 3 (run_calls calls table) ≡ some (row 3 10 completed))
run_calls-get_command_example =
    run_calls-get_command 10 3 (row 3 10 completed) calls table table-HasKey third_found (inl refl)

abbrev gate_config : RiskConfig
gate_config = record default_config {
  daily_loss_limit_usd = some (dec 500 0);
  max_drawdown_usd = some (dec 1000 0);
  max_spread_usd = some (dec 50 2);
}

abbrev gate_account : AccountRiskSnapshot
gate_account = record {
  account_id = "a1";
  current_balance_usd = dec 10000 0;
  current_equity_usd = dec 10000 0;
  equity_peak_usd = dec 10200 0;
  daily_realized_pnl_usd = dec 0 0;
  daily_floating_pnl_usd = dec 0 0;
  open_position_count = pos 1;
  snapshot_at = 1000;
  session_open_equity_usd = none;
  session_peak_profit_usd = none;
  open_lot_exposure = dec 10 2;
  in_flight_lot_exposure = dec 0 2;
}

abbrev gate_tick : Tick
gate_tick = record {
  received_at = some 900;
  bid = some (dec 200000 2);
  ask = some (dec 200020 2);
  spread = some (dec 20 2);
}

abbrev surroundings : Surroundings
surroundings = record {
  runtime = record { now = 1000; elapsed_ms = λ t. pos 5; fresh_id = "r1" };
  strip_upper = λ s. s;
  config = gate_config;
  agent = some "agent";
  is_connected = λ id. true;
  latest = λ symbol. some gate_tick;
  account_active = true;
  snapshot = gate_account;
  news =
      record {
        currency = "USD";
        impact = "HIGH";
        pre_event_window_start = 2000;
        post_event_window_end = 3000;
      }
      ∷ [];
}

gate_allows : (evaluate_risk_gate surroundings "XAUUSD.m" none none).decision ≡ allow
unfolding evaluate_risk_gate all_checks kill_switch_check symbol_check agent_check tick_check
    price_check account_check limits_check news_check normalize_symbol starts_with
    evaluate_freshness Decimal.ltb_dec Decimal.leb_dec Decimal.add Decimal.sub Decimal.neg
gate_allows = refl

evaluate_risk_gate_allows_iff_example :
    ((evaluate_risk_gate surroundings "XAUUSD.m" none none).decision ≡ allow)
    ↔ EntryAllowed surroundings "XAUUSD.m" (tick_used surroundings "XAUUSD.m" none) none
evaluate_risk_gate_allows_iff_example =
    evaluate_risk_gate_allows_iff surroundings "XAUUSD.m" none none

ping-supported : supported_command_type "PING" ≡ true
unfolding supported_command_type
ping-supported = refl
