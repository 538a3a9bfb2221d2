-- ===== src/Tests/Risk.antt =====
-- The risk engine at concrete inputs.
use aurexis.Base.{◌≡◌, ◌⊎◌, refl, true, false, none, some, pos}
use aurexis.Decimal
use aurexis.Decimal.{Decimal, dec, ok, mul}
use aurexis.Brain.Interfaces.{CandidateSignal, SignalDirection}
use aurexis.Risk.States.{RiskState, SignalDecision}
use aurexis.Risk.Config.{RiskConfig, default_config, is_fully_configured}
use aurexis.Risk.Sizing.{calculate_lot_size}
use aurexis.Risk.Snapshot.{AccountRiskSnapshot, ReasonCode, RiskDecision, trading_allowed}
use aurexis.Risk.Gates.{Runtime, profit_lock}
use aurexis.Risk.Gates.Checks.{
  emergency_gate, configuration_gate, market_gate, news_gate, daily_loss_gate, drawdown_gate,
  profit_lock_gate, positions_gate, lots_gate, approval,
}
use aurexis.Risk.Engine.{authorized_lots, early_decision, late_decision, evaluate}
use aurexis.Risk.Engine.Approval.{
  IsConfigured, IsCoherent, Decides, approves, evaluate-IsCoherent, evaluate_precedence,
}

abbrev clock : Runtime
clock = record { now = 1000; elapsed_ms = λ t. pos 5; fresh_id = "r1" }

abbrev limits : RiskConfig
limits = record default_config {
  daily_loss_limit_usd = some (dec 500 0);
  max_drawdown_usd = some (dec 1000 0);
  max_open_positions = some (pos 3);
  max_open_lots = some (dec 1 0);
  risk_per_trade_pct = some (dec 1 2);
}

abbrev account : AccountRiskSnapshot
account = record {
  account_id = "a1";
  current_balance_usd = dec 10000 0;
  current_equity_usd = dec 10000 0;
  equity_peak_usd = dec 10200 0;
  daily_realized_pnl_usd = dec 0 0;
  daily_floating_pnl_usd = dec 0 0;
  open_position_count = pos 1;
  snapshot_at = 1000;
  session_open_equity_usd = none;
  session_peak_profit_usd = none;
  open_lot_exposure = dec 10 2;
  in_flight_lot_exposure = dec 0 2;
}

abbrev signal : CandidateSignal
signal = record {
  symbol = "XAUUSD";
  direction = SignalDirection.buy;
  confidence_score = some (dec 80 0);
  suggested_stop_loss = some (dec 199517 2);
  suggested_take_profit = none;
  strategy_id = "s1";
  strategy_version = "1";
  is_configured = true;
  entry_reference = some (dec 200020 2);
}

approved_run : approves (evaluate clock limits none account (some signal) none none none) ≡ true
unfolding evaluate early_decision late_decision emergency_gate configuration_gate market_gate
    news_gate daily_loss_gate drawdown_gate profit_lock_gate positions_gate lots_gate approval
    trading_allowed profit_lock is_fully_configured authorized_lots calculate_lot_size Decimal.abs
    Decimal.sub Decimal.add Decimal.neg mul Decimal.div Decimal.quantize Decimal.ltb_dec
    Decimal.leb_dec
approved_run = refl

abbrev stopped : RiskConfig
stopped = record limits { emergency_stop_active = true }

abbrev stop_decision : RiskDecision
stop_decision = record {
  decision = SignalDecision.emergency;
  reason_code = ReasonCode.emergency_stop_active;
  risk_state = RiskState.emergency_stop;
  account_id = "a1";
  correlation_id = "r1";
  decided_at = 1000;
  equity_at_decision = some (dec 10000 0);
  drawdown_at_decision = none;
  daily_pnl_at_decision = none;
  profit_lock_status = none;
  authorized_lot_size = none;
}

stop_run : evaluate clock stopped none account (some signal) none none none ≡ ok stop_decision
unfolding evaluate early_decision emergency_gate
stop_run = refl

evaluate-IsCoherent_example : IsCoherent stop_decision
evaluate-IsCoherent_example =
    evaluate-IsCoherent clock stopped none account (some signal) none none none stop_decision
      stop_run

evaluate_precedence_example :
    let r = evaluate clock stopped none account none none none none in
    ((true ≡ true) × Decides r SignalDecision.emergency)
    ⊎ (((true ≡ false) × (¬ IsConfigured stopped) × Decides r SignalDecision.not_configured)
        ⊎ ((true ≡ false) × IsConfigured stopped))
evaluate_precedence_example = evaluate_precedence clock stopped none account none none none none
