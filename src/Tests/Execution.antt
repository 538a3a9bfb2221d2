-- ===== src/Tests/Execution.antt =====
-- Commands, the simulated broker and reconciliation at concrete inputs.
use aurexis.Base.{ℕ, ◌≡◌, ◌↔◌, ◌⊎◌, refl, true, false, none, some, List, [], ◌∷◌, All, ℕ_key, pos}
use aurexis.Decimal.{dec, eqb_dec}
use aurexis.Execution.Commands.{
  created, sent, acknowledged, executing, filled, reconciled, order_open, order_close,
  position_modify, buy, ExecutionCommand, is_expired, is_terminal, transition_to,
}
use aurexis.Execution.Commands.Lifecycle.{◌⟶◌, moved, transition_to_edge}
use aurexis.Execution.Commands.History.{Request, run}
use aurexis.Execution.Reports.{PositionReport}
use aurexis.Execution.Reconciliation.{Positions, has_critical_discrepancy, reconcile}
use aurexis.Execution.Reconciliation.Loop.{Tracked}
use aurexis.Execution.Reconciliation.Verdict.{Live, has_critical_discrepancy_iff, is_clean_iff}
use aurexis.Execution.Simulator.{Simulator, new_simulator, execute_command}
use aurexis.Execution.Simulator.Book.{IsBook, new_simulator-IsBook, execute_command-IsBook}

abbrev new_command : ExecutionCommand
new_command = record {
  command_id = "c1";
  account_id = "a1";
  action = order_open;
  symbol = "XAUUSD";
  order_type = buy;
  volume_lots = dec 10 2;
  price = dec 200020 2;
  slippage_points = pos 50;
  idempotency_key = "k1";
  correlation_id = "r1";
  state = created;
  signal_id = none;
  stop_loss = none;
  take_profit = none;
  magic_number = 1;
  position_ticket = none;
  created_at = 0;
  expires_at = 1000;
  sent_at = none;
  acknowledged_at = none;
  fill_price = none;
  fill_volume_lots = none;
  broker_ticket = none;
  rejection_reason = none;
}

-- Sent, acknowledged, an early close that is refused, executing, filled.
abbrev requests : List Request
requests =
    record { at = 1; target = sent; reason = none }
    ∷ record { at = 2; target = acknowledged; reason = none }
    ∷ record { at = 3; target = reconciled; reason = none }
    ∷ record { at = 4; target = executing; reason = none }
    ∷ record { at = 5; target = filled; reason = some "done" }
    ∷ []

run_to_fill : (run requests new_command).0.state ≡ filled
unfolding run transition_to
run_to_fill = refl

transition_to_edge_example :
    let (c', made) = transition_to 7 new_command filled none in
    ((created ⟶ filled) × (made ≡ true) × (c' ≡ moved 7 filled none new_command))
    ⊎ ((¬ (created ⟶ filled)) × (made ≡ false) × (c' ≡ new_command))
transition_to_edge_example = transition_to_edge 7 new_command filled none

abbrev filled_command : ExecutionCommand
filled_command = record new_command { state = filled; sent_at = some 1; acknowledged_at = some 2 }

filled-is_terminal : is_terminal filled_command ≡ true
unfolding is_terminal
filled-is_terminal = refl

filled-settles : (transition_to 9 filled_command reconciled none).1 ≡ true
unfolding transition_to
filled-settles = refl

abbrev broker : Simulator
broker = new_simulator (dec 200000 2) (dec 200020 2)

execute_command-IsBook_example : IsBook (execute_command 5 new_command none broker).1
execute_command-IsBook_example =
    execute_command-IsBook 5 new_command none broker
      (new_simulator-IsBook (dec 200000 2) (dec 200020 2))

new-live : is_expired 5 new_command ≡ false
unfolding is_expired
new-live = refl

abbrev close_command : ExecutionCommand
close_command = record new_command { action = order_close; position_ticket = some 1000001 }

close-live : is_expired 5 close_command ≡ false
unfolding is_expired
close-live = refl

abbrev traded : Simulator
traded = (execute_command 5 new_command none broker).1

abbrev modify_command : ExecutionCommand
modify_command = record new_command { action = position_modify }

abbrev position_at : ℕ → PositionReport
position_at ticket = record {
  account_id = "a1";
  broker_ticket = ticket;
  symbol = "XAUUSD";
  side = buy;
  lots = dec 10 2;
  open_price = dec 200020 2;
  current_price = dec 200020 2;
  stop_loss = none;
  take_profit = none;
  unrealized_pnl_broker = dec 0 2;
  commission_broker = dec 0 2;
  swap_broker = dec 0 2;
  magic_number = 1;
  reported_at = 5;
}

-- 7 is tracked with its lots in another scale, 8 has other lots; the broker also has 9.
abbrev tracked : Positions
tracked =
    (7, record { lots = some (dec 1 1); side = some "BUY"; status = some "OPEN" })
    ∷ (8, record { lots = some (dec 5 2); side = some "BUY"; status = some "OPEN" })
    ∷ []

abbrev reported : List PositionReport
reported = position_at 7 ∷ position_at 8 ∷ position_at 9 ∷ []

one_match : (reconcile "a1" tracked reported).matched_count ≡ 1
unfolding reconcile eqb_dec
one_match = refl

has_critical_discrepancy_iff_example :
    (has_critical_discrepancy (reconcile "a1" tracked reported) ≡ false)
    ↔ All (Tracked tracked) reported
has_critical_discrepancy_iff_example = has_critical_discrepancy_iff "a1" tracked reported

is_clean_iff_example :
    ((reconcile "a1" tracked reported).is_clean ≡ true)
    ↔ (All (Tracked tracked) reported × All (Live "a1" tracked reported) tracked)
is_clean_iff_example = is_clean_iff "a1" tracked reported
