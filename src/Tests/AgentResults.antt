-- ===== src/Tests/AgentResults.antt =====
-- The results of an agent at concrete inputs, and the rows that they make.
use aurexis.Base.{◌≡◌, refl, none, some, String, [], ◌∷◌, ◌++◌, lookup, ℕ_key, pos}
use aurexis.Decimal.{dec, leb_dec}
use aurexis.Risk.Snapshot.{trading_allowed}
use aurexis.Execution.Commands.{transition_to, valid_transitions, state_in, is_expired}
use aurexis.Execution.Simulator.{execute_command, dispatch, open_order}
use aurexis.Services.Database.{Database, record_audit_event}
use aurexis.Services.ExecutionService.{key_exists, dispatched_lots, new_command, position_row}
use aurexis.Services.AgentCommands.{AgentCommand, completed}
use aurexis.Services.ExecutionService.Operations.{
  opened_rows, written, sent_command, dispatch_command, execute_approved_signal, server_positions,
}
use aurexis.Services.ExecutionService.AgentResults.{
  absent, readable, Target, no_ticket, refused_ticket, AgentResult, result_ticket, with_result,
  result_position, synchronized, record_agent_execution_result,
}
use aurexis.Services.ExecutionService.Tickets.{
  HasUniqueTickets, Step, here, next, Reach-HasUniqueTickets,
}
use aurexis.Services.ExecutionService.RoundTrip.{Completes, recorded, record-record_open_close}
use aurexis.Tests.Orders.{fresh_world, first_dispatch, first_request, first_run, restarted_world}

abbrev open_command : AgentCommand
open_command = record {
  id = 1;
  agent_id = 7;
  command_type = "OPEN_POSITION";
  status = completed;
  payload_json = none;
  result_json = none;
  error_message = none;
  sent_at = none;
  acknowledged_at = none;
  completed_at = none;
}

abbrev close_command : AgentCommand
close_command = record open_command { id = 2; command_type = "CLOSE_POSITION" }

abbrev agent_result : AgentResult
agent_result = record {
  position_ticket = readable 555;
  order_ticket = absent;
  deal_ticket = absent;
  executed_price = readable (dec 200030 2);
  executed_volume = readable (dec 10 2);
  retcode = readable (pos 10009);
  retcode_description = none;
  symbol = some "XAUUSD";
  side = some "BUY";
}

abbrev no_payload : String → Target
no_payload text = no_ticket

abbrev opened_db : Database
opened_db =
    with_result 200 "a1" open_command agent_result none first_run.1.db
      (first_run.1.db.positions ++ result_position 200 "a1" agent_result 555 ∷ [])

opens_row :
    record_agent_execution_result no_payload 200 "a1" open_command agent_result none first_run.1.db
    ≡ some opened_db
unfolding record_agent_execution_result synchronized result_ticket execute_approved_signal
    dispatch_command trading_allowed key_exists leb_dec dispatched_lots sent_command new_command
    transition_to valid_transitions state_in is_expired execute_command dispatch open_order
    opened_rows result_position written record_audit_event position_row
opens_row = refl

Reach-HasUniqueTickets_example : HasUniqueTickets opened_db.positions
Reach-HasUniqueTickets_example =
    Reach-HasUniqueTickets {w = fresh_world}
      (next (next here (Step.order first_dispatch first_request fresh_world)) (
        Step.result no_payload 200 "a1" open_command agent_result none first_run.1 opened_db
          opens_row))
      tt

open-Completes : Completes open_command "OPEN_POSITION" agent_result 555
unfolding result_ticket
open-Completes = record { done = refl; of_type = refl; of_ticket = refl; nonzero_ticket = refl }

close-Completes : Completes close_command "CLOSE_POSITION" agent_result 555
unfolding result_ticket
close-Completes = record { done = refl; of_type = refl; of_ticket = refl; nonzero_ticket = refl }

record-record_open_close_example :
    (between after : Database) × (recorded no_payload "a1" 200 open_command agent_result none
        restarted_world.db
      ≡ some between)
    × (recorded no_payload "a1" 300 close_command agent_result none between ≡ some after)
    × (lookup 555 (server_positions "a1" after)
        ≡ lookup 555 (server_positions "a1" restarted_world.db))
record-record_open_close_example =
    record-record_open_close no_payload "a1" 200 300 open_command close_command agent_result
      agent_result none none 555 restarted_world.db open-Completes close-Completes refl (refl, tt)
      555

-- A payload whose ticket `int` refuses: the call raises.
abbrev bare_result : AgentResult
bare_result = record agent_result { position_ticket = absent }

abbrev with_payload : AgentCommand
with_payload = record close_command { payload_json = some "{}" }

refused_close :
    recorded (λ text. refused_ticket) "a1" 300 with_payload bare_result none restarted_world.db
    ≡ none
unfolding record_agent_execution_result synchronized result_ticket
refused_close = refl
