-- ===== src/Services/ExecutionService/Operations.antt =====
-- The two methods of `ExecutionService`: `execute_approved_signal` and `reconcile_account_positions`.
use aurexis.Base.{
  String, Bool, false, not, ◌&&◌, none, some, List, [], ◌∷◌, ◌++◌, any, select, str_eq,
  if◌then◌else◌, insert, ℕ_key,
}
use aurexis.Decimal.{Decimal}
use aurexis.Risk.Snapshot.{trading_allowed}
use aurexis.Execution.Commands.{sent, ExecutionCommand, transition_to}
use aurexis.Execution.Reports.{ExecutionReport, PositionReport}
use aurexis.Execution.Reconciliation.{
  ServerPosition, Positions, ReconciliationResult, has_critical_discrepancy, reconcile,
}
use aurexis.Execution.Simulator.{execute_command}
use aurexis.Services.Database.{PositionRow, is_opened, Database, record_audit_event, has_ticket}
use aurexis.Services.ExecutionService.{
  Dispatch, Request, World, Outcome, refused, constraint_violated, reported, dispatched_lots,
  command_key, key_exists, new_command, command_row, report_row, position_row, opened_ticket,
}

-- The rows of the positions that the report opens.
unfoldable pub opened_rows : Request → ExecutionCommand → ExecutionReport → List PositionRow
unfolding opened_ticket
opened_rows q c r = elim (opened_ticket r) [
  | none ↦ []
  | some ticket ↦ position_row q c r ticket ∷ []
]

-- `uq_positions_account_ticket`: the new row has the account and the ticket of a row.
abbrev pub clashes : List PositionRow → List PositionRow → Bool
clashes rows [] = false
clashes rows (new ∷ _) = any (has_ticket new.account_id new.broker_ticket) rows

-- What the call writes, as one transaction.
unfoldable pub written :
    Dispatch → Request → ExecutionCommand → ExecutionReport → Database → Database
written d q c r db = record_audit_event "COMMAND_DISPATCHED" "INFO" q.account_id none (record db {
  commands = db.commands ++ command_row d q c r.status ∷ [];
  reports = db.reports ++ report_row q c r ∷ [];
  positions = db.positions ++ opened_rows q c r;
})

-- `mem_command.transition_to(CommandState.SENT)`
unfoldable pub sent_command : Dispatch → Request → Decimal → ExecutionCommand
sent_command d q lots = (transition_to d.sent_at (new_command d q lots) sent none).0

-- From the command on. Where the constraint is violated the transaction is rolled back, and the
-- broker has filled the order.
unfoldable pub dispatch_command : Dispatch → Request → ExecutionCommand → World → Outcome × World
dispatch_command d q c w =
    let (r, simulator) = execute_command d.broker_at c q.current_price w.simulator in
    if clashes w.db.positions (opened_rows q c r)
    then (constraint_violated, record w { simulator = simulator })
    else (reported (report_row q c r), record { db = written d q c r w.db; simulator = simulator })

unfoldable pub execute_approved_signal : Dispatch → Request → World → Outcome × World
execute_approved_signal d q w =
    if not (trading_allowed q.decision) then (refused, w) else elim (dispatched_lots q.decision) [
      | none ↦ (refused, w)
      | some lots ↦
          if key_exists (command_key d q) w.db
          then (refused, w)
          else dispatch_command d q (sent_command d q lots) w
    ]

-- The rows of the account's open positions, and the dict that is built from them, which has no
-- entry for the status.
abbrev pub is_open_row : String → PositionRow → Bool
is_open_row account row = str_eq row.account_id account && is_opened row.status

abbrev pub server_entry : PositionRow → ServerPosition
server_entry row = record { lots = some row.lots; side = some row.side; status = none }

unfoldable pub add_entries : Positions → List PositionRow → Positions
add_entries known [] = known
add_entries known (row ∷ rows) =
    add_entries (insert row.broker_ticket (server_entry row) known) rows

unfoldable pub server_positions : String → Database → Positions
unfolding add_entries
server_positions account db = add_entries [] (select (is_open_row account) db.positions)

unfoldable pub reconcile_account_positions :
    String → List PositionReport → Database → ReconciliationResult × Database
unfolding server_positions
reconcile_account_positions account broker db =
    let result = reconcile account (server_positions account db) broker in
    (
      result,
      if has_critical_discrepancy result
          then record_audit_event "RECONCILIATION_MISMATCH" "INFO" account none db
          else db,
    )
