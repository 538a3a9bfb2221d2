-- ===== src/Services/ExecutionService/Clean.antt =====
-- The execution service as a whole: what is filled, and that reconciliation then has no objection.
use aurexis.Base.{◌+◌, ◌≤◌, String, true, false, ◌≡◌, refl, some, [], ◌∷◌, ◌++◌, arith, any}
use aurexis.Decimal.{Decimal}
use aurexis.Execution.Commands.{is_expired, transition_to, valid_transitions, state_in}
use aurexis.Execution.Reconciliation.{has_critical_discrepancy, side_text}
use aurexis.Execution.Reconciliation.Verdict.{has_critical_discrepancy_iff}
use aurexis.Execution.Simulator.{open_order}
use aurexis.Services.Database.{PositionRow, ReportRow, opened, has_ticket, record_audit_event}
use aurexis.Services.ExecutionService.{
  Dispatch, Request, World, Outcome, constraint_violated, reported, dispatched_lots,
  command_lifetime, order_type_of, new_command, report_row, position_row,
}
use aurexis.Services.ExecutionService.Operations.{
  written, sent_command, dispatch_command, execute_approved_signal, server_positions,
  reconcile_account_positions,
}
use aurexis.Services.ExecutionService.Permission.{
  Permitted, Attempt, denied, sent_order, execute_approved_signal-Attempt,
}
use aurexis.Services.ExecutionService.Sync.{broker_book, IsSynced}
use aurexis.Services.ExecutionService.Fills.{
  order, answer, new_row, opened_rows-answer, live-answer, account-order, dispatch_command-live,
  dispatch_command-IsSynced,
}

Attempt-IsSynced :
    (d : Dispatch) (q : Request) (w : World) {r : Outcome × World}
    → Attempt d q w r
    → IsSynced q.account_id w
    → IsSynced q.account_id r.1
Attempt-IsSynced d q w (denied why) h = h
Attempt-IsSynced d q w (sent_order lots p) h = dispatch_command-IsSynced d q lots w h

-- However the call ends, the server's rows of the account still track every position of the broker,
-- if they did before.
pub execute_approved_signal-IsSynced :
    (d : Dispatch) (q : Request) (w : World)
    → IsSynced q.account_id w
    → IsSynced q.account_id (execute_approved_signal d q w).1
execute_approved_signal-IsSynced d q w h =
    Attempt-IsSynced d q w (execute_approved_signal-Attempt d q w) h

-- On such a state the service's reconciliation with the broker's own positions halts nothing and
-- writes nothing.
pub reconcile_account_positions-IsSynced :
    (account : String) (w : World)
    → IsSynced account w
    → let (result, db') = reconcile_account_positions account (broker_book w) w.db in
      (has_critical_discrepancy result ≡ false) × (db' ≡ w.db)
unfolding reconcile_account_positions
reconcile_account_positions-IsSynced account w h =
    let quiet =
      (has_critical_discrepancy_iff account (server_positions account w.db) (broker_book w)).1
        h.tracked in
    (quiet, rw quiet refl)

-- From a state where the server tracks the broker's positions, however `execute_approved_signal`
-- ends, reconciliation of the account against the broker then finds no critical discrepancy.
pub reconcile-execute_approved_signal :
    (d : Dispatch) (q : Request) (w : World)
    → IsSynced q.account_id w
    → let w' = (execute_approved_signal d q w).1 in
      has_critical_discrepancy (reconcile_account_positions q.account_id (broker_book w') w'.db).0
      ≡ false
reconcile-execute_approved_signal d q w h =
    (reconcile_account_positions-IsSynced q.account_id (execute_approved_signal d q w).1
      (execute_approved_signal-IsSynced d q w h)).0

module _ (d : Dispatch) (q : Request) (lots : Decimal) (w : World) where
  -- The broker gets the command within its life.
  abbrev pub InTime : Type 0
  InTime = d.broker_at ≤ d.created_at + command_lifetime

  is_expired-InTime : InTime → is_expired d.broker_at (order d q lots w) ≡ false
  unfolding is_expired sent_command new_command transition_to valid_transitions state_in
  is_expired-InTime h = ground arith

  dispatched :
      Permitted d q w lots
      → execute_approved_signal d q w ≡ dispatch_command d q (sent_command d q lots) w
  unfolding execute_approved_signal dispatched_lots
  dispatched p = ground arith

  -- The position that the row records: the signal's side, the authorized lots, the broker's ticket.
  pub record Opens (row : PositionRow) : Type 0 where
    pub at_ticket : row.broker_ticket ≡ w.simulator.ticket_counter + 1
    pub of_account : row.account_id ≡ q.account_id
    pub of_side : row.side ≡ side_text (order_type_of q.signal.direction)
    pub of_lots : row.lots ≡ lots
    pub is_open : row.status ≡ opened

  new_row-Opens : Opens (new_row d q lots w)
  unfolding position_row open_order sent_command new_command transition_to valid_transitions
      state_in
  new_row-Opens = record {
    at_ticket = refl;
    of_account = refl;
    of_side = refl;
    of_lots = ground arith;
    is_open = refl;
  }

  -- From a state where the server tracks the broker's positions, an order that the decision permits
  -- and that reaches the broker in time is filled: the report says so, and one open position of
  -- the authorized lots on the signal's side is added to the account's rows under the broker's ticket.
  pub execute_approved_signal_filled :
      Permitted d q w lots
      → InTime
      → IsSynced q.account_id w
      → let (o, w') = execute_approved_signal d q w in
        (report : ReportRow) × (row : PositionRow) × (o ≡ reported report)
        × (report.status ≡ "FILLED")
        × (report.broker_ticket ≡ some row.broker_ticket)
        × (w'.db.positions ≡ w.db.positions ++ row ∷ [])
        × Opens row
  unfolding written record_audit_event report_row open_order position_row
  execute_approved_signal_filled p soon h =
      rw (dispatched p, dispatch_command-live d q lots w (is_expired-InTime soon) h)
        (
          report_row q (order d q lots w) (answer d q lots w).0,
          new_row d q lots w,
          refl,
          refl,
          refl,
          rw (opened_rows-answer d q lots w) refl,
          new_row-Opens,
        )

  -- Where a row of the account already has the broker's next ticket, an order that is permitted and in
  -- time leaves no trace in the database, though the broker has filled it.
  pub execute_approved_signal-violated :
      Permitted d q w lots
      → InTime
      → any (has_ticket q.account_id (w.simulator.ticket_counter + 1)) w.db.positions ≡ true
      → let (o, w') = execute_approved_signal d q w in
        (o ≡ constraint_violated) × (w'.db ≡ w.db) × (w'.simulator ≡ (answer d q lots w).1)
  unfolding dispatch_command position_row
  execute_approved_signal-violated p soon taken =
      rw
        (
          dispatched p,
          live-answer d q lots w (is_expired-InTime soon),
          opened_rows-answer d q lots w,
          account-order d q lots w,
          taken,
        )
        (refl, refl, refl)
