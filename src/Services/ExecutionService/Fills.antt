-- ===== src/Services/ExecutionService/Fills.antt =====
-- A live order of `execute_approved_signal` is filled, and the two sides stay in step.
use aurexis.Base.{
  ℕ, ◌+◌, true, false, ◌≡◌, refl, inl, inr, [], ◌∷◌, ◌++◌, append-nil, arith, eq_refl, Bool-cases,
  insert, ℕ_key,
}
use aurexis.Decimal.{value_or, Decimal, eqb_dec}
use aurexis.Execution.Commands.{
  ExecutionCommand, is_expired, transition_to, valid_transitions, state_in,
}
use aurexis.Execution.Reports.{PositionReport, ExecutionReport}
use aurexis.Execution.Simulator.{
  Simulator, opened_position, market_side, open_order, dispatch, execute_command,
}
use aurexis.Services.Database.{PositionRow, record_audit_event}
use aurexis.Services.ExecutionService.{
  Dispatch, Request, World, reported, opened_ticket, position_row, report_row, new_command,
}
use aurexis.Services.ExecutionService.Operations.{
  opened_rows, clashes, written, sent_command, dispatch_command, server_positions,
}
use aurexis.Services.ExecutionService.Sync.{IsSynced, add-IsSynced, fresh-clashes, eqb_dec_refl}

module _ (d : Dispatch) (q : Request) (lots : Decimal) (w : World) where
  abbrev pub order : ExecutionCommand
  order = sent_command d q lots

  -- The broker's report of a live order, and its book after it.
  abbrev pub answer : ExecutionReport × Simulator
  answer = open_order d.broker_at order q.current_price w.simulator

  abbrev pub ticket : ℕ
  ticket = w.simulator.ticket_counter + 1

  abbrev pub new_row : PositionRow
  new_row = position_row q order answer.0 ticket

  abbrev pub new_position : PositionReport
  new_position =
      opened_position d.broker_at order ticket
        (value_or q.current_price (market_side w.simulator order.order_type))

  pub live-answer :
      is_expired d.broker_at order ≡ false
      → execute_command d.broker_at order q.current_price w.simulator ≡ answer
  unfolding execute_command dispatch sent_command new_command transition_to valid_transitions
      state_in
  live-answer live = rw live refl

  pub opened_rows-answer : opened_rows q order answer.0 ≡ new_row ∷ []
  unfolding opened_rows opened_ticket open_order
  opened_rows-answer = ground arith

  pub account-order : order.account_id ≡ q.account_id
  unfolding sent_command new_command transition_to valid_transitions state_in
  account-order = refl

  free-clashes : IsSynced q.account_id w → clashes w.db.positions (new_row ∷ []) ≡ false
  unfolding position_row
  free-clashes h = rw account-order (
      fresh-clashes q.account_id w.simulator.ticket_counter ticket w.db.positions (omega arith)
        h.given_out)

  -- On a synced world a live order is filled.
  pub dispatch_command-live :
      is_expired d.broker_at order ≡ false
      → IsSynced q.account_id w
      → dispatch_command d q order w ≡ (
        reported (report_row q order answer.0),
        record { db = written d q order answer.0 w.db; simulator = answer.1 },
      )
  unfolding dispatch_command
  dispatch_command-live live h = rw (live-answer live, opened_rows-answer, free-clashes h) refl

  same_lots : eqb_dec new_row.lots new_position.lots ≡ true
  unfolding position_row open_order
  same_lots = ground (arith, eqb_dec_refl order.volume_lots)

  filled-IsSynced :
      IsSynced q.account_id w
      → IsSynced q.account_id
          (record { db = written d q order answer.0 w.db; simulator = answer.1 })
  unfolding written record_audit_event server_positions position_row open_order
  filled-IsSynced h =
      rw opened_rows-answer
        (record { tracked = h'.tracked; held = h'.held; given_out = h'.given_out })
    where
      h' : IsSynced q.account_id (record {
        db = record w.db { positions = w.db.positions ++ new_row ∷ [] };
        simulator = record w.simulator {
          ticket_counter = ticket;
          positions = insert ticket new_position w.simulator.positions;
        };
      })
      h' =
          add-IsSynced q.account_id w.db w.simulator new_row new_position h
            (rw account-order (rw eq_refl refl)) refl refl same_lots refl

  late-IsSynced :
      is_expired d.broker_at order ≡ true
      → IsSynced q.account_id w
      → IsSynced q.account_id (dispatch_command d q order w).1
  unfolding dispatch_command execute_command written opened_rows record_audit_event server_positions
  late-IsSynced late h =
      rw (late, append-nil) (record { tracked = h.tracked; held = h.held; given_out = h.given_out })

  pub dispatch_command-IsSynced :
      IsSynced q.account_id w → IsSynced q.account_id (dispatch_command d q order w).1
  dispatch_command-IsSynced h = elim (Bool-cases (is_expired d.broker_at order)) [
    | inl late ↦ late-IsSynced late h
    | inr live ↦ rw (dispatch_command-live live h) (filled-IsSynced h)
  ]
