-- ===== src/Services/ExecutionService/Permission.antt =====
-- When `execute_approved_signal` sends an order, and what it then writes.
use aurexis.Base.{
  ℕ, String, true, false, ◌≡◌, refl, ◌⊎◌, inl, inr, none, some, [], ◌∷◌, ◌++◌, arith, Bool-cases,
  Option-cases,
}
use aurexis.Decimal.{Decimal, dec_zero, leb_dec}
use aurexis.Risk.Snapshot.{trading_allowed}
use aurexis.Execution.Commands.{
  CommandState, ExecutionCommand, transition_to, valid_transitions, state_in,
}
use aurexis.Execution.Reports.{ExecutionStatus, filled, partially_filled, rejected, expired, error}
use aurexis.Execution.Simulator.{execute_command}
use aurexis.Services.Database.{CommandRow, Database, record_audit_event}
use aurexis.Services.ExecutionService.{
  Dispatch, Request, World, Outcome, refused, constraint_violated, reported, dispatched_lots,
  command_key, key_exists, new_command, command_row, follow, path_of, row_state,
}
use aurexis.Services.ExecutionService.Operations.{
  opened_rows, clashes, written, dispatch_command, sent_command, execute_approved_signal,
}

-- The row of the command that carries these lots under this key for this account.
pub record Orders (account key : String) (lots : Decimal) (row : CommandRow) : Type 0 where
  pub of_account : row.account_id ≡ account
  pub of_key : row.idempotency_key ≡ key
  pub of_lots : row.volume_lots ≡ lots

-- One order is on record; or nothing is, since the position's ticket was taken.
abbrev pub Recorded : String → String → Decimal → Database → Outcome → Database → Type 0
Recorded account key lots db refused db' = ⊥
Recorded account key lots db constraint_violated db' = db' ≡ db
Recorded account key lots db (reported _) db' =
    (row : CommandRow) × (db'.commands ≡ db.commands ++ row ∷ []) × Orders account key lots row

dispatch_command-Recorded :
    (d : Dispatch) (q : Request) (c : ExecutionCommand) (w : World)
    → let (o, w') = dispatch_command d q c w in
      Recorded c.account_id c.idempotency_key c.volume_lots w.db o w'.db
unfolding dispatch_command written command_row record_audit_event
dispatch_command-Recorded d q c w =
    let r = (execute_command d.broker_at c q.current_price w.simulator).0 in
    elim (Bool-cases (clashes w.db.positions (opened_rows q c r))) [
      | inl clash ↦ rw clash refl
      | inr free ↦ rw free (
        command_row d q c r.status,
        refl,
        record { of_account = refl; of_key = refl; of_lots = refl },
      )
    ]

module _ (d : Dispatch) (q : Request) where
  -- The command is the new one, marked as sent.
  pub sent_command_lem :
      (lots : Decimal)
      → sent_command d q lots
        ≡ record (new_command d q lots) { state = CommandState.sent; sent_at = some d.sent_at }
  unfolding sent_command new_command transition_to valid_transitions state_in
  sent_command_lem lots = refl

  -- After a report the command stands in the state that its row shows: each transition that the
  -- service makes is one that the state machine allows.
  pub follow-path_of :
      (now : ℕ) (lots : Decimal) (status : ExecutionStatus)
      → (follow now (path_of status) (sent_command d q lots)).state ≡ row_state status
  unfolding follow sent_command new_command transition_to valid_transitions state_in
  follow-path_of now lots filled = refl
  follow-path_of now lots partially_filled = refl
  follow-path_of now lots rejected = refl
  follow-path_of now lots expired = refl
  follow-path_of now lots error = refl

  module _ (w : World) where
    abbrev pub Denied : Type 0
    Denied =
        (trading_allowed q.decision ≡ false)
        ⊎ (dispatched_lots q.decision ≡ none)
        ⊎ (key_exists (command_key d q) w.db ≡ true)

    pub record Permitted (lots : Decimal) : Type 0 where
      pub allowed : trading_allowed q.decision ≡ true
      pub authorized : q.decision.authorized_lot_size ≡ some lots
      pub positive : leb_dec lots dec_zero ≡ false
      pub new_key : key_exists (command_key d q) w.db ≡ false

    -- The two ends of the call, before the command is followed further.
    pub data Attempt : Outcome × World → Type 0 where
      denied : Denied → Attempt (refused, w)
      sent_order :
          (lots : Decimal)
          → Permitted lots
          → Attempt (dispatch_command d q (sent_command d q lots) w)

    dispatched_lots-some :
        (lots : Decimal)
        → dispatched_lots q.decision ≡ some lots
        → (q.decision.authorized_lot_size ≡ some lots) × (leb_dec lots dec_zero ≡ false)
    unfolding dispatched_lots
    dispatched_lots-some lots h = ground arith

    pub execute_approved_signal-Attempt : Attempt (execute_approved_signal d q w)
    unfolding execute_approved_signal
    execute_approved_signal-Attempt = elim (Bool-cases (trading_allowed q.decision)) [
      | inr stopped ↦ rw stopped (denied (inl stopped))
      | inl allowed ↦ rw allowed (elim (Option-cases (dispatched_lots q.decision)) [
        | inl missing ↦ rw missing (denied (inr (inl missing)))
        | inr (lots, given) ↦ rw given (elim (Bool-cases (key_exists (command_key d q) w.db)) [
          | inl used ↦ rw used (denied (inr (inr used)))
          | inr unused ↦
              let (authorized, positive) = dispatched_lots-some lots given in
              rw unused (
                sent_order lots (record {
                  allowed = allowed;
                  authorized = authorized;
                  positive = positive;
                  new_key = unused;
                }))
        ])
      ])
    ]

    abbrev pub Settled : Outcome × World → Type 0
    Settled (o, w') =
        (Denied × (o ≡ refused) × (w' ≡ w))
        ⊎ ((lots : Decimal) × Permitted lots
            × Recorded q.account_id (command_key d q) lots w.db o w'.db)

    Attempt-Settled : {r : Outcome × World} → Attempt r → Settled r
    unfolding sent_command new_command transition_to valid_transitions state_in
    Attempt-Settled (denied why) = inl (why, refl, refl)
    Attempt-Settled (sent_order lots p) =
        inr (lots, p, dispatch_command-Recorded d q (sent_command d q lots) w)

    -- Either the decision forbids trading, authorizes no positive volume, or a command has the key:
    -- then the order is refused and nothing changes. Or none of these holds: then one command of the
    -- authorized volume is on record for the account under the key, or, where the constraint on
    -- positions is violated, the database is unchanged.
    pub execute_approved_signal-Settled : Settled (execute_approved_signal d q w)
    execute_approved_signal-Settled = Attempt-Settled execute_approved_signal-Attempt
