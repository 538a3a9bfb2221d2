-- ===== src/Services/ExecutionService/Tickets.antt =====
-- The rows of the positions: one for an account and a ticket, over every operation of the service.
use aurexis.Base.{
  ℕ, String, false, ◌≡◌, refl, ◌⊎◌, inl, inr, Option, none, some, List, [], ◌∷◌, ◌++◌, append-nil,
  arith, any, eq_iff, Bool-cases, Option-cases, subst,
}
use aurexis.Services.AgentCommands.{AgentCommand}
use aurexis.Execution.Commands.{ExecutionCommand}
use aurexis.Execution.Reports.{ExecutionReport}
use aurexis.Execution.Simulator.{execute_command}
use aurexis.Services.Database.{PositionRow, has_ticket, Database, record_audit_event}
use aurexis.Services.ExecutionService.{
  Dispatch, Request, World, Outcome, opened_ticket, position_row,
}
use aurexis.Services.ExecutionService.Operations.{
  opened_rows, written, sent_command, dispatch_command, execute_approved_signal,
}
use aurexis.Services.ExecutionService.AgentResults.{
  Target, no_ticket, refused_ticket, at_ticket, AgentResult, result_ticket, target_ticket, nonzero,
  result_position, open_rows, close_rows, close_target, synchronized, record_agent_execution_result,
}
use aurexis.Services.ExecutionService.Permission.{
  Attempt, denied, sent_order, execute_approved_signal-Attempt,
}

-- No two rows have the same account and ticket.
abbrev pub HasUniqueTickets : List PositionRow → Type 0
HasUniqueTickets [] = Unit
HasUniqueTickets (row ∷ rows) =
    (any (has_ticket row.account_id row.broker_ticket) rows ≡ false) × HasUniqueTickets rows

any-append :
    (account : String) (ticket : ℕ) (rows : List PositionRow) (row : PositionRow)
    → any (has_ticket account ticket) rows ≡ false
    → has_ticket account ticket row ≡ false
    → any (has_ticket account ticket) (rows ++ row ∷ []) ≡ false
any-append account ticket [] row h k = rw k refl
any-append account ticket (r ∷ rows) row h k = ground (arith, any-append account ticket rows row)

-- A row with a new ticket keeps the tickets apart.
pub append-HasUniqueTickets :
    (rows : List PositionRow) (row : PositionRow)
    → any (has_ticket row.account_id row.broker_ticket) rows ≡ false
    → HasUniqueTickets rows
    → HasUniqueTickets (rows ++ row ∷ [])
append-HasUniqueTickets [] row new h = (refl, tt)
append-HasUniqueTickets (r ∷ rows) row new h = ground (
  arith,
  any-append r.account_id r.broker_ticket rows row,
  append-HasUniqueTickets rows row,
  eq_iff r.account_id row.account_id,
  eq_iff row.account_id r.account_id,
)

opened_rows-cases :
    (q : Request) (c : ExecutionCommand) (r : ExecutionReport)
    → (opened_rows q c r ≡ []) ⊎ ((row : PositionRow) × (opened_rows q c r ≡ row ∷ []))
unfolding opened_rows opened_ticket
opened_rows-cases q c r = elim (Option-cases (opened_ticket r)) [
  | inl nothing ↦ inl (ground arith)
  | inr (ticket, opens) ↦ inr (position_row q c r ticket, ground arith)
]

dispatch_command-HasUniqueTickets :
    (d : Dispatch) (q : Request) (c : ExecutionCommand) (w : World)
    → HasUniqueTickets w.db.positions
    → HasUniqueTickets (dispatch_command d q c w).1.db.positions
unfolding dispatch_command written record_audit_event
dispatch_command-HasUniqueTickets d q c w h =
    let r = (execute_command d.broker_at c q.current_price w.simulator).0 in
    let rows = w.db.positions in
    elim (opened_rows-cases q c r) [
      | inl nothing ↦ rw (nothing, append-nil) h
      | inr (row, opens) ↦
          rw opens (elim (Bool-cases (any (has_ticket row.account_id row.broker_ticket) rows)) [
            | inl taken ↦ rw taken h
            | inr new ↦ rw new (append-HasUniqueTickets rows row new h)
          ])
    ]

close_rows-any :
    (now : ℕ) (account : String) (r : AgentResult) (ticket : ℕ) (a : String) (t : ℕ)
    (rows : List PositionRow)
    → any (has_ticket a t) (close_rows now account r ticket rows) ≡ any (has_ticket a t) rows
unfolding close_rows
close_rows-any now account r ticket a t [] = refl
close_rows-any now account r ticket a t (row ∷ rows) =
    ground (arith, close_rows-any now account r ticket a t rows)

close_rows-HasUniqueTickets :
    (now : ℕ) (account : String) (r : AgentResult) (ticket : ℕ) (rows : List PositionRow)
    → HasUniqueTickets rows
    → HasUniqueTickets (close_rows now account r ticket rows)
unfolding close_rows
close_rows-HasUniqueTickets now account r ticket [] h = tt
close_rows-HasUniqueTickets now account r ticket (row ∷ rows) h = ground (
  arith,
  close_rows-HasUniqueTickets now account r ticket rows,
  close_rows-any now account r ticket row.account_id row.broker_ticket rows,
)

open_rows-HasUniqueTickets :
    (now : ℕ) (account : String) (r : AgentResult) (o : Option ℕ) (rows : List PositionRow)
    → HasUniqueTickets rows
    → HasUniqueTickets (open_rows now account r o rows)
unfolding result_position
open_rows-HasUniqueTickets now account r none rows h = h
open_rows-HasUniqueTickets now account r (some t) rows h =
    elim (Bool-cases (any (has_ticket account t) rows)) [
      | inl known ↦ rw known h
      | inr new ↦ rw new (append-HasUniqueTickets rows (result_position now account r t) new h)
    ]

-- Where there are rows, no two of them share a ticket.
abbrev HasUniqueTicketsIf : Option (List PositionRow) → Type 0
HasUniqueTicketsIf none = Unit
HasUniqueTicketsIf (some rows) = HasUniqueTickets rows

close_target-HasUniqueTickets :
    (now : ℕ) (account : String) (r : AgentResult) (o : Target) (rows : List PositionRow)
    → HasUniqueTickets rows
    → HasUniqueTicketsIf (close_target now account r o rows)
close_target-HasUniqueTickets now account r no_ticket rows h = h
close_target-HasUniqueTickets now account r refused_ticket rows h = tt
close_target-HasUniqueTickets now account r (at_ticket t) rows h =
    close_rows-HasUniqueTickets now account r t rows h

module _ (payload_ticket : String → Target) (now : ℕ) (account : String) (command : AgentCommand)
    (r : AgentResult) (error_message : Option String) where
  synchronized-HasUniqueTickets :
      (rows : List PositionRow)
      → HasUniqueTickets rows
      → HasUniqueTicketsIf (synchronized payload_ticket now account command r rows)
  unfolding synchronized
  synchronized-HasUniqueTickets rows h = ground (
    arith,
    open_rows-HasUniqueTickets now account r (nonzero (result_ticket r)) rows,
    close_target-HasUniqueTickets now account r (target_ticket payload_ticket command r) rows,
  )

  record-HasUniqueTickets :
      (db db' : Database)
      → record_agent_execution_result payload_ticket now account command r error_message db
        ≡ some db'
      → HasUniqueTickets db.positions
      → HasUniqueTickets db'.positions
  unfolding record_agent_execution_result
  record-HasUniqueTickets db db' e h =
      let unique = synchronized-HasUniqueTickets db.positions h in
      elim (Option-cases (synchronized payload_ticket now account command r db.positions)) [
        | inl raised ↦ ground (arith, raised, h)
        | inr (rows, found) ↦
            let kept : HasUniqueTickets rows = subst HasUniqueTicketsIf found unique in ground arith
      ]

-- What may happen to the rows: orders of any account, and results of agents that raise nothing, in
-- any order. Where one raises, nothing is committed.
pub data Step : World → World → Type 0 where
  order : (d : Dispatch) (q : Request) (w : World) → Step w (execute_approved_signal d q w).1
  result :
      (payload_ticket : String → Target) (now : ℕ) (account : String) (command : AgentCommand)
      (r : AgentResult) (error_message : Option String) (w : World) (db' : Database)
      → record_agent_execution_result payload_ticket now account command r error_message w.db
        ≡ some db'
      → Step w (record w { db = db' })

pub data Reach (w : World) : World → Type 0 where
  here : Reach w w
  next : {v u : World} → Reach w v → Step v u → Reach w u

Attempt-HasUniqueTickets :
    (d : Dispatch) (q : Request) (w : World) {r : Outcome × World}
    → Attempt d q w r
    → HasUniqueTickets w.db.positions
    → HasUniqueTickets r.1.db.positions
Attempt-HasUniqueTickets d q w (denied why) h = h
Attempt-HasUniqueTickets d q w (sent_order lots p) h =
    dispatch_command-HasUniqueTickets d q (sent_command d q lots) w h

Step-HasUniqueTickets :
    {w v : World} → Step w v → HasUniqueTickets w.db.positions → HasUniqueTickets v.db.positions
Step-HasUniqueTickets (order d q w) h =
    Attempt-HasUniqueTickets d q w (execute_approved_signal-Attempt d q w) h
Step-HasUniqueTickets (result f now account command r message w db' e) h =
    record-HasUniqueTickets f now account command r message w.db db' e h

-- Over any sequence of orders and of agents' results, no two rows of the positions come to have the
-- same account and ticket.
pub Reach-HasUniqueTickets :
    {w v : World} → Reach w v → HasUniqueTickets w.db.positions → HasUniqueTickets v.db.positions
Reach-HasUniqueTickets here h = h
Reach-HasUniqueTickets (next path step) h =
    Step-HasUniqueTickets step (Reach-HasUniqueTickets path h)
