-- ===== src/Services/ExecutionService/RoundTrip.antt =====
-- An agent's results in the server's map: what a close removes, and that it undoes an open.
use aurexis.Base.{
  ℕ, ◌==◌, String, true, false, if◌then◌else◌, ◌≡◌, refl, inl, inr, Option, none, some, List, [],
  ◌∷◌, ◌++◌, arith, any, select, subst, sym, eq_iff, eq_refl, Bool-cases, lookup, insert, ℕ_key,
  lookup-insert, ==_iff, ◌∙◌,
}
use aurexis.Execution.Reconciliation.{Positions}
use aurexis.Services.AgentCommands.{AgentCommand, completed}
use aurexis.Services.Database.{PositionRow, has_ticket, Database}
use aurexis.Services.ExecutionService.Operations.{
  is_open_row, server_entry, add_entries, server_positions,
}
use aurexis.Services.ExecutionService.AgentResults.{
  Target, at_ticket, is_trade, with_result, AgentResult, result_ticket, target_ticket,
  result_position, close_rows, synchronized, record_agent_execution_result,
}
use aurexis.Services.ExecutionService.Sync.{server_positions-append}
use aurexis.Services.ExecutionService.Tickets.{HasUniqueTickets, append-HasUniqueTickets}

module _ (account : String) where
  abbrev Entries : Positions → List PositionRow → Positions
  Entries known rows = add_entries known (select (is_open_row account) rows)

  -- Rows without the ticket leave the entry that was known before.
  absent-Entries :
      (t : ℕ) (known : Positions) (rows : List PositionRow)
      → any (has_ticket account t) rows ≡ false
      → lookup t (Entries known rows) ≡ lookup t known
  unfolding add_entries
  absent-Entries t known [] h = refl
  absent-Entries t known (row ∷ rows) h = ground (
    arith,
    absent-Entries t (insert row.broker_ticket (server_entry row) known) rows,
    absent-Entries t known rows,
    lookup-insert row.broker_ticket t (server_entry row) known,
  )

  -- The rows decide an entry, up to what was known of its ticket.
  Entries_cong :
      (u : ℕ) (known known' : Positions) (rows : List PositionRow)
      → lookup u known ≡ lookup u known'
      → lookup u (Entries known rows) ≡ lookup u (Entries known' rows)
  unfolding add_entries
  Entries_cong u known known' [] h = h
  Entries_cong u known known' (row ∷ rows) h =
      let entry = server_entry row in
      ground (
        arith,
        Entries_cong u (insert row.broker_ticket entry known)
            (insert row.broker_ticket entry known') rows,
        Entries_cong u known known' rows,
        lookup-insert row.broker_ticket u entry known,
        lookup-insert row.broker_ticket u entry known',
      )

  module _ (now : ℕ) (r : AgentResult) (t : ℕ) where
    close_rows_self :
        (known : Positions) (rows : List PositionRow)
        → HasUniqueTickets rows
        → lookup t (Entries known (close_rows now account r t rows)) ≡ lookup t known
    unfolding close_rows add_entries
    close_rows_self known [] h = refl
    close_rows_self known (row ∷ rows) h =
        let known' = insert row.broker_ticket (server_entry row) known in
        ground (
          arith,
          absent-Entries t known rows,
          close_rows_self known' rows,
          close_rows_self known rows,
          eq_iff row.account_id account,
          lookup-insert row.broker_ticket t (server_entry row) known,
        )

    close_rows_other :
        (u : ℕ) (known : Positions) (rows : List PositionRow)
        → (t == u) ≡ false
        → lookup u (Entries known (close_rows now account r t rows)) ≡ lookup u (Entries known rows)
    unfolding close_rows add_entries
    close_rows_other u known [] apart = refl
    close_rows_other u known (row ∷ rows) apart =
        let known' = insert row.broker_ticket (server_entry row) known in
        ground (
          arith,
          close_rows_other u known' rows,
          close_rows_other u known rows,
          Entries_cong u known known' rows,
          lookup-insert row.broker_ticket u (server_entry row) known,
        )

-- The result of a completed command of the type, with a ticket.
pub record Completes (command : AgentCommand) (type : String) (r : AgentResult) (t : ℕ)
    : Type 0 where
  pub done : command.status ≡ completed
  pub of_type : command.command_type ≡ type
  pub of_ticket : result_ticket r ≡ some t
  pub nonzero_ticket : (t == 0) ≡ false

module _ (payload_ticket : String → Target) (account : String) where
  abbrev pub recorded : ℕ → AgentCommand → AgentResult → Option String → Database → Option Database
  recorded now command r message db =
      record_agent_execution_result payload_ticket now account command r message db

  synchronized-open :
      (now : ℕ) (command : AgentCommand) (r : AgentResult) (t : ℕ) (rows : List PositionRow)
      → Completes command "OPEN_POSITION" r t
      → any (has_ticket account t) rows ≡ false
      → synchronized payload_ticket now account command r rows
        ≡ some (rows ++ result_position now account r t ∷ [])
  unfolding synchronized
  synchronized-open now command r t rows h new =
      rw (h.of_type, h.done, h.of_ticket, h.nonzero_ticket, new) refl

  recorded-open :
      (now : ℕ) (command : AgentCommand) (r : AgentResult) (message : Option String) (t : ℕ)
      (db : Database)
      → Completes command "OPEN_POSITION" r t
      → any (has_ticket account t) db.positions ≡ false
      → recorded now command r message db
        ≡ some (
            with_result now account command r message db
              (db.positions ++ result_position now account r t ∷ []))
  unfolding record_agent_execution_result
  recorded-open now command r message t db h new =
      let trade : is_trade command ≡ true = rw h.of_type refl in
      rw (trade, synchronized-open now command r t db.positions h new) refl

  target_ticket-given :
      {type : String} (command : AgentCommand) (r : AgentResult) (t : ℕ)
      → Completes command type r t
      → target_ticket payload_ticket command r ≡ at_ticket t
  target_ticket-given command r t h = ground arith

  synchronized-close :
      (now : ℕ) (command : AgentCommand) (r : AgentResult) (t : ℕ) (rows : List PositionRow)
      → Completes command "CLOSE_POSITION" r t
      → synchronized payload_ticket now account command r rows
        ≡ some (close_rows now account r t rows)
  unfolding synchronized
  synchronized-close now command r t rows h =
      rw (h.of_type, h.done, target_ticket-given command r t h) refl

  recorded-close :
      (now : ℕ) (command : AgentCommand) (r : AgentResult) (message : Option String) (t : ℕ)
      (db : Database)
      → Completes command "CLOSE_POSITION" r t
      → recorded now command r message db
        ≡ some
            (with_result now account command r message db (close_rows now account r t db.positions))
  unfolding record_agent_execution_result
  recorded-close now command r message t db h =
      let trade : is_trade command ≡ true = rw h.of_type refl in
      rw (trade, synchronized-close now command r t db.positions h) refl

  -- The result of a completed close raises nothing; after it, the server's map of the account has no
  -- entry under its ticket, and every other entry is the one from before, given that no two rows
  -- share a ticket.
  pub record_close_lem :
      (now : ℕ) (command : AgentCommand) (r : AgentResult) (message : Option String) (t : ℕ)
      (db : Database)
      → Completes command "CLOSE_POSITION" r t
      → HasUniqueTickets db.positions
      → (u : ℕ)
      → (db' : Database) × (recorded now command r message db ≡ some db')
        × (lookup u (server_positions account db')
            ≡ (if t == u then none else lookup u (server_positions account db)))
  unfolding server_positions lookup
  record_close_lem now command r message t db h unique u = (
    with_result now account command r message db (close_rows now account r t db.positions),
    recorded-close now command r message t db h,
    elim (Bool-cases (t == u)) [
      | inl same ↦ rw same (
          subst
            (λ v. lookup v (Entries account [] (close_rows now account r t db.positions)) ≡ none)
            ((==_iff t u).0 same) (close_rows_self account now r t [] db.positions unique))
      | inr other ↦ rw other (close_rows_other account now r t u [] db.positions other)
    ],
  )

  -- The results of a completed open and of a completed close under a ticket that the account has on
  -- no row raise nothing, and leave every entry of the server's map as it was, given that no two rows
  -- share a ticket.
  pub record-record_open_close :
      (now later : ℕ) (open_command close_command : AgentCommand) (r r' : AgentResult)
      (message message' : Option String) (t : ℕ) (db : Database)
      → Completes open_command "OPEN_POSITION" r t
      → Completes close_command "CLOSE_POSITION" r' t
      → any (has_ticket account t) db.positions ≡ false
      → HasUniqueTickets db.positions
      → (u : ℕ)
      → (between after : Database) × (recorded now open_command r message db ≡ some between)
        × (recorded later close_command r' message' between ≡ some after)
        × (lookup u (server_positions account after) ≡ lookup u (server_positions account db))
  unfolding server_positions result_position lookup
  record-record_open_close now later oc cc' r r' m m' t db ho hc new unique u =
      let (after, closes, entry) =
        record_close_lem later cc' r' m' t opened_db hc opened-HasUniqueTickets u in
      (
        opened_db,
        after,
        recorded-open now oc r m t db ho new,
        closes,
        entry ∙ elim (Bool-cases (t == u)) [
          | inl same ↦ rw same (
              sym (
                subst (λ v. lookup v (server_positions account db) ≡ none) ((==_iff t u).0 same)
                  (absent-Entries account t [] db.positions new)))
          | inr other ↦ rw (other, grown, lookup-insert, other) refl
        ],
      )
    where
      row : PositionRow
      row = result_position now account r t

      opened_db : Database
      opened_db = with_result now account oc r m db (db.positions ++ row ∷ [])

      opened-HasUniqueTickets : HasUniqueTickets opened_db.positions
      opened-HasUniqueTickets = append-HasUniqueTickets db.positions row new unique

      grown :
          server_positions account opened_db
          ≡ insert t (server_entry row) (server_positions account db)
      grown = server_positions-append account db row (rw eq_refl refl)
