-- ===== src/Services/ExecutionService/Sync.antt =====
-- The server's rows and the broker's book stay together over `execute_approved_signal`.
use aurexis.Base.{
  ℕ, ◌+◌, ◌≤◌, ◌<◌, ◌==◌, String, true, false, ◌≡◌, refl, ◌⊎◌, inl, inr, List, [], ◌∷◌, ◌++◌, map,
  arith, All, All-append, any, select, str_eq, Bool-cases, Dict, insert, ℕ_key, lookup-insert,
}
use aurexis.Decimal.{Decimal, eqb_dec}
use aurexis.Execution.Reports.{PositionReport}
use aurexis.Execution.Reconciliation.{Positions, side_text}
use aurexis.Execution.Reconciliation.Loop.{Tracked}
use aurexis.Execution.Reconciliation.Verdict.{select-append}
use aurexis.Execution.Simulator.{Simulator, get_open_positions}
use aurexis.Services.Database.{PositionRow, has_ticket, Database}
use aurexis.Services.ExecutionService.{World}
use aurexis.Services.ExecutionService.Operations.{
  is_open_row, server_entry, add_entries, server_positions,
}

abbrev pub broker_book : World → List PositionReport
broker_book w = get_open_positions w.simulator

-- Every position of the broker is tracked by the server's rows of the account, and all tickets in
-- use, by the broker or by the rows, were given out by the broker's counter.
pub record IsSynced (account : String) (w : World) : Type 0 where
  pub tracked : All (Tracked (server_positions account w.db)) (broker_book w)
  pub held : All (λ p. p.broker_ticket ≤ w.simulator.ticket_counter) (broker_book w)
  pub given_out :
      All
        (λ row.
          (str_eq row.account_id account ≡ false)
          ⊎ (row.broker_ticket ≤ w.simulator.ticket_counter))
        w.db.positions

pub eqb_dec_refl : (a : Decimal) → eqb_dec a a ≡ true
unfolding eqb_dec
eqb_dec_refl a = ground arith

add_entries-append :
    (known : Positions) (rows : List PositionRow) (row : PositionRow)
    → add_entries known (rows ++ row ∷ [])
      ≡ insert row.broker_ticket (server_entry row) (add_entries known rows)
unfolding add_entries
add_entries-append known [] row = refl
add_entries-append known (r ∷ rows) row =
    add_entries-append (insert r.broker_ticket (server_entry r) known) rows row

-- A new open row of the account is one more entry.
pub server_positions-append :
    (account : String) (db : Database) (row : PositionRow)
    → is_open_row account row ≡ true
    → server_positions account (record db { positions = db.positions ++ row ∷ [] })
      ≡ insert row.broker_ticket (server_entry row) (server_positions account db)
unfolding server_positions
server_positions-append account db row h =
    rw (select-append (is_open_row account) db.positions (row ∷ []), h)
      (add_entries-append [] (select (is_open_row account) db.positions) row)

-- Tickets above all that were given out are on no row of the account.
pub fresh-clashes :
    (account : String) (n t : ℕ) (rows : List PositionRow)
    → n < t
    → All (λ row. (str_eq row.account_id account ≡ false) ⊎ (row.broker_ticket ≤ n)) rows
    → any (has_ticket account t) rows ≡ false
fresh-clashes account n t [] lt h = refl
fresh-clashes account n t (row ∷ rows) lt h = ground (arith, fresh-clashes account n t rows lt h.1)

-- The server's map gains an entry under a new ticket.
Tracked-insert :
    (server : Positions) (row : PositionRow) (n : ℕ) (bps : List PositionReport)
    → n < row.broker_ticket
    → All (λ p. p.broker_ticket ≤ n) bps
    → All (Tracked server) bps
    → All (Tracked (insert row.broker_ticket (server_entry row) server)) bps
Tracked-insert server row n [] lt below h = tt
Tracked-insert server row n (bp ∷ bps) lt below h = (
  rw (lookup-insert row.broker_ticket bp.broker_ticket (server_entry row) server, apart) h.0,
  Tracked-insert server row n bps lt below.1 h.1,
)
  where
    apart : (row.broker_ticket == bp.broker_ticket) ≡ false
    apart = ground (arith, below.0)

-- What holds of all open positions and of a new one holds after an insertion.
All-insert {ℓ} :
    (P : PositionReport → Type ℓ) (t : ℕ) (p : PositionReport) (d : Dict ℕ PositionReport)
    → P p
    → All P (map (λ e. e.1) d)
    → All P (map (λ e. e.1) (insert t p d))
unfolding insert
All-insert P t p [] hp h = (hp, tt)
All-insert P t p ((j, w) ∷ d) hp h = elim (Bool-cases (j == t)) [
  | inl same ↦ rw same (hp, h.1)
  | inr other ↦ rw other (h.0, All-insert P t p d hp h.1)
]

All-le_suc :
    (n : ℕ) (bps : List PositionReport)
    → All (λ p. p.broker_ticket ≤ n) bps
    → All (λ p. p.broker_ticket ≤ n + 1) bps
All-le_suc n [] h = tt
All-le_suc n (bp ∷ bps) h = (omega (arith, h.0), All-le_suc n bps h.1)

module _ (account : String) where
  abbrev pub RowsBelow : ℕ → List PositionRow → Type 0
  RowsBelow n rows =
      All (λ row. (str_eq row.account_id account ≡ false) ⊎ (row.broker_ticket ≤ n)) rows

  RowsBelow-suc : (n : ℕ) (rows : List PositionRow) → RowsBelow n rows → RowsBelow (n + 1) rows
  RowsBelow-suc n [] h = tt
  RowsBelow-suc n (row ∷ rows) h = (ground (arith, h.0), RowsBelow-suc n rows h.1)

  -- A new open row and a new open position, at the next ticket, with the same lots and side.
  pub add-IsSynced :
      (db : Database) (s : Simulator) (row : PositionRow) (p : PositionReport)
      → IsSynced account (record { db = db; simulator = s })
      → is_open_row account row ≡ true
      → row.broker_ticket ≡ s.ticket_counter + 1
      → p.broker_ticket ≡ s.ticket_counter + 1
      → eqb_dec row.lots p.lots ≡ true
      → row.side ≡ side_text p.side
      → IsSynced account (record {
        db = record db { positions = db.positions ++ row ∷ [] };
        simulator = record s {
          ticket_counter = s.ticket_counter + 1;
          positions = insert (s.ticket_counter + 1) p s.positions;
        };
      })
  unfolding get_open_positions
  add-IsSynced db s row p h open_row row_at p_at lots side = record {
    tracked =
        All-insert (Tracked server') t p s.positions
          (rw
            (grown, lookup-insert row.broker_ticket p.broker_ticket (server_entry row) server, same)
            (lots, side))
          (rw grown (
            Tracked-insert server row s.ticket_counter (get_open_positions s)
              (omega (arith, row_at)) h.held h.tracked));
    held =
        All-insert (λ p. p.broker_ticket ≤ t) t p s.positions (omega (arith, p_at))
          (All-le_suc s.ticket_counter (get_open_positions s) h.held);
    given_out =
        All-append _ db.positions (row ∷ [])
          (RowsBelow-suc s.ticket_counter db.positions h.given_out)
          (inr (omega (arith, row_at)), tt);
  }
    where
      t : ℕ
      t = s.ticket_counter + 1

      server : Positions
      server = server_positions account db

      server' : Positions
      server' = server_positions account (record db { positions = db.positions ++ row ∷ [] })

      grown : server' ≡ insert row.broker_ticket (server_entry row) server
      grown = server_positions-append account db row open_row

      same : (row.broker_ticket == p.broker_ticket) ≡ true
      same = ground (arith, row_at, p_at)
