-- ===== src/Execution/Simulator/Book.antt =====
-- The book of the simulated broker: tickets are never reused, and a command touches only its own
-- position.
use aurexis.Base.{
  ◌==◌, if◌then◌else◌, ℕ, ◌+◌, ◌<◌, ◌≡◌, ◌≢◌, refl, true, false, Option, none, some, arith,
  Bool-cases, inl, inr, ◌⊎◌, lookup, ℕ_key, lookup-insert, lookup-erase,
}
use aurexis.Decimal.{value_or, Decimal}
use aurexis.Execution.Commands.{
  CommandAction, order_open, order_close, basket_close, position_modify, ExecutionCommand,
  is_expired,
}
use aurexis.Execution.Reports.{ExecutionStatus, PositionReport}
use aurexis.Execution.Simulator.{
  Simulator, new_simulator, open_order, close_order, opened_position, market_side, dispatch,
  drop_position, execute_command,
}

-- Tickets above the counter are free, and each position stands under its own ticket.
pub record IsBook (s : Simulator) : Type 0 where
  pub fresh : (t : ℕ) → s.ticket_counter < t → lookup t s.positions ≡ none
  pub keyed : (t : ℕ) (p : PositionReport) → lookup t s.positions ≡ some p → p.broker_ticket ≡ t

pub new_simulator-IsBook : (bid ask : Decimal) → IsBook (new_simulator bid ask)
unfolding lookup
new_simulator-IsBook bid ask = record { fresh = λ t h. refl; keyed = λ t p e. cc }

drop_position-IsBook :
    (target : Option ℕ) (s : Simulator)
    → IsBook s
    → IsBook (record s { positions = drop_position target s.positions })
drop_position-IsBook none s h = h
drop_position-IsBook (some k) s h = record {
  fresh = λ t lt. ground (arith, lookup-erase k t s.positions, h.fresh t);
  keyed = λ t p e. ground (arith, lookup-erase k t s.positions, h.keyed t p);
}

module _ (now : ℕ) (c : ExecutionCommand) (price : Option Decimal) (s : Simulator) where
  open_order-IsBook : IsBook s → IsBook (open_order now c price s).1
  unfolding open_order
  open_order-IsBook h = record {
    fresh = λ t lt. rw lookup-insert (ground (arith, h.fresh t));
    keyed = λ t p. rw lookup-insert (ground (arith, h.keyed t p));
  }

  close_order-IsBook : IsBook s → IsBook (close_order now c price s).1
  unfolding close_order
  close_order-IsBook h = drop_position-IsBook c.position_ticket s h

  dispatch-IsBook : (a : CommandAction) → IsBook s → IsBook (dispatch a now c price s).1
  unfolding dispatch
  dispatch-IsBook order_open h = open_order-IsBook h
  dispatch-IsBook order_close h = close_order-IsBook h
  dispatch-IsBook basket_close h = close_order-IsBook h
  dispatch-IsBook position_modify h = h

  -- Whatever command is executed, no ticket above the counter is in use and every open position
  -- stands under its own ticket, if so before.
  pub execute_command-IsBook : IsBook s → IsBook (execute_command now c price s).1
  unfolding execute_command
  execute_command-IsBook h = elim (Bool-cases (is_expired now c)) [
    | inl late ↦ rw late h
    | inr live ↦ rw live (dispatch-IsBook c.action h)
  ]

  -- A live ORDER_OPEN is filled under a ticket that no open position had, at the side and the volume
  -- of the command, and no other position changes.
  pub execute_open_lem :
      IsBook s
      → is_expired now c ≡ false
      → c.action ≡ order_open
      → let (report, s') = execute_command now c price s in
        (ticket : ℕ) × (p : PositionReport) × (report.status ≡ ExecutionStatus.filled)
        × (report.broker_ticket ≡ some ticket)
        × (lookup ticket s.positions ≡ none)
        × (p.lots ≡ c.volume_lots)
        × (p.side ≡ c.order_type)
        × ((t : ℕ) → lookup t s'.positions ≡ (if ticket == t then some p else lookup t s.positions))
  unfolding execute_command dispatch open_order
  execute_open_lem h live opens =
      let ticket = s.ticket_counter + 1 in
      let p = opened_position now c ticket (value_or price (market_side s c.order_type)) in
      (
        ticket,
        p,
        ground arith,
        ground arith,
        h.fresh ticket (omega arith),
        refl,
        refl,
        λ t. ground (arith, lookup-insert ticket t p s.positions),
      )

  -- A live close of a ticket that is not zero is reported filled, removes that ticket and nothing
  -- else. It is reported filled also where the ticket is not open, and then nothing changes.
  pub execute_close_lem :
      (ticket : ℕ)
      → is_expired now c ≡ false
      → (c.action ≡ order_close) ⊎ (c.action ≡ basket_close)
      → c.position_ticket ≡ some ticket
      → ticket ≢ 0
      → let (report, s') = execute_command now c price s in
        (report.status ≡ ExecutionStatus.filled)
        × ((t : ℕ) → lookup t s'.positions ≡ (if ticket == t then none else lookup t s.positions))
        × (s'.ticket_counter ≡ s.ticket_counter)
  unfolding execute_command dispatch close_order
  execute_close_lem ticket live action target nonzero =
      (ground arith, λ t. ground (arith, lookup-erase ticket t s.positions), ground arith)

  -- A command that is expired, or that modifies a position, fills nothing and changes nothing.
  pub execute_refused_lem :
      (is_expired now c ≡ true) ⊎ (c.action ≡ position_modify)
      → let (report, s') = execute_command now c price s in
        (report.status ≢ ExecutionStatus.filled) × (report.broker_ticket ≡ none) × (s' ≡ s)
  unfolding execute_command dispatch
  execute_refused_lem why = ground arith
