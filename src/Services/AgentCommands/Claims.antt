-- ===== src/Services/AgentCommands/Claims.antt =====
-- Claiming: each pending command is handed out once, in order, and nothing else is touched.
use aurexis.Base.{
  ℕ, zero, suc, ◌+◌, min, ◌≡◌, refl, true, false, inl, inr, not, none, some, ap, Bool-cases,
  if◌then◌else◌, List, [], ◌∷◌, arith, ◌==◌, length, select, map, All, ◌++◌,
}
use aurexis.Services.AgentCommands.{AgentCommand, sent, Database, command_sent, event_of}
use aurexis.Services.AgentCommands.Operations.{
  is_pending, claimed, claim_rows, claim_pending_commands,
}

-- How many commands wait for an agent.
abbrev pub backlog : ℕ → List AgentCommand → ℕ
backlog agent_id rows = length (select (is_pending agent_id) rows)

-- A row that a claim for this agent must leave alone.
abbrev pub others : ℕ → List AgentCommand → List AgentCommand
others agent_id rows = select (λ r. not (r.agent_id == agent_id)) rows

module _ (now agent_id : ℕ) where
  claim_rows_count :
      (limit : ℕ) (rows : List AgentCommand)
      → let (rows', got) = claim_rows now agent_id limit rows in
        (length got ≡ min limit (backlog agent_id rows))
        × (length got + backlog agent_id rows' ≡ backlog agent_id rows)
  unfolding claim_rows
  claim_rows_count zero rows = ground arith
  claim_rows_count (suc n) [] = ground arith
  claim_rows_count (suc n) (r ∷ rs) =
      ground (arith, claim_rows_count n rs, claim_rows_count (suc n) rs)

  others-claim_rows :
      (limit : ℕ) (rows : List AgentCommand)
      → others agent_id (claim_rows now agent_id limit rows).0 ≡ others agent_id rows
  unfolding claim_rows
  others-claim_rows zero rows = refl
  others-claim_rows (suc n) [] = refl
  others-claim_rows (suc n) (r ∷ rs) =
      ground (arith, others-claim_rows n rs, others-claim_rows (suc n) rs)

  abbrev pub IsClaimed : AgentCommand → Type 0
  IsClaimed c = (c.agent_id ≡ agent_id) × (c.status ≡ sent) × (c.sent_at ≡ some now)

  claim_rows-IsClaimed :
      (limit : ℕ) (rows : List AgentCommand) → All IsClaimed (claim_rows now agent_id limit rows).1
  unfolding claim_rows
  claim_rows-IsClaimed zero rows = tt
  claim_rows-IsClaimed (suc n) [] = tt
  claim_rows-IsClaimed (suc n) (r ∷ rs) =
      ground (arith, claim_rows-IsClaimed n rs, claim_rows-IsClaimed (suc n) rs)

  -- A row of the table that the claim went past.
  abbrev pub marked : AgentCommand → AgentCommand
  marked r = if is_pending agent_id r then claimed now r else r

  -- The table in two parts: in the first every pending row is taken, the second is as it was.
  pub record Splits (rows rows' got : List AgentCommand) : Type 0 where
    pub front : List AgentCommand
    pub back : List AgentCommand
    pub before : rows ≡ front ++ back
    pub after : rows' ≡ map marked front ++ back
    pub taken : got ≡ map (claimed now) (select (is_pending agent_id) front)

  cons_taken :
      (r : AgentCommand) (rows rows' got : List AgentCommand)
      → is_pending agent_id r ≡ true
      → Splits rows rows' got
      → Splits (r ∷ rows) (claimed now r ∷ rows') (claimed now r ∷ got)
  cons_taken r rows rows' got h s = record {
    front = r ∷ s.front;
    back = s.back;
    before = ap (λ rs. r ∷ rs) s.before;
    after = rw h (ap (λ rs. claimed now r ∷ rs) s.after);
    taken = rw h (ap (λ rs. claimed now r ∷ rs) s.taken);
  }

  cons_passed :
      (r : AgentCommand) (rows rows' got : List AgentCommand)
      → is_pending agent_id r ≡ false
      → Splits rows rows' got
      → Splits (r ∷ rows) (r ∷ rows') got
  cons_passed r rows rows' got h s = record {
    front = r ∷ s.front;
    back = s.back;
    before = ap (λ rs. r ∷ rs) s.before;
    after = rw h (ap (λ rs. r ∷ rs) s.after);
    taken = rw h s.taken;
  }

  claim_rows-Splits :
      (limit : ℕ) (rows : List AgentCommand)
      → Splits rows (claim_rows now agent_id limit rows).0 (claim_rows now agent_id limit rows).1
  unfolding claim_rows
  claim_rows-Splits zero rows = record {
    front = [];
    back = rows;
    before = refl;
    after = refl;
    taken = refl;
  }
  claim_rows-Splits (suc n) [] = record {
    front = [];
    back = [];
    before = refl;
    after = refl;
    taken = refl;
  }
  claim_rows-Splits (suc n) (r ∷ rs) = elim (Bool-cases (is_pending agent_id r)) [
    | inl takes ↦ rw takes (cons_taken r rs _ _ takes (claim_rows-Splits n rs))
    | inr passes ↦ rw passes (cons_passed r rs _ _ passes (claim_rows-Splits (suc n) rs))
  ]

-- A claim takes as many commands as are pending for the agent, up to the limit, in the order of the
-- table: of a first part of it, it returns the agent's pending commands, each as it was but SENT with
-- the time of the call, and exactly these rows are changed so in the table, where no row is added,
-- lost or moved. So the backlog is shorter by as many, the rows of other agents stay as they are, and
-- the audit log gets one event for each command taken, after what it held.
pub claim_pending_commands_lem :
    (now agent_id limit : ℕ) (db : Database)
    → let (got, db') = claim_pending_commands now agent_id limit db in
      (length got ≡ min limit (backlog agent_id db.rows))
      × (length got + backlog agent_id db'.rows ≡ backlog agent_id db.rows)
      × All (IsClaimed now agent_id) got
      × (others agent_id db'.rows ≡ others agent_id db.rows)
      × (db'.audit ≡ db.audit ++ map (λ c. event_of command_sent c none) got)
      × Splits now agent_id db.rows db'.rows got
unfolding claim_pending_commands
claim_pending_commands_lem now agent_id limit db = (
  (claim_rows_count now agent_id limit db.rows).0,
  (claim_rows_count now agent_id limit db.rows).1,
  claim_rows-IsClaimed now agent_id limit db.rows,
  others-claim_rows now agent_id limit db.rows,
  refl,
  claim_rows-Splits now agent_id limit db.rows,
)

-- Between two claims of an agent with nothing else in between, the second returns only what the
-- first left: together they return as many as one claim with both limits.
pub claims_split :
    (now later agent_id first_limit second_limit : ℕ) (db : Database)
    → let (got, db') = claim_pending_commands now agent_id first_limit db in
      length got + length (claim_pending_commands later agent_id second_limit db').0
      ≡ length (claim_pending_commands now agent_id (first_limit + second_limit) db).0
claims_split now later agent_id m n db =
    let first = claim_pending_commands_lem now agent_id m db in
    let second =
      claim_pending_commands_lem later agent_id n (claim_pending_commands now agent_id m db).1 in
    let both = claim_pending_commands_lem now agent_id (m + n) db in
    ground (arith, first.0, first.1, second.0, both.0)
