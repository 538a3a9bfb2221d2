-- ===== src/Services/ExecutionService/Repeats.antt =====
-- A key is dispatched once: the idempotency of `execute_approved_signal`.
use aurexis.Base.{
  ℕ, Option, String, true, false, ◌≡◌, refl, inl, inr, some, List, [], ◌∷◌, ◌++◌, arith, any,
  str_eq, subst, sym, ◌∙◌, eq_refl,
}
use aurexis.Decimal.{Decimal}
use aurexis.Services.Database.{CommandRow, ReportRow, Database}
use aurexis.Services.ExecutionService.{
  Dispatch, Request, World, Outcome, refused, constraint_violated, reported, command_key, has_key,
  key_exists,
}
use aurexis.Services.AgentCommands.{AgentCommand}
use aurexis.Services.ExecutionService.AgentResults.{
  Target, AgentResult, record_agent_execution_result,
}
use aurexis.Services.ExecutionService.Tickets.{Step, order, result, Reach, here, next}
use aurexis.Services.ExecutionService.Operations.{execute_approved_signal}
use aurexis.Services.ExecutionService.Permission.{
  Recorded, Settled, Attempt, denied, sent_order, execute_approved_signal-Attempt,
  execute_approved_signal-Settled,
}

any-append_last :
    (key : String) (rows : List CommandRow) (row : CommandRow)
    → row.idempotency_key ≡ key
    → any (has_key key) (rows ++ row ∷ []) ≡ true
any-append_last key [] row h = rw (h, eq_refl) refl
any-append_last key (r ∷ rows) row h = ground (arith, any-append_last key rows row h)

-- A key on record is refused, whatever else is asked.
pub key_exists-refused :
    (d : Dispatch) (q : Request) (w : World)
    → key_exists (command_key d q) w.db ≡ true
    → execute_approved_signal d q w ≡ (refused, w)
key_exists-refused d q w h = go (execute_approved_signal-Attempt d q w)
  where
    go : {r : Outcome × World} → Attempt d q w r → r ≡ (refused, w)
    go (denied why) = refl
    go (sent_order lots p) = cc

key_exists-Recorded :
    (account key : String) (lots : Decimal) (db db' : Database) (row : ReportRow)
    → Recorded account key lots db (reported row) db'
    → key_exists key db' ≡ true
unfolding key_exists
key_exists-Recorded account key lots db db' row (new, added, orders) =
    rw added (any-append_last key db.commands new orders.of_key)

reported-key_exists :
    (d : Dispatch) (q : Request) (w : World) (row : ReportRow)
    → (execute_approved_signal d q w).0 ≡ reported row
    → key_exists (command_key d q) (execute_approved_signal d q w).1.db ≡ true
reported-key_exists d q w row h = elim (execute_approved_signal-Settled d q w) [
  | inl (why, o, same) ↦ cc
  | inr (lots, p, new) ↦
      key_exists-Recorded q.account_id (command_key d q) lots w.db _ row (rw h at new)
]

command_key_given :
    (d : Dispatch) (q : Request) (key : String)
    → q.idempotency_key ≡ some key
    → str_eq key "" ≡ false
    → command_key d q ≡ key
command_key_given d q key h given = rw (h, given) refl

any-append_first :
    (key : String) (rows more : List CommandRow)
    → any (has_key key) rows ≡ true
    → any (has_key key) (rows ++ more) ≡ true
any-append_first key [] more h = cc
any-append_first key (r ∷ rows) more h = ground (arith, any-append_first key rows more)

Settled-key_exists :
    (d : Dispatch) (q : Request) (w : World) (key : String) (r : Outcome × World)
    → Settled d q w r
    → key_exists key w.db ≡ true
    → key_exists key r.1.db ≡ true
unfolding key_exists
Settled-key_exists d q w key (o, w') (inl (why, e, same)) h = rw same h
Settled-key_exists d q w key (refused, w') (inr (lots, p, never)) h = absurd never
Settled-key_exists d q w key (constraint_violated, w') (inr (lots, p, same)) h = rw same h
Settled-key_exists d q w key (reported row, w') (inr (lots, p, (new, added, orders))) h =
    rw added (any-append_first key w.db.commands (new ∷ []) h)

-- An agent's result leaves the orders.
record-commands :
    (f : String → Target) (now : ℕ) (account : String) (command : AgentCommand) (r : AgentResult)
    (message : Option String) (db db' : Database)
    → record_agent_execution_result f now account command r message db ≡ some db'
    → db'.commands ≡ db.commands
unfolding record_agent_execution_result
record-commands f now account command r message db db' e = ground arith

Step-key_exists :
    (key : String) {w v : World}
    → Step w v
    → key_exists key w.db ≡ true
    → key_exists key v.db ≡ true
unfolding key_exists
Step-key_exists key (order d q w) h =
    Settled-key_exists d q w key _ (execute_approved_signal-Settled d q w) h
Step-key_exists key (result f now account command r message w db' e) h =
    rw (record-commands f now account command r message w.db db' e) h

-- A key on record stays there.
Reach-key_exists :
    (key : String) {w v : World}
    → Reach w v
    → key_exists key w.db ≡ true
    → key_exists key v.db ≡ true
Reach-key_exists key here h = h
Reach-key_exists key (next path step) h = Step-key_exists key step (Reach-key_exists key path h)

-- Once an order is reported under a key that is not empty, any later call with that key, after any
-- sequence of other orders and of agents' results, is refused and changes nothing, neither the
-- database nor the broker's positions.
pub execute_approved_signal-repeated :
    (d d' : Dispatch) (q q' : Request) (w v : World) (key : String) (row : ReportRow)
    → q.idempotency_key ≡ some key
    → q'.idempotency_key ≡ some key
    → str_eq key "" ≡ false
    → (execute_approved_signal d q w).0 ≡ reported row
    → Reach (execute_approved_signal d q w).1 v
    → execute_approved_signal d' q' v ≡ (refused, v)
execute_approved_signal-repeated d d' q q' w v key row first again given h path =
    key_exists-refused d' q' v (
      subst (λ k. key_exists k v.db ≡ true)
        (command_key_given d q key first given ∙ sym (command_key_given d' q' key again given))
        (Reach-key_exists (command_key d q) path (reported-key_exists d q w row h)))
