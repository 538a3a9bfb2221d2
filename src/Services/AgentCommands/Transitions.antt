-- ===== src/Services/AgentCommands/Transitions.antt =====
-- A status update succeeds exactly along an edge of the state machine, and what it then writes.
use aurexis.Base.{
  ℕ, String, ◌≡◌, refl, ◌⊎◌, inl, inr, true, false, Option, none, some, arith, Bool-cases,
  Option-cases,
}
use aurexis.Services.AgentCommands.{
  AgentCommand, CommandStatus, pending, sent, acknowledged, completed, failed, Database,
  AuditEventType, command_completed, command_acknowledged, command_failed, command_not_found,
  invalid_state_transition, unserializable, Result, ok, err, valid_transitions, can_become, put_row,
  save, get_command,
}
use aurexis.Services.AgentCommands.Operations.{
  Environment, complete_found, complete_command, acknowledge_found, acknowledge_command, fail_found,
  fail_command, message_kept,
}

-- The edges along which an agent's reports move a command.
pub data Moves : CommandStatus → CommandStatus → Type 0 where
  sent_acknowledged : Moves sent acknowledged
  sent_completed : Moves sent completed
  acknowledged_completed : Moves acknowledged completed
  pending_failed : Moves pending failed
  sent_failed : Moves sent failed
  acknowledged_failed : Moves acknowledged failed

ruleset moves = (
  sent_acknowledged, sent_completed, acknowledged_completed, pending_failed, sent_failed,
  acknowledged_failed,
)

-- A status that an agent's report may set, with its audit event.
pub data Reports : CommandStatus → AuditEventType → Type 0 where
  acknowledgement : Reports acknowledged command_acknowledged
  completion : Reports completed command_completed
  failure : Reports failed command_failed

can_become-Moves :
    {t : CommandStatus} {kind : AuditEventType} (s : CommandStatus)
    → Reports t kind
    → can_become s t ≡ true
    → Moves s t
unfolding can_become valid_transitions
can_become-Moves pending acknowledgement e = cc
can_become-Moves _ acknowledgement e = first_of (search moves, cc)
can_become-Moves pending completion e = cc
can_become-Moves _ completion e = first_of (search moves, cc)
can_become-Moves pending failure e = pending_failed
can_become-Moves _ failure e = first_of (search moves, cc)

Moves-can_become : {s t : CommandStatus} → Moves s t → can_become s t ≡ true
unfolding can_become valid_transitions
Moves-can_become sent_acknowledged = refl
Moves-can_become _ = refl

-- The command is the same one, whatever its status, times, result and message.
abbrev pub SameCommand : AgentCommand → AgentCommand → Type 0
SameCommand c d =
    (c.id ≡ d.id)
    × (c.agent_id ≡ d.agent_id)
    × (c.command_type ≡ d.command_type)
    × (c.payload_json ≡ d.payload_json)

-- What a report that sets `target` does. In the last case `json.dumps` raised: the new status is
-- written by then, and the audit event is not.
pub data Outcome (target : CommandStatus) (found : Option AgentCommand) (db : Database)
    : Result AgentCommand × Database → Type 0 where
  missing : found ≡ none → Outcome target found db (err command_not_found, db)
  refused :
      (c : AgentCommand)
      → found ≡ some c
      → ¬ Moves c.status target
      → Outcome target found db (err (invalid_state_transition c.status target), db)
  moved :
      (c c' : AgentCommand) (kind : AuditEventType) (message : Option String)
      → found ≡ some c
      → Moves c.status target
      → c'.status ≡ target
      → SameCommand c' c
      → Reports target kind
      → Outcome target found db (ok c', save kind c' message db)
  unserialized :
      (c c' : AgentCommand)
      → found ≡ some c
      → Moves c.status target
      → c'.status ≡ target
      → SameCommand c' c
      → target ≡ completed
      → Outcome target found db (err unserializable, record db { rows = put_row c' db.rows })

can_become-or :
    {t : CommandStatus} {kind : AuditEventType} (s : CommandStatus)
    → Reports t kind
    → ((can_become s t ≡ true) × Moves s t) ⊎ ((can_become s t ≡ false) × (¬ Moves s t))
can_become-or {t} s r = elim (Bool-cases (can_become s t)) [
  | inl can ↦ inl (can, can_become-Moves s r can)
  | inr cannot ↦ inr (cannot, λ m. ground (arith, cannot, Moves-can_become m))
]

acknowledge_found-Outcome :
    (now : ℕ) (found : Option AgentCommand) (db : Database)
    → Outcome acknowledged found db (acknowledge_found now found db)
acknowledge_found-Outcome now none db = missing refl
acknowledge_found-Outcome now (some c) db = elim (can_become-or c.status acknowledgement) [
  | inl y ↦ rw y.0 (moved c _ _ _ refl y.1 refl (refl, refl, refl, refl) acknowledgement)
  | inr n ↦ rw n.0 (refused c refl n.1)
]

message_kept-same :
    (message : Option String) (c : AgentCommand)
    → ((message_kept message c).status ≡ c.status) × SameCommand (message_kept message c) c
message_kept-same none c = (refl, (refl, refl, refl, refl))
message_kept-same (some text) c = ground arith

fail_found-Outcome :
    (now : ℕ) (message : Option String) (found : Option AgentCommand) (db : Database)
    → Outcome failed found db (fail_found now message found db)
fail_found-Outcome now message none db = missing refl
fail_found-Outcome now message (some c) db = elim (can_become-or c.status failure) [
  | inl y ↦
      (let same =
          message_kept-same message (record c { status = failed; completed_at = some now }) in
        rw y.0 (moved c _ _ _ refl y.1 same.0 same.1 failure))
  | inr n ↦ rw n.0 (refused c refl n.1)
]

pub acknowledge_command-Outcome :
    (now a i : ℕ) (db : Database)
    → Outcome acknowledged (get_command a i db) db (acknowledge_command now a i db)
unfolding acknowledge_command
acknowledge_command-Outcome now a i db = acknowledge_found-Outcome now (get_command a i db) db

pub fail_command-Outcome :
    (now a i : ℕ) (message : Option String) (db : Database)
    → Outcome failed (get_command a i db) db (fail_command now a i message db)
unfolding fail_command
fail_command-Outcome now a i message db = fail_found-Outcome now message (get_command a i db) db

module _ {Json : Type 0} (env : Environment Json) where
  complete_found-Outcome :
      (result : Option Json) (found : Option AgentCommand) (db : Database)
      → Outcome completed found db (complete_found env result found db)
  complete_found-Outcome result none db = missing refl
  complete_found-Outcome none (some c) db = elim (can_become-or c.status completion) [
    | inl y ↦ rw y.0 (moved c _ _ _ refl y.1 refl (refl, refl, refl, refl) completion)
    | inr n ↦ rw n.0 (refused c refl n.1)
  ]
  complete_found-Outcome (some value) (some c) db = elim (can_become-or c.status completion) [
    | inr n ↦ rw n.0 (refused c refl n.1)
    | inl y ↦ elim (Option-cases (env.dumps value)) [
      | inl raises ↦ rw (y.0, raises) (unserialized c _ refl y.1 refl (refl, refl, refl, refl) refl)
      | inr (text, gives) ↦
          rw (y.0, gives) (moved c _ _ _ refl y.1 refl (refl, refl, refl, refl) completion)
    ]
  ]

  pub complete_command-Outcome :
      (a i : ℕ) (result : Option Json) (db : Database)
      → Outcome completed (get_command a i db) db (complete_command env a i result db)
  unfolding complete_command
  complete_command-Outcome a i result db = complete_found-Outcome result (get_command a i db) db

  -- Each report on a command finds the row of this id and this agent or answers "not found", moves
  -- it exactly along an edge of the diagram and answers "invalid transition" on any other, writes
  -- nothing when it refuses, and when it succeeds saves that row with the new status and one audit
  -- event of its kind. A result that cannot be serialized is the only other failure: the status is
  -- written then, and no event.
  pub reports-Outcome :
      (now agent_id command_id : ℕ) (message : Option String) (result : Option Json) (db : Database)
      → let found = get_command agent_id command_id db in
        Outcome acknowledged found db (acknowledge_command now agent_id command_id db)
        × Outcome failed found db (fail_command now agent_id command_id message db)
        × Outcome completed found db (complete_command env agent_id command_id result db)
  reports-Outcome now agent_id command_id message result db = (
    acknowledge_command-Outcome now agent_id command_id db,
    fail_command-Outcome now agent_id command_id message db,
    complete_command-Outcome agent_id command_id result db,
  )
