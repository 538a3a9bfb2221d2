-- ===== src/Services/AgentCommands/Operations.antt =====
-- backend/services/agent_commands.py: the operations on a command. `complete_command` writes the
-- status before it serializes the result, as the code does.
use aurexis.Base.{
  ℕ, zero, suc, String, Bool, true, false, ◌&&◌, Option, none, some, List, [], ◌∷◌, ◌++◌, map, ◌==◌,
  str_eq, any, if◌then◌else◌,
}
use aurexis.Services.AgentCommands.{
  AgentCommand, Database, Result, Action, supported_command_type, can_become, event_of, put_row,
  save, get_command, pending, sent, acknowledged, completed, failed, command_created, command_sent,
  command_acknowledged, command_completed, command_failed, invalid_command_type, unserializable,
  command_not_found, invalid_state_transition, ok, err,
}

-- What `create_command` takes from outside.
pub record Environment (Json : Type 0) : Type 0 where
  pub now : ℕ
  pub fresh_id : ℕ
  pub upper : String → String
  pub dumps : Json → Option String

module _ {Json : Type 0} (env : Environment Json) where
  abbrev pub serialized : Option Json → Result (Option String)
  serialized none = ok none
  serialized (some value) = elim (env.dumps value) [
    | none ↦ err unserializable
    | some text ↦ ok (some text)
  ]

  abbrev pub insert_command : ℕ → String → Result (Option String) → Action AgentCommand
  insert_command agent_id upper_type (err e) db = (err e, db)
  insert_command agent_id upper_type (ok payload_json) db =
      let command : AgentCommand = record {
        id = env.fresh_id;
        agent_id = agent_id;
        command_type = upper_type;
        status = pending;
        payload_json = payload_json;
        result_json = none;
        error_message = none;
        sent_at = none;
        acknowledged_at = none;
        completed_at = none;
      } in
      (
        ok command,
        record {
          rows = db.rows ++ command ∷ [];
          audit = db.audit ++ event_of command_created command none ∷ [];
        },
      )

  unfoldable pub create_command : ℕ → String → Option Json → Action AgentCommand
  create_command agent_id command_type payload db =
      let upper_type = env.upper command_type in
      if supported_command_type upper_type
      then insert_command agent_id upper_type (serialized payload) db
      else (err invalid_command_type, db)

  -- The status, the time and the result are written before the result is serialized.
  abbrev pub complete_found : Option Json → Option AgentCommand → Action AgentCommand
  complete_found result none db = (err command_not_found, db)
  complete_found result (some cmd) db =
      let done = record cmd { status = completed; completed_at = some env.now } in
      if can_become cmd.status completed
      then elim (serialized result) [
        | err e ↦ (err e, record db { rows = put_row done db.rows })
        | ok none ↦ (ok done, save command_completed done none db)
        | ok (some text) ↦
            (let c = record done { result_json = some text } in
              (ok c, save command_completed c none db))
      ]
      else (err (invalid_state_transition cmd.status completed), db)

  unfoldable pub complete_command : ℕ → ℕ → Option Json → Action AgentCommand
  unfolding get_command
  complete_command agent_id command_id result db =
      complete_found result (get_command agent_id command_id db) db

abbrev pub acknowledge_found : ℕ → Option AgentCommand → Action AgentCommand
acknowledge_found now none db = (err command_not_found, db)
acknowledge_found now (some cmd) db =
    let c = record cmd { status = acknowledged; acknowledged_at = some now } in
    if can_become cmd.status acknowledged
    then (ok c, save command_acknowledged c none db)
    else (err (invalid_state_transition cmd.status acknowledged), db)

unfoldable pub acknowledge_command : ℕ → ℕ → ℕ → Action AgentCommand
unfolding get_command
acknowledge_command now agent_id command_id db =
    acknowledge_found now (get_command agent_id command_id db) db

-- `text[:n]`
unfoldable pub first_chars : ℕ → String → String
first_chars zero text = ""
first_chars (suc n) String.[] = ""
first_chars (suc n) (String.◌∷◌ c text) = String.◌∷◌ c (first_chars n text)

-- `if error_message: cmd.error_message = error_message[:500]`
abbrev pub message_kept : Option String → AgentCommand → AgentCommand
message_kept none c = c
message_kept (some text) c =
    if str_eq text "" then c else record c { error_message = some (first_chars 500 text) }

abbrev pub fail_found : ℕ → Option String → Option AgentCommand → Action AgentCommand
fail_found now message none db = (err command_not_found, db)
fail_found now message (some cmd) db =
    let c = message_kept message (record cmd { status = failed; completed_at = some now }) in
    if can_become cmd.status failed
    then (ok c, save command_failed c c.error_message db)
    else (err (invalid_state_transition cmd.status failed), db)

unfoldable pub fail_command : ℕ → ℕ → ℕ → Option String → Action AgentCommand
unfolding get_command
fail_command now agent_id command_id message db =
    fail_found now message (get_command agent_id command_id db) db

abbrev pub mark_found : ℕ → Option AgentCommand → Action AgentCommand
mark_found now none db = (err command_not_found, db)
mark_found now (some cmd) db =
    let c = record cmd { status = sent; sent_at = some now } in (ok c, save command_sent c none db)

unfoldable pub mark_sent : ℕ → ℕ → ℕ → Action AgentCommand
unfolding get_command
mark_sent now agent_id command_id db = mark_found now (get_command agent_id command_id db) db

abbrev pub is_pending : ℕ → AgentCommand → Bool
is_pending agent_id r = r.agent_id == agent_id && elim r.status [ pending ↦ true | _ ↦ false ]

abbrev pub claimed : ℕ → AgentCommand → AgentCommand
claimed now r = record r { status = sent; sent_at = some now }

-- The rows after the query and its loop, and the rows that it took: the first `limit` that are
-- pending.
unfoldable pub claim_rows : ℕ → ℕ → ℕ → List AgentCommand → List AgentCommand × List AgentCommand
claim_rows now agent_id zero rows = (rows, [])
claim_rows now agent_id (suc n) [] = ([], [])
claim_rows now agent_id (suc n) (r ∷ rs) =
    let taken = claim_rows now agent_id n rs in
    let passed = claim_rows now agent_id (suc n) rs in
    if is_pending agent_id r
    then (claimed now r ∷ taken.0, claimed now r ∷ taken.1)
    else (r ∷ passed.0, passed.1)

unfoldable pub claim_pending_commands : ℕ → ℕ → ℕ → Database → List AgentCommand × Database
unfolding claim_rows
claim_pending_commands now agent_id limit db =
    let (rows, commands) = claim_rows now agent_id limit db.rows in
    (
      commands,
      record { rows = rows; audit = db.audit ++ map (λ c. event_of command_sent c none) commands },
    )

abbrev pub is_in_flight : ℕ → AgentCommand → Bool
is_in_flight agent_id r =
    r.agent_id == agent_id && elim r.status [ sent ↦ true | acknowledged ↦ true | _ ↦ false ]

unfoldable pub has_in_flight_command : ℕ → Database → Bool
has_in_flight_command agent_id db = any (is_in_flight agent_id) db.rows
