-- ===== src/Services/AgentCommands.antt =====
-- backend/services/agent_commands.py: the control commands of an agent in the database. The session
-- is explicit state. The rows stand in the order of `created_at`, a new one last; UUIDs are numbers,
-- which the code only compares. What the code takes from outside is an argument: the clock, fresh
-- ids, `str.upper`, and `json.dumps`, which gives `none` where it raises.
pub mod Operations
pub mod Claims
pub mod Transitions
pub mod Calls
pub mod Found
use aurexis.Base.{
  ℕ, zero, suc, String, Bool, true, false, not, ◌&&◌, Option, none, some, List, [], ◌∷◌, ◌++◌, map,
  ◌==◌, str_eq, one_of, any, take, if◌then◌else◌,
}

pub data CommandStatus : Type 0 where
  pending sent acknowledged completed failed expired : CommandStatus

-- A row of `MT5AgentCommand` (backend/db/models/agent_command.py).
pub record AgentCommand : Type 0 where
  pub id : ℕ
  pub agent_id : ℕ
  pub command_type : String
  pub status : CommandStatus
  pub payload_json : Option String
  pub result_json : Option String
  pub error_message : Option String
  pub sent_at : Option ℕ
  pub acknowledged_at : Option ℕ
  pub completed_at : Option ℕ

pub data AuditEventType : Type 0 where
  command_created command_sent command_acknowledged command_completed command_failed :
      AuditEventType

pub record AuditEvent : Type 0 where
  pub event_type : AuditEventType
  pub mt5_agent_id : ℕ
  pub command_id : ℕ
  pub command_type : String
  pub error_message : Option String

pub record Database : Type 0 where
  pub rows : List AgentCommand
  pub audit : List AuditEvent

pub data CommandError : Type 0 where
  invalid_command_type unserializable command_not_found : CommandError
  invalid_state_transition : CommandStatus → CommandStatus → CommandError

pub data Result (A : Type 0) : Type 0 where
  ok : A → Result A
  err : CommandError → Result A

-- A call ends with a value or an exception, and what it wrote before an exception stays written.
abbrev pub Action : Type 0 → Type 0
Action A = Database → Result A × Database

unfoldable pub supported_command_type : String → Bool
supported_command_type t =
    one_of t ("PING" ∷ "GET_STATUS" ∷ "OPEN_POSITION" ∷ "CLOSE_POSITION" ∷ [])

unfoldable pub valid_transitions : CommandStatus → List CommandStatus
valid_transitions pending = sent ∷ failed ∷ expired ∷ []
valid_transitions sent = acknowledged ∷ completed ∷ failed ∷ expired ∷ []
valid_transitions acknowledged = completed ∷ failed ∷ []
valid_transitions completed = []
valid_transitions failed = []
valid_transitions expired = []

abbrev pub status_text : CommandStatus → String
status_text pending = "PENDING"
status_text sent = "SENT"
status_text acknowledged = "ACKNOWLEDGED"
status_text completed = "COMPLETED"
status_text failed = "FAILED"
status_text expired = "EXPIRED"

-- `new_status in VALID_TRANSITIONS.get(status, set())`
unfoldable pub can_become : CommandStatus → CommandStatus → Bool
unfolding valid_transitions
can_become s t = one_of (status_text t) (map status_text (valid_transitions s))

abbrev pub event_of : AuditEventType → AgentCommand → Option String → AuditEvent
event_of kind c message = record {
  event_type = kind;
  mt5_agent_id = c.agent_id;
  command_id = c.id;
  command_type = c.command_type;
  error_message = message;
}

-- The row that a mutated object stands for.
unfoldable pub put_row : AgentCommand → List AgentCommand → List AgentCommand
put_row c [] = []
put_row c (r ∷ rs) = (if r.id == c.id then c else r) ∷ put_row c rs

-- The mutated row and its audit event.
abbrev pub save : AuditEventType → AgentCommand → Option String → Database → Database
save kind c message db = record {
  rows = put_row c db.rows;
  audit = db.audit ++ event_of kind c message ∷ [];
}

abbrev pub is_row : ℕ → ℕ → AgentCommand → Bool
is_row agent_id command_id r = r.id == command_id && r.agent_id == agent_id

unfoldable pub get_row : ℕ → ℕ → List AgentCommand → Option AgentCommand
get_row agent_id command_id [] = none
get_row agent_id command_id (r ∷ rs) =
    if is_row agent_id command_id r then some r else get_row agent_id command_id rs

unfoldable pub get_command : ℕ → ℕ → Database → Option AgentCommand
unfolding get_row
get_command agent_id command_id db = get_row agent_id command_id db.rows
