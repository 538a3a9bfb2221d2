-- ===== src/Services/Mt5Session.antt =====
-- backend/services/mt5_session.py: the heartbeats of the agents, in the database and in memory. The
-- clock is an argument, and so is `uuid.UUID`, which gives `none` where it raises; UUIDs are numbers.
-- An agent's account always exists, as its foreign key requires. Logging and payloads are left out.
pub mod Rows
pub mod Heartbeats
use aurexis.Base.{
  ℕ, ◌+◌, ◌*◌, ◌/◌, String, Bool, true, false, not, ◌&&◌, Option, none, some, List, [], ◌∷◌, ◌++◌,
  ◌==◌, ltb, leb, select, Dict, String_key, lookup, insert, str_eq, if◌then◌else◌, is_some,
}
use aurexis.Services.Database.{latest_from}

-- `(HEARTBEAT_INTERVAL_MS * MISSED_HEARTBEAT_THRESHOLD) // 1000`
unfoldable pub agent_timeout_seconds : ℕ
agent_timeout_seconds = 5000 * 3 / 1000

abbrev pub microseconds : ℕ → ℕ
microseconds seconds = seconds * 1000000

pub data AgentStatus : Type 0 where
  unknown connected disconnected error : AgentStatus

abbrev pub same_status : AgentStatus → AgentStatus → Bool
same_status unknown unknown = true
same_status connected connected = true
same_status disconnected disconnected = true
same_status error error = true
same_status _ _ = false

abbrev pub status_text : AgentStatus → String
status_text unknown = "UNKNOWN"
status_text connected = "CONNECTED"
status_text disconnected = "DISCONNECTED"
status_text error = "ERROR"

-- A row of `MT5Agent` (backend/db/models/mt5_agent.py).
pub record Agent : Type 0 where
  pub id : ℕ
  pub account_id : ℕ
  pub created_at : ℕ
  pub last_seen_at : Option ℕ
  pub last_known_status : AgentStatus
  pub ea_version : Option String
  pub mt5_version : Option String

-- The events MT5_AGENT_CONNECTED and MT5_AGENT_DISCONNECTED.
pub record AgentEvent : Type 0 where
  pub mt5_agent_id : ℕ
  pub account_id : ℕ
  pub new_status : AgentStatus

pub record Registry : Type 0 where
  pub agents : List Agent
  pub events : List AgentEvent

unfoldable pub find : (Agent → Bool) → List Agent → Option Agent
find p [] = none
find p (a ∷ as') = let rest = find p as' in if p a then some a else rest

-- The row of that agent, changed in place.
unfoldable pub store : Agent → List Agent → List Agent
store a [] = []
store a (b ∷ bs) = let rest = store a bs in if b.id == a.id then a ∷ bs else b ∷ rest

abbrev pub event_for : Agent → AgentStatus → AgentEvent
event_for a status = record { mt5_agent_id = a.id; account_id = a.account_id; new_status = status }

-- `if version is not None: agent.version = version`
abbrev kept : Option String → Option String → Option String
kept none old = old
kept (some version) old = some version

abbrev pub status_of : Bool → AgentStatus
status_of terminal_connected = if terminal_connected then connected else disconnected

unfoldable pub beaten : ℕ → Option String → Option String → Bool → Agent → Agent
beaten now ea_version mt5_version terminal_connected a = record a {
  last_seen_at = some now;
  last_known_status = status_of terminal_connected;
  ea_version = kept ea_version a.ea_version;
  mt5_version = kept mt5_version a.mt5_version;
}

abbrev pub status_events : Agent → AgentStatus → List AgentEvent
status_events a status =
    if same_status a.last_known_status status then [] else event_for a status ∷ []

abbrev pub is_agent : ℕ → ℕ → Agent → Bool
is_agent agent account a = a.id == agent && a.account_id == account

module _ (uuid : String → Option ℕ) where
  -- The agent that is returned, and the registry after the call.
  unfoldable pub process_agent_heartbeat :
      ℕ
      → String
      → String
      → Option String
      → Option String
      → Bool
      → Registry
      → Option Agent × Registry
  process_agent_heartbeat now agent_id account_id ea_version mt5_version terminal_connected r =
      elim (uuid agent_id) [
        | none ↦ (none, r)
        | some agent ↦ elim (uuid account_id) [
          | none ↦ (none, r)
          | some account ↦ elim (find (is_agent agent account) r.agents) [
            | none ↦ (none, r)
            | some a ↦
                let a' = beaten now ea_version mt5_version terminal_connected a in
                (
                  some a',
                  record {
                    agents = store a' r.agents;
                    events = r.events ++ status_events a (status_of terminal_connected);
                  },
                )
          ]
        ]
      ]

  unfoldable pub mark_agent_offline : String → Registry → Registry
  mark_agent_offline agent_id r = elim (uuid agent_id) [
    | none ↦ r
    | some agent ↦ elim (find (λ a. a.id == agent) r.agents) [
      | none ↦ r
      | some a ↦ if same_status a.last_known_status disconnected then r else record {
        agents = store (record a { last_known_status = disconnected }) r.agents;
        events = r.events ++ event_for a disconnected ∷ [];
      }
    ]
  ]

-- `agent.last_seen_at < now - timedelta(seconds=…)`, and an agent never seen is stale.
unfoldable pub is_stale : ℕ → Agent → Bool
unfolding agent_timeout_seconds
is_stale now a = elim a.last_seen_at [
  | none ↦ true
  | some seen ↦ ltb (seen + microseconds agent_timeout_seconds) now
]

abbrev is_connected_status : AgentStatus → Bool
is_connected_status s = same_status s connected

-- What the state's dict says of the status.
pub data EffectiveStatus : Type 0 where
  invalid_account_id no_agent_registered stale : EffectiveStatus
  known : AgentStatus → EffectiveStatus

unfoldable pub effective_status : ℕ → Agent → EffectiveStatus
unfolding is_stale
effective_status now a =
    if is_stale now a && is_connected_status a.last_known_status
    then stale
    else known a.last_known_status

-- The entry "connected".
abbrev pub says_connected : EffectiveStatus → Bool
says_connected (known status) = is_connected_status status
says_connected _ = false

unfoldable pub get_agent_connection_state :
    (String → Option ℕ) → ℕ → String → Registry → EffectiveStatus
unfolding effective_status
get_agent_connection_state uuid now account_id r = elim (uuid account_id) [
  | none ↦ invalid_account_id
  | some account ↦
      elim (latest_from (λ a. a.created_at) none (select (λ a. a.account_id == account) r.agents)) [
        | none ↦ no_agent_registered
        | some a ↦ effective_status now a
      ]
]

-- `MT5SessionService`, which keeps the sessions in memory.
pub record AgentSession : Type 0 where
  pub account_id : String
  pub status : String
  pub account_number : Option String
  pub ea_version : Option String
  pub last_seen_at : ℕ

pub record SessionService : Type 0 where
  pub heartbeat_timeout_seconds : ℕ
  pub agents : Dict String AgentSession

unfoldable pub new_session_service : SessionService
unfolding agent_timeout_seconds
new_session_service = record { heartbeat_timeout_seconds = agent_timeout_seconds; agents = [] }

abbrev pub new_session : ℕ → String → String → Option String → Option String → AgentSession
new_session now account_id status account_number ea_version = record {
  account_id = account_id;
  status = status;
  account_number = account_number;
  ea_version = ea_version;
  last_seen_at = now;
}

unfoldable pub record_heartbeat :
    ℕ → String → String → String → Option String → Option String → SessionService → SessionService
record_heartbeat now agent_id account_id status account_number ea_version s = record s {
  agents = insert agent_id (new_session now account_id status account_number ea_version) s.agents;
}

unfoldable pub is_connected : ℕ → String → SessionService → Bool
is_connected now agent_id s = elim (lookup agent_id s.agents) [
  | none ↦ false
  | some session ↦
      str_eq session.status "CONNECTED"
      && leb now (session.last_seen_at + microseconds s.heartbeat_timeout_seconds)
]
