-- ===== src/Ws/AgentManager.antt =====
-- backend/ws/agent_manager.py: the live connection of each agent. A socket is a number, which stands
-- for the object's identity. Whether a socket accepts and whether a message gets through is an
-- argument. The coroutines interleave at their `await`s, so connecting and sending have two halves
-- each: what is read first, and what is done once the socket answered.
pub mod Latest
use aurexis.Base.{
  ℕ, String, Bool, true, false, Option, none, some, List, [], ◌∷◌, ◌++◌, ◌==◌, Dict, String_key,
  lookup, insert, erase, is_some, length, if◌then◌else◌,
}

abbrev pub Socket : Type 0
Socket = ℕ

-- The connections, and the sockets that the manager closed, in order.
pub record AgentManager : Type 0 where
  pub active : Dict String Socket
  pub closed : List Socket

abbrev pub no_agents : AgentManager
no_agents = record { active = []; closed = [] }

-- The close of a connection that another one replaces. A close that raises is ignored.
abbrev replaced : Option Socket → Socket → List Socket
replaced none websocket = []
replaced (some old) websocket = if old == websocket then [] else old ∷ []

-- `connect` awaits twice before it stores the socket, so it has two halves as well: it reads the
-- connection that it replaces and closes it, ...
unfoldable pub closes_old : String → Socket → AgentManager → AgentManager
closes_old agent_id websocket m = record m {
  closed = m.closed ++ replaced (lookup agent_id m.active) websocket;
}

-- ... and once the new socket accepted, it is stored. `accepts` is false where `accept` raises; the
-- exception leaves the entry that is there then.
unfoldable pub stores : Bool → String → Socket → AgentManager → AgentManager
stores accepts agent_id websocket m =
    if accepts then record m { active = insert agent_id websocket m.active } else m

-- Both halves, with nothing between them.
unfoldable pub connect : Bool → String → Socket → AgentManager → AgentManager
connect accepts agent_id websocket m =
    stores accepts agent_id websocket (closes_old agent_id websocket m)

abbrev is_socket : Option Socket → Socket → Bool
is_socket none websocket = false
is_socket (some current) websocket = current == websocket

unfoldable pub disconnect : String → Socket → AgentManager → AgentManager
disconnect agent_id websocket m =
    if is_socket (lookup agent_id m.active) websocket
    then record m { active = erase agent_id m.active }
    else m

unfoldable pub is_connected : String → AgentManager → Bool
is_connected agent_id m = is_some (lookup agent_id m.active)

-- The two halves of `send_json`: the socket that it sends to, and what it answers and does when the
-- message got through or not.
unfoldable pub send_to : String → AgentManager → Option Socket
send_to agent_id m = lookup agent_id m.active

unfoldable pub sent_json : String → Option Socket → Bool → AgentManager → Bool × AgentManager
sent_json agent_id none delivered m = (false, m)
sent_json agent_id (some websocket) delivered m =
    if delivered then (true, m) else (false, disconnect agent_id websocket m)

unfoldable pub connection_count : AgentManager → ℕ
connection_count m = length m.active
