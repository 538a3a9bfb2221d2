-- ===== src/Ws/AgentManager/Latest.antt =====
-- The latest connection of an agent stays, whatever older sockets and other agents do.
use aurexis.Base.{
  String, ◌≡◌, ◌≢◌, ◌⊎◌, Bool, true, false, Option, none, some, List, [], ◌∷◌, ◌++◌, String_key,
  lookup, lookup-insert, lookup-erase, All, arith, eq_iff, eq_refl,
}
use aurexis.Ws.AgentManager.{
  Socket, AgentManager, closes_old, stores, connect, disconnect, send_to, sent_json,
}

-- What can happen, in any order: either half of a connection, a disconnection, and the end of a send.
pub data Event : Type 0 where
  begins : String → Socket → Event
  ends : Bool → String → Socket → Event
  disconnects : String → Socket → Event
  sends : String → Option Socket → Bool → Event

unfoldable pub happen : Event → AgentManager → AgentManager
happen (begins agent_id websocket) m = closes_old agent_id websocket m
happen (ends accepts agent_id websocket) m = stores accepts agent_id websocket m
happen (disconnects agent_id websocket) m = disconnect agent_id websocket m
happen (sends agent_id websocket delivered) m = (sent_json agent_id websocket delivered m).1

unfoldable pub happen_all : List Event → AgentManager → AgentManager
happen_all [] m = m
happen_all (e ∷ es) m = happen_all es (happen e m)

-- An event that stores no socket for this agent, and is no end or failure of this socket.
abbrev pub Spares : String → Socket → Event → Type 0
Spares agent websocket (begins a w) = Unit
Spares agent websocket (ends accepts a w) = (a ≢ agent) ⊎ (accepts ≡ false)
Spares agent websocket (disconnects a w) = (a ≢ agent) ⊎ (w ≢ websocket)
Spares agent websocket (sends a w delivered) =
    (a ≢ agent) ⊎ ((w ≢ some websocket) ⊎ (delivered ≡ true))

disconnect_spares :
    (agent a : String) (w v : Socket) (m : AgentManager)
    → (a ≢ agent) ⊎ (v ≢ w)
    → lookup agent m.active ≡ some w
    → lookup agent (disconnect a v m).active ≡ some w
unfolding disconnect
disconnect_spares agent a w v m h e = ground (arith, lookup-erase a agent m.active, eq_iff a agent)

happen-Spares :
    (agent : String) (w : Socket) (event : Event) (m : AgentManager)
    → Spares agent w event
    → lookup agent m.active ≡ some w
    → lookup agent (happen event m).active ≡ some w
unfolding happen closes_old stores sent_json
happen-Spares agent w (begins a v) m h e = e
happen-Spares agent w (ends accepts a v) m h e =
    ground (arith, lookup-insert a agent v m.active, eq_iff a agent)
happen-Spares agent w (disconnects a v) m h e = disconnect_spares agent a w v m h e
happen-Spares agent w (sends a none delivered) m h e = e
happen-Spares agent w (sends a (some v) delivered) m h e =
    ground (arith, disconnect_spares agent a w v m)

happen_all-Spares :
    (agent : String) (w : Socket) (events : List Event) (m : AgentManager)
    → All (Spares agent w) events
    → lookup agent m.active ≡ some w
    → lookup agent (happen_all events m).active ≡ some w
unfolding happen_all
happen_all-Spares agent w [] m h e = e
happen_all-Spares agent w (event ∷ events) m (h, hs) e =
    happen_all-Spares agent w events (happen event m) hs (happen-Spares agent w event m h e)

-- Once an agent's socket is accepted, whatever happened since its connection began, messages for the
-- agent go to it, through any events that store no other socket for the agent and are no end of this
-- one: connections of the agent that began or failed, the disconnections and the failed sends of its
-- older sockets, even of sends that began before, and all events of other agents.
pub connect-send_to :
    (agent : String) (w : Socket) (between events : List Event) (m : AgentManager)
    → All (Spares agent w) events
    → send_to agent
        (happen_all events (stores true agent w (happen_all between (closes_old agent w m))))
      ≡ some w
unfolding send_to stores
connect-send_to agent w between events m h =
    let before = happen_all between (closes_old agent w m) in
    happen_all-Spares agent w events (stores true agent w before) h
      (ground (arith, lookup-insert agent agent w before.active, eq_refl agent))

-- A connection closes the socket that it replaces, if that is another one, and no socket else; the
-- entries of other agents stay.
pub connect_lem :
    (accepts : Bool) (agent other : String) (w old : Socket) (m : AgentManager)
    → lookup agent m.active ≡ some old
    → old ≢ w
    → other ≢ agent
    → let m' = connect accepts agent w m in
      (m'.closed ≡ m.closed ++ old ∷ []) × (lookup other m'.active ≡ lookup other m.active)
unfolding connect closes_old stores
connect_lem accepts agent other w old m e n k =
    ground (arith, lookup-insert agent other w m.active, eq_iff agent other)
