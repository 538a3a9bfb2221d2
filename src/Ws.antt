-- ===== src/Ws.antt =====
-- backend/ws/: the connections of agents and of clients.
pub mod AgentManager
pub mod Manager
