-- ===== src/Services.antt =====
-- backend/services/: the parts that decide on commands and on entries.
pub mod AgentCommands
pub mod RiskGate
pub mod Database
pub mod ExecutionService
pub mod RiskService
pub mod Mt5Session
pub mod TradingPipeline
