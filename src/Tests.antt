-- ===== src/Tests.antt =====
-- The theorems at concrete inputs, and some runs.
mod Sizing
mod Risk
mod Execution
mod Orders
mod AgentResults
mod Services
mod Pipeline
mod Indicators
mod RiskRows
mod Brain
mod Ws
mod Scoring
