-- ===== src/Execution.antt =====
-- backend/execution/: commands to the broker, what it reports back, and the comparison of both sides.
pub mod Commands
pub mod Reports
pub mod Reconciliation
pub mod Simulator
