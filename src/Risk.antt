-- ===== src/Risk.antt =====
-- backend/risk/: configuration, position sizing and the decision on a new entry.
pub mod States
pub mod Config
pub mod Sizing
pub mod Snapshot
pub mod Gates
pub mod Engine
