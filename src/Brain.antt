-- ===== src/Brain.antt =====
-- brain/: the analytical core, from ticks to a scored candidate signal.
pub mod Interfaces
pub mod MarketData
pub mod BarBuilder
pub mod BarManager
pub mod Structure
pub mod Scoring
pub mod Indicators
pub mod Config
pub mod Regime
pub mod Setups
pub mod SignalPipeline
