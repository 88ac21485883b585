-- ===== src/Backtesting.antt =====
-- src/broker_ai/backtesting/engine.py: a run over a dataset, bar by bar, with each signal executed on
-- the opening of the next day.
mod Defs
pub mod Causality
pub mod Solvency
pub mod Metrics
pub mod Statistics
pub mod Scan
pub mod Drawdown
pub mod Totality
pub mod Report
unfoldable pub use Defs.*
