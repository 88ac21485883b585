-- ===== src/Strategies.antt =====
-- src/broker_ai/strategies: the contract between a strategy and the backtest, and the reference
-- strategy on two moving averages.
mod Defs
pub mod Window
unfoldable pub use Defs.*
