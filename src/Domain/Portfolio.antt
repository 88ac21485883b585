-- ===== src/Domain/Portfolio.antt =====
-- src/broker_ai/domain/portfolio.py, class Portfolio: cash, positions and realized profit. The
-- valuation stands in Domain/Valuation.
mod Defs
pub mod Invariant
pub mod Sale
unfoldable pub use Defs.*
