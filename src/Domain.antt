-- ===== src/Domain.antt =====
-- The domain objects of src/broker_ai/domain: instruments, orders, positions, the portfolio with
-- its valuation, and transactions.
pub mod Text
pub mod Instrument
pub mod Order
pub mod Position
pub mod Portfolio
pub mod Valuation
pub mod Time
pub mod Market
pub mod Transaction
