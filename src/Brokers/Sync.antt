-- ===== src/Brokers/Sync.antt =====
-- src/broker_ai/brokers/alpaca_sync.py: the tables become a copy of the account at the broker.
pub mod Defs
pub mod Positions
pub mod Orders
pub mod Current
pub mod Mirror
pub mod Ends
pub use Defs.*
