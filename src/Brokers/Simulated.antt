-- ===== src/Brokers/Simulated.antt =====
-- src/broker_ai/brokers/simulated.py: the broker that executes orders in a local portfolio.
mod Defs
pub mod Atomic
pub mod Settlement
pub mod Log
unfoldable pub use Defs.*
