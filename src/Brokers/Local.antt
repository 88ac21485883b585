-- ===== src/Brokers/Local.antt =====
-- src/broker_ai/brokers/local.py: the simulator adapter, which fills at once, and the offline paper
-- adapter, which fills when it reconciles.
mod Defs
pub mod Idempotence
pub mod Atomic
pub mod Lifecycle
pub mod Account
unfoldable pub use Defs.*
