-- ===== src/Brokers/Reliable.antt =====
-- src/broker_ai/brokers/reliable.py: bounded retries around an adapter.
mod Defs
pub mod Retry
pub mod Once
unfoldable pub use Defs.*
