-- ===== src/Risk/Gateway.antt =====
-- src/broker_ai/risk/gateway.py: the only way to a broker leads through the risk engine.
mod Defs
pub mod Guard
unfoldable pub use Defs.*
