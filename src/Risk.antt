-- ===== src/Risk.antt =====
-- The risk engine of src/broker_ai/risk and the gateway in front of every broker.
pub mod Models
pub mod Rules
pub mod Engine
pub mod Limits
pub mod Audit
pub mod Gateway
