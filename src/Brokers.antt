-- ===== src/Brokers.antt =====
-- The brokers of src/broker_ai/brokers.
pub mod Simulated
pub mod Models
pub mod Local
pub mod Reliable
pub mod Alpaca
pub mod Sync
pub mod Onboarding
