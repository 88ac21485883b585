-- ===== src/Brokers/Onboarding.antt =====
-- src/broker_ai/brokers/alpaca_onboarding.py: the first order on the paper account.
pub mod Defs
pub mod Plan
pub mod Consent
