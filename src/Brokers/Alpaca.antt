-- ===== src/Brokers/Alpaca.antt =====
-- src/broker_ai/brokers/alpaca.py: the adapter of Alpaca's paper trading service, what it sends, and
-- what it makes of the answers.
pub mod Json
pub mod Keys
pub mod Http
pub mod Answers
pub mod Adapter
pub mod Recent
pub mod Readings
pub mod Whole
pub mod Fills
pub mod PaperOnly
pub mod Idempotence
