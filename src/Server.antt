-- ===== src/Server.antt =====
-- src/broker_ai/server: the payloads, the tables and the endpoints of the API, its rate limiter and
-- the synchronization worker.
pub mod RateLimiter
pub mod Window
pub mod Schemas
pub mod Database
pub mod Api
pub mod SyncWorker
pub mod Turns
