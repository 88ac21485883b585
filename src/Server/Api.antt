-- ===== src/Server/Api.antt =====
-- src/broker_ai/server/app.py: the endpoints that change the tables, who may call them, and the
-- middleware around them.
pub mod Proposals
pub mod Access
pub mod Lifecycle
pub mod Routes
pub mod Replay
pub mod Limits
pub mod Decisions
pub mod Seeding
pub mod Startup
pub mod Approval
