-- ===== src/Outbox.antt =====
-- apps/worker/src/outbox: the statements, the life of one dispatch, the back-off, and publishing
pub mod Statements
pub mod Lifecycle
pub mod Backoff
pub mod Payload
pub mod Publication
pub mod Dispatcher
