-- ===== src/Processing.antt =====
-- apps/worker/src/processing: leases on media rows, attempts, the publication of variants, and the
-- run of one job.
pub mod Message
pub mod Row
pub mod Lifecycle
pub mod Claims
pub mod Publication
pub mod Orchestrator
pub mod Artifacts
