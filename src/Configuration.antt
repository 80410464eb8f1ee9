-- ===== src/Configuration.antt =====
-- libs/configuration/src/environment.schema.ts
pub mod Readers
pub mod Sections
pub mod Reading
pub mod Bounds
pub mod Ensured
pub mod Accepted
use posts_media.Common.{leb, if◌then◌else◌}
use posts_media.Configuration.Readers.{Environment, Parsed, Reason, parsed, failed, ◌>>=◌}
use posts_media.Configuration.Sections.{
  App, Database, Redis, Storage, Upload, Idempotency, Outbox, Worker, Processing,
}
use posts_media.Configuration.Reading.{
  app, database, redis, storage, upload, idempotency, outbox, worker, processing,
}

pub record EnvironmentConfiguration : Type 0 where
  pub app : App
  pub database : Database
  pub redis : Redis
  pub storage : Storage
  pub upload : Upload
  pub idempotency : Idempotency
  pub outbox : Outbox
  pub worker : Worker
  pub processing : Processing

-- the checks that relate two settings
unfoldable pub related : EnvironmentConfiguration → Parsed EnvironmentConfiguration
related c =
    if leb c.worker.processing_lease_seconds c.worker.processing_lease_renew_seconds
    then failed "PROCESSING_LEASE_RENEW_SECONDS" Reason.less_than_lease
    else if leb c.worker.heartbeat_stale_seconds c.worker.heartbeat_interval_seconds
    then failed "WORKER_HEARTBEAT_STALE_SECONDS" Reason.greater_than_interval
    else parsed c

unfoldable pub parse_environment : Environment → Parsed EnvironmentConfiguration
parse_environment environment = app environment >>= λ app_section.
    database environment >>= λ database_section. redis environment >>= λ redis_section.
    storage environment >>= λ storage_section. upload environment >>= λ upload_section.
    idempotency environment >>= λ idempotency_section. outbox environment >>= λ outbox_section.
    worker environment >>= λ worker_section. processing environment >>= λ processing_section.
    related (record {
      app = app_section;
      database = database_section;
      redis = redis_section;
      storage = storage_section;
      upload = upload_section;
      idempotency = idempotency_section;
      outbox = outbox_section;
      worker = worker_section;
      processing = processing_section;
    })
