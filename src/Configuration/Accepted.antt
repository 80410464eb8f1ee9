-- ===== src/Configuration/Accepted.antt =====
-- What a configuration that is parsed promises.
use posts_media.Common.{◌<◌, ◌≡◌, Bool-cases, inl, inr, leb, arith}
use posts_media.Configuration.{EnvironmentConfiguration, parse_environment, related}
use posts_media.Configuration.Readers.{Environment, Reason, parsed}
use posts_media.Configuration.Readers.Bounds.{Ensures, value, nothing, ensures_bind}
use posts_media.Configuration.Bounds.{
  AppBounds, DatabaseBounds, RedisBounds, StorageBounds, UploadBounds, IdempotencyBounds,
  OutboxBounds, WorkerBounds, ProcessingBounds,
}
use posts_media.Configuration.Ensured.{
  app-AppBounds, database-DatabaseBounds, redis-RedisBounds, storage-StorageBounds,
  upload-UploadBounds, idempotency-IdempotencyBounds, outbox-OutboxBounds, worker-WorkerBounds,
  processing-ProcessingBounds,
}

pub record IsValid (c : EnvironmentConfiguration) : Type 0 where
  pub app : AppBounds c.app
  pub database : DatabaseBounds c.database
  pub redis : RedisBounds c.redis
  pub storage : StorageBounds c.storage
  pub upload : UploadBounds c.upload
  pub idempotency : IdempotencyBounds c.idempotency
  pub outbox : OutboxBounds c.outbox
  pub worker : WorkerBounds c.worker
  pub processing : ProcessingBounds c.processing
  pub renews : c.worker.processing_lease_renew_seconds < c.worker.processing_lease_seconds
  pub beats : c.worker.heartbeat_interval_seconds < c.worker.heartbeat_stale_seconds

related-IsValid :
    (c : EnvironmentConfiguration)
    → AppBounds c.app
    → DatabaseBounds c.database
    → RedisBounds c.redis
    → StorageBounds c.storage
    → UploadBounds c.upload
    → IdempotencyBounds c.idempotency
    → OutboxBounds c.outbox
    → WorkerBounds c.worker
    → ProcessingBounds c.processing
    → Ensures IsValid (related c)
unfolding related
related-IsValid c a d r s u i o w p =
    elim (Bool-cases
      (leb c.worker.processing_lease_seconds c.worker.processing_lease_renew_seconds)) [
        | inl late ↦ rw late (nothing "PROCESSING_LEASE_RENEW_SECONDS" Reason.less_than_lease)
        | inr early ↦
            elim (Bool-cases
              (leb c.worker.heartbeat_stale_seconds c.worker.heartbeat_interval_seconds)) [
                | inl stale ↦
                    rw (early, stale)
                      (nothing "WORKER_HEARTBEAT_STALE_SECONDS" Reason.greater_than_interval)
                | inr fresh ↦
                    rw (early, fresh)
                      (value c (record {
                        app = a;
                        database = d;
                        redis = r;
                        storage = s;
                        upload = u;
                        idempotency = i;
                        outbox = o;
                        worker = w;
                        processing = p;
                        renews = ground arith;
                        beats = ground arith;
                      }))
              ]
      ]

-- A configuration that parseEnvironment returns has a text for every required text, an integer
-- between its bounds, and at most 2^53 - 1, for every integer, one of the listed values for every
-- choice; the lease is renewed in less time than it lasts, and the heart beats in less time than
-- makes it stale.
pub parse_environment-IsValid :
    (environment : Environment) (c : EnvironmentConfiguration)
    → parse_environment environment ≡ parsed c
    → IsValid c
unfolding parse_environment
parse_environment-IsValid environment c h =
    let all : Ensures IsValid (parse_environment environment) =
      ensures_bind (app-AppBounds environment) (λ a pa.
        ensures_bind (database-DatabaseBounds environment) (λ d pd.
          ensures_bind (redis-RedisBounds environment) (λ r pr.
            ensures_bind (storage-StorageBounds environment) (λ s ps.
              ensures_bind (upload-UploadBounds environment) (λ u pu.
                ensures_bind (idempotency-IdempotencyBounds environment) (λ i pi.
                  ensures_bind (outbox-OutboxBounds environment) (λ o po.
                    ensures_bind (worker-WorkerBounds environment) (λ w pw.
                      ensures_bind (processing-ProcessingBounds environment)
                        (λ p pp. related-IsValid _ pa pd pr ps pu pi po pw pp))))))))) in
    all.holds c h
