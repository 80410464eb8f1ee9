-- ===== src/Configuration/Ensured.antt =====
-- Each section, as it is read, keeps its bounds.
use posts_media.Common.{none, some, [], ◌∷◌}
use posts_media.Configuration.Readers.{Environment, boolean}
use posts_media.Configuration.Readers.Bounds.{
  Ensures, value, ensures_bind, anything, required_string-HasText, integer-IsWithin, one_of-IsOneOf,
}
use posts_media.Configuration.Reading.{
  app, database, redis, storage, upload, idempotency, outbox, worker, processing,
}
use posts_media.Configuration.Bounds.{
  AppBounds, DatabaseBounds, RedisBounds, StorageBounds, UploadBounds, IdempotencyBounds,
  OutboxBounds, WorkerBounds, ProcessingBounds,
}

module _ (environment : Environment) where
  pub app-AppBounds : Ensures AppBounds (app environment)
  unfolding app
  app-AppBounds =
      ensures_bind
        (one_of-IsOneOf environment "NODE_ENV" ("development" ∷ "test" ∷ "production" ∷ []))
        (λ x0 p0. ensures_bind (integer-IsWithin environment "PORT" 1 (some 65535)) (λ x1 p1.
          ensures_bind (required_string-HasText environment "API_PREFIX") (λ x2 p2.
            ensures_bind
              (one_of-IsOneOf environment "LOG_LEVEL" ("debug" ∷ "info" ∷ "warn" ∷ "error" ∷ []))
              (λ x3 p3. value _ (p0, p1, p2, p3)))))

  pub database-DatabaseBounds : Ensures DatabaseBounds (database environment)
  unfolding database
  database-DatabaseBounds =
      ensures_bind (required_string-HasText environment "DATABASE_URL") (λ x0 p0. value _ p0)

  pub redis-RedisBounds : Ensures RedisBounds (redis environment)
  unfolding redis
  redis-RedisBounds = ensures_bind (required_string-HasText environment "REDIS_HOST") (λ x0 p0.
      ensures_bind (integer-IsWithin environment "REDIS_PORT" 1 (some 65535))
        (λ x1 p1. value _ (p0, p1)))

  pub storage-StorageBounds : Ensures StorageBounds (storage environment)
  unfolding storage
  storage-StorageBounds =
      ensures_bind (required_string-HasText environment "MINIO_ENDPOINT") (λ x0 p0.
        ensures_bind (integer-IsWithin environment "MINIO_PORT" 1 (some 65535)) (λ x1 p1.
          ensures_bind (anything (boolean environment "MINIO_USE_SSL")) (λ x2 p2.
            ensures_bind (required_string-HasText environment "MINIO_ACCESS_KEY") (λ x3 p3.
              ensures_bind (required_string-HasText environment "MINIO_SECRET_KEY") (λ x4 p4.
                ensures_bind (required_string-HasText environment "MINIO_ORIGINALS_BUCKET")
                  (λ x5 p5.
                    ensures_bind (required_string-HasText environment "MINIO_PROCESSED_BUCKET")
                      (λ x6 p6.
                        ensures_bind (required_string-HasText environment "MINIO_TEMP_BUCKET")
                          (λ x7 p7.
                            ensures_bind
                              (integer-IsWithin environment "MINIO_PRESIGNED_URL_TTL_SECONDS" 1
                                (none))
                              (λ x8 p8. value _ (p0, p1, p2, p3, p4, p5, p6, p7, p8))))))))))

  pub upload-UploadBounds : Ensures UploadBounds (upload environment)
  unfolding upload
  upload-UploadBounds =
      ensures_bind (required_string-HasText environment "UPLOAD_TEMP_ROOT") (λ x0 p0.
        ensures_bind (integer-IsWithin environment "UPLOAD_TEMP_MAX_AGE_MINUTES" 1 (none)) (λ x1 p1.
          ensures_bind (integer-IsWithin environment "MAX_FILES_PER_REQUEST" 1 (none)) (λ x2 p2.
            ensures_bind (integer-IsWithin environment "MAX_TOTAL_UPLOAD_SIZE_MB" 1 (none))
              (λ x3 p3.
                ensures_bind (integer-IsWithin environment "MAX_IMAGE_SIZE_MB" 1 (none)) (λ x4 p4.
                  ensures_bind (integer-IsWithin environment "MAX_AUDIO_SIZE_MB" 1 (none)) (λ x5 p5.
                    ensures_bind (integer-IsWithin environment "MAX_VIDEO_SIZE_MB" 1 (none))
                      (λ x6 p6.
                        ensures_bind (integer-IsWithin environment "MAX_IMAGE_PIXELS" 1 (none))
                          (λ x7 p7.
                            ensures_bind
                              (integer-IsWithin environment "MAX_AUDIO_DURATION_SECONDS" 1 (none))
                              (λ x8 p8.
                                ensures_bind
                                  (integer-IsWithin environment "MAX_VIDEO_DURATION_SECONDS" 1
                                    (none))
                                  (λ x9 p9.
                                    ensures_bind
                                      (integer-IsWithin environment "MAX_VIDEO_WIDTH" 1 (none))
                                      (λ x10 p10.
                                        ensures_bind
                                          (integer-IsWithin environment "MAX_VIDEO_HEIGHT" 1 (none))
                                          (λ x11 p11.
                                            ensures_bind
                                              (integer-IsWithin environment "MAX_MEDIA_STREAMS" 1
                                                (none))
                                              (λ x12 p12.
                                                ensures_bind
                                                  (integer-IsWithin environment
                                                    "MEDIA_PROBE_TIMEOUT_MS" 1 (none))
                                                  (λ x13 p13. value _ (
                                                    p0, p1, p2, p3, p4, p5, p6, p7, p8, p9, p10,
                                                    p11, p12, p13,
                                                  )))))))))))))))

  pub idempotency-IdempotencyBounds : Ensures IdempotencyBounds (idempotency environment)
  unfolding idempotency
  idempotency-IdempotencyBounds =
      ensures_bind (integer-IsWithin environment "IDEMPOTENCY_TTL_HOURS" 1 (none)) (λ x0 p0.
        ensures_bind (integer-IsWithin environment "IDEMPOTENCY_LEASE_SECONDS" 1 (none))
          (λ x1 p1. value _ (p0, p1)))

  pub outbox-OutboxBounds : Ensures OutboxBounds (outbox environment)
  unfolding outbox
  outbox-OutboxBounds =
      ensures_bind (integer-IsWithin environment "OUTBOX_POLL_INTERVAL_MS" 1 (none)) (λ x0 p0.
        ensures_bind (integer-IsWithin environment "OUTBOX_BATCH_SIZE" 1 (none)) (λ x1 p1.
          ensures_bind (integer-IsWithin environment "OUTBOX_PUBLISH_CONCURRENCY" 1 (none))
            (λ x2 p2.
              ensures_bind (integer-IsWithin environment "OUTBOX_LEASE_SECONDS" 1 (none)) (λ x3 p3.
                ensures_bind
                  (integer-IsWithin environment "OUTBOX_MAX_RETRY_DELAY_SECONDS" 1 (none))
                  (λ x4 p4.
                    ensures_bind
                      (integer-IsWithin environment "OUTBOX_PUBLISHED_RETENTION_DAYS" 1 (none))
                      (λ x5 p5. value _ (p0, p1, p2, p3, p4, p5)))))))

  pub worker-WorkerBounds : Ensures WorkerBounds (worker environment)
  unfolding worker
  worker-WorkerBounds =
      ensures_bind (integer-IsWithin environment "IMAGE_WORKER_CONCURRENCY" 1 (none)) (λ x0 p0.
        ensures_bind (integer-IsWithin environment "AUDIO_WORKER_CONCURRENCY" 1 (none)) (λ x1 p1.
          ensures_bind (integer-IsWithin environment "VIDEO_WORKER_CONCURRENCY" 1 (none)) (λ x2 p2.
            ensures_bind (integer-IsWithin environment "MEDIA_JOB_ATTEMPTS" 1 (none)) (λ x3 p3.
              ensures_bind (integer-IsWithin environment "MEDIA_JOB_BACKOFF_MS" 1 (none)) (λ x4 p4.
                ensures_bind (integer-IsWithin environment "PROCESSING_LEASE_SECONDS" 1 (none))
                  (λ x5 p5.
                    ensures_bind
                      (integer-IsWithin environment "PROCESSING_LEASE_RENEW_SECONDS" 1 (none))
                      (λ x6 p6.
                        ensures_bind (required_string-HasText environment "WORKER_TEMP_ROOT")
                          (λ x7 p7.
                            ensures_bind
                              (integer-IsWithin environment "WORKER_HEARTBEAT_INTERVAL_SECONDS" 1
                                (none))
                              (λ x8 p8.
                                ensures_bind
                                  (integer-IsWithin environment "WORKER_HEARTBEAT_STALE_SECONDS" 1
                                    (none))
                                  (λ x9 p9.
                                    value _ (p0, p1, p2, p3, p4, p5, p6, p7, p8, p9)))))))))))

  pub processing-ProcessingBounds : Ensures ProcessingBounds (processing environment)
  unfolding processing
  processing-ProcessingBounds =
      ensures_bind (one_of-IsOneOf environment "PROCESSING_PROFILE" ("balanced-v1" ∷ [])) (λ x0 p0.
        ensures_bind (integer-IsWithin environment "IMAGE_PROCESSING_TIMEOUT_MS" 1 (none)) (λ x1 p1.
          ensures_bind (integer-IsWithin environment "AUDIO_PROCESSING_TIMEOUT_MS" 1 (none))
            (λ x2 p2.
              ensures_bind (integer-IsWithin environment "VIDEO_PROCESSING_TIMEOUT_MS" 1 (none))
                (λ x3 p3.
                  ensures_bind (integer-IsWithin environment "IMAGE_WEBP_QUALITY" 1 (some 100))
                    (λ x4 p4.
                      ensures_bind (integer-IsWithin environment "IMAGE_MAX_WIDTH" 1 (none))
                        (λ x5 p5.
                          ensures_bind (integer-IsWithin environment "IMAGE_MAX_HEIGHT" 1 (none))
                            (λ x6 p6.
                              ensures_bind
                                (integer-IsWithin environment "IMAGE_THUMBNAIL_SIZE" 1 (none))
                                (λ x7 p7.
                                  ensures_bind
                                    (integer-IsWithin environment "AUDIO_MP3_BITRATE_KBPS" 1 (none))
                                    (λ x8 p8.
                                      ensures_bind
                                        (integer-IsWithin environment "AUDIO_MAX_SAMPLE_RATE" 1
                                          (none))
                                        (λ x9 p9.
                                          ensures_bind
                                            (integer-IsWithin environment "VIDEO_MAX_FPS" 1 (none))
                                            (λ x10 p10.
                                              ensures_bind
                                                (integer-IsWithin environment "VIDEO_H264_CRF" 0
                                                  (some 51))
                                                (λ x11 p11.
                                                  ensures_bind
                                                    (one_of-IsOneOf environment "VIDEO_H264_PRESET"
                                                      ("veryfast" ∷ []))
                                                    (λ x12 p12.
                                                      ensures_bind
                                                        (integer-IsWithin environment
                                                          "VIDEO_AUDIO_BITRATE_KBPS" 1 (none))
                                                        (λ x13 p13. value _ (
                                                          p0, p1, p2, p3, p4, p5, p6, p7, p8, p9,
                                                          p10, p11, p12, p13,
                                                        )))))))))))))))
