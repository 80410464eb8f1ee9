-- ===== src/Configuration/Bounds.antt =====
-- What a section of the configuration promises.
use posts_media.Common.{none, some, [], ◌∷◌}
use posts_media.Configuration.Readers.Bounds.{HasText, IsWithin, IsPort, IsOneOf}
use posts_media.Configuration.Sections.{
  App, Database, Redis, Storage, Upload, Idempotency, Outbox, Worker, Processing,
}

abbrev pub AppBounds : App → Type 0
AppBounds c =
    (IsOneOf ("development" ∷ "test" ∷ "production" ∷ []) c.node_environment)
    × (IsPort c.port)
    × (HasText c.api_prefix)
    × (IsOneOf ("debug" ∷ "info" ∷ "warn" ∷ "error" ∷ []) c.log_level)

abbrev pub DatabaseBounds : Database → Type 0
DatabaseBounds c = (HasText c.url)

abbrev pub RedisBounds : Redis → Type 0
RedisBounds c = (HasText c.host) × (IsPort c.port)

abbrev pub StorageBounds : Storage → Type 0
StorageBounds c =
    (HasText c.endpoint)
    × (IsPort c.port)
    × (Unit)
    × (HasText c.access_key)
    × (HasText c.secret_key)
    × (HasText c.originals_bucket)
    × (HasText c.processed_bucket)
    × (HasText c.temporary_bucket)
    × (IsWithin 1 (none) c.presigned_url_ttl_seconds)

abbrev pub UploadBounds : Upload → Type 0
UploadBounds c =
    (HasText c.temporary_root)
    × (IsWithin 1 (none) c.temporary_max_age_minutes)
    × (IsWithin 1 (none) c.max_files_per_request)
    × (IsWithin 1 (none) c.max_total_upload_size_mb)
    × (IsWithin 1 (none) c.max_image_size_mb)
    × (IsWithin 1 (none) c.max_audio_size_mb)
    × (IsWithin 1 (none) c.max_video_size_mb)
    × (IsWithin 1 (none) c.max_image_pixels)
    × (IsWithin 1 (none) c.max_audio_duration_seconds)
    × (IsWithin 1 (none) c.max_video_duration_seconds)
    × (IsWithin 1 (none) c.max_video_width)
    × (IsWithin 1 (none) c.max_video_height)
    × (IsWithin 1 (none) c.max_media_streams)
    × (IsWithin 1 (none) c.media_probe_timeout_ms)

abbrev pub IdempotencyBounds : Idempotency → Type 0
IdempotencyBounds c = (IsWithin 1 (none) c.ttl_hours) × (IsWithin 1 (none) c.lease_seconds)

abbrev pub OutboxBounds : Outbox → Type 0
OutboxBounds c =
    (IsWithin 1 (none) c.poll_interval_ms)
    × (IsWithin 1 (none) c.batch_size)
    × (IsWithin 1 (none) c.publish_concurrency)
    × (IsWithin 1 (none) c.lease_seconds)
    × (IsWithin 1 (none) c.max_retry_delay_seconds)
    × (IsWithin 1 (none) c.published_retention_days)

abbrev pub WorkerBounds : Worker → Type 0
WorkerBounds c =
    (IsWithin 1 (none) c.image_concurrency)
    × (IsWithin 1 (none) c.audio_concurrency)
    × (IsWithin 1 (none) c.video_concurrency)
    × (IsWithin 1 (none) c.media_job_attempts)
    × (IsWithin 1 (none) c.media_job_backoff_ms)
    × (IsWithin 1 (none) c.processing_lease_seconds)
    × (IsWithin 1 (none) c.processing_lease_renew_seconds)
    × (HasText c.temporary_root)
    × (IsWithin 1 (none) c.heartbeat_interval_seconds)
    × (IsWithin 1 (none) c.heartbeat_stale_seconds)

abbrev pub ProcessingBounds : Processing → Type 0
ProcessingBounds c =
    (IsOneOf ("balanced-v1" ∷ []) c.profile)
    × (IsWithin 1 (none) c.image_timeout_ms)
    × (IsWithin 1 (none) c.audio_timeout_ms)
    × (IsWithin 1 (none) c.video_timeout_ms)
    × (IsWithin 1 (some 100) c.image_webp_quality)
    × (IsWithin 1 (none) c.image_max_width)
    × (IsWithin 1 (none) c.image_max_height)
    × (IsWithin 1 (none) c.image_thumbnail_size)
    × (IsWithin 1 (none) c.audio_mp3_bitrate_kbps)
    × (IsWithin 1 (none) c.audio_max_sample_rate)
    × (IsWithin 1 (none) c.video_max_fps)
    × (IsWithin 0 (some 51) c.video_h264_crf)
    × (IsOneOf ("veryfast" ∷ []) c.video_h264_preset)
    × (IsWithin 1 (none) c.video_audio_bitrate_kbps)
