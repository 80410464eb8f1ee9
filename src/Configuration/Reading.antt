-- ===== src/Configuration/Reading.antt =====
-- The sections of libs/configuration/src/environment.schema.ts, each read from the environment in the
-- order of its fields.
use posts_media.Common.{none, some, [], ◌∷◌}
use posts_media.Configuration.Readers.{
  Environment, Parsed, parsed, ◌>>=◌, required_string, integer, port, boolean, one_of,
}
use posts_media.Configuration.Sections.{
  App, Database, Redis, Storage, Upload, Idempotency, Outbox, Worker, Processing,
}

module _ (environment : Environment) where
  unfoldable pub app : Parsed App
  app =
      one_of environment "NODE_ENV" ("development" ∷ "test" ∷ "production" ∷ [])
      >>= λ node_environment. port environment "PORT" >>= λ port.
          required_string environment "API_PREFIX" >>= λ api_prefix.
          one_of environment "LOG_LEVEL" ("debug" ∷ "info" ∷ "warn" ∷ "error" ∷ []) >>= λ log_level.
          parsed (record {
            node_environment = node_environment;
            port = port;
            api_prefix = api_prefix;
            log_level = log_level;
          })

  unfoldable pub database : Parsed Database
  database = required_string environment "DATABASE_URL" >>= λ url. parsed (record { url = url })

  unfoldable pub redis : Parsed Redis
  redis = required_string environment "REDIS_HOST" >>= λ host.
      port environment "REDIS_PORT" >>= λ port. parsed (record { host = host; port = port })

  unfoldable pub storage : Parsed Storage
  storage = required_string environment "MINIO_ENDPOINT" >>= λ endpoint.
      port environment "MINIO_PORT" >>= λ port. boolean environment "MINIO_USE_SSL" >>= λ use_ssl.
      required_string environment "MINIO_ACCESS_KEY" >>= λ access_key.
      required_string environment "MINIO_SECRET_KEY" >>= λ secret_key.
      required_string environment "MINIO_ORIGINALS_BUCKET" >>= λ originals_bucket.
      required_string environment "MINIO_PROCESSED_BUCKET" >>= λ processed_bucket.
      required_string environment "MINIO_TEMP_BUCKET" >>= λ temporary_bucket.
      integer environment "MINIO_PRESIGNED_URL_TTL_SECONDS" 1 (none)
      >>= λ presigned_url_ttl_seconds. parsed (record {
        endpoint = endpoint;
        port = port;
        use_ssl = use_ssl;
        access_key = access_key;
        secret_key = secret_key;
        originals_bucket = originals_bucket;
        processed_bucket = processed_bucket;
        temporary_bucket = temporary_bucket;
        presigned_url_ttl_seconds = presigned_url_ttl_seconds;
      })

  unfoldable pub upload : Parsed Upload
  upload = required_string environment "UPLOAD_TEMP_ROOT" >>= λ temporary_root.
      integer environment "UPLOAD_TEMP_MAX_AGE_MINUTES" 1 (none) >>= λ temporary_max_age_minutes.
      integer environment "MAX_FILES_PER_REQUEST" 1 (none) >>= λ max_files_per_request.
      integer environment "MAX_TOTAL_UPLOAD_SIZE_MB" 1 (none) >>= λ max_total_upload_size_mb.
      integer environment "MAX_IMAGE_SIZE_MB" 1 (none) >>= λ max_image_size_mb.
      integer environment "MAX_AUDIO_SIZE_MB" 1 (none) >>= λ max_audio_size_mb.
      integer environment "MAX_VIDEO_SIZE_MB" 1 (none) >>= λ max_video_size_mb.
      integer environment "MAX_IMAGE_PIXELS" 1 (none) >>= λ max_image_pixels.
      integer environment "MAX_AUDIO_DURATION_SECONDS" 1 (none) >>= λ max_audio_duration_seconds.
      integer environment "MAX_VIDEO_DURATION_SECONDS" 1 (none) >>= λ max_video_duration_seconds.
      integer environment "MAX_VIDEO_WIDTH" 1 (none) >>= λ max_video_width.
      integer environment "MAX_VIDEO_HEIGHT" 1 (none) >>= λ max_video_height.
      integer environment "MAX_MEDIA_STREAMS" 1 (none) >>= λ max_media_streams.
      integer environment "MEDIA_PROBE_TIMEOUT_MS" 1 (none) >>= λ media_probe_timeout_ms.
      parsed (record {
        temporary_root = temporary_root;
        temporary_max_age_minutes = temporary_max_age_minutes;
        max_files_per_request = max_files_per_request;
        max_total_upload_size_mb = max_total_upload_size_mb;
        max_image_size_mb = max_image_size_mb;
        max_audio_size_mb = max_audio_size_mb;
        max_video_size_mb = max_video_size_mb;
        max_image_pixels = max_image_pixels;
        max_audio_duration_seconds = max_audio_duration_seconds;
        max_video_duration_seconds = max_video_duration_seconds;
        max_video_width = max_video_width;
        max_video_height = max_video_height;
        max_media_streams = max_media_streams;
        media_probe_timeout_ms = media_probe_timeout_ms;
      })

  unfoldable pub idempotency : Parsed Idempotency
  idempotency = integer environment "IDEMPOTENCY_TTL_HOURS" 1 (none) >>= λ ttl_hours.
      integer environment "IDEMPOTENCY_LEASE_SECONDS" 1 (none) >>= λ lease_seconds.
      parsed (record { ttl_hours = ttl_hours; lease_seconds = lease_seconds })

  unfoldable pub outbox : Parsed Outbox
  outbox = integer environment "OUTBOX_POLL_INTERVAL_MS" 1 (none) >>= λ poll_interval_ms.
      integer environment "OUTBOX_BATCH_SIZE" 1 (none) >>= λ batch_size.
      integer environment "OUTBOX_PUBLISH_CONCURRENCY" 1 (none) >>= λ publish_concurrency.
      integer environment "OUTBOX_LEASE_SECONDS" 1 (none) >>= λ lease_seconds.
      integer environment "OUTBOX_MAX_RETRY_DELAY_SECONDS" 1 (none) >>= λ max_retry_delay_seconds.
      integer environment "OUTBOX_PUBLISHED_RETENTION_DAYS" 1 (none) >>= λ published_retention_days.
      parsed (record {
        poll_interval_ms = poll_interval_ms;
        batch_size = batch_size;
        publish_concurrency = publish_concurrency;
        lease_seconds = lease_seconds;
        max_retry_delay_seconds = max_retry_delay_seconds;
        published_retention_days = published_retention_days;
      })

  unfoldable pub worker : Parsed Worker
  worker = integer environment "IMAGE_WORKER_CONCURRENCY" 1 (none) >>= λ image_concurrency.
      integer environment "AUDIO_WORKER_CONCURRENCY" 1 (none) >>= λ audio_concurrency.
      integer environment "VIDEO_WORKER_CONCURRENCY" 1 (none) >>= λ video_concurrency.
      integer environment "MEDIA_JOB_ATTEMPTS" 1 (none) >>= λ media_job_attempts.
      integer environment "MEDIA_JOB_BACKOFF_MS" 1 (none) >>= λ media_job_backoff_ms.
      integer environment "PROCESSING_LEASE_SECONDS" 1 (none) >>= λ processing_lease_seconds.
      integer environment "PROCESSING_LEASE_RENEW_SECONDS" 1 (none)
      >>= λ processing_lease_renew_seconds.
          required_string environment "WORKER_TEMP_ROOT" >>= λ temporary_root.
          integer environment "WORKER_HEARTBEAT_INTERVAL_SECONDS" 1 (none)
          >>= λ heartbeat_interval_seconds.
              integer environment "WORKER_HEARTBEAT_STALE_SECONDS" 1 (none)
              >>= λ heartbeat_stale_seconds. parsed (record {
                image_concurrency = image_concurrency;
                audio_concurrency = audio_concurrency;
                video_concurrency = video_concurrency;
                media_job_attempts = media_job_attempts;
                media_job_backoff_ms = media_job_backoff_ms;
                processing_lease_seconds = processing_lease_seconds;
                processing_lease_renew_seconds = processing_lease_renew_seconds;
                temporary_root = temporary_root;
                heartbeat_interval_seconds = heartbeat_interval_seconds;
                heartbeat_stale_seconds = heartbeat_stale_seconds;
              })

  unfoldable pub processing : Parsed Processing
  processing = one_of environment "PROCESSING_PROFILE" ("balanced-v1" ∷ []) >>= λ profile.
      integer environment "IMAGE_PROCESSING_TIMEOUT_MS" 1 (none) >>= λ image_timeout_ms.
      integer environment "AUDIO_PROCESSING_TIMEOUT_MS" 1 (none) >>= λ audio_timeout_ms.
      integer environment "VIDEO_PROCESSING_TIMEOUT_MS" 1 (none) >>= λ video_timeout_ms.
      integer environment "IMAGE_WEBP_QUALITY" 1 (some 100) >>= λ image_webp_quality.
      integer environment "IMAGE_MAX_WIDTH" 1 (none) >>= λ image_max_width.
      integer environment "IMAGE_MAX_HEIGHT" 1 (none) >>= λ image_max_height.
      integer environment "IMAGE_THUMBNAIL_SIZE" 1 (none) >>= λ image_thumbnail_size.
      integer environment "AUDIO_MP3_BITRATE_KBPS" 1 (none) >>= λ audio_mp3_bitrate_kbps.
      integer environment "AUDIO_MAX_SAMPLE_RATE" 1 (none) >>= λ audio_max_sample_rate.
      integer environment "VIDEO_MAX_FPS" 1 (none) >>= λ video_max_fps.
      integer environment "VIDEO_H264_CRF" 0 (some 51) >>= λ video_h264_crf.
      one_of environment "VIDEO_H264_PRESET" ("veryfast" ∷ []) >>= λ video_h264_preset.
      integer environment "VIDEO_AUDIO_BITRATE_KBPS" 1 (none) >>= λ video_audio_bitrate_kbps.
      parsed (record {
        profile = profile;
        image_timeout_ms = image_timeout_ms;
        audio_timeout_ms = audio_timeout_ms;
        video_timeout_ms = video_timeout_ms;
        image_webp_quality = image_webp_quality;
        image_max_width = image_max_width;
        image_max_height = image_max_height;
        image_thumbnail_size = image_thumbnail_size;
        audio_mp3_bitrate_kbps = audio_mp3_bitrate_kbps;
        audio_max_sample_rate = audio_max_sample_rate;
        video_max_fps = video_max_fps;
        video_h264_crf = video_h264_crf;
        video_h264_preset = video_h264_preset;
        video_audio_bitrate_kbps = video_audio_bitrate_kbps;
      })
