-- ===== src/Configuration/Sections.antt =====
-- The sections of libs/configuration/src/environment.schema.ts.
use posts_media.Common.{ℕ, String, Text, Bool}

pub record App : Type 0 where
  pub node_environment : String
  pub port : ℕ
  pub api_prefix : Text
  pub log_level : String

pub record Database : Type 0 where
  pub url : Text

pub record Redis : Type 0 where
  pub host : Text
  pub port : ℕ

pub record Storage : Type 0 where
  pub endpoint : Text
  pub port : ℕ
  pub use_ssl : Bool
  pub access_key : Text
  pub secret_key : Text
  pub originals_bucket : Text
  pub processed_bucket : Text
  pub temporary_bucket : Text
  pub presigned_url_ttl_seconds : ℕ

pub record Upload : Type 0 where
  pub temporary_root : Text
  pub temporary_max_age_minutes : ℕ
  pub max_files_per_request : ℕ
  pub max_total_upload_size_mb : ℕ
  pub max_image_size_mb : ℕ
  pub max_audio_size_mb : ℕ
  pub max_video_size_mb : ℕ
  pub max_image_pixels : ℕ
  pub max_audio_duration_seconds : ℕ
  pub max_video_duration_seconds : ℕ
  pub max_video_width : ℕ
  pub max_video_height : ℕ
  pub max_media_streams : ℕ
  pub media_probe_timeout_ms : ℕ

pub record Idempotency : Type 0 where
  pub ttl_hours : ℕ
  pub lease_seconds : ℕ

pub record Outbox : Type 0 where
  pub poll_interval_ms : ℕ
  pub batch_size : ℕ
  pub publish_concurrency : ℕ
  pub lease_seconds : ℕ
  pub max_retry_delay_seconds : ℕ
  pub published_retention_days : ℕ

pub record Worker : Type 0 where
  pub image_concurrency : ℕ
  pub audio_concurrency : ℕ
  pub video_concurrency : ℕ
  pub media_job_attempts : ℕ
  pub media_job_backoff_ms : ℕ
  pub processing_lease_seconds : ℕ
  pub processing_lease_renew_seconds : ℕ
  pub temporary_root : Text
  pub heartbeat_interval_seconds : ℕ
  pub heartbeat_stale_seconds : ℕ

pub record Processing : Type 0 where
  pub profile : String
  pub image_timeout_ms : ℕ
  pub audio_timeout_ms : ℕ
  pub video_timeout_ms : ℕ
  pub image_webp_quality : ℕ
  pub image_max_width : ℕ
  pub image_max_height : ℕ
  pub image_thumbnail_size : ℕ
  pub audio_mp3_bitrate_kbps : ℕ
  pub audio_max_sample_rate : ℕ
  pub video_max_fps : ℕ
  pub video_h264_crf : ℕ
  pub video_h264_preset : String
  pub video_audio_bitrate_kbps : ℕ
