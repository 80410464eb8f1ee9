-- ===== src/Schema.antt =====
-- The rows of prisma/schema.prisma that the worker and the media services write, each under its
-- unique key. A row does not hold its key; `createdAt` and `updatedAt` are left out where no code
-- reads them.
pub mod Keys
use posts_media.Common.{ℕ, String, Text, Option, ◌≡◌}
use posts_media.Database.Table.{Table}
use posts_media.Domain.Enums.{MediaType, ProcessingStatus, ProcessingStep, DispatchReason}
use posts_media.Domain.Json.{Json}
use Keys.{VariantKey, AttemptKey, variant_key_eq, attempt_key_eq, string_eq}

pub record Media : Type 0 where
  pub post_id : String
  pub sort_order : ℕ
  pub media_type : MediaType
  pub original_filename : String
  pub original_extension : String
  pub declared_mime_type : String
  pub detected_mime_type : String
  pub detected_format : String
  pub original_bucket : String
  pub original_object_key : String
  pub original_size : ℕ
  pub checksum_sha256 : String
  pub processing_profile : String
  pub processing_generation : ℕ
  pub processing_status : ProcessingStatus
  pub progress : ℕ
  pub current_step : ProcessingStep
  pub processing_started_at : Option ℕ
  pub processing_completed_at : Option ℕ
  pub processing_lease_token : Option String
  pub processing_lease_expires_at : Option ℕ
  pub active_job_id : Option String
  pub last_error_code : Option Text
  pub last_error_message : Option Text
  pub metadata : Option Json

pub record MediaVariant : Type 0 where
  pub bucket : String
  pub object_key : String
  pub mime_type : String
  pub format : String
  pub size : ℕ
  pub checksum_sha256 : String
  pub width : Option ℕ
  pub height : Option ℕ
  pub bitrate_kbps : Option ℕ
  pub resolution_label : Option String

pub data AttemptStatus : Type 0 where
  running completed failed : AttemptStatus

pub record ProcessingAttempt : Type 0 where
  pub id : String
  pub job_id : String
  pub processing_profile : String
  pub status : AttemptStatus
  pub worker_instance_id : Option String
  pub error_code : Option Text
  pub error_message : Option Text
  pub completed_at : Option ℕ

pub data DispatchStatus : Type 0 where
  pending publishing published retry_wait dead : DispatchStatus

pub record ProcessingDispatch : Type 0 where
  pub media_id : String
  pub generation : ℕ
  pub reason : DispatchReason
  pub queue_name : String
  pub job_name : String
  pub job_id : String
  pub payload_version : ℕ
  pub payload : Json
  pub status : DispatchStatus
  pub publish_attempts : ℕ
  pub next_attempt_at : Option ℕ
  pub lease_token : Option String
  pub lease_expires_at : Option ℕ
  pub last_error_code : Option Text
  pub last_error_message : Option Text
  pub published_at : Option ℕ
  pub created_at : ℕ

-- the tables of the worker, and a state of them
pub record Tables : Type 1 where
  pub media : Table String Media
  pub variants : Table VariantKey MediaVariant
  pub attempts : Table AttemptKey ProcessingAttempt
  pub dispatches : Table String ProcessingDispatch

pub record Db (X : Tables) : Type 0 where
  pub media : X.media.State
  pub variants : X.variants.State
  pub attempts : X.attempts.State
  pub dispatches : X.dispatches.State

-- two states of which every read of a media row gives the same, and the other tables are the same
pub record SameRows (X : Tables) (a b : Db X) : Type 0 where
  pub media : (k : String) → X.media.find k a.media ≡ X.media.find k b.media
  pub variants : a.variants ≡ b.variants
  pub attempts : a.attempts ≡ b.attempts
  pub dispatches : a.dispatches ≡ b.dispatches
