-- ===== src/Examples/World.antt =====
-- A database of association lists with one image, before and after a claim, and the settings of
-- one worker.
use posts_media.Common.{none, some, [], ◌∷◌, codes, string_eq}
use posts_media.Domain.Enums.{
  MediaType, MediaVariantType, ProcessingStatus, ProcessingStep, DispatchReason,
}
use posts_media.Domain.Json.{null}
use posts_media.Domain.Result.{returned}
use posts_media.Database.Rows.{rows_table}
use posts_media.Storage.{ObjectRef, Buckets}
use posts_media.Schema.{Media, Tables, Db}
use posts_media.Schema.Keys.{variant_key_eq, attempt_key_eq}
use posts_media.Queues.Payload.{MediaJobPayload}
use posts_media.Media.{CreateMediaWithDispatchInput, created_media}
use posts_media.Processing.Publication.{ProcessedArtifact, Files}
use posts_media.Processing.Orchestrator.{Worker}

abbrev pub tables : Tables
tables = record {
  media = rows_table;
  variants = rows_table;
  attempts = rows_table;
  dispatches = rows_table;
}

abbrev pub photo_input : CreateMediaWithDispatchInput
photo_input = record {
  id = "m1";
  post_id = "p1";
  sort_order = 0;
  media_type = MediaType.image;
  original_filename = "photo.png";
  original_extension = "png";
  declared_mime_type = "image/png";
  detected_mime_type = "image/png";
  detected_format = "png";
  original_bucket = "originals";
  original_object_key = "p1/m1.png";
  original_size = 2048;
  checksum_sha256 = "abc";
  metadata = null;
  dispatch_id = "d1";
}

abbrev pub photo : Media
photo = created_media photo_input

abbrev pub leased_photo : Media
leased_photo = record photo {
  processing_status = ProcessingStatus.processing;
  current_step = ProcessingStep.claiming;
  processing_lease_token = some "t1";
  processing_lease_expires_at = some 61000;
  active_job_id = some "job";
  processing_started_at = some 1000;
}

abbrev pub failed_photo : Media
failed_photo = record photo {
  processing_status = ProcessingStatus.failed;
  current_step = ProcessingStep.failed;
  progress = 100;
  last_error_code = some (codes "PROCESSING_FAILED");
  last_error_message = some (codes "Media processing failed.");
}

abbrev pub db_with : Media → Db tables
db_with m = record { media = ("m1", m) ∷ []; variants = []; attempts = []; dispatches = [] }

abbrev pub db_empty : Db tables
db_empty = record { media = []; variants = []; attempts = []; dispatches = [] }

abbrev pub buckets : Buckets
buckets = record { originals = "originals"; processed = "processed"; temporary = "temporary" }

abbrev pub original : ObjectRef
original = record { bucket = "originals"; object_key = "p1/m1.png" }

abbrev pub files : Files
files = record { size = λ path. some 2048; digest = λ path. some "abc" }

abbrev pub no_files : Files
no_files = record { size = λ path. none; digest = λ path. none }

abbrev pub thumbnail : ProcessedArtifact
thumbnail = record {
  path = "/work/thumbnail.webp";
  filename = "thumbnail.webp";
  variant_type = MediaVariantType.image_thumbnail;
  mime_type = "image/webp";
  format = "webp";
  width = some 400;
  height = some 400;
  bitrate_kbps = none;
  resolution_label = none;
}

abbrev pub job_payload : MediaJobPayload
job_payload = record {
  dispatch_id = "d1";
  media_id = "m1";
  post_id = "p1";
  media_type = MediaType.image;
  generation = 1;
  processing_profile = "balanced-v1";
  reason = DispatchReason.initial_upload;
}

abbrev pub worker_with : Files → Worker
worker_with local = record {
  processing_lease_seconds = 60;
  media_job_attempts = 3;
  worker_instance_id = "w1";
  lease_token = "t1";
  attempt_id = "a1";
  claimed_at = 1000;
  ended_at = 9000;
  create_workspace = λ media_id generation attempt_id. returned "/work";
  original_path = λ directory. "/work/original";
  files = local;
}
