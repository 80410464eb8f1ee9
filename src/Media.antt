-- ===== src/Media.antt =====
-- libs/media/src/repositories/media.repository.ts (createWithDispatch) and the transaction of the
-- manual retry in libs/media/src/application/media.service.ts
pub mod Writes
pub mod Presenter
pub mod Shown
use posts_media.Common.{
  ℕ, ◌+◌, String, Bool, true, false, ◌&&◌, ◌||◌, Option, none, some, ◌==◌, nat_eq, string_eq,
  if◌then◌else◌,
}
use posts_media.Domain.Enums.{
  MediaType, ProcessingStatus, ProcessingStep, DispatchReason, is_failed,
}
use posts_media.Domain.Errors.{DomainError, ErrorCode}
use posts_media.Domain.Json.{Json}
use posts_media.Database.Table.{Table, where_key, count_is_one}
use posts_media.Queues.{queue_name_for, job_name_for, media_job_id}
use posts_media.Queues.Payload.{MediaJobPayload, payload_json}
use posts_media.Schema.{Media, ProcessingDispatch, DispatchStatus, Tables, Db}
use posts_media.Processing.Row.{retry_where, retry_data}

pub record CreateMediaWithDispatchInput : Type 0 where
  pub id : String
  pub post_id : String
  pub sort_order : ℕ
  pub media_type : MediaType
  pub original_filename : String
  pub original_extension : String
  pub declared_mime_type : String
  pub detected_mime_type : String
  pub detected_format : String
  pub original_bucket : String
  pub original_object_key : String
  pub original_size : ℕ
  pub checksum_sha256 : String
  pub metadata : Json
  pub dispatch_id : String

-- the row, with the defaults of prisma/schema.prisma
abbrev pub created_media : CreateMediaWithDispatchInput → Media
created_media i = record {
  post_id = i.post_id;
  sort_order = i.sort_order;
  media_type = i.media_type;
  original_filename = i.original_filename;
  original_extension = i.original_extension;
  declared_mime_type = i.declared_mime_type;
  detected_mime_type = i.detected_mime_type;
  detected_format = i.detected_format;
  original_bucket = i.original_bucket;
  original_object_key = i.original_object_key;
  original_size = i.original_size;
  checksum_sha256 = i.checksum_sha256;
  processing_profile = "balanced-v1";
  processing_generation = 1;
  processing_status = ProcessingStatus.pending;
  progress = 0;
  current_step = ProcessingStep.pending;
  processing_started_at = none;
  processing_completed_at = none;
  processing_lease_token = none;
  processing_lease_expires_at = none;
  active_job_id = none;
  last_error_code = none;
  last_error_message = none;
  metadata = some i.metadata;
}

-- the dispatch of a payload, PENDING
abbrev pub dispatch_of : MediaJobPayload → ℕ → ProcessingDispatch
dispatch_of p now = record {
  media_id = p.media_id;
  generation = p.generation;
  reason = p.reason;
  queue_name = queue_name_for p.media_type;
  job_name = job_name_for p.media_type;
  job_id = media_job_id p.media_id p.generation;
  payload_version = 1;
  payload = payload_json p;
  status = DispatchStatus.pending;
  publish_attempts = 0;
  next_attempt_at = none;
  lease_token = none;
  lease_expires_at = none;
  last_error_code = none;
  last_error_message = none;
  published_at = none;
  created_at = now;
}

abbrev pub initial_payload : CreateMediaWithDispatchInput → MediaJobPayload
initial_payload i = record {
  dispatch_id = i.dispatch_id;
  media_id = i.id;
  post_id = i.post_id;
  media_type = i.media_type;
  generation = 1;
  processing_profile = "balanced-v1";
  reason = DispatchReason.initial_upload;
}

abbrev pub retry_payload : String → String → Media → MediaJobPayload
retry_payload dispatch_id id current = record {
  dispatch_id = dispatch_id;
  media_id = id;
  post_id = current.post_id;
  media_type = current.media_type;
  generation = current.processing_generation + 1;
  processing_profile = current.processing_profile;
  reason = DispatchReason.manual_retry;
}

abbrev pub media_not_found : DomainError
media_not_found = record {
  code = ErrorCode.media_not_found;
  message = "The requested media does not exist.";
  http_status = 404;
  details = none;
}

abbrev pub media_retry_not_allowed : DomainError
media_retry_not_allowed = record {
  code = ErrorCode.media_retry_not_allowed;
  message = "Only failed media can be retried.";
  http_status = 409;
  details = none;
}

-- what the transaction of a retry does: it commits, it throws, or the insert violates a unique
-- constraint
pub data Retried (X : Tables) : Type 0 where
  committed : (db : Db X) (updated : Option Media) → Retried X
  refused : (e : DomainError) → Retried X
  conflict : Retried X

module _ (X : Tables) where
  -- media.create, with @@unique([postId, sortOrder])
  unfoldable pub insert_media : String → Media → Db X → Option (Db X)
  insert_media id m db =
      let taken =
        X.media.exists (λ k r. r.post_id == m.post_id && r.sort_order == m.sort_order) db.media in
      let written : Option (Db X) = elim (X.media.create id m db.media) [
        | none ↦ none
        | some media ↦ some (record db { media = media })
      ] in
      if taken then none else written

  -- processingDispatch.create, with @@unique([mediaId, generation]) and jobId @unique
  unfoldable pub insert_dispatch : String → ProcessingDispatch → Db X → Option (Db X)
  insert_dispatch id d db =
      let taken =
        X.dispatches.exists
          (λ k r.
            (r.media_id == d.media_id && r.generation == d.generation) || r.job_id == d.job_id)
          db.dispatches in
      let written : Option (Db X) = elim (X.dispatches.create id d db.dispatches) [
        | none ↦ none
        | some dispatches ↦ some (record db { dispatches = dispatches })
      ] in
      if taken then none else written

  -- `none` is P2002; the client is a transaction, which then commits nothing
  unfoldable pub create_with_dispatch :
      CreateMediaWithDispatchInput → ℕ → Db X → Option (Db X × Media)
  create_with_dispatch input now db = elim (insert_media input.id (created_media input) db) [
    | none ↦ none
    | some db' ↦
        elim (insert_dispatch input.dispatch_id (dispatch_of (initial_payload input) now) db') [
          | none ↦ none
          | some db'' ↦ some (db'', created_media input)
        ]
  ]

  -- the transaction of `retry`; `current` is the row that the update re-checks
  unfoldable pub retry_claimed :
      (id dispatch_id : String) (current : Media) (now : ℕ) → Db X → Retried X
  retry_claimed id dispatch_id current now db =
      let generation = current.processing_generation + 1 in
      let (media, count) =
        X.media.update_many (where_key id (retry_where current.processing_generation))
          (retry_data generation) db.media in
      let inserted : Retried X =
        elim (insert_dispatch dispatch_id (dispatch_of (retry_payload dispatch_id id current) now)
          (record db { media = media })) [
            | none ↦ conflict
            | some db' ↦ committed db' (X.media.find id media)
          ] in
      if count_is_one count then inserted else refused media_retry_not_allowed

  unfoldable pub retry_tx : (id dispatch_id : String) (now : ℕ) → Db X → Retried X
  retry_tx id dispatch_id now db = elim (X.media.find id db.media) [
    | none ↦ refused media_not_found
    | some current ↦
        let claimed = retry_claimed id dispatch_id current now db in
        if is_failed current.processing_status then claimed else refused media_retry_not_allowed
  ]
