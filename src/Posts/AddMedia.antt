-- ===== src/Posts/AddMedia.antt =====
-- libs/posts/src/application/add-post-media.service.ts
pub mod Added
pub mod Answered
pub mod Atomic
use posts_media.Common.{
  ℕ, suc, String, Option, none, some, List, [], ◌∷◌, length, is_some, ◌==◌, string_eq,
  if◌then◌else◌,
}
use posts_media.Domain.Errors.{DomainError, ErrorCode}
use posts_media.Domain.Json.{Json, num, str, arr, obj, end, field, items}
use posts_media.Domain.Result.{Result, ok, err, Reply, replied, rejected, crashed}
use posts_media.Database.Table.{Table}
use posts_media.Storage.{ObjectRef, ObjectStorage}
use posts_media.Schema.{Tables}
use posts_media.Idempotency.{
  Context, Outcome, IdempotencyRequest, IdempotencyOperation, AcquireResult,
}
use posts_media.Idempotency.Key.{validate_idempotency_key}
use posts_media.Idempotency.Fingerprint.{
  FingerprintFile, build_fingerprint_files, compute_idempotency_fingerprint,
}
use posts_media.Idempotency.Service.{acquire_or_replay, finalize}
use posts_media.Media.Presenter.{MediaResponseDto, present_media, media_json}
use posts_media.Validation.{validate_files}
use posts_media.Validation.Uploads.{
  ValidatedUpload, File, FileValidationError, FileValidationOutcome,
}
use posts_media.Posts.{Post, post_not_found}
use posts_media.Posts.Presenter.{MediaRow}
use posts_media.Posts.Promotion.{
  Item, items_of, validated_uploads, errors_of, error_json, promoted_from, insert_all,
}
use posts_media.Posts.Requests.{Site, Service, Course, finalize_rejection, concluded, handle}

pub record AddPostMediaCommand : Type 0 where
  pub post_id : String
  pub idempotency_key : Option String
  pub files : List File
  pub request_id : String

pub record AddPostMediaResponseDto : Type 0 where
  pub post_id : String
  pub submitted : ℕ
  pub accepted_count : ℕ
  pub rejected_count : ℕ
  pub accepted : List MediaResponseDto
  pub rejected : List FileValidationError

abbrev pub post_is_deleted : DomainError
post_is_deleted = record {
  code = ErrorCode.post_soft_deleted;
  message = "Media cannot be added to a deleted post.";
  http_status = 409;
  details = none;
}

abbrev no_files_accepted_error : List FileValidationError → ℕ → DomainError
no_files_accepted_error errors submitted = record {
  code = ErrorCode.post_media_validation_failed;
  message = "No files were accepted; every submitted file is invalid.";
  http_status = 422;
  details = some (
      obj
        (field "submitted" (num submitted) (field "rejected" (arr (items error_json errors)) end)));
}

abbrev pub add_post_media_context : String → Context
add_post_media_context key = record {
  key = key;
  operation = IdempotencyOperation.add_post_media;
  method = "POST";
  route_template = "/api/posts/:postId/media";
}

-- presentMedia({ ...created, variants: [] })
abbrev pub present_created : MediaRow → MediaResponseDto
present_created m = present_media m.id m.row []

abbrev present_all : List MediaRow → List MediaResponseDto
present_all [] = []
present_all (m ∷ ms) = present_created m ∷ present_all ms

-- `(aggregate._max.sortOrder ?? -1) + 1`
abbrev pub starting_sort_order : Option ℕ → ℕ
starting_sort_order none = 0
starting_sort_order (some n) = suc n

module _ (X : Tables) (P : Table String Post) (I : Table String IdempotencyRequest)
    (O : ObjectStorage) (service : Service) (string_of : List ℕ → String) (c : Course X P I O)
    (command : AddPostMediaCommand) where
  unfoldable pub response_dto : List FileValidationError → List MediaRow → AddPostMediaResponseDto
  response_dto errors media = record {
    post_id = command.post_id;
    submitted = length command.files;
    accepted_count = length media;
    rejected_count = length errors;
    accepted = present_all media;
    rejected = errors;
  }

  abbrev pub response_json : AddPostMediaResponseDto → Json
  response_json d = obj (
      field "postId" (str d.post_id) (
        field "summary"
          (obj (
            field "submitted" (num d.submitted) (
              field "accepted" (num d.accepted_count)
                (field "rejected" (num d.rejected_count) end))))
          (field "accepted" (arr (items (media_json string_of) d.accepted))
            (field "rejected" (arr (items error_json d.rejected)) end))))

  abbrev pub added_outcome : Json → Outcome
  added_outcome body = record {
    response_status = 201;
    response_body = body;
    target_resource_id = some command.post_id;
    resource_ids = none;
  }

  -- The transaction. The row of the post is locked by its first statement, so that no other request
  -- adds media to the post until it ends. `none` is that it throws.
  unfoldable pub add_tx :
      String
      → List FileValidationError
      → List Item
      → List ObjectRef
      → Site X P I O
      → Option (Site X P I O × AddPostMediaResponseDto)
  add_tx key errors is promoted s =
      let start =
        starting_sort_order
          (X.media.maximum (λ id m. m.post_id == command.post_id) (λ m. m.sort_order) s.db.media) in
      elim (insert_all X command.post_id c.now start is promoted s.db) [
        | none ↦ none
        | some (db, media) ↦
            let dto = response_dto errors media in
            let committed = record s {
              db = db;
              requests =
                  finalize I service.idempotency key (added_outcome (response_json dto)) c.done
                    s.requests;
            } in
            if c.commits then some (committed, dto) else none
      ]

  -- the value of the transaction, as it is sent
  abbrev pub sent : Option (Site X P I O × AddPostMediaResponseDto) → Option (Site X P I O × Json)
  sent none = none
  sent (some (committed, dto)) = some (committed, response_json dto)

  -- once the files are validated
  abbrev pub judged :
      String
      → List ValidatedUpload
      → List FileValidationError
      → Site X P I O
      → Site X P I O × Reply Json
  judged key [] errors s =
      finalize_rejection X P I O service c key
        (no_files_accepted_error errors (length command.files)) s
  judged key (v ∷ vs) errors s =
      let is = items_of c.media_ids c.dispatch_ids 0 (v ∷ vs) in
      concluded X P I O service c (λ promoted t. sent (add_tx key errors is promoted t)) key
        (promoted_from O service.buckets command.request_id command.post_id is s.objects) s

  unfoldable pub added_with :
      String → List FileValidationOutcome → Site X P I O → Site X P I O × Reply Json
  added_with key outcomes s = judged key (validated_uploads outcomes) (errors_of outcomes) s

  -- the post, as it was read
  abbrev pub admitted : String → Option Post → Site X P I O → Site X P I O × Reply Json
  admitted key none s = finalize_rejection X P I O service c key post_not_found s
  admitted key (some post) s =
      if is_some post.deleted_at
      then finalize_rejection X P I O service c key post_is_deleted s
      else added_with key (validate_files service.limits service.tools command.files) s

  abbrev pub fingerprint_of : List FingerprintFile → String
  fingerprint_of files = compute_idempotency_fingerprint service.digest (record {
    operation = IdempotencyOperation.add_post_media;
    route_params = field "postId" (str command.post_id) end;
    body = end;
    files = files;
  })

  unfoldable pub add_media : Site X P I O → Option (Site X P I O × Reply Json)
  add_media s =
      handle X P I O service c add_post_media_context fingerprint_of command.files
        (λ key t. admitted key (P.find command.post_id t.posts) t) command.idempotency_key s
