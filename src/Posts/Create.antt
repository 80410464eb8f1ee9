-- ===== src/Posts/Create.antt =====
-- libs/posts/src/application/create-post.service.ts
pub mod Atomic
pub mod Created
pub mod Once
pub mod Answered
use posts_media.Common.{
  ℕ, String, Bool, Option, none, some, List, [], ◌∷◌, length, leb, if◌then◌else◌, string_eq,
}
use posts_media.Domain.Errors.{DomainError, ErrorCode}
use posts_media.Domain.Json.{Json, num, str, arr, obj, end, field, items}
use posts_media.Domain.Result.{Result, ok, err, Reply, replied, rejected, crashed}
use posts_media.Database.Table.{Table}
use posts_media.Storage.{ObjectRef, ObjectStorage, Buckets}
use posts_media.Schema.{Tables, Db}
use posts_media.Idempotency.{
  Context, Outcome, IdempotencyRequest, IdempotencyOperation, AcquireResult,
}
use posts_media.Idempotency.Key.{validate_idempotency_key}
use posts_media.Idempotency.Fingerprint.{
  FingerprintFile, build_fingerprint_files, compute_idempotency_fingerprint,
}
use posts_media.Idempotency.Rejection.{domain_error_to_outcome, outcome_to_domain_error}
use posts_media.Idempotency.Service.{
  Settings, Env, acquire_or_replay, finalize, mark_retryable_failure,
}
use posts_media.Validation.{validate_files}
use posts_media.Validation.Uploads.{
  ValidatedUpload, File, FileValidationError, FileValidationOutcome,
}
use posts_media.Posts.{Post}
use posts_media.Posts.Presenter.{present_post, post_json}
use posts_media.Posts.Promotion.{
  Item, Promotion, items_of, validated_uploads, errors_of, error_json, promoted_from,
  compensate_promoted_originals, insert_all,
}
use posts_media.Posts.Requests.{
  Site, Service, Course, finalize_rejection, compensated, finished, concluded, claimed, handle,
}

pub record CreatePostWithMediaCommand : Type 0 where
  pub idempotency_key : Option String
  pub title : String
  pub content : String
  pub files : List File
  pub request_id : String

abbrev validation_failed_error : List FileValidationError → ℕ → DomainError
validation_failed_error errors submitted = record {
  code = ErrorCode.post_media_validation_failed;
  message = "The post was not created because one or more files are invalid.";
  http_status = 422;
  details = some (
      obj
        (field "submitted" (num submitted) (field "rejected" (arr (items error_json errors)) end)));
}

abbrev pub create_post_context : String → Context
create_post_context key = record {
  key = key;
  operation = IdempotencyOperation.create_post;
  method = "POST";
  route_template = "/api/posts";
}

module _ (X : Tables) (P : Table String Post) (I : Table String IdempotencyRequest)
    (O : ObjectStorage) (service : Service) (c : Course X P I O)
    (command : CreatePostWithMediaCommand) where
  abbrev pub new_post : Post
  new_post = record {
    title = command.title;
    content = command.content;
    created_at = c.now;
    updated_at = c.now;
    deleted_at = none;
  }

  abbrev pub created_outcome : Json → Outcome
  created_outcome body = record {
    response_status = 201;
    response_body = body;
    target_resource_id = some c.post_id;
    resource_ids = none;
  }

  -- the transaction: what it commits, and its value; `none` is that it throws
  unfoldable pub create_tx :
      String → List Item → List ObjectRef → Site X P I O → Option (Site X P I O × Json)
  create_tx key is promoted s = elim (P.create c.post_id new_post s.posts) [
    | none ↦ none
    | some posts ↦ elim (insert_all X c.post_id c.now 0 is promoted s.db) [
      | none ↦ none
      | some (db, media) ↦
          let body = post_json (present_post service.to_iso_string c.post_id new_post media) in
          let committed : Site X P I O = record {
            posts = posts;
            db = db;
            requests = finalize I service.idempotency key (created_outcome body) c.done s.requests;
            objects = s.objects;
          } in
          if c.commits then some (committed, body) else none
    ]
  ]

  -- once the files are validated
  abbrev pub judged :
      String
      → List ValidatedUpload
      → List FileValidationError
      → Site X P I O
      → Site X P I O × Reply Json
  judged key uploads [] s =
      let is = items_of c.media_ids c.dispatch_ids 0 uploads in
      concluded X P I O service c (create_tx key is) key
        (promoted_from O service.buckets command.request_id c.post_id is s.objects) s
  judged key uploads (e ∷ es) s =
      finalize_rejection X P I O service c key
        (validation_failed_error (e ∷ es) (length command.files)) s

  unfoldable pub created_with :
      String → List FileValidationOutcome → Site X P I O → Site X P I O × Reply Json
  created_with key outcomes s = judged key (validated_uploads outcomes) (errors_of outcomes) s

  abbrev pub fingerprint_of : List FingerprintFile → String
  fingerprint_of files = compute_idempotency_fingerprint service.digest (record {
    operation = IdempotencyOperation.create_post;
    route_params = end;
    body = field "title" (str command.title) (field "content" (str command.content) end);
    files = files;
  })

  unfoldable pub execute : Site X P I O → Option (Site X P I O × Reply Json)
  execute s =
      handle X P I O service c create_post_context fingerprint_of command.files
        (λ key. created_with key (validate_files service.limits service.tools command.files))
        command.idempotency_key s
