-- ===== src/Posts/Requests.antt =====
-- What libs/posts/src/application/create-post.service.ts and add-post-media.service.ts share around
-- their own steps: the idempotency key with its claim, the promotion, and what its end undoes.
pub mod Frame
pub mod Answered
pub mod Replayed
use posts_media.Common.{
  ℕ, String, Bool, Option, none, some, List, [], ◌∷◌, length, leb, if◌then◌else◌, string_eq,
}
use posts_media.Domain.Errors.{DomainError, ErrorCode}
use posts_media.Domain.Json.{Json, num, str, arr, obj, end, field, items}
use posts_media.Domain.Result.{Result, ok, err, Reply, replied, rejected, crashed}
use posts_media.Database.Table.{Table}
use posts_media.Storage.{ObjectRef, ObjectStorage, Buckets}
use posts_media.Schema.{Tables, Db}
use posts_media.Idempotency.{
  Context, Outcome, IdempotencyRequest, IdempotencyOperation, AcquireResult,
}
use posts_media.Idempotency.Key.{validate_idempotency_key}
use posts_media.Idempotency.Fingerprint.{
  FingerprintFile, build_fingerprint_files, compute_idempotency_fingerprint,
}
use posts_media.Idempotency.Rejection.{domain_error_to_outcome, outcome_to_domain_error}
use posts_media.Idempotency.Service.{
  Settings, Env, acquire_or_replay, finalize, mark_retryable_failure,
}
use posts_media.Validation.{validate_files}
use posts_media.Validation.Uploads.{File, Limits, Tools, FileValidationError, FileValidationOutcome}
use posts_media.Posts.{Post}
use posts_media.Posts.Presenter.{present_post, post_json}
use posts_media.Posts.Promotion.{
  Promotion, items_of, validated_uploads, errors_of, error_json, promoted_from,
  compensate_promoted_originals, insert_all,
}

-- all that a request reaches
pub record Site (X : Tables) (P : Table String Post) (I : Table String IdempotencyRequest)
    (O : ObjectStorage) : Type 0 where
  pub posts : P.State
  pub db : Db X
  pub requests : I.State
  pub objects : O.State

-- The configuration, and the functions that are not modelled: the digest of the fingerprint and
-- toISOString.
pub record Service : Type 0 where
  pub idempotency : Settings
  pub limits : Limits
  pub tools : Tools
  pub buckets : Buckets
  pub digest : Json → String
  pub to_iso_string : ℕ → String

-- The surroundings of one request: those of `acquire`, what others do from then on until the
-- transaction begins, the fresh ids, the time of the transaction and of the last statement, and
-- whether the database commits.
pub record Course (X : Tables) (P : Table String Post) (I : Table String IdempotencyRequest)
    (O : ObjectStorage) : Type 0 where
  pub fuel : ℕ
  pub env : Env I.State
  pub meanwhile : Site X P I O → Site X P I O
  pub post_id : String
  pub media_ids : ℕ → String
  pub dispatch_ids : ℕ → String
  pub now : ℕ
  pub done : ℕ
  pub commits : Bool

abbrev pub original_promotion_failed : DomainError
original_promotion_failed = record {
  code = ErrorCode.original_promotion_failed;
  message = "The uploaded media could not be stored.";
  http_status = 503;
  details = none;
}

-- a claim that is a replay
abbrev pub replayed : Outcome → Reply Json
replayed o =
    if leb 400 o.response_status
    then rejected (outcome_to_domain_error o)
    else replied o.response_body

module _ (X : Tables) (P : Table String Post) (I : Table String IdempotencyRequest)
    (O : ObjectStorage) (service : Service) (c : Course X P I O) where
  -- finalize with the outcome of an error, which is then thrown
  abbrev pub finalize_rejection : String → DomainError → Site X P I O → Site X P I O × Reply Json
  finalize_rejection key e s = (
    record s {
      requests = finalize I service.idempotency key (domain_error_to_outcome e) c.done s.requests;
    },
    rejected e,
  )

  -- what is undone when the promotion or the transaction throws
  unfoldable pub compensated : String → List ObjectRef → Site X P I O → Site X P I O
  compensated key promoted s = record s {
    objects = compensate_promoted_originals O promoted s.objects;
    requests = mark_retryable_failure I service.idempotency key s.requests;
  }

  -- what the end of the transaction makes of the request
  abbrev pub finished :
      String
      → List ObjectRef
      → Site X P I O
      → Option (Site X P I O × Json)
      → Site X P I O × Reply Json
  finished key promoted s none = (compensated key promoted s, crashed)
  finished key promoted s (some (committed, body)) = (committed, replied body)

  -- from the end of the promotion on, with a transaction
  unfoldable pub concluded :
      (List ObjectRef → Site X P I O → Option (Site X P I O × Json))
      → String
      → Promotion O.State
      → Site X P I O
      → Site X P I O × Reply Json
  concluded tx key p s =
      let s' = c.meanwhile (record s { objects = p.objects }) in
      let answer = finished key p.promoted s' (tx p.promoted s') in
      if p.failed
      then (
        compensated key p.promoted (record s { objects = p.objects }),
        rejected original_promotion_failed,
      )
      else answer

  -- `act` is what the request does once the key is acquired
  module _ (context : String → Context) (fingerprint : List FingerprintFile → String)
      (files : List File) (act : String → Site X P I O → Site X P I O × Reply Json) where
    unfoldable pub claimed :
        String → Result AcquireResult → Site X P I O → Site X P I O × Reply Json
    claimed key (err e) s = (s, rejected e)
    claimed key (ok (AcquireResult.replay o)) s = (s, replayed o)
    claimed key (ok AcquireResult.acquired) s = act key s

    abbrev pub proceeded :
        String
        → Site X P I O
        → Option (I.State × Result AcquireResult)
        → Option (Site X P I O × Reply Json)
    proceeded key s none = none
    proceeded key s (some (requests, claim)) =
        some (claimed key claim (record s { requests = requests }))

    -- once the fingerprints of the files are known
    abbrev pub fingerprinted :
        String
        → Site X P I O
        → Option (Result (List FingerprintFile))
        → Option (Site X P I O × Reply Json)
    fingerprinted key s none = some (s, crashed)
    fingerprinted key s (some (err e)) = some (s, rejected e)
    fingerprinted key s (some (ok fs)) = proceeded key s (
        acquire_or_replay I service.idempotency c.fuel c.env (context key) (fingerprint fs)
          s.requests)

    abbrev pub keyed : Site X P I O → Result String → Option (Site X P I O × Reply Json)
    keyed s (err e) = some (s, rejected e)
    keyed s (ok key) = fingerprinted key s (build_fingerprint_files service.tools files)

    -- `none` is that the row of the key was deleted in every round of the fuel
    unfoldable pub handle : Option String → Site X P I O → Option (Site X P I O × Reply Json)
    handle idempotency_key s = keyed s (validate_idempotency_key idempotency_key)
