-- ===== src/Processing/Claims.antt =====
-- WorkerClaimService of apps/worker/src/processing/worker-claim.service.ts
pub mod Answers
pub mod Stale
pub mod Attempts
use posts_media.Common.{
  ℕ, String, Text, ◌≡◌, Bool, true, false, ◌&&◌, Option, none, some, Eq, ◌==◌, string_eq, nat_eq,
  take, codes, if◌then◌else◌,
}
use posts_media.Domain.Enums.{ProcessingStatus}
use posts_media.Domain.Result.{Try, returned, thrown}
use posts_media.Database.Table.{Table, where_key, count_is_one}
use posts_media.Schema.{Media, ProcessingAttempt, AttemptStatus, Tables, Db}
use posts_media.Schema.Keys.{AttemptKey, attempt_key_eq}
use posts_media.Processing.Message.{safe_processing_error_message}
use posts_media.Processing.Row.{
  claim_where, claim_data, renew_where, renew_data, lease_where, complete_data, fail_data,
}

-- `where: { id, mediaId, generation }` on attempts
abbrev pub attempt_where : String → String → ℕ → AttemptKey → ProcessingAttempt → Bool
attempt_where attempt_id media_id generation k a =
    a.id == attempt_id && (k.media_id == media_id && k.generation == generation)

abbrev pub attempt_completed : ℕ → ProcessingAttempt → ProcessingAttempt
attempt_completed now a = record a { status = AttemptStatus.completed; completed_at = some now }

abbrev pub attempt_failed : Text → Text → ℕ → ProcessingAttempt → ProcessingAttempt
attempt_failed error_code safe_message now a = record a {
  status = AttemptStatus.failed;
  error_code = some (take 64 error_code);
  error_message = some safe_message;
  completed_at = some now;
}

-- the row that createAttempt creates
abbrev pub fresh_attempt : String → String → String → Option String → ProcessingAttempt
fresh_attempt id job_id processing_profile worker_instance_id = record {
  id = id;
  job_id = job_id;
  processing_profile = processing_profile;
  status = AttemptStatus.running;
  worker_instance_id = worker_instance_id;
  error_code = none;
  error_message = none;
  completed_at = none;
}

-- findUniqueOrThrow
abbrev found_or_throw : Option Media → Try (Option Media)
found_or_throw none = thrown (codes "P2025")
found_or_throw (some m) = returned (some m)

module _ (X : Tables) where
  -- `now` and `lease_token` are read by the caller's clock and random source; `returned none` is null
  unfoldable pub claim :
      (media_id : String) (generation : ℕ) (job_id : String) (lease_seconds : ℕ)
      (lease_token : String) (now : ℕ)
      → Db X
      → Db X × Try (Option Media)
  claim media_id generation job_id lease_seconds lease_token now db =
      let (media, count) =
        X.media.update_many (where_key media_id (claim_where generation now))
          (claim_data job_id lease_seconds lease_token now) db.media in
      (
        record db { media = media },
        (if count_is_one count
            then found_or_throw (X.media.find media_id media)
            else returned none),
      )

  unfoldable pub renew :
      (media_id : String) (generation : ℕ) (lease_token : String) (lease_seconds now : ℕ)
      → Db X
      → Db X × Bool
  renew media_id generation lease_token lease_seconds now db =
      let (media, count) =
        X.media.update_many (where_key media_id (renew_where generation lease_token))
          (renew_data lease_seconds now) db.media in
      (record db { media = media }, count_is_one count)

  -- `upsert` with an empty update: the attempt that is there, or a new one under the fresh id
  unfoldable pub create_attempt :
      (id : String) (key : AttemptKey) (job_id processing_profile : String)
      (worker_instance_id : Option String)
      → Db X
      → Db X × String
  create_attempt id key job_id processing_profile worker_instance_id db =
      let fresh = fresh_attempt id job_id processing_profile worker_instance_id in
      elim (X.attempts.find key db.attempts) [
        | some a ↦ (db, a.id)
        | none ↦ elim (X.attempts.create key fresh db.attempts) [
          | some attempts ↦ (record db { attempts = attempts }, id)
          | none ↦ (db, id)
        ]
      ]

  -- the second statement of the transaction runs only if the first wrote its row
  unfoldable pub complete :
      (media_id : String) (generation : ℕ) (lease_token attempt_id : String) (now : ℕ)
      → Db X
      → Db X × Bool
  complete media_id generation lease_token attempt_id now db =
      let (media, count) =
        X.media.update_many (where_key media_id (lease_where generation lease_token))
          (complete_data now) db.media in
      let attempts =
        (X.attempts.update_many (attempt_where attempt_id media_id generation)
          (attempt_completed now) db.attempts).0 in
      if count_is_one count
      then (record db { media = media; attempts = attempts }, true)
      else (record db { media = media }, false)

  unfoldable pub fail :
      (media_id : String) (generation : ℕ) (lease_token attempt_id : String) (final : Bool)
      (error_code error_message : Text) (now : ℕ)
      → Db X
      → Db X × Bool
  fail media_id generation lease_token attempt_id final error_code error_message now db =
      let safe = safe_processing_error_message error_message in
      let (media, count) =
        X.media.update_many (where_key media_id (lease_where generation lease_token))
          (fail_data final error_code safe) db.media in
      let attempts =
        (X.attempts.update_many (attempt_where attempt_id media_id generation)
          (attempt_failed error_code safe now) db.attempts).0 in
      if count_is_one count
      then (record db { media = media; attempts = attempts }, true)
      else (record db { media = media }, false)
