-- ===== src/Processing/Orchestrator.antt =====
-- apps/worker/src/processing/processor-orchestrator.service.ts (execute) and downloadAndVerify of
-- processing-workspace.service.ts
pub mod Jobs
pub mod Published
use posts_media.Common.{
  ℕ, ◌+◌, String, Text, Bool, true, false, not, Option, none, some, ◌==◌, string_eq, nat_eq, codes,
  leb, if◌then◌else◌,
}
use posts_media.Domain.Result.{Try, returned, thrown}
use posts_media.Queues.{media_job_id}
use posts_media.Queues.Payload.{MediaJobPayload}
use posts_media.Storage.{ObjectRef, ObjectStorage}
use posts_media.Schema.{Media, Tables, Db}
use posts_media.Processing.Claims.{claim, create_attempt, complete, fail}
use posts_media.Processing.Publication.{Files, io_error}

abbrev pub checksum_mismatch : Text
checksum_mismatch = codes "PROCESSING_CHECKSUM_MISMATCH"

abbrev pub processing_failed : Text
processing_failed = codes "PROCESSING_FAILED"

-- `files` are the local files once the download is done
unfoldable pub download_and_verify :
    (O : ObjectStorage) → Files → Media → (destination : String) → O.State → Try (Unit {0})
download_and_verify O files media destination objects =
    let ref : ObjectRef = record {
      bucket = media.original_bucket;
      object_key = media.original_object_key;
    } in
    let verified : Try (Unit {0}) = elim (files.size destination) [
      | none ↦ thrown io_error
      | some size ↦
          let digested : Try (Unit {0}) = elim (files.digest destination) [
            | none ↦ thrown io_error
            | some checksum ↦
                if checksum == media.checksum_sha256 then returned tt else thrown checksum_mismatch
          ] in
          if size == media.original_size then digested else thrown checksum_mismatch
    ] in
    if O.download_to_file ref destination objects then verified else thrown io_error

-- The worker's settings, its clock at the claim and at the last statement, the fresh ids, and the
-- directory of an attempt, which may be refused.
pub record Worker : Type 0 where
  pub processing_lease_seconds : ℕ
  pub media_job_attempts : ℕ
  pub worker_instance_id : String
  pub lease_token : String
  pub attempt_id : String
  pub claimed_at : ℕ
  pub ended_at : ℕ
  pub create_workspace : (media_id : String) (generation : ℕ) (attempt_id : String) → Try String
  -- join(directory, 'original')
  pub original_path : String → String
  pub files : Files

-- A processor with its publication, and with whatever else reaches the tables while it runs: the
-- renewals of the timer, and other processes.
abbrev pub Handler : Tables → ObjectStorage → Type 0
Handler X O =
    Media
    → (workspace lease_token attempt_id : String) → Db X
    → O.State
    → Db X × O.State × Try (Unit {0})

module _ (X : Tables) (O : ObjectStorage) (w : Worker) (handler : Handler X O)
    (payload : MediaJobPayload) (attempts_made : ℕ) where
  -- `catch`
  unfoldable pub failed : String → Text → Db X → O.State → Db X × O.State × Try (Unit {0})
  failed attempt_id message db objects = (
    (fail X payload.media_id payload.generation w.lease_token attempt_id
        (leb w.media_job_attempts (attempts_made + 1)) processing_failed message w.ended_at db).0,
    objects,
    thrown processing_failed,
  )

  -- what follows the handler
  unfoldable pub handled :
      String → Db X × O.State × Try (Unit {0}) → Db X × O.State × Try (Unit {0})
  handled attempt_id (db, objects, thrown e) = failed attempt_id e db objects
  handled attempt_id (db, objects, returned done) = (
    (complete X payload.media_id payload.generation w.lease_token attempt_id w.ended_at db).0,
    objects,
    returned tt,
  )

  -- the `try` block
  unfoldable pub work : Media → String → String → Db X → O.State → Db X × O.State × Try (Unit {0})
  work media attempt_id directory db objects =
      elim (download_and_verify O w.files media (w.original_path directory) objects) [
        | thrown e ↦ failed attempt_id e db objects
        | returned done ↦
            handled attempt_id (handler media directory w.lease_token attempt_id db objects)
      ]

  -- what follows a claim
  unfoldable pub claimed : Media → Db X → O.State → Db X × O.State × Try (Unit {0})
  claimed media db objects =
      let (db', attempt_id) =
        create_attempt X w.attempt_id
          (record {
            media_id = payload.media_id;
            generation = payload.generation;
            bull_attempt_number = attempts_made + 1;
          })
          (media_job_id payload.media_id payload.generation) payload.processing_profile
          (some w.worker_instance_id) db in
      elim (w.create_workspace payload.media_id payload.generation attempt_id) [
        | thrown e ↦ (db', objects, thrown e)
        | returned directory ↦ work media attempt_id directory db' objects
      ]

  unfoldable pub execute : Db X → O.State → Db X × O.State × Try (Unit {0})
  execute db objects =
      let (db', answer) =
        claim X payload.media_id payload.generation
          (media_job_id payload.media_id payload.generation) w.processing_lease_seconds
          w.lease_token w.claimed_at db in
      elim answer [
        | thrown e ↦ (db', objects, thrown e)
        | returned none ↦ (db', objects, returned tt)
        | returned (some media) ↦ claimed media db' objects
      ]
