-- ===== src/Processing/Orchestrator/Jobs.antt =====
-- How a job ends: `execute` of apps/worker/src/processing/processor-orchestrator.service.ts
use mathlib.Core.Path.{subst}
use posts_media.Common.{
  ℕ, ◌+◌, String, Text, ◌≡◌, refl, sym, ap, ◌∙◌, true, false, Option, none, some, leb, string_eq,
  if◌then◌else◌, arith, inl, inr,
}
use posts_media.Domain.Enums.{ProcessingStatus}
use posts_media.Domain.Result.{Try, returned, thrown, Try-cases}
use posts_media.Queues.{media_job_id}
use posts_media.Queues.Payload.{MediaJobPayload}
use posts_media.Storage.{ObjectStorage}
use posts_media.Schema.{Media, Tables, Db, SameRows}
use posts_media.Processing.Message.{safe_processing_error_message}
use posts_media.Processing.Row.{claim_where, lease_where, fail_data}
use posts_media.Processing.Claims.{claim}
use posts_media.Processing.Claims.Answers.{claim-refused, fail-done}
use posts_media.Processing.Orchestrator.{
  Worker, Handler, execute, work, handled, failed, download_and_verify, processing_failed,
}

module _ (X : Tables) (O : ObjectStorage) (w : Worker) (handler : Handler X O)
    (payload : MediaJobPayload) (attempts_made : ℕ) where
  abbrev job : Db X → O.State → Db X × O.State × Try (Unit {0})
  job = execute X O w handler payload attempts_made

  abbrev claiming : Db X → Db X × Try (Option Media)
  claiming db =
      claim X payload.media_id payload.generation (media_job_id payload.media_id payload.generation)
        w.processing_lease_seconds w.lease_token w.claimed_at db

  execute-null :
      (db : Db X) (objects : O.State)
      → (claiming db).1 ≡ returned none
      → job db objects ≡ ((claiming db).0, objects, returned tt)
  unfolding execute
  execute-null db objects h = rw (h, execute) refl

  -- A job whose row does not meet the condition of the claim, as while another lease on it lasts,
  -- ends without an error, and changes neither the tables nor the storage.
  pub unclaimed_job_ends :
      (db : Db X) (objects : O.State)
      → ((m : Media)
          → X.media.find payload.media_id db.media ≡ some m
          → claim_where payload.generation w.claimed_at m ≡ false)
      → let end = job db objects in (end.2 ≡ returned tt) × (end.1 ≡ objects) × SameRows X end.0 db
  unclaimed_job_ends db objects h =
      let (null, same) =
        claim-refused X payload.media_id payload.generation db
          (media_job_id payload.media_id payload.generation) w.processing_lease_seconds
          w.lease_token w.claimed_at h in
      rw (execute-null db objects null) (refl, refl, same)

  -- the row after a failure, if the worker still has its lease then
  pub failed_row :
      (attempt_id : String) (message : Text) (db : Db X) (objects : O.State) (m : Media)
      → X.media.find payload.media_id db.media ≡ some m
      → lease_where payload.generation w.lease_token m ≡ true
      → X.media.find payload.media_id
          (failed X O w handler payload attempts_made attempt_id message db objects).0.media
        ≡ some (
            fail_data
              (leb w.media_job_attempts (attempts_made + 1))
              processing_failed
              (safe_processing_error_message message)
              m)
  unfolding failed
  failed_row attempt_id message db objects m f h =
      fail-done X payload.media_id payload.generation db w.lease_token attempt_id
        (leb w.media_job_attempts (attempts_made + 1)) processing_failed message w.ended_at m f h

  module _ (media : Media) (attempt_id directory : String) (db : Db X) (objects : O.State) where
    abbrev worked : Db X × O.State × Try (Unit {0})
    worked = work X O w handler payload attempts_made media attempt_id directory db objects

    abbrev ran : Db X × O.State × Try (Unit {0})
    ran = handler media directory w.lease_token attempt_id db objects

    abbrev pub IsLeased : Db X → Type 0
    IsLeased d =
        (m : Media) × ((X.media.find payload.media_id d.media ≡ some m)
          × (lease_where payload.generation w.lease_token m ≡ true))

    -- the row is given back: pending for the next delivery, or failed after the last
    abbrev pub IsReleased : Db X → Type 0
    IsReleased d =
        (m : Media) × ((X.media.find payload.media_id d.media ≡ some m)
          × ((m.processing_lease_token ≡ none)
              × (m.processing_status ≡ (
                  if leb w.media_job_attempts (attempts_made + 1)
                  then ProcessingStatus.failed
                  else ProcessingStatus.pending))))

    failed-IsReleased :
        (message : Text) (d : Db X) (o : O.State)
        → IsLeased d
        → IsReleased (failed X O w handler payload attempts_made attempt_id message d o).0
    failed-IsReleased message d o (m, (f, h)) = (
      fail_data (leb w.media_job_attempts (attempts_made + 1)) processing_failed
          (safe_processing_error_message message) m,
      (failed_row attempt_id message d o m f h, (refl, refl)),
    )

    handled-thrown :
        (h : Db X × O.State × Try (Unit {0})) (e : Text)
        → (handled X O w handler payload attempts_made attempt_id h).2 ≡ thrown e
        → (message : Text) × ((h.2 ≡ thrown message)
            × (handled X O w handler payload attempts_made attempt_id h
                ≡ failed X O w handler payload attempts_made attempt_id message h.0 h.1))
    unfolding handled
    handled-thrown (d, o, thrown message) e t = (message, (refl, refl))
    handled-thrown (d, o, returned done) e t = ground arith

    -- If the work of a job throws, in the download, in the checks on it or in the processor, and
    -- its lease is held still, the row ends without a lease: FAILED if this was the last delivery
    -- allowed, and PENDING if it was not.
    pub work-IsReleased :
        (e : Text)
        → IsLeased db
        → ((message : Text) → ran.2 ≡ thrown message → IsLeased ran.0)
        → worked.2 ≡ thrown e
        → IsReleased worked.0
    unfolding work
    work-IsReleased e leased keeps t =
        elim (Try-cases (download_and_verify O w.files media (w.original_path directory) objects)) [
          | inl (f, h) ↦ rw (h, work) (failed-IsReleased f db objects leased)
          | inr (done, h) ↦
              let same : worked ≡ handled X O w handler payload attempts_made attempt_id ran =
                rw (h, work) refl in
              let (message, (x, y)) = handled-thrown ran e (ap (λ r. r.2) (sym same) ∙ t) in
              subst IsReleased (ap (λ r. r.0) (sym (same ∙ y)))
                (failed-IsReleased message ran.0 ran.1 (keeps message x))
        ]
