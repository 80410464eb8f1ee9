-- ===== src/Processing/Orchestrator/Published.antt =====
-- A job whose processor publishes its artifacts: `process` of
-- apps/worker/src/consumers/media-queue-consumers.service.ts hands such a processor to `execute`.
use mathlib.Core.Path.{subst}
use mathlib.Core.Option.{some-injective}
use posts_media.Common.{
  ℕ, ◌+◌, String, ◌≡◌, ◌⊎◌, ◌==◌, refl, sym, ap, ◌∙◌, true, false, Option, none, some, List, All,
  string_eq, arith, inl, inr,
}
use posts_media.Domain.Enums.{ProcessingStatus}
use posts_media.Domain.Json.{Json}
use posts_media.Domain.Result.{Try, returned, thrown, Try-cases}
use posts_media.Queues.{media_job_id}
use posts_media.Queues.Payload.{MediaJobPayload}
use posts_media.Storage.{ObjectStorage, Buckets}
use posts_media.Schema.{Media, Tables, Db, SameRows}
use posts_media.Processing.Row.{lease_where, publish_data}
use posts_media.Processing.Claims.{claim, create_attempt, complete}
use posts_media.Processing.Claims.Answers.{claim-null, complete-refused}
use posts_media.Processing.Publication.{ProcessedArtifact, publish}
use posts_media.Processing.Publication.Uploading.{HasBuckets, final}
use posts_media.Processing.Publication.Outcomes.{published_row, published_objects}
use posts_media.Processing.Orchestrator.{
  Worker, Handler, execute, claimed, work, handled, failed, download_and_verify,
}

module _ (X : Tables) (O : ObjectStorage) (w : Worker) (buckets : Buckets)
    (payload : MediaJobPayload) (attempts_made : ℕ) (artifacts : String → List ProcessedArtifact)
    (metadata : Option Json) (now : ℕ) (meanwhile : Db X × O.State → Db X × O.State) where
  -- The artifacts are written to the workspace, then published. `meanwhile` is what reaches the
  -- tables and the storage until the publication begins: the renewals, and other processes.
  abbrev pub publisher : Handler X O
  publisher media workspace token attempt_id db objects =
      let (db', objects') = meanwhile (db, objects) in
      publish X O buckets w.files payload.media_id media payload.generation attempt_id token
        (artifacts workspace) metadata now db' objects'

  module _ (media : Media) (attempt_id directory : String) (db : Db X) (objects : O.State) where
    abbrev end : Db X × O.State × Try (Unit {0})
    end = work X O w publisher payload attempts_made media attempt_id directory db objects

    abbrev ran : Db X × O.State × Try (Unit {0})
    ran = publisher media directory w.lease_token attempt_id db objects

    handled-returned :
        (h : Db X × O.State × Try (Unit {0}))
        → (handled X O w publisher payload attempts_made attempt_id h).2 ≡ returned tt
        → (h.2 ≡ returned tt)
          × ((handled X O w publisher payload attempts_made attempt_id h).1 ≡ h.1)
          × ((handled X O w publisher payload attempts_made attempt_id h).0
              ≡ (complete X payload.media_id payload.generation w.lease_token attempt_id w.ended_at
                  h.0).0)
    unfolding handled failed
    handled-returned (d, o, returned done) t = (refl, refl, refl)
    handled-returned (d, o, thrown e) t = ground arith

    work-returned :
        end.2 ≡ returned tt → end ≡ handled X O w publisher payload attempts_made attempt_id ran
    unfolding work failed
    work-returned t =
        elim (Try-cases (download_and_verify O w.files media (w.original_path directory) objects)) [
          | inl (f, h) ↦ ground arith
          | inr (done, h) ↦ rw (h, work) refl
        ]

    -- the row and the objects that the work of a job leaves which ends without an error
    published_work :
        HasBuckets O buckets w.files payload.media_id media payload.generation attempt_id
        → end.2 ≡ returned tt
        → ((n : Media) × ((X.media.find payload.media_id end.0.media ≡ some n)
              × ((n.processing_status ≡ ProcessingStatus.completed)
                  × (n.processing_lease_token ≡ none))))
          × All
              (λ a.
                O.holds
                  (final O buckets w.files payload.media_id media payload.generation attempt_id a)
                  end.1
                ≡ true)
              (artifacts directory)
    published_work apart t =
        let same = work-returned t in
        let (done, objs, rows) = handled-returned ran (ap (λ r. r.2) (sym same) ∙ t) in
        let (r, (was, (held, new))) =
          published_row X O buckets w.files payload.media_id media payload.generation attempt_id
            w.lease_token (artifacts directory) metadata now (meanwhile (db, objects)).0
            (meanwhile (db, objects)).1 done in
        let kept =
          (complete-refused X payload.media_id payload.generation ran.0 w.lease_token attempt_id
            w.ended_at
            (λ m f.
              subst (λ x. lease_where payload.generation w.lease_token x ≡ false)
                (some-injective _ _ (sym new ∙ f)) (ground arith))).1 in
        (
          (
            publish_data metadata now r,
            (
              ap (λ (d : Db X). X.media.find payload.media_id d.media) (ap (λ r. r.0) same ∙ rows)
                  ∙ kept.media payload.media_id
                  ∙ new,
              (refl, refl),
            ),
          ),
          subst
              (λ s.
                All
                  (λ a.
                    O.holds
                      (final O buckets w.files payload.media_id media payload.generation attempt_id
                        a)
                      s
                    ≡ true)
                  (artifacts directory))
              (sym (ap (λ r. r.1) same ∙ objs))
              (published_objects X O buckets w.files payload.media_id media payload.generation
                attempt_id w.lease_token (artifacts directory) metadata now
                (meanwhile (db, objects)).0 (meanwhile (db, objects)).1 apart done),
        )

  module _ (db : Db X) (objects : O.State) where
    abbrev pub job : Db X × O.State × Try (Unit {0})
    job = execute X O w publisher payload attempts_made db objects

    abbrev claiming : Db X × Try (Option Media)
    claiming =
        claim X payload.media_id payload.generation
          (media_job_id payload.media_id payload.generation) w.processing_lease_seconds
          w.lease_token w.claimed_at db

    -- the attempt that is recorded after the claim
    abbrev attempt : Db X × String
    attempt =
        create_attempt X w.attempt_id
          (record {
            media_id = payload.media_id;
            generation = payload.generation;
            bull_attempt_number = attempts_made + 1;
          })
          (media_job_id payload.media_id payload.generation) payload.processing_profile
          (some w.worker_instance_id) claiming.0

    -- the claim answers null: the job leaves everything as it was
    pub record IsSkipped : Type 0 where
      pub null : claiming.1 ≡ returned none
      pub rows : SameRows X job.0 db
      pub stored : job.1 ≡ objects

    -- the claim is granted: the job leaves its row COMPLETED and released, and its artifacts stored
    pub record IsPublished : Type 0 where
      pub media : Media
      pub granted : claiming.1 ≡ returned (some media)
      pub directory : String
      pub placed :
          w.create_workspace payload.media_id payload.generation attempt.1 ≡ returned directory
      pub row : Media
      pub found : X.media.find payload.media_id job.0.media ≡ some row
      pub completed : row.processing_status ≡ ProcessingStatus.completed
      pub released : row.processing_lease_token ≡ none
      pub stored :
          All
            (λ a.
              O.holds
                (final O buckets w.files payload.media_id media payload.generation attempt.1 a)
                job.1
              ≡ true)
            (artifacts directory)

    claimed_job :
        (m : Media)
        → claiming.1 ≡ returned (some m)
        → job ≡ claimed X O w publisher payload attempts_made m claiming.0 objects
    unfolding execute
    claimed_job m h = rw (h, execute) refl

    placed_job :
        (m : Media)
        → (claimed X O w publisher payload attempts_made m claiming.0 objects).2 ≡ returned tt
        → (directory : String) × ((w.create_workspace payload.media_id payload.generation attempt.1
              ≡ returned directory)
            × (claimed X O w publisher payload attempts_made m claiming.0 objects
                ≡ end m attempt.1 directory attempt.0 objects))
    unfolding claimed
    placed_job m t =
        elim (Try-cases (w.create_workspace payload.media_id payload.generation attempt.1)) [
          | inl (e, h) ↦ ground arith
          | inr (directory, h) ↦ (directory, (h, rw (h, claimed) refl))
        ]

    granted_job :
        (m : Media)
        → (buckets.temporary == buckets.processed) ≡ false
        → claiming.1 ≡ returned (some m)
        → job.2 ≡ returned tt
        → IsPublished
    granted_job m apart g t =
        let whole = claimed_job m g in
        let (directory, (placed, rest)) = placed_job m (ap (λ r. r.2) (sym whole) ∙ t) in
        let same : job ≡ end m attempt.1 directory attempt.0 objects = whole ∙ rest in
        let ((row, (found, (completed, released))), stored) =
          published_work m attempt.1 directory attempt.0 objects apart
            (ap (λ r. r.2) (sym same) ∙ t) in
        record {
          media = m;
          granted = g;
          directory = directory;
          placed = placed;
          row = row;
          found = ap (λ r. X.media.find payload.media_id r.0.media) same ∙ found;
          completed = completed;
          released = released;
          stored =
              subst
                (λ s.
                  All
                    (λ a.
                      O.holds
                        (final O buckets w.files payload.media_id m payload.generation attempt.1 a)
                        s
                      ≡ true)
                    (artifacts directory))
                (ap (λ r. r.1) (sym same)) stored;
        }

    skipped_job : claiming.1 ≡ returned none → IsSkipped
    unfolding execute
    skipped_job n =
        let same : job ≡ (claiming.0, objects, returned tt) = rw (n, execute) refl in
        record {
          null = n;
          rows =
              subst (λ d. SameRows X d db) (ap (λ r. r.0) (sym same))
                (claim-null X payload.media_id payload.generation db
                  (media_job_id payload.media_id payload.generation) w.processing_lease_seconds
                  w.lease_token w.claimed_at n);
          stored = ap (λ r. r.1) same;
        }

    -- A job with a publishing processor, where the temporary bucket is not the processed one, and
    -- where others reach the tables and the storage only between the start of the processor and the
    -- start of its publication, in any way: if it ends without an error, its claim answered null
    -- and nothing has changed, or its claim was granted, its row is COMPLETED without a lease, and
    -- every artifact of its workspace is in the storage.
    pub published_job :
        (buckets.temporary == buckets.processed) ≡ false
        → (execute X O w publisher payload attempts_made db objects).2 ≡ returned tt
        → IsSkipped ⊎ IsPublished
    unfolding execute
    published_job apart t = elim (Try-cases claiming.1) [
      | inl (e, h) ↦ ground arith
      | inr (none, h) ↦ inl (skipped_job h)
      | inr (some m, h) ↦ inr (granted_job m apart h t)
    ]
