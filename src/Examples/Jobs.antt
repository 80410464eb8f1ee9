-- ===== src/Examples/Jobs.antt =====
-- Runs of a job and publications of the image's thumbnail.
use posts_media.Common.{◌≡◌, ◌⊎◌, refl, false, none, List, [], ◌∷◌, map, All, string_eq}
use posts_media.Domain.Result.{Try, returned, thrown}
use posts_media.Common.Decimal.{decimal}
use posts_media.Storage.{ObjectRef, processing_temp_key, processed_attempt_key}
use posts_media.Storage.Objects.{listed_storage}
use posts_media.Schema.{Db, SameRows}
use posts_media.Processing.Claims.{claim, create_attempt}
use posts_media.Processing.Publication.{
  publish, publish_tx, upload_all, upload_one, record_variants, upsert_variant, after_tx, io_error,
}
use posts_media.Processing.Publication.Uploading.{HasBuckets, final}
use posts_media.Processing.Publication.Outcomes.{failed-SameRows}
use posts_media.Processing.Publication.Outcomes.{run as publication_run, loop as publication_loop}
use posts_media.Processing.Publication.Stale.{stale_publication_removes}
use posts_media.Processing.Orchestrator.{
  Handler, execute, claimed, work, download_and_verify, handled, failed, processing_failed,
}
use posts_media.Processing.Orchestrator.Jobs.{work-IsReleased, IsReleased}
use posts_media.Processing.Orchestrator.Published.{published_job, job, IsSkipped, IsPublished}
use posts_media.Examples.World.{
  tables, photo, leased_photo, db_with, buckets, original, files, no_files, thumbnail, job_payload,
  worker_with,
}

apart : HasBuckets listed_storage buckets files "m1" photo 1 "a1"
apart = refl

-- the job of a row that another worker holds
abbrev no_handler : Handler tables listed_storage
no_handler media workspace token attempt_id db objects = (db, objects, thrown io_error)

-- a third delivery whose processor fails
failing :
    (work tables listed_storage
      (worker_with files)
      no_handler
      job_payload
      2
      leased_photo
      "a1"
      "/work"
      (db_with leased_photo)
      (original ∷ [])).2
    ≡ thrown processing_failed
unfolding work download_and_verify handled failed
failing = refl

work-IsReleased_example :
    IsReleased tables listed_storage
      (worker_with files)
      no_handler
      job_payload
      2
      leased_photo
      "a1"
      "/work"
      (db_with leased_photo)
      (original ∷ [])
      (work tables listed_storage
        (worker_with files)
        no_handler
        job_payload
        2
        leased_photo
        "a1"
        "/work"
        (db_with leased_photo)
        (original ∷ [])).0
work-IsReleased_example =
    work-IsReleased tables listed_storage (worker_with files) no_handler job_payload 2 leased_photo
      "a1" "/work" (db_with leased_photo) (original ∷ []) processing_failed
      (leased_photo, (refl, refl)) (λ message thrown_there. (leased_photo, (refl, refl))) failing

-- a job that publishes its thumbnail
publishing :
    (job tables listed_storage
      (worker_with files)
      buckets
      job_payload
      0
      (λ directory. thumbnail ∷ [])
      none
      5000
      (λ world. world)
      (db_with photo)
      (original ∷ [])).2
    ≡ returned tt
unfolding execute claim claimed create_attempt work download_and_verify handled publish upload_all
    upload_one publish_tx record_variants upsert_variant after_tx processing_temp_key decimal
    processed_attempt_key
publishing = refl

published_job_example :
    IsSkipped tables listed_storage
      (worker_with files)
      buckets
      job_payload
      0
      (λ directory. thumbnail ∷ [])
      none
      5000
      (λ world. world)
      (db_with photo)
      (original ∷ [])
    ⊎ IsPublished tables listed_storage
        (worker_with files)
        buckets
        job_payload
        0
        (λ directory. thumbnail ∷ [])
        none
        5000
        (λ world. world)
        (db_with photo)
        (original ∷ [])
published_job_example =
    published_job tables listed_storage (worker_with files) buckets job_payload 0
      (λ directory. thumbnail ∷ []) none 5000 (λ world. world) (db_with photo) (original ∷ []) refl
      publishing

-- a publication whose artifact cannot be read
failing_publication :
    (publication_run tables listed_storage buckets no_files "m1" leased_photo 1 "a1" "t1"
      (thumbnail ∷ [])
      none
      5000
      (db_with leased_photo)
      []).2
    ≡ thrown io_error
unfolding publish upload_all upload_one
failing_publication = refl

failed-SameRows_example :
    SameRows tables
      (publication_run tables listed_storage buckets no_files "m1" leased_photo 1 "a1" "t1"
        (thumbnail ∷ [])
        none
        5000
        (db_with leased_photo)
        []).0
      (db_with leased_photo)
failed-SameRows_example =
    failed-SameRows tables listed_storage buckets no_files "m1" leased_photo 1 "a1" "t1"
      (thumbnail ∷ []) none 5000 (db_with leased_photo) [] io_error failing_publication

-- the worker with the lease publishes, then another with the same attempt and a lease that it has lost
abbrev first : Db tables × List ObjectRef × Try (Unit {0})
first =
    publication_run tables listed_storage buckets files "m1" leased_photo 1 "a1" "t1"
      (thumbnail ∷ []) none 5000 (db_with leased_photo) []

abbrev second : Db tables × List ObjectRef × Try (Unit {0})
second =
    publication_run tables listed_storage buckets files "m1" leased_photo 1 "a1" "t0"
      (thumbnail ∷ []) none 9000 first.0 first.1

first_published : first.2 ≡ returned tt
unfolding publish upload_all upload_one publish_tx record_variants upsert_variant after_tx
    processing_temp_key decimal processed_attempt_key
first_published = refl

second_uploaded :
    (publication_loop tables listed_storage buckets files "m1" leased_photo 1 "a1" "t0"
      (thumbnail ∷ [])
      none
      9000
      first.0
      first.1).outcome
    ≡ returned tt
unfolding publish upload_all upload_one publish_tx record_variants upsert_variant after_tx
    processing_temp_key decimal processed_attempt_key
second_uploaded = refl

stale_publication_removes_example :
    (record_variants tables files "m1" leased_photo
        (thumbnail ∷ [])
        (map (final listed_storage buckets files "m1" leased_photo 1 "a1") (thumbnail ∷ []))
        []
      ≡ returned second.0.variants)
    × All
        (λ a.
          listed_storage.holds
            (final listed_storage buckets files "m1" leased_photo 1 "a1" a)
            second.1
          ≡ false)
        (thumbnail ∷ [])
stale_publication_removes_example =
    stale_publication_removes tables listed_storage buckets files "m1" leased_photo 1 "a1"
      (thumbnail ∷ []) none "t1" "t0" 5000 9000 (db_with leased_photo) [] first.1 refl
      first_published second_uploaded refl
