-- ===== src/Examples/Attempts.antt =====
-- Requests for posts: one that is answered and repeated, one that adds media, and two that fail.
use mathlib.Core.Path.{subst}
use posts_media.Common.{String, ℕ, ◌≡◌, refl, false, Option, none, some, [], string_eq}
use posts_media.Common.Decimal.{decimal}
use posts_media.Domain.Json.{Json}
use posts_media.Domain.Result.{Reply, replied, crashed, ok, ok-injective}
use posts_media.Schema.{Db}
use posts_media.Storage.{upload_staging_key}
use posts_media.Storage.Objects.{listed_storage}
use posts_media.Idempotency.Key.{validate_idempotency_key}
use posts_media.Idempotency.Fingerprint.{build_fingerprint_files, fingerprint_file}
use posts_media.Idempotency.Service.{acquire, acquire_or_replay, acquire_result, finalize}
use posts_media.Signature.{detect_header_signature, starts_with}
use posts_media.Signature.Policies.{signature_matches_policy}
use posts_media.Validation.Names.{
  normalize_original_filename, resolve_extension_policy, extension_of, policy_of, member,
  find_policy, canonicalize_declared_mime_type, is_declared_mime_compatible,
}
use posts_media.Validation.{
  validate_files, outcomes_from, preflight, validate_file, checked, inspected, matched,
}
use posts_media.Media.{create_with_dispatch, insert_media, insert_dispatch}
use posts_media.Posts.Promotion.{
  items_of, promote_one, promote_all, insert_all, compensate_promoted_originals, validated_uploads,
  errors_of,
}
use posts_media.Posts.Requests.{concluded, compensated, claimed, handle}
use posts_media.Posts.Requests.Replayed.{alone}
use posts_media.Posts.Create.{create_tx, created_with, execute}
use posts_media.Posts.Create.Atomic.{failed_creation}
use posts_media.Posts.Create.Answered.{answered_creation}
use posts_media.Posts.Create.Created.{HasPost}
use posts_media.Posts.AddMedia.Answered.{answered_addition, HasAnswer}
use posts_media.Queues.{media_job_id}
use posts_media.Posts.Create.Once.{execute-execute_same}
use posts_media.Posts.AddMedia.{add_tx, added_with, add_media}
use posts_media.Posts.AddMedia.Atomic.{failed_addition}
use posts_media.Examples.World.{tables}
use posts_media.Examples.Uploads.{limits, tools}
use posts_media.Examples.Posts.{
  SiteHere, CourseHere, posts, requests, empty_site, service, course, creation, addition, body_of,
  later_course,
}

abbrev site_of : Option (SiteHere × Reply Json) → SiteHere
site_of none = empty_site
site_of (some (s, answer)) = s

abbrev answer_of : Option (SiteHere × Reply Json) → Reply Json
answer_of none = crashed
answer_of (some (s, answer)) = answer

-- the database does not commit
abbrev lost : CourseHere
lost = record course { commits = false }

abbrev lost_run : Option (SiteHere × Reply Json)
lost_run = execute tables posts requests listed_storage service lost creation empty_site

lost_run-crashed : lost_run ≡ some (site_of lost_run, crashed)
unfolding execute handle claimed validate_idempotency_key build_fingerprint_files fingerprint_file
    acquire_or_replay acquire acquire_result created_with concluded promote_all promote_one
    create_tx insert_all create_with_dispatch insert_media insert_dispatch upload_staging_key
    decimal validate_files outcomes_from preflight validate_file checked inspected matched
    normalize_original_filename resolve_extension_policy extension_of policy_of member find_policy
    canonicalize_declared_mime_type is_declared_mime_compatible signature_matches_policy
    detect_header_signature starts_with compensated compensate_promoted_originals
lost_run-crashed = refl

abbrev NoPosts : posts.State → Db tables → Type 0
NoPosts p db = (p ≡ []) × (db.media ≡ [])

failed_creation_example : NoPosts (site_of lost_run).posts (site_of lost_run).db
failed_creation_example =
    failed_creation tables posts requests listed_storage service lost creation NoPosts empty_site
      (site_of lost_run) crashed (λ s h. h) (refl, refl) lost_run-crashed tt

-- the post is not there
abbrev vain_run : Option (SiteHere × Reply Json)
vain_run =
    add_media tables posts requests listed_storage service (λ t. "") course addition empty_site

vain_run-rejected : vain_run ≡ some (site_of vain_run, answer_of vain_run)
unfolding add_media handle claimed validate_idempotency_key build_fingerprint_files fingerprint_file
    acquire_or_replay acquire acquire_result
vain_run-rejected = refl

failed_addition_example : NoPosts (site_of vain_run).posts (site_of vain_run).db
unfolding add_media handle claimed validate_idempotency_key build_fingerprint_files fingerprint_file
    acquire_or_replay acquire acquire_result
failed_addition_example =
    failed_addition tables posts requests listed_storage service (λ t. "") course addition NoPosts
      empty_site (site_of vain_run) (answer_of vain_run) (λ s h. h) (refl, refl) vain_run-rejected
      tt

abbrev repeated : ℕ → CourseHere
repeated time = alone (λ i. time) (λ i. "t1") 0 course

abbrev first_run : Option (SiteHere × Reply Json)
first_run = execute tables posts requests listed_storage service (repeated 1000) creation empty_site

first_run-replied : first_run ≡ some (site_of first_run, replied (body_of (answer_of first_run)))
unfolding execute handle claimed validate_idempotency_key build_fingerprint_files fingerprint_file
    acquire_or_replay acquire acquire_result created_with concluded promote_all promote_one
    create_tx insert_all create_with_dispatch insert_media insert_dispatch upload_staging_key
    decimal validate_files outcomes_from preflight validate_file checked inspected matched
    normalize_original_filename resolve_extension_policy extension_of policy_of member find_policy
    canonicalize_declared_mime_type is_declared_mime_compatible signature_matches_policy
    detect_header_signature starts_with
first_run-replied = refl

execute-execute_same_example :
    execute tables posts requests listed_storage service
      (repeated 2000)
      creation
      (site_of first_run)
    ≡ some (site_of first_run, replied (body_of (answer_of first_run)))
execute-execute_same_example =
    execute-execute_same tables posts requests listed_storage service creation (λ i. 1000)
      (λ i. 2000) (λ i. "t1") (λ i. "t1") 0 0 course course empty_site (site_of first_run)
      (body_of (answer_of first_run)) (λ key h. refl) (λ t. refl) first_run-replied

answered_creation_example :
    (errors_of (validate_files limits tools creation.files) ≡ [])
    × HasPost tables posts requests listed_storage service
        (repeated 1000)
        creation
        (items_of course.media_ids course.dispatch_ids 0
          (validated_uploads (validate_files limits tools creation.files)))
        (site_of first_run)
        (body_of (answer_of first_run))
answered_creation_example =
    answered_creation tables posts requests listed_storage service creation (λ i. 1000) (λ i. "t1")
      0 course empty_site (site_of first_run) (body_of (answer_of first_run)) (λ key h. refl) refl
      (λ s h. h) first_run-replied

-- media are added to the post; one of the two files is refused
abbrev second : CourseHere
second = alone (λ i. 3000) (λ i. "t2") 0 later_course

abbrev second_run : Option (SiteHere × Reply Json)
second_run =
    add_media tables posts requests listed_storage service (λ t. "") second addition
      (site_of first_run)

second_run-replied :
    second_run ≡ some (site_of second_run, replied (body_of (answer_of second_run)))
unfolding add_media added_with add_tx media_job_id finalize execute handle claimed
    validate_idempotency_key build_fingerprint_files fingerprint_file acquire_or_replay acquire
    acquire_result created_with concluded promote_all promote_one create_tx insert_all
    create_with_dispatch insert_media insert_dispatch upload_staging_key decimal validate_files
    outcomes_from preflight validate_file checked inspected matched normalize_original_filename
    resolve_extension_policy extension_of policy_of member find_policy
    canonicalize_declared_mime_type is_declared_mime_compatible signature_matches_policy
    detect_header_signature starts_with
second_run-replied = refl

key_is_new :
    (key : String)
    → validate_idempotency_key addition.idempotency_key ≡ ok key
    → requests.find key (site_of first_run).requests ≡ none
unfolding finalize execute handle claimed validate_idempotency_key build_fingerprint_files
    fingerprint_file acquire_or_replay acquire acquire_result created_with concluded promote_all
    promote_one create_tx insert_all create_with_dispatch insert_media insert_dispatch
    upload_staging_key decimal validate_files outcomes_from preflight validate_file checked
    inspected matched normalize_original_filename resolve_extension_policy extension_of policy_of
    member find_policy canonicalize_declared_mime_type is_declared_mime_compatible
    signature_matches_policy detect_header_signature starts_with
key_is_new key h =
    subst (λ k. requests.find k (site_of first_run).requests ≡ none) (ok-injective "key-0002" key h)
      refl

answered_addition_example :
    HasAnswer tables posts requests listed_storage service
      (λ t. "")
      addition
      second
      (site_of first_run)
      (site_of second_run)
      (body_of (answer_of second_run))
answered_addition_example =
    answered_addition tables posts requests listed_storage service (λ t. "") addition (λ i. 3000)
      (λ i. "t2") 0 later_course (site_of first_run) (site_of second_run)
      (body_of (answer_of second_run)) key_is_new refl (λ s h. h) second_run-replied
