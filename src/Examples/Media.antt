-- ===== src/Examples/Media.antt =====
-- Claims, leases and retries of the image.
use posts_media.Common.{
  ◌≡◌, refl, true, false, none, some, List, [], ◌∷◌, codes, arith, string_eq, eq_iff, ◌≤◌,
}
use posts_media.Domain.Enums.{MediaType, ProcessingStatus}
use posts_media.Domain.Result.{returned}
use posts_media.Schema.{Media, Db, SameRows}
use posts_media.Processing.Row.{retry_data}
use posts_media.Processing.Lifecycle.{Event, run, step}
use posts_media.Processing.Lifecycle.Invariant.{IsConsistent}
use posts_media.Processing.Lifecycle.Fencing.{lease_exclusive, retry_fences}
use posts_media.Processing.Claims.{claim, renew, complete, fail}
use posts_media.Processing.Claims.Stale.{claim_excludes, claim_shuts_out}
use posts_media.Media.{
  create_with_dispatch, insert_media, insert_dispatch, retry_tx, retry_claimed, committed,
  dispatch_of, initial_payload, retry_payload,
}
use posts_media.Media.Writes.{IsAccepted, created-IsAccepted, retried-IsAccepted}
use posts_media.System.{Call, perform_all}
use posts_media.System.Invariants.{calls_keep}
use posts_media.Examples.World.{
  tables, photo, photo_input, leased_photo, failed_photo, db_with, db_empty,
}

leased_photo-IsConsistent : IsConsistent leased_photo
leased_photo-IsConsistent = ground arith

photo-IsConsistent : IsConsistent photo
photo-IsConsistent = ground arith

abbrev late_calls : List Call
late_calls =
    Call.claim "m1" 1 "job" 60 "t1" 1000
    ∷ Call.complete "m1" 1 "t0" "a1" 2000
    ∷ Call.complete "m1" 1 "t1" "a1" 3000
    ∷ []

calls_keep_example :
    (n : Media) × (tables.media.find "m1" (perform_all tables late_calls (db_with photo)).media
      ≡ some n)
    × IsConsistent n
    × (photo.processing_generation ≤ n.processing_generation)
    × (photo.processing_status ≡ ProcessingStatus.completed → n ≡ photo)
calls_keep_example = calls_keep tables late_calls "m1" (db_with photo) photo refl photo-IsConsistent

abbrev granted_db : Db tables
granted_db = (claim tables "m1" 1 "job" 60 "t1" 1000 (db_with photo)).0

granted : (claim tables "m1" 1 "job" 60 "t1" 1000 (db_with photo)).1 ≡ returned (some leased_photo)
unfolding claim
granted = refl

claim_excludes_example :
    ((claim tables "m1" 1 "job" 60 "t2" 60999 granted_db).1 ≡ returned none)
    × SameRows tables (claim tables "m1" 1 "job" 60 "t2" 60999 granted_db).0 granted_db
claim_excludes_example =
    claim_excludes tables "m1" 1 "job" 60 "t1" 1000 (db_with photo) leased_photo 1 "job" "t2" 60
      60999 granted (omega arith)

claim_shuts_out_example :
    let r = renew tables "m1" 1 "t0" 60 2000 granted_db in
    let c = complete tables "m1" 1 "t0" "a0" 2000 granted_db in
    let f = fail tables "m1" 1 "t0" "a0" true (codes "E") (codes "M") 2000 granted_db in
    ((r.1 ≡ false) × SameRows tables r.0 granted_db)
    × ((c.1 ≡ false) × SameRows tables c.0 granted_db)
    × ((f.1 ≡ false) × SameRows tables f.0 granted_db)
claim_shuts_out_example =
    claim_shuts_out tables "m1" 1 "job" 60 "t1" 1000 (db_with photo) leased_photo 1 "t0" "a0" 60
      2000 true (codes "E") (codes "M") granted (ground (arith, eq_iff "t0" "t1"))

abbrev foreign_events : List Event
foreign_events = Event.claim 1 "job" 60 "t2" 60000 ∷ Event.complete 1 "t2" 2000 ∷ Event.retry 1 ∷ []

lease_exclusive_example : run leased_photo foreign_events ≡ leased_photo
lease_exclusive_example =
    lease_exclusive leased_photo "t1" 61000 foreign_events leased_photo-IsConsistent refl refl
      (omega arith, (ground (arith, eq_iff "t2" "t1"), (tt, tt)))

retry_fences_example :
    let after = run (step failed_photo (Event.retry 1)) (Event.claim 2 "job" 60 "t2" 1000 ∷ []) in
    step after (Event.complete 1 "t1" 2000) ≡ after
retry_fences_example =
    retry_fences failed_photo (Event.claim 2 "job" 60 "t2" 1000 ∷ []) (Event.complete 1 "t1" 2000)
      refl (omega arith)

abbrev created_db : Db tables
created_db = record {
  media = ("m1", photo) ∷ [];
  variants = [];
  attempts = [];
  dispatches = ("d1", dispatch_of (initial_payload photo_input) 1000) ∷ [];
}

created : create_with_dispatch tables photo_input 1000 db_empty ≡ some (created_db, photo)
unfolding create_with_dispatch insert_media insert_dispatch
created = refl

created-IsAccepted_example :
    (tables.media.find "m1" created_db.media ≡ some photo)
    × IsConsistent photo
    × IsAccepted tables "d1" "m1" 1 MediaType.image created_db
created-IsAccepted_example =
    created-IsAccepted tables photo_input 1000 db_empty created_db photo created

abbrev retried_db : Db tables
retried_db = record {
  media = ("m1", retry_data 2 failed_photo) ∷ [];
  variants = [];
  attempts = [];
  dispatches = ("d2", dispatch_of (retry_payload "d2" "m1" failed_photo) 7000) ∷ [];
}

retried :
    retry_tx tables "m1" "d2" 7000 (db_with failed_photo)
    ≡ committed retried_db (some (retry_data 2 failed_photo))
unfolding retry_tx retry_claimed insert_dispatch
retried = refl

retried-IsAccepted_example :
    (failed_photo.processing_status ≡ ProcessingStatus.failed)
    × (tables.media.find "m1" retried_db.media ≡ some (retry_data 2 failed_photo))
    × IsAccepted tables "d2" "m1" 2 MediaType.image retried_db
retried-IsAccepted_example =
    retried-IsAccepted tables "m1" "d2" 7000 (db_with failed_photo) retried_db
      (some (retry_data 2 failed_photo)) failed_photo refl refl retried
