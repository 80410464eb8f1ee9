-- ===== src/Processing/Publication/Effects.antt =====
-- What a publication leaves in the database and in the storage.
use posts_media.Common.{
  ℕ, String, Text, ◌≡◌, Bool, true, false, Option, List, [], string_eq, nat_eq, arith, beq_refl,
}
use posts_media.Domain.Json.{Json}
use posts_media.Domain.Result.{Try, returned, thrown}
use posts_media.Database.Table.{where_key, count-update_key, find-update_key}
use posts_media.Storage.{ObjectRef, ObjectStorage, Buckets, ref_eq}
use posts_media.Schema.{Media, Tables, Db, SameRows}
use posts_media.Processing.Row.{lease_where, publish_data}
use posts_media.Processing.Publication.{
  ProcessedArtifact, Files, Uploads, upload_all, publish_tx, publish, after_tx, compensate,
  record_variants,
}

module _ (X : Tables) (files : Files) (media_id : String) (media : Media) (generation : ℕ)
    (attempt_id lease_token : String) (artifacts : List ProcessedArtifact) (finals : List ObjectRef)
    (metadata : Option Json) (now : ℕ) (db : Db X) where
  abbrev tx : Try (Db X × Bool)
  tx =
      publish_tx X files media_id media generation attempt_id lease_token artifacts finals metadata
        now db

  pub tx-refused : (db' : Db X) → tx ≡ returned (db', false) → SameRows X db' db
  unfolding publish_tx
  tx-refused db' h = record {
    media = λ k. ground (
      arith,
      count-update_key X.media media_id (lease_where generation lease_token)
          (publish_data metadata now) db.media,
      find-update_key X.media media_id k (lease_where generation lease_token)
          (publish_data metadata now) db.media,
      string_eq.equals_iff media_id k,
      beq_refl media_id,
    );
    variants = ground arith;
    attempts = ground arith;
    dispatches = ground arith;
  }

  pub tx-accepted :
      (db' : Db X)
      → tx ≡ returned (db', true)
      → (db'.media
          ≡ (X.media.update_many
              (where_key media_id (lease_where generation lease_token))
              (publish_data metadata now)
              db.media).0)
        × (((X.media.update_many
                (where_key media_id (lease_where generation lease_token))
                (publish_data metadata now)
                db.media).1
              ≡ 1)
            × (record_variants X files media_id media artifacts finals db.variants
                ≡ returned db'.variants))
  unfolding publish_tx
  tx-accepted db' h = ground arith

module _ (X : Tables) (O : ObjectStorage) (buckets : Buckets) (files : Files) (media_id : String)
    (media : Media) (generation : ℕ) (attempt_id lease_token : String)
    (artifacts : List ProcessedArtifact) (metadata : Option Json) (now : ℕ) (db : Db X)
    (objects : O.State) where
  abbrev pub start : Uploads O.State
  start = record { objects = objects; temporary = []; finals = []; outcome = returned tt }

  abbrev pub uploaded : Uploads O.State
  uploaded = upload_all O buckets files media_id media generation attempt_id artifacts start

  abbrev pub publication : Db X × O.State × Try (Unit {0})
  publication =
      publish X O buckets files media_id media generation attempt_id lease_token artifacts metadata
        now db objects

  abbrev pub committed : Try (Db X × Bool)
  committed =
      publish_tx X files media_id media generation attempt_id lease_token artifacts uploaded.finals
        metadata now db

  -- the run after the loop
  pub publish-uploaded :
      uploaded.outcome ≡ returned tt
      → publication ≡ after_tx X O buckets files db uploaded committed
  unfolding publish
  publish-uploaded h = ground arith

  pub publish-not_uploaded :
      (e : Text)
      → uploaded.outcome ≡ thrown e
      → publication ≡ (db, compensate X O buckets files uploaded, thrown e)
  unfolding publish
  publish-not_uploaded e h = ground arith
