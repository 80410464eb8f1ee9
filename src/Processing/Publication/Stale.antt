-- ===== src/Processing/Publication/Stale.antt =====
-- A publication that finds its lease gone: the compensation of
-- apps/worker/src/processing/variant-publication.service.ts
use mathlib.Core.Path.{subst}
use posts_media.Common.{
  ℕ, String, ◌≡◌, refl, sym, ap, ◌∙◌, Bool, true, false, Option, some, List, ◌++◌, string_eq,
  nat_eq, arith, All, All-imp, map,
}
use posts_media.Domain.Json.{Json}
use posts_media.Domain.Result.{Try, returned, thrown}
use posts_media.Database.Table.{where_key, count-missed}
use posts_media.Storage.{ObjectRef, ObjectStorage, Buckets, listed, ref_eq, processed_attempt_key}
use posts_media.Schema.{Media, Tables, Db}
use posts_media.Processing.Row.{lease_where, publish_data}
use posts_media.Processing.Publication.{
  ProcessedArtifact, Files, Uploads, publish_tx, after_tx, compensate, lease_lost, record_variants,
}
use posts_media.Processing.Publication.Uploading.{
  all-finals, all-temps, temps-other, finals-listed, HasBuckets, final,
}
use posts_media.Processing.Publication.Effects.{start, publish-uploaded}
use posts_media.Processing.Publication.Outcomes.{
  run, loop, tx, published_row, published_variants, failed-SameRows,
}

module _ (X : Tables) (O : ObjectStorage) (buckets : Buckets) (files : Files) (media_id : String)
    (media : Media) (generation : ℕ) (attempt_id lease_token : String)
    (artifacts : List ProcessedArtifact) (metadata : Option Json) (now : ℕ) (db : Db X)
    (objects : O.State) where
  abbrev lost_run : Db X × O.State × Try (Unit {0})
  lost_run =
      run X O buckets files media_id media generation attempt_id lease_token artifacts metadata now
        db objects

  abbrev lost_loop : Uploads O.State
  lost_loop =
      loop X O buckets files media_id media generation attempt_id lease_token artifacts metadata now
        db objects

  abbrev lost_tx : Try (Db X × Bool)
  lost_tx =
      tx X O buckets files media_id media generation attempt_id lease_token artifacts metadata now
        db objects

  abbrev target : ProcessedArtifact → ObjectRef
  target = final O buckets files media_id media generation attempt_id

  -- no row under the id meets the clause of the transaction
  abbrev pub IsLost : Type 0
  IsLost =
      (m : Media)
      → X.media.find media_id db.media ≡ some m
      → lease_where generation lease_token m ≡ false

  lost-tx : IsLost → (db' : Db X) × (lost_tx ≡ returned (db', false))
  unfolding publish_tx
  lost-tx lost =
      let missed =
        count-missed X.media media_id (lease_where generation lease_token)
          (publish_data metadata now) db.media lost in
      (
        record db {
          media =
              (X.media.update_many (where_key media_id (lease_where generation lease_token))
                (publish_data metadata now) db.media).0;
        },
        rw missed refl,
      )

  lost-run :
      IsLost
      → lost_loop.outcome ≡ returned tt
      → (lost_run.2 ≡ thrown lease_lost) × (lost_run.1 ≡ compensate X O buckets files lost_loop)
  unfolding after_tx
  lost-run lost t =
      let (db', c) = lost-tx lost in
      let after =
        publish-uploaded X O buckets files media_id media generation attempt_id lease_token
          artifacts metadata now db objects t in
      ground (arith, after)

  pub lost_removes :
      HasBuckets O buckets files media_id media generation attempt_id
      → IsLost
      → lost_loop.outcome ≡ returned tt
      → (O.remove_many (lost_loop.temporary ++ lost_loop.finals) lost_loop.objects).1 ≡ true
      → (lost_run.2 ≡ thrown lease_lost)
        × All (λ a. O.holds (target a) lost_run.1 ≡ false) artifacts
  unfolding compensate processed_attempt_key
  lost_removes apart lost t removed =
      let (refused, o) = lost-run lost t in
      let begin =
        start X O buckets files media_id media generation attempt_id lease_token artifacts metadata
          now db objects in
      let temps =
        all-temps O buckets files media_id media generation attempt_id artifacts begin t in
      let finals =
        all-finals O buckets files media_id media generation attempt_id artifacts begin t in
      (
        refused,
        subst (λ s. All (λ a. O.holds (target a) s ≡ false) artifacts) (sym o)
            (All-imp
              (λ a there.
                O.remove_many-other lost_loop.temporary (target a)
                  (O.remove_many (lost_loop.temporary ++ lost_loop.finals) lost_loop.objects).0
                  (subst (λ l. listed (target a) l ≡ false) (sym temps)
                    (temps-other O buckets files media_id media generation attempt_id apart
                      artifacts (target a) refl))
                ∙ O.remove_many-gone (lost_loop.temporary ++ lost_loop.finals) (target a)
                    lost_loop.objects removed
                    (subst (λ l. listed (target a) (lost_loop.temporary ++ l) ≡ true) (sym finals)
                      there))
              artifacts
              (finals-listed O buckets files media_id media generation attempt_id artifacts
                lost_loop.temporary)),
      )

module _ (X : Tables) (O : ObjectStorage) (buckets : Buckets) (files : Files) (media_id : String)
    (media : Media) (generation : ℕ) (attempt_id : String) (artifacts : List ProcessedArtifact)
    (metadata : Option Json) where
  abbrev publish_with : String → ℕ → Db X → O.State → Db X × O.State × Try (Unit {0})
  publish_with lease_token now db objects =
      run X O buckets files media_id media generation attempt_id lease_token artifacts metadata now
        db objects

  abbrev stale_loop : String → ℕ → Db X → O.State → Uploads O.State
  stale_loop lease_token now db objects =
      loop X O buckets files media_id media generation attempt_id lease_token artifacts metadata now
        db objects

  abbrev published_ref : ProcessedArtifact → ObjectRef
  published_ref = final O buckets files media_id media generation attempt_id

  lease_spent :
      (token stale : String) (now later : ℕ) (db : Db X) (objects objects' : O.State)
      → (publish_with token now db objects).2 ≡ returned tt
      → IsLost X O buckets files media_id media generation attempt_id stale artifacts metadata later
          (publish_with token now db objects).0
          objects'
  lease_spent token stale now later db objects objects' h m found =
      let (r, (was, (held, new))) =
        published_row X O buckets files media_id media generation attempt_id token artifacts
          metadata now db objects h in
      ground arith

  -- Where the buckets are apart: after a publication that succeeded, another publication of the
  -- same attempt that uploads its artifacts and then finds the lease gone leaves the rows of the
  -- variants as the first wrote them, and, if its removal succeeds, none of the objects that they
  -- name.
  pub stale_publication_removes :
      (token stale : String) (now later : ℕ) (db : Db X) (objects objects' : O.State)
      → HasBuckets O buckets files media_id media generation attempt_id
      → (publish_with token now db objects).2 ≡ returned tt
      → (stale_loop stale later (publish_with token now db objects).0 objects').outcome
        ≡ returned tt
      → (let u = stale_loop stale later (publish_with token now db objects).0 objects' in
          (O.remove_many (u.temporary ++ u.finals) u.objects).1)
        ≡ true
      → (record_variants X files media_id media artifacts (map published_ref artifacts) db.variants
          ≡ returned
              (publish_with stale later (publish_with token now db objects).0 objects').0.variants)
        × All
            (λ a.
              O.holds
                (published_ref a)
                (publish_with stale later (publish_with token now db objects).0 objects').1
              ≡ false)
            artifacts
  stale_publication_removes token stale now later db objects objects' apart h t removed =
      let (refused, gone) =
        lost_removes X O buckets files media_id media generation attempt_id stale artifacts metadata
          later (publish_with token now db objects).0 objects' apart
          (lease_spent token stale now later db objects objects' h) t removed in
      let same =
        failed-SameRows X O buckets files media_id media generation attempt_id stale artifacts
          metadata later (publish_with token now db objects).0 objects' lease_lost refused in
      (
        published_variants X O buckets files media_id media generation attempt_id token artifacts
              metadata now db objects h
            ∙ ap returned (sym same.variants),
        gone,
      )
