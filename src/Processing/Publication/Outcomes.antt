-- ===== src/Processing/Publication/Outcomes.antt =====
-- What `publish` of apps/worker/src/processing/variant-publication.service.ts returns and leaves.
use mathlib.Core.Path.{subst}
use posts_media.Common.{
  ℕ, String, Text, ◌≡◌, refl, sym, ap, ◌∙◌, Bool, true, false, Option, some, List, string_eq,
  nat_eq, arith, inl, inr, All, All-imp, map,
}
use posts_media.Domain.Json.{Json}
use posts_media.Domain.Result.{Try, returned, thrown, Try-cases}
use posts_media.Database.Table.{count_is_one, count-one}
use posts_media.Storage.{ObjectStorage, Buckets, listed, ref_eq, processed_attempt_key}
use posts_media.Schema.{Media, Tables, Db, SameRows}
use posts_media.Processing.Row.{lease_where, publish_data}
use posts_media.Processing.Publication.{
  ProcessedArtifact, Files, Uploads, after_tx, record_variants,
}
use posts_media.Processing.Publication.Uploading.{
  all-finals, all-temps, temps-other, All-holds, HasBuckets, final,
}
use posts_media.Processing.Publication.Effects.{
  tx-refused, tx-accepted, start, uploaded, publication, committed, publish-uploaded,
  publish-not_uploaded,
}

module _ (X : Tables) (O : ObjectStorage) (buckets : Buckets) (files : Files) (media_id : String)
    (media : Media) (generation : ℕ) (attempt_id lease_token : String)
    (artifacts : List ProcessedArtifact) (metadata : Option Json) (now : ℕ) (db : Db X)
    (objects : O.State) where
  abbrev pub run : Db X × O.State × Try (Unit {0})
  run =
      publication X O buckets files media_id media generation attempt_id lease_token artifacts
        metadata now db objects

  abbrev pub loop : Uploads O.State
  loop =
      uploaded X O buckets files media_id media generation attempt_id lease_token artifacts metadata
        now db objects

  abbrev pub tx : Try (Db X × Bool)
  tx =
      committed X O buckets files media_id media generation attempt_id lease_token artifacts
        metadata now db objects

  same_rows : (a : Db X) → a ≡ db → SameRows X a db
  same_rows a h = record {
    media = λ k. ap (λ d. X.media.find k d.media) h;
    variants = ap (λ d. d.variants) h;
    attempts = ap (λ d. d.attempts) h;
    dispatches = ap (λ d. d.dispatches) h;
  }

  -- A publication that throws, for whatever reason, leaves every media row, the variants, the
  -- attempts and the dispatches as they were.
  pub failed-SameRows : (e : Text) → run.2 ≡ thrown e → SameRows X run.0 db
  unfolding after_tx
  failed-SameRows e h = elim (Try-cases loop.outcome) [
    | inl (f, t) ↦ same_rows run.0 (
        ap (λ r. r.0)
          (publish-not_uploaded X O buckets files media_id media generation attempt_id lease_token
            artifacts metadata now db objects f t))
    | inr (done, t) ↦
        let after =
          publish-uploaded X O buckets files media_id media generation attempt_id lease_token
            artifacts metadata now db objects t in
        elim (Try-cases tx) [
          | inl (f, c) ↦ same_rows run.0 (ground (arith, after))
          | inr ((db', true), c) ↦ ground (arith, after)
          | inr ((db', false), c) ↦
              subst (λ d. SameRows X d db) (sym (ground (arith, after)))
                (tx-refused X files media_id media generation attempt_id lease_token artifacts
                  loop.finals metadata now db db' c)
        ]
  ]

  -- a successful run: the loop's end, and the transaction's commit
  returned-cases :
      run.2 ≡ returned tt
      → (loop.outcome ≡ returned tt)
        × ((db' : Db X) × ((tx ≡ returned (db', true))
              × ((run.0 ≡ db') × (run.1 ≡ (O.remove_many loop.temporary loop.objects).0))))
  unfolding after_tx
  returned-cases h = elim (Try-cases loop.outcome) [
    | inl (f, t) ↦ ground (
      arith,
      publish-not_uploaded X O buckets files media_id media generation attempt_id lease_token
          artifacts metadata now db objects f t,
    )
    | inr (done, t) ↦
        let after =
          publish-uploaded X O buckets files media_id media generation attempt_id lease_token
            artifacts metadata now db objects t in
        elim (Try-cases tx) [
          | inl (f, c) ↦ ground (arith, after)
          | inr ((db', false), c) ↦ ground (arith, after)
          | inr ((db', true), c) ↦ (t, (db', (c, (ground (arith, after), ground (arith, after)))))
        ]
  ]

  pub published_row :
      run.2 ≡ returned tt
      → (m : Media) × ((X.media.find media_id db.media ≡ some m)
          × ((lease_where generation lease_token m ≡ true)
              × (X.media.find media_id run.0.media ≡ some (publish_data metadata now m))))
  published_row h =
      let (t, (db', (c, (d, o)))) = returned-cases h in
      let (rows, (count, variants)) =
        tx-accepted X files media_id media generation attempt_id lease_token artifacts loop.finals
          metadata now db db' c in
      let (m, (found, (guarded, written))) =
        count-one X.media media_id (lease_where generation lease_token) (publish_data metadata now)
          db.media (ap count_is_one count) in
      (
        m,
        (
          found,
          (
            guarded,
            ap (λ (e : Db X). X.media.find media_id e.media) d
                ∙ ap (X.media.find media_id) rows
                ∙ written,
          ),
        ),
      )

  pub published_variants :
      run.2 ≡ returned tt
      → record_variants X files media_id media artifacts
          (map (final O buckets files media_id media generation attempt_id) artifacts)
          db.variants
        ≡ returned run.0.variants
  published_variants h =
      let (t, (db', (c, (d, o)))) = returned-cases h in
      let (rows, (count, variants)) =
        tx-accepted X files media_id media generation attempt_id lease_token artifacts loop.finals
          metadata now db db' c in
      ap (λ l. record_variants X files media_id media artifacts l db.variants)
        (sym (
          all-finals O buckets files media_id media generation attempt_id artifacts
            (start X O buckets files media_id media generation attempt_id lease_token artifacts
              metadata now db objects)
            t))
      ∙ variants
      ∙ ap (λ (e : Db X). returned e.variants) (sym d)

  pub published_objects :
      HasBuckets O buckets files media_id media generation attempt_id
      → run.2 ≡ returned tt
      → All
          (λ a. O.holds (final O buckets files media_id media generation attempt_id a) run.1 ≡ true)
          artifacts
  unfolding processed_attempt_key
  published_objects apart h =
      let (t, (db', (c, (d, o)))) = returned-cases h in
      let begin =
        start X O buckets files media_id media generation attempt_id lease_token artifacts metadata
          now db objects in
      subst
        (λ s.
          All (λ a. O.holds (final O buckets files media_id media generation attempt_id a) s ≡ true)
            artifacts)
        (sym o)
        (All-imp
          (λ a there.
            O.remove_many-other loop.temporary
              (final O buckets files media_id media generation attempt_id a) loop.objects
              (subst
                (λ l.
                  listed (final O buckets files media_id media generation attempt_id a) l ≡ false)
                (sym (
                  all-temps O buckets files media_id media generation attempt_id artifacts begin t))
                (temps-other O buckets files media_id media generation attempt_id apart artifacts
                  (final O buckets files media_id media generation attempt_id a) refl))
            ∙ there)
          artifacts
          (All-holds O buckets files media_id media generation attempt_id apart artifacts begin t))
