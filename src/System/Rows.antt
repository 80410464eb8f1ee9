-- ===== src/System/Rows.antt =====
-- Each call is a run of Processing/Lifecycle on the media row of each key.
use posts_media.Common.{
  ℕ, String, Text, ◌≡◌, ◌⊎◌, refl, ap, ◌∙◌, Bool, Option, some, List, [], ◌∷◌, ◌++◌, ◌==◌,
  string_eq, arith, Option-cases, Bool-cases, inl, inr,
}
use posts_media.Domain.Json.{Json}
use posts_media.Database.Table.{find-update_at, where_key}
use posts_media.Domain.Result.{returned, Try-cases}
use posts_media.Storage.{ObjectRef}
use posts_media.Schema.{Media, Tables, Db}
use posts_media.Schema.Keys.{AttemptKey}
use posts_media.Media.{
  CreateMediaWithDispatchInput, Retried, committed, refused, conflict, created_media, dispatch_of,
  initial_payload, retry_payload, create_with_dispatch, retry_tx, insert_media, insert_dispatch,
  retry_claimed,
}
use posts_media.Media.Writes.{inserted_dispatch, retry-claimed, retry-absent}
use posts_media.Processing.Message.{safe_processing_error_message}
use posts_media.Processing.Claims.{
  claim as claim_media, renew as renew_media, create_attempt, complete as complete_media,
  fail as fail_media,
}
use posts_media.Processing.Lifecycle.{Event, applies, written, step, run}
use posts_media.Processing.Publication.{ProcessedArtifact, Files, publish_tx}
use posts_media.System.{Call, perform, perform_all, kept, inserted, retried}

module _ (X : Tables) where
  -- the row of `k` under a statement for `id`: the event, or nothing
  updated-row :
      (id k : String) (e : Event) (s : X.media.State) (m : Media)
      → X.media.find k s ≡ some m
      → (es : List Event) × (X.media.find k
            (X.media.update_many (where_key id (applies e)) (written e) s).0
          ≡ some (run m es))
  unfolding run step
  updated-row id k e s m h = elim (Bool-cases (id == k)) [
    | inl same ↦ (e ∷ [], ground (arith, find-update_at X.media id k (applies e) (written e) s))
    | inr other ↦ ([], ground (arith, find-update_at X.media id k (applies e) (written e) s))
  ]

  -- what happened to the row of `k`, if there was one
  abbrev pub Steps : String → Db X → Db X → Type 0
  Steps k db db' =
      (m : Media)
      → X.media.find k db.media ≡ some m
      → (es : List Event) × (X.media.find k db'.media ≡ some (run m es))

  nothing_done : (k : String) (db db' : Db X) → db'.media ≡ db.media → Steps k db db'
  unfolding run
  nothing_done k db db' h m f = ([], ap (X.media.find k) h ∙ f)

  one_statement :
      (id k : String) (e : Event) (db db' : Db X)
      → db'.media ≡ (X.media.update_many (where_key id (applies e)) (written e) db.media).0
      → Steps k db db'
  one_statement id k e db db' h m f =
      let (es, g) = updated-row id k e db.media m f in (es, ap (X.media.find k) h ∙ g)

  complete-media :
      (id : String) (g : ℕ) (t a : String) (now : ℕ) (db : Db X)
      → (complete_media X id g t a now db).0.media
        ≡ (X.media.update_many
            (where_key id (applies (Event.complete g t now)))
            (written (Event.complete g t now))
            db.media).0
  unfolding complete_media
  complete-media id g t a now db = ground arith

  fail-media :
      (id : String) (g : ℕ) (t a : String) (final : Bool) (c m : Text) (now : ℕ) (db : Db X)
      → (fail_media X id g t a final c m now db).0.media
        ≡ (X.media.update_many
            (where_key id (applies (Event.fail g t final c (safe_processing_error_message m))))
            (written (Event.fail g t final c (safe_processing_error_message m)))
            db.media).0
  unfolding fail_media
  fail-media id g t a final c m now db = ground arith

  attempt-media :
      (id : String) (key : AttemptKey) (j p : String) (w : Option String) (db : Db X)
      → (create_attempt X id key j p w db).0.media ≡ db.media
  unfolding create_attempt
  attempt-media id key j p w db = ground arith

  publish-Steps :
      (files : Files) (id : String) (m : Media) (g : ℕ) (a t : String)
      (arts : List ProcessedArtifact) (finals : List ObjectRef) (metadata : Option Json) (now : ℕ)
      (k : String) (db db' : Db X) (b : Bool)
      → publish_tx X files id m g a t arts finals metadata now db ≡ returned (db', b)
      → db'.media
        ≡ (X.media.update_many
            (where_key id (applies (Event.publish g t metadata now)))
            (written (Event.publish g t metadata now))
            db.media).0
  unfolding publish_tx
  publish-Steps files id m g a t arts finals metadata now k db db' b h = ground arith

  insert_media-row :
      (id k : String) (row : Media) (db db' : Db X) (m : Media)
      → insert_media X id row db ≡ some db'
      → X.media.find k db.media ≡ some m
      → X.media.find k db'.media ≡ some m
  unfolding insert_media
  insert_media-row id k row db db' m h f = elim (Option-cases (X.media.create id row db.media)) [
    | inl taken ↦ ground arith
    | inr (s, created) ↦ ground (
      arith,
      X.media.find-create id k row db.media s,
      X.media.create_taken id row m db.media,
      string_eq.equals_iff id k,
    )
  ]

  create-Steps :
      (input : CreateMediaWithDispatchInput) (now : ℕ) (k : String) (db : Db X)
      → Steps k db (perform X (Call.create input now) db)
  unfolding perform create_with_dispatch run
  create-Steps input now k db m f =
      elim (Option-cases (insert_media X input.id (created_media input) db)) [
        | inl taken ↦ ([], ground arith)
        | inr (db₁, first) ↦
            elim (Option-cases
              (insert_dispatch X input.dispatch_id (dispatch_of (initial_payload input) now) db₁)) [
                | inl taken ↦ ([], ground arith)
                | inr (db₂, second) ↦ (
                  [],
                  ground (
                    arith,
                    insert_media-row input.id k (created_media input) db db₁ m first f,
                    inserted_dispatch X input.dispatch_id (dispatch_of (initial_payload input) now)
                        db₁ db₂ second,
                  ),
                )
              ]
      ]

  retry_claimed-media :
      (id dispatch_id : String) (current : Media) (now : ℕ) (db db' : Db X) (u : Option Media)
      → retry_claimed X id dispatch_id current now db ≡ committed db' u
      → db'.media
        ≡ (X.media.update_many
            (where_key id (applies (Event.retry current.processing_generation)))
            (written (Event.retry current.processing_generation))
            db.media).0
  unfolding retry_claimed
  retry_claimed-media id dispatch_id current now db db' u h =
      let media =
        (X.media.update_many (where_key id (applies (Event.retry current.processing_generation)))
          (written (Event.retry current.processing_generation)) db.media).0 in
      elim (Option-cases (
        insert_dispatch X dispatch_id (dispatch_of (retry_payload dispatch_id id current) now)
          (record db { media = media }))) [
            | inl taken ↦ ground arith
            | inr (db₂, inserted) ↦ ground (
              arith,
              inserted_dispatch X dispatch_id
                  (dispatch_of (retry_payload dispatch_id id current) now)
                  (record db { media = media }) db₂ inserted,
            )
          ]

  Retried-cases :
      (r : Retried X)
      → ((db' : Db X) × ((u : Option Media) × (r ≡ committed db' u)))
        ⊎ ((db : Db X) → retried X db r ≡ db)
  Retried-cases (committed db' u) = inl (db', (u, refl))
  Retried-cases (refused e) = inr (λ db. refl)
  Retried-cases conflict = inr (λ db. refl)

  retry-Steps :
      (id dispatch_id : String) (now : ℕ) (k : String) (db : Db X)
      → Steps k db (retried X db (retry_tx X id dispatch_id now db))
  retry-Steps id dispatch_id now k db = elim (Retried-cases (retry_tx X id dispatch_id now db)) [
    | inr none_done ↦
        nothing_done k db (retried X db (retry_tx X id dispatch_id now db))
          (ap (λ (d : Db X). d.media) (none_done db))
    | inl (db', (u, done)) ↦ elim (Option-cases (X.media.find id db.media)) [
      | inl absent ↦
          nothing_done k db (retried X db (retry_tx X id dispatch_id now db))
            (ap (λ r. (retried X db r).media) (retry-absent X id dispatch_id now db absent))
      | inr (current, found) ↦
          one_statement id k (Event.retry current.processing_generation) db
            (retried X db (retry_tx X id dispatch_id now db))
            (ap (λ r. (retried X db r).media) done
              ∙ retry_claimed-media id dispatch_id current now db db' u
                  (retry-claimed X id dispatch_id now db db' u current found done).1)
    ]
  ]

  pub perform-Steps : (c : Call) (k : String) (db : Db X) → Steps k db (perform X c db)
  unfolding perform claim_media renew_media
  perform-Steps (Call.claim id g j l t now) k db =
      one_statement id k (Event.claim g j l t now) db (perform X (Call.claim id g j l t now) db)
        refl
  perform-Steps (Call.renew id g t l now) k db =
      one_statement id k (Event.renew g t l now) db (perform X (Call.renew id g t l now) db) refl
  perform-Steps (Call.attempt id key j p w) k db =
      nothing_done k db (create_attempt X id key j p w db).0 (attempt-media id key j p w db)
  perform-Steps (Call.complete id g t a now) k db =
      one_statement id k (Event.complete g t now) db (complete_media X id g t a now db).0
        (complete-media id g t a now db)
  perform-Steps (Call.fail id g t a final c m now) k db =
      one_statement id k (Event.fail g t final c (safe_processing_error_message m)) db
        (fail_media X id g t a final c m now db).0 (fail-media id g t a final c m now db)
  perform-Steps (Call.publish files id m g a t arts finals metadata now) k db =
      elim (Try-cases (publish_tx X files id m g a t arts finals metadata now db)) [
        | inl (e, h) ↦
            nothing_done k db
              (kept X db (publish_tx X files id m g a t arts finals metadata now db))
              (ap (λ r. (kept X db r).media) h)
        | inr ((db', b), h) ↦
            one_statement id k (Event.publish g t metadata now) db
              (kept X db (publish_tx X files id m g a t arts finals metadata now db))
              (ap (λ r. (kept X db r).media) h
                ∙ publish-Steps files id m g a t arts finals metadata now k db db' b h)
      ]
  perform-Steps (Call.create input now) k db = create-Steps input now k db
  perform-Steps (Call.retry id dispatch_id now) k db = retry-Steps id dispatch_id now k db

  run-append : (m : Media) (es fs : List Event) → run (run m es) fs ≡ run m (es ++ fs)
  unfolding run
  run-append m [] fs = refl
  run-append m (e ∷ es) fs = run-append (step m e) es fs

  -- whatever is called, the row of a key goes through a run of events
  pub perform_all-Steps :
      (cs : List Call) (k : String) (db : Db X) → Steps k db (perform_all X cs db)
  unfolding perform_all run
  perform_all-Steps [] k db m f = ([], f)
  perform_all-Steps (c ∷ cs) k db m f =
      let (es, g) = perform-Steps c k db m f in
      let (fs, h) = perform_all-Steps cs k (perform X c db) (run m es) g in
      (es ++ fs, h ∙ ap some (run-append m es fs))
