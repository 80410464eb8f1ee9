-- ===== src/Posts/AddMedia/Added.antt =====
-- What adding media leaves in the tables and in the storage.
use mathlib.Core.Path.{subst}
use posts_media.Common.{
  ℕ, ◌<◌, String, ◌≡◌, refl, sym, ap, ◌∙◌, true, false, some, List, [], ◌∷◌, ◌==◌, All, ◌≢◌,
  string_eq, arith, Option-cases, Bool-cases, inl, inr,
}
use posts_media.Domain.Json.{Json}
use posts_media.Domain.Result.{replied}
use posts_media.Database.Table.{Table}
use posts_media.Storage.{ObjectRef, ObjectStorage}
use posts_media.Schema.{Media, Tables, Db}
use posts_media.Idempotency.{IdempotencyRequest}
use posts_media.Validation.Uploads.{FileValidationOutcome, FileValidationError, ValidatedUpload}
use posts_media.Posts.{Post}
use posts_media.Posts.Presenter.{MediaRow}
use posts_media.Posts.Promotion.{
  Item, Promotion, items_of, validated_uploads, errors_of, insert_all, promoted_from,
}
use posts_media.Posts.Promotion.Stored.{original, HasOriginals, promoted_from-holds}
use posts_media.Posts.Promotion.Inserted.{AllStored, rows_of, inserted-AllStored, Grows}
use posts_media.Posts.Requests.{Site, Service, Course}
use posts_media.Posts.Requests.Answered.{KeepOriginals, before_tx, concluded-replied}
use posts_media.Posts.AddMedia.{
  AddPostMediaCommand, starting_sort_order, response_dto, response_json, add_tx, sent, judged,
  added_with,
}

module _ (X : Tables) (P : Table String Post) (I : Table String IdempotencyRequest)
    (O : ObjectStorage) (service : Service) (string_of : List ℕ → String) (c : Course X P I O)
    (command : AddPostMediaCommand) where
  abbrev pub original_of : Item → ObjectRef
  original_of = original O service.buckets command.request_id command.post_id

  abbrev pub start_of : Db X → ℕ
  start_of db =
      starting_sort_order
        (X.media.maximum (λ id m. m.post_id == command.post_id) (λ m. m.sort_order) db.media)

  -- every media row of the post comes before the sort order
  abbrev pub AllBefore : ℕ → Db X → Type 0
  AllBefore start db =
      (k : String) (m : Media)
      → X.media.find k db.media ≡ some m
      → m.post_id ≡ command.post_id
      → m.sort_order < start

  start_of-AllBefore : (db : Db X) → AllBefore (start_of db) db
  start_of-AllBefore db k m found of_post =
      let (n, (greatest, le)) =
        X.media.maximum-le (λ id m. m.post_id == command.post_id) (λ m. m.sort_order) db.media k m
          found ((string_eq.equals_iff m.post_id command.post_id).1 of_post) in
      rw greatest (omega (arith, le))

  abbrev pub body_of : List FileValidationError → List MediaRow → Json
  body_of errors ms =
      response_json X P I O service string_of c command
        (response_dto X P I O service string_of c command errors ms)

  -- the transaction, statement by statement
  added_tx :
      (key : String) (errors : List FileValidationError) (is : List Item)
      (promoted : List ObjectRef) (t s' : Site X P I O) (body : Json)
      → sent X P I O service string_of c command
          (add_tx X P I O service string_of c command key errors is promoted t)
        ≡ some (s', body)
      → (ms : List MediaRow) × (insert_all X command.post_id c.now (start_of t.db) is promoted t.db
          ≡ some (s'.db, ms))
        × (body ≡ body_of errors ms)
        × (s'.objects ≡ t.objects)
        × (s'.posts ≡ t.posts)
  unfolding add_tx
  added_tx key errors is promoted t s' body h =
      elim (Option-cases (insert_all X command.post_id c.now (start_of t.db) is promoted t.db)) [
        | inl failed ↦ ground arith
        | inr ((db, ms), inserted) ↦ elim (Bool-cases c.commits) [
          | inr lost ↦ ground arith
          | inl committed ↦ (ms, ground arith, ground arith, ground arith, ground arith)
        ]
      ]

  -- the media in the order of the uploads after those of the post, their dispatches, and their
  -- originals; the rows that were there, and the posts, are kept
  abbrev pub HasMedia :
      List FileValidationError → List Item → Site X P I O → Site X P I O → Json → Type 0
  HasMedia errors is t s' body =
      AllBefore (start_of t.db) t.db
      × AllStored X command.post_id original_of (start_of t.db) is s'.db
      × Grows X t.db s'.db
      × (s'.posts ≡ t.posts)
      × All (λ i. O.holds (original_of i) s'.objects ≡ true) is
      × (body ≡ body_of errors (rows_of X command.post_id original_of (start_of t.db) is))

  added_and_stored :
      HasOriginals O service.buckets command.request_id command.post_id
      → (key : String) (errors : List FileValidationError) (is : List Item) (p : Promotion O.State)
        (s s' : Site X P I O) (body : Json)
      → KeepOriginals X P I O service c original_of is
      → p ≡ promoted_from O service.buckets command.request_id command.post_id is s.objects
      → p.failed ≡ false
      → sent X P I O service string_of c command (
          add_tx X P I O service string_of c command key errors is p.promoted
            (before_tx X P I O service c p s))
        ≡ some (s', body)
      → HasMedia errors is (before_tx X P I O service c p s) s' body
  added_and_stored apart key errors is p s s' body keep is_p kept made =
      let t = before_tx X P I O service c p s in
      let start = start_of t.db in
      let (ms, rows, bodies, objects, posts) = added_tx key errors is p.promoted t s' body made in
      let (listed, held) =
        promoted_from-holds O service.buckets command.request_id command.post_id apart is p
          s.objects is_p kept in
      let (grows, stored, is_rows) =
        inserted-AllStored X command.post_id original_of c.now start is t.db s'.db ms (
          subst (λ l. insert_all X command.post_id c.now start is l t.db ≡ some (s'.db, ms)) listed
            rows) in
      (
        start_of-AllBefore t.db,
        stored,
        grows,
        posts,
        subst (λ o. All (λ i. O.holds (original_of i) o ≡ true) is) (sym objects)
            (keep (record s { objects = p.objects }) held),
        bodies ∙ ap (body_of errors) is_rows,
      )

  abbrev pub site_of : List FileValidationOutcome → Site X P I O → Site X P I O
  site_of outcomes s =
      let is = items_of c.media_ids c.dispatch_ids 0 (validated_uploads outcomes) in
      before_tx X P I O service c
        (promoted_from O service.buckets command.request_id command.post_id is s.objects) s

  judged-replied :
      HasOriginals O service.buckets command.request_id command.post_id
      → (key : String) (uploads : List ValidatedUpload) (errors : List FileValidationError)
        (s s' : Site X P I O) (body : Json)
      → KeepOriginals X P I O service c original_of (items_of c.media_ids c.dispatch_ids 0 uploads)
      → judged X P I O service string_of c command key uploads errors s ≡ (s', replied body)
      → let is = items_of c.media_ids c.dispatch_ids 0 uploads in
        (uploads ≢ [])
        × HasMedia errors is
            (before_tx X P I O service c
              (promoted_from O service.buckets command.request_id command.post_id is s.objects)
              s)
            s'
            body
  judged-replied apart key [] errors s s' body keep h = ground arith
  judged-replied apart key (v ∷ vs) errors s s' body keep h =
      let is = items_of c.media_ids c.dispatch_ids 0 (v ∷ vs) in
      let p = promoted_from O service.buckets command.request_id command.post_id is s.objects in
      let (kept, made) =
        concluded-replied X P I O service c
          (λ promoted t.
            sent X P I O service string_of c command
              (add_tx X P I O service string_of c command key errors is promoted t))
          key p s s' body h in
      (
        (λ none_left. ground arith),
        added_and_stored apart key errors is p s s' body keep refl kept made,
      )

  -- the same from the validation on
  pub added_media :
      (key : String) (outcomes : List FileValidationOutcome) (s s' : Site X P I O) (body : Json)
      → HasOriginals O service.buckets command.request_id command.post_id
      → KeepOriginals X P I O service c original_of
          (items_of c.media_ids c.dispatch_ids 0 (validated_uploads outcomes))
      → added_with X P I O service string_of c command key outcomes s ≡ (s', replied body)
      → (validated_uploads outcomes ≢ [])
        × HasMedia
            (errors_of outcomes)
            (items_of c.media_ids c.dispatch_ids 0 (validated_uploads outcomes))
            (site_of outcomes s)
            s'
            body
  unfolding added_with
  added_media key outcomes s s' body apart keep =
      judged-replied apart key (validated_uploads outcomes) (errors_of outcomes) s s' body keep
