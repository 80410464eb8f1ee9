-- ===== src/Posts/Create/Created.antt =====
-- What a created post leaves in the tables and in the storage.
use mathlib.Core.Path.{subst}
use posts_media.Common.{
  String, ◌≡◌, refl, sym, ap, ◌∙◌, true, false, some, List, [], ◌∷◌, All, string_eq, arith,
  beq_refl, Option-cases, Bool-cases, inl, inr,
}
use posts_media.Domain.Json.{Json}
use posts_media.Domain.Result.{replied}
use posts_media.Database.Table.{Table}
use posts_media.Storage.{ObjectRef, ObjectStorage}
use posts_media.Schema.{Tables}
use posts_media.Idempotency.{IdempotencyRequest}
use posts_media.Idempotency.Service.{finalize}
use posts_media.Validation.Uploads.{FileValidationOutcome, FileValidationError, ValidatedUpload}
use posts_media.Posts.{Post}
use posts_media.Posts.Presenter.{MediaRow, present_post, post_json}
use posts_media.Posts.Promotion.{
  Item, Promotion, items_of, validated_uploads, errors_of, insert_all, promoted_from,
}
use posts_media.Posts.Promotion.Stored.{original, HasOriginals, promoted_from-holds}
use posts_media.Posts.Promotion.Inserted.{AllStored, rows_of, inserted-AllStored}
use posts_media.Posts.Requests.{Site, Service, Course}
use posts_media.Posts.Requests.Answered.{KeepOriginals, before_tx, concluded-replied}
use posts_media.Posts.Create.{
  CreatePostWithMediaCommand, new_post, created_outcome, create_tx, judged, created_with,
}

module _ (X : Tables) (P : Table String Post) (I : Table String IdempotencyRequest)
    (O : ObjectStorage) (service : Service) (c : Course X P I O)
    (command : CreatePostWithMediaCommand) where
  abbrev pub original_of : Item → ObjectRef
  original_of = original O service.buckets command.request_id c.post_id

  abbrev pub post_row : Post
  post_row = new_post X P I O service c command

  abbrev body_of : List MediaRow → Json
  body_of ms = post_json (present_post service.to_iso_string c.post_id post_row ms)

  -- the transaction, statement by statement
  created_tx :
      (key : String) (is : List Item) (promoted : List ObjectRef) (t s' : Site X P I O)
      (body : Json)
      → create_tx X P I O service c command key is promoted t ≡ some (s', body)
      → (ms : List MediaRow) × ((P.create c.post_id post_row t.posts ≡ some s'.posts)
          × ((insert_all X c.post_id c.now 0 is promoted t.db ≡ some (s'.db, ms))
              × ((body ≡ body_of ms)
                  × ((s'.objects ≡ t.objects)
                      × (s'.requests
                          ≡ finalize I service.idempotency key
                              (created_outcome X P I O service c command body)
                              c.done
                              t.requests)))))
  unfolding create_tx
  created_tx key is promoted t s' body h =
      elim (Option-cases (P.create c.post_id post_row t.posts)) [
        | inl taken ↦ ground arith
        | inr (posts, made) ↦
            elim (Option-cases (insert_all X c.post_id c.now 0 is promoted t.db)) [
              | inl failed ↦ ground arith
              | inr ((db, ms), inserted) ↦ elim (Bool-cases c.commits) [
                | inr lost ↦ ground arith
                | inl committed ↦ (
                  ms,
                  (ground arith, (ground arith, (ground arith, (ground arith, ground arith)))),
                )
              ]
            ]
      ]

  -- the post, its media in the order of the uploads, their dispatches, and their originals
  abbrev pub HasPost : List Item → Site X P I O → Json → Type 0
  HasPost is s body =
      (P.find c.post_id s.posts ≡ some post_row)
      × AllStored X c.post_id original_of 0 is s.db
      × All (λ i. O.holds (original_of i) s.objects ≡ true) is
      × (body ≡ body_of (rows_of X c.post_id original_of 0 is))

  promoted_and_stored :
      HasOriginals O service.buckets command.request_id c.post_id
      → (key : String) (is : List Item) (p : Promotion O.State) (s s' : Site X P I O) (body : Json)
      → KeepOriginals X P I O service c original_of is
      → p ≡ promoted_from O service.buckets command.request_id c.post_id is s.objects
      → p.failed ≡ false
      → create_tx X P I O service c command key is p.promoted (before_tx X P I O service c p s)
        ≡ some (s', body)
      → HasPost is s' body
  promoted_and_stored apart key is p s s' body keep is_p kept made =
      let t = before_tx X P I O service c p s in
      let (ms, (post, (rows, (bodies, (objects, _))))) =
        created_tx key is p.promoted t s' body made in
      let (listed, held) =
        promoted_from-holds O service.buckets command.request_id c.post_id apart is p s.objects is_p
          kept in
      let (_, stored, is_rows) =
        inserted-AllStored X c.post_id original_of c.now 0 is t.db s'.db ms
          (subst (λ l. insert_all X c.post_id c.now 0 is l t.db ≡ some (s'.db, ms)) listed rows) in
      (
        P.find-create c.post_id c.post_id post_row t.posts s'.posts post ∙ rw (beq_refl c.post_id),
        stored,
        subst (λ o. All (λ i. O.holds (original_of i) o ≡ true) is) (sym objects)
            (keep (record s { objects = p.objects }) held),
        bodies ∙ ap body_of is_rows,
      )

  judged-replied :
      HasOriginals O service.buckets command.request_id c.post_id
      → (key : String) (uploads : List ValidatedUpload) (errors : List FileValidationError)
        (s s' : Site X P I O) (body : Json)
      → KeepOriginals X P I O service c original_of (items_of c.media_ids c.dispatch_ids 0 uploads)
      → judged X P I O service c command key uploads errors s ≡ (s', replied body)
      → (errors ≡ []) × HasPost (items_of c.media_ids c.dispatch_ids 0 uploads) s' body
  judged-replied apart key uploads (e ∷ es) s s' body keep h = ground arith
  judged-replied apart key uploads [] s s' body keep h =
      let is = items_of c.media_ids c.dispatch_ids 0 uploads in
      let p = promoted_from O service.buckets command.request_id c.post_id is s.objects in
      let (kept, made) =
        concluded-replied X P I O service c (create_tx X P I O service c command key is) key p s s'
          body h in
      (refl, promoted_and_stored apart key is p s s' body keep refl kept made)

  -- the same from the validation on
  pub created_post :
      (key : String) (outcomes : List FileValidationOutcome) (s s' : Site X P I O) (body : Json)
      → HasOriginals O service.buckets command.request_id c.post_id
      → KeepOriginals X P I O service c original_of
          (items_of c.media_ids c.dispatch_ids 0 (validated_uploads outcomes))
      → created_with X P I O service c command key outcomes s ≡ (s', replied body)
      → (errors_of outcomes ≡ [])
        × HasPost (items_of c.media_ids c.dispatch_ids 0 (validated_uploads outcomes)) s' body
  unfolding created_with
  created_post key outcomes s s' body apart keep =
      judged-replied apart key (validated_uploads outcomes) (errors_of outcomes) s s' body keep

  -- the table of the keys after a request that is answered, where others leave it alone meanwhile
  judged-requests :
      (key : String) (uploads : List ValidatedUpload) (errors : List FileValidationError)
      (s s' : Site X P I O) (body : Json)
      → ((t : Site X P I O) → (c.meanwhile t).requests ≡ t.requests)
      → judged X P I O service c command key uploads errors s ≡ (s', replied body)
      → s'.requests
        ≡ finalize I service.idempotency key
            (created_outcome X P I O service c command body)
            c.done
            s.requests
  judged-requests key uploads (e ∷ es) s s' body quiet h = ground arith
  judged-requests key uploads [] s s' body quiet h =
      let is = items_of c.media_ids c.dispatch_ids 0 uploads in
      let p = promoted_from O service.buckets command.request_id c.post_id is s.objects in
      let t = before_tx X P I O service c p s in
      let (_, made) =
        concluded-replied X P I O service c (create_tx X P I O service c command key is) key p s s'
          body h in
      let (ms, (_, (_, (_, (_, requests))))) = created_tx key is p.promoted t s' body made in
      requests
      ∙ ap
          (finalize I service.idempotency key (created_outcome X P I O service c command body)
            c.done)
          (quiet (record s { objects = p.objects }))

  pub created_with-requests :
      (key : String) (outcomes : List FileValidationOutcome) (s s' : Site X P I O) (body : Json)
      → ((t : Site X P I O) → (c.meanwhile t).requests ≡ t.requests)
      → created_with X P I O service c command key outcomes s ≡ (s', replied body)
      → s'.requests
        ≡ finalize I service.idempotency key
            (created_outcome X P I O service c command body)
            c.done
            s.requests
  unfolding created_with
  created_with-requests key outcomes s s' body =
      judged-requests key (validated_uploads outcomes) (errors_of outcomes) s s' body
