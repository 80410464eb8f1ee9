-- ===== src/Posts/Create/Answered.antt =====
-- A request to create a post that is answered, from its key on.
use posts_media.Common.{ℕ, String, ◌≡◌, refl, none, some, List, [], string_eq}
use posts_media.Domain.Json.{Json}
use posts_media.Domain.Result.{replied, ok}
use posts_media.Database.Table.{Table}
use posts_media.Storage.{ObjectStorage}
use posts_media.Schema.{Tables}
use posts_media.Idempotency.{IdempotencyRequest}
use posts_media.Idempotency.Key.{validate_idempotency_key}
use posts_media.Validation.{validate_files}
use posts_media.Validation.Uploads.{FileValidationOutcome}
use posts_media.Posts.{Post}
use posts_media.Posts.Promotion.{items_of, validated_uploads, errors_of}
use posts_media.Posts.Promotion.Stored.{HasOriginals}
use posts_media.Posts.Requests.{Site, Service, Course}
use posts_media.Posts.Requests.Answered.{KeepOriginals}
use posts_media.Posts.Requests.Replayed.{alone, handle-Acted}
use posts_media.Posts.Create.{
  CreatePostWithMediaCommand, created_with, execute, create_post_context, fingerprint_of,
}
use posts_media.Posts.Create.Created.{original_of, HasPost, created_post}

module _ (X : Tables) (P : Table String Post) (I : Table String IdempotencyRequest)
    (O : ObjectStorage) (service : Service) (command : CreatePostWithMediaCommand) where
  abbrev outcomes : List FileValidationOutcome
  outcomes = validate_files service.limits service.tools command.files

  -- Where the temporary bucket is not the bucket of the originals: if a request to create a post
  -- with a new key is answered with a body, nobody else touched its key while it was claimed, and the
  -- others remove none of the originals of its uploads, then no file was refused, the post is there,
  -- every upload has its media row, in the order of the uploads, with a dispatch that the outbox
  -- accepts, and its original in the storage, and the body shows this post with these media.
  pub answered_creation :
      (clock : ℕ → ℕ) (uuid : ℕ → String) (fuel : ℕ) (c : Course X P I O) (s s' : Site X P I O)
      (body : Json)
      → ((key : String)
          → validate_idempotency_key command.idempotency_key ≡ ok key
          → I.find key s.requests ≡ none)
      → HasOriginals O service.buckets command.request_id c.post_id
      → KeepOriginals X P I O service c
          (original_of X P I O service c command)
          (items_of c.media_ids c.dispatch_ids 0 (validated_uploads outcomes))
      → execute X P I O service (alone clock uuid fuel c) command s ≡ some (s', replied body)
      → (errors_of outcomes ≡ [])
        × HasPost X P I O service
            (alone clock uuid fuel c)
            command
            (items_of c.media_ids c.dispatch_ids 0 (validated_uploads outcomes))
            s'
            body
  unfolding execute
  answered_creation clock uuid fuel c s s' body new apart keep h =
      let here = alone clock uuid fuel c in
      let a =
        handle-Acted X P I O service clock uuid fuel c create_post_context
          (fingerprint_of X P I O service here command) command.files
          (λ key. created_with X P I O service here command key outcomes) (λ key. refl)
          command.idempotency_key s s' body new h in
      created_post X P I O service here command a.key outcomes (record s { requests = a.requests })
        s' body apart keep a.acted
