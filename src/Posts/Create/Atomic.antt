-- ===== src/Posts/Create/Atomic.antt =====
-- Creating a post is all or nothing.
use posts_media.Common.{String, ◌≡◌, some, List, [], ◌∷◌, string_eq}
use posts_media.Domain.Json.{Json}
use posts_media.Domain.Result.{Reply}
use posts_media.Database.Table.{Table}
use posts_media.Storage.{ObjectStorage}
use posts_media.Schema.{Tables, Db}
use posts_media.Idempotency.{IdempotencyRequest}
use posts_media.Validation.{validate_files}
use posts_media.Validation.Uploads.{FileValidationError, ValidatedUpload}
use posts_media.Posts.{Post}
use posts_media.Posts.Promotion.{errors_of, validated_uploads, items_of, promoted_from}
use posts_media.Posts.Requests.{Site, Service, Course}
use posts_media.Posts.Requests.Frame.{IsFailure, Framed, Others, concluded-Framed, handle-Framed}
use posts_media.Posts.Create.{
  CreatePostWithMediaCommand, create_tx, judged, created_with, execute, create_post_context,
  fingerprint_of,
}

module _ (X : Tables) (P : Table String Post) (I : Table String IdempotencyRequest)
    (O : ObjectStorage) (service : Service) (c : Course X P I O)
    (command : CreatePostWithMediaCommand) (Q : P.State → Db X → Type 0) where
  judged-Framed :
      Others X P I O service c Q
      → (key : String) (uploads : List ValidatedUpload) (errors : List FileValidationError)
        (s : Site X P I O)
      → Q s.posts s.db
      → Framed X P I O service c Q (judged X P I O service c command key uploads errors s)
  judged-Framed others key uploads [] s h =
      let is = items_of c.media_ids c.dispatch_ids 0 uploads in
      concluded-Framed X P I O service c Q others (create_tx X P I O service c command key is) key
        (promoted_from O service.buckets command.request_id c.post_id is s.objects) s h
  judged-Framed others key uploads (e ∷ es) s h = λ f. h

  -- If a request to create a post is not answered with a body, whatever the reason, then all that
  -- held of the posts, the media, the variants, the attempts and the dispatches before it, and that
  -- the others keep, holds after it.
  pub failed_creation :
      (s s' : Site X P I O) (answer : Reply Json)
      → Others X P I O service c Q
      → Q s.posts s.db
      → execute X P I O service c command s ≡ some (s', answer)
      → IsFailure answer
      → Q s'.posts s'.db
  unfolding execute created_with
  failed_creation s s' answer others =
      let outcomes = validate_files service.limits service.tools command.files in
      handle-Framed X P I O service c Q create_post_context
        (fingerprint_of X P I O service c command) command.files
        (λ key. created_with X P I O service c command key outcomes)
        (λ key t h. judged-Framed others key (validated_uploads outcomes) (errors_of outcomes) t h)
        command.idempotency_key s s' answer
