-- ===== src/Posts/AddMedia/Atomic.antt =====
-- Adding media is all or nothing.
use posts_media.Common.{
  ℕ, String, ◌≡◌, Option, none, some, List, [], ◌∷◌, string_eq, is_some, Bool-cases, inl, inr,
}
use posts_media.Domain.Json.{Json}
use posts_media.Domain.Result.{Reply}
use posts_media.Database.Table.{Table}
use posts_media.Storage.{ObjectStorage}
use posts_media.Schema.{Tables, Db}
use posts_media.Idempotency.{IdempotencyRequest}
use posts_media.Validation.{validate_files}
use posts_media.Validation.Uploads.{FileValidationError, ValidatedUpload}
use posts_media.Posts.{Post}
use posts_media.Posts.Promotion.{errors_of, validated_uploads, items_of, promoted_from}
use posts_media.Posts.Requests.{Site, Service, Course}
use posts_media.Posts.Requests.Frame.{IsFailure, Framed, Others, concluded-Framed, handle-Framed}
use posts_media.Posts.AddMedia.{
  AddPostMediaCommand, add_tx, sent, judged, added_with, admitted, add_media,
  add_post_media_context, fingerprint_of,
}

module _ (X : Tables) (P : Table String Post) (I : Table String IdempotencyRequest)
    (O : ObjectStorage) (service : Service) (string_of : List ℕ → String) (c : Course X P I O)
    (command : AddPostMediaCommand) (Q : P.State → Db X → Type 0) where
  judged-Framed :
      Others X P I O service c Q
      → (key : String) (uploads : List ValidatedUpload) (errors : List FileValidationError)
        (s : Site X P I O)
      → Q s.posts s.db
      → Framed X P I O service c Q (judged X P I O service string_of c command key uploads errors s)
  judged-Framed others key [] errors s h = λ f. h
  judged-Framed others key (v ∷ vs) errors s h =
      let is = items_of c.media_ids c.dispatch_ids 0 (v ∷ vs) in
      concluded-Framed X P I O service c Q others
        (λ promoted t.
          sent X P I O service string_of c command
            (add_tx X P I O service string_of c command key errors is promoted t))
        key (promoted_from O service.buckets command.request_id command.post_id is s.objects) s h

  admitted-Framed :
      Others X P I O service c Q
      → (key : String) (post : Option Post) (s : Site X P I O) → Q s.posts s.db
      → Framed X P I O service c Q (admitted X P I O service string_of c command key post s)
  unfolding added_with
  admitted-Framed others key none s h = λ f. h
  admitted-Framed others key (some post) s h =
      let outcomes = validate_files service.limits service.tools command.files in
      elim (Bool-cases (is_some post.deleted_at)) [
        | inl deleted ↦ rw deleted (λ f. h)
        | inr alive ↦
            rw alive
              (judged-Framed others key (validated_uploads outcomes) (errors_of outcomes) s h)
      ]

  -- If a request to add media is not answered with a body, whatever the reason, then all that held
  -- of the posts, the media, the variants, the attempts and the dispatches before it, and that the
  -- others keep, holds after it.
  pub failed_addition :
      (s s' : Site X P I O) (answer : Reply Json)
      → Others X P I O service c Q
      → Q s.posts s.db
      → add_media X P I O service string_of c command s ≡ some (s', answer)
      → IsFailure answer
      → Q s'.posts s'.db
  unfolding add_media
  failed_addition s s' answer others =
      handle-Framed X P I O service c Q add_post_media_context
        (fingerprint_of X P I O service string_of c command) command.files
        (λ key t.
          admitted X P I O service string_of c command key (P.find command.post_id t.posts) t)
        (λ key t h. admitted-Framed others key (P.find command.post_id t.posts) t h)
        command.idempotency_key s s' answer
