-- ===== src/Posts/Create/Once.antt =====
-- Creating a post may be repeated with the same key.
use posts_media.Common.{ℕ, String, ◌≡◌, refl, ap, ◌∙◌, none, some, string_eq}
use posts_media.Domain.Json.{Json}
use posts_media.Domain.Result.{ok, replied}
use posts_media.Database.Table.{Table}
use posts_media.Storage.{ObjectStorage}
use posts_media.Schema.{Tables}
use posts_media.Idempotency.{IdempotencyRequest}
use posts_media.Idempotency.Key.{validate_idempotency_key}
use posts_media.Idempotency.Service.{finalize_data}
use posts_media.Idempotency.Service.Replay.{find-finalize}
use posts_media.Validation.{validate_files}
use posts_media.Posts.{Post}
use posts_media.Posts.Requests.{Site, Service, Course}
use posts_media.Posts.Requests.Replayed.{alone, handle-Acted, handle-replayed}
use posts_media.Posts.Create.{
  CreatePostWithMediaCommand, created_with, execute, create_post_context, fingerprint_of,
  created_outcome,
}
use posts_media.Posts.Create.Created.{created_with-requests}

module _ (X : Tables) (P : Table String Post) (I : Table String IdempotencyRequest)
    (O : ObjectStorage) (service : Service) (command : CreatePostWithMediaCommand) where
  -- After a request with a new key that was answered, and during which nobody else touched the
  -- table of the keys, the same request with the same key gets the same answer, and changes nothing:
  -- there is one post.
  pub execute-execute_same :
      (clock clock' : ℕ → ℕ) (uuid uuid' : ℕ → String) (fuel fuel' : ℕ) (c c' : Course X P I O)
      (s s' : Site X P I O) (body : Json)
      → ((key : String)
          → validate_idempotency_key command.idempotency_key ≡ ok key
          → I.find key s.requests ≡ none)
      → ((t : Site X P I O) → (c.meanwhile t).requests ≡ t.requests)
      → execute X P I O service (alone clock uuid fuel c) command s ≡ some (s', replied body)
      → execute X P I O service (alone clock' uuid' fuel' c') command s' ≡ some (s', replied body)
  unfolding execute
  execute-execute_same clock clock' uuid uuid' fuel fuel' c c' s s' body new quiet h =
      let outcomes = validate_files service.limits service.tools command.files in
      let first = alone clock uuid fuel c in
      let second = alone clock' uuid' fuel' c' in
      let a =
        handle-Acted X P I O service clock uuid fuel c create_post_context
          (fingerprint_of X P I O service first command) command.files
          (λ key. created_with X P I O service first command key outcomes) (λ key. refl)
          command.idempotency_key s s' body new h in
      let outcome = created_outcome X P I O service first command body in
      let left =
        created_with-requests X P I O service first command a.key outcomes
          (record s { requests = a.requests }) s' body quiet a.acted in
      let found =
        ap (I.find a.key) left
        ∙ find-finalize I service.idempotency a.key outcome c.done a.requests a.row a.found in
      handle-replayed X P I O service clock' uuid' fuel' c' create_post_context
        (fingerprint_of X P I O service second command) command.files
        (λ key. created_with X P I O service second command key outcomes) (λ key. refl)
        command.idempotency_key a.key a.prints s' (finalize_data outcome c.done a.row) a.valid
        a.built found refl a.same
