-- ===== src/Posts/AddMedia/Answered.antt =====
-- A request to add media that is answered, from its key on.
use posts_media.Common.{
  ℕ, String, ◌≡◌, ◌≢◌, refl, Option, none, some, List, [], string_eq, Option-cases, inl, inr, arith,
}
use posts_media.Domain.Json.{Json}
use posts_media.Domain.Result.{replied, ok}
use posts_media.Database.Table.{Table}
use posts_media.Storage.{ObjectStorage}
use posts_media.Schema.{Tables}
use posts_media.Idempotency.{IdempotencyRequest}
use posts_media.Idempotency.Key.{validate_idempotency_key}
use posts_media.Validation.{validate_files}
use posts_media.Validation.Uploads.{FileValidationOutcome}
use posts_media.Posts.{Post}
use posts_media.Posts.Promotion.{items_of, validated_uploads, errors_of}
use posts_media.Posts.Promotion.Stored.{HasOriginals}
use posts_media.Posts.Requests.{Site, Service, Course}
use posts_media.Posts.Requests.Answered.{KeepOriginals}
use posts_media.Posts.Requests.Replayed.{alone, handle-Acted}
use posts_media.Posts.AddMedia.{
  AddPostMediaCommand, added_with, admitted, add_media, add_post_media_context, fingerprint_of,
}
use posts_media.Posts.AddMedia.Added.{original_of, HasMedia, site_of, added_media}

module _ (X : Tables) (P : Table String Post) (I : Table String IdempotencyRequest)
    (O : ObjectStorage) (service : Service) (string_of : List ℕ → String)
    (command : AddPostMediaCommand) where
  abbrev outcomes : List FileValidationOutcome
  outcomes = validate_files service.limits service.tools command.files

  admitted-replied :
      (c : Course X P I O) (key : String) (found : Option Post) (s s' : Site X P I O) (body : Json)
      → admitted X P I O service string_of c command key found s ≡ (s', replied body)
      → (post : Post) × (found ≡ some post)
        × (post.deleted_at ≡ none)
        × (added_with X P I O service string_of c command key outcomes s ≡ (s', replied body))
  admitted-replied c key none s s' body h = ground arith
  admitted-replied c key (some post) s s' body h = elim (Option-cases post.deleted_at) [
    | inl alive ↦ (post, refl, alive, rw alive at h)
    | inr (at_time, deleted) ↦ ground arith
  ]

  -- what a request that is answered found and left
  pub record HasAnswer (c : Course X P I O) (s s' : Site X P I O) (body : Json) : Type 0 where
    pub post : Post
    pub claimed : Site X P I O
    pub same_posts : claimed.posts ≡ s.posts
    pub same_db : claimed.db ≡ s.db
    pub found : P.find command.post_id s.posts ≡ some post
    pub alive : post.deleted_at ≡ none
    pub accepted : validated_uploads outcomes ≢ []
    pub added :
        HasMedia X P I O service string_of c command
          (errors_of outcomes)
          (items_of c.media_ids c.dispatch_ids 0 (validated_uploads outcomes))
          (site_of X P I O service string_of c command outcomes claimed)
          s'
          body

  -- Where the temporary bucket is not the bucket of the originals: if a request to add media with a
  -- new key is answered with a body, nobody else touched its key while it was claimed, and the others
  -- remove none of the originals of its uploads, then the post was there and not deleted when it was
  -- read; a file was accepted; every media row that the post had at the start of the transaction
  -- comes before the sort order from which the accepted uploads are numbered, in their order; each of
  -- them has its media row, a dispatch that the outbox accepts, and its original in the storage; the
  -- media rows and dispatches that were there, the variants, the attempts and the posts are kept; and
  -- the body shows these media and the files that were refused.
  pub answered_addition :
      (clock : ℕ → ℕ) (uuid : ℕ → String) (fuel : ℕ) (c : Course X P I O) (s s' : Site X P I O)
      (body : Json)
      → ((key : String)
          → validate_idempotency_key command.idempotency_key ≡ ok key
          → I.find key s.requests ≡ none)
      → HasOriginals O service.buckets command.request_id command.post_id
      → KeepOriginals X P I O service c
          (original_of X P I O service string_of c command)
          (items_of c.media_ids c.dispatch_ids 0 (validated_uploads outcomes))
      → add_media X P I O service string_of (alone clock uuid fuel c) command s
        ≡ some (s', replied body)
      → HasAnswer (alone clock uuid fuel c) s s' body
  unfolding add_media
  answered_addition clock uuid fuel c s s' body new apart keep h =
      let here = alone clock uuid fuel c in
      let a =
        handle-Acted X P I O service clock uuid fuel c add_post_media_context
          (fingerprint_of X P I O service string_of here command) command.files
          (λ key t.
            admitted X P I O service string_of here command key (P.find command.post_id t.posts) t)
          (λ key. refl) command.idempotency_key s s' body new h in
      let t = record s { requests = a.requests } in
      let (post, found, alive, acted) =
        admitted-replied here a.key (P.find command.post_id s.posts) t s' body a.acted in
      let (some_accepted, added) =
        added_media X P I O service string_of here command a.key outcomes t s' body apart keep
          acted in
      record {
        post = post;
        claimed = t;
        same_posts = refl;
        same_db = refl;
        found = found;
        alive = alive;
        accepted = some_accepted;
        added = added;
      }
