-- ===== src/System.antt =====
-- The tables under the calls of the workers and of the media use cases, in any order: the
-- transactions of apps/worker/src/processing and libs/media/src/application/media.service.ts
pub mod Rows
pub mod Invariants
use posts_media.Common.{ℕ, String, Text, Bool, true, false, Option, none, some, List, [], ◌∷◌}
use posts_media.Domain.Json.{Json}
use posts_media.Domain.Result.{Try, returned, thrown}
use posts_media.Storage.{ObjectRef}
use posts_media.Schema.{Media, Tables, Db}
use posts_media.Schema.Keys.{AttemptKey}
use posts_media.Media.{
  CreateMediaWithDispatchInput, create_with_dispatch, retry_tx, Retried, committed, refused,
  conflict,
}
use posts_media.Processing.Claims.{
  claim as claim_media, renew as renew_media, create_attempt, complete as complete_media,
  fail as fail_media,
}
use posts_media.Processing.Publication.{ProcessedArtifact, Files, publish_tx}

pub data Call : Type 0 where
  claim :
      (media_id : String) (generation : ℕ) (job_id : String) (lease_seconds : ℕ)
      (lease_token : String) (now : ℕ)
      → Call
  renew : (media_id : String) (generation : ℕ) (lease_token : String) (lease_seconds now : ℕ) → Call
  attempt :
      (id : String) (key : AttemptKey) (job_id processing_profile : String)
      (worker_instance_id : Option String)
      → Call
  complete : (media_id : String) (generation : ℕ) (lease_token attempt_id : String) (now : ℕ) → Call
  fail :
      (media_id : String) (generation : ℕ) (lease_token attempt_id : String) (final : Bool)
      (error_code error_message : Text) (now : ℕ)
      → Call
  publish :
      (files : Files) (media_id : String) (media : Media) (generation : ℕ)
      (attempt_id lease_token : String) (artifacts : List ProcessedArtifact)
      (finals : List ObjectRef) (metadata : Option Json) (now : ℕ)
      → Call
  create : (input : CreateMediaWithDispatchInput) (now : ℕ) → Call
  retry : (media_id dispatch_id : String) (now : ℕ) → Call

module _ (X : Tables) where
  -- a transaction that throws commits nothing
  abbrev pub kept : Db X → Try (Db X × Bool) → Db X
  kept db (thrown e) = db
  kept db (returned (db', b)) = db'

  abbrev pub inserted : Db X → Option (Db X × Media) → Db X
  inserted db none = db
  inserted db (some (db', m)) = db'

  abbrev pub retried : Db X → Retried X → Db X
  retried db (committed db' u) = db'
  retried db (refused e) = db
  retried db conflict = db

  unfoldable pub perform : Call → Db X → Db X
  perform (claim id g j l t now) db = (claim_media X id g j l t now db).0
  perform (renew id g t l now) db = (renew_media X id g t l now db).0
  perform (attempt id k j p w) db = (create_attempt X id k j p w db).0
  perform (complete id g t a now) db = (complete_media X id g t a now db).0
  perform (fail id g t a final c m now) db = (fail_media X id g t a final c m now db).0
  perform (publish files id m g a t arts finals metadata now) db =
      kept db (publish_tx X files id m g a t arts finals metadata now db)
  perform (create input now) db = inserted db (create_with_dispatch X input now db)
  perform (retry id dispatch_id now) db = retried db (retry_tx X id dispatch_id now db)

  unfoldable pub perform_all : List Call → Db X → Db X
  perform_all [] db = db
  perform_all (c ∷ cs) db = perform_all cs (perform c db)
