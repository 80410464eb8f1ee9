-- ===== src/Processing/Publication.antt =====
-- VariantPublicationService of apps/worker/src/processing/variant-publication.service.ts
pub mod Uploading
pub mod Effects
pub mod Outcomes
pub mod Stale
use posts_media.Common.{
  ℕ, String, Text, Bool, true, false, Option, none, some, List, [], ◌∷◌, ◌++◌, ◌&&◌, ◌==◌,
  string_eq, nat_beq, codes, if◌then◌else◌,
}
use posts_media.Domain.Enums.{MediaVariantType}
use posts_media.Domain.Json.{Json}
use posts_media.Domain.Result.{Try, returned, thrown}
use posts_media.Database.Table.{Table, where_key, count_is_one}
use posts_media.Storage.{
  ObjectRef, ObjectStorage, Buckets, processing_temp_key, processed_attempt_key,
}
use posts_media.Schema.{Media, MediaVariant, Tables, Db}
use posts_media.Schema.Keys.{VariantKey, variant_key_eq}
use posts_media.Processing.Row.{lease_where, publish_data}
use posts_media.Processing.Claims.{attempt_where, attempt_completed}

pub record ProcessedArtifact : Type 0 where
  pub path : String
  pub filename : String
  pub variant_type : MediaVariantType
  pub mime_type : String
  pub format : String
  pub width : Option ℕ
  pub height : Option ℕ
  pub bitrate_kbps : Option ℕ
  pub resolution_label : Option String

-- The local files of the processors: `stat` and the SHA-256 digest of a path, which may throw. They
-- do not change while they are published.
pub record Files : Type 0 where
  pub size : String → Option ℕ
  pub digest : String → Option String

abbrev pub invalid_output : Text
invalid_output = codes "PROCESSING_OUTPUT_INVALID"

abbrev pub lease_lost : Text
lease_lost = codes "PROCESSING_LEASE_LOST"

-- what the calls of the platform throw
abbrev pub io_error : Text
io_error = codes "ENOENT"

-- what the loop over the artifacts leaves: the objects, `temporary` and `finals` in order, and
-- whether it threw
pub record Uploads (S : Type 0) : Type 0 where
  pub objects : S
  pub temporary : List ObjectRef
  pub finals : List ObjectRef
  pub outcome : Try (Unit {0})

module _ (O : ObjectStorage) (buckets : Buckets) (files : Files) (media_id : String) (media : Media)
    (generation : ℕ) (attempt_id : String) where
  open O use {put_file, copy, stat}

  abbrev pub temp_of : ProcessedArtifact → ObjectRef
  temp_of a = processing_temp_key buckets media_id generation attempt_id a.filename

  abbrev pub final_of : ProcessedArtifact → ObjectRef
  final_of a =
      processed_attempt_key buckets media.post_id media_id media.processing_profile generation
        attempt_id a.filename

  -- from `copy` on; the final key is listed before the copy
  copy_one : ProcessedArtifact → Uploads O.State → Uploads O.State
  copy_one a u =
      let (objects, copied) = copy (temp_of a) (final_of a) u.objects in
      record u {
        objects = objects;
        finals = u.finals ++ final_of a ∷ [];
        outcome = if copied && stat (final_of a) objects then returned tt else thrown io_error;
      }

  -- one round of the loop
  unfoldable pub upload_one : ProcessedArtifact → Uploads O.State → Uploads O.State
  unfolding copy_one
  upload_one a u = elim (files.size a.path) [
    | none ↦ record u { outcome = thrown io_error }
    | some size ↦
        let (objects, put) = put_file (temp_of a) a.path u.objects in
        let staged = record u { objects = objects; temporary = u.temporary ++ temp_of a ∷ [] } in
        if nat_beq size 0
        then record u { outcome = thrown invalid_output }
        else if put
        then (if stat (temp_of a) objects
            then copy_one a staged
            else record staged { outcome = thrown io_error })
        else record u { objects = objects; outcome = thrown io_error }
  ]

  unfoldable pub upload_all : List ProcessedArtifact → Uploads O.State → Uploads O.State
  upload_all [] u = u
  upload_all (a ∷ artifacts) u =
      let u' = upload_one a u in
      let rest = upload_all artifacts u' in elim u'.outcome [ thrown e ↦ u' | returned done ↦ rest ]

abbrev pub variant_of : ObjectRef → ProcessedArtifact → ℕ → String → MediaVariant
variant_of final a size digest = record {
  bucket = final.bucket;
  object_key = final.object_key;
  mime_type = a.mime_type;
  format = a.format;
  size = size;
  checksum_sha256 = digest;
  width = a.width;
  height = a.height;
  bitrate_kbps = a.bitrate_kbps;
  resolution_label = a.resolution_label;
}

-- an update leaves a column that is given as `undefined`
abbrev keep : {A : Type 0} → Option A → Option A → Option A
keep none old = old
keep (some a) old = some a

abbrev pub variant_update : MediaVariant → MediaVariant → MediaVariant
variant_update new old = record new {
  width = keep new.width old.width;
  height = keep new.height old.height;
  bitrate_kbps = keep new.bitrate_kbps old.bitrate_kbps;
  resolution_label = keep new.resolution_label old.resolution_label;
}

module _ (X : Tables) (files : Files) (media_id : String) (media : Media) where
  abbrev pub variant_key : ProcessedArtifact → VariantKey
  variant_key a = record {
    media_id = media_id;
    processing_profile = media.processing_profile;
    variant_type = a.variant_type;
  }

  -- mediaVariant.upsert
  unfoldable pub upsert_variant : VariantKey → MediaVariant → X.variants.State → X.variants.State
  upsert_variant k v s = elim (X.variants.create k v s) [
    | some s' ↦ s'
    | none ↦ (X.variants.update_many (where_key k (λ _. true)) (variant_update v) s).0
  ]

  -- the loop of the transaction; `artifacts[index]` and `finals[index]` run together
  unfoldable pub record_variants :
      List ProcessedArtifact → List ObjectRef → X.variants.State → Try X.variants.State
  record_variants [] finals s = returned s
  record_variants (a ∷ artifacts) [] s = thrown invalid_output
  record_variants (a ∷ artifacts) (final ∷ finals) s = elim (files.size a.path) [
    | none ↦ thrown io_error
    | some size ↦ elim (files.digest a.path) [
      | none ↦ thrown io_error
      | some digest ↦
          record_variants artifacts finals
            (upsert_variant (variant_key a) (variant_of final a size digest) s)
    ]
  ]

  -- The callback of withTransaction: the state that it commits, or what it throws.
  unfoldable pub publish_tx :
      (generation : ℕ) (attempt_id lease_token : String) (artifacts : List ProcessedArtifact)
      (finals : List ObjectRef) (metadata : Option Json) (now : ℕ)
      → Db X
      → Try (Db X × Bool)
  publish_tx generation attempt_id lease_token artifacts finals metadata now db =
      let (rows, count) =
        X.media.update_many (where_key media_id (lease_where generation lease_token))
          (publish_data metadata now) db.media in
      let attempts =
        (X.attempts.update_many (attempt_where attempt_id media_id generation)
          (attempt_completed now) db.attempts).0 in
      let recorded : Try (Db X × Bool) = elim (record_variants artifacts finals db.variants) [
        | thrown e ↦ thrown e
        | returned variants ↦
            returned (record db { media = rows; variants = variants; attempts = attempts }, true)
      ] in
      if count_is_one count then recorded else returned (record db { media = rows }, false)

module _ (X : Tables) (O : ObjectStorage) (buckets : Buckets) (files : Files) where
  open O use {remove_many}

  -- `catch` and `finally`: the removals' own failures are ignored
  unfoldable pub compensate : Uploads O.State → O.State
  compensate u = (remove_many u.temporary (remove_many (u.temporary ++ u.finals) u.objects).0).0

  unfoldable pub after_tx :
      Db X → Uploads O.State → Try (Db X × Bool) → Db X × O.State × Try (Unit {0})
  after_tx db u (thrown e) = (db, compensate u, thrown e)
  after_tx db u (returned (db', false)) = (db', compensate u, thrown lease_lost)
  after_tx db u (returned (db', true)) = (db', (remove_many u.temporary u.objects).0, returned tt)

  unfoldable pub publish :
      (media_id : String) (media : Media) (generation : ℕ) (attempt_id lease_token : String)
      (artifacts : List ProcessedArtifact) (metadata : Option Json) (now : ℕ)
      → Db X
      → O.State
      → Db X × O.State × Try (Unit {0})
  publish media_id media generation attempt_id lease_token artifacts metadata now db objects =
      let start : Uploads O.State = record {
        objects = objects;
        temporary = [];
        finals = [];
        outcome = returned tt;
      } in
      let u = upload_all O buckets files media_id media generation attempt_id artifacts start in
      elim u.outcome [
        | thrown e ↦ (db, compensate u, thrown e)
        | returned done ↦ after_tx db u (
            publish_tx X files media_id media generation attempt_id lease_token artifacts u.finals
              metadata now db)
      ]
