-- ===== src/Posts/Promotion.antt =====
-- The promotion of uploads to originals, and the rows that are written for them: the parts that
-- libs/posts/src/application/create-post.service.ts and add-post-media.service.ts share.
pub mod Stored
pub mod Inserted
use posts_media.Common.{
  ℕ, suc, String, Bool, true, false, Option, none, some, List, [], ◌∷◌, ◌++◌, if◌then◌else◌,
}
use posts_media.Common.Decimal.{decimal}
use posts_media.Domain.Json.{Json, num, str, arr, obj, Fields, end, field, items}
use posts_media.Domain.Errors.{code_text}
use posts_media.Storage.{ObjectRef, ObjectStorage, Buckets, original_key, upload_staging_key}
use posts_media.Schema.{Media, Tables, Db}
use posts_media.Media.{CreateMediaWithDispatchInput, create_with_dispatch}
use posts_media.Validation.Uploads.{
  ValidatedUpload, FileValidationError, FileValidationOutcome, accepted, refused,
}
use posts_media.Posts.Presenter.{MediaRow}

-- `validatedUploads` and `errors` of a validation
abbrev pub validated_uploads : List FileValidationOutcome → List ValidatedUpload
validated_uploads [] = []
validated_uploads (accepted v ∷ os) = v ∷ validated_uploads os
validated_uploads (refused e ∷ os) = validated_uploads os

abbrev pub errors_of : List FileValidationOutcome → List FileValidationError
errors_of [] = []
errors_of (accepted v ∷ os) = errors_of os
errors_of (refused e ∷ os) = e ∷ errors_of os

abbrev details_field : Option Json → Fields
details_field none = end
details_field (some d) = field "details" d end

abbrev pub error_json : FileValidationError → Json
error_json e = obj (
    field "fileIndex" (num e.file_index) (
      field "originalFilename" (str e.original_filename) (
        field "code" (str (code_text e.code))
          (field "message" (str e.message) (details_field e.details)))))

-- an upload with its fresh ids
pub record Item : Type 0 where
  pub upload : ValidatedUpload
  pub media_id : String
  pub dispatch_id : String

-- `randomUUID` for each upload
abbrev pub items_of : (media_ids dispatch_ids : ℕ → String) → ℕ → List ValidatedUpload → List Item
items_of media_ids dispatch_ids n [] = []
items_of media_ids dispatch_ids n (v ∷ vs) =
    record { upload = v; media_id = media_ids n; dispatch_id = dispatch_ids n }
    ∷ items_of media_ids dispatch_ids (suc n) vs

-- what the loop leaves: the objects, `promoted`, and whether it threw
pub record Promotion (S : Type 0) : Type 0 where
  pub objects : S
  pub promoted : List ObjectRef
  pub failed : Bool

module _ (O : ObjectStorage) (buckets : Buckets) (request_id post_id : String) where
  open O use {put_file, copy, remove, remove_many}

  abbrev pub staging_of : Item → ObjectRef
  staging_of i = upload_staging_key buckets request_id (decimal i.upload.file_index)

  abbrev pub original_of : Item → ObjectRef
  original_of i = original_key buckets post_id i.media_id i.upload.extension

  -- one round of the loop; the staged object is removed whether or not it was copied
  unfoldable pub promote_one : Item → Promotion O.State → Promotion O.State
  promote_one i p =
      let (staged, put) = put_file (staging_of i) i.upload.temporary_path p.objects in
      let (copies, copied) = copy (staging_of i) (original_of i) staged in
      let objects = (remove (staging_of i) copies).0 in
      let done : Promotion O.State =
        if copied
        then record {
          objects = objects;
          promoted = p.promoted ++ original_of i ∷ [];
          failed = false;
        }
        else record { objects = objects; promoted = p.promoted; failed = true } in
      if put then done else record { objects = staged; promoted = p.promoted; failed = true }

  unfoldable pub promote_all : List Item → Promotion O.State → Promotion O.State
  promote_all [] p = p
  promote_all (i ∷ is) p =
      let p' = promote_one i p in let rest = promote_all is p' in if p'.failed then p' else rest

  abbrev pub promoted_from : List Item → O.State → Promotion O.State
  promoted_from is objects =
      promote_all is (record { objects = objects; promoted = []; failed = false })

-- compensatePromotedOriginals, whose own failure is ignored
module _ (O : ObjectStorage) where
  unfoldable pub compensate_promoted_originals : List ObjectRef → O.State → O.State
  compensate_promoted_originals [] objects = objects
  compensate_promoted_originals (r ∷ rs) objects = (O.remove_many (r ∷ rs) objects).0

abbrev pub media_input : String → ℕ → Item → ObjectRef → CreateMediaWithDispatchInput
media_input post_id sort_order i original = record {
  id = i.media_id;
  post_id = post_id;
  sort_order = sort_order;
  media_type = i.upload.media_type;
  original_filename = i.upload.original_filename;
  original_extension = i.upload.extension;
  declared_mime_type = i.upload.declared_mime_type;
  detected_mime_type = i.upload.detected_mime_type;
  detected_format = i.upload.detected_format;
  original_bucket = original.bucket;
  original_object_key = original.object_key;
  original_size = i.upload.size_bytes;
  checksum_sha256 = i.upload.checksum_sha256;
  metadata = i.upload.preliminary_metadata;
  dispatch_id = i.dispatch_id;
}

module _ (X : Tables) (post_id : String) (now : ℕ) where
  -- the loop of the transaction, from a sort order on, `promoted[index]` beside the upload
  unfoldable pub insert_all : ℕ → List Item → List ObjectRef → Db X → Option (Db X × List MediaRow)
  insert_all sort_order [] promoted db = some (db, [])
  insert_all sort_order (i ∷ is) [] db = insert_all (suc sort_order) is [] db
  insert_all sort_order (i ∷ is) (r ∷ promoted) db =
      elim (create_with_dispatch X (media_input post_id sort_order i r) now db) [
        | none ↦ none
        | some (db', created) ↦ elim (insert_all (suc sort_order) is promoted db') [
          | none ↦ none
          | some (db'', rest) ↦ some (db'', record { id = i.media_id; row = created } ∷ rest)
        ]
      ]
