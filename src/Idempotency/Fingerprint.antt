-- ===== src/Idempotency/Fingerprint.antt =====
-- libs/database/src/idempotency/idempotency-fingerprint.ts, and fingerprint-files.ts of
-- libs/media/src/validation. The digest of the stable JSON text is a function on documents.
use posts_media.Common.{String, Option, none, some, List, [], ◌∷◌, string_eq}
use posts_media.Common.Decimal.{decimal}
use posts_media.Domain.Json.{Json, str, arr, obj, Fields, end, field, items}
use posts_media.Domain.Result.{Result, ok, err}
use posts_media.Idempotency.{IdempotencyOperation, create_post, add_post_media, retry_media}
use posts_media.Validation.Names.{
  Member, own, normalize_original_filename, canonicalize_declared_mime_type,
}
use posts_media.Validation.Uploads.{File, Tools, declared_field}

pub record FingerprintFile : Type 0 where
  pub original_filename : String
  pub declared_mime_type : Member String
  pub size_bytes : String
  pub checksum_sha256 : String

pub record FingerprintInput : Type 0 where
  pub operation : IdempotencyOperation
  pub route_params : Fields
  pub body : Fields
  pub files : List FingerprintFile

abbrev pub operation_text : IdempotencyOperation → String
operation_text create_post = "CREATE_POST"
operation_text add_post_media = "ADD_POST_MEDIA"
operation_text retry_media = "RETRY_MEDIA"

abbrev file_json : FingerprintFile → Json
file_json f = obj (
    field "originalFilename" (str f.original_filename) (
      declared_field f.declared_mime_type (
        field "sizeBytes" (str f.size_bytes) (field "checksumSha256" (str f.checksum_sha256) end))))

abbrev pub canonical : FingerprintInput → Json
canonical i = obj (
    field "operation" (str (operation_text i.operation)) (
      field "routeParams" (obj i.route_params)
        (field "body" (obj i.body) (field "files" (arr (items file_json i.files)) end))))

abbrev pub compute_idempotency_fingerprint : (digest : Json → String) → FingerprintInput → String
compute_idempotency_fingerprint digest i = digest (canonical i)

abbrev safe_filename : String → String
safe_filename name = elim (normalize_original_filename name) [ ok n ↦ n | err e ↦ name ]

module _ (tools : Tools) where
  abbrev safe_mime_type : String → Member String
  safe_mime_type declared = elim (canonicalize_declared_mime_type tools.to_lower_case declared) [
    | ok t ↦ t
    | err e ↦ own declared
  ]

  -- one file; `none` is an error that is no DomainError
  unfoldable pub fingerprint_file : File → Option (Result FingerprintFile)
  fingerprint_file file = elim (tools.stat file.path) [
    | none ↦ none
    | some size ↦ elim (tools.checksum file.path) [
      | none ↦ none
      | some (err e) ↦ some (err e)
      | some (ok checksum) ↦ some (
          ok (record {
            original_filename = safe_filename file.originalname;
            declared_mime_type = safe_mime_type file.mimetype;
            size_bytes = decimal size;
            checksum_sha256 = checksum;
          }))
    ]
  ]

  -- Promise.all, which fails with the first file that fails
  unfoldable pub build_fingerprint_files : List File → Option (Result (List FingerprintFile))
  build_fingerprint_files [] = some (ok [])
  build_fingerprint_files (file ∷ files) = elim (fingerprint_file file) [
    | none ↦ none
    | some (err e) ↦ some (err e)
    | some (ok f) ↦ elim (build_fingerprint_files files) [
      | none ↦ none
      | some (err e) ↦ some (err e)
      | some (ok fs) ↦ some (ok (f ∷ fs))
    ]
  ]
