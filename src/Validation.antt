-- ===== src/Validation.antt =====
-- MediaValidationService of libs/media/src/validation/media-validation.service.ts. The files, their
-- inspectors and their checksums are an interface.
pub mod Names
pub mod Uploads
pub mod Accepted
pub mod Batch
use posts_media.Common.{
  ℕ, suc, ◌+◌, ◌*◌, String, Text, Bool, ◌&&◌, Option, none, some, List, [], ◌∷◌, ltb, leb, nat_beq,
  ◌==◌, string_eq, if◌then◌else◌,
}
use posts_media.Common.Decimal.{decimal}
use posts_media.Domain.Enums.{MediaType}
use posts_media.Domain.Errors.{DomainError, ErrorCode}
use posts_media.Domain.Json.{Json, str, num, obj, end, field, Fields}
use posts_media.Domain.Result.{Result, ok, err, ◌>>=◌}
use posts_media.Signature.{SignatureDetection, detect_header_signature}
use posts_media.Signature.Policies.{ExtensionPolicy, signature_matches_policy}
use posts_media.Validation.Names.{
  Member, own, inherited, absent, normalize_original_filename, resolve_extension_policy,
  canonicalize_declared_mime_type, is_declared_mime_compatible,
}
use posts_media.Validation.Uploads.{
  File, Limits, Inspection, Tools, ValidatedUpload, FileValidationError, FileValidationOutcome,
  Matched, upload_of, mebibyte, corrupted_file, or_corrupted, safe_filename, to_file_error,
  failure_outcome, file_signature_mismatch, extension_field, declared_field, signature_mismatch,
  accepted, refused,
}

unfoldable pub matched :
    Member ExtensionPolicy → Member String → SignatureDetection → Result Matched
matched (own p) (own t) s =
    if signature_matches_policy s p && is_declared_mime_compatible p t
    then ok (record { policy = p; declared_mime_type = t })
    else err (signature_mismatch (own p) (own t) s.mime_type)
matched p t s = err (signature_mismatch p t s.mime_type)

abbrev empty_upload : DomainError
empty_upload = record {
  code = ErrorCode.empty_file;
  message = "The uploaded file is empty.";
  http_status = 422;
  details = none;
}

abbrev pub not_empty : ℕ → Result (Unit {0})
not_empty size = if nat_beq size 0 then err empty_upload else ok tt

abbrev pub same_format : Matched → Inspection → Result (Unit {0})
same_format m i =
    if i.format == m.policy.format && i.mime_type == m.policy.detected_mime_type
    then ok tt
    else err (signature_mismatch (own m.policy) (own m.declared_mime_type) i.mime_type)

abbrev pub maximum_bytes : Limits → MediaType → ℕ
maximum_bytes limits MediaType.image = limits.max_image_size_mb * mebibyte
maximum_bytes limits MediaType.audio = limits.max_audio_size_mb * mebibyte
maximum_bytes limits MediaType.video = limits.max_video_size_mb * mebibyte

module _ (limits : Limits) (tools : Tools) where
  abbrev maximum_field : ℕ → Option Json
  maximum_field n = some (obj (field "maximumBytes" (str (decimal n)) end))

  abbrev pub within_limit : MediaType → ℕ → Result (Unit {0})
  within_limit t size =
      if ltb (maximum_bytes limits t) size
      then err (record {
        code = ErrorCode.file_size_exceeded;
        message = "The uploaded file exceeds the size limit for its media type.";
        http_status = 422;
        details = maximum_field (maximum_bytes limits t);
      })
      else ok tt

  abbrev pub is_safe : MediaType → Inspection → Result (Unit {0})
  is_safe MediaType.image i = ok tt
  is_safe MediaType.audio i = or_corrupted (tools.assert_safety MediaType.audio i)
  is_safe MediaType.video i = or_corrupted (tools.assert_safety MediaType.video i)

  abbrev pub detect : String → Result SignatureDetection
  detect path = elim (tools.header path) [
    | none ↦ err corrupted_file
    | some header ↦ detect_header_signature header
  ]

  -- the inspection of a matched file, up to its checksum
  unfoldable pub inspected : File → ℕ → ℕ → String → Matched → Result ValidatedUpload
  inspected file file_index size name m =
      or_corrupted (tools.inspect m.policy.media_type file.path m.policy.format) >>= λ i.
      same_format m i >>= λ _. within_limit m.policy.media_type size >>= λ _.
      is_safe m.policy.media_type i >>= λ _. or_corrupted (tools.checksum file.path) >>= λ checksum.
      ok (upload_of file file_index size name m i checksum)

  -- the body of the `try`
  unfoldable pub checked : File → ℕ → ℕ → Result ValidatedUpload
  checked file file_index size = not_empty size >>= λ _.
      normalize_original_filename file.originalname >>= λ name.
      resolve_extension_policy tools.to_lower_case name >>= λ policy.
      canonicalize_declared_mime_type tools.to_lower_case file.mimetype >>= λ declared.
      detect file.path >>= λ signature.
      matched policy declared signature >>= λ m. inspected file file_index size name m

  abbrev pub caught : File → ℕ → Result ValidatedUpload → FileValidationOutcome
  caught file file_index (ok v) = accepted v
  caught file file_index (err e) = failure_outcome file_index file.originalname e

  unfoldable pub validate_file : File → ℕ → ℕ → FileValidationOutcome
  validate_file file file_index size = caught file file_index (checked file file_index size)

  abbrev file_count_exceeded : DomainError
  file_count_exceeded = record {
    code = ErrorCode.file_count_exceeded;
    message = "The request contains too many uploaded files.";
    http_status = 400;
    details = some (obj (field "maximum" (num limits.max_files_per_request) end));
  }

  abbrev pub maximum_total : ℕ
  maximum_total = limits.max_total_upload_size_mb * mebibyte

  abbrev total_upload_size_exceeded : DomainError
  total_upload_size_exceeded = record {
    code = ErrorCode.total_upload_size_exceeded;
    message = "The request exceeds the total upload size limit.";
    http_status = 413;
    details = maximum_field maximum_total;
  }

  -- what preflight knows of one file, from its `stat`: its size, or an error
  abbrev size_entry : ℕ → Option ℕ → Result ℕ
  size_entry aggregate none = err corrupted_file
  size_entry aggregate (some size) =
      if ltb maximum_total (aggregate + size) then err total_upload_size_exceeded else ok size

  abbrev pub entry : ℕ → ℕ → Option ℕ → Result ℕ
  entry file_index aggregate size =
      if leb limits.max_files_per_request file_index
      then err file_count_exceeded
      else size_entry aggregate size

  -- `aggregate` after one file; a file that exceeds the limit still counts
  abbrev pub added : ℕ → ℕ → Option ℕ → ℕ
  added file_index aggregate none = aggregate
  added file_index aggregate (some size) =
      if leb limits.max_files_per_request file_index then aggregate else aggregate + size

  -- the entries of the files from an index on
  unfoldable pub preflight : (file_index aggregate : ℕ) → List File → List (Result ℕ)
  preflight file_index aggregate [] = []
  preflight file_index aggregate (file ∷ files) =
      let size = tools.stat file.path in
      entry file_index aggregate size
      ∷ preflight (suc file_index) (added file_index aggregate size) files

  abbrev pub outcome_of : File → ℕ → Result ℕ → FileValidationOutcome
  outcome_of file file_index (err e) = failure_outcome file_index file.originalname e
  outcome_of file file_index (ok size) = validate_file file file_index size

  -- the loop of validateFiles
  unfoldable pub outcomes_from : ℕ → List File → List (Result ℕ) → List FileValidationOutcome
  outcomes_from file_index (file ∷ files) (r ∷ rs) =
      outcome_of file file_index r ∷ outcomes_from (suc file_index) files rs
  outcomes_from file_index _ _ = []

  unfoldable pub validate_files : List File → List FileValidationOutcome
  validate_files files = outcomes_from 0 files (preflight 0 0 files)
