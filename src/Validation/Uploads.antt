-- ===== src/Validation/Uploads.antt =====
-- The data of libs/media/src/validation/media-validation.service.ts, its interface to the files, and the
-- errors that it reports.
use posts_media.Common.{ℕ, ◌*◌, String, Option, none, some, List, ◌==◌, string_eq, if◌then◌else◌}
use posts_media.Domain.Enums.{MediaType}
use posts_media.Domain.Errors.{DomainError, ErrorCode}
use posts_media.Domain.Json.{Json, str, obj, end, field, Fields}
use posts_media.Domain.Result.{Result, ok, err}
use posts_media.Signature.Policies.{ExtensionPolicy}
use posts_media.Validation.Names.{Member, own, inherited, absent, normalize_original_filename}

-- Express.Multer.File, as far as it is read
pub record File : Type 0 where
  pub path : String
  pub originalname : String
  pub mimetype : String

-- the limits of EnvironmentConfiguration['upload']
pub record Limits : Type 0 where
  pub max_files_per_request : ℕ
  pub max_total_upload_size_mb : ℕ
  pub max_image_size_mb : ℕ
  pub max_audio_size_mb : ℕ
  pub max_video_size_mb : ℕ

-- what an inspector reports
pub record Inspection : Type 0 where
  pub format : String
  pub mime_type : String
  pub metadata : Json

-- What reads a file. `none` is an error that is not a DomainError.
pub record Tools : Type 0 where
  pub to_lower_case : String → String
  pub stat : String → Option ℕ
  pub header : String → Option (List ℕ)
  pub inspect : MediaType → (path format : String) → Option (Result Inspection)
  pub assert_safety : MediaType → Inspection → Option (Result (Unit {0}))
  pub checksum : String → Option (Result String)

pub record ValidatedUpload : Type 0 where
  pub file_index : ℕ
  pub temporary_path : String
  pub original_filename : String
  pub extension : String
  pub declared_mime_type : String
  pub detected_mime_type : String
  pub detected_format : String
  pub media_type : MediaType
  pub size_bytes : ℕ
  pub checksum_sha256 : String
  pub preliminary_metadata : Json

pub record FileValidationError : Type 0 where
  pub file_index : ℕ
  pub original_filename : String
  pub code : ErrorCode
  pub message : String
  pub details : Option Json

pub data FileValidationOutcome : Type 0 where
  accepted : ValidatedUpload → FileValidationOutcome
  refused : FileValidationError → FileValidationOutcome

-- A policy and the declared type that stand together. An inherited member has no `format`, so that
-- no signature matches it, and equals no declared type.
pub record Matched : Type 0 where
  pub policy : ExtensionPolicy
  pub declared_mime_type : String

-- the value of an upload that passed
abbrev pub upload_of : File → ℕ → ℕ → String → Matched → Inspection → String → ValidatedUpload
upload_of file file_index size name m i checksum = record {
  file_index = file_index;
  temporary_path = file.path;
  original_filename = name;
  extension = m.policy.extension;
  declared_mime_type = m.declared_mime_type;
  detected_mime_type = i.mime_type;
  detected_format = i.format;
  media_type = m.policy.media_type;
  size_bytes = size;
  checksum_sha256 = checksum;
  preliminary_metadata = i.metadata;
}

abbrev pub mebibyte : ℕ
mebibyte = 1024 * 1024

abbrev pub corrupted_file : DomainError
corrupted_file = record {
  code = ErrorCode.corrupted_file;
  message = "The uploaded file could not be inspected.";
  http_status = 422;
  details = none;
}

-- what `catch` makes of an error that is not a DomainError
abbrev pub or_corrupted : {A : Type 0} → Option (Result A) → Result A
or_corrupted none = err corrupted_file
or_corrupted (some r) = r

abbrev pub safe_filename : String → String
safe_filename original_filename = elim (normalize_original_filename original_filename) [
  | ok name ↦ name
  | err e ↦ "unnamed"
]

abbrev pub to_file_error : ℕ → String → DomainError → FileValidationError
to_file_error file_index original_filename e = record {
  file_index = file_index;
  original_filename = safe_filename original_filename;
  code = e.code;
  message = e.message;
  details = e.details;
}

abbrev pub failure_outcome : ℕ → String → DomainError → FileValidationOutcome
failure_outcome file_index original_filename e =
    refused (to_file_error file_index original_filename e)

abbrev pub file_signature_mismatch : Fields → DomainError
file_signature_mismatch details = record {
  code = ErrorCode.file_signature_mismatch;
  message = "The uploaded content does not match the submitted media format.";
  http_status = 422;
  details = some (obj details);
}

-- In the details a function or `undefined` is left out of the JSON text, and Object.prototype is
-- the empty object.
abbrev pub extension_field : Member ExtensionPolicy → Fields → Fields
extension_field (own p) rest = field "extension" (str p.extension) rest
extension_field m rest = rest

abbrev pub declared_field : Member String → Fields → Fields
declared_field (own t) rest = field "declaredMimeType" (str t) rest
declared_field (inherited name) rest =
    if name == "__proto__" then field "declaredMimeType" (obj end) rest else rest
declared_field absent rest = rest

abbrev pub signature_mismatch : Member ExtensionPolicy → Member String → String → DomainError
signature_mismatch policy declared detected =
    file_signature_mismatch (
      extension_field policy
        (declared_field declared (field "detectedMimeType" (str detected) end)))
