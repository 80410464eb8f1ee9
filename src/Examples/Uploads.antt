-- ===== src/Examples/Uploads.antt =====
-- A request with two files.
use posts_media.Common.{String, ◌≡◌, refl, some, List, [], ◌∷◌, All, length, ◌≤◌}
use posts_media.Domain.Enums.{MediaType}
use posts_media.Domain.Errors.{ErrorCode}
use posts_media.Domain.Json.{str, obj, end, field}
use posts_media.Domain.Result.{ok}
use posts_media.Common.Decimal.{decimal}
use posts_media.Signature.{detect_header_signature, starts_with}
use posts_media.Signature.Policies.{signature_matches_policy}
use posts_media.Validation.Names.{
  normalize_original_filename, resolve_extension_policy, extension_of, policy_of, member,
  find_policy, canonicalize_declared_mime_type, is_declared_mime_compatible,
}
use posts_media.Validation.{
  validate_files, outcomes_from, preflight, validate_file, checked, inspected, matched,
}
use posts_media.Validation.Uploads.{File, Limits, Tools, FileValidationOutcome, accepted, refused}
use posts_media.Validation.Batch.{
  validate_files-IsSound, IsSoundOutcome, accepted_size, accepted_number,
}

abbrev pub limits : Limits
limits = record {
  max_files_per_request = 5;
  max_total_upload_size_mb = 1;
  max_image_size_mb = 1;
  max_audio_size_mb = 1;
  max_video_size_mb = 1;
}

abbrev pub tools : Tools
tools = record {
  to_lower_case = λ s. s;
  stat = λ path. some 700000;
  header = λ path. some (0x89 ∷ 0x50 ∷ 0x4E ∷ 0x47 ∷ 0x0D ∷ 0x0A ∷ 0x1A ∷ 0x0A ∷ []);
  inspect = λ t path format.
      some (ok (record { format = "png"; mime_type = "image/png"; metadata = obj end }));
  assert_safety = λ t i. some (ok tt);
  checksum = λ path. some (ok "5feceb66");
}

abbrev pub file : String → File
file name = record { path = "/tmp/upload"; originalname = name; mimetype = "image/x-png" }

abbrev pub files : List File
files = file "C:\\photos\\my  cat.png" ∷ file "cat.png" ∷ []

abbrev pub outcomes : List FileValidationOutcome
outcomes =
    accepted (record {
      file_index = 0;
      temporary_path = "/tmp/upload";
      original_filename = "my cat.png";
      extension = "png";
      declared_mime_type = "image/png";
      detected_mime_type = "image/png";
      detected_format = "png";
      media_type = MediaType.image;
      size_bytes = 700000;
      checksum_sha256 = "5feceb66";
      preliminary_metadata = obj end;
    })
    ∷ refused (record {
      file_index = 1;
      original_filename = "cat.png";
      code = ErrorCode.total_upload_size_exceeded;
      message = "The request exceeds the total upload size limit.";
      details = some (obj (field "maximumBytes" (str "1048576") end));
    })
    ∷ []

outcomes_test : validate_files limits tools files ≡ outcomes
unfolding validate_files outcomes_from preflight validate_file checked inspected matched
    normalize_original_filename resolve_extension_policy extension_of policy_of member find_policy
    canonicalize_declared_mime_type is_declared_mime_compatible signature_matches_policy
    detect_header_signature starts_with decimal
outcomes_test = refl

validate_files-IsSound_example :
    (length (validate_files limits tools files) ≡ 2)
    × All (IsSoundOutcome limits) (validate_files limits tools files)
    × (accepted_size (validate_files limits tools files) ≤ 1048576)
    × (accepted_number (validate_files limits tools files) ≤ 5)
validate_files-IsSound_example = validate_files-IsSound limits tools files

-- an extension that is the name of a member of Object.prototype
strange_extension_test :
    validate_files limits tools (file "cat.constructor" ∷ [])
    ≡ refused (record {
      file_index = 0;
      original_filename = "cat.constructor";
      code = ErrorCode.file_signature_mismatch;
      message = "The uploaded content does not match the submitted media format.";
      details = some (
          obj (
            field "declaredMimeType"
              (str "image/png")
              (field "detectedMimeType" (str "image/png") end)));
    })
      ∷ []
unfolding validate_files outcomes_from preflight validate_file checked inspected matched
    normalize_original_filename resolve_extension_policy extension_of policy_of member find_policy
    canonicalize_declared_mime_type is_declared_mime_compatible signature_matches_policy
    detect_header_signature starts_with decimal
strange_extension_test = refl
