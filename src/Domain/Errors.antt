-- ===== src/Domain/Errors.antt =====
-- libs/domain/src/errors
use posts_media.Common.{
  ℕ, String, Option, none, some, List, [], ◌∷◌, ◌==◌, string_eq, if◌then◌else◌, ◌≡◌, refl,
}
use posts_media.Domain.Json.{Json}

pub data ErrorCode : Type 0 where
  internal_error validation_failed idempotency_key_required idempotency_key_invalid : ErrorCode
  idempotency_key_reused idempotency_request_in_progress post_not_found post_soft_deleted :
      ErrorCode
  post_media_validation_failed media_not_found media_retry_not_allowed multipart_body_invalid :
      ErrorCode
  unexpected_file_field file_count_exceeded total_upload_size_exceeded : ErrorCode
  file_transport_size_exceeded empty_file invalid_original_filename missing_extension : ErrorCode
  unsupported_extension unsupported_mime_type unknown_file_signature file_signature_mismatch :
      ErrorCode
  corrupted_file animated_image_not_supported image_pixel_limit_exceeded media_stream_not_found :
      ErrorCode
  unsupported_audio_codec unsupported_video_codec media_validation_timeout file_size_exceeded :
      ErrorCode
  temporary_file_write_failed checksum_calculation_failed storage_unavailable : ErrorCode
  original_promotion_failed queue_dispatch_dead processing_timeout processing_output_invalid :
      ErrorCode
  processing_checksum_mismatch : ErrorCode

-- `new DomainError(code, message, httpStatus, details)`
pub record DomainError : Type 0 where
  pub code : ErrorCode
  pub message : String
  pub http_status : ℕ
  pub details : Option Json

abbrev pub code_text : ErrorCode → String
code_text ErrorCode.internal_error = "INTERNAL_ERROR"
code_text ErrorCode.validation_failed = "VALIDATION_FAILED"
code_text ErrorCode.idempotency_key_required = "IDEMPOTENCY_KEY_REQUIRED"
code_text ErrorCode.idempotency_key_invalid = "IDEMPOTENCY_KEY_INVALID"
code_text ErrorCode.idempotency_key_reused = "IDEMPOTENCY_KEY_REUSED"
code_text ErrorCode.idempotency_request_in_progress = "IDEMPOTENCY_REQUEST_IN_PROGRESS"
code_text ErrorCode.post_not_found = "POST_NOT_FOUND"
code_text ErrorCode.post_soft_deleted = "POST_SOFT_DELETED"
code_text ErrorCode.post_media_validation_failed = "POST_MEDIA_VALIDATION_FAILED"
code_text ErrorCode.media_not_found = "MEDIA_NOT_FOUND"
code_text ErrorCode.media_retry_not_allowed = "MEDIA_RETRY_NOT_ALLOWED"
code_text ErrorCode.multipart_body_invalid = "MULTIPART_BODY_INVALID"
code_text ErrorCode.unexpected_file_field = "UNEXPECTED_FILE_FIELD"
code_text ErrorCode.file_count_exceeded = "FILE_COUNT_EXCEEDED"
code_text ErrorCode.total_upload_size_exceeded = "TOTAL_UPLOAD_SIZE_EXCEEDED"
code_text ErrorCode.file_transport_size_exceeded = "FILE_TRANSPORT_SIZE_EXCEEDED"
code_text ErrorCode.empty_file = "EMPTY_FILE"
code_text ErrorCode.invalid_original_filename = "INVALID_ORIGINAL_FILENAME"
code_text ErrorCode.missing_extension = "MISSING_EXTENSION"
code_text ErrorCode.unsupported_extension = "UNSUPPORTED_EXTENSION"
code_text ErrorCode.unsupported_mime_type = "UNSUPPORTED_MIME_TYPE"
code_text ErrorCode.unknown_file_signature = "UNKNOWN_FILE_SIGNATURE"
code_text ErrorCode.file_signature_mismatch = "FILE_SIGNATURE_MISMATCH"
code_text ErrorCode.corrupted_file = "CORRUPTED_FILE"
code_text ErrorCode.animated_image_not_supported = "ANIMATED_IMAGE_NOT_SUPPORTED"
code_text ErrorCode.image_pixel_limit_exceeded = "IMAGE_PIXEL_LIMIT_EXCEEDED"
code_text ErrorCode.media_stream_not_found = "MEDIA_STREAM_NOT_FOUND"
code_text ErrorCode.unsupported_audio_codec = "UNSUPPORTED_AUDIO_CODEC"
code_text ErrorCode.unsupported_video_codec = "UNSUPPORTED_VIDEO_CODEC"
code_text ErrorCode.media_validation_timeout = "MEDIA_VALIDATION_TIMEOUT"
code_text ErrorCode.file_size_exceeded = "FILE_SIZE_EXCEEDED"
code_text ErrorCode.temporary_file_write_failed = "TEMPORARY_FILE_WRITE_FAILED"
code_text ErrorCode.checksum_calculation_failed = "CHECKSUM_CALCULATION_FAILED"
code_text ErrorCode.storage_unavailable = "STORAGE_UNAVAILABLE"
code_text ErrorCode.original_promotion_failed = "ORIGINAL_PROMOTION_FAILED"
code_text ErrorCode.queue_dispatch_dead = "QUEUE_DISPATCH_DEAD"
code_text ErrorCode.processing_timeout = "PROCESSING_TIMEOUT"
code_text ErrorCode.processing_output_invalid = "PROCESSING_OUTPUT_INVALID"
code_text ErrorCode.processing_checksum_mismatch = "PROCESSING_CHECKSUM_MISMATCH"

abbrev pub error_codes : List ErrorCode
error_codes =
    ErrorCode.internal_error ∷ ErrorCode.validation_failed ∷ ErrorCode.idempotency_key_required
    ∷ ErrorCode.idempotency_key_invalid ∷ ErrorCode.idempotency_key_reused
    ∷ ErrorCode.idempotency_request_in_progress ∷ ErrorCode.post_not_found
    ∷ ErrorCode.post_soft_deleted ∷ ErrorCode.post_media_validation_failed
    ∷ ErrorCode.media_not_found ∷ ErrorCode.media_retry_not_allowed
    ∷ ErrorCode.multipart_body_invalid ∷ ErrorCode.unexpected_file_field
    ∷ ErrorCode.file_count_exceeded ∷ ErrorCode.total_upload_size_exceeded
    ∷ ErrorCode.file_transport_size_exceeded ∷ ErrorCode.empty_file
    ∷ ErrorCode.invalid_original_filename ∷ ErrorCode.missing_extension
    ∷ ErrorCode.unsupported_extension ∷ ErrorCode.unsupported_mime_type
    ∷ ErrorCode.unknown_file_signature ∷ ErrorCode.file_signature_mismatch
    ∷ ErrorCode.corrupted_file ∷ ErrorCode.animated_image_not_supported
    ∷ ErrorCode.image_pixel_limit_exceeded ∷ ErrorCode.media_stream_not_found
    ∷ ErrorCode.unsupported_audio_codec ∷ ErrorCode.unsupported_video_codec
    ∷ ErrorCode.media_validation_timeout ∷ ErrorCode.file_size_exceeded
    ∷ ErrorCode.temporary_file_write_failed ∷ ErrorCode.checksum_calculation_failed
    ∷ ErrorCode.storage_unavailable ∷ ErrorCode.original_promotion_failed
    ∷ ErrorCode.queue_dispatch_dead ∷ ErrorCode.processing_timeout
    ∷ ErrorCode.processing_output_invalid ∷ ErrorCode.processing_checksum_mismatch ∷ []

find_code : String → List ErrorCode → Option ErrorCode
find_code t [] = none
find_code t (c ∷ cs) = let rest = find_code t cs in if code_text c == t then some c else rest

-- `isErrorCode(value)`, with the code that it narrows to
unfoldable pub code_of_text : String → Option ErrorCode
unfolding find_code
code_of_text t = find_code t error_codes

-- Every error code is found again from its text.
pub code_of_text-code_text : (c : ErrorCode) → code_of_text (code_text c) ≡ some c
unfolding code_of_text
code_of_text-code_text ErrorCode.internal_error = refl
code_of_text-code_text ErrorCode.validation_failed = refl
code_of_text-code_text ErrorCode.idempotency_key_required = refl
code_of_text-code_text ErrorCode.idempotency_key_invalid = refl
code_of_text-code_text ErrorCode.idempotency_key_reused = refl
code_of_text-code_text ErrorCode.idempotency_request_in_progress = refl
code_of_text-code_text ErrorCode.post_not_found = refl
code_of_text-code_text ErrorCode.post_soft_deleted = refl
code_of_text-code_text ErrorCode.post_media_validation_failed = refl
code_of_text-code_text ErrorCode.media_not_found = refl
code_of_text-code_text ErrorCode.media_retry_not_allowed = refl
code_of_text-code_text ErrorCode.multipart_body_invalid = refl
code_of_text-code_text ErrorCode.unexpected_file_field = refl
code_of_text-code_text ErrorCode.file_count_exceeded = refl
code_of_text-code_text ErrorCode.total_upload_size_exceeded = refl
code_of_text-code_text ErrorCode.file_transport_size_exceeded = refl
code_of_text-code_text ErrorCode.empty_file = refl
code_of_text-code_text ErrorCode.invalid_original_filename = refl
code_of_text-code_text ErrorCode.missing_extension = refl
code_of_text-code_text ErrorCode.unsupported_extension = refl
code_of_text-code_text ErrorCode.unsupported_mime_type = refl
code_of_text-code_text ErrorCode.unknown_file_signature = refl
code_of_text-code_text ErrorCode.file_signature_mismatch = refl
code_of_text-code_text ErrorCode.corrupted_file = refl
code_of_text-code_text ErrorCode.animated_image_not_supported = refl
code_of_text-code_text ErrorCode.image_pixel_limit_exceeded = refl
code_of_text-code_text ErrorCode.media_stream_not_found = refl
code_of_text-code_text ErrorCode.unsupported_audio_codec = refl
code_of_text-code_text ErrorCode.unsupported_video_codec = refl
code_of_text-code_text ErrorCode.media_validation_timeout = refl
code_of_text-code_text ErrorCode.file_size_exceeded = refl
code_of_text-code_text ErrorCode.temporary_file_write_failed = refl
code_of_text-code_text ErrorCode.checksum_calculation_failed = refl
code_of_text-code_text ErrorCode.storage_unavailable = refl
code_of_text-code_text ErrorCode.original_promotion_failed = refl
code_of_text-code_text ErrorCode.queue_dispatch_dead = refl
code_of_text-code_text ErrorCode.processing_timeout = refl
code_of_text-code_text ErrorCode.processing_output_invalid = refl
code_of_text-code_text ErrorCode.processing_checksum_mismatch = refl
