-- ===== src/Media/Presenter.antt =====
-- libs/media/src/presenters/media.presenter.ts: the media item that a response shows.
use Prim.Native.String.{◌++◌}
use posts_media.Common.{ℕ, String, Text, Option, none, some, List, map, if◌then◌else◌}
use posts_media.Common.Decimal.{decimal}
use posts_media.Domain.Enums.{MediaVariantType, ProcessingStatus, is_failed}
use posts_media.Domain.Texts.{status_text, step_text, variant_type_text}
use posts_media.Domain.Json.{
  Json, null, num, str, arr, obj, Fields, end, field, items, num_or_null, str_or_null,
}
use posts_media.Queues.Payload.{media_type_text}
use posts_media.Schema.{Media, MediaVariant}

pub record MediaVariantResponseDto : Type 0 where
  pub variant_type : String
  pub mime_type : String
  pub format : String
  pub width : Option ℕ
  pub height : Option ℕ
  pub bitrate_kbps : Option ℕ
  pub resolution_label : Option String

pub record MediaLastErrorDto : Type 0 where
  pub code : Text
  pub message : Text

pub record MediaLinksDto : Type 0 where
  pub self : String
  pub status : String
  pub access : String
  pub retry : Option String

pub record MediaResponseDto : Type 0 where
  pub id : String
  pub post_id : String
  pub sort_order : ℕ
  pub media_type : String
  pub original_filename : String
  pub detected_mime_type : String
  pub original_size : String
  pub checksum_sha256 : String
  pub processing_profile : String
  pub processing_generation : ℕ
  pub processing_status : String
  pub progress : ℕ
  pub current_step : String
  pub metadata : Option Json
  pub variants : List MediaVariantResponseDto
  pub last_error : Option MediaLastErrorDto
  pub links : MediaLinksDto

-- a variant with its type, which is part of its key
pub record TypedVariant : Type 0 where
  pub variant_type : MediaVariantType
  pub row : MediaVariant

abbrev pub present_variant : TypedVariant → MediaVariantResponseDto
present_variant v = record {
  variant_type = variant_type_text v.variant_type;
  mime_type = v.row.mime_type;
  format = v.row.format;
  width = v.row.width;
  height = v.row.height;
  bitrate_kbps = v.row.bitrate_kbps;
  resolution_label = v.row.resolution_label;
}

abbrev last_error_of : Option Text → Option Text → Option MediaLastErrorDto
last_error_of none message = none
last_error_of (some code) none = none
last_error_of (some code) (some message) = some (record { code = code; message = message })

abbrev pub links_of : String → ProcessingStatus → MediaLinksDto
links_of id status = record {
  self = "/api/media/" ++ id;
  status = "/api/media/" ++ (id ++ "/status");
  access = "/api/media/" ++ (id ++ "/access");
  retry = if is_failed status then some ("/api/media/" ++ (id ++ "/retry")) else none;
}

unfoldable pub present_media : String → Media → List TypedVariant → MediaResponseDto
present_media id m variants = record {
  id = id;
  post_id = m.post_id;
  sort_order = m.sort_order;
  media_type = media_type_text m.media_type;
  original_filename = m.original_filename;
  detected_mime_type = m.detected_mime_type;
  original_size = decimal m.original_size;
  checksum_sha256 = m.checksum_sha256;
  processing_profile = m.processing_profile;
  processing_generation = m.processing_generation;
  processing_status = status_text m.processing_status;
  progress = m.progress;
  current_step = step_text m.current_step;
  metadata = m.metadata;
  variants = map present_variant variants;
  last_error = last_error_of m.last_error_code m.last_error_message;
  links = links_of id m.processing_status;
}

-- The JSON text of a response. The texts of the last error are lists of code points in a row;
-- `string_of` makes strings of them.
module _ (string_of : Text → String) where
  abbrev last_error_json : Option MediaLastErrorDto → Json
  last_error_json none = null
  last_error_json (some e) =
      obj (field "code" (str (string_of e.code)) (field "message" (str (string_of e.message)) end))

  abbrev retry_field : Option String → Fields
  retry_field none = end
  retry_field (some t) = field "retry" (str t) end

  abbrev metadata_json : Option Json → Json
  metadata_json none = null
  metadata_json (some j) = j

  abbrev variant_json : MediaVariantResponseDto → Json
  variant_json v = obj (
      field "variantType" (str v.variant_type) (
        field "mimeType" (str v.mime_type) (
          field "format" (str v.format) (
            field "width" (num_or_null v.width) (
              field "height" (num_or_null v.height) (
                field "bitrateKbps" (num_or_null v.bitrate_kbps)
                  (field "resolutionLabel" (str_or_null v.resolution_label) end)))))))

  abbrev links_json : MediaLinksDto → Json
  links_json l = obj (
      field "self" (str l.self)
        (field "status" (str l.status) (field "access" (str l.access) (retry_field l.retry))))

  unfoldable pub media_json : MediaResponseDto → Json
  media_json d = obj (
      field "id" (str d.id) (
        field "postId" (str d.post_id) (
          field "sortOrder" (num d.sort_order) (
            field "mediaType" (str d.media_type) (
              field "originalFilename" (str d.original_filename) (
                field "detectedMimeType" (str d.detected_mime_type) (
                  field "originalSize" (str d.original_size) (
                    field "checksumSha256" (str d.checksum_sha256) (
                      field "processingProfile" (str d.processing_profile) (
                        field "processingGeneration" (num d.processing_generation) (
                          field "processingStatus" (str d.processing_status) (
                            field "progress" (num d.progress) (
                              field "currentStep" (str d.current_step) (
                                field "metadata" (metadata_json d.metadata) (
                                  field "variants" (arr (items variant_json d.variants)) (
                                    field "lastError" (last_error_json d.last_error)
                                      (field "links" (links_json d.links) end)))))))))))))))))
