-- ===== src/Queues/Payload.antt =====
-- libs/queues/src/contracts/media-job-payload.ts, and the payload as the JSON that is stored.
use posts_media.Common.{ℕ, String}
use posts_media.Domain.Enums.{MediaType, DispatchReason}
use posts_media.Domain.Json.{Json, num, str, obj, end, field}

-- the texts of the enums' values
abbrev pub media_type_text : MediaType → String
media_type_text MediaType.image = "IMAGE"
media_type_text MediaType.audio = "AUDIO"
media_type_text MediaType.video = "VIDEO"

abbrev pub reason_text : DispatchReason → String
reason_text DispatchReason.initial_upload = "INITIAL_UPLOAD"
reason_text DispatchReason.manual_retry = "MANUAL_RETRY"

-- `processingProfile` is a text: a retry takes it from the media row. `payloadVersion` is 1.
pub record MediaJobPayload : Type 0 where
  pub dispatch_id : String
  pub media_id : String
  pub post_id : String
  pub media_type : MediaType
  pub generation : ℕ
  pub processing_profile : String
  pub reason : DispatchReason

abbrev pub payload_json : MediaJobPayload → Json
payload_json p = obj (
    field "payloadVersion" (num 1) (
      field "dispatchId" (str p.dispatch_id) (
        field "mediaId" (str p.media_id) (
          field "postId" (str p.post_id) (
            field "mediaType" (str (media_type_text p.media_type)) (
              field "generation" (num p.generation) (
                field "processingProfile" (str p.processing_profile)
                  (field "reason" (str (reason_text p.reason)) end))))))))
