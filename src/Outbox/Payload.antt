-- ===== src/Outbox/Payload.antt =====
-- payloadFor and the mapping check of apps/worker/src/outbox/dispatch-publication.service.ts
use posts_media.Common.{
  ℕ, String, Text, Bool, false, ◌&&◌, Option, none, some, ◌==◌, string_eq, nat_eq, if◌then◌else◌,
  codes,
}
use posts_media.Domain.Enums.{MediaType}
use posts_media.Domain.Json.{Json, num, str, get}
use posts_media.Domain.Result.{Try, returned, thrown}
use posts_media.Queues.{queue_name_for, job_name_for, media_job_id}
use posts_media.Queues.Payload.{reason_text}
use posts_media.Schema.{ProcessingDispatch}

-- `payload.name` is a text
abbrev text_at : String → Json → Option String
text_at name payload = elim (get name payload) [ some (str t) ↦ some t | _ ↦ none ]

abbrev is_number : ℕ → String → Json → Bool
is_number n name payload = elim (get name payload) [ some (num k) ↦ k == n | _ ↦ false ]

abbrev is_text : String → String → Json → Bool
is_text t name payload = elim (text_at name payload) [ some u ↦ u == t | none ↦ false ]

-- Object.values(MediaType).includes(text)
unfoldable pub media_type_of : String → Option MediaType
media_type_of t =
    if t == "IMAGE"
    then some MediaType.image
    else if t == "AUDIO"
    then some MediaType.audio
    else if t == "VIDEO"
    then some MediaType.video
    else none

abbrev pub payload_invalid : Text
payload_invalid = codes "OUTBOX_PAYLOAD_INVALID"

abbrev pub mapping_invalid : Text
mapping_invalid = codes "OUTBOX_MAPPING_INVALID"

-- the fields that must agree with the row; a value that is no object has none of them
unfoldable pub payload_agrees : String → ProcessingDispatch → Bool
payload_agrees id d =
    is_number 1 "payloadVersion" d.payload
    && (is_text id "dispatchId" d.payload
        && (is_text d.media_id "mediaId" d.payload
            && (is_number d.generation "generation" d.payload
                && (is_text "balanced-v1" "processingProfile" d.payload
                    && is_text (reason_text d.reason) "reason" d.payload))))

-- the media type of a payload that is accepted
unfoldable pub payload_for : String → ProcessingDispatch → Try MediaType
payload_for id d = elim (text_at "postId" d.payload) [
  | none ↦ thrown payload_invalid
  | some post_id ↦ elim (text_at "mediaType" d.payload) [
    | none ↦ thrown payload_invalid
    | some text ↦ elim (media_type_of text) [
      | none ↦ thrown payload_invalid
      | some t ↦ if payload_agrees id d then returned t else thrown payload_invalid
    ]
  ]
]

-- the `try` block: the queue that the dispatch goes to
unfoldable pub queue_of : String → ProcessingDispatch → Try MediaType
queue_of id d = elim (payload_for id d) [
  | thrown e ↦ thrown e
  | returned t ↦
      if d.queue_name == queue_name_for t
        && (d.job_name == job_name_for t && d.job_id == media_job_id d.media_id d.generation)
      then returned t
      else thrown mapping_invalid
]
