-- ===== src/Inspection.antt =====
-- The inspectors of libs/media/src/validation: av-inspector.service.ts and image-inspector.service.ts.
-- What ffprobe and sharp report is an argument.
pub mod Numbers
pub mod Formats
pub mod Documents
pub mod Tables
pub mod Sound
pub mod Images
pub mod Probe
use posts_media.Common.{ℕ, String, Bool, true, false, Option, none, some, ltb, if◌then◌else◌}
use posts_media.Domain.Enums.{MediaType}
use posts_media.Domain.Errors.{DomainError, ErrorCode}
use posts_media.Domain.Json.{Json, num, str, obj, end, field}
use posts_media.Domain.Result.{Result, ok, err, ◌>>=◌}
use posts_media.Signature.{SignatureDetection}
use posts_media.Inspection.Numbers.{Number, above, of_nat}
use posts_media.Inspection.Documents.{
  AvInspection, AvInspectionRequest, ProbeDocument, validate_document,
}

-- the limits of EnvironmentConfiguration['upload'] that the inspector reads
pub record SafetyLimits : Type 0 where
  pub max_media_streams : ℕ
  pub max_audio_duration_seconds : ℕ
  pub max_video_duration_seconds : ℕ
  pub max_video_width : ℕ
  pub max_video_height : ℕ

abbrev safety_limit : String → Json → ℕ → DomainError
safety_limit name actual maximum = record {
  code = ErrorCode.file_size_exceeded;
  message = "The uploaded media exceeds a configured safety limit.";
  http_status = 422;
  details =
      some (
        obj (field "field" (str name) (field "actual" actual (field "maximum" (num maximum) end))));
}

-- `json_of` is a number as JSON.stringify prints it
module _ (json_of : Number → Json) (limits : SafetyLimits) where
  abbrev pub streams_within : AvInspection → Result (Unit {0})
  streams_within i =
      if ltb limits.max_media_streams i.stream_count
      then err (safety_limit "streamCount" (num i.stream_count) limits.max_media_streams)
      else ok tt

  abbrev pub maximum_duration : MediaType → ℕ
  maximum_duration MediaType.audio = limits.max_audio_duration_seconds
  maximum_duration t = limits.max_video_duration_seconds

  abbrev pub number_within : String → Number → ℕ → Result (Unit {0})
  number_within name actual maximum =
      if above actual (of_nat maximum)
      then err (safety_limit name (json_of actual) maximum)
      else ok tt

  abbrev pub side_within : String → Option Number → ℕ → Result (Unit {0})
  side_within name none maximum = ok tt
  side_within name (some actual) maximum = number_within name actual maximum

  abbrev pub frame_within : MediaType → AvInspection → Result (Unit {0})
  frame_within MediaType.video i = side_within "width" i.width limits.max_video_width >>= λ _.
      side_within "height" i.height limits.max_video_height
  frame_within t i = ok tt

  unfoldable pub assert_safety : MediaType → AvInspection → Result (Unit {0})
  assert_safety t i = streams_within i >>= λ _.
      number_within "durationSeconds" i.duration_seconds (maximum_duration t) >>= λ _.
      frame_within t i

  -- inspect, with what the probe and the signature detector answer
  unfoldable pub inspect :
      (number_of : String → Number)
      → Result ProbeDocument
      → Result SignatureDetection
      → AvInspectionRequest
      → Bool
      → Result AvInspection
  inspect number_of probed detected request enforce_safety_limits = probed >>= λ document.
      detected >>= λ signature.
      validate_document number_of document request signature >>= λ inspection.
      (if enforce_safety_limits then assert_safety request.media_type inspection else ok tt)
      >>= λ _. ok inspection
