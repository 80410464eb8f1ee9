-- ===== src/Examples/Inspections.antt =====
-- Inspections of a video and of an image, probes, and the artifacts of a video.
use posts_media.Common.{
  ℕ, String, ◌≡◌, ◌≢◌, ◌↔◌, ◌≤◌, ◌<◌, ◌*◌, refl, true, false, Option, none, some, List, [], ◌∷◌,
  length, arith, ◌==◌, string_eq,
}
use posts_media.Domain.Enums.{MediaType}
use posts_media.Domain.Json.{null}
use posts_media.Domain.Result.{ok}
use posts_media.Signature.{SignatureDetection, ContainerFamily, starts_with}
use posts_media.Inspection.{SafetyLimits, inspect, assert_safety}
use posts_media.Inspection.Numbers.{Number, of_nat, maximum_from}
use posts_media.Inspection.Formats.{
  container_matches, expected_names, derive_format, stream_contract_matches, media_type_for_format,
  mime_for_format, is_supported_audio, is_supported_video,
}
use posts_media.Inspection.Documents.{
  AvInspection, AvInspectionRequest, ProbeStream, ProbeDocument, validate_document, media_duration,
}
use posts_media.Inspection.Sound.{IsInspected}
use posts_media.Inspection.Sound.Limits.{inspect-IsInspected, SafeIf}
use posts_media.Inspection.Tables.{media_type_for_format_iff, HasPolicy}
use posts_media.Inspection.Images as Images
use posts_media.Inspection.Images.{ImageFormat, SharpMetadata, ImageInspection, inspect-bounds}
use posts_media.Inspection.Probe.{Event, probe, run, started, max_probe_output_bytes}
use posts_media.Inspection.Probe.Settled.{probe-decided, probe-one, run-stdout-le, decided}
use posts_media.Processing.Artifacts.{
  VideoOutput, video_artifacts, video_artifacts-Distinct, Distinct,
}

abbrev stream : String → String → Option Number → Option Number → ProbeStream
stream kind codec width height = record {
  codec_type = some kind;
  codec_name = some codec;
  width = width;
  height = height;
  duration = none;
}

abbrev document : ProbeDocument
document = record {
  format_name = some "mov,mp4,m4a,3gp,3g2,mj2";
  format_duration = some "12.500000";
  streams = some (
      stream "video" "h264" (some (of_nat 1920)) (some (of_nat 1080))
      ∷ stream "audio" "aac" none none
      ∷ []);
}

abbrev signature : SignatureDetection
signature = record {
  format = "iso-bmff";
  mime_type = "application/mp4";
  media_type = none;
  container_family = some ContainerFamily.iso_bmff;
  container_variant = none;
  shared_iso = true;
}

abbrev request : AvInspectionRequest
request = record { media_type = MediaType.video; expected_format = "mp4" }

abbrev safety_limits : SafetyLimits
safety_limits = record {
  max_media_streams = 16;
  max_audio_duration_seconds = 3600;
  max_video_duration_seconds = 3600;
  max_video_width = 3840;
  max_video_height = 2160;
}

-- the text is 12.5
abbrev number_of : String → Number
number_of text = Number.finite false 25 1

abbrev inspection : AvInspection
inspection = record {
  format = "mp4";
  mime_type = "video/mp4";
  duration_seconds = Number.finite false 25 1;
  stream_count = 2;
  audio_codec = some "aac";
  video_codec = some "h264";
  width = some (of_nat 1920);
  height = some (of_nat 1080);
}

inspected :
    inspect (λ n. null) safety_limits number_of (ok document) (ok signature) request true
    ≡ ok inspection
unfolding inspect validate_document assert_safety container_matches expected_names derive_format
    stream_contract_matches media_type_for_format mime_for_format is_supported_audio
    is_supported_video media_duration maximum_from starts_with
inspected = refl

inspect-IsInspected_example :
    (d : ProbeDocument) × ((s : SignatureDetection) × ((ok document ≡ ok d)
        × ((ok signature ≡ ok s)
            × ((is : IsInspected d request s inspection) × SafeIf
                  (λ n. null)
                  safety_limits
                  true
                  MediaType.video
                  inspection
                  is.video))))
inspect-IsInspected_example =
    inspect-IsInspected (λ n. null) safety_limits number_of (ok document) (ok signature) request
      true inspection inspected

media_type_for_format_iff_example : (media_type_for_format "mkv" ≡ some MediaType.video) ↔ (
    (MediaType.video ≢ MediaType.image) × HasPolicy MediaType.video "mkv" (mime_for_format "mkv"))
media_type_for_format_iff_example = media_type_for_format_iff "mkv" MediaType.video

abbrev metadata : SharpMetadata
metadata = record {
  format = some "webp";
  width = some 640;
  height = some 480;
  page_height = none;
  pages = none;
}

abbrev image : ImageInspection
image = record { format = ImageFormat.webp; width = 640; height = 480; pages = 1 }

image_inspected : Images.inspect 1000000 (some metadata) (λ n. true) ≡ ok image
unfolding Images.inspect Images.assert_safety
image_inspected = refl

inspect-bounds_example :
    (0 < 640)
    × (0 < 480)
    × (1 ≤ 1)
    × (640 * 480 ≤ 1000000)
    × (true ≡ true)
    × HasPolicy MediaType.image "webp" "image/webp"
inspect-bounds_example = inspect-bounds 1000000 (some metadata) (λ n. true) image image_inspected

abbrev parse : List ℕ → Option ProbeDocument
parse [] = none
parse (b ∷ bytes) = some document

-- the timer fires after the process has ended
abbrev events : List Event
events =
    Event.stdout_data (123 ∷ 125 ∷ [])
    ∷ Event.stderr_data (33 ∷ [])
    ∷ Event.close (some 0)
    ∷ Event.timeout
    ∷ []

probe-decided_example : probe parse true events ≡ decided parse 0 [] events
probe-decided_example = probe-decided parse true events

probe-one_example : length (probe parse true events) ≡ 1
probe-one_example = probe-one parse events refl

run-stdout-le_example : length (run parse events started).stdout ≤ max_probe_output_bytes
run-stdout-le_example = run-stdout-le parse events

abbrev outputs : List VideoOutput
outputs =
    record { path = "/work/video-360p.mp4"; label = "360p" }
    ∷ record { path = "/work/video-720p.mp4"; label = "720p" }
    ∷ record { path = "/work/thumbnail.jpg"; label = "thumbnail" }
    ∷ []

differ : (a b : String) → (a == b) ≡ false → a ≢ b
differ a b h same = let equal = (string_eq.equals_iff a b).1 same in ground arith

video_artifacts-Distinct_example :
    Distinct (λ a. a.filename) (video_artifacts outputs)
    × Distinct (λ a. a.variant_type) (video_artifacts outputs)
video_artifacts-Distinct_example =
    video_artifacts-Distinct outputs (refl, (refl, (refl, tt)))
      (
        (differ "360p" "720p" refl, (differ "360p" "thumbnail" refl, tt)),
        ((differ "720p" "thumbnail" refl, tt), (tt, tt)),
      )
