-- ===== src/Inspection/Documents.antt =====
-- validateDocument of libs/media/src/validation/av-inspector.service.ts
use posts_media.Common.{
  ℕ, String, Bool, true, false, not, ◌&&◌, ◌||◌, Option, none, some, List, [], ◌∷◌, map, any,
  length, nat_beq, ◌==◌, string_eq, if◌then◌else◌,
}
use posts_media.Domain.Enums.{MediaType}
use posts_media.Domain.Errors.{DomainError, ErrorCode}
use posts_media.Domain.Json.{Json, str, obj, end, field}
use posts_media.Domain.Result.{Result, ok, err, ◌>>=◌}
use posts_media.Signature.{SignatureDetection}
use posts_media.Inspection.Numbers.{
  Number, above, of_nat, is_finite, is_integer, max_of, maximum_defined,
}
use posts_media.Inspection.Formats.{
  format_names, derive_format, container_matches, media_type_for_format, stream_contract_matches,
  mime_for_format, is_supported_audio, is_supported_video,
}

pub record AvInspectionRequest : Type 0 where
  pub media_type : MediaType
  pub expected_format : String

pub record AvInspection : Type 0 where
  pub format : String
  pub mime_type : String
  pub duration_seconds : Number
  pub stream_count : ℕ
  pub audio_codec : Option String
  pub video_codec : Option String
  pub width : Option Number
  pub height : Option Number

pub record ProbeStream : Type 0 where
  pub codec_type : Option String
  pub codec_name : Option String
  pub width : Option Number
  pub height : Option Number
  pub duration : Option String

-- the format's name and duration, and the streams
pub record ProbeDocument : Type 0 where
  pub format_name : Option String
  pub format_duration : Option String
  pub streams : Option (List ProbeStream)

abbrev error : ErrorCode → String → Option Json → DomainError
error code message details = record {
  code = code;
  message = message;
  http_status = 422;
  details = details;
}

abbrev pub corrupted_media : DomainError
corrupted_media = error ErrorCode.corrupted_file "The uploaded media could not be inspected." none

abbrev detected_details : Option String → Option Json
detected_details none = none
detected_details (some format) = some (
    obj (
      field "detectedFormat" (str format)
        (field "detectedMimeType" (str (mime_for_format format)) end)))

abbrev file_signature_mismatch : Option String → DomainError
file_signature_mismatch detected =
    error ErrorCode.file_signature_mismatch
      "The uploaded content does not match the submitted media format." (detected_details detected)

abbrev media_stream_not_found : DomainError
media_stream_not_found =
    error ErrorCode.media_stream_not_found
      "The uploaded media does not contain the required media stream." none

abbrev pub unsupported_audio_codec : String → DomainError
unsupported_audio_codec codec =
    error ErrorCode.unsupported_audio_codec "The uploaded audio codec is not supported."
      (some (obj (field "codec" (str codec) end)))

abbrev pub unsupported_video_codec : String → DomainError
unsupported_video_codec codec =
    error ErrorCode.unsupported_video_codec "The uploaded video codec is not supported."
      (some (obj (field "codec" (str codec) end)))

-- `document.streams ?? []`
abbrev pub streams_of : ProbeDocument → List ProbeStream
streams_of d = elim d.streams [ none ↦ [] | some streams ↦ streams ]

abbrev is_of : String → Option String → Bool
is_of kind none = false
is_of kind (some t) = t == kind

-- `streams.filter((stream) => stream.codec_type === kind)`
abbrev pub of_kind : String → List ProbeStream → List ProbeStream
of_kind kind [] = []
of_kind kind (s ∷ streams) =
    let rest = of_kind kind streams in if is_of kind s.codec_type then s ∷ rest else rest

abbrev pub same_type : MediaType → Option MediaType → Bool
same_type MediaType.audio (some MediaType.audio) = true
same_type MediaType.video (some MediaType.video) = true
same_type _ _ = false

-- the format of the content, which must be the expected one, of the requested type
abbrev pub identified : AvInspectionRequest → ProbeDocument → Option String → Result String
identified request document none = err (file_signature_mismatch none)
identified request document (some format) =
    if not (format == request.expected_format)
      || not (container_matches format (format_names document.format_name))
    then err (file_signature_mismatch (some format))
    else if not (same_type request.media_type (media_type_for_format format))
    then err (file_signature_mismatch (some format))
    else ok format

abbrev pub required_streams : MediaType → (audio video : List ProbeStream) → List ProbeStream
required_streams MediaType.audio audio video = audio
required_streams t audio video = video

abbrev pub has_streams : List ProbeStream → Result (Unit {0})
has_streams streams = if nat_beq (length streams) 0 then err media_stream_not_found else ok tt

abbrev pub keeps_contract : String → (audio video : List ProbeStream) → Result (Unit {0})
keeps_contract format audio video =
    if not (stream_contract_matches format (length audio) (length video))
    then err (file_signature_mismatch (some format))
    else ok tt

-- a codec that is named and supported
abbrev pub coded : (String → Bool) → (String → DomainError) → Option String → Result (Unit {0})
coded supported unsupported none = err corrupted_media
coded supported unsupported (some codec) =
    if supported codec then ok tt else err (unsupported codec)

-- the loops over the streams' codecs
abbrev pub codecs : (String → Bool) → (String → DomainError) → List ProbeStream → Result (Unit {0})
codecs supported unsupported [] = ok tt
codecs supported unsupported (s ∷ streams) =
    coded supported unsupported s.codec_name >>= λ _. codecs supported unsupported streams

abbrev pub audio_codecs : List ProbeStream → Result (Unit {0})
audio_codecs = codecs is_supported_audio unsupported_audio_codec

abbrev pub video_codecs : List ProbeStream → Result (Unit {0})
video_codecs = codecs is_supported_video unsupported_video_codec

abbrev first_codec : List ProbeStream → Option String
first_codec [] = none
first_codec (s ∷ streams) = s.codec_name

abbrev pub valid_dimension : Option Number → Bool
valid_dimension none = false
valid_dimension (some v) = is_integer v && above v (of_nat 0)

-- the dimensions of the streams of a video
abbrev pub framed : MediaType → List ProbeStream → Result (Unit {0})
framed MediaType.video video =
    if any (λ s. not (valid_dimension s.width) || not (valid_dimension s.height)) video
    then err corrupted_media
    else ok tt
framed t video = ok tt

abbrev pub widths : List ProbeStream → List (Option Number)
widths = map (λ s. s.width)

abbrev pub heights : List ProbeStream → List (Option Number)
heights = map (λ s. s.height)

abbrev pub positive_duration : Number → Result Number
positive_duration d =
    if not (is_finite d) || not (above d (of_nat 0)) then err corrupted_media else ok d

-- `number_of` is what `Number` makes of a text
module _ (number_of : String → Number) where
  -- `Number(undefined)` is NaN
  abbrev number_or_nan : Option String → Number
  number_or_nan none = Number.nan
  number_or_nan (some text) = number_of text

  abbrev longest : Number → List ProbeStream → Number
  longest maximum [] = maximum
  longest maximum (s ∷ streams) = longest (max_of maximum (number_or_nan s.duration)) streams

  unfoldable pub media_duration : ProbeDocument → List ProbeStream → Number
  media_duration document streams =
      let format_duration = number_or_nan document.format_duration in
      if is_finite format_duration then format_duration else longest Number.minus_infinity streams

  unfoldable pub validate_document :
      ProbeDocument → AvInspectionRequest → SignatureDetection → Result AvInspection
  validate_document document request signature =
      let streams = streams_of document in
      let audio = of_kind "audio" streams in
      let video = of_kind "video" streams in
      identified request document (derive_format signature (length audio) (length video))
      >>= λ format. has_streams (required_streams request.media_type audio video) >>= λ _.
          keeps_contract format audio video >>= λ _. audio_codecs audio >>= λ _.
          video_codecs video >>= λ _.
          positive_duration
            (media_duration document (required_streams request.media_type audio video))
          >>= λ duration. framed request.media_type video >>= λ _. ok (record {
            format = format;
            mime_type = mime_for_format format;
            duration_seconds = duration;
            stream_count = length streams;
            audio_codec = first_codec audio;
            video_codec = first_codec video;
            width = maximum_defined (widths video);
            height = maximum_defined (heights video);
          })
