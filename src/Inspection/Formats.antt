-- ===== src/Inspection/Formats.antt =====
-- The tables and the tests on formats of libs/media/src/validation/av-inspector.service.ts. The names
-- that are looked up are formats of the signature detector, so that no lookup meets an inherited member.
use posts_media.Common.{
  ℕ, String, Text, Bool, not, ◌&&◌, ◌||◌, Option, none, some, List, [], ◌∷◌, ltb, any, codes,
  nat_beq, ◌==◌, string_eq, if◌then◌else◌,
}
use posts_media.Domain.Enums.{MediaType}
use posts_media.Signature.{SignatureDetection, ContainerFamily, starts_with}
use posts_media.Signature.Containers.{Variant, same_bytes}

abbrev prepended : ℕ → List Text → List Text
prepended c [] = (c ∷ []) ∷ []
prepended c (part ∷ parts) = (c ∷ part) ∷ parts

-- `.split(',')`
abbrev pub split : Text → List Text
split [] = [] ∷ []
split (c ∷ cs) = if nat_beq c 44 then [] ∷ split cs else prepended c (split cs)

-- `.filter(Boolean)`
abbrev non_empty : List Text → List Text
non_empty [] = []
non_empty ([] ∷ parts) = non_empty parts
non_empty ((c ∷ cs) ∷ parts) = (c ∷ cs) ∷ non_empty parts

abbrev pub format_names : Option String → List Text
format_names none = non_empty (split [])
format_names (some text) = non_empty (split (codes text))

abbrev iso_names : List String
iso_names = "mov" ∷ "mp4" ∷ "m4a" ∷ "3gp" ∷ "3g2" ∷ "mj2" ∷ []

abbrev matroska_names : List String
matroska_names = "matroska" ∷ "webm" ∷ []

unfoldable pub expected_names : String → List String
expected_names format =
    if format == "mp3" || (format == "wav" || (format == "aac" || format == "flac"))
    then format ∷ []
    else if format == "ogg"
    then "ogg" ∷ []
    else if format == "m4a" || (format == "mp4" || format == "mov")
    then iso_names
    else if format == "webm" || format == "mkv"
    then matroska_names
    else []

unfoldable pub container_matches : String → List Text → Bool
container_matches format actual =
    any (λ name. any (same_bytes (codes name)) actual) (expected_names format)

abbrev pub variant_text : Variant → String
variant_text Variant.mp4 = "mp4"
variant_text Variant.mov = "mov"
variant_text Variant.m4a = "m4a"
variant_text Variant.webm = "webm"
variant_text Variant.mkv = "mkv"

abbrev by_streams : Bool → (audio video : ℕ) → Option String
by_streams shared audio video =
    if not shared
    then none
    else if ltb 0 video
    then some "mp4"
    else if ltb 0 audio
    then some "m4a"
    else none

abbrev iso_format : Option Variant → Bool → (audio video : ℕ) → Option String
iso_format (some Variant.mov) shared audio video = some "mov"
iso_format (some Variant.m4a) shared audio video = some "m4a"
iso_format _ shared audio video = by_streams shared audio video

-- `audio` and `video` are the numbers of the streams
unfoldable pub derive_format : SignatureDetection → (audio video : ℕ) → Option String
derive_format s audio video = elim s.container_family [
  | some ContainerFamily.iso_bmff ↦ iso_format s.container_variant s.shared_iso audio video
  | some ContainerFamily.ebml ↦ elim s.container_variant [
    | none ↦ none
    | some v ↦ some (variant_text v)
  ]
  | none ↦ some s.format
]

abbrev pub audio_formats : List String
audio_formats = "m4a" ∷ "mp3" ∷ "wav" ∷ "aac" ∷ "flac" ∷ "ogg" ∷ []

abbrev pub video_formats : List String
video_formats = "mp4" ∷ "mov" ∷ "webm" ∷ "mkv" ∷ []

abbrev pub is_one_of : List String → String → Bool
is_one_of formats format = any (λ name. format == name) formats

unfoldable pub stream_contract_matches : String → (audio video : ℕ) → Bool
stream_contract_matches format audio video =
    if is_one_of audio_formats format then ltb 0 audio && nat_beq video 0 else ltb 0 video

unfoldable pub media_type_for_format : String → Option MediaType
media_type_for_format format =
    if is_one_of audio_formats format
    then some MediaType.audio
    else if is_one_of video_formats format
    then some MediaType.video
    else none

unfoldable pub mime_for_format : String → String
mime_for_format format =
    if format == "mp3"
    then "audio/mpeg"
    else if format == "wav"
    then "audio/wav"
    else if format == "m4a"
    then "audio/mp4"
    else if format == "aac"
    then "audio/aac"
    else if format == "flac"
    then "audio/flac"
    else if format == "ogg"
    then "audio/ogg"
    else if format == "mp4"
    then "video/mp4"
    else if format == "mov"
    then "video/quicktime"
    else if format == "webm"
    then "video/webm"
    else if format == "mkv"
    then "video/x-matroska"
    else "application/octet-stream"

-- supportedAudioCodecs, with the PCM codecs, and supportedVideoCodecs
unfoldable pub is_supported_audio : String → Bool
is_supported_audio codec =
    starts_with (codes codec) (codes "pcm_")
    || any (λ c. c == codec) ("aac" ∷ "flac" ∷ "mp3" ∷ "opus" ∷ "vorbis" ∷ [])

unfoldable pub is_supported_video : String → Bool
is_supported_video codec = any (λ c. c == codec) ("av1" ∷ "h264" ∷ "hevc" ∷ "vp8" ∷ "vp9" ∷ [])
