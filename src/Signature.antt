-- ===== src/Signature.antt =====
-- libs/media/src/validation/signature-detector.service.ts: the type of a file by its first bytes.
-- A header is the list of its bytes.
pub mod Integers
pub mod Containers
pub mod Policies
use posts_media.Common.{
  ℕ, ◌+◌, ◌*◌, ◌/◌, ◌%◌, String, Text, Bool, true, false, not, ◌&&◌, ◌||◌, Option, none, some, List,
  [], ◌∷◌, ◌==◌, nat_eq, codes, leb, length, take, drop, is_some, if◌then◌else◌,
}
use posts_media.Domain.Enums.{MediaType}
use posts_media.Domain.Errors.{DomainError, ErrorCode}
use posts_media.Domain.Result.{Result, ok, err}
use Containers.{Variant, IsoEvidence, parse_ebml_doc_type, parse_iso_evidence, ascii_at}

pub data ContainerFamily : Type 0 where
  iso_bmff ebml : ContainerFamily

pub record SignatureDetection : Type 0 where
  pub format : String
  pub mime_type : String
  pub media_type : Option MediaType
  pub container_family : Option ContainerFamily
  pub container_variant : Option Variant
  pub shared_iso : Bool

abbrev pub known : String → String → MediaType → SignatureDetection
known format mime_type media_type = record {
  format = format;
  mime_type = mime_type;
  media_type = some media_type;
  container_family = none;
  container_variant = none;
  shared_iso = false;
}

-- `header[index] === byte` for each byte
unfoldable pub starts_with : List ℕ → List ℕ → Bool
starts_with header [] = true
starts_with [] (b ∷ bytes) = false
starts_with (h ∷ header) (b ∷ bytes) = h == b && starts_with header bytes

-- `header[index] ?? 0`
abbrev byte_at : ℕ → List ℕ → ℕ
byte_at n header = elim (drop n header) [ [] ↦ 0 | b ∷ rest ↦ b ]

-- `x >> k` is `x / 2 ^ k`, and `x & (2 ^ k - 1)` is `x % 2 ^ k`
unfoldable pub is_mpeg_audio_frame : List ℕ → Bool
is_mpeg_audio_frame header =
    let second = byte_at 1 header in
    let third = byte_at 2 header in
    let version = second / 8 % 4 in
    let layer = second / 2 % 4 in
    let bitrate_index = third / 16 % 16 in
    let sample_rate_index = third / 4 % 4 in
    leb 4 (length header)
    && (byte_at 0 header == 255
        && (second / 32 % 8 == 7
            && (not (version == 1)
                && (not (layer == 0)
                    && (not (bitrate_index == 0)
                        && (not (bitrate_index == 15) && not (sample_rate_index == 3)))))))

-- 0xf6 leaves out the bits 0 and 3
unfoldable pub is_adts : List ℕ → Bool
is_adts header =
    let second = byte_at 1 header in
    leb 4 (length header)
    && (byte_at 0 header == 255 && (second / 16 % 16 == 15 && second / 2 % 4 == 0))

abbrev pub empty_file : DomainError
empty_file = record {
  code = ErrorCode.empty_file;
  message = "The uploaded file is empty.";
  http_status = 422;
  details = none;
}

abbrev pub unknown_file_signature : DomainError
unknown_file_signature = record {
  code = ErrorCode.unknown_file_signature;
  message = "The uploaded file signature is not recognized.";
  http_status = 422;
  details = none;
}

abbrev iso_detection : Option IsoEvidence → SignatureDetection
iso_detection evidence = record {
  format = "iso-bmff";
  mime_type = "application/mp4";
  media_type = none;
  container_family = some ContainerFamily.iso_bmff;
  container_variant = elim evidence [ none ↦ none | some e ↦ e.variant ];
  shared_iso = elim evidence [ none ↦ false | some e ↦ e.shared ];
}

abbrev ebml_detection : Option Variant → SignatureDetection
ebml_detection variant = record {
  format = "ebml";
  mime_type = "application/x-ebml";
  media_type = none;
  container_family = some ContainerFamily.ebml;
  container_variant = variant;
  shared_iso = false;
}

-- from the MPEG audio frame on
unfoldable pub audio_or_container : List ℕ → Result SignatureDetection
audio_or_container header =
    if ascii_at header 0 "ID3" || is_mpeg_audio_frame header
    then ok (known "mp3" "audio/mpeg" MediaType.audio)
    else if is_adts header
    then ok (known "aac" "audio/aac" MediaType.audio)
    else if ascii_at header 0 "fLaC"
    then ok (known "flac" "audio/flac" MediaType.audio)
    else if ascii_at header 0 "OggS"
    then ok (known "ogg" "audio/ogg" MediaType.audio)
    else if ascii_at header 4 "ftyp"
    then ok (iso_detection (parse_iso_evidence header))
    else if starts_with header (26 ∷ 69 ∷ 223 ∷ 163 ∷ [])
    then ok (ebml_detection (parse_ebml_doc_type header))
    else err unknown_file_signature

unfoldable pub detect_header_signature : List ℕ → Result SignatureDetection
detect_header_signature header =
    if length header == 0
    then err empty_file
    else if starts_with header (255 ∷ 216 ∷ 255 ∷ [])
    then ok (known "jpeg" "image/jpeg" MediaType.image)
    else if starts_with header (137 ∷ 80 ∷ 78 ∷ 71 ∷ 13 ∷ 10 ∷ 26 ∷ 10 ∷ [])
    then ok (known "png" "image/png" MediaType.image)
    else if ascii_at header 0 "RIFF" && ascii_at header 8 "WEBP"
    then ok (known "webp" "image/webp" MediaType.image)
    else if ascii_at header 0 "RIFF" && ascii_at header 8 "WAVE"
    then ok (known "wav" "audio/wav" MediaType.audio)
    else audio_or_container header
