-- ===== src/Signature/Policies.antt =====
-- The table of libs/media/src/validation/extension-policy.ts, and signatureMatchesPolicy of
-- libs/media/src/validation/media-validation.service.ts
use posts_media.Common.{
  ℕ, String, ◌≡◌, refl, Bool, true, false, ◌&&◌, ◌||◌, Option, none, some, List, [], ◌∷◌, any, ◌==◌,
  string_eq, arith, nat_eq, All,
}
use posts_media.Domain.Enums.{MediaType}
use posts_media.Domain.Result.{ok}
use posts_media.Signature.{
  SignatureDetection, ContainerFamily, detect_header_signature, known, audio_or_container,
}
use posts_media.Signature.Containers.{Variant}

pub record ExtensionPolicy : Type 0 where
  pub extension : String
  pub format : String
  pub media_type : MediaType
  pub detected_mime_type : String
  pub declared_mime_types : List String

abbrev policy : String → String → MediaType → String → ExtensionPolicy
policy extension format media_type mime_type = record {
  extension = extension;
  format = format;
  media_type = media_type;
  detected_mime_type = mime_type;
  declared_mime_types = mime_type ∷ "application/octet-stream" ∷ [];
}

abbrev pub policies : List ExtensionPolicy
policies =
    policy "jpg" "jpeg" MediaType.image "image/jpeg"
    ∷ policy "jpeg" "jpeg" MediaType.image "image/jpeg"
    ∷ policy "png" "png" MediaType.image "image/png"
    ∷ policy "webp" "webp" MediaType.image "image/webp"
    ∷ policy "mp3" "mp3" MediaType.audio "audio/mpeg"
    ∷ policy "wav" "wav" MediaType.audio "audio/wav"
    ∷ policy "m4a" "m4a" MediaType.audio "audio/mp4"
    ∷ policy "aac" "aac" MediaType.audio "audio/aac"
    ∷ policy "flac" "flac" MediaType.audio "audio/flac"
    ∷ policy "ogg" "ogg" MediaType.audio "audio/ogg"
    ∷ policy "oga" "ogg" MediaType.audio "audio/ogg"
    ∷ policy "mp4" "mp4" MediaType.video "video/mp4"
    ∷ policy "mov" "mov" MediaType.video "video/quicktime"
    ∷ policy "webm" "webm" MediaType.video "video/webm"
    ∷ policy "mkv" "mkv" MediaType.video "video/x-matroska"
    ∷ []

abbrev variant_format : Variant → String
variant_format Variant.mp4 = "mp4"
variant_format Variant.mov = "mov"
variant_format Variant.m4a = "m4a"
variant_format Variant.webm = "webm"
variant_format Variant.mkv = "mkv"

abbrev same_type : MediaType → Option MediaType → Bool
same_type t none = false
same_type MediaType.image (some MediaType.image) = true
same_type MediaType.audio (some MediaType.audio) = true
same_type MediaType.video (some MediaType.video) = true
same_type _ _ = false

abbrev variant_is : String → Option Variant → Bool
variant_is format none = false
variant_is format (some v) = variant_format v == format

unfoldable pub signature_matches_policy : SignatureDetection → ExtensionPolicy → Bool
signature_matches_policy s p = elim s.container_family [
  | some ContainerFamily.iso_bmff ↦
      (p.format == "m4a" || (p.format == "mp4" || p.format == "mov"))
      && elim s.container_variant [ none ↦ true | some v ↦ variant_format v == p.format ]
  | some ContainerFamily.ebml ↦
      (p.format == "webm" || p.format == "mkv") && variant_is p.format s.container_variant
  | none ↦ s.format == p.format && same_type p.media_type s.media_type
]

-- some policy takes the detection, with its type and its MIME type
unfoldable pub has_policy : SignatureDetection → Bool
unfolding signature_matches_policy
has_policy s =
    any
      (λ p.
        signature_matches_policy s p
        && (same_type p.media_type s.media_type && p.detected_mime_type == s.mime_type))
      policies

abbrev kinds : List SignatureDetection
kinds =
    known "jpeg" "image/jpeg" MediaType.image
    ∷ known "png" "image/png" MediaType.image
    ∷ known "webp" "image/webp" MediaType.image
    ∷ known "wav" "audio/wav" MediaType.audio
    ∷ known "mp3" "audio/mpeg" MediaType.audio
    ∷ known "aac" "audio/aac" MediaType.audio
    ∷ known "flac" "audio/flac" MediaType.audio
    ∷ known "ogg" "audio/ogg" MediaType.audio
    ∷ []

kinds-has_policy : All (λ s. has_policy s ≡ true) kinds
unfolding has_policy signature_matches_policy
kinds-has_policy = (refl, (refl, (refl, (refl, (refl, (refl, (refl, (refl, tt))))))))

audio-has_policy :
    (header : List ℕ) (s : SignatureDetection) (t : MediaType)
    → audio_or_container header ≡ ok s
    → s.media_type ≡ some t
    → has_policy s ≡ true
unfolding audio_or_container
audio-has_policy header s t h k = ground (arith, kinds-has_policy)

-- What the detector gives a media type is accepted by a policy of the extension table, of that
-- media type and with the MIME type that was detected.
pub detected-has_policy :
    (header : List ℕ) (s : SignatureDetection) (t : MediaType)
    → detect_header_signature header ≡ ok s
    → s.media_type ≡ some t
    → has_policy s ≡ true
unfolding detect_header_signature
detected-has_policy header s t h k = ground (arith, kinds-has_policy, audio-has_policy header s t)
