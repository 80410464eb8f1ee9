-- ===== src/Inspection/Sound.antt =====
-- What the inspections that are accepted have in common.
pub mod Limits
use mathlib.Core.Path.{subst}
use posts_media.Common.{
  ℕ, ◌<◌, String, ◌≡◌, refl, sym, ap, ◌∙◌, Bool, true, false, not, ◌||◌, Option, none, some, List,
  [], ◌∷◌, All, length, any, arith, string_eq, Bool-cases, inl, inr,
}
use posts_media.Domain.Enums.{MediaType}
use posts_media.Domain.Errors.{DomainError}
use posts_media.Domain.Result.{Result, ok, err, bind-ok, ok-injective}
use posts_media.Signature.{SignatureDetection}
use posts_media.Inspection.Numbers.{Number, above, of_nat, is_integer, maximum_defined}
use posts_media.Inspection.Numbers.Order.{IsPositive}
use posts_media.Inspection.Formats.{
  derive_format, media_type_for_format, mime_for_format, stream_contract_matches, is_one_of,
  audio_formats, is_supported_audio, is_supported_video,
}
use posts_media.Inspection.Documents.{
  AvInspectionRequest, AvInspection, ProbeStream, ProbeDocument, streams_of, of_kind, identified,
  has_streams, required_streams, keeps_contract, same_type, coded, codecs, audio_codecs,
  video_codecs, framed, widths, heights, positive_duration, valid_dimension, media_duration,
  unsupported_audio_codec, unsupported_video_codec, validate_document,
}

-- the codec of a stream is named and supported
abbrev pub IsCoded : (String → Bool) → ProbeStream → Type 0
IsCoded supported s = (c : String) × ((s.codec_name ≡ some c) × (supported c ≡ true))

-- sound without video, or video
abbrev pub HasStreams : MediaType → (audio video : List ProbeStream) → Type 0
HasStreams MediaType.image audio video = ⊥
HasStreams MediaType.audio audio video = (0 < length audio) × (video ≡ [])
HasStreams MediaType.video audio video = 0 < length video

-- the dimensions of a stream are positive integers
abbrev pub IsDimension : Option Number → Type 0
IsDimension d =
    (v : Number) × ((d ≡ some v) × ((is_integer v ≡ true) × (above v (of_nat 0) ≡ true)))

abbrev pub IsFramed : MediaType → List ProbeStream → Type 0
IsFramed MediaType.video video = All (λ s. IsDimension s.width × IsDimension s.height) video
IsFramed t video = Unit

coded-IsCoded :
    (supported : String → Bool) (unsupported : String → DomainError) (name : Option String)
    (u : Unit {0})
    → coded supported unsupported name ≡ ok u
    → (c : String) × ((name ≡ some c) × (supported c ≡ true))
coded-IsCoded supported unsupported none u h = ground arith
coded-IsCoded supported unsupported (some c) u h = (c, (refl, ground arith))

codecs-IsCoded :
    (supported : String → Bool) (unsupported : String → DomainError) (streams : List ProbeStream)
    (u : Unit {0})
    → codecs supported unsupported streams ≡ ok u
    → All (IsCoded supported) streams
codecs-IsCoded supported unsupported [] u h = tt
codecs-IsCoded supported unsupported (s ∷ streams) u h =
    let (v, (first, rest)) =
      bind-ok (coded supported unsupported s.codec_name) (λ _. codecs supported unsupported streams)
        u h in
    (
      coded-IsCoded supported unsupported s.codec_name v first,
      codecs-IsCoded supported unsupported streams u rest,
    )

valid_dimension-IsDimension : (d : Option Number) → valid_dimension d ≡ true → IsDimension d
valid_dimension-IsDimension none h = ground arith
valid_dimension-IsDimension (some v) h = (v, (refl, (ground arith, ground arith)))

any_invalid :
    (video : List ProbeStream)
    → any (λ s. not (valid_dimension s.width) || not (valid_dimension s.height)) video ≡ false
    → All (λ s. IsDimension s.width × IsDimension s.height) video
any_invalid [] h = tt
any_invalid (s ∷ video) h = (
  (
    valid_dimension-IsDimension s.width (ground arith),
    valid_dimension-IsDimension s.height (ground arith),
  ),
  any_invalid video (ground arith),
)

framed-IsFramed :
    (t : MediaType) (video : List ProbeStream) (u : Unit {0})
    → framed t video ≡ ok u
    → IsFramed t video
framed-IsFramed MediaType.image video u h = tt
framed-IsFramed MediaType.audio video u h = tt
framed-IsFramed MediaType.video video u h =
    elim (Bool-cases
      (any (λ s. not (valid_dimension s.width) || not (valid_dimension s.height)) video)) [
        | inl wrong ↦ ground arith
        | inr right ↦ any_invalid video right
      ]

identified-expected :
    (request : AvInspectionRequest) (document : ProbeDocument) (derived : Option String)
    (format : String)
    → identified request document derived ≡ ok format
    → (derived ≡ some format)
      × (format ≡ request.expected_format)
      × (same_type request.media_type (media_type_for_format format) ≡ true)
identified-expected request document none format h = ground arith
identified-expected request document (some f) format h =
    let same = string_eq.equals_iff f request.expected_format in
    let is_format : f ≡ format = ground arith in
    subst
      (λ g.
        (some f ≡ some g)
        × (g ≡ request.expected_format)
        × (same_type request.media_type (media_type_for_format g) ≡ true))
      is_format (refl, ground (arith, same), ground arith)

same_type-eq :
    (t : MediaType) (known : Option MediaType) → same_type t known ≡ true → known ≡ some t
same_type-eq MediaType.image none h = ground arith
same_type-eq MediaType.image (some t) h = ground arith
same_type-eq MediaType.audio none h = ground arith
same_type-eq MediaType.audio (some MediaType.image) h = ground arith
same_type-eq MediaType.audio (some MediaType.audio) h = refl
same_type-eq MediaType.audio (some MediaType.video) h = ground arith
same_type-eq MediaType.video none h = ground arith
same_type-eq MediaType.video (some MediaType.image) h = ground arith
same_type-eq MediaType.video (some MediaType.audio) h = ground arith
same_type-eq MediaType.video (some MediaType.video) h = refl

empty_of_length : {A : Type 0} (xs : List A) → length xs ≡ 0 → xs ≡ []
empty_of_length [] h = refl
empty_of_length (x ∷ xs) h = ground arith

contract-HasStreams :
    (t : MediaType) (format : String) (audio video : List ProbeStream) (u v : Unit {0})
    → media_type_for_format format ≡ some t
    → has_streams (required_streams t audio video) ≡ ok u
    → keeps_contract format audio video ≡ ok v
    → HasStreams t audio video
unfolding stream_contract_matches media_type_for_format
contract-HasStreams MediaType.image format audio video u v typed some_streams kept = ground arith
contract-HasStreams MediaType.audio format audio video u v typed some_streams kept =
    (ground arith, empty_of_length video (ground arith))
contract-HasStreams MediaType.video format audio video u v typed some_streams kept = ground arith

positive_duration-IsPositive : (d e : Number) → positive_duration d ≡ ok e → (d ≡ e) × IsPositive e
positive_duration-IsPositive d e h = ground arith

-- what an inspection is of the streams, the request and the format that they determine
pub record IsInspected (document : ProbeDocument) (request : AvInspectionRequest)
    (signature : SignatureDetection) (i : AvInspection) : Type 0 where
  pub audio : List ProbeStream
  pub video : List ProbeStream
  pub audio_is : audio ≡ of_kind "audio" (streams_of document)
  pub video_is : video ≡ of_kind "video" (streams_of document)
  pub expected : i.format ≡ request.expected_format
  pub derived : derive_format signature (length audio) (length video) ≡ some i.format
  pub typed : media_type_for_format i.format ≡ some request.media_type
  pub mime_type : i.mime_type ≡ mime_for_format i.format
  pub has_streams : HasStreams request.media_type audio video
  pub audio_codecs : All (IsCoded is_supported_audio) audio
  pub video_codecs : All (IsCoded is_supported_video) video
  pub lasts : IsPositive i.duration_seconds
  pub framed : IsFramed request.media_type video
  pub stream_count : i.stream_count ≡ length (streams_of document)
  pub width : i.width ≡ maximum_defined (widths video)
  pub height : i.height ≡ maximum_defined (heights video)

module _ (number_of : String → Number) where
  validate_document-IsInspected :
      (document : ProbeDocument) (request : AvInspectionRequest) (signature : SignatureDetection)
      (i : AvInspection)
      → validate_document number_of document request signature ≡ ok i
      → IsInspected document request signature i
  unfolding validate_document
  validate_document-IsInspected document request signature i h =
      let audio = of_kind "audio" (streams_of document) in
      let video = of_kind "video" (streams_of document) in
      let t = request.media_type in
      let derived = derive_format signature (length audio) (length video) in
      let d = media_duration number_of document (required_streams t audio video) in
      let (format, (found, h₁)) = bind-ok (identified request document derived) _ i h in
      let (u₁, (some_streams, h₂)) =
        bind-ok (has_streams (required_streams t audio video)) _ i h₁ in
      let (u₂, (kept, h₃)) = bind-ok (keeps_contract format audio video) _ i h₂ in
      let (u₃, (sounds, h₄)) = bind-ok (audio_codecs audio) _ i h₃ in
      let (u₄, (pictures, h₅)) = bind-ok (video_codecs video) _ i h₄ in
      let (duration, (long, h₆)) = bind-ok (positive_duration d) _ i h₅ in
      let (u₅, (frames, h₇)) = bind-ok (framed t video) _ i h₆ in
      let (is_derived, expected, same) =
        identified-expected request document derived format found in
      let typed = same_type-eq t (media_type_for_format format) same in
      let (_, lasts) = positive_duration-IsPositive d duration long in
      subst (IsInspected document request signature) (ok-injective _ _ h₇) (record {
        audio = audio;
        video = video;
        audio_is = refl;
        video_is = refl;
        expected = expected;
        derived = is_derived;
        typed = typed;
        mime_type = refl;
        has_streams = contract-HasStreams t format audio video u₁ u₂ typed some_streams kept;
        audio_codecs = codecs-IsCoded is_supported_audio unsupported_audio_codec audio u₃ sounds;
        video_codecs = codecs-IsCoded is_supported_video unsupported_video_codec video u₄ pictures;
        lasts = lasts;
        framed = framed-IsFramed t video u₅ frames;
        stream_count = refl;
        width = refl;
        height = refl;
      })
