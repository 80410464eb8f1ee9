-- ===== src/Inspection/Sound/Limits.antt =====
-- The safety limits that an accepted inspection keeps to.
use mathlib.Core.Path.{subst}
use posts_media.Common.{
  ℕ, ◌≤◌, String, ◌≡◌, refl, ap, ◌∙◌, Bool, true, false, Option, none, some, List, [], ◌∷◌, All,
  All-imp, map, arith, if◌then◌else◌,
}
use posts_media.Domain.Enums.{MediaType}
use posts_media.Domain.Json.{Json}
use posts_media.Domain.Result.{Result, ok, bind-ok, ok-injective}
use posts_media.Signature.{SignatureDetection}
use posts_media.Inspection.{
  SafetyLimits, assert_safety, inspect, streams_within, number_within, side_within, frame_within,
  maximum_duration,
}
use posts_media.Inspection.Numbers.{Number, above, of_nat, is_finite, is_integer, maximum_defined}
use posts_media.Inspection.Numbers.Order.{IsPositive, IfPositive, AtMost, maximum_from-AtMost}
use posts_media.Inspection.Documents.{
  AvInspectionRequest, AvInspection, ProbeStream, ProbeDocument, validate_document, widths, heights,
}
use posts_media.Inspection.Sound.{IsInspected, IsDimension, IsFramed, validate_document-IsInspected}

-- every frame of a video is within the limits
abbrev pub FramesWithin : SafetyLimits → MediaType → List ProbeStream → Type 0
FramesWithin limits MediaType.video video =
    All (AtMost limits.max_video_width) (widths video)
    × All (AtMost limits.max_video_height) (heights video)
FramesWithin limits t video = Unit

dimension-IfPositive : (d : Option Number) → IsDimension d → IfPositive d
dimension-IfPositive none h = tt
dimension-IfPositive (some v) (w, (same, (integer, positive))) =
    let is_w : w ≡ v = ground arith in subst IsPositive is_w (finite w integer, positive)
  where
    finite : (x : Number) → is_integer x ≡ true → is_finite x ≡ true
    finite (Number.finite s m k) h = refl
    finite Number.nan h = ground arith
    finite Number.infinity h = ground arith
    finite Number.minus_infinity h = ground arith

sides-IfPositive :
    (side : ProbeStream → Option Number) (video : List ProbeStream)
    → All (λ s. IsDimension (side s)) video
    → All IfPositive (map side video)
sides-IfPositive side [] h = tt
sides-IfPositive side (s ∷ video) (p, ps) =
    (dimension-IfPositive (side s) p, sides-IfPositive side video ps)

module _ (json_of : Number → Json) (limits : SafetyLimits) where
  side_within-AtMost :
      (name : String) (side : Option Number) (n : ℕ) (u : Unit {0})
      → side_within json_of limits name side n ≡ ok u
      → AtMost n side
  side_within-AtMost name none n u h = tt
  side_within-AtMost name (some v) n u h = ground arith

  -- the longest side is within the limit, and so is every side
  frames :
      (t : MediaType) (i : AvInspection) (video : List ProbeStream) (u : Unit {0})
      → i.width ≡ maximum_defined (widths video)
      → i.height ≡ maximum_defined (heights video)
      → IsFramed t video
      → frame_within json_of limits t i ≡ ok u
      → FramesWithin limits t video
  frames MediaType.image i video u w h framed within = tt
  frames MediaType.audio i video u w h framed within = tt
  frames MediaType.video i video u w h framed within =
      let (v, (wide, high)) =
        bind-ok (side_within json_of limits "width" i.width limits.max_video_width)
          (λ _. side_within json_of limits "height" i.height limits.max_video_height) u within in
      (
        (maximum_from-AtMost limits.max_video_width none (widths video) tt
            (sides-IfPositive (λ s. s.width) video (All-imp (λ s d. d.0) video framed))
            (subst (AtMost limits.max_video_width) w
              (side_within-AtMost "width" i.width limits.max_video_width v wide))).1,
        (maximum_from-AtMost limits.max_video_height none (heights video) tt
            (sides-IfPositive (λ s. s.height) video (All-imp (λ s d. d.1) video framed))
            (subst (AtMost limits.max_video_height) h
              (side_within-AtMost "height" i.height limits.max_video_height u high))).1,
      )

  -- the streams, the duration and the frames
  abbrev pub IsSafe : MediaType → AvInspection → List ProbeStream → Type 0
  IsSafe t i video =
      (i.stream_count ≤ limits.max_media_streams)
      × (above i.duration_seconds (of_nat (maximum_duration json_of limits t)) ≡ false)
      × FramesWithin limits t video

  safe :
      (document : ProbeDocument) (request : AvInspectionRequest) (signature : SignatureDetection)
      (i : AvInspection) (u : Unit {0}) (is : IsInspected document request signature i)
      → assert_safety json_of limits request.media_type i ≡ ok u
      → IsSafe request.media_type i is.video
  unfolding assert_safety
  safe document request signature i u is h =
      let t = request.media_type in
      let (u₁, (few, h₁)) = bind-ok (streams_within json_of limits i) _ u h in
      let (u₂, (short, within)) =
        bind-ok
          (number_within json_of limits "durationSeconds" i.duration_seconds
            (maximum_duration json_of limits t))
          _ u h₁ in
      (ground arith, ground arith, frames t i is.video u is.width is.height is.framed within)

  abbrev pub SafeIf : Bool → MediaType → AvInspection → List ProbeStream → Type 0
  SafeIf true t i video = IsSafe t i video
  SafeIf false t i video = Unit

  safe_if :
      (enforced : Bool) (document : ProbeDocument) (request : AvInspectionRequest)
      (signature : SignatureDetection) (i : AvInspection) (u : Unit {0})
      (is : IsInspected document request signature i)
      → (if enforced then assert_safety json_of limits request.media_type i else ok tt) ≡ ok u
      → SafeIf enforced request.media_type i is.video
  safe_if true document request signature i u is h = safe document request signature i u is h
  safe_if false document request signature i u is h = tt

  -- An inspection that is returned comes from a document and a signature that were read; its format
  -- is the expected one, is the one that the signature and the streams give, and is of the requested
  -- media type; sound has an audio stream and no video stream, and a video has a video stream whose
  -- frames have positive integers as sides; every audio and video stream has a supported codec; the
  -- duration is a finite number above 0. If the limits are enforced, the number of the streams, the
  -- duration, and both sides of every frame keep to them.
  pub inspect-IsInspected :
      (number_of : String → Number) (probed : Result ProbeDocument)
      (detected : Result SignatureDetection) (request : AvInspectionRequest) (enforced : Bool)
      (i : AvInspection)
      → inspect json_of limits number_of probed detected request enforced ≡ ok i
      → (document : ProbeDocument) × ((signature : SignatureDetection) × ((probed ≡ ok document)
            × ((detected ≡ ok signature)
                × ((is : IsInspected document request signature i) × SafeIf enforced
                      request.media_type i is.video))))
  unfolding inspect
  inspect-IsInspected number_of probed detected request enforced i h =
      let (document, (read, h₁)) = bind-ok probed _ i h in
      let (signature, (seen, h₂)) = bind-ok detected _ i h₁ in
      let (j, (valid, h₃)) =
        bind-ok (validate_document number_of document request signature) _ i h₂ in
      let (u, (checked, h₄)) =
        bind-ok (if enforced then assert_safety json_of limits request.media_type j else ok tt) _ i
          h₃ in
      let is_i = ok-injective j i h₄ in
      let is =
        validate_document-IsInspected number_of document request signature i (valid ∙ ap ok is_i) in
      (
        document,
        (
          signature,
          (
            read,
            (
              seen,
              (
                is,
                safe_if enforced document request signature i u is (
                    subst
                      (λ x.
                        (if enforced
                          then assert_safety json_of limits request.media_type x
                          else ok tt)
                        ≡ ok u)
                      is_i checked),
              ),
            ),
          ),
        ),
      )
