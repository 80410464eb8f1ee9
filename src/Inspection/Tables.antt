-- ===== src/Inspection/Tables.antt =====
-- The tables of av-inspector.service.ts against the table of extension-policy.ts.
use mathlib.Core.Path.{subst}
use mathlib.Core.Option.{some-injective}
use posts_media.Common.{
  String, ◌≡◌, refl, sym, ap, ◌∙◌, true, Option, none, some, List, [], ◌∷◌, All, ◌==◌, string_eq,
  arith, Bool-cases, inl, inr, ◌⊎◌, ◌↔◌, ◌≢◌,
}
use posts_media.Domain.Enums.{MediaType}
use posts_media.Signature.Policies.{ExtensionPolicy, policies}
use posts_media.Validation.Names.{find_policy}
use posts_media.Inspection.Formats.{
  media_type_for_format, mime_for_format, is_one_of, audio_formats, video_formats,
}

pub is_one_of-All :
    (P : String → Type 0) (format : String) (formats : List String)
    → is_one_of formats format ≡ true
    → All P formats
    → P format
is_one_of-All P format [] h all = ground arith
is_one_of-All P format (f ∷ formats) h (p, ps) = elim (Bool-cases (format == f)) [
  | inl same ↦ subst P (sym ((string_eq.equals_iff format f).0 same)) p
  | inr differs ↦ is_one_of-All P format formats (rw differs at h) ps
]

pub audio_or_video :
    (format : String) (t : MediaType)
    → media_type_for_format format ≡ some t
    → ((t ≡ MediaType.audio) × (is_one_of audio_formats format ≡ true))
      ⊎ ((t ≡ MediaType.video) × (is_one_of video_formats format ≡ true))
unfolding media_type_for_format
audio_or_video format t h = elim (Bool-cases (is_one_of audio_formats format)) [
  | inl audio ↦ inl (ground arith, audio)
  | inr other ↦ elim (Bool-cases (is_one_of video_formats format)) [
    | inl video ↦ inr (ground arith, video)
    | inr neither ↦ ground arith
  ]
]

-- a policy of the table with this media type, format and MIME type
abbrev pub HasPolicy : MediaType → (format mime_type : String) → Type 0
HasPolicy t format mime_type =
    (p : ExtensionPolicy) × ((find_policy p.extension policies ≡ some p)
      × ((p.format ≡ format) × ((p.media_type ≡ t) × (p.detected_mime_type ≡ mime_type))))

pub policy-HasPolicy :
    (extension : String) (p : ExtensionPolicy)
    → find_policy extension policies ≡ some p
    → p.extension ≡ extension
    → HasPolicy p.media_type p.format p.detected_mime_type
policy-HasPolicy extension p found same =
    (p, (ap (λ x. find_policy x policies) same ∙ found, (refl, (refl, refl))))

-- the policy of a format, with the MIME type of the inspector
abbrev HasAvPolicy : MediaType → String → Type 0
HasAvPolicy t format = HasPolicy t format (mime_for_format format)

audio_formats-HasPolicy : All (HasAvPolicy MediaType.audio) audio_formats
unfolding find_policy mime_for_format
audio_formats-HasPolicy = (
  policy-HasPolicy "m4a" _ refl refl,
  (
    policy-HasPolicy "mp3" _ refl refl,
    (
      policy-HasPolicy "wav" _ refl refl,
      (
        policy-HasPolicy "aac" _ refl refl,
        (policy-HasPolicy "flac" _ refl refl, (policy-HasPolicy "ogg" _ refl refl, tt)),
      ),
    ),
  ),
)

video_formats-HasPolicy : All (HasAvPolicy MediaType.video) video_formats
unfolding find_policy mime_for_format
video_formats-HasPolicy = (
  policy-HasPolicy "mp4" _ refl refl,
  (
    policy-HasPolicy "mov" _ refl refl,
    (policy-HasPolicy "webm" _ refl refl, (policy-HasPolicy "mkv" _ refl refl, tt)),
  ),
)

-- A format that the inspector takes for audio or video is the format of a policy of the table, with
-- the same media type and the same MIME type.
media_type_for_format-HasPolicy :
    (format : String) (t : MediaType) → media_type_for_format format ≡ some t → HasAvPolicy t format
media_type_for_format-HasPolicy format t h = elim (audio_or_video format t h) [
  | inl (is_t, one) ↦
      subst (λ x. HasAvPolicy x format) (sym is_t)
        (is_one_of-All (HasAvPolicy MediaType.audio) format audio_formats one
          audio_formats-HasPolicy)
  | inr (is_t, one) ↦
      subst (λ x. HasAvPolicy x format) (sym is_t)
        (is_one_of-All (HasAvPolicy MediaType.video) format video_formats one
          video_formats-HasPolicy)
]

abbrev inspected_type : MediaType → Option MediaType
inspected_type MediaType.image = none
inspected_type t = some t

-- what the inspector knows of the format of a policy
abbrev Agrees : ExtensionPolicy → Type 0
Agrees p =
    (media_type_for_format p.format ≡ inspected_type p.media_type)
    × ((p.media_type ≡ MediaType.image) ⊎ (mime_for_format p.format ≡ p.detected_mime_type))

policies-Agrees : All Agrees policies
unfolding media_type_for_format mime_for_format
policies-Agrees = (
  (refl, inl refl),
  (
    (refl, inl refl),
    (
      (refl, inl refl),
      (
        (refl, inl refl),
        (
          (refl, inr refl),
          (
            (refl, inr refl),
            (
              (refl, inr refl),
              (
                (refl, inr refl),
                (
                  (refl, inr refl),
                  (
                    (refl, inr refl),
                    (
                      (refl, inr refl),
                      (
                        (refl, inr refl),
                        ((refl, inr refl), ((refl, inr refl), ((refl, inr refl), tt))),
                      ),
                    ),
                  ),
                ),
              ),
            ),
          ),
        ),
      ),
    ),
  ),
)

find_policy-All :
    (P : ExtensionPolicy → Type 0) (e : String) (ps : List ExtensionPolicy) (p : ExtensionPolicy)
    → All P ps
    → find_policy e ps ≡ some p
    → P p
unfolding find_policy
find_policy-All P e [] p all h = ground arith
find_policy-All P e (q ∷ ps) p (first, rest) h = elim (Bool-cases (q.extension == e)) [
  | inl same ↦ subst P (some-injective _ _ (rw same at h)) first
  | inr differs ↦ find_policy-All P e ps p rest (rw differs at h)
]

-- For the format of a policy of the table, the inspector has the media type of the policy if it is
-- audio or video, then with the MIME type of the policy, and no media type if it is an image.
find_policy-Agrees :
    (extension : String) (p : ExtensionPolicy) → find_policy extension policies ≡ some p → Agrees p
find_policy-Agrees extension p h = find_policy-All Agrees extension policies p policies-Agrees h

inspected_some : (t : MediaType) → (t ≢ MediaType.image) → inspected_type t ≡ some t
inspected_some MediaType.image other = absurd (other refl)
inspected_some MediaType.audio other = refl
inspected_some MediaType.video other = refl

-- The inspector takes a format for a media type exactly if the type is not that of images and the
-- table of extensions has a policy with this format and type, and with the MIME type that the
-- inspector reports for the format.
pub media_type_for_format_iff :
    (format : String) (t : MediaType)
    → (media_type_for_format format ≡ some t)
      ↔ ((t ≢ MediaType.image) × HasPolicy t format (mime_for_format format))
media_type_for_format_iff format t = (
  λ h. (
    (elim (audio_or_video format t h) [
      | inl (is_t, one) ↦ ground arith
      | inr (is_t, one) ↦ ground arith
    ]),
    media_type_for_format-HasPolicy format t h,
  ),
  λ (other, (p, (found, (of_format, (of_type, mime))))).
      ap media_type_for_format (sym of_format)
      ∙ (find_policy-Agrees p.extension p found).0
      ∙ ap inspected_type of_type
      ∙ inspected_some t other,
)
