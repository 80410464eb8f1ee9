-- ===== src/Processing/Artifacts.antt =====
-- The artifacts that apps/worker/src/consumers/media-queue-consumers.service.ts publishes of what the
-- processors return.
use Prim.Native.String.{◌++◌}
use posts_media.Common.{
  ℕ, String, ◌≡◌, ◌≢◌, refl, sym, ap, ◌∙◌, true, none, some, List, [], ◌∷◌, map, All, ◌==◌,
  string_eq, if◌then◌else◌,
}
use posts_media.Domain.Enums.{MediaVariantType}
use posts_media.Inspection.Formats.{is_one_of}
use posts_media.Inspection.Tables.{is_one_of-All}
use posts_media.Processing.Publication.{ProcessedArtifact}

-- ImageProcessingResult and VideoOutput of libs/media-processing, as far as they are read
pub record ImageProcessingResult : Type 0 where
  pub optimized_path : String
  pub thumbnail_path : String
  pub width : ℕ
  pub height : ℕ
  pub thumbnail_width : ℕ
  pub thumbnail_height : ℕ

pub record VideoOutput : Type 0 where
  pub path : String
  pub label : String

abbrev webp_artifact : String → String → MediaVariantType → ℕ → ℕ → ProcessedArtifact
webp_artifact path filename variant_type width height = record {
  path = path;
  filename = filename;
  variant_type = variant_type;
  mime_type = "image/webp";
  format = "webp";
  width = some width;
  height = some height;
  bitrate_kbps = none;
  resolution_label = none;
}

unfoldable pub image_artifacts : ImageProcessingResult → List ProcessedArtifact
image_artifacts r =
    webp_artifact r.optimized_path "optimized.webp" MediaVariantType.optimized_image r.width
      r.height
    ∷ webp_artifact r.thumbnail_path "thumbnail.webp" MediaVariantType.image_thumbnail
        r.thumbnail_width r.thumbnail_height
    ∷ []

unfoldable pub audio_artifacts : String → List ProcessedArtifact
audio_artifacts output_path =
    record {
      path = output_path;
      filename = "audio-192k.mp3";
      variant_type = MediaVariantType.normalized_audio;
      mime_type = "audio/mpeg";
      format = "mp3";
      width = none;
      height = none;
      bitrate_kbps = some 192;
      resolution_label = none;
    }
    ∷ []

-- typeForOutput
unfoldable pub type_for_output : String → MediaVariantType
type_for_output label =
    if label == "thumbnail"
    then MediaVariantType.video_thumbnail
    else if label == "source"
    then MediaVariantType.video_source
    else if label == "360p"
    then MediaVariantType.video_360p
    else if label == "720p"
    then MediaVariantType.video_720p
    else MediaVariantType.video_1080p

unfoldable pub filename_for_output : String → String
filename_for_output label =
    if label == "thumbnail" then "thumbnail.jpg" else "video-" ++ (label ++ ".mp4")

unfoldable pub video_artifact : VideoOutput → ProcessedArtifact
video_artifact output =
    let thumbnail = output.label == "thumbnail" in
    record {
      path = output.path;
      filename = filename_for_output output.label;
      variant_type = type_for_output output.label;
      mime_type = if thumbnail then "image/jpeg" else "video/mp4";
      format = if thumbnail then "jpg" else "mp4";
      width = none;
      height = none;
      bitrate_kbps = none;
      resolution_label = if thumbnail then none else some output.label;
    }

abbrev pub video_artifacts : List VideoOutput → List ProcessedArtifact
video_artifacts = map video_artifact

-- the labels of the renditions and of the thumbnail
abbrev pub labels : List String
labels = "thumbnail" ∷ "source" ∷ "360p" ∷ "720p" ∷ "1080p" ∷ []

abbrev label_of : MediaVariantType → String
label_of MediaVariantType.video_thumbnail = "thumbnail"
label_of MediaVariantType.video_source = "source"
label_of MediaVariantType.video_360p = "360p"
label_of MediaVariantType.video_720p = "720p"
label_of t = "1080p"

label_of-type_for_output :
    (label : String) → is_one_of labels label ≡ true → label_of (type_for_output label) ≡ label
unfolding type_for_output
label_of-type_for_output label h =
    is_one_of-All (λ l. label_of (type_for_output l) ≡ l) label labels h
      (refl, (refl, (refl, (refl, (refl, tt)))))

-- two files have the same name if they have the same label
abbrev SameName : String → String → Type 0
SameName a b = (filename_for_output a == filename_for_output b) ≡ (a == b)

filename-label :
    (a b : String)
    → is_one_of labels a ≡ true
    → is_one_of labels b ≡ true
    → filename_for_output a ≡ filename_for_output b
    → a ≡ b
unfolding filename_for_output
filename-label a b is_a is_b same =
    let all : SameName a b =
      is_one_of-All (λ x. SameName x b) a labels is_a
        (is_one_of-All
          (λ y.
            SameName "thumbnail" y
            × (SameName "source" y
                × (SameName "360p" y × (SameName "720p" y × (SameName "1080p" y × Unit {0})))))
          b labels is_b
          (
            (refl, (refl, (refl, (refl, (refl, tt))))),
            (
              (refl, (refl, (refl, (refl, (refl, tt))))),
              (
                (refl, (refl, (refl, (refl, (refl, tt))))),
                (
                  (refl, (refl, (refl, (refl, (refl, tt))))),
                  ((refl, (refl, (refl, (refl, (refl, tt))))), tt),
                ),
              ),
            ),
          )) in
    (string_eq.equals_iff a b).0
      (sym all ∙ (string_eq.equals_iff (filename_for_output a) (filename_for_output b)).1 same)

-- pairwise different under a function
abbrev pub Distinct : {A B : Type 0} → (A → B) → List A → Type 0
Distinct f [] = Unit
Distinct f (x ∷ xs) = All (λ y. f x ≢ f y) xs × Distinct f xs

others :
    {B : Type 0} (g : ProcessedArtifact → B) (o : VideoOutput) (os : List VideoOutput)
    → ((p : VideoOutput)
        → is_one_of labels p.label ≡ true
        → g (video_artifact o) ≡ g (video_artifact p)
        → o.label ≡ p.label)
    → All (λ p. is_one_of labels p.label ≡ true) os
    → All (λ p. o.label ≢ p.label) os
    → All (λ a. g (video_artifact o) ≢ g a) (video_artifacts os)
others g o [] h known differ = tt
others g o (p ∷ os) h (k, ks) (d, ds) = (λ same. d (h p k same), others g o os h ks ds)

-- If the outputs of a video have labels of renditions or of the thumbnail, each once, then the
-- artifacts that are published of them have pairwise different file names, and pairwise different
-- variant types.
pub video_artifacts-Distinct :
    (outputs : List VideoOutput)
    → All (λ o. is_one_of labels o.label ≡ true) outputs
    → Distinct (λ o. o.label) outputs
    → Distinct (λ a. a.filename) (video_artifacts outputs)
      × Distinct (λ a. a.variant_type) (video_artifacts outputs)
unfolding video_artifact
video_artifacts-Distinct [] known differ = (tt, tt)
video_artifacts-Distinct (o ∷ outputs) (k, ks) (d, ds) =
    let (names, types) = video_artifacts-Distinct outputs ks ds in
    (
      (
        others (λ a. a.filename) o outputs (λ p is_p. filename-label o.label p.label k is_p) ks d,
        names,
      ),
      (
        others (λ a. a.variant_type) o outputs
            (λ p is_p same.
              sym (label_of-type_for_output o.label k)
              ∙ ap label_of same
              ∙ label_of-type_for_output p.label is_p)
            ks d,
        types,
      ),
    )
