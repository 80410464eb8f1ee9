-- ===== src/Media/Shown.antt =====
-- What a response shows of a media item, and what it hides.
use posts_media.Common.{String, ◌≡◌, refl, ap, ◌↔◌, true, List, [], ◌∷◌, map, arith, is_some}
use posts_media.Domain.Enums.{ProcessingStatus}
use posts_media.Schema.{Media}
use posts_media.Media.Presenter.{TypedVariant, present_variant, present_media}

-- the same item, with its original kept elsewhere
abbrev pub moved : String → String → Media → Media
moved bucket object_key m = record m { original_bucket = bucket; original_object_key = object_key }

abbrev pub moved_variant : String → String → TypedVariant → TypedVariant
moved_variant bucket object_key v = record {
  variant_type = v.variant_type;
  row = record (v.row) { bucket = bucket; object_key = object_key };
}

variants-moved :
    (bucket object_key : String) (vs : List TypedVariant)
    → map present_variant (map (moved_variant bucket object_key) vs) ≡ map present_variant vs
variants-moved bucket object_key [] = refl
variants-moved bucket object_key (v ∷ vs) =
    ap (λ l. present_variant v ∷ l) (variants-moved bucket object_key vs)

-- The response for a media item is the same wherever its original and its variants are kept, and it
-- has a link to retry exactly if the item has failed.
pub present_media-moved :
    (id bucket object_key : String) (m : Media) (vs : List TypedVariant)
    → (present_media id (moved bucket object_key m) (map (moved_variant bucket object_key) vs)
        ≡ present_media id m vs)
      × ((is_some (present_media id m vs).links.retry ≡ true)
          ↔ (m.processing_status ≡ ProcessingStatus.failed))
unfolding present_media
present_media-moved id bucket object_key m vs = (
  ap (λ l. record (present_media id m vs) { variants = l }) (variants-moved bucket object_key vs),
  ground arith,
)
