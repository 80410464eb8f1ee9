-- ===== src/Schema/Keys.antt =====
-- The unique keys of several columns.
use posts_media.Common.{
  ℕ, String, ◌≡◌, ◌↔◌, Bool, true, ◌&&◌, Eq, ◌==◌, eq_iff, nat_beq, nat_eq, arith,
}
use posts_media.Domain.Enums.{MediaVariantType}
pub use posts_media.Common.{string_eq}

-- @@unique([mediaId, processingProfile, variantType])
pub record VariantKey : Type 0 where
  pub media_id : String
  pub processing_profile : String
  pub variant_type : MediaVariantType

-- @@unique([mediaId, generation, bullAttemptNumber])
pub record AttemptKey : Type 0 where
  pub media_id : String
  pub generation : ℕ
  pub bull_attempt_number : ℕ

abbrev variant_number : MediaVariantType → ℕ
variant_number MediaVariantType.optimized_image = 0
variant_number MediaVariantType.image_thumbnail = 1
variant_number MediaVariantType.normalized_audio = 2
variant_number MediaVariantType.video_360p = 3
variant_number MediaVariantType.video_720p = 4
variant_number MediaVariantType.video_1080p = 5
variant_number MediaVariantType.video_source = 6
variant_number MediaVariantType.video_thumbnail = 7

abbrev pub variant_key_beq : VariantKey → VariantKey → Bool
variant_key_beq a b =
    a.media_id == b.media_id
    && (a.processing_profile == b.processing_profile
        && nat_beq (variant_number a.variant_type) (variant_number b.variant_type))

pub variant_key_beq_iff : (a b : VariantKey) → (variant_key_beq a b ≡ true) ↔ (a ≡ b)
variant_key_beq_iff a b =
    ground (arith, eq_iff a.media_id b.media_id, eq_iff a.processing_profile b.processing_profile)

instance abbrev pub variant_key_eq : Eq VariantKey
variant_key_eq = record { equals = variant_key_beq; equals_iff = variant_key_beq_iff }

abbrev pub attempt_key_beq : AttemptKey → AttemptKey → Bool
attempt_key_beq a b =
    a.media_id == b.media_id
    && (a.generation == b.generation && a.bull_attempt_number == b.bull_attempt_number)

pub attempt_key_beq_iff : (a b : AttemptKey) → (attempt_key_beq a b ≡ true) ↔ (a ≡ b)
attempt_key_beq_iff a b = ground (arith, eq_iff a.media_id b.media_id)

instance abbrev pub attempt_key_eq : Eq AttemptKey
attempt_key_eq = record { equals = attempt_key_beq; equals_iff = attempt_key_beq_iff }
