-- ===== src/Examples/Settings.antt =====
-- An environment, and what a response shows of a media item.
use posts_media.Common.{
  ◌≡◌, ◌↔◌, refl, true, none, some, [], ◌∷◌, map, is_some, codes, ◌==◌, string_eq, if◌then◌else◌,
  ◌||◌,
}
use posts_media.Domain.Enums.{ProcessingStatus, MediaVariantType}
use posts_media.Configuration.{EnvironmentConfiguration, parse_environment, related}
use posts_media.Configuration.Readers.{
  Environment, parsed, required_string, integer, boolean, one_of,
}
use posts_media.Configuration.Reading as Reading
use posts_media.Configuration.Accepted.{parse_environment-IsValid, IsValid}
use posts_media.Media.Presenter.{TypedVariant, present_media}
use posts_media.Media.Shown.{present_media-moved, moved, moved_variant}
use posts_media.Examples.World.{failed_photo}

abbrev environment : Environment
environment name =
    if name == "NODE_ENV"
    then some (codes " production")
    else if name == "LOG_LEVEL"
    then some (codes "info")
    else if name == "MINIO_USE_SSL"
    then some (codes "True")
    else if name == "PROCESSING_PROFILE"
    then some (codes "balanced-v1")
    else if name == "VIDEO_H264_PRESET"
    then some (codes "veryfast")
    else if name == "PROCESSING_LEASE_SECONDS" || name == "WORKER_HEARTBEAT_STALE_SECONDS"
    then some (codes "60")
    else some (codes "20")

abbrev Read : Type 0
Read = (c : EnvironmentConfiguration) × (parse_environment environment ≡ parsed c)

read : Read
unfolding parse_environment related required_string integer boolean one_of Reading.app
    Reading.database Reading.redis Reading.storage Reading.upload Reading.idempotency Reading.outbox
    Reading.worker Reading.processing
read = (_, refl)

parse_environment-IsValid_example : IsValid read.0
parse_environment-IsValid_example = parse_environment-IsValid environment read.0 read.1

abbrev variant : TypedVariant
variant = record {
  variant_type = MediaVariantType.optimized_image;
  row = record {
    bucket = "processed";
    object_key = "posts/p1/media/m1/optimized.webp";
    mime_type = "image/webp";
    format = "webp";
    size = 1024;
    checksum_sha256 = "def";
    width = some 640;
    height = some 480;
    bitrate_kbps = none;
    resolution_label = none;
  };
}

present_media-moved_example :
    (present_media "m1"
        (moved "elsewhere" "k" failed_photo)
        (map (moved_variant "elsewhere" "k") (variant ∷ []))
      ≡ present_media "m1" failed_photo (variant ∷ []))
    × ((is_some (present_media "m1" failed_photo (variant ∷ [])).links.retry ≡ true)
        ↔ (ProcessingStatus.failed ≡ ProcessingStatus.failed))
present_media-moved_example = present_media-moved "m1" "elsewhere" "k" failed_photo (variant ∷ [])
