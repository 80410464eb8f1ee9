-- ===== src/Domain/Texts.antt =====
-- The texts of the values of libs/domain/src/enums, as they are stored and sent.
use posts_media.Common.{String}
use posts_media.Domain.Enums.{
  ProcessingStatus, ProcessingStep, MediaVariantType, PostAggregateStatus,
}

abbrev pub status_text : ProcessingStatus → String
status_text ProcessingStatus.pending = "PENDING"
status_text ProcessingStatus.processing = "PROCESSING"
status_text ProcessingStatus.completed = "COMPLETED"
status_text ProcessingStatus.failed = "FAILED"

abbrev pub step_text : ProcessingStep → String
step_text ProcessingStep.pending = "PENDING"
step_text ProcessingStep.claiming = "CLAIMING"
step_text ProcessingStep.downloading = "DOWNLOADING"
step_text ProcessingStep.verifying = "VERIFYING"
step_text ProcessingStep.probing = "PROBING"
step_text ProcessingStep.planning = "PLANNING"
step_text ProcessingStep.processing = "PROCESSING"
step_text ProcessingStep.uploading = "UPLOADING"
step_text ProcessingStep.finalizing = "FINALIZING"
step_text ProcessingStep.completed = "COMPLETED"
step_text ProcessingStep.failed = "FAILED"

abbrev pub variant_type_text : MediaVariantType → String
variant_type_text MediaVariantType.optimized_image = "OPTIMIZED_IMAGE"
variant_type_text MediaVariantType.image_thumbnail = "IMAGE_THUMBNAIL"
variant_type_text MediaVariantType.normalized_audio = "NORMALIZED_AUDIO"
variant_type_text MediaVariantType.video_360p = "VIDEO_360P"
variant_type_text MediaVariantType.video_720p = "VIDEO_720P"
variant_type_text MediaVariantType.video_1080p = "VIDEO_1080P"
variant_type_text MediaVariantType.video_source = "VIDEO_SOURCE"
variant_type_text MediaVariantType.video_thumbnail = "VIDEO_THUMBNAIL"

abbrev pub aggregate_text : PostAggregateStatus → String
aggregate_text PostAggregateStatus.no_media = "NO_MEDIA"
aggregate_text PostAggregateStatus.pending = "PENDING"
aggregate_text PostAggregateStatus.processing = "PROCESSING"
aggregate_text PostAggregateStatus.partially_completed = "PARTIALLY_COMPLETED"
aggregate_text PostAggregateStatus.completed = "COMPLETED"
aggregate_text PostAggregateStatus.failed = "FAILED"
