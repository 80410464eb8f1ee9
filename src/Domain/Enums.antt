-- ===== src/Domain/Enums.antt =====
-- libs/domain/src/enums, and the enums of prisma/schema.prisma that the services use.
use posts_media.Common.{Bool, true, false}

pub data MediaType : Type 0 where
  image audio video : MediaType

pub data ProcessingStatus : Type 0 where
  pending processing completed failed : ProcessingStatus

pub data ProcessingStep : Type 0 where
  pending claiming downloading verifying probing planning : ProcessingStep
  processing uploading finalizing completed failed : ProcessingStep

pub data MediaVariantType : Type 0 where
  optimized_image image_thumbnail normalized_audio : MediaVariantType
  video_360p video_720p video_1080p video_source video_thumbnail : MediaVariantType

pub data PostAggregateStatus : Type 0 where
  no_media pending processing partially_completed completed failed : PostAggregateStatus

pub data DispatchReason : Type 0 where
  initial_upload manual_retry : DispatchReason

-- `status === …`
abbrev pub is_pending : ProcessingStatus → Bool
is_pending ProcessingStatus.pending = true
is_pending _ = false

abbrev pub is_processing : ProcessingStatus → Bool
is_processing ProcessingStatus.processing = true
is_processing _ = false

abbrev pub is_completed : ProcessingStatus → Bool
is_completed ProcessingStatus.completed = true
is_completed _ = false

abbrev pub is_failed : ProcessingStatus → Bool
is_failed ProcessingStatus.failed = true
is_failed _ = false

pub ProcessingStatus-discrete : Discrete ProcessingStatus
ProcessingStatus-discrete = hlevel
