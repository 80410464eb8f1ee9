-- ===== src/Queues.antt =====
-- libs/queues/src: the names of the three queues and of their jobs, the job ids, and the payload.
pub mod Payload
pub mod JobIds
use Prim.Native.String.{◌++◌}
use posts_media.Common.{ℕ, String}
use posts_media.Common.Decimal.{decimal}
use posts_media.Domain.Enums.{MediaType, image, audio, video}

-- QUEUE_NAMES, queueNameFor
abbrev pub queue_name_for : MediaType → String
queue_name_for image = "image-processing"
queue_name_for audio = "audio-processing"
queue_name_for video = "video-processing"

-- JOB_NAMES, jobNameFor
abbrev pub job_name_for : MediaType → String
job_name_for image = "process-image"
job_name_for audio = "process-audio"
job_name_for video = "process-video"

-- `media-${mediaId}-generation-${generation}`
unfoldable pub media_job_id : String → ℕ → String
media_job_id media_id generation = "media-" ++ (media_id ++ ("-generation-" ++ decimal generation))
