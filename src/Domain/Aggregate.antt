-- ===== src/Domain/Aggregate.antt =====
-- libs/domain/src/models/post-aggregate-status.ts
use posts_media.Common.{Bool, true, false, List, [], ◌∷◌, any, all, if◌then◌else◌, ◌≡◌, refl, arith}
pub mod Laws
use posts_media.Domain.Enums.{
  ProcessingStatus, is_pending, is_processing, is_completed, is_failed, PostAggregateStatus,
}

unfoldable pub calculate_post_aggregate_status : List ProcessingStatus → PostAggregateStatus
calculate_post_aggregate_status [] = PostAggregateStatus.no_media
calculate_post_aggregate_status (s ∷ ss) =
    let statuses = s ∷ ss in
    if any is_processing statuses
    then PostAggregateStatus.processing
    else if all is_pending statuses
    then PostAggregateStatus.pending
    else if all is_completed statuses
    then PostAggregateStatus.completed
    else if all is_failed statuses
    then PostAggregateStatus.failed
    else PostAggregateStatus.partially_completed

mixed :
    calculate_post_aggregate_status (ProcessingStatus.completed ∷ ProcessingStatus.failed ∷ [])
    ≡ PostAggregateStatus.partially_completed
unfolding calculate_post_aggregate_status
mixed = refl
