-- ===== src/Domain/Aggregate/Laws.antt =====
-- What each aggregate status of a post says of its media.
use posts_media.Common.{◌≡◌, ◌≢◌, refl, ◌↔◌, true, false, List, [], ◌∷◌, All, any, all, arith}
use posts_media.Domain.Enums.{
  ProcessingStatus, PostAggregateStatus, is_pending, is_processing, is_completed, is_failed,
}
use posts_media.Domain.Aggregate.{calculate_post_aggregate_status}

-- no item is in the given status
abbrev pub NoneIs : ProcessingStatus → List ProcessingStatus → Type 0
NoneIs t = All (λ s. s ≢ t)

abbrev pub AllAre : ProcessingStatus → List ProcessingStatus → Type 0
AllAre t = All (λ s. s ≡ t)

all-AllAre_pending :
    (ss : List ProcessingStatus) → (all is_pending ss ≡ true) ↔ AllAre ProcessingStatus.pending ss
all-AllAre_pending [] = ground arith
all-AllAre_pending (s ∷ ss) = ground (arith, all-AllAre_pending ss)

all-AllAre_completed :
    (ss : List ProcessingStatus)
    → (all is_completed ss ≡ true) ↔ AllAre ProcessingStatus.completed ss
all-AllAre_completed [] = ground arith
all-AllAre_completed (s ∷ ss) = ground (arith, all-AllAre_completed ss)

all-AllAre_failed :
    (ss : List ProcessingStatus) → (all is_failed ss ≡ true) ↔ AllAre ProcessingStatus.failed ss
all-AllAre_failed [] = ground arith
all-AllAre_failed (s ∷ ss) = ground (arith, all-AllAre_failed ss)

any-NoneIs :
    (ss : List ProcessingStatus)
    → (any is_processing ss ≡ false) ↔ NoneIs ProcessingStatus.processing ss
any-NoneIs [] = ground arith
any-NoneIs (s ∷ ss) = ground (arith, any-NoneIs ss)

none_processing :
    (t : ProcessingStatus) (ss : List ProcessingStatus)
    → is_processing t ≡ false
    → AllAre t ss
    → any is_processing ss ≡ false
none_processing t [] h a = refl
none_processing t (s ∷ ss) h a = ground (arith, none_processing t ss)

-- A post is NO_MEDIA exactly when it has no media, PROCESSING exactly when some item is, and
-- COMPLETED, PENDING or FAILED exactly when it has media and every item is.
pub aggregate_iff :
    (ss : List ProcessingStatus)
    → let agg = calculate_post_aggregate_status ss in
      ((agg ≡ PostAggregateStatus.no_media) ↔ (ss ≡ []))
      × ((agg ≡ PostAggregateStatus.processing) ↔ ¬ NoneIs ProcessingStatus.processing ss)
      × ((agg ≡ PostAggregateStatus.completed) ↔ ((ss ≢ []) × AllAre ProcessingStatus.completed ss))
      × ((agg ≡ PostAggregateStatus.pending) ↔ ((ss ≢ []) × AllAre ProcessingStatus.pending ss))
      × ((agg ≡ PostAggregateStatus.failed) ↔ ((ss ≢ []) × AllAre ProcessingStatus.failed ss))
unfolding calculate_post_aggregate_status
aggregate_iff [] = ground arith
aggregate_iff (s ∷ ss) = ground (
  arith,
  all-AllAre_pending ss,
  all-AllAre_completed ss,
  all-AllAre_failed ss,
  any-NoneIs ss,
  none_processing ProcessingStatus.completed ss,
  none_processing ProcessingStatus.pending ss,
  none_processing ProcessingStatus.failed ss,
)
