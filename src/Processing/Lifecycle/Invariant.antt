-- ===== src/Processing/Lifecycle/Invariant.antt =====
-- What holds of a media row after any events.
use posts_media.Common.{ℕ, ◌≤◌, ◌+◌, ◌≡◌, refl, ap, ◌∙◌, true, none, List, [], ◌∷◌, is_some, arith}
use posts_media.Domain.Enums.{ProcessingStatus, ProcessingStep, is_processing}
use posts_media.Schema.{Media}
use posts_media.Processing.Lifecycle.{Event, retry, claim, step, run}

pub record IsConsistent (m : Media) : Type 0 where
  -- a lease is a token with an end, and is held exactly while the row is PROCESSING
  pub lease_ends : is_some m.processing_lease_expires_at ≡ is_some m.processing_lease_token
  pub leased : is_processing m.processing_status ≡ is_some m.processing_lease_token
  pub job : is_some m.active_job_id ≡ is_some m.processing_lease_token
  -- the step and the progress that clients are shown agree with the status
  pub completed_step :
      m.processing_status ≡ ProcessingStatus.completed → m.current_step ≡ ProcessingStep.completed
  pub completed_progress : m.processing_status ≡ ProcessingStatus.completed → m.progress ≡ 100
  pub completed_clean : m.processing_status ≡ ProcessingStatus.completed → m.last_error_code ≡ none
  pub failed_step :
      m.processing_status ≡ ProcessingStatus.failed → m.current_step ≡ ProcessingStep.failed
  pub failed_error :
      m.processing_status ≡ ProcessingStatus.failed → is_some m.last_error_code ≡ true
  pub failed_message :
      m.processing_status ≡ ProcessingStatus.failed → is_some m.last_error_message ≡ true
  pub pending_step :
      m.processing_status ≡ ProcessingStatus.pending → m.current_step ≡ ProcessingStep.pending
  pub pending_progress : m.processing_status ≡ ProcessingStatus.pending → m.progress ≡ 0

step-IsConsistent : (m : Media) (e : Event) → IsConsistent m → IsConsistent (step m e)
unfolding step
step-IsConsistent m (claim g j l t now) h = ground arith
step-IsConsistent m e h = ground arith

-- Whatever workers and clients do, in whatever order, the lease, the job, the step, the progress
-- and the last error of a media row agree with its status.
pub run-IsConsistent : (m : Media) (es : List Event) → IsConsistent m → IsConsistent (run m es)
unfolding run
run-IsConsistent m [] h = h
run-IsConsistent m (e ∷ es) h = run-IsConsistent (step m e) es (step-IsConsistent m e h)

step-completed :
    (m : Media) (e : Event)
    → IsConsistent m
    → m.processing_status ≡ ProcessingStatus.completed
    → step m e ≡ m
unfolding step
step-completed m (claim g j l t now) h c = ground arith
step-completed m e h c = ground arith

-- COMPLETED is final: no event changes a completed row.
pub completed_final :
    (m : Media) (es : List Event)
    → IsConsistent m
    → m.processing_status ≡ ProcessingStatus.completed
    → run m es ≡ m
unfolding run
completed_final m [] h c = refl
completed_final m (e ∷ es) h c =
    ap (λ n. run n es) (step-completed m e h c) ∙ completed_final m es h c

-- how many of the events are retries
abbrev pub retries : List Event → ℕ
retries [] = 0
retries (retry g ∷ es) = retries es + 1
retries (e ∷ es) = retries es

step-generation :
    (m : Media) (e : Event) (es : List Event)
    → (m.processing_generation ≤ (step m e).processing_generation)
      × ((step m e).processing_generation + retries es ≤ m.processing_generation + retries (e ∷ es))
unfolding step
step-generation m (claim g j l t now) es = ground arith
step-generation m e es = ground arith

-- The generation never falls, and only a retry raises it, by one.
pub run-generation :
    (m : Media) (es : List Event)
    → (m.processing_generation ≤ (run m es).processing_generation)
      × ((run m es).processing_generation ≤ m.processing_generation + retries es)
unfolding run
run-generation m [] = omega arith
run-generation m (e ∷ es) = omega (arith, step-generation m e es, run-generation (step m e) es)
