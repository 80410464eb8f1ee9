-- ===== src/Outbox/Publication.antt =====
-- publish of apps/worker/src/outbox/dispatch-publication.service.ts
pub mod Delivery
use posts_media.Common.{
  ℕ, ◌+◌, String, Text, ◌≡◌, Bool, true, false, codes, if◌then◌else◌, string_eq,
}
use posts_media.Domain.Enums.{MediaType}
use posts_media.Domain.Json.{Json}
use posts_media.Domain.Result.{Try, returned, thrown}
use posts_media.Database.Table.{Table}
use posts_media.Schema.{ProcessingDispatch}
use posts_media.Outbox.Backoff.{delay_ms}
use posts_media.Outbox.Payload.{queue_of, mapping_invalid}
use posts_media.Outbox.Statements.{mark_published, mark_retry_wait, mark_dead}

-- The three BullMQ queues. `add` may throw (`false`); a job it has accepted is there under its id.
pub record JobQueues : Type 1 where
  pub State : Type 0
  pub add :
      MediaType → (job_name : String) (payload : Json) (job_id : String) → State → State × Bool
  pub has : MediaType → (job_id : String) → State → Bool
  pub add-has :
      (t : MediaType) (job_name : String) (payload : Json) (job_id : String) (q : State)
      → (add t job_name payload job_id q).1 ≡ true
      → has t job_id (add t job_name payload job_id q).0 ≡ true

abbrev pub finalization_failed : Text
finalization_failed = codes "OUTBOX_FINALIZATION_FAILED"

abbrev pub redis_publish_failed : Text
redis_publish_failed = codes "REDIS_PUBLISH_FAILED"

-- ClaimedDispatch
pub record ClaimedDispatch : Type 0 where
  pub id : String
  pub row : ProcessingDispatch
  pub lease_token : String

-- What the surroundings answer: the clock at the last statement, the random fraction, the message of
-- what is thrown, and whether the statement of markPublished is executed.
pub record Weather : Type 0 where
  pub now : ℕ
  pub numerator : ℕ
  pub denominator : ℕ
  pub message : Text
  pub executes : Bool

module _ (T : Table String ProcessingDispatch) (Q : JobQueues) (max_retry_delay_seconds : ℕ)
    (d : ClaimedDispatch) (w : Weather) where
  -- `catch`, once the queue is known
  abbrev pub wait_for_retry : Text → T.State → T.State
  wait_for_retry code s =
      (mark_retry_wait T d.id d.lease_token
        (w.now
          + delay_ms (d.row.publish_attempts + 1) max_retry_delay_seconds w.numerator w.denominator)
        code w.message s).0

  unfoldable pub enqueue : MediaType → T.State → Q.State → T.State × Q.State
  enqueue t s q =
      let (q', added) = Q.add t d.row.job_name d.row.payload d.row.job_id q in
      if added
      then (if w.executes
          then ((mark_published T d.id d.lease_token w.now s).0, q')
          else (wait_for_retry finalization_failed s, q'))
      else (wait_for_retry redis_publish_failed s, q')

  unfoldable pub publish : T.State → Q.State → T.State × Q.State
  publish s q = elim (queue_of d.id d.row) [
    | thrown e ↦ ((mark_dead T d.id d.lease_token mapping_invalid e s).0, q)
    | returned t ↦ enqueue t s q
  ]
