-- ===== src/Idempotency/Service.antt =====
-- libs/database/src/idempotency/idempotency.service.ts, over any table of IdempotencyRequest rows.
-- Each database statement is atomic; what other processes do before it is `Env.before`.
pub mod Rounds
pub mod Lease
pub mod Exclusive
pub mod Replay
pub mod Stale
use posts_media.Common.{
  ℕ, zero, suc, ◌+◌, ◌*◌, String, ◌≡◌, Bool, true, false, not, ◌&&◌, ◌||◌, Option, none, some,
  or_else, at_most, Eq, ◌==◌, string_eq, if◌then◌else◌,
}
use posts_media.Domain.Errors.{DomainError, ErrorCode}
use posts_media.Domain.Json.{Json, null, num, obj, end, field}
use posts_media.Domain.Result.{Result, ok, err}
use posts_media.Database.Table.{Table, where_key, count_is_one}
use posts_media.Idempotency.{
  IdempotencyState, Context, Outcome, IdempotencyRequest, Claim, AcquireResult, Execution,
  finalized, retryable_failure, is_finalized, is_retryable, is_in_progress,
}

abbrev pub in_progress_retry_after_seconds : ℕ
in_progress_retry_after_seconds = 2

abbrev pub key_reused_error : DomainError
key_reused_error = record {
  code = ErrorCode.idempotency_key_reused;
  message = "This Idempotency-Key was already used for a different request.";
  http_status = 409;
  details = none;
}

abbrev pub request_in_progress_error : DomainError
request_in_progress_error = record {
  code = ErrorCode.idempotency_request_in_progress;
  message = "A request with this Idempotency-Key is already being processed.";
  http_status = 409;
  details = some (obj (field "retryAfterSeconds" (num in_progress_retry_after_seconds) end));
}

-- the two settings of the constructor
pub record Settings : Type 0 where
  pub ttl_hours : ℕ
  pub lease_seconds : ℕ

-- The surroundings of one call: before its i-th statement the others change the table, and the
-- clock and `randomUUID` are read.
pub record Env (S : Type 0) : Type 0 where
  pub before : ℕ → S → S
  pub now : ℕ → ℕ
  pub uuid : ℕ → String

-- no other process touches the table during the call
abbrev pub quiet : {S : Type 0} → (ℕ → ℕ) → (ℕ → String) → Env S
quiet clock uuid = record { before = λ i s. s; now = clock; uuid = uuid }

-- the outcome that a finalized row replays
abbrev pub stored_outcome : IdempotencyRequest → Outcome
stored_outcome row = record {
  response_status = or_else row.response_status 200;
  response_body = or_else row.response_body null;
  target_resource_id = row.target_resource_id;
  resource_ids = row.resource_ids;
}

-- the row of a fresh key
abbrev pub fresh_row : Context → String → String → ℕ → ℕ → IdempotencyRequest
fresh_row ctx fingerprint token lease_expires_at expires_at = record {
  operation = ctx.operation;
  method = ctx.method;
  route_template = ctx.route_template;
  request_fingerprint = fingerprint;
  state = IdempotencyState.in_progress;
  response_status = none;
  response_body = none;
  target_resource_id = none;
  resource_ids = none;
  lease_token = some token;
  lease_expires_at = some lease_expires_at;
  finalized_at = none;
  expires_at = expires_at;
}

-- the `where` of the conditional reclaim, at the time of the update
abbrev pub can_reclaim : String → ℕ → IdempotencyRequest → Bool
can_reclaim fingerprint now row =
    row.request_fingerprint == fingerprint
    && (is_retryable row.state || (is_in_progress row.state && at_most now row.lease_expires_at))

abbrev pub reclaim_data : String → ℕ → IdempotencyRequest → IdempotencyRequest
reclaim_data token lease_expires_at row = record row {
  state = IdempotencyState.in_progress;
  lease_token = some token;
  lease_expires_at = some lease_expires_at;
}

abbrev pub finalize_data : Outcome → ℕ → IdempotencyRequest → IdempotencyRequest
finalize_data outcome now row = record row {
  state = finalized;
  response_status = some outcome.response_status;
  response_body = some outcome.response_body;
  target_resource_id = outcome.target_resource_id;
  resource_ids = outcome.resource_ids;
  finalized_at = some now;
  lease_token = none;
  lease_expires_at = none;
}

abbrev pub failure_data : IdempotencyRequest → IdempotencyRequest
failure_data row = record row {
  state = retryable_failure;
  lease_token = none;
  lease_expires_at = none;
}

-- `reconcileExisting` up to its update: an answer, or an attempt to reclaim
pub data Verdict : Type 0 where
  answer : Claim → Verdict
  reclaim : Verdict

-- the `reclaimable` of the row as it was read
abbrev reclaimable : ℕ → IdempotencyRequest → Bool
reclaimable now row =
    is_retryable row.state || (is_in_progress row.state && at_most now row.lease_expires_at)

unfoldable pub reconcile : String → ℕ → IdempotencyRequest → Verdict
reconcile fingerprint now row =
    let same = row.request_fingerprint == fingerprint in
    if is_finalized row.state
    then answer (if same then Claim.replay (stored_outcome row) else Claim.conflict)
    else if not (reclaimable now row)
    then answer (if same then Claim.in_progress else Claim.conflict)
    else if same
    then reclaim
    else answer Claim.conflict

unfoldable pub acquire_result : Claim → Result AcquireResult
acquire_result Claim.acquired = ok AcquireResult.acquired
acquire_result (Claim.replay o) = ok (AcquireResult.replay o)
acquire_result Claim.conflict = err key_reused_error
acquire_result Claim.in_progress = err request_in_progress_error

module _ (T : Table String IdempotencyRequest) (cfg : Settings) where
  open T use {State, find, update_many, create}

  -- the statement number 2 of a round, and the `count` that it returns
  unfoldable pub settle : Env State → ℕ → Context → String → ℕ → Verdict → State → State × Claim
  settle env i ctx fingerprint lease (answer c) s = (s, c)
  settle env i ctx fingerprint lease reclaim s =
      let (s', count) =
        update_many (where_key ctx.key (can_reclaim fingerprint (env.now (i + 2))))
          (reclaim_data (env.uuid (i + 2)) lease) (env.before (i + 2) s) in
      (s', if count_is_one count then Claim.acquired else Claim.in_progress)

  -- `acquire`, which calls itself again if the row was deleted after the failed insert; `none` is
  -- that this happened in every round of the fuel.
  unfoldable pub acquire : ℕ → Env State → ℕ → Context → String → State → Option (State × Claim)
  unfolding settle reconcile
  acquire zero env i ctx fingerprint s = none
  acquire (suc fuel) env i ctx fingerprint s =
      let lease = env.now i + cfg.lease_seconds * 1000 in
      let expires = env.now i + cfg.ttl_hours * 3600000 in
      let s0 = env.before i s in
      elim (create ctx.key (fresh_row ctx fingerprint (env.uuid i) lease expires) s0) [
        | some s' ↦ some (s', Claim.acquired)
        | none ↦
            let s1 = env.before (i + 1) s0 in
            elim (find ctx.key s1) [
              | none ↦ acquire fuel env (i + 2) ctx fingerprint s1
              | some row ↦ some (
                  settle env i ctx fingerprint lease (reconcile fingerprint (env.now (i + 1)) row)
                    s1)
            ]
      ]

  unfoldable pub acquire_or_replay :
      ℕ → Env State → Context → String → State → Option (State × Result AcquireResult)
  acquire_or_replay fuel env ctx fingerprint s = elim (acquire fuel env 0 ctx fingerprint s) [
    | none ↦ none
    | some (s', claim) ↦ some (s', acquire_result claim)
  ]

  unfoldable pub finalize : String → Outcome → ℕ → State → State
  finalize key outcome now s =
      (update_many (where_key key (λ _. true)) (finalize_data outcome now) s).0

  unfoldable pub mark_retryable_failure : String → State → State
  mark_retryable_failure key s = (update_many (where_key key (λ _. true)) failure_data s).0

  -- the table, and all else that the action reads and writes
  abbrev pub World : Type 0 → Type 0
  World D = State × D

  module _ {D : Type 0} where
    unfoldable pub after_action :
        String → ℕ → State → D × Result Outcome → World D × Result Execution
    after_action key done s (d, ok outcome) =
        ((finalize key outcome done s, d), ok (record { outcome = outcome; replayed = false }))
    after_action key done s (d, err e) = ((mark_retryable_failure key s, d), err e)

    unfoldable pub run_claim :
        String
        → (State → State)
        → ℕ
        → (D → D × Result Outcome)
        → D
        → State × Result AcquireResult
        → World D × Result Execution
    run_claim key during done action d (s, err e) = ((s, d), err e)
    run_claim key during done action d (s, ok (AcquireResult.replay o)) =
        ((s, d), ok (record { outcome = o; replayed = true }))
    run_claim key during done action d (s, ok AcquireResult.acquired) =
        after_action key done (during s) (action d)

    -- `during`: what the others do to the table while the action runs; `done`: the clock after it
    unfoldable pub execute_idempotent :
        ℕ
        → Env State
        → (State → State)
        → ℕ
        → Context
        → String
        → (D → D × Result Outcome)
        → World D
        → Option (World D × Result Execution)
    execute_idempotent fuel env during done ctx fingerprint action (s, d) =
        elim (acquire_or_replay fuel env ctx fingerprint s) [
          | none ↦ none
          | some claimed ↦ some (run_claim ctx.key during done action d claimed)
        ]
