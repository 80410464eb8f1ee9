-- ===== src/Examples/Requests.antt =====
-- Requests with one idempotency key, on an association list.
use posts_media.Common.{
  ℕ, suc, ◌+◌, ◌≡◌, ◌↔◌, ◌⊎◌, inr, refl, true, false, Option, none, some, List, [], ◌∷◌, String,
  arith, string_eq, if◌then◌else◌, nat_beq,
}
use posts_media.Domain.Errors.{DomainError, ErrorCode}
use posts_media.Domain.Json.{null}
use posts_media.Domain.Result.{Result, ok, err}
use posts_media.Database.Table.{Table}
use posts_media.Database.Rows.{rows_table}
use posts_media.Idempotency.{
  IdempotencyState, IdempotencyOperation, Context, Outcome, IdempotencyRequest, Claim, Execution,
}
use posts_media.Idempotency.Service.{
  Settings, quiet, acquire, reconcile, settle, execute_idempotent, run_claim, after_action,
  acquire_or_replay, acquire_result, finalize,
}
use posts_media.Idempotency.Service.Lease.{claim_of, acquire-acquired_iff, IsReclaimable}
use posts_media.Idempotency.Service.Exclusive.{granted_excludes, racing_reclaims, state_of}
use posts_media.Idempotency.Service.Replay.{execute-execute}
use posts_media.Idempotency.Service.Stale.{completed_request_reopens}
use posts_media.Idempotency.Rejection.{
  domain_error_to_outcome, outcome_to_domain_error, outcome_to_domain_error-domain_error_to_outcome,
}

abbrev requests : Table String IdempotencyRequest
requests = rows_table

abbrev settings : Settings
settings = record { ttl_hours = 24; lease_seconds = 900 }

abbrev create_request : Context
create_request = record {
  key = "key-0001";
  operation = IdempotencyOperation.create_post;
  method = "POST";
  route_template = "/api/posts";
}

abbrev clock : ℕ → ℕ
clock i = 1000 + i

abbrev late_clock : ℕ → ℕ
late_clock i = 2000000 + i

abbrev uuid : ℕ → String
uuid i = "t1"

abbrev other_uuid : ℕ → String
other_uuid i = "t2"

abbrev reply : Outcome
reply = record {
  response_status = 201;
  response_body = null;
  target_resource_id = some "p1";
  resource_ids = none;
}

abbrev storage_unavailable : DomainError
storage_unavailable = record {
  code = ErrorCode.storage_unavailable;
  message = "The uploaded media could not be stored.";
  http_status = 503;
  details = none;
}

abbrev succeeds : ℕ → ℕ × Result Outcome
succeeds n = (suc n, ok reply)

abbrev fails : ℕ → ℕ × Result Outcome
fails n = (suc n, err storage_unavailable)

-- the row of a request whose lease has run out
abbrev abandoned : IdempotencyRequest
abandoned = record {
  operation = IdempotencyOperation.create_post;
  method = "POST";
  route_template = "/api/posts";
  request_fingerprint = "f1";
  state = IdempotencyState.in_progress;
  response_status = none;
  response_body = none;
  target_resource_id = none;
  resource_ids = none;
  lease_token = some "t0";
  lease_expires_at = some 500;
  finalized_at = none;
  expires_at = 90000000;
}

acquire-acquired_iff_example :
    (claim_of (
        acquire requests settings 1
          (quiet clock uuid)
          0
          create_request
          "f1"
          (("key-0001", abandoned) ∷ []))
      ≡ some Claim.acquired)
    ↔ ((requests.find "key-0001" (("key-0001", abandoned) ∷ []) ≡ none)
        ⊎ ((row : IdempotencyRequest) × (requests.find "key-0001" (("key-0001", abandoned) ∷ [])
              ≡ some row)
            × IsReclaimable "f1" 1001 row))
acquire-acquired_iff_example =
    acquire-acquired_iff requests settings clock uuid create_request "f1" 0
      (("key-0001", abandoned) ∷ []) (omega arith)

acquired :
    claim_of (acquire requests settings 1 (quiet clock uuid) 0 create_request "f1" [])
    ≡ some Claim.acquired
unfolding acquire
acquired = refl

granted_excludes_example :
    let s' =
      state_of [] (acquire requests settings 1 (quiet clock uuid) 0 create_request "f1" []) in
    acquire requests settings 1 (quiet clock other_uuid) 0 create_request "f2" s'
    ≡ some (s', Claim.conflict)
granted_excludes_example =
    granted_excludes requests settings clock clock uuid other_uuid create_request create_request
      "f1" "f2" 0 0 [] refl acquired (omega arith)

abbrev left_by :
    Option ((List (String × IdempotencyRequest) × ℕ) × Result Execution)
    → List (String × IdempotencyRequest)
left_by none = []
left_by (some ((s, d), r)) = s

-- a first request that creates its post
abbrev done_state : List (String × IdempotencyRequest)
done_state = left_by (
    execute_idempotent requests settings 1 (quiet clock uuid) (λ t. t) 5000 create_request "f1"
      succeeds ([], 0))

finished :
    execute_idempotent requests settings 1
      (quiet clock uuid)
      (λ t. t)
      5000
      create_request
      "f1"
      succeeds
      ([], 0)
    ≡ some ((done_state, 1), ok (record { outcome = reply; replayed = false }))
unfolding execute_idempotent run_claim after_action finalize acquire acquire_or_replay
    acquire_result
finished = refl

execute-execute_example :
    execute_idempotent requests settings 1
      (quiet late_clock other_uuid)
      (λ t. t)
      9000
      create_request
      "f1"
      fails
      (done_state, 7)
    ≡ some ((done_state, 7), ok (record { outcome = reply; replayed = true }))
execute-execute_example =
    execute-execute requests settings clock late_clock uuid other_uuid create_request "f1" 0 0
      (λ t. t) (λ t. t) 5000 9000 succeeds fails [] done_state done_state 0 1 7 reply (λ t. refl)
      refl finished

-- a second request reclaims the abandoned row, completes, and the first one fails then
abbrev abandoned_state : List (String × IdempotencyRequest)
abandoned_state =
    state_of [] (acquire requests settings 1 (quiet clock uuid) 0 create_request "f1" [])

abbrev second_state : List (String × IdempotencyRequest)
second_state = left_by (
    execute_idempotent requests settings 1 (quiet late_clock other_uuid) (λ t. t) 2100000
      create_request "f1" succeeds (abandoned_state, 0))

second_finished :
    execute_idempotent requests settings 1
      (quiet late_clock other_uuid)
      (λ t. t)
      2100000
      create_request
      "f1"
      succeeds
      (abandoned_state, 0)
    ≡ some ((second_state, 1), ok (record { outcome = reply; replayed = false }))
unfolding execute_idempotent run_claim after_action finalize acquire acquire_or_replay
    acquire_result reconcile settle
second_finished = refl

completed_request_reopens_example :
    (left : List (String × IdempotencyRequest)) × (execute_idempotent requests settings 1
        (quiet clock uuid)
        (λ _. second_state)
        2200000
        create_request
        "f1"
        fails
        ([], 0)
      ≡ some ((left, 1), err storage_unavailable))
    × (claim_of (acquire requests settings 1 (quiet late_clock uuid) 0 create_request "f1" left)
        ≡ some Claim.acquired)
completed_request_reopens_example =
    completed_request_reopens requests settings clock late_clock late_clock uuid other_uuid uuid
      create_request "f1" 0 0 0 2200000 2100000 fails succeeds [] second_state 0 1 0 1 reply
      storage_unavailable acquired second_finished refl (omega arith)

reclaimed :
    claim_of (
      acquire requests settings 1
        (quiet clock uuid)
        0
        create_request
        "f1"
        (("key-0001", abandoned) ∷ []))
    ≡ some Claim.acquired
unfolding acquire reconcile settle
reclaimed = refl

racing_reclaims_example :
    claim_of (
      acquire requests settings 1
        (record {
          before = λ i s'.
              if nat_beq i 2
              then state_of s'
                  (acquire requests settings 1 (quiet clock uuid) 0 create_request "f1" s')
              else s';
          now = clock;
          uuid = other_uuid;
        })
        0
        create_request
        "f1"
        (("key-0001", abandoned) ∷ []))
    ≡ some Claim.in_progress
racing_reclaims_example =
    racing_reclaims requests settings clock clock uuid other_uuid create_request create_request "f1"
      "f1" 0 0 (("key-0001", abandoned) ∷ []) abandoned refl refl
      (refl, inr (refl, (500, refl, omega arith))) reclaimed (omega arith)

outcome_to_domain_error-domain_error_to_outcome_example :
    outcome_to_domain_error (domain_error_to_outcome storage_unavailable) ≡ storage_unavailable
outcome_to_domain_error-domain_error_to_outcome_example =
    outcome_to_domain_error-domain_error_to_outcome storage_unavailable
