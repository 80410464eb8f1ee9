-- ===== src/Idempotency.antt =====
-- libs/database/src/idempotency: the record of a request, its outcome, and what a caller is told.
pub mod Key
pub mod Rejection
pub mod Service
pub mod Cleanup
pub mod Fingerprint
use posts_media.Common.{ℕ, String, Bool, true, false, Option}
use posts_media.Domain.Json.{Json}

pub data IdempotencyState : Type 0 where
  in_progress finalized retryable_failure : IdempotencyState

pub data IdempotencyOperation : Type 0 where
  create_post add_post_media retry_media : IdempotencyOperation

-- IdempotencyOperationContext
pub record Context : Type 0 where
  pub key : String
  pub operation : IdempotencyOperation
  pub method : String
  pub route_template : String

-- IdempotentOutcome
pub record Outcome : Type 0 where
  pub response_status : ℕ
  pub response_body : Json
  pub target_resource_id : Option String
  pub resource_ids : Option Json

-- A row of IdempotencyRequest, under its `key`. A SQL null and a JSON null of `resourceIds` are
-- both `none`: both are read back as null.
pub record IdempotencyRequest : Type 0 where
  pub operation : IdempotencyOperation
  pub method : String
  pub route_template : String
  pub request_fingerprint : String
  pub state : IdempotencyState
  pub response_status : Option ℕ
  pub response_body : Option Json
  pub target_resource_id : Option String
  pub resource_ids : Option Json
  pub lease_token : Option String
  pub lease_expires_at : Option ℕ
  pub finalized_at : Option ℕ
  pub expires_at : ℕ

abbrev pub is_finalized : IdempotencyState → Bool
is_finalized finalized = true
is_finalized _ = false

abbrev pub is_retryable : IdempotencyState → Bool
is_retryable retryable_failure = true
is_retryable _ = false

abbrev pub is_in_progress : IdempotencyState → Bool
is_in_progress in_progress = true
is_in_progress _ = false

-- Claim
pub data Claim : Type 0 where
  acquired : Claim
  replay : Outcome → Claim
  conflict : Claim
  in_progress : Claim

-- AcquireResult
pub data AcquireResult : Type 0 where
  acquired : AcquireResult
  replay : Outcome → AcquireResult

-- IdempotentExecution
pub record Execution : Type 0 where
  pub outcome : Outcome
  pub replayed : Bool
