-- ===== src/Processing/Row.antt =====
-- The guards and the writes of every statement that changes the processing columns of a media row:
-- apps/worker/src/processing/worker-claim.service.ts, the transaction of
-- variant-publication.service.ts, and the retry of libs/media/src/application/media.service.ts.
use posts_media.Common.{
  ℕ, ◌+◌, ◌*◌, String, Text, take, Bool, not, ◌&&◌, Option, none, some, text_is, none_or_at_most,
  ◌==◌, nat_eq, if◌then◌else◌,
}
use posts_media.Domain.Enums.{
  ProcessingStatus, ProcessingStep, is_completed, is_processing, is_failed,
}
use posts_media.Domain.Json.{Json}
use posts_media.Schema.{Media}

-- claim
abbrev pub claim_where : ℕ → ℕ → Media → Bool
claim_where generation now m =
    m.processing_generation == generation
    && (not (is_completed m.processing_status) && none_or_at_most now m.processing_lease_expires_at)

abbrev pub claim_data : String → ℕ → String → ℕ → Media → Media
claim_data job_id lease_seconds lease_token now m = record m {
  processing_status = ProcessingStatus.processing;
  current_step = ProcessingStep.claiming;
  processing_lease_token = some lease_token;
  processing_lease_expires_at = some (now + lease_seconds * 1000);
  active_job_id = some job_id;
  processing_started_at = some now;
}

-- renew
abbrev pub renew_where : ℕ → String → Media → Bool
renew_where generation lease_token m =
    m.processing_generation == generation
    && (is_processing m.processing_status && text_is lease_token m.processing_lease_token)

abbrev pub renew_data : ℕ → ℕ → Media → Media
renew_data lease_seconds now m = record m {
  processing_lease_expires_at = some (now + lease_seconds * 1000);
}

-- the guard of complete, fail and publish: the generation and the lease token
abbrev pub lease_where : ℕ → String → Media → Bool
lease_where generation lease_token m =
    m.processing_generation == generation && text_is lease_token m.processing_lease_token

-- complete
abbrev pub complete_data : ℕ → Media → Media
complete_data now m = record m {
  processing_status = ProcessingStatus.completed;
  progress = 100;
  current_step = ProcessingStep.completed;
  processing_completed_at = some now;
  processing_lease_token = none;
  processing_lease_expires_at = none;
  active_job_id = none;
  last_error_code = none;
  last_error_message = none;
}

-- publish writes what complete writes, and the metadata if they are given
abbrev with_metadata : Option Json → Option Json → Option Json
with_metadata none old = old
with_metadata (some j) old = some j

abbrev pub publish_data : Option Json → ℕ → Media → Media
publish_data metadata now m = record (complete_data now m) {
  metadata = with_metadata metadata m.metadata;
}

-- fail
abbrev pub fail_data : Bool → Text → Text → Media → Media
fail_data final error_code safe_message m = record m {
  processing_status = if final then ProcessingStatus.failed else ProcessingStatus.pending;
  progress = if final then 100 else 0;
  current_step = if final then ProcessingStep.failed else ProcessingStep.pending;
  processing_lease_token = none;
  processing_lease_expires_at = none;
  active_job_id = none;
  last_error_code = some (take 64 error_code);
  last_error_message = some safe_message;
}

-- retry, from the generation that was read
abbrev pub retry_where : ℕ → Media → Bool
retry_where generation m = is_failed m.processing_status && m.processing_generation == generation

abbrev pub retry_data : ℕ → Media → Media
retry_data generation m = record m {
  processing_generation = generation;
  processing_status = ProcessingStatus.pending;
  progress = 0;
  current_step = ProcessingStep.pending;
  processing_started_at = none;
  processing_completed_at = none;
  processing_lease_token = none;
  processing_lease_expires_at = none;
  active_job_id = none;
  last_error_code = none;
  last_error_message = none;
}
