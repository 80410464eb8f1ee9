-- ===== src/Idempotency/Rejection.antt =====
-- libs/database/src/idempotency/idempotent-domain-error.ts
use posts_media.Common.{String, ◌≡◌, Option, none, some, or_else, arith}
use posts_media.Domain.Errors.{
  DomainError, ErrorCode, code_text, code_of_text, code_of_text-code_text,
}
use posts_media.Domain.Json.{Json, Fields, str, obj, end, field, get}
use posts_media.Idempotency.{Outcome}

abbrev details_field : Option Json → Fields
details_field none = end
details_field (some d) = field "details" d end

unfoldable pub domain_error_to_outcome : DomainError → Outcome
domain_error_to_outcome e = record {
  response_status = e.http_status;
  response_body = obj (
      field "code" (str (code_text e.code))
        (field "message" (str e.message) (details_field e.details)));
  target_resource_id = none;
  resource_ids = none;
}

-- `typeof value === 'string'`
abbrev text_of : Option Json → Option String
text_of (some (str t)) = some t
text_of _ = none

abbrev code_of : Option String → ErrorCode
code_of none = ErrorCode.internal_error
code_of (some t) = or_else (code_of_text t) ErrorCode.internal_error

unfoldable pub outcome_to_domain_error : Outcome → DomainError
outcome_to_domain_error o = record {
  code = code_of (text_of (get "code" o.response_body));
  message = or_else (text_of (get "message" o.response_body)) "The original request failed.";
  http_status = o.response_status;
  details = get "details" o.response_body;
}

-- A rejection that was stored for replay is thrown again with its code, message, status and
-- details.
pub outcome_to_domain_error-domain_error_to_outcome :
    (e : DomainError) → outcome_to_domain_error (domain_error_to_outcome e) ≡ e
unfolding outcome_to_domain_error domain_error_to_outcome
outcome_to_domain_error-domain_error_to_outcome e = ground (arith, code_of_text-code_text e.code)
