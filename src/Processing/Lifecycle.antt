-- ===== src/Processing/Lifecycle.antt =====
-- The life of one media row: every statement of Processing/Row as an event, in any order and with
-- any arguments, as workers and clients may issue them.
pub mod Invariant
pub mod Fencing
use posts_media.Common.{
  ℕ, String, Text, Bool, true, false, Option, List, [], ◌∷◌, ◌&&◌, if◌then◌else◌,
}
use posts_media.Domain.Json.{Json}
use posts_media.Schema.{Media}
use posts_media.Processing.Row.{
  claim_where, claim_data, renew_where, renew_data, lease_where, complete_data, publish_data,
  fail_data, retry_where, retry_data,
}
use posts_media.Common.{◌+◌}

pub data Event : Type 0 where
  claim :
      (generation : ℕ) (job_id : String) (lease_seconds : ℕ) (lease_token : String) (now : ℕ)
      → Event
  renew : (generation : ℕ) (lease_token : String) (lease_seconds now : ℕ) → Event
  complete : (generation : ℕ) (lease_token : String) (now : ℕ) → Event
  publish : (generation : ℕ) (lease_token : String) (metadata : Option Json) (now : ℕ) → Event
  fail : (generation : ℕ) (lease_token : String) (final : Bool) (error_code message : Text) → Event
  retry : (generation : ℕ) → Event

-- the condition of the event's `where`
abbrev pub applies : Event → Media → Bool
applies (claim g j l t now) m = claim_where g now m
applies (renew g t l now) m = renew_where g t m
applies (complete g t now) m = lease_where g t m
applies (publish g t d now) m = lease_where g t m
applies (fail g t final c e) m = lease_where g t m
applies (retry g) m = retry_where g m

abbrev pub written : Event → Media → Media
written (claim g j l t now) m = claim_data j l t now m
written (renew g t l now) m = renew_data l now m
written (complete g t now) m = complete_data now m
written (publish g t d now) m = publish_data d now m
written (fail g t final c e) m = fail_data final c e m
written (retry g) m = retry_data (g + 1) m

unfoldable pub step : Media → Event → Media
step m e = if applies e m then written e m else m

unfoldable pub run : Media → List Event → Media
run m [] = m
run m (e ∷ es) = run (step m e) es
