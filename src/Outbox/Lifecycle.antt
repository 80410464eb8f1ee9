-- ===== src/Outbox/Lifecycle.antt =====
-- The life of one dispatch: the statements of apps/worker/src/outbox/outbox-claim.repository.ts that
-- write it, in any order and with any arguments.
use posts_media.Common.{
  ℕ, ◌<◌, String, Text, ◌≡◌, ◌≢◌, refl, ap, ◌∙◌, Bool, true, false, some, List, [], ◌∷◌, All,
  is_some, if◌then◌else◌, arith, eq_iff,
}
use posts_media.Queues.Payload.{MediaJobPayload}
use posts_media.Schema.{ProcessingDispatch, DispatchStatus}
use posts_media.Media.{dispatch_of}
use posts_media.Outbox.Statements.{
  claimable, claimed, held_where, published_data, retry_wait_data, dead_data, is_publishing,
  is_published,
}

pub data Event : Type 0 where
  claim : (lease_seconds : ℕ) (lease_token : String) (now : ℕ) → Event
  mark_published : (lease_token : String) (now : ℕ) → Event
  mark_retry_wait :
      (lease_token : String) (next_attempt_at : ℕ) (error_code error_message : Text) → Event
  mark_dead : (lease_token : String) (error_code error_message : Text) → Event

abbrev pub applies : Event → ProcessingDispatch → Bool
applies (claim l t now) d = claimable now d
applies (mark_published t now) d = held_where t d
applies (mark_retry_wait t at c m) d = held_where t d
applies (mark_dead t c m) d = held_where t d

abbrev pub written : Event → ProcessingDispatch → ProcessingDispatch
written (claim l t now) d = claimed l t now d
written (mark_published t now) d = published_data now d
written (mark_retry_wait t at c m) d = retry_wait_data at c m d
written (mark_dead t c m) d = dead_data c m d

unfoldable pub step : ProcessingDispatch → Event → ProcessingDispatch
step d e = if applies e d then written e d else d

unfoldable pub run : ProcessingDispatch → List Event → ProcessingDispatch
run d [] = d
run d (e ∷ es) = run (step d e) es

pub record IsConsistent (d : ProcessingDispatch) : Type 0 where
  -- a lease is a token with an end, and is held exactly while the row is PUBLISHING
  pub leased : is_publishing d.status ≡ is_some d.lease_token
  pub lease_ends : is_some d.lease_expires_at ≡ is_some d.lease_token
  pub published : is_published d.status ≡ is_some d.published_at
  -- a row that waits has a time to wait for, and a reason
  pub waits : d.status ≡ DispatchStatus.retry_wait → is_some d.next_attempt_at ≡ true
  pub failed : d.status ≡ DispatchStatus.retry_wait → is_some d.last_error_code ≡ true
  pub dead_reason : d.status ≡ DispatchStatus.dead → is_some d.last_error_code ≡ true
  pub attempted : d.status ≡ DispatchStatus.dead → 0 < d.publish_attempts

step-IsConsistent : (d : ProcessingDispatch) (e : Event) → IsConsistent d → IsConsistent (step d e)
unfolding step
step-IsConsistent d e h = ground arith

-- the statements keep a consistent dispatch consistent
dispatch_run-IsConsistent :
    (d : ProcessingDispatch) (es : List Event) → IsConsistent d → IsConsistent (run d es)
unfolding run
dispatch_run-IsConsistent d [] h = h
dispatch_run-IsConsistent d (e ∷ es) h =
    dispatch_run-IsConsistent (step d e) es (step-IsConsistent d e h)

dispatch_of-IsConsistent : (p : MediaJobPayload) (now : ℕ) → IsConsistent (dispatch_of p now)
dispatch_of-IsConsistent p now = ground arith

-- A dispatch that was created, for a new item or for a retry, after any statements on it, in any
-- order: it has a lease exactly while it is PUBLISHING, the lease's end exactly with the lease, a
-- date of publication exactly if it is PUBLISHED, a time and a reason while it waits for a retry,
-- and a reason and at least one attempt if it is DEAD.
pub dispatch_life-IsConsistent :
    (p : MediaJobPayload) (now : ℕ) (es : List Event) → IsConsistent (run (dispatch_of p now) es)
dispatch_life-IsConsistent p now es =
    dispatch_run-IsConsistent (dispatch_of p now) es (dispatch_of-IsConsistent p now)

-- PUBLISHED and DEAD
abbrev pub is_settled : DispatchStatus → Bool
is_settled DispatchStatus.published = true
is_settled DispatchStatus.dead = true
is_settled _ = false

step-settled : (d : ProcessingDispatch) (e : Event) → is_settled d.status ≡ true → step d e ≡ d
unfolding step
step-settled d e h = ground arith

-- A dispatch that is PUBLISHED or DEAD is changed by no claim and by no mark.
pub settled_final :
    (d : ProcessingDispatch) (es : List Event) → is_settled d.status ≡ true → run d es ≡ d
unfolding run
settled_final d [] h = refl
settled_final d (e ∷ es) h = ap (λ x. run x es) (step-settled d e h) ∙ settled_final d es h

-- An event of a dispatcher without the lease `t`, which ends at `until`.
abbrev pub IsForeign : String → ℕ → Event → Type 0
IsForeign t until (claim l u now) = now < until
IsForeign t until (mark_published u now) = u ≢ t
IsForeign t until (mark_retry_wait u at c m) = u ≢ t
IsForeign t until (mark_dead u c m) = u ≢ t

step-foreign :
    (d : ProcessingDispatch) (t : String) (until : ℕ) (e : Event)
    → IsConsistent d
    → d.lease_token ≡ some t
    → d.lease_expires_at ≡ some until
    → IsForeign t until e
    → step d e ≡ d
unfolding step
step-foreign d t until (claim l u now) h k x f = ground arith
step-foreign d t until (mark_published u now) h k x f = ground (arith, eq_iff t u)
step-foreign d t until (mark_retry_wait u at c m) h k x f = ground (arith, eq_iff t u)
step-foreign d t until (mark_dead u c m) h k x f = ground (arith, eq_iff t u)

-- While the lease on a consistent dispatch lasts, no claim and no mark of another dispatcher
-- changes it.
pub lease_excludes :
    (d : ProcessingDispatch) (t : String) (until : ℕ) (es : List Event)
    → IsConsistent d
    → d.lease_token ≡ some t
    → d.lease_expires_at ≡ some until
    → All (IsForeign t until) es
    → run d es ≡ d
unfolding run
lease_excludes d t until [] h k x f = refl
lease_excludes d t until (e ∷ es) h k x f =
    ap (λ y. run y es) (step-foreign d t until e h k x f.0) ∙ lease_excludes d t until es h k x f.1
