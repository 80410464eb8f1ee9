-- ===== src/Examples/Dispatches.antt =====
-- The dispatch of the image, and the queues.
use posts_media.Common.{
  false, All, ◌≢◌, ◌≡◌, refl, true, some, List, [], ◌∷◌, String, codes, arith, string_eq, ◌==◌, any,
  beq_refl, ◌≤◌, ◌*◌, ◌+◌,
}
use posts_media.Database.Table.{Table}
use posts_media.Database.Rows.{rows_table}
use posts_media.Schema.{ProcessingDispatch, DispatchStatus}
use posts_media.Media.{dispatch_of, initial_payload}
use posts_media.Outbox.Backoff.{delay_ms, base_ms, delay_bounds}
use posts_media.Outbox.Lifecycle.{Event, run, IsConsistent, dispatch_life-IsConsistent}
use posts_media.Outbox.Payload.{queue_of, payload_for, payload_agrees, media_type_of}
use posts_media.Outbox.Publication.{JobQueues, ClaimedDispatch, Weather, publish, enqueue}
use posts_media.Outbox.Publication.Delivery.{delivered, Delivered}
use posts_media.Outbox.Dispatcher.{Settings, Pass, Dispatcher, run_once}
use posts_media.Outbox.Dispatcher.Each.{IsLeft}
use posts_media.Outbox.Dispatcher.Claimed.{rows_of}
use posts_media.Outbox.Dispatcher.Passed.{run_once-IsLeft}
use posts_media.Outbox.Statements.{mark_published}
use posts_media.Queues.{media_job_id}
use posts_media.Common.Decimal.{decimal}
use posts_media.Examples.World.{photo_input}

abbrev waiting : ProcessingDispatch
waiting = dispatch_of (initial_payload photo_input) 1000

abbrev leased : ProcessingDispatch
leased = record waiting {
  status = DispatchStatus.publishing;
  lease_token = some "t1";
  lease_expires_at = some 31000;
}

abbrev published : ProcessingDispatch
published = record waiting { status = DispatchStatus.published; published_at = some 2000 }

abbrev events : List Event
events =
    Event.claim 30 "t1" 1000
    ∷ Event.mark_retry_wait "t1" 3000 (codes "REDIS_PUBLISH_FAILED") (codes "down")
    ∷ Event.claim 30 "t2" 4000
    ∷ Event.mark_published "t2" 4100
    ∷ []

dispatch_life-IsConsistent_example : IsConsistent (run waiting events)
dispatch_life-IsConsistent_example =
    dispatch_life-IsConsistent (initial_payload photo_input) 1000 events

delay_bounds_example :
    (delay_ms 20 2 1 1 ≤ 2 * 1000)
    × (base_ms 20 ≤ 2 * 1000 → base_ms 20 ≤ delay_ms 20 2 1 1)
    × (2 * 1000 ≤ base_ms 20 → delay_ms 20 2 1 1 ≡ 2 * 1000)
    × (4 * delay_ms 20 2 1 1 ≤ 5 * base_ms 20 + 3)
delay_bounds_example = delay_bounds 20 2 1 1 (omega arith)

first_job : (job_id : String) (q : List String) → any (λ j. j == job_id) (job_id ∷ q) ≡ true
first_job job_id q = ground (arith, beq_refl job_id)

abbrev job_queues : JobQueues
job_queues = record {
  State = List String;
  add = λ t name payload job_id q. (job_id ∷ q, true);
  has = λ t job_id q. any (λ j. j == job_id) q;
  add-has = λ t name payload job_id q h. first_job job_id q;
}

abbrev dispatches : Table String ProcessingDispatch
dispatches = rows_table

abbrev claim : ClaimedDispatch
claim = record { id = "d1"; row = leased; lease_token = "t1" }

abbrev fair : Weather
fair = record { now = 2000; numerator = 0; denominator = 1; message = []; executes = true }

sent :
    dispatches.find "d1" (publish dispatches job_queues 60 claim fair (("d1", leased) ∷ []) []).0
    ≡ some published
unfolding publish enqueue mark_published queue_of payload_for payload_agrees media_type_of
    media_job_id decimal
sent = refl

delivered_example :
    Delivered dispatches job_queues 60 claim fair (("d1", leased) ∷ []) [] leased published
delivered_example =
    delivered dispatches job_queues 60 claim fair (("d1", leased) ∷ []) [] leased published
      (refl, refl) sent

-- a pass over this dispatch and another, one at a time
abbrev settings : Settings
settings = record {
  lease_seconds = 30;
  publish_concurrency = 1;
  max_retry_delay_seconds = 60;
  published_retention_days = 7;
}

abbrev pass : Pass
pass = record {
  selected = "d1" ∷ "d2" ∷ [];
  lease_token = "t1";
  claimed_at = 1000;
  cleaned_at = 5000;
  weather = λ d. fair;
}

abbrev idle : Dispatcher dispatches job_queues settings pass
idle = record {
  running = false;
  dispatches = ("d1", waiting) ∷ ("d2", record waiting { job_id = "other" }) ∷ [];
  queues = [];
}

differ : (a b : String) → (a == b) ≡ false → a ≢ b
differ a b h same = let equal = (string_eq.equals_iff a b).1 same in ground arith

run_once-IsLeft_example :
    ((run_once dispatches job_queues settings pass idle).running ≡ false)
    × All
        (λ r.
          IsLeft dispatches job_queues settings pass r
            (dispatches.find r.id (run_once dispatches job_queues settings pass idle).dispatches))
        (rows_of dispatches job_queues settings pass pass.selected idle.dispatches)
run_once-IsLeft_example =
    run_once-IsLeft dispatches job_queues settings pass idle refl (omega arith)
      ((differ "d1" "d2" refl, tt), (tt, tt))

-- the second case of publication-backoff.service.spec.ts
second_delay_test : delay_ms 2 60 1 1 ≡ 2500
unfolding delay_ms
second_delay_test = refl
