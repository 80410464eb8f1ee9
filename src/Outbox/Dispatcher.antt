-- ===== src/Outbox/Dispatcher.antt =====
-- runOnce of apps/worker/src/outbox/outbox-dispatcher.service.ts. The publications of one batch run
-- at the same time; each writes its own row, and they are taken here one after another.
pub mod Each
pub mod Claimed
pub mod Passed
use posts_media.Common.{
  ℕ, zero, suc, String, Bool, true, false, Option, none, some, List, [], ◌∷◌, length, take, drop,
  string_eq, if◌then◌else◌,
}
use posts_media.Database.Table.{Table}
use posts_media.Schema.{ProcessingDispatch}
use posts_media.Outbox.Statements.{claimable, claimed, claim_batch, cleanup}
use posts_media.Outbox.Publication.{JobQueues, ClaimedDispatch, Weather, publish}

-- the settings of EnvironmentConfiguration['outbox'] that a pass reads
pub record Settings : Type 0 where
  pub lease_seconds : ℕ
  pub publish_concurrency : ℕ
  pub max_retry_delay_seconds : ℕ
  pub published_retention_days : ℕ

-- what a pass meets: the ids that the query selects, its fresh token, its times, and the
-- surroundings of each publication
pub record Pass : Type 0 where
  pub selected : List String
  pub lease_token : String
  pub claimed_at : ℕ
  pub cleaned_at : ℕ
  pub weather : ClaimedDispatch → Weather

module _ (T : Table String ProcessingDispatch) (Q : JobQueues) (settings : Settings)
    (pass : Pass) where
  pub record Dispatcher : Type 0 where
    pub running : Bool
    pub dispatches : T.State
    pub queues : Q.State

  abbrev pub returned_if :
      String → Option ProcessingDispatch → List ClaimedDispatch → List ClaimedDispatch
  returned_if id none rest = rest
  returned_if id (some row) rest =
      if claimable pass.claimed_at row
      then record {
        id = id;
        row = claimed settings.lease_seconds pass.lease_token pass.claimed_at row;
        lease_token = pass.lease_token;
      }
        ∷ rest
      else rest

  -- the rows that claimBatch returns
  unfoldable pub claimed_rows : List String → T.State → List ClaimedDispatch
  claimed_rows [] s = []
  claimed_rows (id ∷ ids) s = returned_if id (T.find id s) (claimed_rows ids s)

  unfoldable pub publish_each : List ClaimedDispatch → T.State × Q.State → T.State × Q.State
  publish_each [] x = x
  publish_each (d ∷ ds) x =
      publish_each ds (publish T Q settings.max_retry_delay_seconds d (pass.weather d) x.0 x.1)

  -- the loop over the batches; the fuel bounds its rounds
  unfoldable pub publish_batches :
      (fuel : ℕ) → List ClaimedDispatch → T.State × Q.State → T.State × Q.State
  publish_batches zero ds x = x
  publish_batches (suc fuel) [] x = x
  publish_batches (suc fuel) (d ∷ ds) x =
      publish_batches fuel (drop settings.publish_concurrency (d ∷ ds))
        (publish_each (take settings.publish_concurrency (d ∷ ds)) x)

  abbrev pub leased : T.State → T.State
  leased = claim_batch T pass.selected settings.lease_seconds pass.lease_token pass.claimed_at

  unfoldable pub run_once : Dispatcher → Dispatcher
  run_once d =
      let rows = claimed_rows pass.selected d.dispatches in
      let (s, q) = publish_batches (length rows) rows (leased d.dispatches, d.queues) in
      if d.running then d else record {
        running = false;
        dispatches = (cleanup T settings.published_retention_days pass.cleaned_at s).0;
        queues = q;
      }
