-- ===== src/Outbox/Dispatcher/Passed.antt =====
-- What a pass of the dispatcher leaves of the rows that it claimed.
use mathlib.Core.Path.{subst}
use posts_media.Common.{
  ◌-◌, ◌*◌, ℕ, ◌<◌, String, ◌≡◌, refl, sym, Bool, false, Option, none, some, List, [], ◌∷◌, length,
  All, string_eq, arith, Bool-cases, inl, inr,
}
use posts_media.Database.Table.{Table, drop_hit}
use posts_media.Schema.{ProcessingDispatch}
use posts_media.Outbox.Statements.{cleanup, delete_published_before, published_before}
use posts_media.Outbox.Publication.{JobQueues, ClaimedDispatch}
use posts_media.Outbox.Dispatcher.Each.{IsLeft, publish_batches-each, each-IsLeft}
use posts_media.Outbox.Dispatcher.Claimed.{
  rows_of, leased_state, DistinctTexts, rows-Holds, rows-Distinct, chosen_self,
}
use posts_media.Outbox.Dispatcher.{Settings, Pass, Dispatcher, publish_batches, run_once}

module _ (T : Table String ProcessingDispatch) (Q : JobQueues) (settings : Settings)
    (pass : Pass) where
  dropped :
      (p : ProcessingDispatch → Bool) (d : ClaimedDispatch) (found : Option ProcessingDispatch)
      → IsLeft T Q settings pass d found
      → IsLeft T Q settings pass d (drop_hit p found)
  dropped p d none h = tt
  dropped p d (some r) h = elim (Bool-cases (p r)) [ inl old ↦ rw old tt | inr kept ↦ rw kept h ]

  -- a clean-up removes rows, and changes none
  cleanup-IsLeft :
      (now : ℕ) (s : T.State) (ds : List ClaimedDispatch)
      → All (λ d. IsLeft T Q settings pass d (T.find d.id s)) ds
      → All
          (λ d.
            IsLeft T Q settings pass d
              (T.find d.id (cleanup T settings.published_retention_days now s).0))
          ds
  unfolding cleanup delete_published_before
  cleanup-IsLeft now s [] left = tt
  cleanup-IsLeft now s (d ∷ ds) (h, left) =
      let before = now - settings.published_retention_days * 24 * 60 * 60 * 1000 in
      (
        subst (IsLeft T Q settings pass d)
            (sym (T.find-delete_many (λ id r. published_before before r) s d.id))
            (dropped (published_before before) d (T.find d.id s) h),
        cleanup-IsLeft now s ds left,
      )

  pub run_once-IsLeft :
      (d : Dispatcher T Q settings pass)
      → d.running ≡ false
      → 0 < settings.publish_concurrency
      → DistinctTexts T Q settings pass pass.selected
      → ((run_once T Q settings pass d).running ≡ false)
        × All
            (λ r.
              IsLeft T Q settings pass r (T.find r.id (run_once T Q settings pass d).dispatches))
            (rows_of T Q settings pass pass.selected d.dispatches)
  unfolding run_once
  run_once-IsLeft d idle some_at_once distinct =
      let rows = rows_of T Q settings pass pass.selected d.dispatches in
      let x : T.State × Q.State = (leased_state T Q settings pass d.dispatches, d.queues) in
      let all =
        each-IsLeft T Q settings pass rows x
          (rows-Distinct T Q settings pass pass.selected d.dispatches distinct)
          (rows-Holds T Q settings pass pass.selected d.dispatches
            (chosen_self T Q settings pass pass.selected)) in
      let same =
        publish_batches-each T Q settings pass (length rows) rows x some_at_once (omega arith) in
      rw idle (
        refl,
        cleanup-IsLeft pass.cleaned_at (publish_batches T Q settings pass (length rows) rows x).0
            rows
            (subst (λ y. All (λ r. IsLeft T Q settings pass r (T.find r.id y.0)) rows) (sym same)
              all),
      )
