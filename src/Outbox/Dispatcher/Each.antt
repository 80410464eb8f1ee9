-- ===== src/Outbox/Dispatcher/Each.antt =====
-- The publications of a pass, one after another.
use mathlib.Core.Path.{subst}
use posts_media.Common.{
  ℕ, zero, suc, ◌≤◌, ◌<◌, String, Text, ◌≡◌, ◌≢◌, ◌↔◌, refl, sym, ap, ◌∙◌, Bool, true, false,
  Option, none, some, List, [], ◌∷◌, length, take, drop, All, ◌==◌, string_eq, arith, Option-cases,
  Bool-cases, inl, inr,
}
use posts_media.Domain.Enums.{MediaType}
use posts_media.Domain.Result.{thrown, Try-cases}
use posts_media.Database.Table.{Table, find-update_key, where_key}
use posts_media.Schema.{ProcessingDispatch, DispatchStatus}
use posts_media.Outbox.Payload.{queue_of, mapping_invalid}
use posts_media.Outbox.Statements.{
  held_where, published_data, retry_wait_data, dead_data, mark_published, mark_retry_wait,
  mark_dead,
}
use posts_media.Outbox.Publication.{
  JobQueues, ClaimedDispatch, Weather, publish, enqueue, finalization_failed, redis_publish_failed,
}
use posts_media.Outbox.Publication.Delivery.{delivered, publish-thrown, publish-returned}
use posts_media.Outbox.Dispatcher.{Settings, Pass, publish_each, publish_batches}

length-drop-le : {A : Type 0} (n : ℕ) (xs : List A) → length (drop n xs) ≤ length xs
length-drop-le zero xs = omega arith
length-drop-le (suc n) [] = omega arith
length-drop-le (suc n) (x ∷ xs) = omega (arith, length-drop-le n xs)

module _ (T : Table String ProcessingDispatch) (Q : JobQueues) (settings : Settings)
    (pass : Pass) where
  abbrev pub each : List ClaimedDispatch → T.State × Q.State → T.State × Q.State
  each = publish_each T Q settings pass

  each-take-drop :
      (n : ℕ) (ds : List ClaimedDispatch) (x : T.State × Q.State)
      → each (drop n ds) (each (take n ds) x) ≡ each ds x
  unfolding publish_each
  each-take-drop zero ds x = refl
  each-take-drop (suc n) [] x = refl
  each-take-drop (suc n) (d ∷ ds) x =
      each-take-drop n ds (publish T Q settings.max_retry_delay_seconds d (pass.weather d) x.0 x.1)

  -- with a concurrency above 0 there is fuel enough, and every dispatch is published, once
  pub publish_batches-each :
      (fuel : ℕ) (ds : List ClaimedDispatch) (x : T.State × Q.State)
      → 0 < settings.publish_concurrency
      → length ds ≤ fuel
      → publish_batches T Q settings pass fuel ds x ≡ each ds x
  unfolding publish_batches
  publish_batches-each zero [] x some_at_once enough = unfold publish_each in refl
  publish_batches-each zero (d ∷ ds) x some_at_once enough = ground arith
  publish_batches-each (suc fuel) [] x some_at_once enough = unfold publish_each in refl
  publish_batches-each (suc fuel) (d ∷ ds) x some_at_once enough =
      publish_batches-each fuel (drop settings.publish_concurrency (d ∷ ds))
        (each (take settings.publish_concurrency (d ∷ ds)) x) some_at_once
        (drop_one settings.publish_concurrency some_at_once)
      ∙ each-take-drop settings.publish_concurrency (d ∷ ds) x
    where
      drop_one : (n : ℕ) → 0 < n → length (drop n (d ∷ ds)) ≤ fuel
      drop_one zero h = ground arith
      drop_one (suc n) h = omega (arith, length-drop-le n ds, enough)

  update-other :
      (k j : String) (p : ProcessingDispatch → Bool) (f : ProcessingDispatch → ProcessingDispatch)
      (s : T.State)
      → (k == j) ≡ false
      → T.find j (T.update_many (where_key k p) f s).0 ≡ T.find j s
  update-other k j p f s apart = elim (Option-cases (T.find j s)) [
    | inl absent ↦ ground (arith, find-update_key T k j p f s)
    | inr (r, found) ↦ ground (arith, find-update_key T k j p f s)
  ]

  enqueue-other :
      (d : ClaimedDispatch) (w : Weather) (t : MediaType) (s : T.State) (q : Q.State) (k : String)
      → (d.id == k) ≡ false
      → T.find k (enqueue T Q settings.max_retry_delay_seconds d w t s q).0 ≡ T.find k s
  unfolding enqueue mark_published mark_retry_wait
  enqueue-other d w t s q k apart =
      elim (Bool-cases (Q.add t d.row.job_name d.row.payload d.row.job_id q).1) [
        | inl added ↦ elim (Bool-cases w.executes) [
          | inl done ↦
              rw (added, done, enqueue)
                (update-other d.id k (held_where d.lease_token) (published_data w.now) s apart)
          | inr lost ↦
              rw (added, lost, enqueue)
                (update-other d.id k (held_where d.lease_token)
                  (retry_wait_data _ finalization_failed w.message) s apart)
        ]
        | inr refused ↦
            rw (refused, enqueue)
              (update-other d.id k (held_where d.lease_token)
                (retry_wait_data _ redis_publish_failed w.message) s apart)
      ]

  -- a publication leaves the rows of others alone
  publish-other :
      (d : ClaimedDispatch) (w : Weather) (s : T.State) (q : Q.State) (k : String)
      → (d.id == k) ≡ false
      → T.find k (publish T Q settings.max_retry_delay_seconds d w s q).0 ≡ T.find k s
  unfolding mark_dead
  publish-other d w s q k apart = elim (Try-cases (queue_of d.id d.row)) [
    | inl (e, wrong) ↦
        ap (λ x. T.find k x.0)
          (publish-thrown T Q settings.max_retry_delay_seconds d w s q d.row e wrong)
        ∙ update-other d.id k (held_where d.lease_token) (dead_data mapping_invalid e) s apart
    | inr (t, right) ↦
        ap (λ x. T.find k x.0)
          (publish-returned T Q settings.max_retry_delay_seconds d w s q d.row t right)
        ∙ enqueue-other d w t s q k apart
  ]

  apart-false : (a b : String) → a ≢ b → (a == b) ≡ false
  apart-false a b differ = elim (Bool-cases (a == b)) [
    | inl same ↦ absurd (differ ((string_eq.equals_iff a b).0 same))
    | inr differs ↦ differs
  ]

  each-other :
      (k : String) (ds : List ClaimedDispatch) (x : T.State × Q.State)
      → All (λ d. k ≢ d.id) ds
      → T.find k (each ds x).0 ≡ T.find k x.0
  unfolding publish_each
  each-other k [] x apart = refl
  each-other k (d ∷ ds) x (differs, apart) =
      each-other k ds (publish T Q settings.max_retry_delay_seconds d (pass.weather d) x.0 x.1)
        apart
      ∙ publish-other d (pass.weather d) x.0 x.1 k (apart-false d.id k (λ same. differs (sym same)))

  -- a row that is left is not PUBLISHING, and is DEAD exactly if its mapping is refused
  abbrev pub IsLeft : ClaimedDispatch → Option ProcessingDispatch → Type 0
  IsLeft d none = Unit
  IsLeft d (some r) =
      (r.status ≢ DispatchStatus.publishing)
      × ((r.status ≡ DispatchStatus.dead) ↔ ((e : Text) × (queue_of d.id d.row ≡ thrown e)))

  abbrev pub Held : ClaimedDispatch → T.State → Type 0
  Held d s =
      (row : ProcessingDispatch) × ((T.find d.id s ≡ some row)
        × (held_where d.lease_token row ≡ true))

  abbrev pub DistinctIds : List ClaimedDispatch → Type 0
  DistinctIds [] = Unit
  DistinctIds (d ∷ ds) = All (λ e. d.id ≢ e.id) ds × DistinctIds ds

  publish-IsLeft :
      (d : ClaimedDispatch) (s : T.State) (q : Q.State) (found : Option ProcessingDispatch)
      → Held d s
      → T.find d.id (publish T Q settings.max_retry_delay_seconds d (pass.weather d) s q).0 ≡ found
      → IsLeft d found
  publish-IsLeft d s q none held h = tt
  publish-IsLeft d s q (some r) (row, held) h =
      let (left, dead, _) =
        delivered T Q settings.max_retry_delay_seconds d (pass.weather d) s q row r held h in
      (left, dead)

  Held-publish :
      (d e : ClaimedDispatch) (s : T.State) (q : Q.State)
      → d.id ≢ e.id
      → Held e s
      → Held e (publish T Q settings.max_retry_delay_seconds d (pass.weather d) s q).0
  Held-publish d e s q differ (row, (found, held)) = (
    row,
    (publish-other d (pass.weather d) s q e.id (apart-false d.id e.id differ) ∙ found, held),
  )

  All-Held-publish :
      (d : ClaimedDispatch) (ds : List ClaimedDispatch) (s : T.State) (q : Q.State)
      → All (λ e. d.id ≢ e.id) ds
      → All (λ e. Held e s) ds
      → All (λ e. Held e (publish T Q settings.max_retry_delay_seconds d (pass.weather d) s q).0) ds
  All-Held-publish d [] s q differ held = tt
  All-Held-publish d (e ∷ ds) s q (differs, differ) (h, held) =
      (Held-publish d e s q differs h, All-Held-publish d ds s q differ held)

  pub each-IsLeft :
      (ds : List ClaimedDispatch) (x : T.State × Q.State)
      → DistinctIds ds
      → All (λ d. Held d x.0) ds
      → All (λ d. IsLeft d (T.find d.id (each ds x).0)) ds
  unfolding publish_each
  each-IsLeft [] x distinct held = tt
  each-IsLeft (d ∷ ds) x (apart, distinct) (h, held) =
      let y = publish T Q settings.max_retry_delay_seconds d (pass.weather d) x.0 x.1 in
      (
        subst (IsLeft d) (sym (each-other d.id ds y apart))
            (publish-IsLeft d x.0 x.1 (T.find d.id y.0) h refl),
        each-IsLeft ds y distinct (All-Held-publish d ds x.0 x.1 apart held),
      )
