-- ===== src/Outbox/Publication/Delivery.antt =====
-- What publishing a dispatch leaves in its row and in the queues.
use mathlib.Core.Option.{some-injective}
use mathlib.Core.Path.{subst}
use posts_media.Common.{
  sym, ap, ◌∙◌, ℕ, ◌+◌, String, Text, ◌≡◌, ◌↔◌, ◌≢◌, ◌⊎◌, refl, true, some, string_eq, arith,
  beq_refl, inl, inr, Bool-cases,
}
use posts_media.Domain.Enums.{MediaType}
use posts_media.Domain.Result.{returned, thrown, Try-cases}
use posts_media.Database.Table.{Table, find-update_key}
use posts_media.Schema.{ProcessingDispatch, DispatchStatus}
use posts_media.Outbox.Payload.{queue_of, mapping_invalid}
use posts_media.Outbox.Statements.{
  mark_published, mark_retry_wait, mark_dead, held_where, published_data, dead_data,
  retry_wait_data,
}
use posts_media.Outbox.Publication.{
  JobQueues, ClaimedDispatch, Weather, publish, enqueue, wait_for_retry, finalization_failed,
  redis_publish_failed,
}
use posts_media.Outbox.Backoff.{delay_ms}

module _ (T : Table String ProcessingDispatch) (Q : JobQueues) (limit : ℕ) (d : ClaimedDispatch)
    (w : Weather) (s : T.State) (q : Q.State) (row : ProcessingDispatch) where
  abbrev after : T.State
  after = (publish T Q limit d w s q).0

  abbrev pub IsHeld : Type 0
  IsHeld = (T.find d.id s ≡ some row) × (held_where d.lease_token row ≡ true)

  pub publish-thrown :
      (e : Text)
      → queue_of d.id d.row ≡ thrown e
      → publish T Q limit d w s q ≡ ((mark_dead T d.id d.lease_token mapping_invalid e s).0, q)
  unfolding publish
  publish-thrown e k = rw (k, publish) refl

  pub publish-returned :
      (t : MediaType)
      → queue_of d.id d.row ≡ returned t
      → publish T Q limit d w s q ≡ enqueue T Q limit d w t s q
  unfolding publish
  publish-returned t k = rw (k, publish) refl

  marked_dead :
      (e : Text)
      → IsHeld
      → T.find d.id (mark_dead T d.id d.lease_token mapping_invalid e s).0
        ≡ some (dead_data mapping_invalid e row)
  unfolding mark_dead
  marked_dead e (f, h) = ground (
    arith,
    find-update_key T d.id d.id (held_where d.lease_token) (dead_data mapping_invalid e) s,
    beq_refl d.id,
  )

  marked_published :
      IsHeld
      → T.find d.id (mark_published T d.id d.lease_token w.now s).0
        ≡ some (published_data w.now row)
  unfolding mark_published
  marked_published (f, h) = ground (
    arith,
    find-update_key T d.id d.id (held_where d.lease_token) (published_data w.now) s,
    beq_refl d.id,
  )

  waiting_row :
      (code : Text)
      → IsHeld
      → (r : ProcessingDispatch) × ((T.find d.id (wait_for_retry T Q limit d w code s) ≡ some r)
          × (r.status ≡ DispatchStatus.retry_wait))
  unfolding mark_retry_wait
  waiting_row code (f, h) =
      let at = w.now + delay_ms (d.row.publish_attempts + 1) limit w.numerator w.denominator in
      (
        retry_wait_data at code w.message row,
        (
          ground (
            arith,
            find-update_key T d.id d.id (held_where d.lease_token)
                (retry_wait_data at code w.message) s,
            beq_refl d.id,
          ),
          refl,
        ),
      )

  -- the three ends of `enqueue`
  enqueued :
      (t : MediaType)
      → IsHeld
      → (r : ProcessingDispatch) × ((T.find d.id (enqueue T Q limit d w t s q).0 ≡ some r)
          × ((r.status ≡ DispatchStatus.retry_wait)
              ⊎ ((r.status ≡ DispatchStatus.published)
                  × (Q.has t d.row.job_id (enqueue T Q limit d w t s q).1 ≡ true))))
  unfolding enqueue
  enqueued t held = elim (Bool-cases (Q.add t d.row.job_name d.row.payload d.row.job_id q).1) [
    | inl added ↦ elim (Bool-cases w.executes) [
      | inl done ↦
          rw (added, done, enqueue)
            (
              published_data w.now row,
              (
                marked_published held,
                inr (refl, Q.add-has t d.row.job_name d.row.payload d.row.job_id q added),
              ),
            )
      | inr lost ↦
          rw (added, lost, enqueue)
            (let (r, (f, x)) = waiting_row finalization_failed held in (r, (f, inl x)))
    ]
    | inr not_added ↦
        rw (not_added, enqueue)
          (let (r, (f, x)) = waiting_row redis_publish_failed held in (r, (f, inl x)))
  ]

  abbrev pub Delivered : ProcessingDispatch → Type 0
  Delivered r =
      (r.status ≢ DispatchStatus.publishing)
      × ((r.status ≡ DispatchStatus.dead) ↔ ((e : Text) × (queue_of d.id d.row ≡ thrown e)))
      × (r.status ≡ DispatchStatus.published
          → (t : MediaType) × ((queue_of d.id d.row ≡ returned t)
              × (Q.has t d.row.job_id (publish T Q limit d w s q).1 ≡ true)))

  at_row :
      (known r : ProcessingDispatch)
      → T.find d.id after ≡ some r
      → T.find d.id after ≡ some known
      → Delivered known
      → Delivered r
  at_row known r f g = subst Delivered (some-injective _ _ (sym g ∙ f))

  -- After a claimed dispatch was published: its row is no longer PUBLISHING, it is DEAD exactly
  -- when its payload or its mapping is refused, and if it is PUBLISHED its job is in the queue of
  -- the payload's media type.
  pub delivered : (r : ProcessingDispatch) → IsHeld → T.find d.id after ≡ some r → Delivered r
  delivered r held f = elim (Try-cases (queue_of d.id d.row)) [
    | inl (e, k) ↦
        at_row (dead_data mapping_invalid e row) r f
          (ap (λ x. T.find d.id x.0) (publish-thrown e k) ∙ marked_dead e held)
          (ground arith, (λ _. (e, k), λ _. refl), ground arith)
    | inr (t, k) ↦
        let (known, (g, ends)) = enqueued t held in
        let found = ap (λ x. T.find d.id x.0) (publish-returned t k) ∙ g in
        elim ends [
          | inl waits ↦ at_row known r f found (ground arith, ground arith, ground arith)
          | inr (done, there) ↦ at_row known r f found (
            ground arith,
            ground arith,
            λ _. (t, (k, ap (λ x. Q.has t d.row.job_id x.1) (publish-returned t k) ∙ there)),
          )
        ]
  ]
