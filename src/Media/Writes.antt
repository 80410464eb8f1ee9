-- ===== src/Media/Writes.antt =====
-- What creating an item and retrying it leave in the tables.
use mathlib.Core.Option.{some-injective}
use posts_media.Common.{
  ℕ, ◌+◌, String, ◌≡◌, refl, sym, ap, ◌∙◌, true, Option, none, some, nat_eq, string_eq, eq_iff,
  arith, beq_refl, Option-cases, Bool-cases, inl, inr,
}
use posts_media.Domain.Enums.{MediaType, ProcessingStatus}
use posts_media.Domain.Result.{returned}
use posts_media.Database.Table.{where_key, count_is_one, count-one}
use posts_media.Queues.{queue_name_for, job_name_for, media_job_id}
use posts_media.Queues.Payload.{MediaJobPayload, media_type_text, reason_text}
use posts_media.Schema.{Media, ProcessingDispatch, Tables, Db}
use posts_media.Processing.Row.{retry_where, retry_data}
use posts_media.Processing.Lifecycle.Invariant.{IsConsistent}
use posts_media.Outbox.Payload.{queue_of, payload_for, payload_agrees, media_type_of}
use posts_media.Media.{
  CreateMediaWithDispatchInput, created_media, dispatch_of, initial_payload, retry_payload,
  committed, refused, insert_media, insert_dispatch, create_with_dispatch, retry_claimed, retry_tx,
  media_not_found,
}

media_type_of-text : (t : MediaType) → media_type_of (media_type_text t) ≡ some t
unfolding media_type_of
media_type_of-text MediaType.image = refl
media_type_of-text MediaType.audio = refl
media_type_of-text MediaType.video = refl

payload_agrees-dispatch_of :
    (p : MediaJobPayload) (now : ℕ)
    → p.processing_profile ≡ "balanced-v1"
    → payload_agrees p.dispatch_id (dispatch_of p now) ≡ true
unfolding payload_agrees
payload_agrees-dispatch_of p now h = ground (
  arith,
  beq_refl p.dispatch_id,
  beq_refl p.media_id,
  beq_refl (reason_text p.reason),
  eq_iff p.processing_profile "balanced-v1",
)

payload_for-dispatch_of :
    (p : MediaJobPayload) (now : ℕ)
    → p.processing_profile ≡ "balanced-v1"
    → payload_for p.dispatch_id (dispatch_of p now) ≡ returned p.media_type
unfolding payload_for
payload_for-dispatch_of p now h =
    rw (media_type_of-text p.media_type, payload_agrees-dispatch_of p now h, payload_for) refl

pub queue_of-dispatch_of :
    (p : MediaJobPayload) (now : ℕ)
    → p.processing_profile ≡ "balanced-v1"
    → queue_of p.dispatch_id (dispatch_of p now) ≡ returned p.media_type
unfolding queue_of
queue_of-dispatch_of p now h =
    rw
      (
        payload_for-dispatch_of p now h,
        beq_refl (queue_name_for p.media_type),
        beq_refl (job_name_for p.media_type),
        beq_refl (media_job_id p.media_id p.generation),
        queue_of,
      )
      refl

created_media-IsConsistent : (i : CreateMediaWithDispatchInput) → IsConsistent (created_media i)
created_media-IsConsistent i = ground arith

module _ (X : Tables) where
  inserted_media :
      (id : String) (m : Media) (db db' : Db X)
      → insert_media X id m db ≡ some db'
      → (X.media.find id db'.media ≡ some m) × (db'.dispatches ≡ db.dispatches)
  unfolding insert_media
  inserted_media id m db db' h = elim (Option-cases (X.media.create id m db.media)) [
    | inl taken ↦ ground arith
    | inr (s, created) ↦ ground (arith, X.media.find-create id id m db.media s, beq_refl id)
  ]

  pub inserted_dispatch :
      (id : String) (d : ProcessingDispatch) (db db' : Db X)
      → insert_dispatch X id d db ≡ some db'
      → (X.dispatches.find id db'.dispatches ≡ some d) × (db'.media ≡ db.media)
  unfolding insert_dispatch
  inserted_dispatch id d db db' h = elim (Option-cases (X.dispatches.create id d db.dispatches)) [
    | inl taken ↦ ground arith
    | inr (s, created) ↦
        ground (arith, X.dispatches.find-create id id d db.dispatches s, beq_refl id)
  ]

  -- a row of the outbox, for a generation of an item, that the dispatcher accepts for a queue
  abbrev pub IsAccepted : String → String → ℕ → MediaType → Db X → Type 0
  IsAccepted dispatch_id media_id generation t db =
      (d : ProcessingDispatch) × ((X.dispatches.find dispatch_id db.dispatches ≡ some d)
        × ((d.media_id ≡ media_id)
            × ((d.generation ≡ generation) × (queue_of dispatch_id d ≡ returned t))))

  -- A media item that is created is there, consistent, and its dispatch, for its
  -- generation 1, is one that the outbox accepts, for the queue of the item's media type.
  pub created-IsAccepted :
      (input : CreateMediaWithDispatchInput) (now : ℕ) (db db' : Db X) (m : Media)
      → create_with_dispatch X input now db ≡ some (db', m)
      → (X.media.find input.id db'.media ≡ some (created_media input))
        × IsConsistent (created_media input)
        × IsAccepted input.dispatch_id input.id 1 input.media_type db'
  unfolding create_with_dispatch
  created-IsAccepted input now db db' m h =
      elim (Option-cases (insert_media X input.id (created_media input) db)) [
        | inl taken ↦ ground arith
        | inr (db₁, first) ↦
            elim (Option-cases
              (insert_dispatch X input.dispatch_id (dispatch_of (initial_payload input) now) db₁)) [
                | inl taken ↦ ground arith
                | inr (db₂, second) ↦
                    let same : db₂ ≡ db' = ground arith in
                    let (row, _) = inserted_media input.id (created_media input) db db₁ first in
                    let (dispatch, kept) =
                      inserted_dispatch input.dispatch_id (dispatch_of (initial_payload input) now)
                        db₁ db₂ second in
                    (
                      ap (X.media.find input.id) (ap (λ (d : Db X). d.media) (sym same) ∙ kept)
                          ∙ row,
                      created_media-IsConsistent input,
                      (
                        dispatch_of (initial_payload input) now,
                        (
                          ap (λ (d : Db X). X.dispatches.find input.dispatch_id d.dispatches)
                                (sym same)
                              ∙ dispatch,
                          (refl, (refl, queue_of-dispatch_of (initial_payload input) now refl)),
                        ),
                      ),
                    )
              ]
      ]

  retried_row :
      (id dispatch_id : String) (current : Media) (now : ℕ) (db db' : Db X) (u : Option Media)
      → retry_claimed X id dispatch_id current now db ≡ committed db' u
      → (r : Media) × ((X.media.find id db.media ≡ some r)
          × ((retry_where current.processing_generation r ≡ true)
              × ((X.media.find id db'.media
                    ≡ some (retry_data (current.processing_generation + 1) r))
                  × (X.dispatches.find dispatch_id db'.dispatches
                      ≡ some (dispatch_of (retry_payload dispatch_id id current) now)))))
  unfolding retry_claimed
  retried_row id dispatch_id current now db db' u h =
      let media =
        (X.media.update_many (where_key id (retry_where current.processing_generation))
          (retry_data (current.processing_generation + 1)) db.media).0 in
      elim (Bool-cases (
        count_is_one
          (X.media.update_many (where_key id (retry_where current.processing_generation))
            (retry_data (current.processing_generation + 1)) db.media).1)) [
              | inr missed ↦ ground arith
              | inl one ↦
                  elim (Option-cases (
                    insert_dispatch X dispatch_id
                      (dispatch_of (retry_payload dispatch_id id current) now)
                      (record db { media = media }))) [
                        | inl taken ↦ ground arith
                        | inr (db₂, inserted) ↦
                            let same : db₂ ≡ db' = ground arith in
                            let (dispatch, kept) =
                              inserted_dispatch dispatch_id
                                (dispatch_of (retry_payload dispatch_id id current) now)
                                (record db { media = media }) db₂ inserted in
                            let (r, (was, (guarded, written))) =
                              count-one X.media id (retry_where current.processing_generation)
                                (retry_data (current.processing_generation + 1)) db.media one in
                            (
                              r,
                              (
                                was,
                                (
                                  guarded,
                                  (
                                    ap (X.media.find id)
                                          (ap (λ (d : Db X). d.media) (sym same) ∙ kept)
                                        ∙ written,
                                    ap (λ (d : Db X). X.dispatches.find dispatch_id d.dispatches)
                                          (sym same)
                                        ∙ dispatch,
                                  ),
                                ),
                              ),
                            )
                      ]
            ]

  pub retry-absent :
      (id dispatch_id : String) (now : ℕ) (db : Db X)
      → X.media.find id db.media ≡ none
      → retry_tx X id dispatch_id now db ≡ refused media_not_found
  unfolding retry_tx
  retry-absent id dispatch_id now db h = rw (h, retry_tx) refl

  pub retry-claimed :
      (id dispatch_id : String) (now : ℕ) (db db' : Db X) (u : Option Media) (current : Media)
      → X.media.find id db.media ≡ some current
      → retry_tx X id dispatch_id now db ≡ committed db' u
      → (current.processing_status ≡ ProcessingStatus.failed)
        × (retry_claimed X id dispatch_id current now db ≡ committed db' u)
  unfolding retry_tx
  retry-claimed id dispatch_id now db db' u current found h = (ground arith, ground arith)

  -- A manual retry that commits, of an item of the profile balanced-v1: the item had failed, is
  -- PENDING in the next generation, and its new dispatch, for that generation, is one that the outbox
  -- accepts, for the queue of the item's media type.
  pub retried-IsAccepted :
      (id dispatch_id : String) (now : ℕ) (db db' : Db X) (u : Option Media) (current : Media)
      → X.media.find id db.media ≡ some current
      → current.processing_profile ≡ "balanced-v1"
      → retry_tx X id dispatch_id now db ≡ committed db' u
      → (current.processing_status ≡ ProcessingStatus.failed)
        × (X.media.find id db'.media
            ≡ some (retry_data (current.processing_generation + 1) current))
        × IsAccepted dispatch_id id (current.processing_generation + 1) current.media_type db'
  retried-IsAccepted id dispatch_id now db db' u current found profile h =
      let (failed, claim) = retry-claimed id dispatch_id now db db' u current found h in
      let (r, (was, (guarded, (written, dispatch)))) =
        retried_row id dispatch_id current now db db' u claim in
      (
        failed,
        written
            ∙ ap (λ m. some (retry_data (current.processing_generation + 1) m))
                (some-injective _ _ (sym was ∙ found)),
        (
          dispatch_of (retry_payload dispatch_id id current) now,
          (
            dispatch,
            (refl, (refl, queue_of-dispatch_of (retry_payload dispatch_id id current) now profile)),
          ),
        ),
      )
