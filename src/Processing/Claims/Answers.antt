-- ===== src/Processing/Claims/Answers.antt =====
-- What the answers of WorkerClaimService say of the tables.
use posts_media.Common.{
  ℕ, String, Text, ◌≡◌, refl, Bool, true, false, none, some, string_eq, arith, Bool-cases,
  Option-cases, inl, inr, beq_refl,
}
use posts_media.Domain.Result.{returned}
use posts_media.Database.Table.{
  where_key, count_is_one, count-one, count-not_one, count-missed, find-update_key,
}
use posts_media.Schema.{Media, Tables, Db, SameRows}
use posts_media.Processing.Message.{safe_processing_error_message}
use posts_media.Processing.Row.{
  claim_where, claim_data, renew_where, renew_data, lease_where, complete_data, fail_data,
}
use posts_media.Processing.Claims.{claim, renew, complete, fail}

module _ (X : Tables) (id : String) (g : ℕ) (db : Db X) where
  abbrev pub Misses : (Media → Bool) → Type 0
  Misses p = (m : Media) → X.media.find id db.media ≡ some m → p m ≡ false

  pub claim-granted :
      (job_id : String) (lease_seconds : ℕ) (token : String) (now : ℕ) (m : Media)
      → (claim X id g job_id lease_seconds token now db).1 ≡ returned (some m)
      → (r : Media) × ((X.media.find id db.media ≡ some r)
          × ((claim_where g now r ≡ true)
              × ((m ≡ claim_data job_id lease_seconds token now r)
                  × (X.media.find id (claim X id g job_id lease_seconds token now db).0.media
                      ≡ some (claim_data job_id lease_seconds token now r)))))
  unfolding claim
  claim-granted job_id lease_seconds token now m h =
      elim (Bool-cases (
        count_is_one
          (X.media.update_many (where_key id (claim_where g now))
            (claim_data job_id lease_seconds token now) db.media).1)) [
              | inl one ↦
                  let (r, (was, (guarded, written))) =
                    count-one X.media id (claim_where g now)
                      (claim_data job_id lease_seconds token now) db.media one in
                  (r, (was, (guarded, (ground arith, written))))
              | inr missed ↦ ground arith
            ]

  -- a claim that answers null has changed no row
  pub claim-null :
      (job_id : String) (lease_seconds : ℕ) (token : String) (now : ℕ)
      → (claim X id g job_id lease_seconds token now db).1 ≡ returned none
      → SameRows X (claim X id g job_id lease_seconds token now db).0 db
  unfolding claim
  claim-null job_id lease_seconds token now h =
      let written =
        X.media.update_many (where_key id (claim_where g now))
          (claim_data job_id lease_seconds token now) db.media in
      elim (Bool-cases (count_is_one written.1)) [
        | inl one ↦ elim (Option-cases (X.media.find id written.0)) [
          | inl gone ↦ ground arith
          | inr (m, there) ↦ ground arith
        ]
        | inr missed ↦ record {
          media = λ k.
              count-not_one X.media id k (claim_where g now)
                (claim_data job_id lease_seconds token now) db.media missed;
          variants = refl;
          attempts = refl;
          dispatches = refl;
        }
      ]

  pub claim-refused :
      (job_id : String) (lease_seconds : ℕ) (token : String) (now : ℕ)
      → Misses (claim_where g now)
      → ((claim X id g job_id lease_seconds token now db).1 ≡ returned none)
        × SameRows X (claim X id g job_id lease_seconds token now db).0 db
  unfolding claim
  claim-refused job_id lease_seconds token now h =
      let missed =
        count-missed X.media id (claim_where g now) (claim_data job_id lease_seconds token now)
          db.media h in
      (
        rw missed refl,
        record {
          media = λ k.
              count-not_one X.media id k (claim_where g now)
                (claim_data job_id lease_seconds token now) db.media missed;
          variants = refl;
          attempts = refl;
          dispatches = refl;
        },
      )

  pub renew-refused :
      (token : String) (lease_seconds now : ℕ)
      → Misses (renew_where g token)
      → ((renew X id g token lease_seconds now db).1 ≡ false)
        × SameRows X (renew X id g token lease_seconds now db).0 db
  unfolding renew
  renew-refused token lease_seconds now h =
      let missed =
        count-missed X.media id (renew_where g token) (renew_data lease_seconds now) db.media h in
      (
        missed,
        record {
          media = λ k.
              count-not_one X.media id k (renew_where g token) (renew_data lease_seconds now)
                db.media missed;
          variants = refl;
          attempts = refl;
          dispatches = refl;
        },
      )

  pub complete-refused :
      (token attempt_id : String) (now : ℕ)
      → Misses (lease_where g token)
      → ((complete X id g token attempt_id now db).1 ≡ false)
        × SameRows X (complete X id g token attempt_id now db).0 db
  unfolding complete
  complete-refused token attempt_id now h =
      let missed = count-missed X.media id (lease_where g token) (complete_data now) db.media h in
      rw missed (
        refl,
        record {
          media = λ k.
              count-not_one X.media id k (lease_where g token) (complete_data now) db.media missed;
          variants = refl;
          attempts = refl;
          dispatches = refl;
        },
      )

  pub fail-refused :
      (token attempt_id : String) (final : Bool) (code message : Text) (now : ℕ)
      → Misses (lease_where g token)
      → ((fail X id g token attempt_id final code message now db).1 ≡ false)
        × SameRows X (fail X id g token attempt_id final code message now db).0 db
  unfolding fail
  fail-refused token attempt_id final code message now h =
      let safe = safe_processing_error_message message in
      let missed =
        count-missed X.media id (lease_where g token) (fail_data final code safe) db.media h in
      rw missed (
        refl,
        record {
          media = λ k.
              count-not_one X.media id k (lease_where g token) (fail_data final code safe) db.media
                missed;
          variants = refl;
          attempts = refl;
          dispatches = refl;
        },
      )

  pub fail-done :
      (token attempt_id : String) (final : Bool) (code message : Text) (now : ℕ) (m : Media)
      → X.media.find id db.media ≡ some m
      → lease_where g token m ≡ true
      → X.media.find id (fail X id g token attempt_id final code message now db).0.media
        ≡ some (fail_data final code (safe_processing_error_message message) m)
  unfolding fail
  fail-done token attempt_id final code message now m f h = ground (
    arith,
    find-update_key X.media id id (lease_where g token)
        (fail_data final code (safe_processing_error_message message)) db.media,
    beq_refl id,
  )

  pub complete-done :
      (token attempt_id : String) (now : ℕ) (m : Media)
      → X.media.find id db.media ≡ some m
      → lease_where g token m ≡ true
      → X.media.find id (complete X id g token attempt_id now db).0.media
        ≡ some (complete_data now m)
  unfolding complete
  complete-done token attempt_id now m f h = ground (
    arith,
    find-update_key X.media id id (lease_where g token) (complete_data now) db.media,
    beq_refl id,
  )
