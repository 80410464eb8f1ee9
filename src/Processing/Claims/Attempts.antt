-- ===== src/Processing/Claims/Attempts.antt =====
-- createAttempt of apps/worker/src/processing/worker-claim.service.ts
use posts_media.Common.{
  String, ◌≡◌, refl, sym, ap, ◌∙◌, Option, some, arith, beq_refl, Option-cases, inl, inr,
}
use posts_media.Schema.{ProcessingAttempt, Tables, Db}
use posts_media.Schema.Keys.{AttemptKey, attempt_key_eq}
use posts_media.Processing.Claims.{create_attempt, fresh_attempt}

module _ (X : Tables) (key : AttemptKey) where
  found_attempt :
      (id job_id profile : String) (worker : Option String) (db : Db X) (a : ProcessingAttempt)
      → X.attempts.find key db.attempts ≡ some a
      → create_attempt X id key job_id profile worker db ≡ (db, a.id)
  unfolding create_attempt
  found_attempt id job_id profile worker db a h = rw (h, create_attempt) refl

  attempt_there :
      (id job_id profile : String) (worker : Option String) (db : Db X)
      → (a : ProcessingAttempt) × ((X.attempts.find key
              (create_attempt X id key job_id profile worker db).0.attempts
            ≡ some a)
          × ((create_attempt X id key job_id profile worker db).1 ≡ a.id))
  unfolding create_attempt
  attempt_there id job_id profile worker db =
      elim (Option-cases (X.attempts.find key db.attempts)) [
        | inr (a, found) ↦ (a, rw (found, create_attempt) (found, refl))
        | inl absent ↦
            let a = fresh_attempt id job_id profile worker in
            let (s, created) = X.attempts.create_free key a db.attempts absent in
            (
              a,
              rw (absent, created, create_attempt)
                  (
                    ground (
                      arith,
                      X.attempts.find-create key key a db.attempts s created,
                      beq_refl key,
                    ),
                    refl,
                  ),
            )
      ]

  -- A job that is delivered again with the same number of attempts made, by whichever worker, gets
  -- the attempt of the first delivery, and the attempts are unchanged.
  pub create_attempt-create_attempt :
      (id id' job_id job_id' profile profile' : String) (worker worker' : Option String) (db : Db X)
      → let (db', a) = create_attempt X id key job_id profile worker db in
        create_attempt X id' key job_id' profile' worker' db' ≡ (db', a)
  create_attempt-create_attempt id id' job_id job_id' profile profile' worker worker' db =
      let (a, (found, same)) = attempt_there id job_id profile worker db in
      found_attempt id' job_id' profile' worker'
        (create_attempt X id key job_id profile worker db).0 a found
      ∙ ap (λ i. ((create_attempt X id key job_id profile worker db).0, i)) (sym same)
