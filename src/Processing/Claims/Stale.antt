-- ===== src/Processing/Claims/Stale.antt =====
-- One lease at a time on a media row, and what is left to a worker that has lost it.
use mathlib.Core.Path.{subst}
use mathlib.Core.Option.{some-injective}
use posts_media.Common.{
  ℕ, ◌+◌, ◌*◌, ◌<◌, String, Text, ◌≡◌, ◌≢◌, sym, ◌∙◌, Bool, false, none, some, string_eq, arith,
  eq_iff,
}
use posts_media.Domain.Result.{returned}
use posts_media.Schema.{Media, Tables, Db, SameRows}
use posts_media.Processing.Row.{claim_where, claim_data, renew_where, lease_where}
use posts_media.Processing.Claims.{claim, renew, complete, fail}
use posts_media.Processing.Claims.Answers.{
  Misses, claim-granted, claim-refused, renew-refused, complete-refused, fail-refused,
}

module _ (X : Tables) (id : String) (g : ℕ) (job_id : String) (lease_seconds : ℕ) (token : String)
    (now : ℕ) (db : Db X) where
  abbrev granted : Db X
  granted = (claim X id g job_id lease_seconds token now db).0

  -- a clause that the row of a fresh claim does not meet
  granted-Misses :
      (p : Media → Bool) (m : Media)
      → (claim X id g job_id lease_seconds token now db).1 ≡ returned (some m)
      → ((r : Media) → p (claim_data job_id lease_seconds token now r) ≡ false)
      → (h : ℕ) → Misses X id h granted p
  granted-Misses p m c never h n f =
      let (r, (was, (guarded, (same, written)))) =
        claim-granted X id g db job_id lease_seconds token now m c in
      subst (λ x. p x ≡ false) (some-injective _ _ (sym written ∙ f)) (never r)

  -- After a claim that was granted, every other claim of the row before its lease ends returns null
  -- and changes nothing.
  pub claim_excludes :
      (m : Media) (g' : ℕ) (job' token' : String) (lease' later : ℕ)
      → (claim X id g job_id lease_seconds token now db).1 ≡ returned (some m)
      → later < now + lease_seconds * 1000
      → ((claim X id g' job' lease' token' later granted).1 ≡ returned none)
        × SameRows X (claim X id g' job' lease' token' later granted).0 granted
  claim_excludes m g' job' token' lease' later c early =
      claim-refused X id g' granted job' lease' token' later
        (granted-Misses (claim_where g' later) m c (λ r. ground arith) g')

  -- After a claim that was granted, a worker with another lease token, such as one that held the
  -- row before, renews, completes and fails in vain: each call returns false and changes neither
  -- the row nor the attempts.
  pub claim_shuts_out :
      (m : Media) (g' : ℕ) (stale attempt_id : String) (lease' later : ℕ) (final : Bool)
      (code message : Text)
      → (claim X id g job_id lease_seconds token now db).1 ≡ returned (some m)
      → stale ≢ token
      → let r = renew X id g' stale lease' later granted in
        let c = complete X id g' stale attempt_id later granted in
        let f = fail X id g' stale attempt_id final code message later granted in
        ((r.1 ≡ false) × SameRows X r.0 granted)
        × ((c.1 ≡ false) × SameRows X c.0 granted)
        × ((f.1 ≡ false) × SameRows X f.0 granted)
  claim_shuts_out m g' stale attempt_id lease' later final code message c other =
      let shut =
        granted-Misses (lease_where g' stale) m c (λ r. ground (arith, eq_iff token stale)) g' in
      (
        renew-refused X id g' granted stale lease' later (
            granted-Misses (renew_where g' stale) m c (λ r. ground (arith, eq_iff token stale)) g'),
        complete-refused X id g' granted stale attempt_id later shut,
        fail-refused X id g' granted stale attempt_id final code message later shut,
      )
