-- ===== src/Idempotency/Service/Replay.antt =====
-- What a second request with the same key gets, after the first has ended.
use mathlib.Core.Path.{subst}
use posts_media.Common.{
  ℕ, suc, String, ◌≡◌, ◌∙◌, refl, true, false, some, string_eq, arith, beq_refl,
}
use posts_media.Domain.Errors.{DomainError}
use posts_media.Domain.Result.{Result, ok, err}
use posts_media.Database.Table.{Table, find-update_key}
use posts_media.Idempotency.{Context, Outcome, IdempotencyRequest, Claim, finalized}
use posts_media.Idempotency.Service.{
  Settings, Env, quiet, acquire, settle, reconcile, finalize_data, failure_data, stored_outcome,
  finalize, mark_retryable_failure, acquire_or_replay, acquire_result, run_claim, after_action,
  execute_idempotent,
}
use posts_media.Idempotency.Service.Rounds.{acquire_found}
use posts_media.Idempotency.Service.Lease.{claim_of}
use posts_media.Idempotency.Service.Exclusive.{state_of, acquired-IsGranted}

module _ (T : Table String IdempotencyRequest) (cfg : Settings) where
  pub find-finalize :
      (key : String) (o : Outcome) (now : ℕ) (s : T.State) (row : IdempotencyRequest)
      → T.find key s ≡ some row
      → T.find key (finalize T cfg key o now s) ≡ some (finalize_data o now row)
  unfolding finalize
  find-finalize key o now s row h =
      ground (arith, beq_refl key, find-update_key T key key (λ _. true) (finalize_data o now) s)

  pub find-mark_retryable_failure :
      (key : String) (s : T.State) (row : IdempotencyRequest)
      → T.find key s ≡ some row
      → T.find key (mark_retryable_failure T cfg key s) ≡ some (failure_data row)
  unfolding mark_retryable_failure
  find-mark_retryable_failure key s row h =
      ground (arith, beq_refl key, find-update_key T key key (λ _. true) failure_data s)

  -- a finalized row with the fingerprint is replayed, and nothing is written
  pub finalized-replay :
      (clock : ℕ → ℕ) (uuid : ℕ → String) (ctx : Context) (fuel : ℕ) (s : T.State)
      (row : IdempotencyRequest)
      → T.find ctx.key s ≡ some row
      → row.state ≡ finalized
      → acquire T cfg (suc fuel) (quiet clock uuid) 0 ctx row.request_fingerprint s
        ≡ some (s, Claim.replay (stored_outcome row))
  unfolding reconcile settle
  finalized-replay clock uuid ctx fuel s row h f =
      rw (acquire_found T cfg (quiet clock uuid) ctx row.request_fingerprint fuel 0 s row row h h)
        (ground (arith, beq_refl row.request_fingerprint))

  module _ {D : Type 0} (env : Env T.State) (during : T.State → T.State) (done : ℕ) (ctx : Context)
      (fp : String) (fuel : ℕ) (action : D → D × Result Outcome) (s s' : T.State) (d d' : D) where
    -- an execution that was no replay: the key was acquired, the action ran once and succeeded
    executed :
        (o : Outcome)
        → execute_idempotent T cfg fuel env during done ctx fp action (s, d)
          ≡ some ((s', d'), ok (record { outcome = o; replayed = false }))
        → (claim_of (acquire T cfg fuel env 0 ctx fp s) ≡ some Claim.acquired)
          × (action d ≡ (d', ok o))
          × (s'
              ≡ finalize T cfg ctx.key o done
                  (during (state_of s (acquire T cfg fuel env 0 ctx fp s))))
    unfolding execute_idempotent acquire_or_replay acquire_result run_claim after_action
    executed o h = ground arith

  module _ {D : Type 0} (env : Env T.State) (ctx : Context) (fp : String) (fuel : ℕ)
      (during : T.State → T.State) (done : ℕ) (action : D → D × Result Outcome) (s : T.State)
      (d : D) where
    replay_run :
        (o : Outcome) (s' : T.State)
        → acquire T cfg fuel env 0 ctx fp s ≡ some (s', Claim.replay o)
        → execute_idempotent T cfg fuel env during done ctx fp action (s, d)
          ≡ some ((s', d), ok (record { outcome = o; replayed = true }))
    unfolding execute_idempotent acquire_or_replay acquire_result run_claim after_action
    replay_run o s' h = ground arith

    pub failed_run :
        (s' : T.State) (d' : D) (e : DomainError)
        → acquire T cfg fuel env 0 ctx fp s ≡ some (s', Claim.acquired)
        → action d ≡ (d', err e)
        → execute_idempotent T cfg fuel env during done ctx fp action (s, d)
          ≡ some ((mark_retryable_failure T cfg ctx.key (during s'), d'), err e)
    unfolding execute_idempotent acquire_or_replay acquire_result run_claim after_action
    failed_run s' d' e h k = ground arith

  -- nobody else writes the row of a key between the two tables
  abbrev pub IsUntouched : String → T.State → T.State → Type 0
  IsUntouched key s t = T.find key t ≡ T.find key s

  module _ {D : Type 0} (clock clock' : ℕ → ℕ) (uuid uuid' : ℕ → String) (ctx : Context)
      (fp : String) (fuel fuel' : ℕ) (during during' : T.State → T.State) (done done' : ℕ)
      (action action' : D → D × Result Outcome) (s s' s'' : T.State) (d d' d'' : D) where
    -- the row that a finished execution leaves
    pub finalized_row :
        (o : Outcome)
        → ((t : T.State) → IsUntouched ctx.key t (during t))
        → execute_idempotent T cfg (suc fuel) (quiet clock uuid) during done ctx fp action (s, d)
          ≡ some ((s', d'), ok (record { outcome = o; replayed = false }))
        → (row : IdempotencyRequest) × (T.find ctx.key s' ≡ some (finalize_data o done row))
          × (row.request_fingerprint ≡ fp)
    finalized_row o alone h =
        let (got, _, left) =
          executed (quiet clock uuid) during done ctx fp (suc fuel) action s s' d d' o h in
        let (row, k, g) = acquired-IsGranted T cfg clock uuid ctx fp fuel s got in
        (row, rw left (find-finalize ctx.key o done _ row (alone _ ∙ k)), g.fingerprint)

    -- An execution ran its action and succeeded; nobody else wrote the table while it acquired the
    -- key, nor the row of the key while the action ran and until a second request came. Then the
    -- second request with the same key and fingerprint, if nobody else writes the table while it
    -- looks, gets the stored outcome, marked as a replay; its own action is not run, and it changes
    -- nothing.
    pub execute-execute :
        (o : Outcome)
        → ((t : T.State) → IsUntouched ctx.key t (during t))
        → IsUntouched ctx.key s' s''
        → execute_idempotent T cfg (suc fuel) (quiet clock uuid) during done ctx fp action (s, d)
          ≡ some ((s', d'), ok (record { outcome = o; replayed = false }))
        → execute_idempotent T cfg
            (suc fuel')
            (quiet clock' uuid')
            during'
            done'
            ctx
            fp
            action'
            (s'', d'')
          ≡ some ((s'', d''), ok (record { outcome = o; replayed = true }))
    execute-execute o alone between h =
        let (row, k, same) = finalized_row o alone h in
        replay_run (quiet clock' uuid') ctx fp (suc fuel') during' done' action' s'' d'' o s'' (
          subst
            (λ t.
              acquire T cfg (suc fuel') (quiet clock' uuid') 0 ctx t s''
              ≡ some (s'', Claim.replay o))
            same
            (finalized-replay clock' uuid' ctx fuel' s'' (finalize_data o done row) (between ∙ k)
              refl))
