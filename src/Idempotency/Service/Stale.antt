-- ===== src/Idempotency/Service/Stale.antt =====
-- The ends of an action: a failure lets the next request in, also where another request has
-- completed meanwhile.
use posts_media.Common.{
  ℕ, suc, ◌+◌, ◌≤◌, String, ◌≡◌, ◌≢◌, refl, Option, none, some, arith, Option-cases, inl, inr,
  false, string_eq,
}
use posts_media.Domain.Errors.{DomainError}
use posts_media.Domain.Result.{Result, ok, err}
use posts_media.Database.Table.{Table}
use posts_media.Idempotency.{Context, Outcome, IdempotencyRequest, Claim}
use posts_media.Idempotency.Service.{
  Settings, Env, quiet, acquire, finalize_data, failure_data, mark_retryable_failure,
  execute_idempotent,
}
use posts_media.Idempotency.Service.Rounds.{acquire_found, acquire_fresh}
use posts_media.Idempotency.Service.Lease.{claim_of, acquire-acquired_iff}
use posts_media.Idempotency.Service.Exclusive.{state_of, acquired-IsGranted}
use posts_media.Idempotency.Service.Replay.{find-mark_retryable_failure, failed_run, finalized_row}

module _ (T : Table String IdempotencyRequest) (cfg : Settings) where
  -- Where no other process deletes the row between the failed insert and the read, one round of
  -- `acquire` gives an answer.
  pub acquire_total :
      (env : Env T.State) (ctx : Context) (fp : String) (fuel i : ℕ) (s : T.State)
      → (T.find ctx.key (env.before i s) ≢ none
          → T.find ctx.key (env.before (i + 1) (env.before i s)) ≢ none)
      → (r : T.State × Claim) × (acquire T cfg (suc fuel) env i ctx fp s ≡ some r)
  acquire_total env ctx fp fuel i s kept = elim (Option-cases (T.find ctx.key (env.before i s))) [
    | inl new ↦
        let (s', e, _) = acquire_fresh T cfg env ctx fp fuel i s new in ((s', Claim.acquired), e)
    | inr (q, old) ↦ elim (Option-cases (T.find ctx.key (env.before (i + 1) (env.before i s)))) [
      | inl gone ↦ absurd (kept (λ e. cc) gone)
      | inr (row, there) ↦ (_, acquire_found T cfg env ctx fp fuel i s q row old there)
    ]
  ]

  reopened :
      (clock : ℕ → ℕ) (uuid : ℕ → String) (ctx : Context) (fp : String) (fuel : ℕ) (s : T.State)
      (row : IdempotencyRequest)
      → T.find ctx.key s ≡ some row
      → row.request_fingerprint ≡ fp
      → clock 1 ≤ clock 2
      → claim_of (
          acquire T cfg
            (suc fuel)
            (quiet clock uuid)
            0
            ctx
            fp
            (mark_retryable_failure T cfg ctx.key s))
        ≡ some Claim.acquired
  reopened clock uuid ctx fp fuel s row h same later =
      (acquire-acquired_iff T cfg clock uuid ctx fp fuel (mark_retryable_failure T cfg ctx.key s)
          later).1
        (inr
          (failure_data row, find-mark_retryable_failure T cfg ctx.key s row h, (same, inl refl)))

  claimed :
      {S : Type 0} (s : S) (r : Option (S × Claim))
      → claim_of r ≡ some Claim.acquired
      → r ≡ some (state_of s r, Claim.acquired)
  claimed s none h = cc
  claimed s (some (s', c)) h = ground arith

  module _ {D : Type 0} (clock clock' later_clock : ℕ → ℕ) (uuid uuid' later_uuid : ℕ → String)
      (ctx : Context) (fp : String) (fuel fuel' later_fuel : ℕ) (done done' : ℕ)
      (action action' : D → D × Result Outcome) (s s' : T.State) (d d' d₁ d₂ : D) where
    -- An action that fails leaves its key to the next request with the same fingerprint.
    pub failure_retryable :
        (e : DomainError)
        → claim_of (acquire T cfg (suc fuel) (quiet clock uuid) 0 ctx fp s) ≡ some Claim.acquired
        → action d ≡ (d', err e)
        → later_clock 1 ≤ later_clock 2
        → (left : T.State) × (execute_idempotent T cfg
              (suc fuel)
              (quiet clock uuid)
              (λ t. t)
              done
              ctx
              fp
              action
              (s, d)
            ≡ some ((left, d'), err e))
          × (claim_of (acquire T cfg (suc later_fuel) (quiet later_clock later_uuid) 0 ctx fp left)
              ≡ some Claim.acquired)
    failure_retryable e got fails later =
        let (row, k, g) = acquired-IsGranted T cfg clock uuid ctx fp fuel s got in
        (
          mark_retryable_failure T cfg ctx.key
              (state_of s (acquire T cfg (suc fuel) (quiet clock uuid) 0 ctx fp s)),
          failed_run T cfg (quiet clock uuid) ctx fp (suc fuel) (λ t. t) done action s d
              (state_of s (acquire T cfg (suc fuel) (quiet clock uuid) 0 ctx fp s)) d' e
              (claimed s _ got) fails,
          reopened later_clock later_uuid ctx fp later_fuel _ row k g.fingerprint later,
        )

    -- A request whose lease ran out, and whose action then fails, reopens the key although another
    -- request with it has completed in between: a third request with the same key and fingerprint is
    -- let through to run its action again, where the outcome of the second should be replayed.
    pub completed_request_reopens :
        (o : Outcome) (e : DomainError)
        → claim_of (acquire T cfg (suc fuel) (quiet clock uuid) 0 ctx fp s) ≡ some Claim.acquired
        → execute_idempotent T cfg
            (suc fuel')
            (quiet clock' uuid')
            (λ t. t)
            done'
            ctx
            fp
            action'
            (state_of s (acquire T cfg (suc fuel) (quiet clock uuid) 0 ctx fp s), d₁)
          ≡ some ((s', d₂), ok (record { outcome = o; replayed = false }))
        → action d ≡ (d', err e)
        → later_clock 1 ≤ later_clock 2
        → (left : T.State) × (execute_idempotent T cfg
              (suc fuel)
              (quiet clock uuid)
              (λ _. s')
              done
              ctx
              fp
              action
              (s, d)
            ≡ some ((left, d'), err e))
          × (claim_of (acquire T cfg (suc later_fuel) (quiet later_clock later_uuid) 0 ctx fp left)
              ≡ some Claim.acquired)
    completed_request_reopens o e got completed fails later =
        let (row, k, same) =
          finalized_row T cfg clock' clock' uuid' uuid' ctx fp fuel' fuel' (λ t. t) (λ t. t) done'
            done' action' action' _ s' s' d₁ d₂ d₂ o (λ t. refl) completed in
        (
          mark_retryable_failure T cfg ctx.key s',
          failed_run T cfg (quiet clock uuid) ctx fp (suc fuel) (λ _. s') done action s d
              (state_of s (acquire T cfg (suc fuel) (quiet clock uuid) 0 ctx fp s)) d' e
              (claimed s _ got) fails,
          reopened later_clock later_uuid ctx fp later_fuel s' (finalize_data o done' row) k same
              later,
        )
