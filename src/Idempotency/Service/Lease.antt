-- ===== src/Idempotency/Service/Lease.antt =====
-- Who may run the action: `acquire` grants a key to one request at a time.
use mathlib.Core.Path.{subst}
use mathlib.Core.Option.{some-injective}
use posts_media.Common.{
  ℕ, suc, ◌+◌, ◌*◌, ◌≤◌, ◌<◌, String, ◌≡◌, ◌↔◌, ◌⊎◌, Option, none, some, string_eq, eq_iff,
  if◌then◌else◌, arith, Option-cases, inl, inr, beq_refl, ap, sym, ◌∙◌,
}
use posts_media.Database.Table.{Table, count-update_key}
use posts_media.Idempotency.{
  IdempotencyState, Context, IdempotencyRequest, Claim, retryable_failure,
}
use posts_media.Idempotency.Service.{
  Settings, quiet, acquire, settle, reconcile, can_reclaim, reclaim_data, reclaim,
}
use posts_media.Idempotency.Service.Rounds.{acquire_found, acquire_fresh}

-- A row that another request holds at time `now`.
pub record IsHeld (now : ℕ) (row : IdempotencyRequest) : Type 0 where
  pub held : row.state ≡ IdempotencyState.in_progress
  pub until : ℕ
  pub lease : row.lease_expires_at ≡ some until
  pub later : now < until

-- A row that a request with the fingerprint may take over at time `now`.
abbrev pub IsReclaimable : String → ℕ → IdempotencyRequest → Type 0
IsReclaimable fp now row =
    (row.request_fingerprint ≡ fp)
    × ((row.state ≡ retryable_failure)
        ⊎ ((row.state ≡ IdempotencyState.in_progress)
            × ((until : ℕ) × (row.lease_expires_at ≡ some until) × (until ≤ now))))

abbrev pub claim_of : {S : Type 0} → Option (S × Claim) → Option Claim
claim_of none = none
claim_of (some (s, c)) = some c

module _ (T : Table String IdempotencyRequest) (cfg : Settings) where
  module _ (clock : ℕ → ℕ) (uuid : ℕ → String) (ctx : Context) (fp : String) (fuel : ℕ)
      (s : T.State) where
    reclaim_count :
        (row : IdempotencyRequest)
        → T.find ctx.key s ≡ some row
        → (settle T cfg
            (quiet clock uuid)
            0
            ctx
            fp
            (clock 0 + cfg.lease_seconds * 1000)
            reclaim
            s).1
          ≡ (if can_reclaim fp (clock (0 + 2)) row then Claim.acquired else Claim.in_progress)
    unfolding settle
    reclaim_count row h = ground (
      arith,
      beq_refl ctx.key,
      count-update_key T ctx.key (can_reclaim fp (clock (0 + 2)))
          (reclaim_data (uuid (0 + 2)) (clock 0 + cfg.lease_seconds * 1000)) s,
    )

    abbrev round : Option (T.State × Claim)
    round = acquire T cfg (suc fuel) (quiet clock uuid) 0 ctx fp s

    found_claim :
        (row : IdempotencyRequest)
        → T.find ctx.key s ≡ some row
        → clock 1 ≤ clock 2
        → (claim_of round ≡ some Claim.acquired) ↔ IsReclaimable fp (clock 1) row
    unfolding reconcile settle
    found_claim row h later =
        rw (acquire_found T cfg (quiet clock uuid) ctx fp fuel 0 s row row h h)
          (ground (arith, reclaim_count row h, eq_iff row.request_fingerprint fp))

    found_expired :
        (row : IdempotencyRequest)
        → T.find ctx.key s ≡ some row
        → ((T.find ctx.key s ≡ none)
            ⊎ ((r : IdempotencyRequest) × (T.find ctx.key s ≡ some r)
                × IsReclaimable fp (clock 1) r))
        → IsReclaimable fp (clock 1) row
    found_expired row h (inl n) = cc
    found_expired row h (inr (r, e, c)) =
        subst (IsReclaimable fp (clock 1)) (some-injective _ _ (sym e ∙ h)) c

    -- With no other process at work, a request is let through exactly when its key is new, or when
    -- its row has the request's fingerprint and either failed retryably or has a lease that ran out.
    pub acquire-acquired_iff :
        clock 1 ≤ clock 2
        → (claim_of (acquire T cfg (suc fuel) (quiet clock uuid) 0 ctx fp s) ≡ some Claim.acquired)
          ↔ ((T.find ctx.key s ≡ none)
              ⊎ ((row : IdempotencyRequest) × (T.find ctx.key s ≡ some row)
                  × IsReclaimable fp (clock 1) row))
    acquire-acquired_iff later = elim (Option-cases (T.find ctx.key s)) [
      | inl new ↦
          let (s', e, _) = acquire_fresh T cfg (quiet clock uuid) ctx fp fuel 0 s new in
          (λ _. inl new, λ _. ap claim_of e)
      | inr (row, old) ↦
          let (to, from) = found_claim row old later in
          (λ e. inr (row, old, to e), λ d. from (found_expired row old d))
    ]
