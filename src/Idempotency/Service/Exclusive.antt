-- ===== src/Idempotency/Service/Exclusive.antt =====
-- A granted lease is exclusive until it runs out.
use posts_media.Common.{
  ℕ, suc, ◌+◌, ◌*◌, ◌<◌, String, ◌≡◌, refl, Option, none, some, ◌==◌, string_eq, eq_iff,
  if◌then◌else◌, arith, Option-cases, inl, inr, beq_refl, ap, ◌∙◌, nat_beq,
}
use posts_media.Database.Table.{Table, find-update_key, count-update_key}
use posts_media.Idempotency.{IdempotencyState, Context, IdempotencyRequest, Claim}
use posts_media.Idempotency.Service.{
  Settings, Env, quiet, acquire, settle, reconcile, can_reclaim, reclaim_data,
}
use posts_media.Idempotency.Service.Rounds.{acquire_found, acquire_fresh, row_from}
use posts_media.Idempotency.Service.Lease.{IsHeld, IsReclaimable, claim_of}

-- the table after a call
abbrev pub state_of : {S : Type 0} → S → Option (S × Claim) → S
state_of s none = s
state_of s (some (s', c)) = s'

-- The row that a request leaves which was let through with the lease end `until`.
pub record IsGranted (fp : String) (until : ℕ) (row : IdempotencyRequest) : Type 0 where
  pub held : row.state ≡ IdempotencyState.in_progress
  pub fingerprint : row.request_fingerprint ≡ fp
  pub lease : row.lease_expires_at ≡ some until

module _ (T : Table String IdempotencyRequest) (cfg : Settings) where
  module _ (clock : ℕ → ℕ) (uuid : ℕ → String) (ctx : Context) (fp : String) (fuel : ℕ)
      (s : T.State) where
    abbrev round : Option (T.State × Claim)
    round = acquire T cfg (suc fuel) (quiet clock uuid) 0 ctx fp s

    abbrev lease_end : ℕ
    lease_end = clock 0 + cfg.lease_seconds * 1000

    grant_of_found :
        (row : IdempotencyRequest)
        → T.find ctx.key s ≡ some row
        → claim_of round ≡ some Claim.acquired
        → (row' : IdempotencyRequest) × (T.find ctx.key (state_of s round) ≡ some row')
          × IsGranted fp lease_end row'
    unfolding reconcile settle
    grant_of_found row h =
        rw (acquire_found T cfg (quiet clock uuid) ctx fp fuel 0 s row row h h) (λ e. (
          reclaim_data (uuid (0 + 2)) lease_end row,
          ground (
            arith,
            beq_refl ctx.key,
            count-update_key T ctx.key (can_reclaim fp (clock (0 + 2)))
                (reclaim_data (uuid (0 + 2)) lease_end) s,
            find-update_key T ctx.key ctx.key (can_reclaim fp (clock (0 + 2)))
                (reclaim_data (uuid (0 + 2)) lease_end) s,
          ),
          ground (arith, eq_iff row.request_fingerprint fp),
        ))

    grant_of_fresh :
        T.find ctx.key s ≡ none
        → (row' : IdempotencyRequest) × (T.find ctx.key (state_of s round) ≡ some row')
          × IsGranted fp lease_end row'
    grant_of_fresh h =
        let (s', e, rows) = acquire_fresh T cfg (quiet clock uuid) ctx fp fuel 0 s h in
        (
          row_from T cfg (quiet clock uuid) ctx fp fuel 0 s,
          rw (ap (state_of s) e, rows ctx.key, beq_refl ctx.key),
          record { held = refl; fingerprint = refl; lease = refl },
        )

    -- A request that was let through holds its key: the row is in progress, has the request's
    -- fingerprint, and its lease ends the configured time after the request began.
    pub acquired-IsGranted :
        claim_of (acquire T cfg (suc fuel) (quiet clock uuid) 0 ctx fp s) ≡ some Claim.acquired
        → (row : IdempotencyRequest) × (T.find ctx.key
              (state_of s (acquire T cfg (suc fuel) (quiet clock uuid) 0 ctx fp s))
            ≡ some row)
          × IsGranted fp lease_end row
    acquired-IsGranted e = elim (Option-cases (T.find ctx.key s)) [
      | inl new ↦ grant_of_fresh new
      | inr (row, old) ↦ grant_of_found row old e
    ]

  module _ (env : Env T.State) (ctx : Context) (fp : String) (fuel : ℕ) (s : T.State) where
    -- whoever reads a row that is held is turned away
    held_at_read :
        (q row : IdempotencyRequest)
        → T.find ctx.key (env.before 0 s) ≡ some q
        → T.find ctx.key (env.before 1 (env.before 0 s)) ≡ some row
        → IsHeld (env.now 1) row
        → acquire T cfg (suc fuel) env 0 ctx fp s
          ≡ some (
            env.before 1 (env.before 0 s),
            (if row.request_fingerprint == fp then Claim.in_progress else Claim.conflict),
          )
    unfolding reconcile settle
    held_at_read q row h k held =
        rw (acquire_found T cfg env ctx fp fuel 0 s q row h k) (ground arith)

    -- whoever reclaims a row that was granted since it was read is turned away
    held_at_update :
        (q row w : IdempotencyRequest)
        → T.find ctx.key (env.before 0 s) ≡ some q
        → T.find ctx.key (env.before 1 (env.before 0 s)) ≡ some row
        → IsReclaimable fp (env.now 1) row
        → T.find ctx.key (env.before 2 (env.before 1 (env.before 0 s))) ≡ some w
        → IsHeld (env.now 2) w
        → claim_of (acquire T cfg (suc fuel) env 0 ctx fp s) ≡ some Claim.in_progress
    unfolding reconcile settle
    held_at_update q row w h k free l held =
        rw (acquire_found T cfg env ctx fp fuel 0 s q row h k) (
          ground (
            arith,
            beq_refl ctx.key,
            eq_iff row.request_fingerprint fp,
            count-update_key T ctx.key (can_reclaim fp (env.now 2))
                (reclaim_data (env.uuid 2) (env.now 0 + cfg.lease_seconds * 1000))
                (env.before 2 (env.before 1 (env.before 0 s))),
          ))

  module _ (clock clock' : ℕ → ℕ) (uuid uuid' : ℕ → String) (ctx ctx' : Context) (fp fp' : String)
      (fuel fuel' : ℕ) (s : T.State) where
    abbrev first : Option (T.State × Claim)
    first = acquire T cfg (suc fuel) (quiet clock uuid) 0 ctx fp s

    is_held :
        (now : ℕ) (row : IdempotencyRequest)
        → IsGranted fp (clock 0 + cfg.lease_seconds * 1000) row
        → now < clock 0 + cfg.lease_seconds * 1000
        → IsHeld now row
    is_held now row g h = record {
      held = g.held;
      until = clock 0 + cfg.lease_seconds * 1000;
      lease = g.lease;
      later = h;
    }

    -- Once a request was let through, until its lease ends every other request with its key is
    -- turned away without a change to the table: with IN_PROGRESS if the fingerprint is the same,
    -- and with CONFLICT if it is another.
    pub granted_excludes :
        ctx'.key ≡ ctx.key
        → claim_of (acquire T cfg (suc fuel) (quiet clock uuid) 0 ctx fp s) ≡ some Claim.acquired
        → clock' 1 < clock 0 + cfg.lease_seconds * 1000
        → let s' = state_of s (acquire T cfg (suc fuel) (quiet clock uuid) 0 ctx fp s) in
          acquire T cfg (suc fuel') (quiet clock' uuid') 0 ctx' fp' s'
          ≡ some (s', (if fp == fp' then Claim.in_progress else Claim.conflict))
    granted_excludes same e h =
        let (row, k, g) = acquired-IsGranted clock uuid ctx fp fuel s e in
        let k' : T.find ctx'.key (state_of s first) ≡ some row = rw same k in
        held_at_read (quiet clock' uuid') ctx' fp' fuel' (state_of s first) row row k' k'
          (is_held (clock' 1) row g h)
        ∙ ap
            (λ t. some (state_of s first, (if t == fp' then Claim.in_progress else Claim.conflict)))
            g.fingerprint

    -- A request finds a row that it may reclaim. Before its conditional update, another request
    -- with the key is let through, and nobody else writes the table. Where the update comes before
    -- the lease of the other ends, the request is turned away with IN_PROGRESS, though it read the
    -- row before.
    pub racing_reclaims :
        (row : IdempotencyRequest)
        → ctx'.key ≡ ctx.key
        → T.find ctx.key s ≡ some row
        → IsReclaimable fp' (clock' 1) row
        → claim_of (acquire T cfg (suc fuel) (quiet clock uuid) 0 ctx fp s) ≡ some Claim.acquired
        → clock' 2 < clock 0 + cfg.lease_seconds * 1000
        → claim_of (
            acquire T cfg
              (suc fuel')
              (record {
                before = λ i s'.
                    if nat_beq i 2
                    then state_of s' (acquire T cfg (suc fuel) (quiet clock uuid) 0 ctx fp s')
                    else s';
                now = clock';
                uuid = uuid';
              })
              0
              ctx'
              fp'
              s)
          ≡ some Claim.in_progress
    racing_reclaims row same k free e h =
        let (w, l, g) = acquired-IsGranted clock uuid ctx fp fuel s e in
        let k' : T.find ctx'.key s ≡ some row = rw same k in
        held_at_update _ ctx' fp' fuel' s row row w k' k' free (rw same l)
          (is_held (clock' 2) w g h)
