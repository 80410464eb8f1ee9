-- ===== src/Idempotency/Service/Rounds.antt =====
-- One round of `acquire`: what it does when the insert succeeds, and when it does not.
use posts_media.Common.{ℕ, suc, ◌+◌, ◌*◌, String, ◌≡◌, none, some, ◌==◌, string_eq, if◌then◌else◌}
use posts_media.Database.Table.{Table}
use posts_media.Idempotency.{Context, IdempotencyRequest, Claim}
use posts_media.Idempotency.Service.{Settings, Env, acquire, settle, reconcile, fresh_row}

module _ (T : Table String IdempotencyRequest) (cfg : Settings) where
  module _ (env : Env T.State) (ctx : Context) (fp : String) (fuel i : ℕ) (s : T.State) where
    abbrev pub lease_from : ℕ
    lease_from = env.now i + cfg.lease_seconds * 1000

    abbrev pub row_from : IdempotencyRequest
    row_from = fresh_row ctx fp (env.uuid i) lease_from (env.now i + cfg.ttl_hours * 3600000)

    pub acquire_found :
        (q row : IdempotencyRequest)
        → T.find ctx.key (env.before i s) ≡ some q
        → T.find ctx.key (env.before (i + 1) (env.before i s)) ≡ some row
        → acquire T cfg (suc fuel) env i ctx fp s
          ≡ some (
              settle T cfg env i ctx fp lease_from
                (reconcile fp (env.now (i + 1)) row)
                (env.before (i + 1) (env.before i s)))
    unfolding acquire
    acquire_found q row h k =
        rw (T.create_taken ctx.key row_from q (env.before i s) h, acquire) (rw (k, acquire))

    pub acquire_fresh :
        T.find ctx.key (env.before i s) ≡ none
        → (s' : T.State) × (acquire T cfg (suc fuel) env i ctx fp s ≡ some (s', Claim.acquired))
          × ((j : String)
              → T.find j s' ≡ (if ctx.key == j then some row_from else T.find j (env.before i s)))
    unfolding acquire
    acquire_fresh h =
        let (s', e) = T.create_free ctx.key row_from (env.before i s) h in
        (s', rw (e, acquire), λ j. T.find-create ctx.key j row_from (env.before i s) s' e)
