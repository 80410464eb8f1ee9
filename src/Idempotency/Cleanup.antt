-- ===== src/Idempotency/Cleanup.antt =====
-- libs/database/src/idempotency/idempotency-cleanup.service.ts
use posts_media.Common.{ℕ, suc, ◌≤◌, ◌<◌, String, ◌≡◌, Bool, some, leb, arith, inl, string_eq}
use posts_media.Database.Table.{Table}
use posts_media.Idempotency.{Context, IdempotencyRequest, Claim}
use posts_media.Idempotency.Service.{Settings, quiet, acquire}
use posts_media.Idempotency.Service.Lease.{claim_of, acquire-acquired_iff}

abbrev is_expired : ℕ → String → IdempotencyRequest → Bool
is_expired now key row = leb row.expires_at now

module _ (T : Table String IdempotencyRequest) where
  -- one pass, with the count of rows removed
  unfoldable pub remove_expired : ℕ → T.State → T.State × ℕ
  remove_expired now s = T.delete_many (is_expired now) s

  -- A row that has not expired stays as it is.
  pub remove_expired-keeps :
      (now : ℕ) (s : T.State) (key : String) (row : IdempotencyRequest)
      → T.find key s ≡ some row
      → now < row.expires_at
      → T.find key (remove_expired now s).0 ≡ some row
  unfolding remove_expired
  remove_expired-keeps now s key row h live =
      ground (arith, T.find-delete_many (is_expired now) s key)

  -- A key whose row has expired, in whatever state, is granted after the pass to the next request,
  -- whatever its fingerprint.
  pub remove_expired-acquire :
      (cfg : Settings) (clock : ℕ → ℕ) (uuid : ℕ → String) (ctx : Context) (fp : String)
      (fuel now : ℕ) (s : T.State) (row : IdempotencyRequest)
      → T.find ctx.key s ≡ some row
      → row.expires_at ≤ now
      → clock 1 ≤ clock 2
      → claim_of (acquire T cfg (suc fuel) (quiet clock uuid) 0 ctx fp (remove_expired now s).0)
        ≡ some Claim.acquired
  unfolding remove_expired
  remove_expired-acquire cfg clock uuid ctx fp fuel now s row h old later =
      (acquire-acquired_iff T cfg clock uuid ctx fp fuel _ later).1
        (inl (ground (arith, T.find-delete_many (is_expired now) s ctx.key)))
