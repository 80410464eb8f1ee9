-- ===== src/Processing/Lifecycle/Fencing.antt =====
-- Which events a media row refuses: those of others while its lease lasts, and those of an earlier
-- generation.
use posts_media.Common.{
  ℕ, ◌≤◌, ◌<◌, ◌+◌, String, ◌≡◌, ◌≢◌, refl, ap, ◌∙◌, some, List, [], ◌∷◌, All, arith, eq_iff,
}
use posts_media.Domain.Enums.{ProcessingStatus}
use posts_media.Schema.{Media}
use posts_media.Processing.Lifecycle.{
  Event, retry, claim, renew, complete, publish, fail, step, run,
}
use posts_media.Processing.Lifecycle.Invariant.{IsConsistent, run-generation}

-- An event of someone who does not hold the lease `t`, which ends at `until`: a claim before the
-- end, a write with another token, or a manual retry.
abbrev pub IsForeign : String → ℕ → Event → Type 0
IsForeign t until (claim g j l u now) = now < until
IsForeign t until (renew g u l now) = u ≢ t
IsForeign t until (complete g u now) = u ≢ t
IsForeign t until (publish g u d now) = u ≢ t
IsForeign t until (fail g u final c e) = u ≢ t
IsForeign t until (retry g) = Unit

step-foreign :
    (m : Media) (t : String) (until : ℕ) (e : Event)
    → IsConsistent m
    → m.processing_lease_token ≡ some t
    → m.processing_lease_expires_at ≡ some until
    → IsForeign t until e
    → step m e ≡ m
unfolding step
step-foreign m t until (claim g j l u now) h k x f = ground arith
step-foreign m t until (renew g u l now) h k x f = ground (arith, eq_iff t u)
step-foreign m t until (complete g u now) h k x f = ground (arith, eq_iff t u)
step-foreign m t until (publish g u d now) h k x f = ground (arith, eq_iff t u)
step-foreign m t until (fail g u final c e) h k x f = ground (arith, eq_iff t u)
step-foreign m t until (retry g) h k x f = ground arith

-- While a worker's lease lasts, nothing that others do changes the row: no second claim, no write
-- of a worker with another token, and no manual retry.
pub lease_exclusive :
    (m : Media) (t : String) (until : ℕ) (es : List Event)
    → IsConsistent m
    → m.processing_lease_token ≡ some t
    → m.processing_lease_expires_at ≡ some until
    → All (IsForeign t until) es
    → run m es ≡ m
unfolding run
lease_exclusive m t until [] h k x f = refl
lease_exclusive m t until (e ∷ es) h k x f =
    ap (λ n. run n es) (step-foreign m t until e h k x f.0) ∙ lease_exclusive m t until es h k x f.1

abbrev pub generation_of : Event → ℕ
generation_of (claim g j l t now) = g
generation_of (renew g t l now) = g
generation_of (complete g t now) = g
generation_of (publish g t d now) = g
generation_of (fail g t final c e) = g
generation_of (retry g) = g

step-stale : (m : Media) (e : Event) → generation_of e < m.processing_generation → step m e ≡ m
unfolding step
step-stale m (claim g j l t now) h = ground arith
step-stale m e h = ground arith

step-retry :
    (m : Media)
    → m.processing_status ≡ ProcessingStatus.failed
    → (step m (retry m.processing_generation)).processing_generation ≡ m.processing_generation + 1
unfolding step
step-retry m h = ground arith

-- After a manual retry of a failed item, and whatever follows it, every event that was meant for the
-- generation before the retry or an earlier one is without effect.
pub retry_fences :
    (m : Media) (es : List Event) (e : Event)
    → m.processing_status ≡ ProcessingStatus.failed
    → generation_of e ≤ m.processing_generation
    → let after = run (step m (retry m.processing_generation)) es in step after e ≡ after
retry_fences m es e failed old =
    step-stale (run (step m (retry m.processing_generation)) es) e (
      omega
        (arith, step-retry m failed, run-generation (step m (retry m.processing_generation)) es))
