-- ===== src/Queues/JobIds.antt =====
-- Job ids are deterministic, and differ from one generation of an item to the next.
use text.Mathlib.TextLemmas.{append_cancel_left}
use posts_media.Common.{ℕ, String, ◌≡◌}
use posts_media.Common.Decimal.{decimal_injective}
use posts_media.Queues.{media_job_id}

-- Two jobs of one media item have the same id only if they are of the same generation.
pub media_job_id_injective :
    (media_id : String) (g h : ℕ) → media_job_id media_id g ≡ media_job_id media_id h → g ≡ h
unfolding media_job_id
media_job_id_injective media_id g h e = decimal_injective g h (
    append_cancel_left "-generation-" _ _
      (append_cancel_left media_id _ _ (append_cancel_left "media-" _ _ e)))
