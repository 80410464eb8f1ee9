-- ===== src/System/Invariants.antt =====
-- What holds of the media rows under any calls.
use posts_media.Common.{◌≤◌, String, ◌≡◌, some, List}
use posts_media.Domain.Enums.{ProcessingStatus}
use posts_media.Schema.{Media, Tables, Db}
use posts_media.Processing.Lifecycle.{run}
use posts_media.Processing.Lifecycle.Invariant.{
  IsConsistent, run-IsConsistent, completed_final, run-generation,
}
use posts_media.System.{Call, perform_all}
use posts_media.System.Rows.{perform_all-Steps}

module _ (X : Tables) where
  -- Whatever the workers and the clients call, in whatever order and with whatever arguments: a
  -- media row that is consistent is still there after the calls, and consistent, its generation has
  -- not fallen, and if it was COMPLETED it is unchanged.
  pub calls_keep :
      (cs : List Call) (k : String) (db : Db X) (m : Media)
      → X.media.find k db.media ≡ some m
      → IsConsistent m
      → (n : Media) × (X.media.find k (perform_all X cs db).media ≡ some n)
        × IsConsistent n
        × (m.processing_generation ≤ n.processing_generation)
        × (m.processing_status ≡ ProcessingStatus.completed → n ≡ m)
  calls_keep cs k db m f h =
      let (es, g) = perform_all-Steps X cs k db m f in
      (
        run m es,
        g,
        run-IsConsistent m es h,
        (run-generation m es).0,
        λ done. completed_final m es h done,
      )
