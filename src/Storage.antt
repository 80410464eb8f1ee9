-- ===== src/Storage.antt =====
-- libs/storage/src: object references and keys, and the storage port. The MinIO adapter behind the
-- port only calls the MinIO client, so the port is an interface here.
pub mod Objects
use Prim.Native.String.{◌++◌}
use posts_media.Common.{
  ℕ, String, ◌≡◌, ◌↔◌, Bool, true, false, not, ◌&&◌, ◌||◌, List, [], ◌∷◌, Eq, ◌==◌, string_eq,
  eq_iff, any, arith, if◌then◌else◌,
}
use posts_media.Common.Decimal.{decimal}

pub record ObjectRef : Type 0 where
  pub bucket : String
  pub object_key : String

abbrev pub ref_beq : ObjectRef → ObjectRef → Bool
ref_beq a b = a.bucket == b.bucket && a.object_key == b.object_key

pub ref_beq_iff : (a b : ObjectRef) → (ref_beq a b ≡ true) ↔ (a ≡ b)
ref_beq_iff a b = ground (arith, eq_iff a.bucket b.bucket, eq_iff a.object_key b.object_key)

instance abbrev pub ref_eq : Eq ObjectRef
ref_eq = record { equals = ref_beq; equals_iff = ref_beq_iff }

abbrev pub listed : ObjectRef → List ObjectRef → Bool
listed r refs = any (λ q. q == r) refs

-- ObjectStoragePort. A call may throw (`false`); whether it does may depend on anything in the
-- state. `holds` says which objects are there.
pub record ObjectStorage : Type 1 where
  pub State : Type 0
  pub holds : ObjectRef → State → Bool
  pub put_file : ObjectRef → String → State → State × Bool
  pub copy : ObjectRef → ObjectRef → State → State × Bool
  pub stat : ObjectRef → State → Bool
  pub download_to_file : ObjectRef → String → State → Bool
  pub remove : ObjectRef → State → State × Bool
  pub remove_many : List ObjectRef → State → State × Bool
  -- a write that succeeds leaves its object there; none touches another object
  pub put-holds :
      (r : ObjectRef) (path : String) (s : State)
      → (put_file r path s).1 ≡ true
      → holds r (put_file r path s).0 ≡ true
  pub put-other :
      (r q : ObjectRef) (path : String) (s : State)
      → (r == q) ≡ false
      → holds q (put_file r path s).0 ≡ holds q s
  pub copy-holds :
      (r d : ObjectRef) (s : State) → (copy r d s).1 ≡ true → holds d (copy r d s).0 ≡ true
  pub copy-other :
      (r d q : ObjectRef) (s : State) → (d == q) ≡ false → holds q (copy r d s).0 ≡ holds q s
  -- a removal that succeeds removes what is listed; none touches another object
  pub remove-gone :
      (r : ObjectRef) (s : State) → (remove r s).1 ≡ true → holds r (remove r s).0 ≡ false
  pub remove-other :
      (r q : ObjectRef) (s : State) → (r == q) ≡ false → holds q (remove r s).0 ≡ holds q s
  pub remove_many-gone :
      (refs : List ObjectRef) (q : ObjectRef) (s : State)
      → (remove_many refs s).1 ≡ true
      → listed q refs ≡ true
      → holds q (remove_many refs s).0 ≡ false
  pub remove_many-other :
      (refs : List ObjectRef) (q : ObjectRef) (s : State)
      → listed q refs ≡ false
      → holds q (remove_many refs s).0 ≡ holds q s
  pub stat-holds : (r : ObjectRef) (s : State) → stat r s ≡ true → holds r s ≡ true

-- StorageBuckets
pub record Buckets : Type 0 where
  pub originals : String
  pub processed : String
  pub temporary : String

-- ObjectKeyService
module _ (buckets : Buckets) where
  unfoldable pub original_key : String → String → String → ObjectRef
  original_key post_id media_id extension = record {
    bucket = buckets.originals;
    object_key = "posts/" ++ (post_id ++ ("/" ++ (media_id ++ ("/original." ++ extension))));
  }

  unfoldable pub processed_key : String → String → String → String → ObjectRef
  processed_key post_id media_id profile filename = record {
    bucket = buckets.processed;
    object_key =
        "posts/" ++ (post_id ++ ("/" ++ (media_id ++ ("/" ++ (profile ++ ("/" ++ filename))))));
  }

  unfoldable pub processed_attempt_key : String → String → String → ℕ → String → String → ObjectRef
  processed_attempt_key post_id media_id profile generation attempt_id filename = record {
    bucket = buckets.processed;
    object_key =
        "posts/"
        ++ (post_id
            ++ ("/"
                ++ (media_id
                    ++ ("/"
                        ++ (profile
                            ++ ("/generations/"
                                ++ (decimal generation
                                    ++ ("/attempts/" ++ (attempt_id ++ ("/" ++ filename))))))))));
  }

  unfoldable pub upload_staging_key : String → String → ObjectRef
  upload_staging_key request_id file_id = record {
    bucket = buckets.temporary;
    object_key = "uploads/" ++ (request_id ++ ("/" ++ file_id));
  }

  unfoldable pub processing_temp_key : String → ℕ → String → String → ObjectRef
  processing_temp_key media_id generation attempt_id filename = record {
    bucket = buckets.temporary;
    object_key =
        "processing/"
        ++ (media_id
            ++ ("/" ++ (decimal generation ++ ("/" ++ (attempt_id ++ ("/" ++ filename))))));
  }
