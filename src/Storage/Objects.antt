-- ===== src/Storage/Objects.antt =====
-- A list of the objects that are there is such a storage, in which every call succeeds that can.
use posts_media.Common.{◌≡◌, refl, Bool, true, false, List, [], ◌∷◌, ◌==◌, arith, if◌then◌else◌}
use posts_media.Storage.{ObjectRef, ref_eq, ref_beq_iff, listed, ObjectStorage}

abbrev objects_remove : List ObjectRef → List ObjectRef → List ObjectRef
objects_remove refs [] = []
objects_remove refs (o ∷ os) =
    let rest = objects_remove refs os in if listed o refs then rest else o ∷ rest

pub remove-gone :
    (refs os : List ObjectRef) (q : ObjectRef)
    → listed q refs ≡ true
    → listed q (objects_remove refs os) ≡ false
remove-gone refs [] q h = refl
remove-gone refs (o ∷ os) q h = ground (arith, remove-gone refs os q, ref_beq_iff o q)

pub remove-other :
    (refs os : List ObjectRef) (q : ObjectRef)
    → listed q refs ≡ false
    → listed q (objects_remove refs os) ≡ listed q os
remove-other refs [] q h = refl
remove-other refs (o ∷ os) q h = ground (arith, remove-other refs os q, ref_beq_iff o q)

abbrev objects_copy : ObjectRef → ObjectRef → List ObjectRef → List ObjectRef × Bool
objects_copy r d os = if listed r os then (d ∷ os, true) else (os, false)

pub added : (r : ObjectRef) (os : List ObjectRef) → listed r (r ∷ os) ≡ true
added r os = ground (arith, ref_beq_iff r r)

pub copied :
    (r d : ObjectRef) (os : List ObjectRef)
    → (objects_copy r d os).1 ≡ true
    → listed d (objects_copy r d os).0 ≡ true
copied r d os h = ground (arith, ref_beq_iff d d)

pub copied_other :
    (r d q : ObjectRef) (os : List ObjectRef)
    → (d == q) ≡ false
    → listed q (objects_copy r d os).0 ≡ listed q os
copied_other r d q os h = ground arith

abbrev pub listed_storage : ObjectStorage
listed_storage = record {
  State = List ObjectRef;
  holds = listed;
  put_file = λ r path os. (r ∷ os, true);
  copy = objects_copy;
  stat = listed;
  download_to_file = λ r path os. listed r os;
  remove = λ r os. (objects_remove (r ∷ []) os, true);
  remove_many = λ refs os. (objects_remove refs os, true);
  put-holds = λ r path os h. added r os;
  put-other = λ r q path os h. rw h;
  copy-holds = copied;
  copy-other = copied_other;
  remove-gone = λ r os h. remove-gone (r ∷ []) os r (added r []);
  remove-other = λ r q os h. remove-other (r ∷ []) os q (rw h);
  remove_many-gone = λ refs q os h k. remove-gone refs os q k;
  remove_many-other = λ refs q os h. remove-other refs os q h;
  stat-holds = λ r os h. h;
}
