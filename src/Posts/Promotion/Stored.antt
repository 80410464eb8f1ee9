-- ===== src/Posts/Promotion/Stored.antt =====
-- The objects that a promotion leaves.
use mathlib.Core.Path.{subst}
use mathlib.Core.List.{append_assoc, append-nil}
use posts_media.Common.{
  String, ◌≡◌, refl, sym, ap, ◌∙◌, true, false, List, [], ◌∷◌, ◌++◌, ◌==◌, map, All, string_eq,
  arith, Bool-cases, inl, inr,
}
use posts_media.Storage.{
  ObjectRef, ObjectStorage, Buckets, listed, ref_eq, ref_beq_iff, original_key, upload_staging_key,
}
use posts_media.Posts.Promotion.{
  Item, Promotion, staging_of, original_of, promote_one, promote_all, promoted_from,
  compensate_promoted_originals,
}

module _ (O : ObjectStorage) (buckets : Buckets) (request_id post_id : String) where
  abbrev one : Item → Promotion O.State → Promotion O.State
  one = promote_one O buckets request_id post_id

  abbrev every : List Item → Promotion O.State → Promotion O.State
  every = promote_all O buckets request_id post_id

  abbrev staging : Item → ObjectRef
  staging = staging_of O buckets request_id post_id

  abbrev pub original : Item → ObjectRef
  original = original_of O buckets request_id post_id

  -- keys of the temporary bucket are no keys of the bucket of the originals
  abbrev pub HasOriginals : Type 0
  HasOriginals = (buckets.temporary == buckets.originals) ≡ false

  staging-ne :
      HasOriginals
      → (i : Item) (q : ObjectRef) → q.bucket ≡ buckets.originals
      → (staging i == q) ≡ false
  unfolding upload_staging_key
  staging-ne apart i q b = rw (b, apart)

  original-bucket : (i : Item) → (original i).bucket ≡ buckets.originals
  unfolding original_key
  original-bucket i = refl

  one-lists :
      (i : Item) (p : Promotion O.State)
      → (one i p).failed ≡ false
      → (one i p).promoted ≡ p.promoted ++ original i ∷ []
  unfolding promote_one
  one-lists i p h = ground arith

  one-holds :
      HasOriginals
      → (i : Item) (p : Promotion O.State) → (one i p).failed ≡ false
      → O.holds (original i) (one i p).objects ≡ true
  unfolding promote_one
  one-holds apart i p h =
      let staged = (O.put_file (staging i) i.upload.temporary_path p.objects).0 in
      ground (
        arith,
        O.copy-holds (staging i) (original i) staged,
        O.remove-other (staging i) (original i) (O.copy (staging i) (original i) staged).0,
        staging-ne apart i (original i) (original-bucket i),
      )

  one-keeps :
      HasOriginals
      → (i : Item) (p : Promotion O.State) (q : ObjectRef) → q.bucket ≡ buckets.originals
      → (one i p).failed ≡ false
      → O.holds q p.objects ≡ true
      → O.holds q (one i p).objects ≡ true
  unfolding promote_one
  one-keeps apart i p q b h there = elim (Bool-cases (original i == q)) [
    | inl same ↦
        subst (λ r. O.holds r (one i p).objects ≡ true) ((ref_beq_iff (original i) q).0 same)
          (one-holds apart i p h)
    | inr differs ↦
        let staged = (O.put_file (staging i) i.upload.temporary_path p.objects).0 in
        ground (
          arith,
          O.put-other (staging i) q i.upload.temporary_path p.objects,
          O.copy-other (staging i) (original i) q staged,
          O.remove-other (staging i) q (O.copy (staging i) (original i) staged).0,
          staging-ne apart i q b,
        )
  ]

  every-step :
      (i : Item) (is : List Item) (p : Promotion O.State)
      → (every (i ∷ is) p).failed ≡ false
      → ((one i p).failed ≡ false) × (every (i ∷ is) p ≡ every is (one i p))
  unfolding promote_all
  every-step i is p h = ground arith

  every-lists :
      (is : List Item) (p : Promotion O.State)
      → (every is p).failed ≡ false
      → (every is p).promoted ≡ p.promoted ++ map original is
  every-lists [] p h = unfold promote_all in sym (append-nil p.promoted)
  every-lists (i ∷ is) p h =
      let (done, same) = every-step i is p h in
      ap (λ v. v.promoted) same
      ∙ every-lists is (one i p) (ap (λ v. v.failed) (sym same) ∙ h)
      ∙ ap (λ l. l ++ map original is) (one-lists i p done)
      ∙ append_assoc p.promoted (original i ∷ []) (map original is)

  every-keeps :
      HasOriginals
      → (is : List Item) (p : Promotion O.State) (q : ObjectRef) → q.bucket ≡ buckets.originals
      → (every is p).failed ≡ false
      → O.holds q p.objects ≡ true
      → O.holds q (every is p).objects ≡ true
  every-keeps apart [] p q b h there = unfold promote_all in there
  every-keeps apart (i ∷ is) p q b h there =
      let (done, same) = every-step i is p h in
      ap (λ v. O.holds q v.objects) same
      ∙ every-keeps apart is (one i p) q b (ap (λ v. v.failed) (sym same) ∙ h)
          (one-keeps apart i p q b done there)

  -- a promotion that does not throw leaves every original in the storage
  promoted-holds :
      HasOriginals
      → (is : List Item) (p : Promotion O.State) → (every is p).failed ≡ false
      → All (λ i. O.holds (original i) (every is p).objects ≡ true) is
  promoted-holds apart [] p h = tt
  promoted-holds apart (i ∷ is) p h =
      let (done, same) = every-step i is p h in
      let h' : (every is (one i p)).failed ≡ false = ap (λ v. v.failed) (sym same) ∙ h in
      subst (λ v. All (λ j. O.holds (original j) v.objects ≡ true) (i ∷ is)) (sym same)
        (
          every-keeps apart is (one i p) (original i) (original-bucket i) h'
              (one-holds apart i p done),
          promoted-holds apart is (one i p) h',
        )

  -- what a promotion from the start that does not throw leaves
  pub promoted_from-holds :
      HasOriginals
      → (is : List Item) (p : Promotion O.State) (objects : O.State)
      → p ≡ promoted_from O buckets request_id post_id is objects
      → p.failed ≡ false
      → (p.promoted ≡ map original is) × All (λ i. O.holds (original i) p.objects ≡ true) is
  promoted_from-holds apart is p objects is_p kept =
      let start : Promotion O.State = record { objects = objects; promoted = []; failed = false } in
      let ended = ap (λ v. v.failed) (sym is_p) ∙ kept in
      (
        ap (λ v. v.promoted) is_p ∙ every-lists is start ended,
        subst (λ v. All (λ i. O.holds (original i) v.objects ≡ true) is) (sym is_p)
            (promoted-holds apart is start ended),
      )

module _ (O : ObjectStorage) where
  -- a compensation whose removal succeeds leaves no original that was promoted
  pub compensated-gone :
      (promoted : List ObjectRef) (objects : O.State) (q : ObjectRef)
      → (O.remove_many promoted objects).1 ≡ true
      → listed q promoted ≡ true
      → O.holds q (compensate_promoted_originals O promoted objects) ≡ false
  unfolding compensate_promoted_originals
  compensated-gone [] objects q h l = ground arith
  compensated-gone (r ∷ rs) objects q h l = O.remove_many-gone (r ∷ rs) q objects h l
