-- ===== src/Processing/Publication/Uploading.antt =====
-- The loop of a publication over its artifacts.
use mathlib.Core.Path.{subst}
use posts_media.Common.{
  ℕ, String, ◌≡◌, refl, sym, ap, ◌∙◌, true, false, List, [], ◌∷◌, ◌++◌, ◌==◌, map, All, string_eq,
  arith, Bool-cases, All-imp, inl, inr,
}
use mathlib.Core.List.{append_assoc, append-nil}
use posts_media.Domain.Result.{returned}
use posts_media.Storage.{
  ObjectRef, ObjectStorage, Buckets, listed, ref_eq, ref_beq_iff, processing_temp_key,
  processed_attempt_key,
}
use posts_media.Schema.{Media}
use posts_media.Processing.Publication.{
  ProcessedArtifact, Files, Uploads, upload_one, upload_all, final_of, temp_of,
}

module _ (O : ObjectStorage) (buckets : Buckets) (files : Files) (media_id : String) (media : Media)
    (generation : ℕ) (attempt_id : String) where
  abbrev pub one : ProcessedArtifact → Uploads O.State → Uploads O.State
  one = upload_one O buckets files media_id media generation attempt_id

  abbrev pub all_of : List ProcessedArtifact → Uploads O.State → Uploads O.State
  all_of = upload_all O buckets files media_id media generation attempt_id

  abbrev pub temp : ProcessedArtifact → ObjectRef
  temp = temp_of O buckets files media_id media generation attempt_id

  abbrev pub final : ProcessedArtifact → ObjectRef
  final = final_of O buckets files media_id media generation attempt_id

  one-lists :
      (a : ProcessedArtifact) (u : Uploads O.State)
      → (one a u).outcome ≡ returned tt
      → ((one a u).finals ≡ u.finals ++ final a ∷ [])
        × ((one a u).temporary ≡ u.temporary ++ temp a ∷ [])
  unfolding upload_one
  one-lists a u h = ground arith

  one-holds :
      (a : ProcessedArtifact) (u : Uploads O.State)
      → (one a u).outcome ≡ returned tt
      → O.holds (final a) (one a u).objects ≡ true
  unfolding upload_one
  one-holds a u h = ground (arith, O.stat-holds (final a) (one a u).objects)

  one-keeps :
      (a : ProcessedArtifact) (u : Uploads O.State) (q : ObjectRef)
      → (one a u).outcome ≡ returned tt
      → (temp a == q) ≡ false
      → O.holds q u.objects ≡ true
      → O.holds q (one a u).objects ≡ true
  unfolding upload_one
  one-keeps a u q h other there = elim (Bool-cases (final a == q)) [
    | inl same ↦
        subst (λ r. O.holds r (one a u).objects ≡ true) ((ref_beq_iff (final a) q).0 same)
          (one-holds a u h)
    | inr differs ↦ ground (
      arith,
      O.put-other (temp a) q a.path u.objects,
      O.copy-other (temp a) (final a) q (O.put_file (temp a) a.path u.objects).0,
    )
  ]

  all-step :
      (a : ProcessedArtifact) (artifacts : List ProcessedArtifact) (u : Uploads O.State)
      → (all_of (a ∷ artifacts) u).outcome ≡ returned tt
      → ((one a u).outcome ≡ returned tt) × (all_of (a ∷ artifacts) u ≡ all_of artifacts (one a u))
  unfolding upload_all
  all-step a artifacts u h = ground arith

  pub all-finals :
      (artifacts : List ProcessedArtifact) (u : Uploads O.State)
      → (all_of artifacts u).outcome ≡ returned tt
      → (all_of artifacts u).finals ≡ u.finals ++ map final artifacts
  all-finals [] u h = unfold upload_all in sym (append-nil u.finals)
  all-finals (a ∷ artifacts) u h =
      let (done, same) = all-step a artifacts u h in
      ap (λ v. v.finals) same
      ∙ all-finals artifacts (one a u) (ap (λ v. v.outcome) (sym same) ∙ h)
      ∙ ap (λ l. l ++ map final artifacts) (one-lists a u done).0
      ∙ append_assoc u.finals (final a ∷ []) (map final artifacts)

  -- keys of the temporary bucket are no keys of the processed bucket
  abbrev pub HasBuckets : Type 0
  HasBuckets = (buckets.temporary == buckets.processed) ≡ false

  all-keeps :
      HasBuckets
      → (artifacts : List ProcessedArtifact) (u : Uploads O.State) (q : ObjectRef)
      → q.bucket ≡ buckets.processed
      → (all_of artifacts u).outcome ≡ returned tt
      → O.holds q u.objects ≡ true
      → O.holds q (all_of artifacts u).objects ≡ true
  all-keeps apart [] u q b h there = unfold upload_all in there
  all-keeps apart (a ∷ artifacts) u q b h there =
      let (done, same) = all-step a artifacts u h in
      ap (λ v. O.holds q v.objects) same
      ∙ all-keeps apart artifacts (one a u) q b (ap (λ v. v.outcome) (sym same) ∙ h)
          (one-keeps a u q done (unfold processing_temp_key in rw (b, apart)) there)

  pub All-holds :
      HasBuckets
      → (artifacts : List ProcessedArtifact) (u : Uploads O.State)
      → (all_of artifacts u).outcome ≡ returned tt
      → All (λ a. O.holds (final a) (all_of artifacts u).objects ≡ true) artifacts
  All-holds apart [] u h = tt
  All-holds apart (a ∷ artifacts) u h =
      let (done, same) = all-step a artifacts u h in
      let h' : (all_of artifacts (one a u)).outcome ≡ returned tt =
        ap (λ v. v.outcome) (sym same) ∙ h in
      subst (λ v. All (λ b. O.holds (final b) v.objects ≡ true) (a ∷ artifacts)) (sym same)
        (
          all-keeps apart artifacts (one a u) (final a) (unfold processed_attempt_key in refl) h'
              (one-holds a u done),
          All-holds apart artifacts (one a u) h',
        )

  pub all-temps :
      (artifacts : List ProcessedArtifact) (u : Uploads O.State)
      → (all_of artifacts u).outcome ≡ returned tt
      → (all_of artifacts u).temporary ≡ u.temporary ++ map temp artifacts
  all-temps [] u h = unfold upload_all in sym (append-nil u.temporary)
  all-temps (a ∷ artifacts) u h =
      let (done, same) = all-step a artifacts u h in
      ap (λ v. v.temporary) same
      ∙ all-temps artifacts (one a u) (ap (λ v. v.outcome) (sym same) ∙ h)
      ∙ ap (λ l. l ++ map temp artifacts) (one-lists a u done).1
      ∙ append_assoc u.temporary (temp a ∷ []) (map temp artifacts)

  pub temps-other :
      HasBuckets
      → (artifacts : List ProcessedArtifact) (q : ObjectRef) → q.bucket ≡ buckets.processed
      → listed q (map temp artifacts) ≡ false
  unfolding processing_temp_key
  temps-other apart [] q b = refl
  temps-other apart (a ∷ artifacts) q b =
      let rest = temps-other apart artifacts q b in rw (b, apart) rest

  listed-map :
      (artifacts : List ProcessedArtifact)
      → All (λ a. listed (final a) (map final artifacts) ≡ true) artifacts
  listed-map [] = tt
  listed-map (a ∷ artifacts) = (
    ground (arith, ref_beq_iff (final a) (final a)),
    All-imp (λ b h. ground (arith, h)) artifacts (listed-map artifacts),
  )

  listed-after :
      (q : ObjectRef) (first rest : List ObjectRef)
      → listed q rest ≡ true
      → listed q (first ++ rest) ≡ true
  listed-after q [] rest h = h
  listed-after q (r ∷ first) rest h = let there = listed-after q first rest h in ground arith

  pub finals-listed :
      (artifacts : List ProcessedArtifact) (temporary : List ObjectRef)
      → All (λ a. listed (final a) (temporary ++ map final artifacts) ≡ true) artifacts
  finals-listed artifacts temporary =
      All-imp (λ a. listed-after (final a) temporary (map final artifacts)) artifacts
        (listed-map artifacts)
