-- ===== src/Validation/Batch.antt =====
-- What validateFiles promises of a whole request.
use posts_media.Common.{
  ℕ, suc, ◌+◌, ◌≤◌, ◌<◌, ◌≡◌, refl, ap, ◌⊎◌, inl, Option, none, some, List, [], ◌∷◌, All, length,
  arith,
}
use posts_media.Domain.Result.{Result, ok, err}
use posts_media.Validation.{
  maximum_total, checked, caught, entry, added, validate_file, preflight, outcomes_from, outcome_of,
  validate_files,
}
use posts_media.Validation.Uploads.{
  File, Limits, Tools, ValidatedUpload, FileValidationOutcome, accepted, refused,
}
use posts_media.Validation.Accepted.{IsSound, checked-IsSound}

-- the sizes of the accepted files, and their number
abbrev pub size_of : FileValidationOutcome → ℕ
size_of (accepted v) = v.size_bytes
size_of (refused e) = 0

abbrev pub number_of : FileValidationOutcome → ℕ
number_of (accepted v) = 1
number_of (refused e) = 0

abbrev pub accepted_size : List FileValidationOutcome → ℕ
accepted_size [] = 0
accepted_size (o ∷ os) = size_of o + accepted_size os

abbrev pub accepted_number : List FileValidationOutcome → ℕ
accepted_number [] = 0
accepted_number (o ∷ os) = number_of o + accepted_number os

abbrev pub IsSoundOutcome : Limits → FileValidationOutcome → Type 0
IsSoundOutcome limits (accepted v) = IsSound limits v
IsSoundOutcome limits (refused e) = Unit

-- a bound on what starts at a place, if there is anything
abbrev WithinFrom : ℕ → ℕ → ℕ → Type 0
WithinFrom start n bound = (n ≡ 0) ⊎ (start + n ≤ bound)

module _ (limits : Limits) (tools : Tools) where
  caught_sound :
      (file : File) (i size : ℕ) (r : Result ValidatedUpload)
      → ((v : ValidatedUpload) → r ≡ ok v → (v.size_bytes ≡ size) × IsSound limits v)
      → IsSoundOutcome limits (caught limits tools file i r)
        × (size_of (caught limits tools file i r) ≤ size)
        × (number_of (caught limits tools file i r) ≤ 1)
  caught_sound file i size (err e) h = (tt, omega arith, omega arith)
  caught_sound file i size (ok v) h =
      let (sizes, sound) = h v refl in (sound, omega (arith, sizes), omega arith)

  validated_file :
      (file : File) (i size : ℕ)
      → IsSoundOutcome limits (validate_file limits tools file i size)
        × (size_of (validate_file limits tools file i size) ≤ size)
        × (number_of (validate_file limits tools file i size) ≤ 1)
  unfolding validate_file
  validated_file file i size =
      caught_sound file i size (checked limits tools file i size)
        (checked-IsSound limits tools file i size)

  entry-ok :
      (i aggregate : ℕ) (s : Option ℕ) (size : ℕ)
      → entry limits tools i aggregate s ≡ ok size
      → (i < limits.max_files_per_request)
        × (aggregate + size ≤ maximum_total limits tools)
        × (added limits tools i aggregate s ≡ aggregate + size)
  entry-ok i aggregate none size h = ground arith
  entry-ok i aggregate (some n) size h = ground arith

  added-le : (i aggregate : ℕ) (s : Option ℕ) → aggregate ≤ added limits tools i aggregate s
  added-le i aggregate none = omega arith
  added-le i aggregate (some n) = ground arith

  -- one outcome before the others
  one_more :
      (file : File) (i aggregate aggregate' : ℕ) (r : Result ℕ) (size number : ℕ)
      → ((n : ℕ)
          → r ≡ ok n
          → (i < limits.max_files_per_request)
            × (aggregate + n ≤ maximum_total limits tools)
            × (aggregate' ≡ aggregate + n))
      → aggregate ≤ aggregate'
      → WithinFrom aggregate' size (maximum_total limits tools)
      → WithinFrom (suc i) number limits.max_files_per_request
      → IsSoundOutcome limits (outcome_of limits tools file i r)
        × WithinFrom aggregate
            (size_of (outcome_of limits tools file i r) + size)
            (maximum_total limits tools)
        × WithinFrom i
            (number_of (outcome_of limits tools file i r) + number)
            limits.max_files_per_request
  one_more file i aggregate aggregate' (err e) size number h grows sizes numbers =
      (tt, ground arith, ground arith)
  one_more file i aggregate aggregate' (ok n) size number h grows sizes numbers =
      let (early, small, next) = h n refl in
      let (sound, below, one) = validated_file file i n in (sound, ground arith, ground arith)

  batch_bounds :
      (i aggregate : ℕ) (files : List File)
      → let os = outcomes_from limits tools i files (preflight limits tools i aggregate files) in
        (length os ≡ length files)
        × All (IsSoundOutcome limits) os
        × WithinFrom aggregate (accepted_size os) (maximum_total limits tools)
        × WithinFrom i (accepted_number os) limits.max_files_per_request
  unfolding outcomes_from preflight
  batch_bounds i aggregate [] = (refl, tt, inl refl, inl refl)
  batch_bounds i aggregate (file ∷ files) =
      let s = tools.stat file.path in
      let next = added limits tools i aggregate s in
      let os =
        outcomes_from limits tools (suc i) files (preflight limits tools (suc i) next files) in
      let (lengths, sounds, sizes, numbers) = batch_bounds (suc i) next files in
      let (sound, size, number) =
        one_more file i aggregate next (entry limits tools i aggregate s) (accepted_size os)
          (accepted_number os) (entry-ok i aggregate s) (added-le i aggregate s) sizes numbers in
      (ap suc lengths, (sound, sounds), size, number)

  -- Every file of a request gets one outcome. An upload that is accepted is not empty, keeps to the
  -- limit of its media type, and agrees with the policy of its extension in its media type, its
  -- format, its detected type and, unless it was declared as application/octet-stream, its declared
  -- type. The accepted uploads keep to the limit of the whole request in their size and number.
  pub validate_files-IsSound :
      (files : List File)
      → let os = validate_files limits tools files in
        (length os ≡ length files)
        × All (IsSoundOutcome limits) os
        × (accepted_size os ≤ maximum_total limits tools)
        × (accepted_number os ≤ limits.max_files_per_request)
  unfolding validate_files
  validate_files-IsSound files =
      let (lengths, sounds, sizes, numbers) = batch_bounds 0 0 files in
      (lengths, sounds, ground arith, ground arith)
