-- ===== src/Examples/Values.antt =====
-- Messages, statuses, error codes, job ids and signatures.
use posts_media.Common.{
  ℕ, ◌≡◌, ◌≢◌, ◌↔◌, ◌⊎◌, refl, true, false, some, List, [], ◌∷◌, codes, arith, string_eq, length,
  is_some,
}
use posts_media.Domain.Enums.{MediaType, ProcessingStatus, PostAggregateStatus}
use posts_media.Domain.Aggregate.{calculate_post_aggregate_status}
use posts_media.Domain.Aggregate.Laws.{aggregate_iff, NoneIs, AllAre}
use posts_media.Domain.Result.{ok}
use posts_media.Processing.Message.{safe_processing_error_message}
use posts_media.Processing.Message.Codes.{safe_processing_error_message-IsCode, IsCode, Tag}
use posts_media.Signature.{detect_header_signature, known, starts_with}
use posts_media.Signature.Integers.{parse_variable_integer}
use posts_media.Signature.Containers.{ebml_elements, ebml_elements-ends}
use posts_media.Signature.Policies.{has_policy, detected-has_policy}

safe_processing_error_message-IsCode_example :
    ((safe_processing_error_message (codes "ENOENT: /tmp/a") ≡ codes "Media processing failed.")
      ⊎ IsCode (safe_processing_error_message (codes "ENOENT: /tmp/a")))
    × (safe_processing_error_message (codes "FFMPEG_FAILED: /tmp/a") ≡ codes "FFMPEG_FAILED")
safe_processing_error_message-IsCode_example =
    safe_processing_error_message-IsCode (codes "ENOENT: /tmp/a") Tag.ffmpeg (codes "FAILED")
      (codes " /tmp/a") (ground arith) (ground arith)

abbrev statuses : List ProcessingStatus
statuses = ProcessingStatus.completed ∷ ProcessingStatus.failed ∷ []

aggregate_iff_example :
    let agg = calculate_post_aggregate_status statuses in
    ((agg ≡ PostAggregateStatus.no_media) ↔ (statuses ≡ []))
    × ((agg ≡ PostAggregateStatus.processing) ↔ ¬ NoneIs ProcessingStatus.processing statuses)
    × ((agg ≡ PostAggregateStatus.completed)
        ↔ ((statuses ≢ []) × AllAre ProcessingStatus.completed statuses))
    × ((agg ≡ PostAggregateStatus.pending)
        ↔ ((statuses ≢ []) × AllAre ProcessingStatus.pending statuses))
    × ((agg ≡ PostAggregateStatus.failed)
        ↔ ((statuses ≢ []) × AllAre ProcessingStatus.failed statuses))
aggregate_iff_example = aggregate_iff statuses

abbrev generation : ℕ
generation = 2

abbrev jpeg : List ℕ
jpeg = 255 ∷ 216 ∷ 255 ∷ 224 ∷ []

is_jpeg : detect_header_signature jpeg ≡ ok (known "jpeg" "image/jpeg" MediaType.image)
unfolding detect_header_signature starts_with
is_jpeg = refl

detected-has_policy_example : has_policy (known "jpeg" "image/jpeg" MediaType.image) ≡ true
detected-has_policy_example =
    detected-has_policy jpeg (known "jpeg" "image/jpeg" MediaType.image) MediaType.image is_jpeg
      refl

-- the start of a WebM file: the EBML header of a DocType element
abbrev webm : List ℕ
webm = 26 ∷ 69 ∷ 223 ∷ 163 ∷ 135 ∷ 66 ∷ 130 ∷ 132 ∷ 119 ∷ 101 ∷ 98 ∷ 109 ∷ []

header_size : parse_variable_integer webm 4 false ≡ some (record { length = 1; value = 7 })
unfolding parse_variable_integer
header_size = refl

ebml_elements-ends_example :
    (is_some (ebml_elements (length webm) webm 5 12) ≡ true)
    × (ebml_elements 7 webm 5 12 ≡ ebml_elements (length webm) webm 5 12)
ebml_elements-ends_example = ebml_elements-ends 7 webm 5 12 (omega arith) (omega arith)
