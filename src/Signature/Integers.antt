-- ===== src/Signature/Integers.antt =====
-- parseVariableInteger of libs/media/src/validation/signature-detector.service.ts
use mathlib.Core.Path.{subst}
use posts_media.Common.{
  sym, ℕ, zero, suc, ◌+◌, ◌-◌, ◌*◌, ◌/◌, ◌%◌, ◌^◌, ◌≤◌, ◌<◌, ◌≡◌, Bool, ◌||◌, Option, none, some,
  List, [], ◌∷◌, ◌==◌, nat_eq, ltb, length, drop, take, if◌then◌else◌, arith,
}

pub record VariableInteger : Type 0 where
  pub length : ℕ
  pub value : ℕ

-- The loop over the marker, which is `2 ^ k`: the first byte is not 0, so a bit is found by k = 0.
unfoldable marker_bit : ℕ → ℕ → ℕ
marker_bit first zero = 0
marker_bit first (suc k) =
    let rest = marker_bit first k in if first / 2 ^ suc k % 2 == 0 then rest else suc k

-- `value = value * 256 + byte` over the bytes
abbrev append_bytes : ℕ → List ℕ → ℕ
append_bytes value [] = value
append_bytes value (b ∷ bytes) = append_bytes (value * 256 + b) bytes

-- the two tests, on the first byte, the end of the integer, and its value
unfoldable accepted : (limit first total offset length' value : ℕ) → Option VariableInteger
accepted limit first total offset length' value =
    if first == 0 || ltb total (offset + length')
    then none
    else if ltb value limit
    then some (record { length = length'; value = value })
    else none

unfoldable first_length : ℕ → ℕ
unfolding marker_bit
first_length first = 8 - marker_bit first 7

-- on the bytes from the offset on
unfoldable parse_bytes : List ℕ → (total offset : ℕ) (retain_marker : Bool) → Option VariableInteger
unfolding accepted first_length
parse_bytes [] total offset retain_marker = none
parse_bytes (first ∷ rest) total offset retain_marker =
    let length' = first_length first in
    let start = if retain_marker then first else first % 2 ^ (8 - length') in
    accepted (2 ^ 53) first total offset length' (append_bytes start (take (length' - 1) rest))

unfoldable pub parse_variable_integer :
    (buffer : List ℕ) (offset : ℕ) (retain_marker : Bool) → Option VariableInteger
unfolding parse_bytes
parse_variable_integer buffer offset retain_marker =
    parse_bytes (drop offset buffer) (length buffer) offset retain_marker

marker_bit-le : (first k : ℕ) → marker_bit first k ≤ k
unfolding marker_bit
marker_bit-le first zero = omega arith
marker_bit-le first (suc k) = ground (arith, marker_bit-le first k)

first_length-bounds : (first : ℕ) → (0 < first_length first) × (first_length first ≤ 8)
unfolding first_length
first_length-bounds first = ground (arith, marker_bit-le first 7)

accepted-bounds :
    (limit first total offset length' value : ℕ) (i : VariableInteger)
    → accepted limit first total offset length' value ≡ some i
    → (i.length ≡ length') × (offset + i.length ≤ total) × (i.value < limit)
unfolding accepted
accepted-bounds limit first total offset length' value i h = ground arith

parse_bytes-bounds :
    (bytes : List ℕ) (total offset : ℕ) (retain_marker : Bool) (i : VariableInteger)
    → parse_bytes bytes total offset retain_marker ≡ some i
    → (0 < i.length) × (i.length ≤ 8) × (offset + i.length ≤ total) × (i.value < 2 ^ 53)
unfolding parse_bytes
parse_bytes-bounds [] total offset retain_marker i h = ground arith
parse_bytes-bounds (first ∷ rest) total offset retain_marker i h =
    let start = if retain_marker then first else first % 2 ^ (8 - first_length first) in
    let (same, fits, safe) =
      accepted-bounds (2 ^ 53) first total offset (first_length first)
        (append_bytes start (take (first_length first - 1) rest)) i h in
    let (positive, short) = first_length-bounds first in
    (subst (λ n. 0 < n) (sym same) positive, subst (λ n. n ≤ 8) (sym same) short, fits, safe)

-- A variable-length integer that is read has 1 to 8 bytes, ends inside the buffer, and has a value
-- below 2^53.
pub parse-bounds :
    (buffer : List ℕ) (offset : ℕ) (retain_marker : Bool) (i : VariableInteger)
    → parse_variable_integer buffer offset retain_marker ≡ some i
    → (0 < i.length) × (i.length ≤ 8) × (offset + i.length ≤ length buffer) × (i.value < 2 ^ 53)
unfolding parse_variable_integer
parse-bounds buffer offset = parse_bytes-bounds (drop offset buffer) (length buffer) offset
