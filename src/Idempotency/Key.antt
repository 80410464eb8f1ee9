-- ===== src/Idempotency/Key.antt =====
-- libs/database/src/idempotency/idempotency-key.ts
use posts_media.Common.{
  ℕ, ◌≤◌, String, ◌≡◌, ◌↔◌, Bool, true, ◌&&◌, Option, none, some, List, [], ◌∷◌, All, all, length,
  leb, nat_beq, codes, if◌then◌else◌, arith,
}
use posts_media.Domain.Errors.{DomainError, ErrorCode}
use posts_media.Domain.Result.{Result, ok, err}

abbrev key_required : DomainError
key_required = record {
  code = ErrorCode.idempotency_key_required;
  message = "An Idempotency-Key header is required for this request.";
  http_status = 400;
  details = none;
}

abbrev key_invalid : DomainError
key_invalid = record {
  code = ErrorCode.idempotency_key_invalid;
  message = "The Idempotency-Key header must be 8-128 printable, non-whitespace characters.";
  http_status = 400;
  details = none;
}

-- `[\x21-\x7E]`
abbrev pub is_key_char : ℕ → Bool
is_key_char c = leb 0x21 c && leb c 0x7E

-- IDEMPOTENCY_KEY_PATTERN. A character outside the basic plane is two code units, and fails the
-- class either way.
matches_pattern : List ℕ → Bool
matches_pattern key = all is_key_char key && leb 8 (length key) && leb (length key) 128

unfoldable pub validate_idempotency_key : Option String → Result String
unfolding matches_pattern
validate_idempotency_key none = err key_required
validate_idempotency_key (some key) =
    if nat_beq (length (codes key)) 0
    then err key_required
    else if matches_pattern (codes key)
    then ok key
    else err key_invalid

abbrev pub IsKeyChar : ℕ → Type 0
IsKeyChar c = (0x21 ≤ c) × (c ≤ 0x7E)

all-IsKeyChar : (cs : List ℕ) → (all is_key_char cs ≡ true) ↔ All IsKeyChar cs
all-IsKeyChar [] = ground arith
all-IsKeyChar (c ∷ cs) = ground (arith, all-IsKeyChar cs)

-- A key is accepted, and returned as it is, exactly when it has 8 to 128 characters, each a visible
-- ASCII character.
pub validate-eq-ok_iff :
    (key : String)
    → (validate_idempotency_key (some key) ≡ ok key)
      ↔ (All IsKeyChar (codes key) × (8 ≤ length (codes key)) × (length (codes key) ≤ 128))
unfolding validate_idempotency_key
validate-eq-ok_iff key = ground (arith, all-IsKeyChar (codes key))
