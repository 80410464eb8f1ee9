-- ===== src/Configuration/Readers/Bounds.antt =====
-- What the readers promise of the values that they return.
use mathlib.Core.Path.{subst}
use posts_media.Common.{
  ℕ, ◌≤◌, ◌<◌, String, Text, ◌≡◌, refl, true, Option, none, some, List, [], ◌∷◌, any, length, ◌==◌,
  string_eq, codes, trim, ltb, arith, Bool-cases, inl, inr, beq_refl, ◌||◌,
}
use posts_media.Signature.Containers.{same_bytes}
use posts_media.Configuration.Readers.{
  Environment, Reason, Parsed, parsed, failed, ◌>>=◌, set_if, read_as, is_base_10, number_from,
  max_safe_integer, in_range, integer_of, supported_value, supported_or_failed, required_string,
  integer, one_of,
}

-- what holds of the value, if there is one
pub record Ensures {A : Type 0} (P : A → Type 0) (r : Parsed A) : Type 0 where
  pub holds : (a : A) → r ≡ parsed a → P a

parsed_injective : {A : Type 0} (a b : A) → parsed a ≡ parsed b → a ≡ b
parsed_injective a b h = ground arith

pub value : {A : Type 0} {P : A → Type 0} (a : A) → P a → Ensures P (parsed a)
value {P = P} a p = record { holds = λ b same. subst P (parsed_injective a b same) p }

pub nothing :
    {A : Type 0} {P : A → Type 0} (name : String) (reason : Reason) → Ensures P (failed name reason)
nothing name reason = record { holds = λ b same. ground arith }

pub ensures_bind :
    {A B : Type 0} {P : A → Type 0} {Q : B → Type 0} {r : Parsed A} {f : A → Parsed B}
    → Ensures P r
    → ((a : A) → P a → Ensures Q (f a))
    → Ensures Q (r >>= f)
ensures_bind {r = parsed a} h k = k a (h.holds a refl)
ensures_bind {r = failed name reason} h k = nothing name reason

pub anything : {A : Type 0} (r : Parsed A) → Ensures (λ a. Unit {0}) r
anything r = record { holds = λ a same. tt }

-- a text that is not empty
abbrev pub HasText : Text → Type 0
HasText t = 0 < length t

abbrev pub NoMore : Option ℕ → ℕ → Type 0
NoMore none n = n ≤ max_safe_integer
NoMore (some max) n = n ≤ max

abbrev pub IsWithin : ℕ → Option ℕ → ℕ → Type 0
IsWithin min max n = (min ≤ n) × NoMore max n

abbrev pub IsPort : ℕ → Type 0
IsPort n = IsWithin 1 (some 65535) n

abbrev pub IsOneOf : List String → String → Type 0
IsOneOf supported s = any (λ c. s == c) supported ≡ true

set_if-HasText : (name : String) (t : Text) → Ensures HasText (set_if name t)
set_if-HasText name [] = nothing name Reason.must_be_set
set_if-HasText name (c ∷ cs) = value (c ∷ cs) (omega arith)

read_as-HasText : (name : String) (found : Option Text) → Ensures HasText (read_as name found)
read_as-HasText name none = nothing name Reason.must_be_set
read_as-HasText name (some t) = set_if-HasText name (trim t)

pub required_string-HasText :
    (environment : Environment) (name : String) → Ensures HasText (required_string environment name)
unfolding required_string
required_string-HasText environment name = read_as-HasText name (environment name)

in_range-IsWithin :
    (name : String) (min : ℕ) (max : Option ℕ) (n : ℕ)
    → Ensures (IsWithin min max) (in_range name min max n)
in_range-IsWithin name min none n = elim (Bool-cases (ltb max_safe_integer n || ltb n min)) [
  | inl out ↦ rw out (nothing name (Reason.at_least min))
  | inr kept ↦ rw kept (value n (ground arith, ground arith))
]
in_range-IsWithin name min (some max) n = elim (Bool-cases (ltb max_safe_integer n || ltb n min)) [
  | inl out ↦ rw out (nothing name (Reason.at_least min))
  | inr kept ↦ elim (Bool-cases (ltb max n)) [
    | inl over ↦ rw (kept, over) (nothing name (Reason.at_most max))
    | inr under ↦ rw (kept, under) (value n (ground arith, ground arith))
  ]
]

integer_of-IsWithin :
    (name : String) (min : ℕ) (max : Option ℕ) (t : Text)
    → Ensures (IsWithin min max) (integer_of name min max t)
integer_of-IsWithin name min max t = elim (Bool-cases (is_base_10 t)) [
  | inl digits ↦ rw digits (in_range-IsWithin name min max (number_from 0 t))
  | inr other ↦ rw other (nothing name Reason.must_be_integer)
]

pub integer-IsWithin :
    (environment : Environment) (name : String) (min : ℕ) (max : Option ℕ)
    → Ensures (IsWithin min max) (integer environment name min max)
unfolding integer
integer-IsWithin environment name min max =
    ensures_bind (required_string-HasText environment name)
      (λ t set. integer_of-IsWithin name min max t)

supported_value-IsOneOf :
    (name : String) (all_of : List String) (t : Text) (candidates : List String)
    → ((c : String) → any (λ x. c == x) candidates ≡ true → IsOneOf all_of c)
    → Ensures (IsOneOf all_of) (supported_or_failed name all_of (supported_value t candidates))
supported_value-IsOneOf name all_of t [] h = nothing name (Reason.must_be_one_of all_of)
supported_value-IsOneOf name all_of t (c ∷ candidates) h =
    elim (Bool-cases (same_bytes t (codes c))) [
      | inl same ↦ rw same (value c (h c (rw (beq_refl c) refl)))
      | inr differs ↦
          rw differs
            (supported_value-IsOneOf name all_of t candidates (λ d there. h d (ground arith)))
    ]

pub one_of-IsOneOf :
    (environment : Environment) (name : String) (supported : List String)
    → Ensures (IsOneOf supported) (one_of environment name supported)
unfolding one_of
one_of-IsOneOf environment name supported =
    ensures_bind (required_string-HasText environment name)
      (λ t set. supported_value-IsOneOf name supported t supported (λ c there. there))
