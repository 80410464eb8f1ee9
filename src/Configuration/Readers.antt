-- ===== src/Configuration/Readers.antt =====
-- The readers of libs/configuration/src/environment.schema.ts. A value of the environment is its code
-- points.
pub mod Bounds
use posts_media.Common.{
  ℕ, ◌+◌, ◌-◌, ◌*◌, ◌^◌, String, Text, Bool, true, false, not, ◌&&◌, ◌||◌, Option, none, some, List,
  [], ◌∷◌, all, codes, trim, ltb, leb, nat_beq, if◌then◌else◌,
}
use posts_media.Signature.Containers.{same_bytes}

abbrev pub Environment : Type 0
Environment = String → Option Text

-- the reasons of the messages
pub data Reason : Type 0 where
  must_be_set must_be_integer true_or_false less_than_lease greater_than_interval : Reason
  at_least at_most : ℕ → Reason
  must_be_one_of : List String → Reason

-- a value, or an EnvironmentValidationError with the name and the reason
pub data Parsed (A : Type 0) : Type 0 where
  parsed : A → Parsed A
  failed : String → Reason → Parsed A

infixl 5 ◌>>=◌
abbrev pub ◌>>=◌ : {A B : Type 0} → Parsed A → (A → Parsed B) → Parsed B
parsed a >>= f = f a
failed name reason >>= f = failed name reason

abbrev pub set_if : String → Text → Parsed Text
set_if name [] = failed name Reason.must_be_set
set_if name (c ∷ cs) = parsed (c ∷ cs)

abbrev pub read_as : String → Option Text → Parsed Text
read_as name none = failed name Reason.must_be_set
read_as name (some t) = set_if name (trim t)

abbrev is_digit : ℕ → Bool
is_digit c = leb 48 c && leb c 57

-- `/^(?:0|[1-9][0-9]*)$/`
abbrev pub is_base_10 : Text → Bool
is_base_10 [] = false
is_base_10 (c ∷ cs) =
    (nat_beq c 48 && same_bytes cs []) || (leb 49 c && (leb c 57 && all is_digit cs))

-- `Number` of digits, exact as far as Number.MAX_SAFE_INTEGER, above which no integer is accepted
abbrev pub number_from : ℕ → Text → ℕ
number_from n [] = n
number_from n (c ∷ cs) = number_from (n * 10 + (c - 48)) cs

abbrev pub max_safe_integer : ℕ
max_safe_integer = 2 ^ 53 - 1

-- `toLowerCase` of the letters that are compared; no other letter has one of them as lower case
abbrev lower : Text → Text
lower [] = []
lower (c ∷ cs) = (if leb 65 c && leb c 90 then c + 32 else c) ∷ lower cs

abbrev pub at_most_if : String → ℕ → Option ℕ → Parsed ℕ
at_most_if name n none = parsed n
at_most_if name n (some max) = if ltb max n then failed name (Reason.at_most max) else parsed n

abbrev pub in_range : String → ℕ → Option ℕ → ℕ → Parsed ℕ
in_range name min max n =
    if ltb max_safe_integer n || ltb n min
    then failed name (Reason.at_least min)
    else at_most_if name n max

abbrev pub integer_of : String → ℕ → Option ℕ → Text → Parsed ℕ
integer_of name min max value =
    if not (is_base_10 value)
    then failed name Reason.must_be_integer
    else in_range name min max (number_from 0 value)

abbrev pub boolean_of : String → Text → Parsed Bool
boolean_of name value =
    if same_bytes value (codes "true")
    then parsed true
    else if same_bytes value (codes "false")
    then parsed false
    else failed name Reason.true_or_false

-- `supported.find((candidate) => candidate === value)`
abbrev pub supported_value : Text → List String → Option String
supported_value value [] = none
supported_value value (c ∷ candidates) =
    let rest = supported_value value candidates in
    if same_bytes value (codes c) then some c else rest

abbrev pub supported_or_failed : String → List String → Option String → Parsed String
supported_or_failed name supported none = failed name (Reason.must_be_one_of supported)
supported_or_failed name supported (some candidate) = parsed candidate

module _ (environment : Environment) (name : String) where
  unfoldable pub required_string : Parsed Text
  required_string = read_as name (environment name)

  unfoldable pub integer : (min : ℕ) → (max : Option ℕ) → Parsed ℕ
  integer min max = required_string >>= λ value. integer_of name min max value

  abbrev pub port : Parsed ℕ
  port = integer 1 (some 65535)

  unfoldable pub boolean : Parsed Bool
  boolean = required_string >>= λ value. boolean_of name (lower value)

  unfoldable pub one_of : List String → Parsed String
  one_of supported = required_string >>= λ value.
      supported_or_failed name supported (supported_value value supported)
