-- ===== src/Inspection/Numbers.antt =====
-- The numbers of JavaScript, as far as the inspectors compare them. A finite number is the fraction
-- of a mantissa by a power of two, and its sign.
pub mod Order
use posts_media.Common.{
  ℕ, ◌*◌, ◌^◌, ◌%◌, ◌≤◌, ◌≡◌, refl, Bool, true, false, not, ◌&&◌, ◌||◌, Option, none, some, List,
  [], ◌∷◌, ltb, nat_beq, if◌then◌else◌, arith,
}

pub data Number : Type 0 where
  nan infinity minus_infinity : Number
  finite : (negative : Bool) → (mantissa halvings : ℕ) → Number

abbrev pub of_nat : ℕ → Number
of_nat n = Number.finite false n 0

-- Number.isFinite and Number.isInteger
abbrev pub is_finite : Number → Bool
is_finite (Number.finite s m k) = true
is_finite _ = false

abbrev pub is_integer : Number → Bool
is_integer (Number.finite s m k) = nat_beq (m % 2 ^ k) 0
is_integer _ = false

-- of two finite numbers with the same denominator
abbrev signed_above : Bool → ℕ → Bool → ℕ → Bool
signed_above false a false b = ltb b a
signed_above false a true b = not (nat_beq a 0 && nat_beq b 0)
signed_above true a false b = false
signed_above true a true b = ltb a b

-- `a > b`
abbrev pub above : Number → Number → Bool
above (Number.finite s a k) (Number.finite t b l) = signed_above s (a * 2 ^ l) t (b * 2 ^ k)
above Number.infinity (Number.finite t b l) = true
above Number.infinity Number.minus_infinity = true
above (Number.finite s a k) Number.minus_infinity = true
above _ _ = false

-- Math.max; which of two zeros it takes is not seen
abbrev pub max_of : Number → Number → Number
max_of Number.nan b = Number.nan
max_of a Number.nan = Number.nan
max_of a b = if above b a then b else a

-- maximumDefined
abbrev larger : Option Number → Option Number → Option Number
larger maximum none = maximum
larger none (some v) = some v
larger (some m) (some v) = if above v m then some v else some m

unfoldable pub maximum_from : Option Number → List (Option Number) → Option Number
maximum_from maximum [] = maximum
maximum_from maximum (v ∷ vs) = maximum_from (larger maximum v) vs

abbrev pub maximum_defined : List (Option Number) → Option Number
maximum_defined values = maximum_from none values
