-- ===== src/Inspection/Numbers/Order.antt =====
-- The order of the numbers, and what their maximum says of each of them.
use native.Mathlib.Nat.{mul-le-mul_right, le_of_mul-le-mul_right}
use posts_media.Common.{
  ℕ, zero, suc, ◌*◌, ◌^◌, ◌≤◌, ◌<◌, ◌≡◌, refl, true, false, Option, none, some, List, [], ◌∷◌, All,
  arith, Bool-cases, inl, inr,
}
use posts_media.Inspection.Numbers.{Number, of_nat, is_finite, above, larger, maximum_from}

two-pow_pos : (k : ℕ) → 0 < 2 ^ k
two-pow_pos zero = omega arith
two-pow_pos (suc k) = omega (arith, two-pow_pos k)

-- fractions a / x ≤ b / y ≤ c / z
fractions_trans : (a x b y c z : ℕ) → 0 < y → a * y ≤ b * x → b * z ≤ c * y → a * z ≤ c * x
fractions_trans a x b y c z h first second =
    le_of_mul-le-mul_right {k = y}
      (grind (arith, mul-le-mul_right z first, mul-le-mul_right x second)) h

-- a finite number above 0
abbrev pub IsPositive : Number → Type 0
IsPositive v = (is_finite v ≡ true) × (above v (of_nat 0) ≡ true)

not_above_trans :
    (n : ℕ) (u v : Number)
    → IsPositive u
    → IsPositive v
    → above u v ≡ false
    → above v (of_nat n) ≡ false
    → above u (of_nat n) ≡ false
not_above_trans n (Number.finite false a k) (Number.finite false b l) p q first second =
    let le =
      fractions_trans a (2 ^ k) b (2 ^ l) n 1 (two-pow_pos l) (ground arith) (ground arith) in
    ground (arith, le)
not_above_trans n (Number.finite true a k) v p q first second = refl
not_above_trans n (Number.finite false a k) (Number.finite true b l) p (_, q) first second =
    ground arith
not_above_trans n (Number.finite false a k) Number.nan p (q, _) first second = ground arith
not_above_trans n (Number.finite false a k) Number.infinity p (q, _) first second = ground arith
not_above_trans n (Number.finite false a k) Number.minus_infinity p (q, _) first second =
    ground arith
not_above_trans n Number.nan v (p, _) q first second = ground arith
not_above_trans n Number.infinity v (p, _) q first second = ground arith
not_above_trans n Number.minus_infinity v (p, _) q first second = ground arith

above-asym : (u v : Number) → IsPositive u → above v u ≡ true → above u v ≡ false
above-asym (Number.finite false a k) (Number.finite false b l) p h = ground arith
above-asym (Number.finite false a k) (Number.finite true b l) p h = ground arith
above-asym (Number.finite true a k) v (_, p) h = ground arith
above-asym (Number.finite false a k) Number.nan p h = ground arith
above-asym (Number.finite false a k) Number.infinity p h = refl
above-asym (Number.finite false a k) Number.minus_infinity p h = ground arith
above-asym Number.nan v (p, _) h = ground arith
above-asym Number.infinity v (p, _) h = ground arith
above-asym Number.minus_infinity v (p, _) h = ground arith

abbrev pub IfPositive : Option Number → Type 0
IfPositive none = Unit
IfPositive (some v) = IsPositive v

-- at most a natural number, if there is one
abbrev pub AtMost : ℕ → Option Number → Type 0
AtMost n none = Unit
AtMost n (some v) = above v (of_nat n) ≡ false

larger-IfPositive : (m v : Option Number) → IfPositive m → IfPositive v → IfPositive (larger m v)
larger-IfPositive none none p q = tt
larger-IfPositive none (some v) p q = q
larger-IfPositive (some m) none p q = p
larger-IfPositive (some m) (some v) p q = elim (Bool-cases (above v m)) [
  | inl greater ↦ rw greater q
  | inr kept ↦ rw kept p
]

larger-AtMost :
    (n : ℕ) (m v : Option Number)
    → IfPositive m
    → IfPositive v
    → AtMost n (larger m v)
    → AtMost n m × AtMost n v
larger-AtMost n none none p q h = (tt, tt)
larger-AtMost n none (some v) p q h = (tt, h)
larger-AtMost n (some m) none p q h = (h, tt)
larger-AtMost n (some m) (some v) p q h = elim (Bool-cases (above v m)) [
  | inl greater ↦
      let below : above v (of_nat n) ≡ false = rw greater at h in
      (not_above_trans n m v p q (above-asym m v p greater) below, below)
  | inr kept ↦
      let below : above m (of_nat n) ≡ false = rw kept at h in
      (below, not_above_trans n v m q p kept below)
]

-- a bound on the maximum bounds every number
pub maximum_from-AtMost :
    (n : ℕ) (m : Option Number) (vs : List (Option Number))
    → IfPositive m
    → All IfPositive vs
    → AtMost n (maximum_from m vs)
    → AtMost n m × All (AtMost n) vs
unfolding maximum_from
maximum_from-AtMost n m [] p ps h = (h, tt)
maximum_from-AtMost n m (v ∷ vs) p (q, ps) h =
    let (first, rest) = maximum_from-AtMost n (larger m v) vs (larger-IfPositive m v p q) ps h in
    let (old, new) = larger-AtMost n m v p q first in (old, (new, rest))
