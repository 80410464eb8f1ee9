-- ===== src/Outbox/Backoff.antt =====
-- apps/worker/src/outbox/publication-backoff.service.ts. The random number is a fraction, and the
-- arithmetic is exact.
use native.Mathlib.Nat.{mul-div-le, mul-le-mul_left, lt_of_mul-lt-mul_left}
use posts_media.Common.{ℕ, ◌+◌, ◌-◌, ◌*◌, ◌/◌, ◌^◌, ◌≤◌, ◌<◌, ◌≡◌, leb, if◌then◌else◌, arith}

-- Math.min
abbrev lesser : ℕ → ℕ → ℕ
lesser a b = if leb a b then a else b

-- Math.ceil(a / b), for b > 0
abbrev ceil_div : ℕ → ℕ → ℕ
ceil_div a b = (a + (b - 1)) / b

unfoldable pub delay_ms :
    (next_attempt_number max_retry_delay_seconds : ℕ) (numerator denominator : ℕ) → ℕ
delay_ms next_attempt_number max_retry_delay_seconds numerator denominator =
    let capped_base =
      lesser (1000 * 2 ^ (next_attempt_number - 1)) (max_retry_delay_seconds * 1000) in
    -- Math.ceil(cappedBase + jitter), where jitter is the smaller of 0.25 and the random number,
    -- times the base
    let jittered =
      if leb denominator (4 * numerator)
      then capped_base + ceil_div capped_base 4
      else capped_base + ceil_div (capped_base * numerator) denominator in
    lesser (max_retry_delay_seconds * 1000) jittered

-- with a random number below a quarter, the jitter is below a quarter
ceil_div-quarter :
    (c numerator denominator : ℕ)
    → 4 * numerator < denominator
    → 4 * ceil_div (c * numerator) denominator ≤ c + 3
ceil_div-quarter c numerator denominator h =
    let q = ceil_div (c * numerator) denominator in
    let below : denominator * (4 * q) < denominator * (c + 4) = omega (
      arith,
      mul-div-le (c * numerator + (denominator - 1)) denominator,
      mul-le-mul_left {m = 4 * numerator} {n = denominator} c (omega arith),
    ) in
    omega (arith, lt_of_mul-lt-mul_left denominator below)

abbrev pub base_ms : ℕ → ℕ
base_ms next_attempt_number = 1000 * 2 ^ (next_attempt_number - 1)

-- The delay never exceeds the limit; it is at least the doubling base while that is under the
-- limit, and is the limit from there on; and it is at most a quarter above the base, rounded up.
pub delay_bounds :
    (n limit numerator denominator : ℕ)
    → 0 < denominator
    → (delay_ms n limit numerator denominator ≤ limit * 1000)
      × (base_ms n ≤ limit * 1000 → base_ms n ≤ delay_ms n limit numerator denominator)
      × (limit * 1000 ≤ base_ms n → delay_ms n limit numerator denominator ≡ limit * 1000)
      × (4 * delay_ms n limit numerator denominator ≤ 5 * base_ms n + 3)
unfolding delay_ms
delay_bounds n limit numerator denominator h =
    ground (arith, ceil_div-quarter (lesser (base_ms n) (limit * 1000)) numerator denominator)
