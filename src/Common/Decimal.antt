-- ===== src/Common/Decimal.antt =====
-- A number in a template string: its decimal digits, and that different numbers print differently.
use Prim.Native.Char.{Char, code}
use Prim.Native.String.{String, ◌∷◌ as cons_char}
use Prim.Native.Nat.{ℕ, zero, suc, ◌+◌, ◌-◌, ◌*◌, ◌/◌, ◌%◌, ◌<◌}
use mathlib.Core.Path.{◌≡◌, refl, sym, ap, ◌∙◌}
use native.Mathlib.Omega.{arith}
use posts_media.Common.Tests.{ltb, if◌then◌else◌, Bool-cases}
use mathlib.Core.Logic.{inl, inr}

digit : ℕ → Char
digit zero = "0"
digit (suc zero) = "1"
digit (suc (suc zero)) = "2"
digit (suc (suc (suc zero))) = "3"
digit (suc (suc (suc (suc zero)))) = "4"
digit (suc (suc (suc (suc (suc zero))))) = "5"
digit (suc (suc (suc (suc (suc (suc zero)))))) = "6"
digit (suc (suc (suc (suc (suc (suc (suc zero))))))) = "7"
digit (suc (suc (suc (suc (suc (suc (suc (suc zero)))))))) = "8"
digit (suc (suc (suc (suc (suc (suc (suc (suc (suc d))))))))) = "9"

-- fuel: a number has fewer digits than its successor
digits_before : ℕ → ℕ → String → String
digits_before zero n rest = rest
digits_before (suc fuel) n rest =
    let more = digits_before fuel (n / 10) (cons_char (digit (n % 10)) rest) in
    if ltb n 10 then cons_char (digit n) rest else more

-- `${n}`
unfoldable pub decimal : ℕ → String
unfolding digits_before digit
decimal n = digits_before (suc n) n ""

read_after : ℕ → String → ℕ
read_after v String.[] = v
read_after v (String.◌∷◌ c s) = read_after (v * 10 + (code c - 48)) s

code-digit : (d : ℕ) → d < 10 → code (digit d) - 48 ≡ d
unfolding digit
code-digit zero h = refl
code-digit (suc zero) h = refl
code-digit (suc (suc zero)) h = refl
code-digit (suc (suc (suc zero))) h = refl
code-digit (suc (suc (suc (suc zero)))) h = refl
code-digit (suc (suc (suc (suc (suc zero))))) h = refl
code-digit (suc (suc (suc (suc (suc (suc zero)))))) h = refl
code-digit (suc (suc (suc (suc (suc (suc (suc zero))))))) h = refl
code-digit (suc (suc (suc (suc (suc (suc (suc (suc zero)))))))) h = refl
code-digit (suc (suc (suc (suc (suc (suc (suc (suc (suc zero))))))))) h = refl
code-digit (suc (suc (suc (suc (suc (suc (suc (suc (suc (suc d)))))))))) h = absurd (omega arith)

read-digits_before :
    (fuel n : ℕ) (rest : String)
    → n < fuel
    → read_after 0 (digits_before fuel n rest) ≡ read_after n rest
unfolding read_after digits_before
read-digits_before zero n rest h = elim h [ ]
read-digits_before (suc fuel) n rest h = elim (Bool-cases (ltb n 10)) [
  | inl small ↦ rw small (ap (λ v. read_after v rest) (omega (arith, code-digit n (ground arith))))
  | inr big ↦ rw big (
      read-digits_before fuel (n / 10) (cons_char (digit (n % 10)) rest) (ground arith)
      ∙ ap (λ v. read_after v rest) (omega (arith, code-digit (n % 10) (omega arith))))
]

pub decimal_injective : (m n : ℕ) → decimal m ≡ decimal n → m ≡ n
unfolding decimal read_after
decimal_injective m n h =
    sym (read-digits_before (suc m) m "" (omega arith))
    ∙ ap (read_after 0) h
    ∙ read-digits_before (suc n) n "" (omega arith)
