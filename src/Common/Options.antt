-- ===== src/Common/Options.antt =====
-- Nullable columns.
use Prim.Native.Nat.{ℕ}
use Prim.Native.String.{String}
use mathlib.Core.Path.{◌≡◌, refl}
use mathlib.Core.Logic.{◌⊎◌, inl, inr}
use mathlib.Core.Bool.{Bool, true, false}
use mathlib.Core.Option.{Option, none, some}
use posts_media.Common.Tests.{leb, ◌==◌, string_eq}

abbrev pub is_some {ℓ} : {A : Type ℓ} → Option A → Bool
is_some none = false
is_some (some a) = true

-- `o ?? d`
abbrev pub or_else {ℓ} : {A : Type ℓ} → Option A → A → A
or_else none d = d
or_else (some a) d = a

-- a nullable text column equals a value
abbrev pub text_is : String → Option String → Bool
text_is t none = false
text_is t (some u) = u == t

-- `column <= now`, which no null satisfies
abbrev pub at_most : ℕ → Option ℕ → Bool
at_most now none = false
at_most now (some t) = leb t now

-- `column IS NULL OR column <= now`
abbrev pub none_or_at_most : ℕ → Option ℕ → Bool
none_or_at_most now none = true
none_or_at_most now (some t) = leb t now

pub Option-cases {ℓ} : {A : Type ℓ} (o : Option A) → (o ≡ none) ⊎ ((a : A) × (o ≡ some a))
Option-cases none = inl refl
Option-cases (some a) = inr (a, refl)
