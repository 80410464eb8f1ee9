-- ===== src/Domain/Result.antt =====
-- A use case returns its value or throws a DomainError.
use posts_media.Common.{◌≡◌, refl, Text, ◌⊎◌, inl, inr, arith}
use posts_media.Domain.Errors.{DomainError}

pub data Result {ℓ} (A : Type ℓ) : Type ℓ where
  ok : A → Result A
  err : DomainError → Result A

infixl 5 ◌>>=◌
abbrev pub ◌>>=◌ {ℓ κ} : {A : Type ℓ} {B : Type κ} → Result A → (A → Result B) → Result B
ok a >>= f = f a
err e >>= f = err e

-- A worker's call returns, or throws an Error of which the message is kept.
pub data Try {ℓ} (A : Type ℓ) : Type ℓ where
  returned : A → Try A
  thrown : Text → Try A

pub Try-cases {ℓ} :
    {A : Type ℓ} (t : Try A) → ((e : Text) × (t ≡ thrown e)) ⊎ ((a : A) × (t ≡ returned a))
Try-cases (thrown e) = inl (e, refl)
Try-cases (returned a) = inr (a, refl)

pub bind-ok {ℓ κ} :
    {A : Type ℓ} {B : Type κ} (r : Result A) (f : A → Result B) (b : B)
    → (r >>= f) ≡ ok b
    → (a : A) × ((r ≡ ok a) × (f a ≡ ok b))
bind-ok (ok a) f b h = (a, (refl, h))
bind-ok (err e) f b h = ground arith

pub ok-injective : {A : Type 0} (a b : A) → ok a ≡ ok b → a ≡ b
ok-injective a b h = ground arith

pub Result-cases {ℓ} :
    {A : Type ℓ} (r : Result A) → ((e : DomainError) × (r ≡ err e)) ⊎ ((a : A) × (r ≡ ok a))
Result-cases (err e) = inl (e, refl)
Result-cases (ok a) = inr (a, refl)

-- A request is answered, is refused with a DomainError, or fails with another error.
pub data Reply {ℓ} (A : Type ℓ) : Type ℓ where
  replied : A → Reply A
  rejected : DomainError → Reply A
  crashed : Reply A
