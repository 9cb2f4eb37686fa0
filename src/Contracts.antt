-- ===== src/Contracts.antt =====
-- packages/face-auth/src/facetech_auth/contracts.py: the exception of the hardened profile, and
-- what the code raises by it.
use factech.Base.{ℕ, Option, none, String, ◌≡◌, refl}

-- Denied(code, status, retry_after); the message is text for people and is left out.
pub record Denied : Type 0 where
  pub code : String
  pub status : ℕ
  pub retry_after : Option ℕ

-- Denied()
abbrev pub denied : Denied
denied = record { code = "AUTHENTICATION_REQUIRED"; status = 401; retry_after = none }

-- Unavailable()
abbrev pub unavailable : Denied
unavailable = record { code = "DEPENDENCY_UNAVAILABLE"; status = 503; retry_after = none }

abbrev pub refuse : String → ℕ → Denied
refuse code status = record { code = code; status = status; retry_after = none }

-- A result, or the exception that ended the call.
pub data Result {ℓ} (A : Type ℓ) : Type ℓ where
  ok : A → Result A
  err : Denied → Result A

pub ok-injective : {A : Type 0} (a b : A) → Path (Result A) (ok a) (ok b) → a ≡ b
ok-injective a b h = cc

infixl 5 ◌>>=◌ ◌>>◌
abbrev pub ◌>>=◌ {ℓ κ} : {A : Type ℓ} {B : Type κ} → Result A → (A → Result B) → Result B
ok value >>= next = next value
err denial >>= next = err denial

abbrev pub ◌>>◌ {ℓ} : {B : Type ℓ} → Result (Unit {0}) → Result B → Result B
first >> rest = first >>= λ _. rest

-- A call that begins with another.
pub then-ok :
    {A B : Type 0} (r : Result A) (f : A → Result B) (b : B)
    → (r >>= f) ≡ ok b
    → (a : A) × (r ≡ ok a) × (f a ≡ ok b)
then-ok (ok a) f b h = (a, refl, h)
then-ok (err d) f b h = absurd (cc)
