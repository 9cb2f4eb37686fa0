-- ===== src/Oidc/Steps.antt =====
-- How a call of packages/face-auth/src/facetech_auth/oidc.py that returned has passed its checks,
-- each of which leaves the cache of keys as it is.
use factech.Base.{Bool, true, false, not, ◌||◌, ◌≡◌, refl}
use factech.Contracts.{Denied, Result, ok, err}
use factech.Database.Tx.{Tx, deny_if, ◌>>=◌, ◌>>◌}
use factech.Oidc.{lift}

module _ {S A B : Type 0} where
  pub lift-ok :
      (r : Result A) (f : A → Tx S B) (s t : S) (b : B)
      → (lift r >>= f) s ≡ (ok b, t)
      → (a : A) × (r ≡ ok a) × (f a s ≡ (ok b, t))
  lift-ok (ok a) f s t b h = (a, refl, h)
  lift-ok (err d) f s t b h = absurd (cc)

module _ {S B : Type 0} where
  pub refused-ok :
      (test : Bool) (d : Denied) (m : Tx S B) (s t : S) (b : B)
      → (deny_if test d >> m) s ≡ (ok b, t)
      → (test ≡ false) × (m s ≡ (ok b, t))
  refused-ok true d m s t b h = absurd (cc)
  refused-ok false d m s t b h = (refl, h)

  pub demanded-ok :
      (test : Bool) (d : Denied) (m : Tx S B) (s t : S) (b : B)
      → (deny_if (not test) d >> m) s ≡ (ok b, t)
      → (test ≡ true) × (m s ≡ (ok b, t))
  demanded-ok true d m s t b h = (refl, h)
  demanded-ok false d m s t b h = absurd (cc)

pub neither : (a b : Bool) → (a || b) ≡ false → (a ≡ false) × (b ≡ false)
neither true b h = absurd (cc)
neither false b h = (refl, h)
