-- ===== src/Database/Tx.antt =====
-- PostgresRepository.transaction: statements see what the ones before them wrote, and an exception
-- takes all of it back.
use factech.Base.{Bool, true, false, ◌≡◌, refl, ap, ◌⊎◌, inl, inr, arith}
use factech.Contracts.{Denied, Result, ok, err}

-- A callable that is run on a connection. What it wrote before it raised stands beside the error.
abbrev pub Tx : Type 0 → Type 0 → Type 0
Tx S A = S → Result A × S

module _ {S A : Type 0} where
  abbrev pub pure : A → Tx S A
  pure a s = (ok a, s)

  abbrev pub raise : Denied → Tx S A
  raise d s = (err d, s)

  abbrev pub gets : (S → A) → Tx S A
  gets f s = (ok (f s), s)

abbrev pub execute : {S : Type 0} → (S → S) → Tx S (Unit {0})
execute f s = (ok tt, f s)

module _ {S A B : Type 0} where
  abbrev pub continue : Result A → (A → Tx S B) → Tx S B
  continue (ok a) f s = f a s
  continue (err d) f s = (err d, s)

  infixl 5 ◌>>=◌ ◌>>◌
  abbrev pub ◌>>=◌ : Tx S A → (A → Tx S B) → Tx S B
  ◌>>=◌ m f s = continue (m s).0 f (m s).1

  abbrev pub ◌>>◌ : Tx S A → Tx S B → Tx S B
  m >> n = m >>= λ _. n

abbrev pub deny_if : {S : Type 0} → Bool → Denied → Tx S (Unit {0})
deny_if true d s = (err d, s)
deny_if false d s = (ok tt, s)

-- `engine.begin()`: commit on a return, roll back on an exception
abbrev pub settle : {S A : Type 0} → Result A × S → S → Result A × S
settle (ok a, s') s = (ok a, s')
settle (err d, s') s = (err d, s)

unfoldable pub run : {S A : Type 0} → Tx S A → Tx S A
run m s = settle (m s) s

-- A transaction that raises leaves the database as it was.
pub run_rolls_back :
    {S A : Type 0} (m : Tx S A) (s : S) (d : Denied) → (run m s).0 ≡ err d → (run m s).1 ≡ s
unfolding run
run_rolls_back m s d h = ground arith

-- What a callable does: it returns or it raises.
pub outcome-cases :
    {S A : Type 0} (r : Result A × S)
    → ((d : Denied) × (s : S) × (r ≡ (err d, s))) ⊎ ((a : A) × (s : S) × (r ≡ (ok a, s)))
outcome-cases (err d, s) = inl (d, s, refl)
outcome-cases (ok a, s) = inr (a, s, refl)

module _ {S B : Type 0} where
  settle-ok : (r : Result B × S) (s : S) (b : B) (s' : S) → settle r s ≡ (ok b, s') → r ≡ (ok b, s')
  settle-ok (ok a, t) s b s' h = h
  settle-ok (err d, t) s b s' h = absurd (cc)

  pub run-ok : (m : Tx S B) (s : S) (b : B) (s' : S) → run m s ≡ (ok b, s') → m s ≡ (ok b, s')
  unfolding run
  run-ok m s b s' h = settle-ok (m s) s b s' h

-- A transaction that begins with another.
pub bind-ok :
    {S A B : Type 0} (m : Tx S A) (f : A → Tx S B) (s : S) (b : B) (t : S)
    → (m >>= f) s ≡ (ok b, t)
    → (a : A) × (u : S) × (m s ≡ (ok a, u)) × (f a u ≡ (ok b, t))
bind-ok m f s b t h = elim (outcome-cases (m s)) [
  | inl (d, u, e) ↦ let h' = rw e at h in absurd (cc)
  | inr (a, u, e) ↦ (a, u, e, rw e at h)
]

pub deny-ok :
    {S : Type 0} (b : Bool) (d : Denied) (s t : S)
    → deny_if b d s ≡ (ok tt, t)
    → (b ≡ false) × (s ≡ t)
deny-ok true d s t h = absurd (cc)
deny-ok false d s t h = (refl, ap (λ r. r.1) h)
