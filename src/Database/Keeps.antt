-- ===== src/Database/Keeps.antt =====
-- A relation between states that every statement of a transaction respects, and so the transaction.
use factech.Base.{Bool, true, false, if◌then◌else◌}
use factech.Contracts.{Denied, Result, ok, err}
use factech.Database.Tx.{Tx, pure, raise, gets, deny_if, continue, settle, run, ◌>>=◌, ◌>>◌}

pub data Keeps {S A : Type 0} (R : S → S → Type 0) (m : Tx S A) : Type 0 where
  keeps : ((s : S) → R s (m s).1) → Keeps R m

pub keeps-of : {S A : Type 0} {R : S → S → Type 0} {m : Tx S A} → Keeps R m → (s : S) → R s (m s).1
keeps-of (keeps h) = h

-- A reflexive and transitive relation.
pub record IsPreorder {S : Type 0} (R : S → S → Type 0) : Type 0 where
  pub same : (s : S) → R s s
  pub chain : (s t u : S) → R s t → R t u → R s u

module _ {S : Type 0} {R : S → S → Type 0} (pre : IsPreorder R) where
  pub keeps_pure : {A : Type 0} (a : A) → Keeps R (pure {S = S} a)
  keeps_pure a = keeps (λ s. pre.same s)

  pub keeps_raise : {A : Type 0} (d : Denied) → Keeps R (raise {S = S} {A = A} d)
  keeps_raise d = keeps (λ s. pre.same s)

  pub keeps_gets : {A : Type 0} (f : S → A) → Keeps R (gets f)
  keeps_gets f = keeps (λ s. pre.same s)

  denies : (b : Bool) (d : Denied) (s : S) → R s (deny_if b d s).1
  denies true d s = pre.same s
  denies false d s = pre.same s

  pub keeps_deny : (b : Bool) (d : Denied) → Keeps R (deny_if {S = S} b d)
  keeps_deny b d = keeps (denies b d)

  continues :
      {A B : Type 0} (r : Result A) (f : A → Tx S B) (t : S)
      → ((a : A) → Keeps R (f a))
      → R t (continue r f t).1
  continues (ok a) f t h = keeps-of (h a) t
  continues (err d) f t h = pre.same t

  pub keeps_bind :
      {A B : Type 0} {m : Tx S A} {f : A → Tx S B}
      → Keeps R m
      → ((a : A) → Keeps R (f a))
      → Keeps R (m >>= f)
  keeps_bind {m} {f} (keeps k) h =
      keeps (λ s. pre.chain s (m s).1 ((m >>= f) s).1 (k s) (continues (m s).0 f (m s).1 h))

  pub keeps_then :
      {A B : Type 0} {m : Tx S A} {n : Tx S B} → Keeps R m → Keeps R n → Keeps R (m >> n)
  keeps_then {m} {n} (keeps k) h =
      keeps (λ s.
        pre.chain s (m s).1 ((m >> n) s).1 (k s) (continues (m s).0 (λ _. n) (m s).1 (λ a. h)))

  pub keeps_if :
      {A : Type 0} (b : Bool) {m n : Tx S A} → Keeps R m → Keeps R n → Keeps R (if b then m else n)
  keeps_if true h k = h
  keeps_if false h k = k

  settles : {A : Type 0} (r : Result A × S) (s : S) → R s r.1 → R s (settle r s).1
  settles (ok a, t) s h = h
  settles (err d, t) s h = pre.same s

  -- A transaction that is rolled back changes nothing.
  pub keeps_run : {A : Type 0} {m : Tx S A} → Keeps R m → Keeps R (run m)
  unfolding run
  keeps_run {m} (keeps k) = keeps (λ s. settles (m s) s (k s))
