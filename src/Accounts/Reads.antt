-- ===== src/Accounts/Reads.antt =====
-- Statements of postgres.py that read only, at the head of a transaction that is refused.
use factech.Base.{
  Bool, true, false, Option, none, some, String, string_eq, ◌⊎◌, inl, inr, ◌≡◌, refl,
}
use factech.Contracts.{Denied, Result, ok, err, denied}
use factech.Database.{Session}
use factech.Database.Tx.{Tx, deny_if, settle, run, ◌>>=◌}
use factech.Accounts.{found, actor_of, actor_lock, lock_old}

pub run-err :
    {S A : Type 0} (m : Tx S A) (s : S) (d : Denied) → (m s).0 ≡ err d → run m s ≡ (err d, s)
unfolding run
run-err m s d h = rolled (m s) s d h
  where
    rolled :
        {S A : Type 0} (r : Result A × S) (s : S) (d : Denied)
        → r.0 ≡ err d
        → settle r s ≡ (err d, s)
    rolled (ok a, t) s d h = absurd (cc)
    rolled (err d', t) s d h = rw h refl

-- A statement that reads: it raises `denied`, or it returns and leaves the state as it was.
abbrev pub Reads : {S A : Type 0} → Tx S A → Type 0
Reads {S} {A} m = (s : S) → (m s ≡ (err denied, s)) ⊎ ((a : A) × (m s ≡ (ok a, s)))

pub denied_after :
    {S A B : Type 0} (m : Tx S A) (f : A → Tx S B) (s : S)
    → Reads m
    → ((a : A) → (f a s).0 ≡ err denied)
    → ((m >>= f) s).0 ≡ err denied
denied_after m f s reads h = elim (reads s) [ inl e ↦ rw e refl | inr (a, e) ↦ rw e (h a) ]

pub deny_if-Reads : {S : Type 0} (b : Bool) → Reads (deny_if {S = S} b denied)
deny_if-Reads true s = inl refl
deny_if-Reads false s = inr (tt, refl)

module _ {F : Type 0} where
  pub found-Reads : {A : Type 0} (row : Option A) → Reads (found {F = F} row)
  found-Reads none s = inl refl
  found-Reads (some x) s = inr (x, refl)

  pub actor_lock-Reads : (actor_id : String) → Reads (actor_lock {F = F} actor_id)
  unfolding actor_lock
  actor_lock-Reads actor_id s = found-Reads (actor_of actor_id s) s

  pub lock_old-Reads : (row : Option Session) → Reads (lock_old {F = F} row)
  lock_old-Reads none s = inr (tt, refl)
  lock_old-Reads (some old) s = elim (actor_lock-Reads old.actor_id s) [
    | inl e ↦ inl (rw e refl)
    | inr (a, e) ↦ inr (tt, rw e refl)
  ]
