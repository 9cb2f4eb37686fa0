-- ===== src/Accounts/Authority.antt =====
-- A change of an account's authority: `set_authority` of provision.py, and the sessions after it.
use factech.Base.{
  ℕ, ◌+◌, ◌≤◌, Bool, true, false, not, ◌&&◌, ◌||◌, Option, some, List, [], ◌∷◌, ◌++◌, String, ◌==◌,
  string_eq, eq_iff, nat_beq, All, Bool-cases, Option-cases, ◌<◌, inl, inr, ◌≡◌, ◌≢◌, refl, subst,
  ap, arith,
}
use factech.Contracts.{Denied, Result, ok, err, denied, refuse}
use factech.Policy.{Role}
use factech.Database.{Db, Actor, Session, All-updated, first-eq_some, first-update_where}
use factech.Database.Tx.{run, run-ok}
use factech.Accounts.{actor_of, actor_lock, event, lock_old, old_session, replace_session}
use factech.Accounts.Provision.{change_authority, set_authority}
use factech.Accounts.Reads.{run-err, denied_after, lock_old-Reads}

failed :
    {S A : Type 0} (d : Denied) (a : A) (s t : S) → Path (Result A × S) (err d, s) (ok a, t) → ⊥
failed d a s t h = cc

module _ {F : Type 0} where
  unfoldable changed : String → String → Bool → List Role → ℕ → String → Db F → Db F
  changed administrator_id actor_id active roles now request_id db =
      record (change_authority actor_id active roles db) {
        audit =
            db.audit
            ++ event request_id (some administrator_id) "account.authority_changed" (some actor_id)
                now
              ∷ [];
      }

  set_authority-changed :
      (administrator_id actor_id : String) (active : Bool) (roles : List Role) (now : ℕ)
      (request_id : String) (db next : Db F)
      → set_authority administrator_id actor_id active roles now request_id db ≡ (ok tt, next)
      → (actor_id ≢ administrator_id)
        × (changed administrator_id actor_id active roles now request_id db ≡ next)
  unfolding set_authority actor_lock changed
  set_authority-changed administrator_id actor_id active roles now request_id db next h =
      elim (Bool-cases (actor_id == administrator_id)) [
        | inl e ↦ absurd (failed (refuse "SELF_ESCALATION_FORBIDDEN" 403) tt db next (rw e at h))
        | inr e ↦ elim (Option-cases (actor_of actor_id db)) [
          | inl f ↦ absurd (failed denied tt db next (rw (e, f) at h))
          | inr (a, f) ↦ (
            λ same. absurd (other ((eq_iff actor_id administrator_id).1 same) e),
            ap (λ r. r.1) (rw (e, f) at h),
          )
        ]
      ]
    where
      other : {b : Bool} → b ≡ true → b ≡ false → ⊥
      other t f = cc

  changed-ends :
      (administrator_id actor_id : String) (active : Bool) (roles : List Role) (now : ℕ)
      (request_id : String) (db : Db F)
      → All
          (λ s. (s.actor_id == actor_id && s.active) ≡ false)
          (changed administrator_id actor_id active roles now request_id db).sessions
  unfolding changed
  changed-ends administrator_id actor_id active roles now request_id db =
      All-updated (λ s. (s.actor_id == actor_id && s.active) ≡ false)
        (λ (s : Session). s.actor_id == actor_id) (λ s. record s { active = false }) db.sessions
        (λ s q. ground arith) (λ s q. rw q refl)

  changed-actor :
      (administrator_id actor_id : String) (active : Bool) (roles : List Role) (now : ℕ)
      (request_id : String) (db : Db F) (a : Actor)
      → actor_of actor_id db ≡ some a
      → actor_of actor_id (changed administrator_id actor_id active roles now request_id db)
        ≡ some (record a { active = active; roles = roles; epoch = a.epoch + 1 })
  unfolding changed
  changed-actor administrator_id actor_id active roles now request_id db a h =
      let (m, q) = first-eq_some (λ (b : Actor). b.id == actor_id) db.actors a h in
      rw
        (
          first-update_where (λ (b : Actor). b.id == actor_id) (λ (b : Actor). b.id == actor_id)
              (λ b. record b { active = active; roles = roles; epoch = b.epoch + 1 }) db.actors
              (λ b. refl),
          h,
          q,
        )
        refl

  -- A login of an older epoch of the account makes no session.
  replace_session_stale :
      (old : Option String) (s : Session) (now : ℕ) (request_id : String) (db : Db F) (a : Actor)
      → actor_of s.actor_id db ≡ some a
      → s.epoch < a.epoch
      → (replace_session old s now request_id db).0 ≡ err denied
  unfolding replace_session actor_lock
  replace_session_stale old s now request_id db a h lt =
      denied_after (lock_old (old_session old db)) _ db (lock_old-Reads (old_session old db)) (λ _.
        rw (h, stale a.active a.epoch s.epoch (not (a.issuer == s.issuer && a.sub == s.sub)) lt)
          refl)
    where
      stale :
          (active : Bool) (m n : ℕ) (c : Bool)
          → n < m
          → (not active || not (nat_beq m n) || c) ≡ true
      stale active m n c lt = ground (arith, lt)

  -- A change of authority is never to the administrator's own account. After it no session of the
  -- account is live, and a login that began before it, with the epoch of that time, makes none.
  pub set_authority_ends :
      (administrator_id actor_id : String) (active : Bool) (roles : List Role) (now : ℕ)
      (request_id : String) (db next : Db F) (a : Actor) (old : Option String) (s : Session)
      (later : ℕ) (request_id' : String)
      → run (set_authority administrator_id actor_id active roles now request_id) db ≡ (ok tt, next)
      → actor_of s.actor_id db ≡ some a
      → s.actor_id ≡ actor_id
      → s.epoch ≤ a.epoch
      → (actor_id ≢ administrator_id)
        × All (λ t. (t.actor_id == actor_id && t.active) ≡ false) next.sessions
        × (run (replace_session old s later request_id') next ≡ (err denied, next))
  set_authority_ends administrator_id actor_id active roles now request_id db next a old s later
        request_id' h row same le =
      let (other, e) =
        set_authority-changed administrator_id actor_id active roles now request_id db next (
          run-ok (set_authority administrator_id actor_id active roles now request_id) db tt next
            h) in
      let ends =
        subst (λ n. All (λ t. (t.actor_id == actor_id && t.active) ≡ false) n.sessions) e
          (changed-ends administrator_id actor_id active roles now request_id db) in
      let refused =
        run-err (replace_session old s later request_id')
          (changed administrator_id actor_id active roles now request_id db) denied
          (replace_session_stale old s later request_id'
            (changed administrator_id actor_id active roles now request_id db)
            (record a { active = active; roles = roles; epoch = a.epoch + 1 })
            (rw same (
              changed-actor administrator_id actor_id active roles now request_id db a
                (rw same at row)))
            (omega (arith, le))) in
      (
        other,
        ends,
        subst (λ n. run (replace_session old s later request_id') n ≡ (err denied, n)) e refused,
      )
