-- ===== src/Accounts/Backchannel.antt =====
-- The provider's own logout: `backchannel_revoke` of postgres.py, and what it bars after it.
use factech.Base.{
  ℕ, ◌+◌, ◌<◌, Bool, true, false, not, ◌&&◌, ◌||◌, Option, none, [], ◌∷◌, ◌++◌, String, ◌==◌,
  string_eq, eq_iff, any, any-Member, here, Member-append_right, nat_beq, All, Bool-cases, inl, inr,
  ◌≡◌, refl, sym, subst, ap, arith,
}
use factech.Contracts.{Result, ok, err, denied}
use factech.Database.{Db, Session, Replay, All-updated}
use factech.Database.Tx.{deny_if, run}
use factech.Accounts.{
  bars, is_named, is_null_or, actor_lock, old_session, lock_old, event, replace_session, claim,
  backchannel_revoke,
}
use factech.Accounts.Reads.{run-err, denied_after, deny_if-Reads, actor_lock-Reads, lock_old-Reads}

module _ {F : Type 0} where
  -- A session that a revocation bars is not made.
  replace_session_barred :
      (old : Option String) (s : Session) (now : ℕ) (request_id : String) (db : Db F)
      → any (bars now s) db.revocations ≡ true
      → (replace_session old s now request_id db).0 ≡ err denied
  unfolding replace_session
  replace_session_barred old s now request_id db h =
      denied_after (lock_old (old_session old db)) _ db (lock_old-Reads (old_session old db)) (λ _.
        denied_after (actor_lock s.actor_id) _ db (actor_lock-Reads s.actor_id) (λ actor.
          denied_after
            (deny_if
              (not actor.active
                || not (nat_beq actor.epoch s.epoch)
                || not (actor.issuer == s.issuer && actor.sub == s.sub))
              denied)
            _ db
            (deny_if-Reads (
              not actor.active
              || not (nat_beq actor.epoch s.epoch)
              || not (actor.issuer == s.issuer && actor.sub == s.sub)))
            (λ _. rw h refl)))

  -- What a new token leaves.
  revoked : String → Option String → Option String → String → ℕ → ℕ → String → Db F → Db F
  revoked issuer sub sid jti expires_at now request_id db =
      record (claim issuer sub sid jti expires_at now db) {
        audit = db.audit ++ event request_id none "session.backchannel" none now ∷ [];
      }

  backchannel_revoke-revoked :
      (issuer : String) (sub sid : Option String) (jti : String) (expires_at now : ℕ)
      (request_id : String) (db next : Db F)
      → run (backchannel_revoke issuer sub sid jti expires_at now request_id) db ≡ (ok true, next)
      → revoked issuer sub sid jti expires_at now request_id db ≡ next
  unfolding backchannel_revoke run revoked
  backchannel_revoke-revoked issuer sub sid jti expires_at now request_id db next h =
      elim (Bool-cases (any (λ (r : Replay). r.issuer == issuer && r.jti == jti) db.replays)) [
        | inl e ↦ absurd (clash (ap (λ r. r.0) (rw e at h)))
        | inr e ↦ ap (λ r. r.1) (rw e at h)
      ]
    where
      clash : Path (Result Bool) (ok false) (ok true) → ⊥
      clash e = cc

  revoked-ends :
      (issuer : String) (sub sid : Option String) (jti : String) (expires_at now : ℕ)
      (request_id : String) (db : Db F)
      → All
          (λ t. (is_named issuer sub sid t && t.active) ≡ false)
          (revoked issuer sub sid jti expires_at now request_id db).sessions
  unfolding revoked
  revoked-ends issuer sub sid jti expires_at now request_id db =
      All-updated (λ t. (is_named issuer sub sid t && t.active) ≡ false) (is_named issuer sub sid)
        (λ t. record t { active = false }) db.sessions (λ t q. ground arith) (λ t q. rw q refl)

  revoked-bars :
      (issuer : String) (sub sid : Option String) (jti : String) (expires_at now later : ℕ)
      (request_id : String) (db : Db F) (s : Session)
      → s.issuer ≡ issuer
      → is_null_or sub s.sub ≡ true
      → is_null_or sid s.provider_sid ≡ true
      → later < now + 28800
      → any (bars later s) (revoked issuer sub sid jti expires_at now request_id db).revocations
        ≡ true
  unfolding revoked bars
  revoked-bars issuer sub sid jti expires_at now later request_id db s same_issuer same_sub same_sid
        lt =
      any-Member (bars later s) (Member-append_right db.revocations here)
        (ground (arith, lt, (eq_iff issuer s.issuer).1 (sym same_issuer)))

  repeated :
      (issuer : String) (sub sid : Option String) (jti : String) (expires_at now : ℕ)
      (request_id : String) (db : Db F)
      → any (λ (r : Replay). r.issuer == issuer && r.jti == jti) db.replays ≡ true
      → run (backchannel_revoke issuer sub sid jti expires_at now request_id) db ≡ (ok false, db)
  unfolding backchannel_revoke run
  repeated issuer sub sid jti expires_at now request_id db h = rw h refl

  revoked-replays :
      (issuer : String) (sub sid : Option String) (jti : String) (expires_at now : ℕ)
      (request_id : String) (db : Db F)
      → any
          (λ (r : Replay). r.issuer == issuer && r.jti == jti)
          (revoked issuer sub sid jti expires_at now request_id db).replays
        ≡ true
  unfolding revoked
  revoked-replays issuer sub sid jti expires_at now request_id db =
      any-Member _ (Member-append_right db.replays here)
        (ground (arith, (eq_iff issuer issuer).1 refl, (eq_iff jti jti).1 refl))

  -- After a logout token has been taken, no session that it names is live, and until its tombstone
  -- ends after eight hours no session of the same identity at the provider is made.
  pub backchannel_revoke_bars :
      (issuer : String) (sub sid : Option String) (jti : String) (expires_at now : ℕ)
      (request_id : String) (db next : Db F) (old : Option String) (s : Session) (later : ℕ)
      (request_id' : String)
      → run (backchannel_revoke issuer sub sid jti expires_at now request_id) db ≡ (ok true, next)
      → s.issuer ≡ issuer
      → is_null_or sub s.sub ≡ true
      → is_null_or sid s.provider_sid ≡ true
      → later < now + 28800
      → All (λ t. (is_named issuer sub sid t && t.active) ≡ false) next.sessions
        × (run (replace_session old s later request_id') next ≡ (err denied, next))
  backchannel_revoke_bars issuer sub sid jti expires_at now request_id db next old s later
        request_id' h same_issuer same_sub same_sid lt =
      subst
        (λ n.
          All (λ t. (is_named issuer sub sid t && t.active) ≡ false) n.sessions
          × (run (replace_session old s later request_id') n ≡ (err denied, n)))
        (backchannel_revoke-revoked issuer sub sid jti expires_at now request_id db next h)
        (
          revoked-ends issuer sub sid jti expires_at now request_id db,
          run-err (replace_session old s later request_id') _ denied (
              replace_session_barred old s later request_id' _ (
                revoked-bars issuer sub sid jti expires_at now later request_id db s same_issuer
                  same_sub same_sid lt)),
        )

  -- A logout token that was taken is answered with false at any time after it, whoever it names, and
  -- changes nothing.
  pub backchannel_revoke_once :
      (issuer : String) (sub sid sub' sid' : Option String) (jti : String)
      (expires_at expires_at' now later : ℕ) (request_id request_id' : String) (db next : Db F)
      → run (backchannel_revoke issuer sub sid jti expires_at now request_id) db ≡ (ok true, next)
      → run (backchannel_revoke issuer sub' sid' jti expires_at' later request_id') next
        ≡ (ok false, next)
  backchannel_revoke_once issuer sub sid sub' sid' jti expires_at expires_at' now later request_id
        request_id' db next h =
      subst
        (λ n.
          run (backchannel_revoke issuer sub' sid' jti expires_at' later request_id') n
          ≡ (ok false, n))
        (backchannel_revoke-revoked issuer sub sid jti expires_at now request_id db next h)
        (repeated issuer sub' sid' jti expires_at' later request_id'
          (revoked issuer sub sid jti expires_at now request_id db)
          (revoked-replays issuer sub sid jti expires_at now request_id db))
