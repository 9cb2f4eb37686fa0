-- ===== src/Accounts.antt =====
-- packages/face-auth/src/facetech_auth/postgres.py: the transactions over logins, sessions and the
-- logout outbox. `now` is what the transaction reads from the clock. Locks make each one step.
pub mod Provision
mod Reads
pub mod Registration
pub mod Authority
pub mod Capacity
pub mod Status
pub mod Steps
mod Elsewhere
mod Restores
pub mod Refines
pub mod Logins
pub mod Outbox
pub mod Backchannel
mod Tests
use factech.Base.{
  ℕ, ◌+◌, ◌^◌, min, max, Bool, true, false, not, ◌&&◌, ◌||◌, Option, none, some, List, [], ◌∷◌,
  ◌++◌, String, any, filter, length, take, leb, ltb, nat_beq, ◌==◌, string_eq, if◌then◌else◌,
}
use factech.Contracts.{Denied, Result, ok, err, denied, refuse, unavailable}
use factech.Policy.{given, is_text}
use factech.Database.{
  Db, Actor, Session, Login, Logout, Replay, Revocation, Audit, first, update_where, delete_where,
  insert_new,
}
use factech.Database.Tx.{Tx, pure, raise, gets, execute, deny_if, ◌>>=◌, ◌>>◌}

abbrev pub idle_seconds : ℕ
idle_seconds = 1800

abbrev pub absolute_seconds : ℕ
absolute_seconds = 28800

-- An audit entry of a transaction on an account.
abbrev pub event : String → Option String → String → Option String → ℕ → Audit
event request_id actor_id action resource_id at = record {
  request_id = request_id;
  actor_id = actor_id;
  action = action;
  resource_id = resource_id;
  outcome = "committed";
  at = at;
}

abbrev pub has_id : String → Session → Bool
has_id session_id s = s.id == session_id

-- A session that may be touched or given a new token.
unfoldable pub is_live : ℕ → String → Session → Bool
is_live now session_id s =
    s.id == session_id
    && s.active
    && ltb now s.expires_at
    && ltb now (s.created_at + absolute_seconds)
    && ltb now (s.touched_at + idle_seconds)

-- A column that may be NULL, against a value.
abbrev pub is_null_or : Option String → String → Bool
is_null_or none s = true
is_null_or (some t) s = t == s

-- The revocations that bar a new session.
unfoldable pub bars : ℕ → Session → Revocation → Bool
bars now s r =
    r.issuer == s.issuer
    && ltb now r.expires_at
    && is_null_or r.sub s.sub
    && is_null_or r.sid s.provider_sid

abbrev pub or_empty : Option String → String
or_empty none = ""
or_empty (some s) = s

-- The sessions that a provider's logout ends; an empty text is no condition.
unfoldable pub is_named : String → Option String → Option String → Session → Bool
is_named issuer sub sid s =
    s.issuer == issuer
    && (not (given sub) || s.sub == or_empty sub)
    && (not (given sid) || s.provider_sid == or_empty sid)

abbrev pub is_attempt : String → String → ℕ → Login → Bool
is_attempt state_hash browser_hash now l =
    l.state_hash == state_hash && l.browser_hash == browser_hash && ltb now l.expires_at

abbrev pub of_session : String → Logout → Bool
of_session session_id l = l.session_id == session_id

abbrev pub is_due : ℕ → Logout → Bool
is_due now l = leb l.next_attempt now && leb l.lease_until now

-- session_id IN (ids)
abbrev pub is_one : List Logout → String → Bool
is_one rows session_id = any (of_session session_id) rows

module _ {F : Type 0} where
  abbrev pub append_audit : Audit → Tx (Db F) (Unit {0})
  append_audit e = execute (λ db. record db { audit = db.audit ++ e ∷ [] })

  abbrev pub found : {A : Type 0} → Option A → Tx (Db F) A
  found none = raise denied
  found (some x) = pure x

  abbrev pub actor_of : String → Db F → Option Actor
  actor_of actor_id db = first (λ (a : Actor). a.id == actor_id) db.actors

  -- actor_lock
  unfoldable pub actor_lock : String → Tx (Db F) Actor
  actor_lock actor_id = do row ← gets (actor_of actor_id); found row

  -- put_login; a second row of the key is refused by the database
  unfoldable pub put_login : Login → Tx (Db F) (Unit {0})
  put_login attempt = do
    taken ← gets (λ db. any (λ (l : Login). l.state_hash == attempt.state_hash) db.logins)
    deny_if taken unavailable
    execute (λ db. record db { logins = db.logins ++ attempt ∷ [] })

  unfoldable pub consume_login : String → String → ℕ → Tx (Db F) (Option Login)
  consume_login state_hash browser_hash now db = (
    ok (first (is_attempt state_hash browser_hash now) db.logins),
    record db { logins = delete_where (is_attempt state_hash browser_hash now) db.logins },
  )

  unfoldable pub session_by_cookie : String → Db F → Option Session
  session_by_cookie cookie_hash db =
      first (λ (s : Session). s.cookie_hash == cookie_hash) db.sessions

  unfoldable pub session : String → Db F → Option Session
  session session_id db = first (has_id session_id) db.sessions

  -- The session of the old cookie, where there is one; an empty text is no cookie.
  abbrev pub old_session : Option String → Db F → Option Session
  old_session none db = none
  old_session (some cookie_hash) db =
      if cookie_hash == "" then none else session_by_cookie cookie_hash db

  abbrev pub end_session : String → Db F → Db F
  end_session session_id db = record db {
    sessions = update_where (has_id session_id) (λ s. record s { active = false }) db.sessions;
  }

  abbrev pub lock_old : Option Session → Tx (Db F) (Unit {0})
  lock_old none = pure tt
  lock_old (some old) = do actor_lock old.actor_id; pure tt

  abbrev pub end_old : Option Session → Tx (Db F) (Unit {0})
  end_old none = pure tt
  end_old (some old) = execute (end_session old.id)

  -- INSERT of a session, with the keys and the check of its table
  unfoldable pub insert_session : Session → Tx (Db F) (Unit {0})
  insert_session s = do
    taken ←
        gets
          (λ db. any (λ (t : Session). t.id == s.id || t.cookie_hash == s.cookie_hash) db.sessions)
    deny_if (taken || leb s.expires_at s.created_at) unavailable
    execute (λ db. record db { sessions = db.sessions ++ s ∷ [] })

  unfoldable pub replace_session : Option String → Session → ℕ → String → Tx (Db F) (Unit {0})
  replace_session old_cookie_hash s now request_id = do
    old ← gets (old_session old_cookie_hash)
    lock_old old
    actor ← actor_lock s.actor_id
    deny_if
        (not actor.active
          || not (nat_beq actor.epoch s.epoch)
          || not (actor.issuer == s.issuer && actor.sub == s.sub))
        denied
    revoked ← gets (λ db. any (bars now s) db.revocations)
    deny_if revoked denied
    end_old old
    insert_session s
    append_audit (event request_id (some actor.id) "session.rotate" (some s.id) now)

  -- The first reads of `touch` and `rotate_token`.
  abbrev pub current_actor : String → Tx (Db F) (Unit {0})
  current_actor session_id = do
    row ← gets (session session_id)
    value ← found row
    actor ← actor_lock value.actor_id
    deny_if (not actor.active || not (nat_beq actor.epoch value.epoch)) denied

  -- UPDATE of the live session of the id; another count of rows than one is refused.
  abbrev pub update_live : ℕ → String → (Session → Session) → Tx (Db F) (Unit {0})
  update_live now session_id f = do
    count ← gets (λ db. length (filter (is_live now session_id) db.sessions))
    execute (λ db. record db { sessions = update_where (is_live now session_id) f db.sessions })
    deny_if (not (nat_beq count 1)) denied

  unfoldable pub touch : String → ℕ → Tx (Db F) (Unit {0})
  touch session_id now = do
    current_actor session_id
    update_live now session_id (λ s. record s { touched_at = max s.touched_at now })

  unfoldable pub rotate_token : String → String → String → ℕ → Tx (Db F) (Unit {0})
  rotate_token session_id token_ciphertext token_hash now = do
    current_actor session_id
    update_live now session_id
        (λ s. record s { token_ciphertext = token_ciphertext; token_hash = token_hash })

  abbrev pub enqueue : String → Db F → Db F
  enqueue session_id db = record db {
    outbox =
        insert_new (of_session session_id)
          (record { session_id = session_id; attempts = 0; next_attempt = 0; lease_until = 0 })
          db.outbox;
  }

  unfoldable pub revoke_and_enqueue : String → ℕ → String → Tx (Db F) (Unit {0})
  revoke_and_enqueue session_id now request_id = do
    row ← gets (session session_id)
    value ← found row
    actor_lock value.actor_id
    execute (end_session session_id)
    execute (enqueue session_id)
    append_audit (event request_id (some value.actor_id) "session.revoke" (some session_id) now)

  unfoldable pub logout_delivered : String → Db F → Db F
  logout_delivered session_id db = record db {
    outbox = delete_where (of_session session_id) db.outbox;
  }

  -- claim_logouts; `order` is ORDER BY session_id
  unfoldable pub claim_logouts : (List Logout → List Logout) → ℕ → ℕ → Db F → List Session × Db F
  claim_logouts order limit now db =
      let rows = take (min limit 100) (order (filter (is_due now) db.outbox)) in
      (
        filter (λ (s : Session). is_one rows s.id && not s.active) db.sessions,
        record db {
          outbox =
              update_where (λ l. is_one rows l.session_id)
                (λ l. record l { lease_until = now + 30; attempts = l.attempts + 1 }) db.outbox;
        },
      )

  unfoldable pub retry_logout_later : String → ℕ → Db F → Db F
  retry_logout_later session_id now db = record db {
    outbox =
        update_where (of_session session_id)
          (λ l. record l { lease_until = 0; next_attempt = now + min 300 (2 ^ min l.attempts 8) })
          db.outbox;
  }

  -- A new logout token: it is recorded, and the sessions that it names end.
  abbrev pub claim : String → Option String → Option String → String → ℕ → ℕ → Db F → Db F
  claim issuer sub sid jti expires_at now db = record db {
    replays = db.replays ++ record { issuer = issuer; jti = jti; expires_at = expires_at } ∷ [];
    revocations =
        db.revocations
        ++ record { issuer = issuer; sub = sub; sid = sid; expires_at = now + absolute_seconds }
          ∷ [];
    sessions =
        update_where (is_named issuer sub sid) (λ s. record s { active = false }) db.sessions;
  }

  -- backchannel_revoke; the result is false for a token that was claimed before
  unfoldable pub backchannel_revoke :
      String → Option String → Option String → String → ℕ → ℕ → String → Tx (Db F) Bool
  backchannel_revoke issuer sub sid jti expires_at now request_id = do
    seen ← gets (λ db. any (λ (r : Replay). r.issuer == issuer && r.jti == jti) db.replays)
    if seen then pure false else (do
      execute (claim issuer sub sid jti expires_at now)
      append_audit (event request_id none "session.backchannel" none now)
      pure true)
