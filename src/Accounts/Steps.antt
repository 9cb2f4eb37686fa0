-- ===== src/Accounts/Steps.antt =====
-- The transactions over accounts as steps of the database, and that each of them is a step of the
-- specification of a session's life.
use factech.Base.{
  ℕ, Bool, true, false, max, not, ◌&&◌, ◌||◌, string_eq, Option, none, some, List, [], ◌∷◌, ◌++◌,
  String, ◌==◌, nat_beq, leb, any, filter, length, ◌≡◌, refl,
}
use factech.Contracts.{denied, refuse, unavailable}
use factech.Policy.{Role}
use factech.Database.{Db, Session, Login, Replay, Audit, update_where}
use factech.Database.Tx.{execute}
use factech.Database.Keeps.{
  Keeps, keeps, keeps_pure, keeps_raise, keeps_gets, keeps_deny, keeps_bind, keeps_then, keeps_if,
}
use factech.Accounts.{
  has_id, is_live, is_named, bars, old_session, session, event, found, actor_lock, append_audit,
  put_login, consume_login, end_session, lock_old, end_old, insert_session, replace_session,
  current_actor, update_live, touch, rotate_token, revoke_and_enqueue, enqueue, claim,
  backchannel_revoke,
}
use factech.Accounts.Provision.{set_authority, change_authority}
use factech.Accounts.Status.{
  Later, Later-IsPreorder, Later-of_same, Later-of_update, Later-of_append,
}

module _ {F : Type 0} where
  -- A statement on other tables.
  pub elsewhere :
      (f : Db F → Db F) → ((db : Db F) → db.sessions ≡ (f db).sessions) → Keeps Later (execute f)
  elsewhere f h = keeps (λ db. Later-of_same db (f db) (h db))

  pub audits : (e : Audit) → Keeps (Later {F = F}) (append_audit e)
  audits e = elsewhere (λ db. record db { audit = db.audit ++ e ∷ [] }) (λ db. refl)

  finds : {A : Type 0} (row : Option A) → Keeps (Later {F = F}) (found row)
  finds none = keeps_raise Later-IsPreorder denied
  finds (some x) = keeps_pure Later-IsPreorder x

  pub locks : (actor_id : String) → Keeps (Later {F = F}) (actor_lock actor_id)
  unfolding actor_lock
  locks actor_id = keeps_bind Later-IsPreorder (keeps_gets Later-IsPreorder _) finds

  -- UPDATE of sessions, where the update keeps the columns of the specification.
  sets :
      (p : Session → Bool) (f : Session → Session)
      → ((s : Session) → (f s).id ≡ s.id)
      → ((s : Session) → (f s).active ≡ true → s.active ≡ true)
      → Keeps
          (Later {F = F})
          (execute (λ db. record db { sessions = update_where p f db.sessions }))
  sets p f keep down = keeps (λ db.
      Later-of_update db (record db { sessions = update_where p f db.sessions }) p f refl keep down)

  ends : (session_id : String) → Keeps (Later {F = F}) (execute (end_session session_id))
  ends session_id = keeps (λ db.
      Later-of_update db (end_session session_id db) (has_id session_id)
        (λ s. record s { active = false }) refl (λ s. refl) (λ s h. absurd (cc)))

  currents : (session_id : String) → Keeps (Later {F = F}) (current_actor session_id)
  currents session_id = keeps_bind Later-IsPreorder (keeps_gets Later-IsPreorder _) (λ row.
      keeps_bind Later-IsPreorder (finds row) (λ value.
        keeps_bind Later-IsPreorder (locks value.actor_id) (λ actor.
          keeps_deny Later-IsPreorder (not actor.active || not (nat_beq actor.epoch value.epoch))
            denied)))

  updates :
      (now : ℕ) (session_id : String) (f : Session → Session)
      → ((s : Session) → (f s).id ≡ s.id)
      → ((s : Session) → (f s).active ≡ true → s.active ≡ true)
      → Keeps (Later {F = F}) (update_live now session_id f)
  updates now session_id f keep down =
      keeps_bind Later-IsPreorder
        (keeps_gets Later-IsPreorder (λ db. length (filter (is_live now session_id) db.sessions)))
        (λ count.
          keeps_then Later-IsPreorder (sets (is_live now session_id) f keep down)
            (keeps_deny Later-IsPreorder (not (nat_beq count 1)) denied))

  pub put_login-Keeps : (attempt : Login) → Keeps (Later {F = F}) (put_login attempt)
  unfolding put_login
  put_login-Keeps attempt =
      keeps_bind Later-IsPreorder
        (keeps_gets Later-IsPreorder
          (λ db. any (λ (l : Login). l.state_hash == attempt.state_hash) db.logins))
        (λ taken.
          keeps_then Later-IsPreorder (keeps_deny Later-IsPreorder taken unavailable)
            (elsewhere (λ db. record db { logins = db.logins ++ attempt ∷ [] }) (λ db. refl)))

  pub consume_login-Keeps :
      (state_hash browser_hash : String) (now : ℕ)
      → Keeps (Later {F = F}) (consume_login state_hash browser_hash now)
  unfolding consume_login
  consume_login-Keeps state_hash browser_hash now =
      keeps (λ db. Later-of_same db (consume_login state_hash browser_hash now db).1 refl)

  old-locks : (row : Option Session) → Keeps (Later {F = F}) (lock_old row)
  old-locks none = keeps_pure Later-IsPreorder tt
  old-locks (some old) =
      keeps_then Later-IsPreorder (locks old.actor_id) (keeps_pure Later-IsPreorder tt)

  old-ends : (row : Option Session) → Keeps (Later {F = F}) (end_old row)
  old-ends none = keeps_pure Later-IsPreorder tt
  old-ends (some old) = ends old.id

  adds :
      (s : Session)
      → Keeps (Later {F = F}) (execute (λ db. record db { sessions = db.sessions ++ s ∷ [] }))
  adds s = keeps (λ db. Later-of_append db (record db { sessions = db.sessions ++ s ∷ [] }) s refl)

  inserts : (s : Session) → Keeps (Later {F = F}) (insert_session s)
  unfolding insert_session
  inserts s =
      keeps_bind Later-IsPreorder
        (keeps_gets Later-IsPreorder
          (λ db. any (λ (t : Session). t.id == s.id || t.cookie_hash == s.cookie_hash) db.sessions))
        (λ taken.
          keeps_then Later-IsPreorder
            (keeps_deny Later-IsPreorder (taken || leb s.expires_at s.created_at) unavailable)
            (adds s))

  pub replace_session-Keeps :
      (old : Option String) (s : Session) (now : ℕ) (request_id : String)
      → Keeps (Later {F = F}) (replace_session old s now request_id)
  unfolding replace_session
  replace_session-Keeps old s now request_id =
      keeps_bind Later-IsPreorder (keeps_gets Later-IsPreorder (old_session old)) (λ row.
        keeps_then Later-IsPreorder (old-locks row) (
          keeps_bind Later-IsPreorder (locks s.actor_id) (λ actor.
            keeps_then Later-IsPreorder
              (keeps_deny Later-IsPreorder
                (not actor.active
                  || not (nat_beq actor.epoch s.epoch)
                  || not (actor.issuer == s.issuer && actor.sub == s.sub))
                denied)
              (keeps_bind Later-IsPreorder
                (keeps_gets Later-IsPreorder (λ db. any (bars now s) db.revocations))
                (λ revoked.
                  keeps_then Later-IsPreorder (keeps_deny Later-IsPreorder revoked denied) (
                    keeps_then Later-IsPreorder (old-ends row) (
                      keeps_then Later-IsPreorder (inserts s) (
                        audits (
                          event request_id (some actor.id) "session.rotate" (some s.id) now)))))))))

  pub touch-Keeps : (session_id : String) (now : ℕ) → Keeps (Later {F = F}) (touch session_id now)
  unfolding touch
  touch-Keeps session_id now = keeps_then Later-IsPreorder (currents session_id) (
      updates now session_id (λ s. record s { touched_at = max s.touched_at now }) (λ s. refl)
        (λ s h. h))

  pub rotate_token-Keeps :
      (session_id token_ciphertext token_hash : String) (now : ℕ)
      → Keeps (Later {F = F}) (rotate_token session_id token_ciphertext token_hash now)
  unfolding rotate_token
  rotate_token-Keeps session_id token_ciphertext token_hash now =
      keeps_then Later-IsPreorder (currents session_id) (
        updates now session_id
          (λ s. record s { token_ciphertext = token_ciphertext; token_hash = token_hash })
          (λ s. refl) (λ s h. h))

  pub revoke_and_enqueue-Keeps :
      (session_id : String) (now : ℕ) (request_id : String)
      → Keeps (Later {F = F}) (revoke_and_enqueue session_id now request_id)
  unfolding revoke_and_enqueue
  revoke_and_enqueue-Keeps session_id now request_id =
      keeps_bind Later-IsPreorder (keeps_gets Later-IsPreorder (session session_id)) (λ row.
        keeps_bind Later-IsPreorder (finds row) (λ value.
          keeps_then Later-IsPreorder (locks value.actor_id) (
            keeps_then Later-IsPreorder (ends session_id) (
              keeps_then Later-IsPreorder (elsewhere (enqueue session_id) (λ db. refl)) (
                audits (
                  event request_id (some value.actor_id) "session.revoke" (some session_id)
                    now))))))

  claims :
      (issuer : String) (sub sid : Option String) (jti : String) (expires_at now : ℕ)
      → Keeps (Later {F = F}) (execute (claim issuer sub sid jti expires_at now))
  claims issuer sub sid jti expires_at now = keeps (λ db.
      Later-of_update db (claim issuer sub sid jti expires_at now db) (is_named issuer sub sid)
        (λ s. record s { active = false }) refl (λ s. refl) (λ s h. absurd (cc)))

  changes :
      (actor_id : String) (active : Bool) (roles : List Role)
      → Keeps (Later {F = F}) (execute (change_authority actor_id active roles))
  changes actor_id active roles = keeps (λ db.
      Later-of_update db (change_authority actor_id active roles db)
        (λ (s : Session). s.actor_id == actor_id) (λ s. record s { active = false }) refl
        (λ s. refl) (λ s h. absurd (cc)))

  pub backchannel_revoke-Keeps :
      (issuer : String) (sub sid : Option String) (jti : String) (expires_at now : ℕ)
      (request_id : String)
      → Keeps (Later {F = F}) (backchannel_revoke issuer sub sid jti expires_at now request_id)
  unfolding backchannel_revoke
  backchannel_revoke-Keeps issuer sub sid jti expires_at now request_id =
      keeps_bind Later-IsPreorder
        (keeps_gets Later-IsPreorder
          (λ db. any (λ (r : Replay). r.issuer == issuer && r.jti == jti) db.replays))
        (λ seen. keeps_if Later-IsPreorder seen (keeps_pure Later-IsPreorder false) (
          keeps_then Later-IsPreorder (claims issuer sub sid jti expires_at now) (
            keeps_then Later-IsPreorder
              (audits (event request_id none "session.backchannel" none now))
              (keeps_pure Later-IsPreorder true))))

  pub set_authority-Keeps :
      (administrator_id actor_id : String) (active : Bool) (roles : List Role) (now : ℕ)
      (request_id : String)
      → Keeps (Later {F = F}) (set_authority administrator_id actor_id active roles now request_id)
  unfolding set_authority
  set_authority-Keeps administrator_id actor_id active roles now request_id =
      keeps_then Later-IsPreorder
        (keeps_deny Later-IsPreorder (actor_id == administrator_id)
          (refuse "SELF_ESCALATION_FORBIDDEN" 403))
        (keeps_then Later-IsPreorder (locks actor_id) (
          keeps_then Later-IsPreorder (changes actor_id active roles) (
            audits (
              event request_id (some administrator_id) "account.authority_changed" (some actor_id)
                now))))
