-- ===== src/Sessions.antt =====
-- packages/face-auth/src/facetech_auth/sessions.py: the gateway's sessions, over the transactions of
-- postgres.py. The identity provider, the vault of its tokens and the hash are an interface that the
-- functions take. `races` is what other requests commit while a call of the provider is under way.
pub mod Sound
pub mod Logout
mod Tests
use factech.Base.{
  ℕ, ◌+◌, ◌-◌, min, Bool, true, false, not, ◌&&◌, ◌||◌, Option, none, some, List, [], ◌∷◌, String,
  Dict, insert, size, leb, ltb, nat_beq, ◌==◌, string_eq, pos, if◌then◌else◌,
}
use factech.Contracts.{Denied, Result, ok, err, denied, refuse, unavailable}
use factech.Policy.{Principal, Stamp, given}
use factech.Database.{Db, Actor, Session, Login, first}
use factech.Database.Tx.{Tx, pure, raise, gets, execute, deny_if, run, ◌>>=◌, ◌>>◌}
use factech.Accounts.{
  idle_seconds, absolute_seconds, found, actor_of, or_empty, put_login, consume_login,
  session_by_cookie, session, replace_session, touch, rotate_token, revoke_and_enqueue,
  logout_delivered, backchannel_revoke,
}
use factech.Accounts.Provision.{is_identity, register}

-- The claims that the gateway reads of a token.
pub record Claims : Type 0 where
  pub iss : String
  pub sub : String
  pub sid : String
  pub auth_time : ℕ

-- The claims of a logout token.
pub record LogoutClaims : Type 0 where
  pub iss : String
  pub sub : Option String
  pub sid : Option String
  pub jti : String
  pub iat : ℕ

-- The document of a provider's tokens: the access token and what else it holds.
pub record Tokens : Type 0 where
  pub access_token : String
  pub others : Dict String String

-- {**stored, **fresh}
abbrev assign_all : Dict String String → Dict String String → Dict String String
assign_all d [] = d
assign_all d ((k, v) ∷ rest) = assign_all (insert k v d) rest

unfoldable pub merge : Tokens → Tokens → Tokens
merge stored fresh = record {
  access_token = fresh.access_token;
  others = assign_all stored.others fresh.others;
}

-- What a call of the provider comes to: a value, Denied, or Unavailable.
pub data Answer (A : Type 0) : Type 0 where
  granted : A → Answer A
  refused : Denied → Answer A
  down : Answer A

-- Provider, TokenVault and digest
pub record Outside : Type 0 where
  pub issuer : String
  pub digest : String → String
  pub open_tokens : Session → Result Tokens
  pub seal : String → Tokens → String
  pub authorization_url : String → String → String → Bool → Result String
  pub exchange : String → Login → Answer (Tokens × Claims)
  pub active_token : String → Answer Claims
  pub refresh : Tokens → Answer Tokens
  pub remote_logout : Tokens → Result (Unit {0})
  pub logout_claims : String → Result LogoutClaims

-- Authenticated
pub record Authenticated : Type 0 where
  pub principal : Principal
  pub session : Session
  pub token : String

-- _valid
unfoldable pub is_valid : ℕ → Session → Bool
is_valid now s =
    s.active
    && ltb now s.expires_at
    && leb s.created_at now
    && leb s.touched_at now
    && leb s.authenticated_at now
    && ltb (now - s.created_at) absolute_seconds
    && ltb (now - s.touched_at) idle_seconds

abbrev pub valid : ℕ → Option Session → Result Session
valid now none = err denied
valid now (some s) = if is_valid now s then ok s else err denied

-- csrf
unfoldable pub csrf : Outside → Session → Option String → Result (Unit {0})
csrf o s none = err (refuse "CSRF_REQUIRED" 403)
csrf o s (some value) =
    if value == "" || not (o.digest value == s.csrf_hash)
    then err (refuse "CSRF_REQUIRED" 403)
    else ok tt

-- Arguments of `callback` that may be looked up.
abbrev pub fits : String → Bool
fits s = leb 1 (size s) && leb (size s) 2048

abbrev pub old_cookie_hash : Outside → Option String → Option String
old_cookie_hash o none = none
old_cookie_hash o (some cookie) = if cookie == "" then none else some (o.digest cookie)

unfoldable pub new_session :
    Outside → Actor → Tokens → Claims → String → String → String → ℕ → Session
new_session o actor token claims cookie csrf sid now = record {
  id = sid;
  cookie_hash = o.digest cookie;
  actor_id = actor.id;
  epoch = actor.epoch;
  issuer = actor.issuer;
  sub = actor.sub;
  provider_sid = claims.sid;
  authenticated_at = claims.auth_time;
  created_at = now;
  touched_at = now;
  expires_at = now + absolute_seconds;
  csrf_hash = o.digest csrf;
  token_ciphertext = o.seal sid (record token { others = insert "csrf" csrf token.others });
  token_hash = o.digest token.access_token;
  active = true;
}

-- The last checks of `authenticate`.
unfoldable pub is_current : Outside → String → Claims → Session → Actor → Bool
is_current o token claims s actor =
    actor.active
    && nat_beq actor.epoch s.epoch
    && actor.issuer == s.issuer
    && actor.sub == s.sub
    && claims.iss == s.issuer
    && claims.sub == s.sub
    && claims.sid == s.provider_sid
    && o.digest token == s.token_hash

unfoldable pub principal_of : Actor → Session → Principal
principal_of actor s = record {
  actor_id = actor.id;
  tenant_id = actor.tenant;
  roles = actor.roles;
  active = true;
  session_active = true;
  session_expires_at = Stamp.int (pos (min s.expires_at (s.touched_at + idle_seconds)));
  authenticated_at = Stamp.int (pos s.authenticated_at);
}

module _ {F : Type 0} where
  abbrev pub lift : {A : Type 0} → Result A → Tx (Db F) A
  lift r s = (r, s)

  abbrev pub answered : {A : Type 0} → Answer A → Tx (Db F) A
  answered (granted a) = pure a
  answered (refused d) = raise d
  answered down = raise unavailable

  -- begin
  unfoldable pub begin :
      Outside → Bool → Bool → String → String → String → String → ℕ → Tx (Db F) (String × String)
  begin o has_registration wants_register state browser nonce verifier now = do
    deny_if (wants_register && not has_registration) (refuse "REGISTRATION_CLOSED" 403)
    url ← lift (o.authorization_url state nonce verifier wants_register)
    run (
        put_login (record {
          state_hash = o.digest state;
          browser_hash = o.digest browser;
          nonce = nonce;
          verifier = verifier;
          expires_at = now + 300;
        }))
    pure (url, browser)

  -- An account for the subject of a verified callback: the stored one, or a new one of the tenant
  -- where registration is open.
  abbrev pub or_register :
      Option String
      → Option Actor
      → String
      → String
      → String
      → String
      → ℕ
      → String
      → Tx (Db F) Actor
  or_register tenant (some actor) issuer sub actor_id subject now request_id = pure actor
  or_register none none issuer sub actor_id subject now request_id = raise denied
  or_register (some tenant) none issuer sub actor_id subject now request_id =
      run (register tenant issuer sub actor_id subject now request_id)

  -- callback; the secrets and the fresh identities are arguments
  unfoldable pub callback :
      Outside
      → (ℕ → Db F → Db F)
      → Option String
      → String
      → String
      → String
      → Option String
      → (String × String × String)
      → (String × String)
      → ℕ
      → ℕ
      → String
      → Tx (Db F) (String × Session)
  callback o races registration state browser code old_cookie (cookie, csrf_token, sid)
        (actor_id, subject) now later request_id =
      do
        deny_if (not (fits state && fits browser && fits code)) denied
        row ← run (consume_login (o.digest state) (o.digest browser) now)
        attempt ← found row
        document ← answered (o.exchange code attempt)
        execute (races 0)
        known ← gets (λ db. first (is_identity o.issuer document.1.sub) db.actors)
        actor ←
            or_register registration known o.issuer document.1.sub actor_id subject later request_id
        deny_if (not actor.active) denied
        run (
            replace_session (old_cookie_hash o old_cookie)
              (new_session o actor document.0 document.1 cookie csrf_token sid later) later
              request_id)
        pure (cookie, new_session o actor document.0 document.1 cookie csrf_token sid later)

  -- The session that a request names; `cookie`, `session_id` and `access_token` may be missing.
  abbrev pub named :
      Outside → Option String → Option String → Option String → Tx (Db F) (Option Session)
  named o cookie session_id access_token =
      if given cookie
      then gets (session_by_cookie (o.digest (or_empty cookie)))
      else if given session_id && given access_token
      then gets (session (or_empty session_id))
      else raise denied

  abbrev pub opened_token : Outside → Session → Result Tokens → Tx (Db F) String
  opened_token o s (ok document) = pure document.access_token
  opened_token o s (err d) = raise d

  -- _refresh
  unfoldable pub refresh_session :
      Outside → (ℕ → Db F → Db F) → Session → ℕ → Tx (Db F) (String × Claims)
  refresh_session o races s now = do
    stored ← lift (o.open_tokens s)
    fresh ← answered (o.refresh stored)
    claims ← answered (o.active_token fresh.access_token)
    deny_if (not (claims.sub == s.sub && claims.sid == s.provider_sid)) denied
    execute (races 0)
    run (rotate_token s.id (o.seal s.id (merge stored fresh)) (o.digest fresh.access_token) now)
    pure (fresh.access_token, claims)

  -- The provider's word on the token; the holder of the cookie may refresh it.
  abbrev pub checked_token :
      Outside
      → (ℕ → Db F → Db F)
      → Answer Claims
      → Option String
      → String
      → Session
      → ℕ
      → Tx (Db F) (String × Claims)
  checked_token o races (granted claims) access_token token s now = pure (token, claims)
  checked_token o races down access_token token s now = raise unavailable
  checked_token o races (refused d) access_token token s now =
      if given access_token then raise d else refresh_session o races s now

  abbrev pub touched : Bool → Session → ℕ → Tx (Db F) Session
  touched false s now = pure s
  touched true s now = do run (touch s.id now); pure (record s { touched_at = now })

  -- The second half of `authenticate`, on the state after the provider's answer.
  unfoldable pub reload :
      Outside → Bool → Session → String × Claims → ℕ → ℕ → Tx (Db F) Authenticated
  reload o touches s (token, claims) now later = do
    row ← gets (session s.id)
    current ← lift (valid now row)
    known ← gets (actor_of current.actor_id)
    actor ← found known
    deny_if (not (is_current o token claims current actor)) denied
    final ← touched touches current later
    pure (record { principal = principal_of actor final; session = final; token = token })

  -- authenticate; the clock is read at each check
  unfoldable pub authenticate :
      Outside
      → (ℕ → Db F → Db F)
      → Option String
      → Option String
      → Option String
      → Bool
      → (ℕ × ℕ × ℕ × ℕ)
      → Tx (Db F) Authenticated
  authenticate o races cookie session_id access_token touches (at, refreshed, again, later) = do
    row ← named o cookie session_id access_token
    s ← lift (valid at row)
    token ←
        if given access_token
        then pure (or_empty access_token)
        else opened_token o s (o.open_tokens s)
    deny_if (not (o.digest token == s.token_hash)) denied
    answer ← checked_token o races (o.active_token token) access_token token s refreshed
    execute (races 1)
    reload o touches s answer again later

  -- deliver_logout
  unfoldable pub deliver_logout : Outside → Session → Tx (Db F) (Unit {0})
  deliver_logout o s = do
    row ← gets (session s.id)
    current ← found row
    deny_if current.active denied
    document ← lift (o.open_tokens current)
    lift (o.remote_logout document)
    execute (logout_delivered current.id)

  -- `except Unavailable` of `logout`
  abbrev pub delivered : Result (Unit {0}) × Db F → Result Bool × Db F
  delivered (ok _, db) = (ok true, db)
  delivered (err d, db) = if d.code == "DEPENDENCY_UNAVAILABLE" then (ok false, db) else (err d, db)

  -- logout; a missing cookie is looked up as the empty text
  unfoldable pub logout : Outside → Option String → Option String → ℕ → String → Tx (Db F) Bool
  logout o cookie csrf_token now request_id = do
    row ← gets (session_by_cookie (o.digest (or_empty cookie)))
    s ← found row
    lift (csrf o s csrf_token)
    run (revoke_and_enqueue s.id now request_id)
    λ db. delivered (deliver_logout o s db)

  -- backchannel
  unfoldable pub backchannel : Outside → String → ℕ → String → Tx (Db F) Bool
  backchannel o token now request_id = do
    claims ← lift (o.logout_claims token)
    run (
        backchannel_revoke claims.iss claims.sub claims.sid claims.jti (claims.iat + 330) now
          request_id)
