-- ===== src/Accounts/Tests.antt =====
-- The sample database through logins, logouts, registrations and changes of authority.
use factech.Base.{
  ℕ, true, false, ◌&&◌, ◌≤◌, none, some, [], ◌∷◌, All, Member, here, String, ◌==◌, string_eq, ◌≡◌,
  ◌≢◌, refl, arith,
}
use factech.Contracts.{ok, err, denied}
use factech.Policy.{Role}
use factech.Database.{
  Db, Actor, Session, Login, Logout, first, update_where, delete_where, insert_new,
}
use factech.Database.Tx.{run}
use factech.Database.Sample.{sample, actor_one, session_one}
use factech.Accounts.{
  is_named, bars, actor_lock, actor_of, consume_login, claim_logouts, retry_logout_later,
  revoke_and_enqueue, touch, session, replace_session, insert_session, backchannel_revoke,
}
use factech.Accounts.Provision.{
  register, create_participant, insert_actor, insert_subject, subjects, set_authority,
}
use factech.Accounts.Status.{ended, may, status, status_in}
use factech.Accounts.Refines.{logs_out, touches, stop, go, Steps-refine}
use factech.Accounts.Logins.{IsReturned, consume_login_once}
use factech.Accounts.Outbox.{retry_comes_back}
use factech.Accounts.Backchannel.{backchannel_revoke_bars}
use factech.Accounts.Capacity.{none_made, signed_up, subjects_capacity}
use factech.Accounts.Authority.{set_authority_ends}

abbrev logged_out : Db ℕ
logged_out = (run (revoke_and_enqueue "k1" 2000 "q1") sample).1

logs_out_ends : status "k1" logged_out ≡ ended
unfolding run revoke_and_enqueue actor_lock session first update_where insert_new status_in
logs_out_ends = refl

Steps-refine_example :
    may (status "k1" sample) (status "k1" (run (touch "k1" 2100) logged_out).1) ≡ true
Steps-refine_example = Steps-refine "k1" sample (run (touch "k1" 2100) logged_out).1 (
    go sample logged_out (run (touch "k1" 2100) logged_out).1 (logs_out "k1" 2000 "q1" sample) (
      go logged_out (run (touch "k1" 2100) logged_out).1 (run (touch "k1" 2100) logged_out).1
        (touches "k1" 2100 logged_out) (stop (run (touch "k1" 2100) logged_out).1)))

abbrev login_one : Login
login_one = record {
  state_hash = "s1";
  browser_hash = "b1";
  nonce = "n1";
  verifier = "v1";
  expires_at = 2600;
}

abbrev returning : Db ℕ
returning = record sample { logins = login_one ∷ [] }

returned : (consume_login "s1" "b1" 2000 returning).0 ≡ ok (some login_one)
unfolding consume_login first
returned = refl

-- Another browser does not take the attempt.
other_browser : consume_login "s1" "b2" 2000 returning ≡ (ok none, returning)
unfolding consume_login first delete_where
other_browser = refl

consume_login_once_example :
    IsReturned "s1" "b1" 2000 login_one
    × Member login_one returning.logins
    × ((consume_login "s1" "b1" 2001 (consume_login "s1" "b1" 2000 returning).1).0 ≡ ok none)
consume_login_once_example =
    consume_login_once "s1" "b1" 2000 2001 returning login_one (omega arith) returned

abbrev ended_one : Session
ended_one = record session_one { active = false }

-- A delivery failed twice before.
abbrev logout_one : Logout
logout_one = record { session_id = "k1"; attempts = 2; next_attempt = 1990; lease_until = 0 }

abbrev queued : Db ℕ
queued = record sample { sessions = ended_one ∷ []; outbox = logout_one ∷ [] }

given_to_worker : (claim_logouts (λ xs. xs) 10 2000 queued).0 ≡ ended_one ∷ []
unfolding claim_logouts
given_to_worker = refl

retry_comes_back_example :
    Member ended_one (claim_logouts (λ xs. xs) 10 2300 (retry_logout_later "k1" 2000 queued)).0
retry_comes_back_example =
    retry_comes_back (λ xs. xs) 10 2000 2300 queued ended_one logout_one (λ xs x m. m) (λ xs. refl)
      here refl here refl (omega arith) (omega arith)

abbrev told : Db ℕ
told = (run (backchannel_revoke "idp" (some "s1") none "j1" 2330 2000 "q1") sample).1

is_told_true :
    run (backchannel_revoke "idp" (some "s1") none "j1" 2330 2000 "q1") sample ≡ (ok true, told)
unfolding run backchannel_revoke
is_told_true = refl

abbrev session_two : Session
session_two = record session_one {
  id = "k2";
  cookie_hash = "w2";
  created_at = 2100;
  touched_at = 2100;
  expires_at = 30900;
}

-- Without the logout token the session is made.
session_made : (run (replace_session none session_two 2100 "q2") sample).0 ≡ ok tt
unfolding run replace_session actor_lock insert_session bars first
session_made = refl

backchannel_revoke_bars_example :
    All (λ t. (is_named "idp" (some "s1") none t && t.active) ≡ false) told.sessions
    × (run (replace_session none session_two 2100 "q2") told ≡ (err denied, told))
backchannel_revoke_bars_example =
    backchannel_revoke_bars "idp" (some "s1") none "j1" 2330 2000 "q1" sample told none session_two
      2100 "q2" is_told_true refl refl refl (omega arith)

abbrev joined : Db ℕ
joined = (run (register "t1" "idp" "s2" "u2" "p2" 2000 "q1") sample).1

abbrev actor_two : Actor
actor_two = record {
  id = "u2";
  issuer = "idp";
  sub = "s2";
  tenant = "t1";
  roles = Role.participant ∷ [];
  epoch = 0;
  active = true;
}

has_joined : run (register "t1" "idp" "s2" "u2" "p2" 2000 "q1") sample ≡ (ok actor_two, joined)
unfolding run register create_participant insert_actor insert_subject subjects first
has_joined = refl

few : subjects "t1" sample ≤ 1000
unfolding subjects
few = omega arith

subjects_capacity_example : subjects "t1" joined ≤ 1000
subjects_capacity_example =
    subjects_capacity "t1" sample joined
      (signed_up "t1" "idp" "s2" "u2" "p2" 2000 "q1" sample joined (none_made joined)) few

abbrev user_one : String
user_one = "u1"

abbrev suspended : Db ℕ
suspended = (run (set_authority "a1" "u1" false [] 2000 "q1") sample).1

is_suspended : run (set_authority "a1" "u1" false [] 2000 "q1") sample ≡ (ok tt, suspended)
unfolding run set_authority actor_lock first
is_suspended = refl

actor_found : actor_of "u1" sample ≡ some actor_one
unfolding first
actor_found = refl

set_authority_ends_example :
    (user_one ≢ "a1")
    × All (λ t. (t.actor_id == "u1" && t.active) ≡ false) suspended.sessions
    × (run (replace_session none session_two 2100 "q2") suspended ≡ (err denied, suspended))
set_authority_ends_example =
    set_authority_ends "a1" "u1" false [] 2000 "q1" sample suspended actor_one none session_two 2100
      "q2" is_suspended actor_found refl (omega arith)
