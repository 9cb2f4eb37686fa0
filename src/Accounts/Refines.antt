-- ===== src/Accounts/Refines.antt =====
-- Runs of postgres.py, provision.py and recovery.py on the sessions: each transaction that commits,
-- in any order and for any arguments, against the specification of a session's life.
use factech.Base.{ℕ, Bool, true, Option, List, String, ◌≡◌, refl, subst}
use factech.Policy.{Role}
use factech.Database.{Actor, Grant, Template, Db, Session, Login, Logout, Deletion}
use factech.Database.Tx.{Tx, run}
use factech.Database.Keeps.{Keeps, keeps-of, keeps_run}
use factech.Accounts.{
  put_login, consume_login, replace_session, touch, rotate_token, revoke_and_enqueue,
  logout_delivered, claim_logouts, retry_logout_later, backchannel_revoke,
}
use factech.Accounts.Provision.{create_account, set_authority, review_grant, revoke_grant, register}
use factech.Accounts.Status.{
  Status, absent, live, ended, may, may_refl, may_trans, status, Later, Later-IsPreorder,
  Later-of_same, may-of_later,
}
use factech.Accounts.Steps.{
  put_login-Keeps, consume_login-Keeps, replace_session-Keeps, touch-Keeps, rotate_token-Keeps,
  revoke_and_enqueue-Keeps, backchannel_revoke-Keeps, set_authority-Keeps,
}
use factech.Accounts.Elsewhere.{
  create_account-Keeps, review_grant-Keeps, revoke_grant-Keeps, register-Keeps,
}
use factech.Accounts.Restores.{recover-Later, restored-Later}
use factech.Contracts.{Result}
use factech.Recovery.{Gate, Snapshot, recover, enable_restored_reads}

ended_only : (x : Status) → may ended x ≡ true → x ≡ ended
ended_only absent h = absurd (cc)
ended_only live h = absurd (cc)
ended_only ended h = refl

-- One transaction, as it leaves the database.
pub data Step {F : Type 0} : Db F → Db F → Type 0 where
  logs_in : (l : Login) (db : Db F) → Step db (run (put_login l) db).1
  returns :
      (state_hash browser_hash : String) (now : ℕ) (db : Db F)
      → Step db (run (consume_login state_hash browser_hash now) db).1
  begins :
      (old : Option String) (s : Session) (now : ℕ) (request_id : String) (db : Db F)
      → Step db (run (replace_session old s now request_id) db).1
  touches : (session_id : String) (now : ℕ) (db : Db F) → Step db (run (touch session_id now) db).1
  rotates :
      (session_id token_ciphertext token_hash : String) (now : ℕ) (db : Db F)
      → Step db (run (rotate_token session_id token_ciphertext token_hash now) db).1
  logs_out :
      (session_id : String) (now : ℕ) (request_id : String) (db : Db F)
      → Step db (run (revoke_and_enqueue session_id now request_id) db).1
  delivers : (session_id : String) (db : Db F) → Step db (logout_delivered session_id db)
  leases :
      (order : List Logout → List Logout) (limit now : ℕ) (db : Db F)
      → Step db (claim_logouts order limit now db).1
  postpones :
      (session_id : String) (now : ℕ) (db : Db F) → Step db (retry_logout_later session_id now db)
  is_told :
      (issuer : String) (sub sid : Option String) (jti : String) (expires_at now : ℕ)
      (request_id : String) (db : Db F)
      → Step db (run (backchannel_revoke issuer sub sid jti expires_at now request_id) db).1
  changes :
      (administrator_id actor_id : String) (active : Bool) (roles : List Role) (now : ℕ)
      (request_id : String) (db : Db F)
      → Step db (run (set_authority administrator_id actor_id active roles now request_id) db).1
  provisions :
      (administrator_id : String) (a : Actor) (subject : String) (now : ℕ) (request_id : String)
      (db : Db F)
      → Step db (run (create_account administrator_id a subject now request_id) db).1
  grants :
      (administrator_id : String) (g : Grant) (now : ℕ) (request_id : String) (db : Db F)
      → Step db (run (review_grant administrator_id g now request_id) db).1
  ungrants :
      (administrator_id grant_id actor_id : String) (now : ℕ) (request_id : String) (db : Db F)
      → Step db (run (revoke_grant administrator_id grant_id actor_id now request_id) db).1
  registers :
      (tenant issuer sub actor_id subject : String) (now : ℕ) (request_id : String) (db : Db F)
      → Step db (run (register tenant issuer sub actor_id subject now request_id) db).1
  recovers : (ledger : List Deletion) (db : Db F) → Step db (recover ledger db)
  restores :
      (gate : Gate) (opened : Result (Option Snapshot)) (now : ℕ) (digest : String)
      (model_ids : List String) (opens : Template → Bool) (db : Db F)
      → Step db (enable_restored_reads gate opened now digest model_ids opens db).2

-- Any number of calls, one after the other.
pub data Steps {F : Type 0} : Db F → Db F → Type 0 where
  stop : (db : Db F) → Steps db db
  go : (s t u : Db F) → Step s t → Steps t u → Steps s u

module _ {F : Type 0} where
  runs : {A : Type 0} {m : Tx (Db F) A} → Keeps Later m → (db : Db F) → Later db (run m db).1
  runs k db = keeps-of (keeps_run Later-IsPreorder k) db

  step-Later : (s t : Db F) → Step s t → Later s t
  unfolding logout_delivered claim_logouts retry_logout_later
  step-Later s t (logs_in l db) = runs (put_login-Keeps l) db
  step-Later s t (returns state_hash browser_hash now db) =
      runs (consume_login-Keeps state_hash browser_hash now) db
  step-Later s t (begins old n now request_id db) =
      runs (replace_session-Keeps old n now request_id) db
  step-Later s t (touches session_id now db) = runs (touch-Keeps session_id now) db
  step-Later s t (rotates session_id token_ciphertext token_hash now db) =
      runs (rotate_token-Keeps session_id token_ciphertext token_hash now) db
  step-Later s t (logs_out session_id now request_id db) =
      runs (revoke_and_enqueue-Keeps session_id now request_id) db
  step-Later s t (delivers session_id db) = Later-of_same db (logout_delivered session_id db) refl
  step-Later s t (leases order limit now db) =
      Later-of_same db (claim_logouts order limit now db).1 refl
  step-Later s t (postpones session_id now db) =
      Later-of_same db (retry_logout_later session_id now db) refl
  step-Later s t (is_told issuer sub sid jti expires_at now request_id db) =
      runs (backchannel_revoke-Keeps issuer sub sid jti expires_at now request_id) db
  step-Later s t (changes administrator_id actor_id active roles now request_id db) =
      runs (set_authority-Keeps administrator_id actor_id active roles now request_id) db
  step-Later s t (provisions administrator_id a subject now request_id db) =
      runs (create_account-Keeps administrator_id a subject now request_id) db
  step-Later s t (grants administrator_id g now request_id db) =
      runs (review_grant-Keeps administrator_id g now request_id) db
  step-Later s t (ungrants administrator_id grant_id actor_id now request_id db) =
      runs (revoke_grant-Keeps administrator_id grant_id actor_id now request_id) db
  step-Later s t (registers tenant issuer sub actor_id subject now request_id db) =
      runs (register-Keeps tenant issuer sub actor_id subject now request_id) db
  step-Later s t (recovers ledger db) = recover-Later ledger db
  step-Later s t (restores gate opened now digest model_ids opens db) =
      restored-Later gate opened now digest model_ids opens db

  -- In every sequence of transactions over logins, sessions and the logout outbox, of `create_account`,
  -- `set_authority`, `review_grant`, `revoke_grant`, `register`, `recover` and `enable_restored_reads`,
  -- with any arguments and whether each returns or is rolled back: a session that is absent may be
  -- made, a live one may end, and none that is live or has ended is forgotten, nor is one that has ended
  -- live again.
  pub Steps-refine :
      (session_id : String) (s t : Db F)
      → Steps s t
      → may (status session_id s) (status session_id t) ≡ true
  Steps-refine i s t (stop db) = may_refl (status i db)
  Steps-refine i s t (go a b c first_step rest) =
      may_trans (status i a) (status i b) (status i c)
        (may-of_later i a b (step-Later a b first_step)) (Steps-refine i b c rest)

  -- A session that has ended is ended after any run.
  pub ended_stays :
      (session_id : String) (s t : Db F)
      → Steps s t
      → status session_id s ≡ ended
      → status session_id t ≡ ended
  ended_stays i s t run_of h =
      ended_only (status i t) (subst (λ x. may x (status i t) ≡ true) h (Steps-refine i s t run_of))
