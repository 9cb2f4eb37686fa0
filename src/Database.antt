-- ===== src/Database.antt =====
-- packages/face-auth/src/facetech_auth/schema.py: the tables that the gateway decides by, as lists of
-- rows, and postgres.py's transactions over them. Columns that no modelled code reads are left out.
mod Rows
pub mod Tx
pub mod Keeps
pub mod Sample
unfoldable pub use Rows.*
use factech.Base.{
  ℕ, ◌≤◌, Bool, true, false, not, ◌&&◌, ◌||◌, Option, none, some, List, [], ◌∷◌, ◌++◌, String, any,
  filter, leb, ltb, ◌==◌, string_eq, nat_eq, if◌then◌else◌,
}
use factech.Policy.{ReviewGrant, Role}
use factech.Challenge.{Params}

pub data Kind : Type 0 where
  subject round capture receipt : Kind

abbrev pub kind_beq : Kind → Kind → Bool
kind_beq subject subject = true
kind_beq round round = true
kind_beq capture capture = true
kind_beq receipt receipt = true
kind_beq _ _ = false

-- The kinds of the deletion ledger and of purge jobs.
pub data Purge : Type 0 where
  template capture : Purge

abbrev pub purge_beq : Purge → Purge → Bool
purge_beq template template = true
purge_beq Purge.capture Purge.capture = true
purge_beq _ _ = false

pub record Actor : Type 0 where
  pub id : String
  pub issuer : String
  pub sub : String
  pub tenant : String
  pub roles : List Role
  pub epoch : ℕ
  pub active : Bool

pub record Session : Type 0 where
  pub id : String
  pub cookie_hash : String
  pub actor_id : String
  pub epoch : ℕ
  pub issuer : String
  pub sub : String
  pub provider_sid : String
  pub authenticated_at : ℕ
  pub created_at : ℕ
  pub touched_at : ℕ
  pub expires_at : ℕ
  pub csrf_hash : String
  pub token_ciphertext : String
  pub token_hash : String
  pub active : Bool

pub record Login : Type 0 where
  pub state_hash : String
  pub browser_hash : String
  pub nonce : String
  pub verifier : String
  pub expires_at : ℕ

pub record Grant : Type 0 where
  pub id : String
  pub grant : ReviewGrant

-- A row of the logout outbox.
pub record Logout : Type 0 where
  pub session_id : String
  pub attempts : ℕ
  pub next_attempt : ℕ
  pub lease_until : ℕ

pub record Replay : Type 0 where
  pub issuer : String
  pub jti : String
  pub expires_at : ℕ

pub record Revocation : Type 0 where
  pub issuer : String
  pub sub : Option String
  pub sid : Option String
  pub expires_at : ℕ

pub record Resource : Type 0 where
  pub tenant : String
  pub kind : Kind
  pub id : String
  pub owner_actor_id : Option String
  pub round_id : Option String
  pub generation : ℕ
  pub data_ref : Option String
  pub active : Bool
  pub expires_at : Option ℕ

pub record Challenge (F : Type 0) : Type 0 where
  pub digest : String
  pub actor_id : String
  pub session_id : String
  pub tenant : String
  pub subject_id : String
  pub generation : ℕ
  pub operation : String
  pub action : String
  pub params : Params F
  pub issued_at : ℕ
  pub expires_at : ℕ
  pub consumed : Bool
  pub operation_id : Option String

pub record Template : Type 0 where
  pub id : String
  pub tenant : String
  pub subject_id : String
  pub owner_actor_id : String
  pub active : Bool
  pub revoked_at : Option ℕ
  pub model_fingerprint : String
  pub expires_at : Option ℕ

pub data State : Type 0 where
  processing completed failed : State

-- The saved outcome of an operation, by the entries that code reads again.
pub record Outcome : Type 0 where
  pub error : Option String
  pub accepted : Bool
  pub template_id : Option String

pub record Operation : Type 0 where
  pub id : String
  pub tenant : String
  pub actor_id : String
  pub subject_id : String
  pub key : String
  pub operation : String
  pub request_digest : String
  pub state : State
  pub status : Option ℕ
  pub result : Option Outcome
  pub created_at : ℕ
  pub expires_at : ℕ

pub record Consent : Type 0 where
  pub tenant : String
  pub subject_id : String
  pub scope : String
  pub actor_id : String
  pub text_version : String
  pub granted : Bool
  pub revision : ℕ

pub record Deletion : Type 0 where
  pub tenant : String
  pub kind : Purge
  pub id : String
  pub actor_id : String
  pub at : ℕ

pub data JobState : Type 0 where
  pending blocked done : JobState

pub record Job : Type 0 where
  pub tenant : String
  pub kind : Purge
  pub id : String
  pub attempts : ℕ
  pub next_attempt : ℕ
  pub lease_until : ℕ
  pub state : JobState

pub data RecordingState : Type 0 where
  pending stored deleted : RecordingState

pub record Recording : Type 0 where
  pub tenant : String
  pub id : String
  pub subject_id : String
  pub actor_id : String
  pub round_id : String
  pub revision : ℕ
  pub state : RecordingState
  pub created_at : ℕ
  pub expires_at : ℕ

pub record Audit : Type 0 where
  pub request_id : String
  pub actor_id : Option String
  pub action : String
  pub resource_id : Option String
  pub outcome : String
  pub at : ℕ

pub record Db (F : Type 0) : Type 0 where
  -- face_auth.recovery_state, the row 'reads'
  pub reads_enabled : Bool
  pub actors : List Actor
  pub sessions : List Session
  pub resources : List Resource
  pub logins : List Login
  pub outbox : List Logout
  pub replays : List Replay
  pub revocations : List Revocation
  pub grants : List Grant
  pub challenges : List (Challenge F)
  pub templates : List Template
  pub operations : List Operation
  pub consents : List Consent
  pub consent_events : List Consent
  pub deletion_ledger : List Deletion
  pub purge_jobs : List Job
  pub recordings : List Recording
  pub audit : List Audit
