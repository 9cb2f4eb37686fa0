-- ===== src/Privacy.antt =====
-- packages/face-auth/src/facetech_auth/privacy.py: consent to be recorded, and a recording from its
-- reservation to its receipt. Hashes, what the scan holds, and the outcome of the write into the
-- evaluation store are arguments.
pub mod Consented
mod Tests
use factech.Base.{
  ℕ, ◌+◌, ◌/◌, min, Bool, true, false, not, ◌&&◌, ◌||◌, Option, none, some, List, [], ◌∷◌, ◌++◌,
  String, any, leb, ltb, nat_beq, ◌==◌, string_eq, if◌then◌else◌,
}
use factech.Contracts.{Denied, Result, ok, err, unavailable}
use factech.Database.{
  Db, Kind, Resource, Challenge, Operation, State, Consent, Recording, RecordingState, Purge, Audit,
  first, update_where,
}
use factech.Database.Tx.{Tx, pure, raise, gets, execute, deny_if, run, ◌>>=◌, ◌>>◌}
use factech.Guard.{Access, Target, guard, resource_filter}
use factech.Lifecycle.{schedule, recording_key, is_deleted}
use factech.Operations.{is_after}

abbrev pub evaluation_ttl : ℕ
evaluation_ttl = 604800

abbrev pub is_consent : String → String → String → Consent → Bool
is_consent tenant subject scope c =
    c.tenant == tenant && c.subject_id == subject && c.scope == scope

abbrev pub revision_of : String → String → Option Consent → Option ℕ
revision_of actor version none = none
revision_of actor version (some c) =
    if not c.granted || not (c.actor_id == actor) || not (c.text_version == version)
    then none
    else some c.revision

-- What `begin` returns.
pub data Ticket : Type 0 where
  skip : String → Ticket
  reserved : Bool → Recording → Ticket

-- What `finish` returns.
pub data Outcome : Type 0 where
  stored : String → Outcome
  skipped : String → Outcome
  pending : String → Outcome
  failed : String → Outcome

abbrev pub is_stored : RecordingState → Bool
is_stored RecordingState.stored = true
is_stored _ = false

abbrev pub is_completed : State → Bool
is_completed State.completed = true
is_completed _ = false

-- The part of a request that is read here: the hash of tenant, actor and idempotency key, the key, the
-- hash of the nonce, and the digest of the scan.
pub record Request : Type 0 where
  pub access : Access
  pub identity : String
  pub key : String
  pub nonce_digest : String
  pub digest : String

abbrev pub of_key : String → String → Operation → Bool
of_key actor key o = o.actor_id == actor && o.key == key

-- The operation that a recording is kept of.
abbrev pub is_recorded : Recording → Request → Operation → Bool
is_recorded r rq o =
    o.actor_id == r.actor_id
    && o.subject_id == r.subject_id
    && o.key == rq.key
    && o.request_digest == rq.digest
    && is_completed o.state

abbrev pub is_same : Option ℕ → ℕ → Bool
is_same none n = false
is_same (some m) n = nat_beq m n

abbrev pub stored_resource : Kind → Recording → Resource
stored_resource kind r = record {
  tenant = r.tenant;
  kind = kind;
  id = r.id;
  owner_actor_id = some r.actor_id;
  round_id = some r.round_id;
  generation = 0;
  data_ref = some r.id;
  active = true;
  expires_at = some r.expires_at;
}

abbrev pub min_expiry : ℕ → Option ℕ → ℕ
min_expiry t none = t
min_expiry t (some e) = min t e

abbrev pub is_open_round : String → String → ℕ → Resource → Bool
is_open_round tenant round_id now r =
    resource_filter tenant Kind.round round_id r && r.active && is_after r.expires_at now

-- What is checked of the recording's row before it is kept.
abbrev pub is_void : Recording → ℕ → Option ℕ → Option Recording → Bool
is_void r now revision none = true
is_void r now revision (some current) =
    is_deleted current.state || leb current.expires_at now || not (is_same revision r.revision)

abbrev pub is_kept : Option Recording → Bool
is_kept none = false
is_kept (some current) = is_stored current.state

-- The row that a reservation inserts.
abbrev pub reservation : String → Request → Target → ℕ → ℕ → ℕ → Option ℕ → Recording
reservation round_id rq target revision now issued_at round_end = record {
  tenant = rq.access.principal.tenant_id;
  id = rq.identity;
  subject_id = target.id;
  actor_id = rq.access.principal.actor_id;
  round_id = round_id;
  revision = revision;
  state = RecordingState.pending;
  created_at = now;
  expires_at = min_expiry (issued_at / 1000 + evaluation_ttl) round_end;
}

-- The keys of the capture and its receipt.
abbrev pub is_taken : Recording → Resource → Bool
is_taken r q =
    resource_filter r.tenant Kind.capture r.id q || resource_filter r.tenant Kind.receipt r.id q

module _ {F : Type 0} where
  -- consent_revision, for `evaluation_recording`
  unfoldable pub consent_revision : String → String → String → Db F → Option ℕ
  consent_revision tenant subject actor db =
      revision_of actor "evaluation-recording-v1"
        (first (is_consent tenant subject "evaluation_recording") db.consents)

  abbrev pub is_bound : Request → Target → Challenge F → Bool
  is_bound rq target c =
      c.digest == rq.nonce_digest
      && c.actor_id == rq.access.principal.actor_id
      && c.subject_id == target.id
      && c.session_id == rq.access.session_id

  abbrev pub reserve_bound :
      String → Request → Target → ℕ → ℕ → Resource → Option (Challenge F) → Tx (Db F) Ticket
  reserve_bound round_id rq target revision now round none = pure (Ticket.skip "NO_BOUND_CHALLENGE")
  reserve_bound round_id rq target revision now round (some issued) =
      let r = reservation round_id rq target revision now issued.issued_at round.expires_at in
      (do
        execute (λ db. record db { recordings = db.recordings ++ r ∷ [] })
        pure (Ticket.reserved false r))

  abbrev pub reserve_in : String → Request → Target → ℕ → ℕ → Option Resource → Tx (Db F) Ticket
  reserve_in round_id rq target revision now none = pure (Ticket.skip "ROUND_CLOSED")
  reserve_in round_id rq target revision now (some round) = do
    issued ← gets (λ db. first (is_bound rq target) db.challenges)
    reserve_bound round_id rq target revision now round issued

  abbrev pub reserve_consented : String → Request → Target → ℕ → ℕ → Option ℕ → Tx (Db F) Ticket
  reserve_consented round_id rq target at now none = pure (Ticket.skip "NO_EVALUATION_CONSENT")
  reserve_consented round_id rq target at now (some revision) = do
    round ←
        gets (λ db. first (is_open_round rq.access.principal.tenant_id round_id at) db.resources)
    reserve_in round_id rq target revision now round

  abbrev pub reserve_new : String → Request → Target → ℕ → ℕ → Option Recording → Tx (Db F) Ticket
  reserve_new round_id rq target at now (some existing) = pure (Ticket.reserved true existing)
  reserve_new round_id rq target at now none = do
    replayed ← gets (λ db. any (of_key rq.access.principal.actor_id rq.key) db.operations)
    revision ←
        gets (consent_revision rq.access.principal.tenant_id target.id rq.access.principal.actor_id)
    if replayed
        then pure (Ticket.skip "NO_RECORDING_FOR_REPLAY")
        else reserve_consented round_id rq target at now revision

  -- reserve, the inner function of `begin`; `at` and `now` are its two readings of the clock
  unfoldable pub reserve : Result (Unit {0}) → String → Request → ℕ → ℕ → ℕ → Tx (Db F) Ticket
  reserve gate round_id rq guarded at now = do
    target ← guard gate guarded rq.access Kind.subject
    existing ←
        gets (λ db. first (recording_key rq.access.principal.tenant_id rq.identity) db.recordings)
    reserve_new round_id rq target at now existing

  -- The writes of a recording that is kept.
  abbrev pub keep : Recording → String → ℕ → Db F → Db F
  keep r request_id now db = record db {
    resources =
        db.resources ++ stored_resource Kind.capture r ∷ stored_resource Kind.receipt r ∷ [];
    recordings =
        update_where (recording_key r.tenant r.id) (λ q. record q { state = RecordingState.stored })
          db.recordings;
    audit =
        db.audit
        ++ record {
          request_id = request_id;
          actor_id = some r.actor_id;
          action = "evaluation.record";
          resource_id = some r.id;
          outcome = "stored";
          at = now;
        }
          ∷ [];
  }

  abbrev pub drop_recording : Recording → ℕ → Db F → Db F
  drop_recording r now db = schedule r.tenant Purge.capture r.id r.actor_id now db

  abbrev pub written : Result (Unit {0}) → Tx (Db F) (Unit {0})
  written r db = (r, db)

  abbrev pub conclude : Recording → Request → Result (Unit {0}) → ℕ → Bool → Tx (Db F) Outcome
  conclude r rq write now true = do
    written write
    taken ← gets (λ db. any (is_taken r) db.resources)
    deny_if taken unavailable
    execute (keep r rq.access.request_id now)
    pure (Outcome.stored r.id)
  conclude r rq write now false = do
    execute (drop_recording r now)
    pure (Outcome.skipped "NO_COMPLETED_OPERATION")

  -- activate, the inner function of `finish`; `replayed` is the decision's, `write` what `write_sync` does
  unfoldable pub activate :
      Result (Unit {0})
      → Access
      → Recording
      → Bool
      → Request
      → Bool
      → Result (Unit {0})
      → ℕ
      → ℕ
      → Tx (Db F) Outcome
  activate gate fresh r existing rq replayed write guarded now = do
    guard gate guarded fresh Kind.subject
    current ← gets (λ db. first (recording_key r.tenant r.id) db.recordings)
    revision ← gets (consent_revision r.tenant r.subject_id r.actor_id)
    completed ← gets (λ db. any (is_recorded r rq) db.operations)
    if is_void r now revision current
        then (do execute (drop_recording r now); pure (Outcome.skipped "CONSENT_CHANGED"))
        else if is_kept current
        then pure (Outcome.stored r.id)
        else if replayed || existing
        then pure (Outcome.pending "RECONCILIATION_REQUIRED")
        else conclude r rq write now completed

  -- `except (Denied, OSError)`
  abbrev pub or_failed : Recording → ℕ → Result Outcome × Db F → Outcome × Db F
  or_failed r later (ok outcome, db) = (outcome, db)
  or_failed r later (err d, db) =
      (Outcome.failed "RECORDING_UNAVAILABLE", drop_recording r later db)

  abbrev pub finish_authorized :
      Result (Unit {0})
      → Result Access
      → Recording
      → Bool
      → Request
      → Bool
      → Result (Unit {0})
      → ℕ
      → ℕ
      → ℕ
      → Db F
      → Outcome × Db F
  finish_authorized gate (err d) r existing rq replayed write guarded now later db =
      or_failed r later (err d, db)
  finish_authorized gate (ok fresh) r existing rq replayed write guarded now later db =
      or_failed r later (run (activate gate fresh r existing rq replayed write guarded now) db)

  -- finish; `fresh` is what `reauthorize` gives
  unfoldable pub finish :
      Result (Unit {0})
      → Result Access
      → Ticket
      → Request
      → Bool
      → Result (Unit {0})
      → (ℕ × ℕ × ℕ × ℕ)
      → Db F
      → Outcome × Db F
  finish gate fresh (Ticket.skip reason) rq replayed write times db = (Outcome.skipped reason, db)
  finish gate fresh (Ticket.reserved existing r) rq replayed write (at, guarded, now, later) db =
      if is_deleted r.state || leb r.expires_at at
      then (Outcome.skipped "RECORDING_DELETED", db)
      else finish_authorized gate fresh r existing rq replayed write guarded now later db
