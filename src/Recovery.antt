-- ===== src/Recovery.antt =====
-- The return of a backup: packages/face-auth/src/facetech_auth/recovery.py with `recover` of
-- postgres.py. Opening the sealed ledger and the templates' ciphertexts are arguments.
pub mod Restored
pub mod Closed
pub mod Opened
mod Tests
use factech.Base.{
  ℕ, ◌+◌, ◌-◌, Bool, true, false, not, ◌&&◌, ◌||◌, Option, none, some, List, [], ◌∷◌, ◌++◌, String,
  any, filter, length, leb, ltb, nat_beq, ◌==◌, string_eq, if◌then◌else◌,
}
use factech.Contracts.{Denied, Result, ok, err, unavailable}
use factech.Policy.{given}
use factech.Database.{
  Db, Session, Resource, Kind, Challenge, Template, Operation, State, Consent, Deletion, Purge,
  first, update_where, delete_where, insert_new,
}
use factech.Database.Tx.{Tx, pure, raise, gets, execute, deny_if, run, ◌>>=◌, ◌>>◌}
use factech.Guard.{resource_filter}
use factech.Lifecycle.{deletion_key, template_key, is_processing, is_capture}
use factech.Lifecycle.Expiry.{Mark, schedule_mark, schedule_marks}
use factech.Operations.{failed_with, is_after}

-- The counts that `recover` returns.
pub record Summary : Type 0 where
  pub sessions_revoked : ℕ
  pub nonces_spent : ℕ
  pub operations_failed : ℕ
  pub ledger_templates : ℕ
  pub ledger_captures : ℕ

-- The sealed document, with times that are not negative.
pub record Snapshot : Type 0 where
  pub through : ℕ
  pub entries : List Deletion
  pub consents : List Consent

-- RestoreGate
pub record Gate : Type 0 where
  pub required_through : ℕ
  pub required_digest : Option String
  pub max_age : ℕ
  pub enabled : Bool

abbrev pub check : Gate → Result (Unit {0})
check gate = if gate.enabled then ok tt else err unavailable

abbrev pub is_digest : Option String → String → Bool
is_digest none digest = false
is_digest (some required) digest = digest == required

-- `none` is a document that is not of the form; `digest` is the hash of the sealed ledger.
unfoldable pub validate : Gate → Option Snapshot → ℕ → String → Result Snapshot
validate gate none now digest = err unavailable
validate gate (some snapshot) now digest =
    if not (given gate.required_digest)
      || not (is_digest gate.required_digest digest)
      || ltb snapshot.through gate.required_through
      || ltb now snapshot.through
      || ltb gate.max_age (now - snapshot.through)
    then err unavailable
    else ok snapshot

abbrev pub is_consent : String → String → String → Consent → Bool
is_consent tenant subject scope c =
    c.tenant == tenant && c.subject_id == subject && c.scope == scope

-- INSERT ... ON CONFLICT DO UPDATE ... WHERE the stored revision is not later
unfoldable pub upsert_consent : Consent → List Consent → List Consent
upsert_consent c table =
    if any (is_consent c.tenant c.subject_id c.scope) table
    then update_where (λ d. is_consent c.tenant c.subject_id c.scope d && leb d.revision c.revision)
        (λ d. c) table
    else table ++ c ∷ []

unfoldable pub upsert_consents : List Consent → List Consent → List Consent
upsert_consents [] table = table
upsert_consents (c ∷ cs) table = upsert_consents cs (upsert_consent c table)

-- A consent that lets a restored template stay.
unfoldable pub permits : Template → Consent → Bool
permits t c =
    is_consent t.tenant t.subject_id "template_authentication" c
    && c.granted
    && c.text_version == "template-authentication-v1"
    && c.actor_id == t.owner_actor_id

unfoldable pub is_kept : ℕ → List Consent → Template → Bool
is_kept now consents t = t.active && is_after t.expires_at now && any (permits t) consents

-- model_fingerprint in model_ids
abbrev pub is_model : List String → Template → Bool
is_model model_ids t = any (λ m. m == t.model_fingerprint) model_ids

abbrev pub is_active_template : Deletion → Template → Bool
is_active_template e t = template_key e.tenant e.id t && t.active

abbrev pub is_active_capture : Deletion → Resource → Bool
is_active_capture e r = resource_filter e.tenant Kind.capture e.id r && r.active

abbrev pub capture_marks : List Resource → List Mark
capture_marks [] = []
capture_marks (r ∷ rs) =
    record { tenant = r.tenant; kind = Purge.capture; id = r.id; owner = r.owner_actor_id }
    ∷ capture_marks rs

module _ {F : Type 0} where
  unfoldable pub quarantine : Db F → Db F
  quarantine db = record db { reads_enabled = false }

  -- The revocation of one entry of the ledger.
  abbrev pub revoke_entry : Purge → Deletion → Db F → Db F
  revoke_entry Purge.template e db = record db {
    templates =
        update_where (is_active_template e)
          (λ t. record t { active = false; revoked_at = some e.at }) db.templates;
  }
  revoke_entry Purge.capture e db = record db {
    resources = update_where (is_active_capture e) (λ r. record r { active = false }) db.resources;
  }

  unfoldable pub replay_entry : Deletion → Db F → Db F
  replay_entry e db = revoke_entry e.kind e (record db {
    deletion_ledger = insert_new (deletion_key e.tenant e.kind e.id) e db.deletion_ledger;
  })

  unfoldable pub replay_ledger : List Deletion → Db F → Db F
  replay_ledger [] db = db
  replay_ledger (e ∷ ledger) db = replay_ledger ledger (replay_entry e db)

  -- The first three statements of `recover`.
  unfoldable pub end_all : Db F → Db F
  end_all db = record db {
    sessions =
        update_where (λ (s : Session). s.active) (λ s. record s { active = false }) db.sessions;
    challenges =
        update_where (λ (c : Challenge F). not c.consumed) (λ c. record c { consumed = true })
          db.challenges;
    operations =
        update_where (λ (o : Operation). is_processing o.state)
          (λ o. record o {
            state = State.failed;
            status = some 409;
            result = some (failed_with "RECOVERED");
          })
          db.operations;
  }

  unfoldable pub recover : List Deletion → Db F → Db F
  recover ledger db = replay_ledger ledger (end_all db)

  -- How many rows the ledger's entries of a kind changed.
  unfoldable pub entry_counts : List Deletion → Db F → ℕ × ℕ
  entry_counts [] db = (0, 0)
  entry_counts (e ∷ ledger) db =
      let rest = entry_counts ledger (replay_entry e db) in
      elim e.kind [
        | Purge.template ↦ (length (filter (is_active_template e) db.templates) + rest.0, rest.1)
        | Purge.capture ↦ (rest.0, length (filter (is_active_capture e) db.resources) + rest.1)
      ]

  unfoldable pub summary : List Deletion → Db F → Summary
  summary ledger db =
      let counts = entry_counts ledger (end_all db) in
      record {
        sessions_revoked = length (filter (λ (s : Session). s.active) db.sessions);
        nonces_spent = length (filter (λ (c : Challenge F). not c.consumed) db.challenges);
        operations_failed =
            length (filter (λ (o : Operation). is_processing o.state) db.operations);
        ledger_templates = counts.0;
        ledger_captures = counts.1;
      }

  -- A template without authority: a purge job for it, and its row goes.
  abbrev pub drop_template : ℕ → Template → Tx (Db F) (Unit {0})
  drop_template now t = do
    schedule_mark
        (record {
          tenant = t.tenant;
          kind = Purge.template;
          id = t.id;
          owner = some t.owner_actor_id;
        })
        now (some t.owner_actor_id)
    execute
        (λ db. record db { templates = delete_where (λ (u : Template). u.id == t.id) db.templates })

  -- The loop over the templates; `opens` says whose ciphertext opens.
  unfoldable pub check_templates :
      ℕ → List String → (Template → Bool) → List Template → Tx (Db F) (Unit {0})
  check_templates now model_ids opens [] = pure tt
  check_templates now model_ids opens (t ∷ ts) = do
    consents ← gets (λ db. db.consents)
    if is_kept now consents t
        then deny_if (not (is_model model_ids t && opens t)) unavailable
        else drop_template now t
    check_templates now model_ids opens ts

  -- apply, the inner function of `enable_restored_reads`
  unfoldable pub apply : Snapshot → ℕ → List String → (Template → Bool) → Tx (Db F) Summary
  apply snapshot now model_ids opens = do
    counts ← gets (summary snapshot.entries)
    execute (recover snapshot.entries)
    execute (λ db. record db { consents = upsert_consents snapshot.consents db.consents })
    templates ← gets (λ db. db.templates)
    check_templates now model_ids opens templates
    captures ←
        gets (λ db. capture_marks (filter (λ (r : Resource). is_capture r.kind) db.resources))
    schedule_marks captures now
    execute (λ db. record db { reads_enabled = true })
    pure counts

  abbrev pub open_gate : Gate → Result Summary × Db F → Result Summary × Gate × Db F
  open_gate gate (ok counts, db) = (ok counts, record gate { enabled = true }, db)
  open_gate gate (err d, db) = (err d, gate, db)

  abbrev pub apply_valid :
      Gate
      → Result Snapshot
      → ℕ
      → List String
      → (Template → Bool)
      → Db F
      → Result Summary × Gate × Db F
  apply_valid gate (err d) now model_ids opens db = (err d, gate, db)
  apply_valid gate (ok snapshot) now model_ids opens db =
      open_gate gate (run (apply snapshot now model_ids opens) db)

  abbrev pub enable_opened :
      Gate
      → Result (Option Snapshot)
      → ℕ
      → String
      → List String
      → (Template → Bool)
      → Db F
      → Result Summary × Gate × Db F
  enable_opened gate (err d) now digest model_ids opens db = (err d, gate, db)
  enable_opened gate (ok document) now digest model_ids opens db =
      apply_valid gate (validate gate document now digest) now model_ids opens db

  -- enable_restored_reads; `opened` is what the cipher makes of the sealed ledger
  unfoldable pub enable_restored_reads :
      Gate
      → Result (Option Snapshot)
      → ℕ
      → String
      → List String
      → (Template → Bool)
      → Db F
      → Result Summary × Gate × Db F
  enable_restored_reads gate opened now digest model_ids opens db =
      enable_opened (record gate { enabled = false }) opened now digest model_ids opens
        (quarantine db)
