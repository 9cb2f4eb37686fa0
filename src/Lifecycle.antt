-- ===== src/Lifecycle.antt =====
-- packages/face-auth/src/facetech_auth/lifecycle.py: revocation of access in the caller's transaction,
-- and purge jobs with leases and a bound on attempts. Each function below is one transaction; the
-- deletion from the separate evaluation store between two of them either works or does not.
pub mod Revoke
pub mod Jobs
pub mod Leases
pub mod Withdrawal
pub mod Expiry
mod Tests
use factech.Base.{
  ℕ, suc, ◌+◌, ◌-◌, ◌*◌, ◌^◌, ◌≤◌, ◌<◌, min, max, Bool, true, false, not, ◌&&◌, ◌||◌, Option, none,
  some, List, [], ◌∷◌, ◌++◌, String, any, filter, map, take, length, leb, ltb, nat_beq, ◌==◌,
  string_eq, if◌then◌else◌,
}
use factech.Policy.{is_text}
use factech.Database.{
  Db, Kind, Purge, purge_beq, Resource, Template, Operation, State, Outcome, Job, JobState,
  Recording, RecordingState, Deletion, first, update_where, delete_where, insert_new,
}

abbrev pub max_attempts : ℕ
max_attempts = 5

-- The rows of one job or ledger entry.
abbrev pub job_key : String → Purge → String → Job → Bool
job_key tenant kind id j = j.tenant == tenant && purge_beq j.kind kind && j.id == id

abbrev pub deletion_key : String → Purge → String → Deletion → Bool
deletion_key tenant kind id d = d.tenant == tenant && purge_beq d.kind kind && d.id == id

abbrev pub new_job : String → Purge → String → ℕ → Job
new_job tenant kind id now = record {
  tenant = tenant;
  kind = kind;
  id = id;
  attempts = 0;
  next_attempt = now;
  lease_until = 0;
  state = JobState.pending;
}

abbrev pub template_key : String → String → Template → Bool
template_key tenant id t = t.tenant == tenant && t.id == id

-- kind IN ('capture', 'receipt')
abbrev pub is_stored_kind : Kind → Bool
is_stored_kind Kind.capture = true
is_stored_kind Kind.receipt = true
is_stored_kind _ = false

abbrev pub capture_rows : String → String → Resource → Bool
capture_rows tenant id r =
    r.tenant == tenant && is_stored_kind r.kind && (is_text r.data_ref id || r.id == id)

abbrev pub recording_key : String → String → Recording → Bool
recording_key tenant id r = r.tenant == tenant && r.id == id

abbrev pub is_processing : State → Bool
is_processing State.processing = true
is_processing _ = false

abbrev pub is_deleted : RecordingState → Bool
is_deleted RecordingState.deleted = true
is_deleted _ = false

abbrev pub is_pending_recording : RecordingState → Bool
is_pending_recording RecordingState.pending = true
is_pending_recording _ = false

abbrev pub is_capture : Kind → Bool
is_capture Kind.capture = true
is_capture _ = false

abbrev pub is_pending : JobState → Bool
is_pending JobState.pending = true
is_pending _ = false

-- set(identities): each once. What follows does not depend on their order.
abbrev pub one_of : String → List String → Bool
one_of s l = any (λ t. t == s) l

unfoldable pub distinct : List String → List String
distinct [] = []
distinct (s ∷ rest) = let l = distinct rest in if one_of s rest then l else s ∷ l

-- `expires_at <= now`, which a missing time does not satisfy
abbrev pub has_passed : Option ℕ → ℕ → Bool
has_passed none now = false
has_passed (some t) now = leb t now

-- tenant_filter
abbrev pub in_tenant : Option String → String → Bool
in_tenant none t = true
in_tenant (some tenant) t = t == tenant

-- max(1, min(limit, 100))
abbrev pub bounded : ℕ → ℕ
bounded limit = max 1 (min limit 100)

abbrev pub active_of : String → String → Template → Bool
active_of tenant subject t = t.tenant == tenant && t.subject_id == subject && t.active

-- Lifecycle.claim, the inner function of `drain`. `order` is ORDER BY id.
abbrev pub claimable : Option String → ℕ → Job → Bool
claimable tenant now j =
    in_tenant tenant j.tenant
    && is_pending j.state
    && ltb j.attempts max_attempts
    && leb j.next_attempt now
    && leb j.lease_until now

abbrev pub same_job : Job → Job → Bool
same_job job j = job_key job.tenant job.kind job.id j

unfoldable pub lease_all : ℕ → List Job → List Job → List Job
lease_all now [] table = table
lease_all now (job ∷ jobs) table = lease_all now jobs (
    update_where (same_job job)
      (λ j. record j { attempts = job.attempts + 1; lease_until = now + 30 }) table)

unfoldable pub block_exhausted : Option String → ℕ → List Job → List Job
block_exhausted tenant now table =
    update_where
      (λ j.
        in_tenant tenant j.tenant
        && is_pending j.state
        && leb max_attempts j.attempts
        && leb j.lease_until now)
      (λ j. record j { state = JobState.blocked }) table

module _ {F : Type 0} where
  -- The writes of `schedule` below its two inserts.
  abbrev pub revoke : String → Purge → String → ℕ → Db F → Db F
  revoke tenant Purge.template id now db = record db {
    templates =
        update_where (template_key tenant id)
          (λ t. record t { active = false; revoked_at = some now }) db.templates;
  }
  revoke tenant Purge.capture id now db = record db {
    recordings =
        update_where (recording_key tenant id) (λ r. record r { state = RecordingState.deleted })
          db.recordings;
    resources =
        update_where (λ r. capture_rows tenant id r && r.active)
          (λ r. record r { active = false; generation = r.generation + 1 }) db.resources;
  }

  unfoldable pub schedule : String → Purge → String → String → ℕ → Db F → Db F
  schedule tenant kind id actor now db = revoke tenant kind id now (record db {
    deletion_ledger =
        insert_new (deletion_key tenant kind id)
          (record { tenant = tenant; kind = kind; id = id; actor_id = actor; at = now })
          db.deletion_ledger;
    purge_jobs = insert_new (job_key tenant kind id) (new_job tenant kind id now) db.purge_jobs;
  })

  unfoldable pub schedule_all : String → Purge → List String → String → ℕ → Db F → Db F
  schedule_all tenant kind [] actor now db = db
  schedule_all tenant kind (id ∷ ids) actor now db =
      schedule_all tenant kind ids actor now (schedule tenant kind id actor now db)

  -- UPDATE operations ... WHERE state = 'processing', for one subject
  unfoldable pub fail_operations : String → String → String → Db F → Db F
  fail_operations tenant subject error db = record db {
    operations =
        update_where (λ o. o.tenant == tenant && o.subject_id == subject && is_processing o.state)
          (λ o. record o {
            state = State.failed;
            status = some 409;
            result = some (record { error = some error; accepted = false; template_id = none });
          })
          db.operations;
  }

  -- withdraw
  unfoldable pub withdraw : String → String → String → String → ℕ → Db F → Db F
  withdraw tenant subject actor scope now db =
      if scope == "template_authentication"
      then fail_operations tenant subject "CONSENT_CHANGED" (
          schedule_all tenant Purge.template
            (map (λ (t : Template). t.id) (filter (active_of tenant subject) db.templates)) actor
            now db)
      else schedule_all tenant Purge.capture
          (distinct (
            map (λ (r : Recording). r.id)
              (filter
                (λ r. r.tenant == tenant && r.subject_id == subject && not (is_deleted r.state))
                db.recordings)
            ++ map (λ (r : Resource). r.id)
                (filter
                  (λ r.
                    r.tenant == tenant
                    && is_text r.owner_actor_id actor
                    && is_capture r.kind
                    && r.active)
                  db.resources)))
          actor now db

  unfoldable pub claim : (List Job → List Job) → Option String → ℕ → ℕ → Db F → List Job × Db F
  claim order tenant limit now db =
      let jobs = take (bounded limit) (order (filter (claimable tenant now) db.purge_jobs)) in
      (
        jobs,
        record db { purge_jobs = block_exhausted tenant now (lease_all now jobs db.purge_jobs) },
      )

  -- The deletion of a job's rows.
  abbrev pub remove_rows : Purge → Job → Db F → Db F
  remove_rows Purge.template job db = record db {
    templates = delete_where (template_key job.tenant job.id) db.templates;
  }
  remove_rows Purge.capture job db = record db {
    resources = delete_where (capture_rows job.tenant job.id) db.resources;
  }

  -- finish, in `drain`
  unfoldable pub finish : Job → Db F → Db F
  finish job db =
      let db' = remove_rows job.kind job db in
      record db' {
        purge_jobs =
            update_where (same_job job) (λ j. record j { state = JobState.done; lease_until = 0 })
              db'.purge_jobs;
      }

  -- retry, in `drain`
  unfoldable pub retry : Job → ℕ → Db F → Db F
  retry job now db = record db {
    purge_jobs =
        update_where
          (λ j. same_job job j && is_pending j.state && nat_beq j.attempts (job.attempts + 1))
          (λ j. record j {
            state =
                if leb max_attempts (job.attempts + 1) then JobState.blocked else JobState.pending;
            lease_until = 0;
            next_attempt = now + min 300 (2 ^ (job.attempts + 1));
          })
          db.purge_jobs;
  }
