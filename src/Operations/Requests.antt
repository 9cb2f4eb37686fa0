-- ===== src/Operations/Requests.antt =====
-- packages/face-auth/src/facetech_auth/operations.py: the transaction of `execute` for every action
-- but a scan. What the evaluation store holds, the drawn challenge, and ORDER BY id are arguments.
use factech.Base.{
  ℕ, zero, suc, ◌+◌, Bool, true, false, not, ◌&&◌, Option, none, some, List, [], ◌∷◌, ◌++◌, String,
  any, filter, map, length, take, ◌==◌, string_eq, if◌then◌else◌,
}
use factech.Contracts.{refuse, unavailable}
use factech.Policy.{is_text}
use factech.Challenge.{Params}
use factech.Database.{
  Db, Kind, Resource, Template, Challenge, Consent, Deletion, Purge, first, update_where,
  insert_new,
}
use factech.Database.Tx.{Tx, pure, raise, gets, execute, deny_if, ◌>>=◌, ◌>>◌}
use factech.Guard.{Access, Target, guard, resource_filter}
use factech.Lifecycle.{schedule, schedule_all, fail_operations, withdraw, deletion_key, is_capture}
use factech.Operations.{Env, seconds_at, is_after, active_templates, audit}

-- engine/app/constants.py
abbrev pub challenge_expiry_ms : ℕ
challenge_expiry_ms = 30000

-- What is read of a recording.
pub record Stored : Type 0 where
  pub recording_status : String
  pub metadata : String
  pub diagnostics : String
  pub frames : List String

-- The action, with what it takes of the request.
pub data Ask (F : Type 0) : Type 0 where
  issue : String → String → String → Params F → Ask F
  list_templates : Ask F
  revoke_templates : Ask F
  change_consent : Bool → String → Option String → Ask F
  list_captures : ℕ → ℕ → Ask F
  read_aggregates : Ask F
  request_deletion : Ask F
  read_receipt : Stored → Ask F
  read_capture : Stored → Ask F
  read_diagnostics : Stored → Ask F
  read_frame : ℕ → Stored → Ask F

pub data Reply : Type 0 where
  issued : ℕ → ℕ → Reply
  templates : List String → Reply
  revoked : ℕ → ℕ → Reply
  consented : String → Bool → ℕ → Reply
  captures : List String → Reply
  count : ℕ → Reply
  deletion_requested : ℕ → Reply
  status : String → Reply
  metadata : String → Reply
  diagnostics : String → Reply
  frame : String → Reply

-- VERSIONS of privacy.py
abbrev pub version_of : String → Option String
version_of scope =
    if scope == "template_authentication"
    then some "template-authentication-v1"
    else if scope == "evaluation_recording"
    then some "evaluation-recording-v1"
    else none

abbrev pub consent_key : String → String → String → Consent → Bool
consent_key tenant subject scope c =
    c.tenant == tenant && c.subject_id == subject && c.scope == scope

abbrev pub next_revision : Option Consent → ℕ
next_revision none = 1
next_revision (some c) = c.revision + 1

-- LIMIT and OFFSET
abbrev pub skip : {A : Type 0} → ℕ → List A → List A
skip zero xs = xs
skip (suc n) [] = []
skip (suc n) (x ∷ xs) = skip n xs

abbrev pub is_listed : String → Option String → ℕ → Resource → Bool
is_listed tenant round_id now r =
    r.tenant == tenant
    && is_capture r.kind
    && same_round round_id r.round_id
    && r.active
    && is_after r.expires_at now
  where
    same_round : Option String → Option String → Bool
    same_round none r = false
    same_round (some a) r = is_text r a

abbrev pub nth : {A : Type 0} → ℕ → List A → Option A
nth n [] = none
nth zero (x ∷ xs) = some x
nth (suc n) (x ∷ xs) = nth n xs

abbrev pub has_id : List String → Template → Bool
has_id ids t = any (λ i. i == t.id) ids

-- INSERT of the templates' ledger entries, ON CONFLICT DO NOTHING
unfoldable pub record_all : String → List String → String → ℕ → List Deletion → List Deletion
record_all tenant [] actor now ledger = ledger
record_all tenant (id ∷ ids) actor now ledger = record_all tenant ids actor now (
    insert_new (deletion_key tenant Purge.template id)
      (record { tenant = tenant; kind = Purge.template; id = id; actor_id = actor; at = now })
      ledger)

module _ {F : Type 0} where
  abbrev pub active_ids : String → String → ℕ → Db F → List String
  active_ids tenant subject now db =
      map (λ (t : Template). t.id) (filter (active_templates tenant subject now) db.templates)

  -- Action.REVOKE_TEMPLATES
  unfoldable pub revoke_ids : String → String → String → ℕ → List String → Db F → Db F
  revoke_ids tenant subject actor now ids db = fail_operations tenant subject "SUBJECT_REVOKED" (
      schedule_all tenant Purge.template ids actor now (record db {
        resources =
            update_where (resource_filter tenant Kind.subject subject)
              (λ r. record r { generation = r.generation + 1 }) db.resources;
        templates =
            update_where (has_id ids) (λ t. record t { active = false; revoked_at = some now })
              db.templates;
        deletion_ledger = record_all tenant ids actor now db.deletion_ledger;
      }))

  -- The upsert of a consent and its event.
  unfoldable pub put_consent : Consent → Db F → Db F
  put_consent c db = record db {
    consents =
        if any (consent_key c.tenant c.subject_id c.scope) db.consents
        then update_where (consent_key c.tenant c.subject_id c.scope) (λ d. c) db.consents
        else db.consents ++ c ∷ [];
    consent_events = db.consent_events ++ c ∷ [];
  }

  abbrev pub withdraw_if : Bool → String → String → String → String → ℕ → Db F → Db F
  withdraw_if true tenant subject actor scope now db = db
  withdraw_if false tenant subject actor scope now db = withdraw tenant subject actor scope now db

  -- GRANT_CONSENT and WITHDRAW_CONSENT; a scope that VERSIONS has not is a KeyError
  abbrev pub consent_change :
      String → String → String → ℕ → Bool → String → Option String → Option String → Tx (Db F) Reply
  consent_change tenant subject actor now granted scope given none = raise unavailable
  consent_change tenant subject actor now granted scope given (some version) = do
    deny_if (granted && not (is_text given version)) (refuse "CONSENT_VERSION_REQUIRED" 400)
    revision ← gets (λ db. next_revision (first (consent_key tenant subject scope) db.consents))
    execute (
        put_consent (record {
          tenant = tenant;
          subject_id = subject;
          scope = scope;
          actor_id = actor;
          text_version = version;
          granted = granted;
          revision = revision;
        }))
    execute (withdraw_if granted tenant subject actor scope now)
    pure (Reply.consented scope granted revision)

  abbrev pub frame_or_missing : Option String → Tx (Db F) Reply
  frame_or_missing none = raise (refuse "NOT_FOUND" 404)
  frame_or_missing (some f) = pure (Reply.frame f)

  -- The branches of `operation`.
  unfoldable pub perform :
      (List String → List String) → Env → Access → Target → Ask F → Tx (Db F) Reply
  perform order env fresh target (Ask.issue operation digest action params) = do
    taken ← gets (λ db. any (λ (c : Challenge F). c.digest == digest) db.challenges)
    deny_if taken unavailable
    execute (λ db. record db {
      challenges =
          db.challenges
          ++ record {
            digest = digest;
            actor_id = fresh.principal.actor_id;
            session_id = fresh.session_id;
            tenant = fresh.principal.tenant_id;
            subject_id = target.id;
            generation = target.generation;
            operation = operation;
            action = action;
            params = params;
            issued_at = env.clock 2;
            expires_at = env.clock 2 + challenge_expiry_ms;
            consumed = false;
            operation_id = none;
          }
            ∷ [];
    })
    pure (Reply.issued (env.clock 2) (env.clock 2 + challenge_expiry_ms))
  perform order env fresh target Ask.list_templates = gets (λ db.
      Reply.templates
        (order (active_ids fresh.principal.tenant_id target.id (seconds_at env 1) db)))
  perform order env fresh target Ask.revoke_templates = do
    ids ← gets (active_ids fresh.principal.tenant_id target.id (seconds_at env 1))
    execute (
        revoke_ids fresh.principal.tenant_id target.id fresh.principal.actor_id (seconds_at env 1)
          ids)
    pure (Reply.revoked (length ids) (target.generation + 1))
  perform order env fresh target (Ask.change_consent granted scope given) =
      consent_change fresh.principal.tenant_id target.id fresh.principal.actor_id (seconds_at env 1)
        granted scope given (version_of scope)
  perform order env fresh target (Ask.list_captures limit offset) = gets (λ db. Reply.captures (
      take limit (
        skip offset (
          order (
            map (λ (r : Resource). r.id)
              (filter
                (is_listed fresh.principal.tenant_id target.resource.round_id (seconds_at env 1))
                db.resources))))))
  perform order env fresh target Ask.read_aggregates = gets (λ db. Reply.count (
      length (
        filter (is_listed fresh.principal.tenant_id target.resource.round_id (seconds_at env 1))
          db.resources)))
  perform order env fresh target Ask.request_deletion = do
    execute (
        schedule fresh.principal.tenant_id Purge.capture target.id fresh.principal.actor_id
          (seconds_at env 1))
    pure (Reply.deletion_requested (target.generation + 1))
  perform order env fresh target (Ask.read_receipt stored) =
      pure (Reply.status stored.recording_status)
  perform order env fresh target (Ask.read_capture stored) = pure (Reply.metadata stored.metadata)
  perform order env fresh target (Ask.read_diagnostics stored) =
      pure (Reply.diagnostics stored.diagnostics)
  perform order env fresh target (Ask.read_frame index stored) =
      frame_or_missing (nth index stored.frames)

  -- operation, the inner function of `execute`; `kind` is `self.kind(action)`
  unfoldable pub request :
      (List String → List String) → Env → Access → Kind → Ask F → Tx (Db F) Reply
  request order env fresh kind ask = do
    target ← guard env.gate (seconds_at env 0) fresh kind
    reply ← perform order env fresh target ask
    audit (seconds_at env 3) fresh "committed"
    pure reply
