-- ===== src/Operations.antt =====
-- packages/face-auth/src/facetech_auth/operations.py: a scan as one durable operation. `claim` and
-- `commit` are its two transactions; the analysis between them is an argument. The clock is a function:
-- its value at `k` is what the transaction's reading number k gives, in milliseconds.
pub mod Scan
pub mod Consented
mod Outcomes
pub mod Claims
pub mod Nonces
pub mod Commits
pub mod Requests
pub mod Revoked
mod Tests
use factech.Base.{
  ℕ, ◌+◌, ◌-◌, ◌*◌, ◌/◌, Bool, true, false, not, ◌&&◌, ◌||◌, Option, none, some, List, [], ◌∷◌,
  ◌++◌, String, any, filter, map, length, leb, ltb, nat_beq, ◌==◌, string_eq, if◌then◌else◌,
}
use factech.Numbers.{Floats}
use factech.Contracts.{Denied, Result, ok, err, refuse, unavailable}
use factech.Policy.{is_text}
use factech.Challenge.{Params, Presented, items, same_keys, echo}
use factech.Database.{
  Db, Kind, Challenge, Template, Operation, State, Outcome, Consent, first, update_where,
}
use factech.Database.Tx.{Tx, pure, raise, gets, execute, deny_if, ◌>>=◌, ◌>>◌}
use factech.Guard.{Access, Target, guard, found, is_over}
use factech.Lifecycle.{distinct, is_processing}

abbrev pub max_templates : ℕ
max_templates = 5

-- provision.MAX_SUBJECTS
abbrev pub max_subjects : ℕ
max_subjects = 1000

abbrev pub operation_ttl : ℕ
operation_ttl = 86400

abbrev pub processing_lease : ℕ
processing_lease = 120

-- The operations object of one transaction: what `restore_gate.check()` gives, the analyzer's
-- format_id, template_expires_at and the readings of the clock.
pub record Env : Type 0 where
  pub gate : Result (Unit {0})
  pub format_id : String
  pub template_expires_at : Option ℕ
  pub clock : ℕ → ℕ

-- int(self.repo.clock())
abbrev pub seconds_at : Env → ℕ → ℕ
seconds_at env k = env.clock k / 1000

-- What a request brings: Access, the operation's name, the nonce's digest, the idempotency key, the
-- digest of the scan, and `action` and `params` of its challenge.
pub record Request (F : Type 0) : Type 0 where
  pub access : Access
  pub operation : String
  pub nonce_digest : String
  pub key : String
  pub digest : String
  pub action : Option String
  pub params : Option (Presented F)

-- The dictionary of a claimed operation. Its challenge is the record of the nonce and its age.
pub record Claim (F : Type 0) : Type 0 where
  pub operation_id : String
  pub revision : Option ℕ
  pub templates : List Template
  pub challenge : Challenge F
  pub age_ms : ℕ

pub data Claimed (F : Type 0) : Type 0 where
  replay : Operation → Claimed F
  claimed : Claim F → Claimed F

-- The parts of Analysis that the commit reads; `has_template` holds for a template of some bytes.
pub record Analysis : Type 0 where
  pub accepted : Bool
  pub has_template : Bool

abbrev pub is_after : Option ℕ → ℕ → Bool
is_after none now = false
is_after (some t) now = ltb now t

abbrev pub active_templates : String → String → ℕ → Template → Bool
active_templates tenant subject now t =
    t.tenant == tenant && t.subject_id == subject && t.active && is_after t.expires_at now

abbrev pub failed_with : String → Outcome
failed_with code = record { error = some code; accepted = false; template_id = none }

-- existing["result"] or {}
abbrev pub error_of : Option Outcome → Option String
error_of none = none
error_of (some o) = o.error

abbrev pub or_interrupted : Option String → String
or_interrupted none = "OPERATION_INTERRUPTED"
or_interrupted (some code) = code

abbrev pub or_409 : Option ℕ → ℕ
or_409 none = 409
or_409 (some status) = if nat_beq status 0 then 409 else status

abbrev pub is_failed : State → Bool
is_failed State.failed = true
is_failed _ = false

abbrev pub has_error : Option Outcome → Bool
has_error r = elim (error_of r) [ none ↦ false | some code ↦ true ]

abbrev pub consent_of : Access → Consent → Bool
consent_of access c =
    c.tenant == access.principal.tenant_id
    && c.subject_id == access.target.id
    && c.scope == "template_authentication"

abbrev pub unconsented : Access → Consent → Bool
unconsented access c =
    not c.granted
    || not (c.actor_id == access.principal.actor_id)
    || not (c.text_version == "template-authentication-v1")

-- replayed
unfoldable pub replayed : Operation → Result (Option Outcome)
replayed existing =
    if is_failed existing.state || has_error existing.result
    then err (refuse (or_interrupted (error_of existing.result)) (or_409 existing.status))
    else ok existing.result

module _ {F : Type 0} where
  unfoldable pub audit : ℕ → Access → String → Tx (Db F) (Unit {0})
  audit at access outcome = execute (λ db. record db {
    audit =
        db.audit
        ++ record {
          request_id = access.request_id;
          actor_id = some access.principal.actor_id;
          action = access.action;
          resource_id = some access.target.id;
          outcome = outcome;
          at = at;
        }
          ∷ [];
  })

  unfoldable pub consent : Access → Tx (Db F) ℕ
  consent access = do
    row ← gets (λ db. first (consent_of access) db.consents)
    value ← found row (refuse "CONSENT_REQUIRED" 403)
    deny_if (unconsented access value) (refuse "CONSENT_REQUIRED" 403)
    pure value.revision

  -- count(distinct(subject_id)) of the tenant's active templates
  unfoldable pub enrolled : String → Db F → ℕ
  enrolled tenant db = length (
      distinct (
        map (λ (t : Template). t.subject_id)
          (filter (λ (t : Template). t.tenant == tenant && t.active) db.templates)))

  -- capacity, less its lock
  unfoldable pub capacity : String → ℕ → Tx (Db F) (Unit {0})
  capacity tenant active = do
    deny_if (leb max_templates active) (refuse "CAPACITY_EXCEEDED" 409)
    subjects ← gets (enrolled tenant)
    deny_if (nat_beq active 0 && leb max_subjects subjects) (refuse "CAPACITY_EXCEEDED" 409)

  -- The WHERE of `spend_nonce`.
  unfoldable pub spendable : Request F → Target → ℕ → Challenge F → Bool
  spendable rq target now_ms c =
      c.digest == rq.nonce_digest
      && not c.consumed
      && leb now_ms c.expires_at
      && c.actor_id == rq.access.principal.actor_id
      && c.session_id == rq.access.session_id
      && c.tenant == rq.access.principal.tenant_id
      && c.subject_id == target.id
      && nat_beq c.generation target.generation
      && c.operation == rq.operation

  unfoldable pub spend_nonce : Request F → Target → ℕ → String → Tx (Db F) (Option (Challenge F))
  spend_nonce rq target now_ms operation_id db = (
    ok (first (spendable rq target now_ms) db.challenges),
    record db {
      challenges =
          update_where (spendable rq target now_ms)
            (λ c. record c { consumed = true; operation_id = some operation_id }) db.challenges;
    },
  )

  -- The tests of an operation of the same actor and key.
  unfoldable pub reclaim : Env → Request F → Target → Operation → Tx (Db F) (Claimed F)
  reclaim env rq target existing = do
    deny_if
        (not (
          existing.request_digest == rq.digest
          && existing.subject_id == target.id
          && existing.operation == rq.operation))
        (refuse "IDEMPOTENCY_CONFLICT" 409)
    deny_if (leb existing.expires_at (seconds_at env 1)) (refuse "OPERATION_EXPIRED" 409)
    if is_processing existing.state
        then (do
          deny_if (ltb (seconds_at env 1) (existing.created_at + processing_lease))
              (refuse "OPERATION_IN_PROGRESS" 409)
          execute (λ db. record db {
            operations =
                update_where (λ o. o.id == existing.id)
                  (λ o. record o {
                    state = State.failed;
                    status = some 409;
                    result = some (failed_with "OPERATION_INTERRUPTED");
                  })
                  db.operations;
          })
          audit (seconds_at env 3) rq.access "interrupted"
          raise (refuse "OPERATION_INTERRUPTED" 409))
        else (do audit (seconds_at env 3) rq.access "replayed"; pure (replay existing))
