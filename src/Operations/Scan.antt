-- ===== src/Operations/Scan.antt =====
-- The transactions of `operate` in operations.py: claim, commit, finish.
use factech.Base.{
  ℕ, ◌+◌, ◌-◌, Bool, true, false, not, ◌&&◌, ◌||◌, Option, none, some, List, [], ◌∷◌, ◌++◌, String,
  any, all, filter, length, nat_beq, ◌==◌, string_eq, if◌then◌else◌,
}
use factech.Numbers.{Floats}
use factech.Contracts.{refuse, unavailable}
use factech.Policy.{is_text}
use factech.Challenge.{Params, Presented, items, same_keys, echo}
use factech.Database.{Db, Kind, Challenge, Template, Operation, State, Outcome, first, update_where}
use factech.Database.Tx.{Tx, pure, gets, execute, deny_if, ◌>>=◌, ◌>>◌}
use factech.Guard.{Access, Target, guard, found, is_over}
use factech.Lifecycle.{is_processing}
use factech.Operations.{
  is_after, Env, Request, Claim, Claimed, claimed, Analysis, seconds_at, active_templates,
  or_interrupted, error_of, consent, capacity, spend_nonce, reclaim, audit, operation_ttl,
}

abbrev pub needs_consent : String → Bool
needs_consent operation = operation == "enroll" || operation == "verify"

abbrev pub lost : Option Operation → String
lost none = "OPERATION_INTERRUPTED"
lost (some o) = or_interrupted (error_of o.result)

abbrev pub under_way : Option Operation → Bool
under_way none = false
under_way (some o) = is_processing o.state

abbrev pub has_expired : ℕ → Template → Bool
has_expired now t = not (is_after t.expires_at now)

abbrev pub is_configured : Option ℕ → Bool
is_configured none = false
is_configured (some t) = true

module _ {F : Type 0} where
  -- head_parameters_match
  unfoldable pub head_parameters_match : Floats F → Option (Presented F) → Params F → Bool
  head_parameters_match fl none issued = false
  head_parameters_match fl (some presented) issued =
      same_keys presented (items issued) && all (echo fl presented) (items issued)

  -- The test of the nonce that was spent, or not.
  unfoldable pub echoed : Floats F → Request F → Option (Challenge F) → Bool
  echoed fl rq none = false
  echoed fl rq (some c) = is_text rq.action c.action && head_parameters_match fl rq.params c.params

  unfoldable pub consent_if : Bool → Access → Tx (Db F) (Option ℕ)
  consent_if false access = pure none
  consent_if true access = do revision ← consent access; pure (some revision)

  abbrev pub new_operation : Env → Request F → Target → String → Operation
  new_operation env rq target operation_id = record {
    id = operation_id;
    tenant = rq.access.principal.tenant_id;
    actor_id = rq.access.principal.actor_id;
    subject_id = target.id;
    key = rq.key;
    operation = rq.operation;
    request_digest = rq.digest;
    state = State.processing;
    status = none;
    result = none;
    created_at = seconds_at env 1;
    expires_at = seconds_at env 1 + operation_ttl;
  }

  -- What `claim` does where no operation of the key exists, from the spending of the nonce on.
  unfoldable pub spend :
      Floats F
      → Env
      → Request F
      → Target
      → Option ℕ
      → List Template
      → String
      → Tx (Db F) (Claimed F)
  spend fl env rq target revision templates operation_id = do
    execute (λ db. record db {
      operations = db.operations ++ new_operation env rq target operation_id ∷ [];
    })
    spent ← spend_nonce rq target (env.clock 2) operation_id
    deny_if (not (echoed fl rq spent)) (refuse "CHALLENGE_INVALID" 409)
    challenge ← found spent (refuse "CHALLENGE_INVALID" 409)
    audit (seconds_at env 4) rq.access "nonce_claimed"
    pure (
        claimed (record {
          operation_id = operation_id;
          revision = revision;
          templates = templates;
          challenge = challenge;
          age_ms = env.clock 2 - challenge.issued_at;
        }))

  abbrev pub templates_for : Env → Request F → Target → Db F → List Template
  templates_for env rq target db =
      if rq.operation == "liveness"
      then []
      else filter (active_templates rq.access.principal.tenant_id target.id (seconds_at env 3))
          db.templates

  unfoldable pub claim_new :
      Floats F → Env → Request F → Target → Option ℕ → String → Tx (Db F) (Claimed F)
  claim_new fl env rq target revision operation_id = do
    templates ← gets (templates_for env rq target)
    deny_if (any (λ (t : Template). not (t.model_fingerprint == env.format_id)) templates)
        (refuse "MODEL_VERSION_MISMATCH" 409)
    deny_if (rq.operation == "verify" && nat_beq (length templates) 0) (refuse "USER_NOT_FOUND" 404)
    if rq.operation == "enroll"
        then capacity rq.access.principal.tenant_id (length templates)
        else pure tt
    spend fl env rq target revision templates operation_id

  abbrev pub same_request : Request F → Operation → Bool
  same_request rq o = o.actor_id == rq.access.principal.actor_id && o.key == rq.key

  abbrev pub claim_found :
      Floats F
      → Env
      → Request F
      → Target
      → Option ℕ
      → String
      → Option Operation
      → Tx (Db F) (Claimed F)
  claim_found fl env rq target revision operation_id none =
      claim_new fl env rq target revision operation_id
  claim_found fl env rq target revision operation_id (some existing) =
      reclaim env rq target existing

  -- claim; `operation_id` is what `secrets.token_hex(16)` gives
  unfoldable pub claim : Floats F → Env → Request F → String → Tx (Db F) (Claimed F)
  claim fl env rq operation_id = do
    target ← guard env.gate (seconds_at env 0) rq.access Kind.subject
    revision ← consent_if (needs_consent rq.operation) rq.access
    existing ← gets (λ db. first (same_request rq) db.operations)
    claim_found fl env rq target revision operation_id existing

  -- `self.consent(...) != data["revision"]`, where there is one
  unfoldable pub reconsent : Option ℕ → Access → Tx (Db F) (Unit {0})
  reconsent none access = pure tt
  reconsent (some revision) access = do
    current ← consent access
    deny_if (not (nat_beq current revision)) (refuse "CONSENT_CHANGED" 409)

  -- The insertion of a template; `identity` is what `secrets.token_hex(16)` gives.
  unfoldable pub store_template :
      Env → String → Access → Target → String → Tx (Db F) (Option String)
  store_template env tenant access target identity = do
    deny_if (not (is_configured env.template_expires_at)) (refuse "ROUND_UNCONFIGURED" 503)
    active ←
        gets (λ db.
          length (filter (active_templates tenant target.id (seconds_at env 3)) db.templates))
    capacity tenant active
    execute (λ db. record db {
      templates =
          db.templates
          ++ record {
            id = identity;
            tenant = tenant;
            subject_id = target.id;
            owner_actor_id = access.principal.actor_id;
            active = true;
            revoked_at = none;
            model_fingerprint = env.format_id;
            expires_at = env.template_expires_at;
          }
            ∷ [];
    })
    pure (some identity)

  unfoldable pub enroll :
      Env → String → Access → Target → String → Analysis → String → Tx (Db F) (Option String)
  enroll env tenant access target operation analysis identity =
      if operation == "enroll" && analysis.accepted
      then (do
        deny_if (not analysis.has_template) unavailable
        store_template env tenant access target identity)
      else pure none

  -- commit, with `fresh` the access that `reauthorize` gave, and the tenant and operation of the request.
  -- One reading of the clock serves for all templates, where the code takes one for each.
  unfoldable pub commit :
      Env → String → Access → String → Claim F → Analysis → String → Tx (Db F) (Option String)
  commit env tenant fresh operation held analysis identity = do
    target ← guard env.gate (seconds_at env 0) fresh Kind.subject
    reconsent held.revision fresh
    deny_if (any (has_expired (seconds_at env 1)) held.templates) (refuse "TEMPLATE_EXPIRED" 409)
    deny_if (is_over env.template_expires_at (seconds_at env 2)) (refuse "ROUND_CLOSED" 409)
    current ← gets (λ db. first (λ (o : Operation). o.id == held.operation_id) db.operations)
    deny_if (not (under_way current)) (refuse (lost current) 409)
    template_id ← enroll env tenant fresh target operation analysis identity
    execute (λ db. record db {
      operations =
          update_where (λ o. o.id == held.operation_id)
            (λ o. record o {
              state = State.completed;
              status = some 200;
              result = some (record {
                error = none;
                accepted = analysis.accepted;
                template_id = template_id;
              });
            })
            db.operations;
    })
    audit (seconds_at env 5) fresh "committed"
    pure template_id

  -- finish
  unfoldable pub finish : ℕ → String → Access → State → ℕ → Outcome → String → Tx (Db F) (Unit {0})
  finish now operation_id access state status result outcome = do
    execute (λ db. record db {
      operations =
          update_where (λ o. o.id == operation_id && is_processing o.state)
            (λ o. record o { state = state; status = some status; result = some result })
            db.operations;
    })
    audit now access outcome
