-- ===== src/Policy.antt =====
-- packages/face-auth/src/facetech_auth/policy.py: who may do what. `authorize` is a pure function
-- of the current state that the repositories load.
mod Names
pub mod Permits
pub mod Grants
mod Tests
pub use Names.{Action}
unfoldable pub use Names.{action_value, parse_action}
use factech.Base.{
  ℕ, ◌+◌, ◌-◌, ◌≤◌, Bool, true, false, not, ◌&&◌, ◌||◌, Option, none, some, List, [], ◌∷◌, String,
  leb, ltb, any, all, ◌==◌, Eq, ℤ, pos, negsuc, ◌≡◌, ◌↔◌, arith, string_eq, if◌then◌else◌,
}

pub data Role : Type 0 where
  participant reviewer administrator : Role

pub data Scope : Type 0 where
  metadata frames aggregates : Scope

abbrev pub role_beq : Role → Role → Bool
role_beq participant participant = true
role_beq reviewer reviewer = true
role_beq administrator administrator = true
role_beq _ _ = false

abbrev pub scope_beq : Scope → Scope → Bool
scope_beq metadata metadata = true
scope_beq frames frames = true
scope_beq aggregates aggregates = true
scope_beq _ _ = false

-- A value given for a time: an `int`, or anything else.
pub data Stamp : Type 0 where
  int : ℤ → Stamp
  other : Stamp

-- _timestamp
abbrev pub timestamp : Stamp → Bool
timestamp (int (pos n)) = true
timestamp (int (negsuc n)) = false
timestamp other = false

-- The number of a value that passed `timestamp`; read of no other.
abbrev pub seconds : Stamp → ℕ
seconds (int (pos n)) = n
seconds _ = 0

pub record Principal : Type 0 where
  pub actor_id : String
  pub tenant_id : String
  pub roles : List Role
  pub active : Bool
  pub session_active : Bool
  pub session_expires_at : Stamp
  pub authenticated_at : Stamp

pub record Resource : Type 0 where
  pub tenant_id : String
  pub owner_actor_id : Option String
  pub round_id : Option String

pub record ReviewGrant : Type 0 where
  pub actor_id : String
  pub tenant_id : String
  pub round_id : String
  pub scopes : List Scope
  pub expires_at : Stamp
  pub revoked : Bool

pub data Reason : Type 0 where
  authentication_required resource_unavailable unknown_action recent_login_required self_service
        own_receipt administrative_aggregate review_grant_required review_grant :
      Reason

pub record Decision : Type 0 where
  pub allowed : Bool
  pub reason : Reason

abbrev pub allow : Reason → Decision
allow r = record { allowed = true; reason = r }

abbrev pub deny : Reason → Decision
deny r = record { allowed = false; reason = r }

-- SELF_ACTIONS
abbrev pub self_action : Action → Bool
self_action Action.challenge_enroll = true
self_action Action.challenge_verify = true
self_action Action.challenge_liveness = true
self_action Action.enroll = true
self_action Action.add_template = true
self_action Action.verify = true
self_action Action.liveness = true
self_action Action.list_templates = true
self_action Action.revoke_templates = true
self_action Action.grant_consent = true
self_action Action.withdraw_consent = true
self_action Action.request_capture_deletion = true
self_action _ = false

-- RECENT_LOGIN_ACTIONS
abbrev pub recent_login_action : Action → Bool
recent_login_action Action.challenge_enroll = true
recent_login_action Action.enroll = true
recent_login_action Action.add_template = true
recent_login_action Action.revoke_templates = true
recent_login_action _ = false

-- REVIEW_SCOPES; `none` is a missing key
abbrev pub review_scopes : Action → Option (List Scope)
review_scopes Action.read_receipt = some (metadata ∷ [])
review_scopes Action.list_captures = some (metadata ∷ [])
review_scopes Action.read_capture = some (metadata ∷ [])
review_scopes Action.read_diagnostics = some (metadata ∷ [])
review_scopes Action.read_frame = some (metadata ∷ frames ∷ [])
review_scopes Action.read_aggregates = some (aggregates ∷ [])
review_scopes _ = none

abbrev pub recent_login_seconds : ℕ
recent_login_seconds = 300

-- `bool(value)` and `not value` of a text that may be missing
abbrev pub given : Option String → Bool
given none = false
given (some s) = not (s == "")

abbrev pub is_text : Option String → String → Bool
is_text none s = false
is_text (some t) s = t == s

-- The first `if` of `authorize`, past the test of `principal is None`.
unfoldable pub unauthenticated : Stamp → Principal → Bool
unauthenticated now p =
    not (timestamp now)
    || not p.active
    || not p.session_active
    || p.actor_id == ""
    || p.tenant_id == ""
    || not (timestamp p.session_expires_at)
    || not (timestamp p.authenticated_at)
    || leb (seconds p.session_expires_at) (seconds now)
    || ltb (seconds now) (seconds p.authenticated_at)

unfoldable pub is_owner : Principal → Resource → Bool
is_owner p r =
    any (role_beq Role.participant) p.roles
    && given r.owner_actor_id
    && is_text r.owner_actor_id p.actor_id

-- The test in the loop over `grants`; a missing key of REVIEW_SCOPES covers nothing.
unfoldable pub covers : Stamp → Principal → Resource → Option (List Scope) → ReviewGrant → Bool
covers now p r none g = false
covers now p r (some required) g =
    not g.revoked
    && timestamp g.expires_at
    && ltb (seconds now) (seconds g.expires_at)
    && g.actor_id == p.actor_id
    && g.tenant_id == r.tenant_id
    && is_text r.round_id g.round_id
    && all (λ s. any (scope_beq s) g.scopes) required

unfoldable pub is_receipt : Action → Bool
is_receipt Action.read_receipt = true
is_receipt _ = false

unfoldable pub is_aggregates : Action → Bool
is_aggregates Action.read_aggregates = true
is_aggregates _ = false

-- `authorize` below the parse of the action
unfoldable pub decide_action : Action → Principal → Resource → Stamp → List ReviewGrant → Decision
decide_action a p r now grants =
    if self_action a
    then (if not (is_owner p r)
        then deny resource_unavailable
        else if recent_login_action a
            && leb recent_login_seconds (seconds now - seconds p.authenticated_at)
        then deny recent_login_required
        else allow self_service)
    else if is_receipt a && is_owner p r
    then allow own_receipt
    else if is_aggregates a && any (role_beq Role.administrator) p.roles
    then allow administrative_aggregate
    else if not (any (role_beq Role.reviewer) p.roles) || not (given r.round_id)
    then deny review_grant_required
    else if any (covers now p r (review_scopes a)) grants
    then allow review_grant
    else deny review_grant_required

unfoldable pub decide_parsed :
    Option Action → Principal → Resource → Stamp → List ReviewGrant → Decision
decide_parsed none p r now grants = deny unknown_action
decide_parsed (some a) p r now grants = decide_action a p r now grants

unfoldable pub authorize :
    Option Principal → String → Resource → Stamp → List ReviewGrant → Decision
authorize none action r now grants = deny authentication_required
authorize (some p) action r now grants =
    if unauthenticated now p
    then deny authentication_required
    else if r.tenant_id == "" || not (r.tenant_id == p.tenant_id)
    then deny resource_unavailable
    else decide_parsed (parse_action action) p r now grants
