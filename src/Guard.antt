-- ===== src/Guard.antt =====
-- packages/face-auth/src/facetech_auth/postgres.py: `guard`, which reads and locks the state that a
-- decision rests on again, in the transaction that acts on it.
pub mod Sound
pub mod Sample
use factech.Base.{
  map, ℕ, ◌+◌, ◌-◌, min, Bool, true, false, not, ◌&&◌, ◌||◌, Option, none, some, List, [], ◌∷◌,
  String, filter, leb, nat_beq, ◌==◌, string_eq, pos, if◌then◌else◌,
}
use factech.Contracts.{Denied, Result, ok, err, denied, refuse, unavailable}
use factech.Policy.{Principal, Decision, Reason, ReviewGrant, Stamp, seconds, authorize}
use factech.Database.{Db, Grant, Actor, Session, Resource, Kind, kind_beq, first}
use factech.Database.Tx.{Tx, pure, raise, gets, deny_if, ◌>>=◌, ◌>>◌}

pub record Target : Type 0 where
  pub id : String
  pub resource : factech.Policy.Resource
  pub generation : ℕ
  pub active : Bool

-- Access, with the columns of its session that are read again; its grants are not.
pub record Access : Type 0 where
  pub principal : Principal
  pub session_id : String
  pub token_hash : String
  pub action : String
  pub target : Target
  pub request_id : String

-- resource_filter
abbrev pub resource_filter : String → Kind → String → Resource → Bool
resource_filter tenant kind selector r =
    r.tenant == tenant && kind_beq r.kind kind && r.id == selector

abbrev pub target_record : Resource → Target
target_record r = record {
  id = r.id;
  resource = record {
    tenant_id = r.tenant;
    owner_actor_id = r.owner_actor_id;
    round_id = r.round_id;
  };
  generation = r.generation;
  active = r.active;
}

-- The test of the session and the actor; it is denied where it holds.
unfoldable pub invalid_session : ℕ → Access → Actor → Session → Bool
invalid_session now access actor session =
    not session.active
    || not actor.active
    || not (session.actor_id == actor.id)
    || not (nat_beq session.epoch actor.epoch)
    || not (session.token_hash == access.token_hash)
    || not (session.issuer == actor.issuer && session.sub == actor.sub)
    || not (actor.tenant == access.principal.tenant_id)
    || leb session.expires_at now
    || leb 28800 (now - session.created_at)
    || leb 1800 (now - session.touched_at)
    || leb (seconds access.principal.session_expires_at) now

abbrev pub is_over : Option ℕ → ℕ → Bool
is_over none now = false
is_over (some t) now = leb t now

-- The principal that `authorize` decides for.
abbrev pub current_principal : Actor → Session → Principal
current_principal actor session = record {
  actor_id = actor.id;
  tenant_id = actor.tenant;
  roles = actor.roles;
  active = true;
  session_active = true;
  session_expires_at = Stamp.int (pos (min session.expires_at (session.touched_at + 1800)));
  authenticated_at = Stamp.int (pos session.authenticated_at);
}

abbrev refusal : Reason → Denied
refusal Reason.recent_login_required = refuse "RECENT_LOGIN_REQUIRED" 403
refusal _ = refuse "NOT_FOUND" 404

module _ {F : Type 0} where
  -- check_reads
  abbrev pub check_reads : Tx (Db F) (Unit {0})
  check_reads db = deny_if (not db.reads_enabled) unavailable db

  -- A row, or the exception where there is none.
  abbrev pub found : {A : Type 0} → Option A → Denied → Tx (Db F) A
  found none d = raise d
  found (some x) d = pure x

  abbrev pub grants_of : String → Db F → List ReviewGrant
  grants_of actor_id db =
      map (λ (g : Grant). g.grant) (filter (λ (g : Grant). g.grant.actor_id == actor_id) db.grants)

  abbrev pub decided : Decision → Target → Tx (Db F) Target
  decided d target = if d.allowed then pure target else raise (refusal d.reason)

  -- The part of `guard` on a row of the target.
  unfoldable pub guard_target : ℕ → Access → Actor → Session → Resource → Tx (Db F) Target
  guard_target now access actor session r = do
    deny_if (not r.active || is_over r.expires_at now) (refuse "NOT_FOUND" 404)
    deny_if (not (nat_beq r.generation access.target.generation)) (refuse "RESOURCE_CHANGED" 409)
    grants ← gets (grants_of actor.id)
    decided
        (authorize (some (current_principal actor session)) access.action (target_record r).resource
          (Stamp.int (pos now)) grants)
        (target_record r)

  -- `gate` is what `restore_gate.check()` gives, or `ok` where there is no gate.
  unfoldable pub guard : Result (Unit {0}) → ℕ → Access → Kind → Tx (Db F) Target
  guard (err d) now access kind = raise d
  guard (ok _) now access kind = do
    check_reads
    row ← gets (λ db. first (λ (a : Actor). a.id == access.principal.actor_id) db.actors)
    actor ← found row denied
    row' ← gets (λ db. first (λ (s : Session). s.id == access.session_id) db.sessions)
    session ← found row' denied
    deny_if (invalid_session now access actor session) denied
    row'' ← gets (λ db. first (resource_filter actor.tenant kind access.target.id) db.resources)
    r ← found row'' (refuse "NOT_FOUND" 404)
    guard_target now access actor session r
