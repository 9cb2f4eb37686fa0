-- ===== src/Accounts/Provision.antt =====
-- packages/face-auth/src/facetech_auth/provision.py and registration.py: accounts, their authority
-- and their review grants. Fresh identities are arguments.
use factech.Base.{
  ℕ, ◌+◌, Bool, true, false, not, ◌&&◌, ◌||◌, Option, none, some, List, [], ◌∷◌, ◌++◌, String, any,
  filter, length, leb, ◌==◌, string_eq, if◌then◌else◌,
}
use factech.Contracts.{refuse, unavailable}
use factech.Policy.{is_text, Role, role_beq}
use factech.Database.{Db, Actor, Session, Resource, Kind, kind_beq, Grant, first, update_where}
use factech.Database.Tx.{Tx, pure, gets, execute, deny_if, ◌>>=◌, ◌>>◌}
use factech.Accounts.{actor_lock, append_audit, event}

abbrev pub max_subjects : ℕ
max_subjects = 1000

abbrev pub is_subject_of : String → Resource → Bool
is_subject_of tenant r = r.tenant == tenant && kind_beq r.kind Kind.subject && r.active

abbrev pub is_identity : String → String → Actor → Bool
is_identity issuer sub a = a.issuer == issuer && a.sub == sub

abbrev pub new_subject : String → String → String → Resource
new_subject tenant id owner = record {
  tenant = tenant;
  kind = Kind.subject;
  id = id;
  owner_actor_id = some owner;
  round_id = none;
  generation = 0;
  data_ref = none;
  active = true;
  expires_at = none;
}

abbrev pub is_owned_by : String → Resource → Bool
is_owned_by owner r = is_text r.owner_actor_id owner

abbrev pub participant : String → String → String → String → Actor
participant tenant issuer sub actor_id = record {
  id = actor_id;
  issuer = issuer;
  sub = sub;
  tenant = tenant;
  roles = Role.participant ∷ [];
  epoch = 0;
  active = true;
}

module _ {F : Type 0} where
  -- The keys of `actors`.
  unfoldable pub insert_actor : Actor → Tx (Db F) (Unit {0})
  insert_actor a = do
    taken ← gets (λ db. any (λ (b : Actor). b.id == a.id || is_identity a.issuer a.sub b) db.actors)
    deny_if taken unavailable
    execute (λ db. record db { actors = db.actors ++ a ∷ [] })

  -- The keys of `resources`, with the index of one subject for each owner of a tenant.
  unfoldable pub insert_subject : Resource → String → Tx (Db F) (Unit {0})
  insert_subject r owner = do
    taken ← gets (λ db.
        any
          (λ (q : Resource).
            q.tenant == r.tenant
            && kind_beq q.kind Kind.subject
            && (q.id == r.id || is_owned_by owner q))
          db.resources)
    deny_if taken unavailable
    execute (λ db. record db { resources = db.resources ++ r ∷ [] })

  unfoldable pub subjects : String → Db F → ℕ
  subjects tenant db = length (filter (is_subject_of tenant) db.resources)

  -- The capacity check and the insertion of a subject.
  unfoldable pub add_subject : String → String → String → Tx (Db F) (Unit {0})
  add_subject tenant id owner = do
    count ← gets (subjects tenant)
    deny_if (leb max_subjects count) (refuse "CAPACITY_EXCEEDED" 409)
    insert_subject (new_subject tenant id owner) owner

  -- create_account past its checks of the arguments
  unfoldable pub create_account :
      String → Actor → String → ℕ → String → Tx (Db F) (Actor × Option String)
  create_account administrator_id a subject now request_id = do
    insert_actor (record a { epoch = 0; active = true })
    if any (role_beq Role.participant) a.roles then add_subject a.tenant subject a.id else pure tt
    append_audit (event request_id (some administrator_id) "account.provision" (some a.id) now)
    pure (
      record a { epoch = 0; active = true },
      if any (role_beq Role.participant) a.roles then some subject else none,
    )

  -- The two updates of `set_authority`.
  abbrev pub change_authority : String → Bool → List Role → Db F → Db F
  change_authority actor_id active roles db = record db {
    actors =
        update_where (λ (a : Actor). a.id == actor_id)
          (λ a. record a { active = active; roles = roles; epoch = a.epoch + 1 }) db.actors;
    sessions =
        update_where (λ (s : Session). s.actor_id == actor_id) (λ s. record s { active = false })
          db.sessions;
  }

  unfoldable pub set_authority :
      String → String → Bool → List Role → ℕ → String → Tx (Db F) (Unit {0})
  set_authority administrator_id actor_id active roles now request_id = do
    deny_if (actor_id == administrator_id) (refuse "SELF_ESCALATION_FORBIDDEN" 403)
    actor_lock actor_id
    execute (change_authority actor_id active roles)
    append_audit
        (event request_id (some administrator_id) "account.authority_changed" (some actor_id) now)

  unfoldable pub review_grant : String → Grant → ℕ → String → Tx (Db F) String
  review_grant administrator_id g now request_id = do
    deny_if (g.grant.actor_id == administrator_id) (refuse "SELF_ESCALATION_FORBIDDEN" 403)
    actor ← actor_lock g.grant.actor_id
    deny_if
        (not (actor.tenant == g.grant.tenant_id) || not (any (role_beq Role.reviewer) actor.roles))
        (refuse "NOT_FOUND" 404)
    execute (λ db. record db { grants = db.grants ++ g ∷ [] })
    append_audit (event request_id (some administrator_id) "review.grant" (some g.id) now)
    pure g.id

  unfoldable pub revoke_grant : String → String → String → ℕ → String → Tx (Db F) (Unit {0})
  revoke_grant administrator_id grant_id actor_id now request_id = do
    actor_lock actor_id
    execute (λ db. record db {
      grants =
          update_where (λ (g : Grant). g.id == grant_id && g.grant.actor_id == actor_id)
            (λ g. record g { grant = record g.grant { revoked = true } }) db.grants;
    })
    append_audit (event request_id (some administrator_id) "review.revoke" (some grant_id) now)

  -- What a registration does for a provider's identity that it has no account of.
  unfoldable pub create_participant :
      String → String → String → String → String → ℕ → String → Tx (Db F) Actor
  create_participant tenant issuer sub actor_id subject now request_id = do
    count ← gets (subjects tenant)
    deny_if (leb max_subjects count) (refuse "CAPACITY_EXCEEDED" 409)
    insert_actor (participant tenant issuer sub actor_id)
    insert_subject (new_subject tenant subject actor_id) actor_id
    append_audit (event request_id (some actor_id) "account.register" (some actor_id) now)
    pure (participant tenant issuer sub actor_id)

  abbrev pub or_create : Option Actor → Tx (Db F) Actor → Tx (Db F) Actor
  or_create (some a) create = pure a
  or_create none create = create

  -- ParticipantRegistration
  unfoldable pub register :
      String → String → String → String → String → ℕ → String → Tx (Db F) Actor
  register tenant issuer sub actor_id subject now request_id = do
    existing ← gets (λ db. first (is_identity issuer sub) db.actors)
    or_create existing (create_participant tenant issuer sub actor_id subject now request_id)
