-- ===== src/Guard/Sound.antt =====
-- What `guard` has seen where it returns.
use factech.Base.{
  ◌+◌, ◌<◌, ◌∙◌, ap, map, filter, min, Bool-cases, ℕ, true, false, ◌||◌, not, Option, none, some,
  Member, ◌==◌, string_eq, ◌≡◌, refl, pos, arith, nat_beq, Option-cases, inl, inr,
}
use factech.Contracts.{Denied, Result, ok, err}
use factech.Policy.{Decision, Stamp, authorize, seconds}
use factech.Database.{Db, Grant, kind_beq, Actor, Session, Resource, Kind, first, first-eq_some}
use factech.Guard.{
  Access, Target, guard, guard_target, found, decided, grants_of, invalid_session, resource_filter,
  target_record, is_over, current_principal,
}

-- A session of the actor that may be used: in use, of the account's epoch and identity, of the token
-- that the access was given for, and within its lifetimes, of eight hours and of half an hour unused.
pub record IsValidSession (now : ℕ) (access : Access) (actor : Actor) (session : Session)
    : Type 0 where
  pub session_active : session.active ≡ true
  pub actor_active : actor.active ≡ true
  pub of_actor : session.actor_id ≡ actor.id
  pub of_epoch : session.epoch ≡ actor.epoch
  pub of_token : session.token_hash ≡ access.token_hash
  pub of_issuer : session.issuer ≡ actor.issuer
  pub of_sub : session.sub ≡ actor.sub
  pub of_tenant : actor.tenant ≡ access.principal.tenant_id
  pub unexpired : now < session.expires_at
  pub recent : now < session.created_at + 28800
  pub in_use : now < session.touched_at + 1800
  pub principal_unexpired : now < seconds access.principal.session_expires_at

IsValidSession-of_valid :
    (now : ℕ) (access : Access) (actor : Actor) (session : Session)
    → invalid_session now access actor session ≡ false
    → IsValidSession now access actor session
unfolding invalid_session
IsValidSession-of_valid now access actor session h = record {
  session_active = ground (arith, h);
  actor_active = ground (arith, h);
  of_actor = ground (arith, h, string_eq.beq_iff session.actor_id actor.id);
  of_epoch = ground (arith, h);
  of_token = ground (arith, h, string_eq.beq_iff session.token_hash access.token_hash);
  of_issuer = ground (arith, h, string_eq.beq_iff session.issuer actor.issuer);
  of_sub = ground (arith, h, string_eq.beq_iff session.sub actor.sub);
  of_tenant = ground (arith, h, string_eq.beq_iff actor.tenant access.principal.tenant_id);
  unexpired = ground (arith, h);
  recent = ground (arith, h);
  in_use = ground (arith, h);
  principal_unexpired = ground (arith, h);
}

-- A time that has not come, where there is one.
abbrev pub IsAhead : ℕ → Option ℕ → Type 0
IsAhead now none = Unit {0}
IsAhead now (some t) = now < t

pub IsAhead-of_over : (now : ℕ) (o : Option ℕ) → is_over o now ≡ false → IsAhead now o
IsAhead-of_over now none h = tt
IsAhead-of_over now (some t) h = ground (arith, h)

kind_beq-eq : (j k : Kind) → kind_beq j k ≡ true → j ≡ k
kind_beq-eq Kind.subject Kind.subject h = refl
kind_beq-eq Kind.subject Kind.round h = absurd (cc)
kind_beq-eq Kind.subject Kind.capture h = absurd (cc)
kind_beq-eq Kind.subject Kind.receipt h = absurd (cc)
kind_beq-eq Kind.round Kind.subject h = absurd (cc)
kind_beq-eq Kind.round Kind.round h = refl
kind_beq-eq Kind.round Kind.capture h = absurd (cc)
kind_beq-eq Kind.round Kind.receipt h = absurd (cc)
kind_beq-eq Kind.capture Kind.subject h = absurd (cc)
kind_beq-eq Kind.capture Kind.round h = absurd (cc)
kind_beq-eq Kind.capture Kind.capture h = refl
kind_beq-eq Kind.capture Kind.receipt h = absurd (cc)
kind_beq-eq Kind.receipt Kind.subject h = absurd (cc)
kind_beq-eq Kind.receipt Kind.round h = absurd (cc)
kind_beq-eq Kind.receipt Kind.capture h = absurd (cc)
kind_beq-eq Kind.receipt Kind.receipt h = refl

-- The rows that the decision rests on, and what holds of them.
pub record IsAuthorized {F : Type 0} (now : ℕ) (access : Access) (kind : Kind) (target : Target)
    (db : Db F) : Type 0 where
  pub actor : Actor
  pub session : Session
  pub row : Resource
  pub reads_enabled : db.reads_enabled ≡ true
  pub actor_read : Member actor db.actors
  pub actor_id : actor.id ≡ access.principal.actor_id
  pub session_read : Member session db.sessions
  pub session_id : session.id ≡ access.session_id
  pub session_valid : IsValidSession now access actor session
  pub row_read : Member row db.resources
  pub row_tenant : row.tenant ≡ access.principal.tenant_id
  pub row_kind : row.kind ≡ kind
  pub row_id : row.id ≡ access.target.id
  pub row_active : row.active ≡ true
  pub row_unexpired : IsAhead now row.expires_at
  pub unchanged : row.generation ≡ access.target.generation
  pub is_target : target ≡ record {
    id = row.id;
    resource = record {
      tenant_id = row.tenant;
      owner_actor_id = row.owner_actor_id;
      round_id = row.round_id;
    };
    generation = row.generation;
    active = row.active;
  }
  pub is_allowed :
      (authorize
        (some (record {
          actor_id = actor.id;
          tenant_id = actor.tenant;
          roles = actor.roles;
          active = true;
          session_active = true;
          session_expires_at = Stamp.int (pos (min session.expires_at (session.touched_at + 1800)));
          authenticated_at = Stamp.int (pos session.authenticated_at);
        }))
        access.action
        target.resource
        (Stamp.int (pos now))
        (map
          (λ (g : Grant). g.grant)
          (filter (λ (g : Grant). g.grant.actor_id == actor.id) db.grants))).allowed
      ≡ true

module _ {F : Type 0} where
  found-ok :
      {A : Type 0} (row : Option A) (d : Denied) (db : Db F) (a : A)
      → (found row d db).0 ≡ ok a
      → (row ≡ some a) × ((found row d db).1 ≡ db)
  found-ok none d db a h = absurd (cc)
  found-ok (some x) d db a h = (cc, refl)

  decided-ok :
      (d : Decision) (t target : Target) (db db' : Db F)
      → decided d t db ≡ (ok target, db')
      → (d.allowed ≡ true) × (target ≡ t) × (db' ≡ db)
  decided-ok d t target db db' h = ground arith

  guard_target-ok :
      (now : ℕ) (access : Access) (actor : Actor) (session : Session) (r : Resource)
      (target : Target) (db db' : Db F)
      → guard_target now access actor session r db ≡ (ok target, db')
      → ((not r.active || is_over r.expires_at now) ≡ false)
        × (nat_beq r.generation access.target.generation ≡ true)
        × (target ≡ target_record r)
        × ((authorize
              (some (current_principal actor session))
              access.action
              target.resource
              (Stamp.int (pos now))
              (grants_of actor.id db)).allowed
            ≡ true)
        × (db' ≡ db)
  unfolding guard_target
  guard_target-ok now access actor session r target db db' h = ground arith

  guard-rows :
      (u : Unit {0}) (now : ℕ) (access : Access) (kind : Kind) (target : Target) (db db' : Db F)
      → guard (ok u) now access kind db ≡ (ok target, db')
      → (actor : Actor) × (session : Session) × (r : Resource) × (first
            (λ (a : Actor). a.id == access.principal.actor_id)
            db.actors
          ≡ some actor)
        × (first (λ (s : Session). s.id == access.session_id) db.sessions ≡ some session)
        × (invalid_session now access actor session ≡ false)
        × (first (resource_filter actor.tenant kind access.target.id) db.resources ≡ some r)
        × (guard_target now access actor session r db ≡ (ok target, db'))
  unfolding guard
  guard-rows u now access kind target db db' h =
      elim (Option-cases (first (λ (a : Actor). a.id == access.principal.actor_id) db.actors)) [
        | inl e ↦ absurd (ground arith)
        | inr (actor, e) ↦
            elim (Option-cases (first (λ (s : Session). s.id == access.session_id) db.sessions)) [
              | inl f ↦ absurd (ground arith)
              | inr (session, f) ↦
                  elim (Option-cases
                    (first (resource_filter actor.tenant kind access.target.id) db.resources)) [
                      | inl g ↦ absurd (ground arith)
                      | inr (r, g) ↦ (actor, session, r, e, f, ground arith, g, ground arith)
                    ]
            ]
      ]

  guard-reads :
      (u : Unit {0}) (now : ℕ) (access : Access) (kind : Kind) (target : Target) (db db' : Db F)
      → guard (ok u) now access kind db ≡ (ok target, db')
      → db.reads_enabled ≡ true
  unfolding guard
  guard-reads u now access kind target db db' h = elim (Bool-cases db.reads_enabled) [
    | inl e ↦ e
    | inr e ↦ let h' = rw e at h in absurd (cc)
  ]

  -- Where `guard` returns, it has changed nothing, reads are enabled, and the database has rows by which,
  -- at that time: the session is the access's, active, of an active account of the same tenant, epoch,
  -- issuer and subject, with the token's hash, unexpired, less than eight hours old and used within
  -- half an hour; the target is of that tenant, of the kind, active, unexpired and of the generation
  -- that the access was given for; and `authorize` allows the action to the account as these rows
  -- describe it, with the account's grants.
  pub guard_sound :
      (gate : Result (Unit {0})) (now : ℕ) (access : Access) (kind : Kind) (target : Target)
      (db db' : Db F)
      → guard gate now access kind db ≡ (ok target, db')
      → (db' ≡ db) × IsAuthorized now access kind target db
  unfolding guard
  guard_sound (err d) now access kind target db db' h = absurd (cc)
  guard_sound (ok u) now access kind target db db' h =
      let (actor, session, r, e, f, v, g, k) = guard-rows u now access kind target db db' h in
      let (in_use, unchanged, same, allowed, kept) =
        guard_target-ok now access actor session r target db db' k in
      let (m0, q0) = first-eq_some _ _ _ e in
      let (m1, q1) = first-eq_some _ _ _ f in
      let (m2, q2) = first-eq_some _ _ _ g in
      let valid = IsValidSession-of_valid now access actor session v in
      (
        kept,
        record {
          actor = actor;
          session = session;
          row = r;
          reads_enabled = guard-reads u now access kind target db db' h;
          actor_read = m0;
          actor_id = (string_eq.beq_iff actor.id access.principal.actor_id).0 q0;
          session_read = m1;
          session_id = (string_eq.beq_iff session.id access.session_id).0 q1;
          session_valid = valid;
          row_read = m2;
          row_tenant =
              ground (arith, q2, string_eq.beq_iff r.tenant actor.tenant) ∙ valid.of_tenant;
          row_kind = kind_beq-eq r.kind kind (ground (arith, q2));
          row_id = ground (arith, q2, string_eq.beq_iff r.id access.target.id);
          row_active = ground (arith, in_use);
          row_unexpired = IsAhead-of_over now r.expires_at (ground (arith, in_use));
          unchanged = ground (arith, unchanged);
          is_target = same;
          is_allowed = allowed;
        },
      )

  -- `guard` writes nothing, whether it returns or raises.
  pub guard-state :
      (gate : Result (Unit {0})) (now : ℕ) (access : Access) (kind : Kind) (db : Db F)
      → (guard gate now access kind db).1 ≡ db
  unfolding guard guard_target
  guard-state (err d) now access kind db = refl
  guard-state (ok u) now access kind db =
      elim (Option-cases (first (λ (a : Actor). a.id == access.principal.actor_id) db.actors)) [
        | inl e ↦ ground arith
        | inr (actor, e) ↦
            elim (Option-cases (first (λ (s : Session). s.id == access.session_id) db.sessions)) [
              | inl f ↦ ground arith
              | inr (session, f) ↦
                  elim (Option-cases
                    (first (resource_filter actor.tenant kind access.target.id) db.resources)) [
                      | inl g ↦ ground arith
                      | inr (r, g) ↦ ground arith
                    ]
            ]
      ]

  pub target_id-eq :
      (now : ℕ) (access : Access) (kind : Kind) (target : Target) (db : Db F)
      → IsAuthorized now access kind target db
      → target.id ≡ access.target.id
  target_id-eq now access kind target db h = ap (λ (t : Target). t.id) h.is_target ∙ h.row_id
