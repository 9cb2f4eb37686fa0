-- ===== src/Policy/Permits.antt =====
-- What `authorize` promises, stated without its control flow, and the proof that it grants exactly
-- that.
use factech.Base.{
  ◌+◌, ◌≤◌, ◌<◌, true, false, ◌&&◌, Option, none, some, List, [], ◌∷◌, String, any, all, string_eq,
  ◌≡◌, ◌≢◌, ◌↔◌, inl, inr, refl, sym, arith, Member, here, there, any-Member, Member-of_any,
  Bool-cases, eq_iff, subst,
}
use factech.Policy.{
  Role, Scope, role_beq, scope_beq, Stamp, timestamp, seconds, Principal, Resource, ReviewGrant,
  self_action, recent_login_action, review_scopes, recent_login_seconds, given, is_text,
  unauthenticated, is_owner, covers, is_receipt, is_aggregates, decide_action, decide_parsed,
  authorize,
}
use factech.Policy.Names.{
  Action, action_value, parse_action, parse_action-action_value, parse_action-eq_some,
}

-- A live session of an active actor, read at a moment between its sign-in and its expiry.
pub record IsSignedIn (now : Stamp) (p : Principal) : Type 0 where
  pub clock : timestamp now ≡ true
  pub active : p.active ≡ true
  pub session_active : p.session_active ≡ true
  pub actor : p.actor_id ≢ ""
  pub tenant : p.tenant_id ≢ ""
  pub expiry : timestamp p.session_expires_at ≡ true
  pub sign_in : timestamp p.authenticated_at ≡ true
  pub unexpired : seconds now < seconds p.session_expires_at
  pub past : seconds p.authenticated_at ≤ seconds now

-- The participant whose actor owns the resource.
pub record Owns (p : Principal) (r : Resource) : Type 0 where
  pub role : Member Role.participant p.roles
  pub nonempty : p.actor_id ≢ ""
  pub owner : r.owner_actor_id ≡ some p.actor_id

-- A live grant to this reviewer, for this tenant and round, that has every scope wanted.
pub record Grants (now : Stamp) (p : Principal) (r : Resource) (required : List Scope)
    (g : ReviewGrant) : Type 0 where
  pub live : g.revoked ≡ false
  pub expiry : timestamp g.expires_at ≡ true
  pub unexpired : seconds now < seconds g.expires_at
  pub actor : g.actor_id ≡ p.actor_id
  pub tenant : g.tenant_id ≡ r.tenant_id
  pub round : r.round_id ≡ some g.round_id
  pub scopes : (s : Scope) → Member s required → Member s g.scopes

pub data Permits (a : Action) (p : Principal) (r : Resource) (now : Stamp)
    (grants : List ReviewGrant) : Type 0 where
  self_service :
      self_action a ≡ true
      → Owns p r
      → (recent_login_action a ≡ true
          → seconds now < seconds p.authenticated_at + recent_login_seconds)
      → Permits a p r now grants
  own_receipt : a ≡ Action.read_receipt → Owns p r → Permits a p r now grants
  administrative_aggregate :
      a ≡ Action.read_aggregates → Member Role.administrator p.roles → Permits a p r now grants
  review_grant :
      (required : List Scope) (g : ReviewGrant)
      → review_scopes a ≡ some required
      → Member Role.reviewer p.roles
      → r.round_id ≢ some ""
      → Member g grants
      → Grants now p r required g
      → Permits a p r now grants

pub IsSignedIn-iff :
    (now : Stamp) (p : Principal) → (unauthenticated now p ≡ false) ↔ IsSignedIn now p
unfolding unauthenticated
IsSignedIn-iff now p = (
  λ h. ground (arith, eq_iff p.actor_id "", eq_iff p.tenant_id ""),
  λ h. ground (arith, eq_iff p.actor_id "", eq_iff p.tenant_id ""),
)

role_beq_iff : (a b : Role) → (role_beq a b ≡ true) ↔ (a ≡ b)
role_beq_iff a b = ground arith

scope_beq_iff : (a b : Scope) → (scope_beq a b ≡ true) ↔ (a ≡ b)
scope_beq_iff a b = ground arith

pub has_role_iff : (a : Role) (roles : List Role) → (any (role_beq a) roles ≡ true) ↔ Member a roles
has_role_iff a roles = (
  λ h.
      let (b, m, e) = Member-of_any (role_beq a) roles h in
      subst (λ x. Member x roles) (sym ((role_beq_iff a b).0 e)) m,
  λ m. any-Member (role_beq a) m ((role_beq_iff a a).1 refl),
)

has_scope_iff : (a : Scope) (xs : List Scope) → (any (scope_beq a) xs ≡ true) ↔ Member a xs
has_scope_iff a xs = (
  λ h.
      let (b, m, e) = Member-of_any (scope_beq a) xs h in
      subst (λ x. Member x xs) (sym ((scope_beq_iff a b).0 e)) m,
  λ m. any-Member (scope_beq a) m ((scope_beq_iff a a).1 refl),
)

all_scopes :
    (required xs : List Scope)
    → all (λ s. any (scope_beq s) xs) required ≡ true
    → (s : Scope) → Member s required
    → Member s xs
all_scopes [] xs h s m = elim m [ ]
all_scopes (t ∷ rest) xs h _ here = (has_scope_iff t xs).0 (ground arith)
all_scopes (t ∷ rest) xs h s (there m) = all_scopes rest xs (ground arith) s m

scopes_all :
    (required xs : List Scope)
    → ((s : Scope) → Member s required → Member s xs)
    → all (λ s. any (scope_beq s) xs) required ≡ true
scopes_all [] xs h = refl
scopes_all (s ∷ rest) xs h =
    ground (arith, (has_scope_iff s xs).1 (h s here), scopes_all rest xs (λ t m. h t (there m)))

is_text_iff : (o : Option String) (s : String) → (is_text o s ≡ true) ↔ (o ≡ some s)
is_text_iff none s = ground arith
is_text_iff (some t) s = ground (arith, eq_iff t s)

given_iff : (o : Option String) (s : String) → o ≡ some s → (given o ≡ true) ↔ (s ≢ "")
given_iff none s h = absurd (cc)
given_iff (some t) s h = ground (arith, eq_iff t "")

is_owner_parts :
    (p : Principal) (r : Resource)
    → is_owner p r ≡ true
    → (any (role_beq Role.participant) p.roles ≡ true)
      × (given r.owner_actor_id ≡ true)
      × (is_text r.owner_actor_id p.actor_id ≡ true)
unfolding is_owner
is_owner_parts p r h = ground arith

pub Owns-of_is_owner : (p : Principal) (r : Resource) → is_owner p r ≡ true → Owns p r
Owns-of_is_owner p r h =
    let (role, named, owner) = is_owner_parts p r h in
    let e = (is_text_iff r.owner_actor_id p.actor_id).0 owner in
    record {
      role = (has_role_iff Role.participant p.roles).0 role;
      nonempty = (given_iff r.owner_actor_id p.actor_id e).0 named;
      owner = e;
    }

pub is_owner-of_Owns : (p : Principal) (r : Resource) → Owns p r → is_owner p r ≡ true
unfolding is_owner
is_owner-of_Owns p r o = ground (
  arith,
  (has_role_iff Role.participant p.roles).1 o.role,
  (given_iff r.owner_actor_id p.actor_id o.owner).1 o.nonempty,
  (is_text_iff r.owner_actor_id p.actor_id).1 o.owner,
)

pub Grants-of_covers :
    (now : Stamp) (p : Principal) (r : Resource) (required : List Scope) (g : ReviewGrant)
    → covers now p r (some required) g ≡ true
    → Grants now p r required g
unfolding covers
Grants-of_covers now p r required g h = record {
  live = ground arith;
  expiry = ground arith;
  unexpired = ground arith;
  actor = (eq_iff g.actor_id p.actor_id).0 (ground arith);
  tenant = (eq_iff g.tenant_id r.tenant_id).0 (ground arith);
  round = (is_text_iff r.round_id g.round_id).0 (ground arith);
  scopes = all_scopes required g.scopes (ground arith);
}

pub covers-of_Grants :
    (now : Stamp) (p : Principal) (r : Resource) (required : List Scope) (g : ReviewGrant)
    → Grants now p r required g
    → covers now p r (some required) g ≡ true
unfolding covers
covers-of_Grants now p r required g h = ground (
  arith,
  h.live,
  h.expiry,
  h.unexpired,
  (eq_iff g.actor_id p.actor_id).1 h.actor,
  (eq_iff g.tenant_id r.tenant_id).1 h.tenant,
  (is_text_iff r.round_id g.round_id).1 h.round,
  scopes_all required g.scopes h.scopes,
)

given-round : (o : Option String) → given o ≡ true → o ≢ some ""
given-round none h e = cc
given-round (some t) h e = ground (arith, eq_iff t "")

round-given : (o : Option String) {s : String} → o ≡ some s → o ≢ some "" → given o ≡ true
round-given none e h = cc
round-given (some t) e h = ground (arith, eq_iff t "")

covers_nothing :
    (now : Stamp) (p : Principal) (r : Resource) (grants : List ReviewGrant)
    → any (covers now p r none) grants ≡ false
unfolding covers
covers_nothing now p r [] = refl
covers_nothing now p r (g ∷ rest) = covers_nothing now p r rest

is_receipt_iff : (a : Action) → is_receipt a ≡ true → a ≡ Action.read_receipt
unfolding is_receipt
is_receipt_iff a h = ground arith

is_aggregates_iff : (a : Action) → is_aggregates a ≡ true → a ≡ Action.read_aggregates
unfolding is_aggregates
is_aggregates_iff a h = ground arith

module _ (a : Action) (p : Principal) (r : Resource) (now : Stamp) (grants : List ReviewGrant) where
  review_case :
      (scopes : Option (List Scope))
      → review_scopes a ≡ scopes
      → any (role_beq Role.reviewer) p.roles ≡ true
      → given r.round_id ≡ true
      → any (covers now p r scopes) grants ≡ true
      → Permits a p r now grants
  review_case none e role round found = absurd (cc (covers_nothing now p r grants))
  review_case (some required) e role round found =
      let (g, m, c) = Member-of_any (covers now p r (some required)) grants found in
      review_grant required g e ((has_role_iff Role.reviewer p.roles).0 role)
        (given-round r.round_id round) m (Grants-of_covers now p r required g c)

  Permits-of_decide : (decide_action a p r now grants).allowed ≡ true → Permits a p r now grants
  unfolding decide_action
  Permits-of_decide h = elim (Bool-cases (self_action a)) [
    | inl s ↦ self_service s (Owns-of_is_owner p r (ground arith)) (λ recent. ground arith)
    | inr s ↦ elim (Bool-cases (is_receipt a && is_owner p r)) [
      | inl o ↦ own_receipt (is_receipt_iff a (ground arith)) (Owns-of_is_owner p r (ground arith))
      | inr o ↦ elim (Bool-cases (is_aggregates a && any (role_beq Role.administrator) p.roles)) [
        | inl d ↦
            administrative_aggregate (is_aggregates_iff a (ground arith))
              ((has_role_iff Role.administrator p.roles).0 (ground arith))
        | inr d ↦ review_case (review_scopes a) refl (ground arith) (ground arith) (ground arith)
      ]
    ]
  ]

  decide-of_self_service :
      self_action a ≡ true
      → Owns p r
      → (recent_login_action a ≡ true
          → seconds now < seconds p.authenticated_at + recent_login_seconds)
      → (decide_action a p r now grants).allowed ≡ true
  unfolding decide_action
  decide-of_self_service s o recent = ground (arith, is_owner-of_Owns p r o)

  decide-of_review_grant :
      (required : List Scope) (g : ReviewGrant)
      → review_scopes a ≡ some required
      → Member Role.reviewer p.roles
      → r.round_id ≢ some ""
      → Member g grants
      → Grants now p r required g
      → (decide_action a p r now grants).allowed ≡ true
  unfolding decide_action
  decide-of_review_grant required g e role round m c =
      let found : any (covers now p r (review_scopes a)) grants ≡ true =
        rw e
          (any-Member (covers now p r (some required)) m (covers-of_Grants now p r required g c)) in
      ground (
        arith,
        found,
        (has_role_iff Role.reviewer p.roles).1 role,
        round-given r.round_id c.round round,
      )

  decide-of_Permits : Permits a p r now grants → (decide_action a p r now grants).allowed ≡ true
  unfolding decide_action is_receipt is_aggregates
  decide-of_Permits (self_service s o recent) = decide-of_self_service s o recent
  decide-of_Permits (own_receipt e o) = ground (arith, is_owner-of_Owns p r o)
  decide-of_Permits (administrative_aggregate e role) =
      ground (arith, (has_role_iff Role.administrator p.roles).1 role)
  decide-of_Permits (review_grant required g e role round m c) =
      decide-of_review_grant required g e role round m c

-- Everything that an allowed request has behind it.
pub record IsAuthorized (principal : Option Principal) (action : String) (r : Resource)
    (now : Stamp) (grants : List ReviewGrant) : Type 0 where
  pub who : Principal
  pub is_who : principal ≡ some who
  pub signed_in : IsSignedIn now who
  pub tenant : r.tenant_id ≡ who.tenant_id
  pub what : Action
  pub is_what : action_value what ≡ action
  pub permits : Permits what who r now grants

module _ (p : Principal) (action : String) (r : Resource) (now : Stamp)
    (grants : List ReviewGrant) where
  parsed_case :
      (o : Option Action)
      → (decide_parsed o p r now grants).allowed ≡ true
      → (a : Action) × (o ≡ some a) × Permits a p r now grants
  unfolding decide_parsed
  parsed_case none h = absurd (cc)
  parsed_case (some a) h = (a, refl, Permits-of_decide a p r now grants h)

  authorize_gates :
      (authorize (some p) action r now grants).allowed ≡ true
      → (unauthenticated now p ≡ false)
        × (r.tenant_id ≡ p.tenant_id)
        × ((decide_parsed (parse_action action) p r now grants).allowed ≡ true)
  unfolding authorize
  authorize_gates h = ground (arith, eq_iff r.tenant_id p.tenant_id)

  IsAuthorized-of_allowed :
      (authorize (some p) action r now grants).allowed ≡ true
      → IsAuthorized (some p) action r now grants
  IsAuthorized-of_allowed h =
      let (signed, tenant, allowed) = authorize_gates h in
      let (a, e, permits) = parsed_case (parse_action action) allowed in
      record {
        who = p;
        is_who = refl;
        signed_in = (IsSignedIn-iff now p).0 signed;
        tenant = tenant;
        what = a;
        is_what = parse_action-eq_some action a e;
        permits = permits;
      }

  allowed-of_Permits :
      (a : Action)
      → IsSignedIn now p
      → r.tenant_id ≡ p.tenant_id
      → action_value a ≡ action
      → Permits a p r now grants
      → (authorize (some p) action r now grants).allowed ≡ true
  unfolding authorize decide_parsed
  allowed-of_Permits a signed tenant e permits =
      let parsed : parse_action action ≡ some a =
        subst (λ s. parse_action s ≡ some a) e (parse_action-action_value a) in
      ground (
        arith,
        (IsSignedIn-iff now p).1 signed,
        eq_iff r.tenant_id p.tenant_id,
        eq_iff r.tenant_id "",
        parsed,
        decide-of_Permits a p r now grants permits,
        signed.tenant,
      )

-- `authorize` allows a request exactly when its principal is signed in, its resource lies in the
-- principal's tenant, its action is one of the known names, and that action is permitted: to the
-- owning participant with a recent sign-in where the action wants one, to the owner of a receipt,
-- to an administrator for aggregates, or to a reviewer under a live grant with every scope wanted.
pub authorize_iff :
    (principal : Option Principal) (action : String) (r : Resource) (now : Stamp)
    (grants : List ReviewGrant)
    → ((authorize principal action r now grants).allowed ≡ true)
      ↔ IsAuthorized principal action r now grants
authorize_iff principal action r now grants = (to principal, from principal)
  where
    to :
        (o : Option Principal)
        → (authorize o action r now grants).allowed ≡ true
        → IsAuthorized o action r now grants
    to none h = absurd (unfold authorize in cc)
    to (some p) h = IsAuthorized-of_allowed p action r now grants h

    from :
        (o : Option Principal)
        → IsAuthorized o action r now grants
        → (authorize o action r now grants).allowed ≡ true
    from o h = rw h.is_who (
        allowed-of_Permits h.who action r now grants h.what h.signed_in h.tenant h.is_what
          h.permits)
