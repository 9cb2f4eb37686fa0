-- ===== src/Policy/Grants.antt =====
-- How the decision of `authorize` depends on the grants at hand and on the clock.
use factech.Base.{ℕ, ◌≤◌, true, Option, some, List, String, ◌≡◌, arith, refl, subst, Member, pos}
use mathlib.Core.Option.{some-injective}
use factech.Policy.{Stamp, int, seconds, Principal, Resource, ReviewGrant, authorize, Scope, Action}
use factech.Policy.Permits.{
  Grants, Permits, authorize_iff, self_service, own_receipt, administrative_aggregate, review_grant,
}

Permits-more :
    {a : Action} {p : Principal} {r : Resource} {now : Stamp} {gs hs : List ReviewGrant}
    → ((g : ReviewGrant) → Member g gs → Member g hs)
    → Permits a p r now gs
    → Permits a p r now hs
Permits-more sub (self_service s o recent) = self_service s o recent
Permits-more sub (own_receipt e o) = own_receipt e o
Permits-more sub (administrative_aggregate e role) = administrative_aggregate e role
Permits-more sub (review_grant required g e role round m c) =
    review_grant required g e role round (sub g m) c

-- Which grants are listed matters, not their order or number: a request that is allowed stays
-- allowed under any list that holds the same grants and perhaps more.
pub authorize_grants_mono :
    (principal : Option Principal) (action : String) (r : Resource) (now : Stamp)
    (gs hs : List ReviewGrant)
    → ((g : ReviewGrant) → Member g gs → Member g hs)
    → (authorize principal action r now gs).allowed ≡ true
    → (authorize principal action r now hs).allowed ≡ true
authorize_grants_mono principal action r now gs hs sub h =
    let ok = (authorize_iff principal action r now gs).0 h in
    (authorize_iff principal action r now hs).1 (record {
      who = ok.who;
      is_who = ok.is_who;
      signed_in = ok.signed_in;
      tenant = ok.tenant;
      what = ok.what;
      is_what = ok.is_what;
      permits = Permits-more sub ok.permits;
    })

module _ {t u : ℕ} (le : t ≤ u) where
  Grants-earlier :
      {p : Principal} {r : Resource} {required : List Scope} {g : ReviewGrant}
      → Grants (int (pos u)) p r required g
      → Grants (int (pos t)) p r required g
  Grants-earlier c = record {
    live = c.live;
    expiry = c.expiry;
    unexpired = omega (arith, le, c.unexpired);
    actor = c.actor;
    tenant = c.tenant;
    round = c.round;
    scopes = c.scopes;
  }

  Permits-earlier :
      {a : Action} {p : Principal} {r : Resource} {gs : List ReviewGrant}
      → Permits a p r (int (pos u)) gs
      → Permits a p r (int (pos t)) gs
  Permits-earlier (self_service s o recent) = self_service s o (λ e. omega (arith, le, recent e))
  Permits-earlier (own_receipt e o) = own_receipt e o
  Permits-earlier (administrative_aggregate e role) = administrative_aggregate e role
  Permits-earlier (review_grant required g e role round m c) =
      review_grant required g e role round m (Grants-earlier c)

-- Authority only lapses as time passes: what is allowed at one second was allowed at every earlier
-- second since the sign-in.
pub authorize_time_anti :
    (p : Principal) (action : String) (r : Resource) (gs : List ReviewGrant) (t u : ℕ)
    → seconds p.authenticated_at ≤ t
    → t ≤ u
    → (authorize (some p) action r (int (pos u)) gs).allowed ≡ true
    → (authorize (some p) action r (int (pos t)) gs).allowed ≡ true
authorize_time_anti p action r gs t u past le h =
    let ok = (authorize_iff (some p) action r (int (pos u)) gs).0 h in
    let signed = ok.signed_in in
    let past' = subst (λ q. seconds q.authenticated_at ≤ t) (some-injective _ _ ok.is_who) past in
    (authorize_iff (some p) action r (int (pos t)) gs).1 (record {
      who = ok.who;
      is_who = ok.is_who;
      signed_in = record {
        clock = refl;
        active = signed.active;
        session_active = signed.session_active;
        actor = signed.actor;
        tenant = signed.tenant;
        expiry = signed.expiry;
        sign_in = signed.sign_in;
        unexpired = omega (arith, le, signed.unexpired);
        past = past';
      };
      tenant = ok.tenant;
      what = ok.what;
      is_what = ok.is_what;
      permits = Permits-earlier le ok.permits;
    })
