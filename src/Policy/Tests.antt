-- ===== src/Policy/Tests.antt =====
-- Runs of the policy, and its theorems at concrete requests.
use factech.Base.{true, false, none, some, [], ◌∷◌, ◌≡◌, refl, ap, pos}
use factech.Policy.{
  Role, Scope, int, Principal, Resource, ReviewGrant, Reason, allow, deny, authorize, decide_parsed,
  decide_action, is_receipt, is_aggregates, covers, unauthenticated, is_owner,
}
use factech.Policy.Permits.{IsAuthorized, authorize_iff}
use factech.Policy.Names.{parse_action}

abbrev reader : Principal
reader = record {
  actor_id = "r1";
  tenant_id = "t1";
  roles = Role.reviewer ∷ [];
  active = true;
  session_active = true;
  session_expires_at = int (pos 9000);
  authenticated_at = int (pos 1000);
}

abbrev round_one : Resource
round_one = record { tenant_id = "t1"; owner_actor_id = none; round_id = some "round" }

abbrev frame_grant : ReviewGrant
frame_grant = record {
  actor_id = "r1";
  tenant_id = "t1";
  round_id = "round";
  scopes = Scope.metadata ∷ Scope.frames ∷ [];
  expires_at = int (pos 5000);
  revoked = false;
}

reads_frame :
    authorize (some reader) "frame.read" round_one (int (pos 2000)) (frame_grant ∷ [])
    ≡ allow Reason.review_grant
unfolding authorize decide_parsed decide_action unauthenticated is_owner covers is_receipt
    is_aggregates parse_action
reads_frame = refl

lapsed_grant :
    authorize (some reader) "frame.read" round_one (int (pos 5000)) (frame_grant ∷ [])
    ≡ deny Reason.review_grant_required
unfolding authorize decide_parsed decide_action unauthenticated is_owner covers is_receipt
    is_aggregates parse_action
lapsed_grant = refl

reads_allowed :
    (authorize (some reader) "frame.read" round_one (int (pos 2000)) (frame_grant ∷ [])).allowed
    ≡ true
reads_allowed = ap (λ d. d.allowed) reads_frame

authorize_iff_example :
    IsAuthorized (some reader) "frame.read" round_one (int (pos 2000)) (frame_grant ∷ [])
authorize_iff_example =
    (authorize_iff (some reader) "frame.read" round_one (int (pos 2000)) (frame_grant ∷ [])).0
      reads_allowed
