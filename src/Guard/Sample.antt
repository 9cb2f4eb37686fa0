-- ===== src/Guard/Sample.antt =====
-- A request of the person of the sample database.
use factech.Base.{true, some, [], ◌∷◌, pos}
use factech.Policy.{Role, Stamp}
use factech.Guard.{Access, Target}

abbrev pub target_one : Target
target_one = record {
  id = "p1";
  resource = record { tenant_id = "t1"; owner_actor_id = some "u1"; round_id = some "r1" };
  generation = 3;
  active = true;
}

abbrev pub access_one : Access
access_one = record {
  principal = record {
    actor_id = "u1";
    tenant_id = "t1";
    roles = Role.participant ∷ [];
    active = true;
    session_active = true;
    session_expires_at = Stamp.int (pos 3300);
    authenticated_at = Stamp.int (pos 1900);
  };
  session_id = "k1";
  token_hash = "h1";
  action = "template.enroll";
  target = target_one;
  request_id = "q1";
}
