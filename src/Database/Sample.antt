-- ===== src/Database/Sample.antt =====
-- A small database to run the model with.
use factech.Base.{ℕ, true, false, none, some, [], ◌∷◌}
use factech.Policy.{Role}
use factech.Challenge.{Params}
use factech.Database.{
  Db, Actor, Session, Resource, Kind, Challenge, Template, Operation, State, Consent, Job, JobState,
  Purge, Recording, RecordingState,
}

abbrev pub actor_one : Actor
actor_one = record {
  id = "u1";
  issuer = "idp";
  sub = "s1";
  tenant = "t1";
  roles = Role.participant ∷ [];
  epoch = 1;
  active = true;
}

abbrev pub session_one : Session
session_one = record {
  id = "k1";
  cookie_hash = "w1";
  actor_id = "u1";
  epoch = 1;
  issuer = "idp";
  sub = "s1";
  provider_sid = "v1";
  authenticated_at = 1900;
  created_at = 1000;
  touched_at = 1500;
  expires_at = 5000;
  csrf_hash = "x1";
  token_ciphertext = "y1";
  token_hash = "h1";
  active = true;
}

abbrev pub subject_one : Resource
subject_one = record {
  tenant = "t1";
  kind = Kind.subject;
  id = "p1";
  owner_actor_id = some "u1";
  round_id = some "r1";
  generation = 3;
  data_ref = none;
  active = true;
  expires_at = none;
}

abbrev pub capture_one : Resource
capture_one = record subject_one {
  kind = Kind.capture;
  id = "c1";
  generation = 0;
  data_ref = some "c1";
}

abbrev pub challenge_one : Challenge ℕ
challenge_one = record {
  digest = "d1";
  actor_id = "u1";
  session_id = "k1";
  tenant = "t1";
  subject_id = "p1";
  generation = 3;
  operation = "enroll";
  action = "LOOK_LEFT";
  params = Params.single 1200 150000;
  issued_at = 1990000;
  expires_at = 2020000;
  consumed = false;
  operation_id = none;
}

abbrev pub template_one : Template
template_one = record {
  id = "f1";
  tenant = "t1";
  subject_id = "p1";
  owner_actor_id = "u1";
  active = true;
  revoked_at = none;
  model_fingerprint = "m1";
  expires_at = some 9000;
}

abbrev pub operation_one : Operation
operation_one = record {
  id = "o1";
  tenant = "t1";
  actor_id = "u1";
  subject_id = "p1";
  key = "i1";
  operation = "enroll";
  request_digest = "b1";
  state = State.processing;
  status = none;
  result = none;
  created_at = 1800;
  expires_at = 88200;
}

abbrev pub consent_one : Consent
consent_one = record {
  tenant = "t1";
  subject_id = "p1";
  scope = "template_authentication";
  actor_id = "u1";
  text_version = "template-authentication-v1";
  granted = true;
  revision = 2;
}

abbrev pub job_one : Job
job_one = record {
  tenant = "t1";
  kind = Purge.capture;
  id = "c1";
  attempts = 4;
  next_attempt = 1900;
  lease_until = 0;
  state = JobState.pending;
}

abbrev pub recording_one : Recording
recording_one = record {
  tenant = "t1";
  id = "c1";
  subject_id = "p1";
  actor_id = "u1";
  round_id = "r1";
  revision = 2;
  state = RecordingState.stored;
  created_at = 1700;
  expires_at = 9000;
}

abbrev pub sample : Db ℕ
sample = record {
  reads_enabled = true;
  actors = actor_one ∷ [];
  sessions = session_one ∷ [];
  resources = subject_one ∷ capture_one ∷ [];
  logins = [];
  outbox = [];
  replays = [];
  revocations = [];
  grants = [];
  challenges = challenge_one ∷ [];
  templates = template_one ∷ [];
  operations = [];
  consents = consent_one ∷ [];
  consent_events = [];
  deletion_ledger = [];
  purge_jobs = job_one ∷ [];
  recordings = recording_one ∷ [];
  audit = [];
}
