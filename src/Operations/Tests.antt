-- ===== src/Operations/Tests.antt =====
-- The sample database through a claim and a commit, and the theorems there.
use factech.Base.{
  ℕ, ◌≤◌, ◌<◌, true, false, ◌&&◌, none, some, List, [], ◌∷◌, length, filter, Member, ◌==◌,
  string_eq, ◌≡◌, refl, arith, lookup, All,
}
use factech.Numbers.Sample.{millionths}
use factech.Contracts.{ok, err, refuse}
use factech.Policy.{
  authorize, decide_parsed, decide_action, unauthenticated, is_owner, parse_action,
}
use factech.Challenge.{items, same_keys, echo}
use factech.Database.{Db, Kind, Operation, State, first, update_where}
use factech.Database.Tx.{run}
use factech.Database.Sample.{sample, operation_one, challenge_one, template_one}
use factech.Guard.Sample.{target_one, access_one}
use factech.Guard.{Target, guard, guard_target, invalid_session}
use factech.Guard.Sound.{IsAuthorized, IsAhead, guard_sound}
use factech.Lifecycle.{is_processing, distinct}
use factech.Operations.{
  Env, Request, Claim, claimed, replay, Analysis, consent, capacity, enrolled, spendable,
  spend_nonce, reclaim, audit, active_templates,
}
use factech.Operations.Scan.{
  claim, claim_new, spend, echoed, head_parameters_match, consent_if, commit, enroll,
  store_template, reconsent,
}
use factech.Operations.Claims.{IsClaimed, claim_sound, replay_sound}
use factech.Operations.Nonces.{Attempt, wins, nonce_claimed_once}
use factech.Operations.Requests.{Ask, Reply, perform, request}
use factech.Operations.Revoked.{revoke_templates_ends}
use factech.Operations.Commits.{IsUnexpired, IsUnderWay, commit_capacity, commit_sound}
use factech.Operations.Consented.{IsConsentIf}

-- All readings at 2000 seconds.
abbrev env_one : Env
env_one = record {
  gate = ok tt;
  format_id = "m1";
  template_expires_at = some 9000;
  clock = λ k. 2000000;
}

abbrev request_one : Request ℕ
request_one = record {
  access = access_one;
  operation = "enroll";
  nonce_digest = "d1";
  key = "i1";
  digest = "b1";
  action = some "LOOK_LEFT";
  params = some (items challenge_one.params);
}

abbrev claim_one : Claim ℕ
claim_one = record {
  operation_id = "o1";
  revision = some 2;
  templates = template_one ∷ [];
  challenge = challenge_one;
  age_ms = 10000;
}

guarded : guard (ok tt) 2000 access_one Kind.subject sample ≡ (ok target_one, sample)
unfolding guard guard_target first invalid_session authorize decide_parsed decide_action
    unauthenticated is_owner parse_action
guarded = refl

abbrev claimed_sample : Db ℕ
claimed_sample = (claim millionths env_one request_one "o1" sample).1

claims : claim millionths env_one request_one "o1" sample ≡ (ok (claimed claim_one), claimed_sample)
unfolding claim claim_new spend echoed head_parameters_match consent_if consent capacity enrolled
    spendable spend_nonce audit distinct same_keys echo lookup update_where guard guard_target first
    invalid_session authorize decide_parsed decide_action unauthenticated is_owner parse_action
claims = refl

guard_sound_example :
    (sample ≡ sample) × IsAuthorized 2000 access_one Kind.subject target_one sample
guard_sound_example =
    guard_sound (ok tt) 2000 access_one Kind.subject target_one sample sample guarded

claim_sound_example : IsClaimed millionths env_one request_one "o1" claim_one sample claimed_sample
claim_sound_example =
    claim_sound millionths env_one request_one "o1" claim_one sample claimed_sample claims

-- The same request again, and the same nonce under another key.
abbrev attempts : List (Attempt ℕ)
attempts =
    record { env = env_one; rq = request_one; operation_id = "o1" }
    ∷ record { env = env_one; rq = request_one; operation_id = "o2" }
    ∷ record { env = env_one; rq = record request_one { key = "i2" }; operation_id = "o3" }
    ∷ []

wins_one : wins millionths "d1" attempts sample ≡ 1
unfolding wins run reclaim claim claim_new spend echoed head_parameters_match consent_if consent
    capacity enrolled spendable spend_nonce audit distinct same_keys echo lookup update_where guard
    guard_target first invalid_session authorize decide_parsed decide_action unauthenticated
    is_owner parse_action
wins_one = refl

nonce_claimed_once_example : wins millionths "d1" attempts sample ≤ 1
nonce_claimed_once_example = nonce_claimed_once millionths "d1" attempts sample (omega arith)

abbrev interrupted : Db ℕ
interrupted = record sample { operations = operation_one ∷ [] }

-- The worker's lease is over, and the request is refused.
refused_interrupted :
    (run (claim millionths env_one request_one "o2") interrupted).0
    ≡ err (refuse "OPERATION_INTERRUPTED" 409)
unfolding run reclaim claim claim_new spend echoed head_parameters_match consent_if consent capacity
    enrolled spendable spend_nonce audit distinct same_keys echo lookup update_where guard
    guard_target first invalid_session authorize decide_parsed decide_action unauthenticated
    is_owner parse_action
refused_interrupted = refl

abbrev completed_one : Operation
completed_one = record operation_one { state = State.completed; status = some 200 }

abbrev completed : Db ℕ
completed = record sample { operations = completed_one ∷ [] }

replays :
    claim millionths env_one request_one "o2" completed
    ≡ (ok (replay completed_one), (claim millionths env_one request_one "o2" completed).1)
unfolding reclaim claim claim_new spend echoed head_parameters_match consent_if consent capacity
    enrolled spendable spend_nonce audit distinct same_keys echo lookup update_where guard
    guard_target first invalid_session authorize decide_parsed decide_action unauthenticated
    is_owner parse_action
replays = refl

replay_sound_example :
    Member completed_one completed.operations
    × (completed_one.actor_id ≡ access_one.principal.actor_id)
    × (completed_one.key ≡ "i1")
    × ((completed_one.request_digest == "b1"
          && completed_one.subject_id == "p1"
          && completed_one.operation == "enroll")
        ≡ true)
    × (is_processing completed_one.state ≡ false)
    × (2000 < completed_one.expires_at)
    × ((claim millionths env_one request_one "o2" completed).1.operations ≡ completed.operations)
    × ((claim millionths env_one request_one "o2" completed).1.challenges ≡ completed.challenges)
    × ((claim millionths env_one request_one "o2" completed).1.templates ≡ completed.templates)
replay_sound_example =
    replay_sound millionths env_one request_one "o2" completed
      (claim millionths env_one request_one "o2" completed).1 completed_one replays

abbrev accepted : Analysis
accepted = record { accepted = true; has_template = true }

abbrev committed : Db ℕ
committed = (commit env_one "t1" access_one "enroll" claim_one accepted "f2" claimed_sample).1

commits :
    commit env_one "t1" access_one "enroll" claim_one accepted "f2" claimed_sample
    ≡ (ok (some "f2"), committed)
unfolding commit enroll store_template reconsent claim claim_new spend echoed head_parameters_match
    consent_if consent capacity enrolled spendable spend_nonce audit distinct same_keys echo lookup
    update_where guard guard_target first invalid_session authorize decide_parsed decide_action
    unauthenticated is_owner parse_action
commits = refl

commit_sound_example :
    (target : Target) × IsAuthorized 2000 access_one Kind.subject target claimed_sample
    × IsConsentIf (some 2) access_one claimed_sample
    × All (IsUnexpired 2000) claim_one.templates
    × IsAhead 2000 (some 9000)
    × IsUnderWay "o1" claimed_sample
    × (committed.operations
        ≡ update_where
            (λ (o : Operation). o.id == "o1")
            (λ o. record o {
              state = State.completed;
              status = some 200;
              result = some (record { error = none; accepted = true; template_id = some "f2" });
            })
            claimed_sample.operations)
commit_sound_example =
    commit_sound env_one "t1" access_one "enroll" claim_one accepted "f2" (some "f2") claimed_sample
      committed commits

two_templates : length (filter (active_templates "t1" "p1" 2000) claimed_sample.templates) ≤ 5
unfolding claim claim_new spend echoed head_parameters_match consent_if consent capacity enrolled
    spendable spend_nonce audit distinct same_keys echo lookup update_where guard guard_target first
    invalid_session authorize decide_parsed decide_action unauthenticated is_owner parse_action
two_templates = omega arith

commit_capacity_example : length (filter (active_templates "t1" "p1" 2000) committed.templates) ≤ 5
commit_capacity_example =
    commit_capacity env_one "t1" access_one "enroll" claim_one accepted "f2" "t1" "p1" (some "f2")
      claimed_sample committed commits two_templates

abbrev revoking : Db ℕ
revoking = (request (λ xs. xs) env_one access_one Kind.subject Ask.revoke_templates sample).1

has_revoked :
    request (λ xs. xs) env_one access_one Kind.subject Ask.revoke_templates sample
    ≡ (ok (Reply.revoked 1 4), revoking)
unfolding request perform guard guard_target first invalid_session authorize decide_parsed
    decide_action unauthenticated is_owner parse_action audit
has_revoked = refl

revoke_templates_ends_example :
    (target : Target) × (reached : Db ℕ) × (guard (ok tt) 2000 access_one Kind.subject sample
      ≡ (ok target, reached))
    × All (λ t. active_templates "t1" target.id 2000 t ≡ false) revoking.templates
    × All
        (λ (o : Operation).
          (o.tenant == "t1" && o.subject_id == target.id && is_processing o.state) ≡ false)
        revoking.operations
revoke_templates_ends_example =
    revoke_templates_ends (λ xs. xs) env_one access_one Kind.subject (Reply.revoked 1 4) sample
      revoking has_revoked
