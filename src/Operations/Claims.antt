-- ===== src/Operations/Claims.antt =====
-- What a claim decides: whose nonce it spends, when it replays, and what it leaves of the operations.
use factech.Base.{
  All, all, ◌||◌, ◌∙◌, ℕ, ◌+◌, ◌≤◌, ◌<◌, Bool, true, false, not, ◌&&◌, Option, none, some, [], ◌∷◌,
  ◌++◌, String, Member, leb, nat_beq, ◌==◌, string_eq, ◌≡◌, refl, sym, ap, subst, arith,
  Option-cases, inl, inr,
}
use factech.Numbers.{Floats}
use factech.Challenge.{Presented, items, same_keys, echo}
use factech.Contracts.{Result, ok, ok-injective}
use factech.Database.{State, Challenge, Db, Kind, Operation, first, update_where, first-eq_some}
use factech.Database.Tx.{outcome-cases}
use factech.Guard.{Target}
use factech.Guard.Sound.{IsAuthorized, guard_sound, target_id-eq}
use factech.Lifecycle.{is_processing}
use factech.Operations.{Env, Request, Claim, claimed, replay, seconds_at, consent, spendable}
use factech.Operations.Consented.{IsConsentIf, consent-ok}
use factech.Operations.Scan.{
  head_parameters_match, claim, echoed, consent_if, needs_consent, same_request,
}
use factech.Operations.Outcomes.{
  is_some, first-none, replay-injective, claimed-injective, claim-ok, reclaim-ok, claim_new-ok,
  IsSpent,
}

module _ {F : Type 0} (fl : Floats F) (env : Env) (rq : Request F) (operation_id : String) where
  -- A replay is of an operation of the same actor and key, for the same scan, subject and kind of
  -- operation, that has ended and not expired; no nonce is spent and no operation changed for it.
  pub replay_sound :
      (db db' : Db F) (o : Operation)
      → claim fl env rq operation_id db ≡ (ok (replay o), db')
      → Member o db.operations
        × (o.actor_id ≡ rq.access.principal.actor_id)
        × (o.key ≡ rq.key)
        × ((o.request_digest == rq.digest
              && o.subject_id == rq.access.target.id
              && o.operation == rq.operation)
            ≡ true)
        × (is_processing o.state ≡ false)
        × (seconds_at env 1 < o.expires_at)
        × (db'.operations ≡ db.operations)
        × (db'.challenges ≡ db.challenges)
        × (db'.templates ≡ db.templates)
  replay_sound db db' o h =
      let (target, revision, g, c, k) = claim-ok fl env rq operation_id (replay o) db db' h in
      let (kept, auth) =
        guard_sound env.gate (seconds_at env 0) rq.access Kind.subject target db db g in
      let is_target = target_id-eq (seconds_at env 0) rq.access Kind.subject target db auth in
      elim (Option-cases (first (same_request rq) db.operations)) [
        | inl e ↦
            let k1 = rw e at k in
            let (new, q, w) =
              claim_new-ok fl env rq operation_id target revision (replay o) db db' k1 in
            absurd (cc)
        | inr (existing, e) ↦
            let k1 = rw e at k in
            let (m, p) = first-eq_some (same_request rq) db.operations existing e in
            let (q, same, ended, live, os, cs, ts) =
              reclaim-ok fl env rq operation_id target existing (replay o) db db' k1 in
            let same' = rw is_target at same in
            rw (replay-injective o existing q) (
              m,
              (ground (arith, p, string_eq.beq_iff existing.actor_id rq.access.principal.actor_id)),
              (ground (arith, p, string_eq.beq_iff existing.key rq.key)),
              same',
              ended,
              live,
              os,
              cs,
              ts,
            )
      ]

  consent_if-ok :
      (b : Bool) (revision : Option ℕ) (db : Db F)
      → consent_if b rq.access db ≡ (ok revision, db)
      → (b ≡ is_some revision) × IsConsentIf revision rq.access db
  unfolding consent_if
  consent_if-ok false revision db h =
      subst (λ r. (false ≡ is_some r) × IsConsentIf r rq.access db)
        (ok-injective none revision (ap (λ (p : Result (Option ℕ) × Db F). p.0) h)) (refl, tt)
  consent_if-ok true revision db h = elim (outcome-cases (consent rq.access db)) [
    | inl (d, s, e) ↦ let h1 = rw e at h in absurd (cc)
    | inr (n, s, e) ↦
        let h1 = rw e at h in
        let (found, same) = consent-ok rq.access n db s e in
        subst (λ r. (true ≡ is_some r) × IsConsentIf r rq.access db)
          (ok-injective (some n) revision (ap (λ (p : Result (Option ℕ) × Db F). p.0) h1))
          (refl, found)
  ]

  -- The scan repeats the action and the parameters of a challenge.
  abbrev pub IsEchoed : Challenge F → Type 0
  IsEchoed ch =
      (rq.action ≡ some ch.action)
      × ((presented : Presented F) × (rq.params ≡ some presented)
          × (same_keys presented (items ch.params) ≡ true)
          × (all (echo fl presented) (items ch.params) ≡ true))

  IsEchoed-of_echoed : (ch : Challenge F) → echoed fl rq (some ch) ≡ true → IsEchoed ch
  unfolding echoed head_parameters_match
  IsEchoed-of_echoed ch h = elim (Option-cases rq.action) [
    | inl e ↦ let h1 = rw e at h in absurd (cc)
    | inr (a, e) ↦
        let h1 = rw e at h in
        elim (Option-cases rq.params) [
          | inl f ↦ absurd (ground (arith, rw f at h1))
          | inr (presented, f) ↦
              let h2 = rw f at h1 in
              (
                e ∙ ap some ((string_eq.beq_iff a ch.action).0 (ground (arith, h2))),
                (presented, f, ground (arith, h2), ground (arith, h2)),
              )
        ]
  ]

  -- A claim that goes to analysis: what its rows were, and what it has written.
  pub record IsClaimed (c : Claim F) (db db' : Db F) : Type 0 where
    pub target : Target
    pub authorized : IsAuthorized (seconds_at env 0) rq.access Kind.subject target db
    pub consented : IsConsentIf c.revision rq.access db
    pub needs_consent : (rq.operation == "enroll" || rq.operation == "verify") ≡ is_some c.revision
    pub is_new :
        All
          (λ (o : Operation).
            (o.actor_id == rq.access.principal.actor_id && o.key == rq.key) ≡ false)
          db.operations
    pub read : Member c.challenge db.challenges
    pub of_nonce : c.challenge.digest ≡ rq.nonce_digest
    pub unspent : c.challenge.consumed ≡ false
    pub unexpired : env.clock 2 ≤ c.challenge.expires_at
    pub of_actor : c.challenge.actor_id ≡ rq.access.principal.actor_id
    pub of_session : c.challenge.session_id ≡ rq.access.session_id
    pub of_tenant : c.challenge.tenant ≡ rq.access.principal.tenant_id
    pub of_subject : c.challenge.subject_id ≡ rq.access.target.id
    pub of_generation : c.challenge.generation ≡ rq.access.target.generation
    pub of_operation : c.challenge.operation ≡ rq.operation
    pub repeated : IsEchoed c.challenge
    pub fits : spendable rq target (env.clock 2) c.challenge ≡ true
    pub marked :
        db'.challenges
        ≡ update_where
            (λ ch.
              ch.digest == rq.nonce_digest
              && not ch.consumed
              && leb (env.clock 2) ch.expires_at
              && ch.actor_id == rq.access.principal.actor_id
              && ch.session_id == rq.access.session_id
              && ch.tenant == rq.access.principal.tenant_id
              && ch.subject_id == target.id
              && nat_beq ch.generation target.generation
              && ch.operation == rq.operation)
            (λ ch. record ch { consumed = true; operation_id = some operation_id })
            db.challenges
    pub added :
        db'.operations
        ≡ db.operations
          ++ record {
            id = operation_id;
            tenant = rq.access.principal.tenant_id;
            actor_id = rq.access.principal.actor_id;
            subject_id = rq.access.target.id;
            key = rq.key;
            operation = rq.operation;
            request_digest = rq.digest;
            state = State.processing;
            status = none;
            result = none;
            created_at = seconds_at env 1;
            expires_at = seconds_at env 1 + 86400;
          }
            ∷ []

  spent-IsClaimed :
      (target : Target) (revision : Option ℕ) (c : Claim F) (db db' : Db F)
      → IsAuthorized (seconds_at env 0) rq.access Kind.subject target db
      → consent_if (needs_consent rq.operation) rq.access db ≡ (ok revision, db)
      → first (same_request rq) db.operations ≡ none
      → IsSpent fl env rq operation_id target revision c db db'
      → IsClaimed c db db'
  unfolding spendable
  spent-IsClaimed target revision c db db' auth p e (same, m, q, f, challenges, operations) =
      let ch = c.challenge in
      let (needed, agreed) = consent_if-ok (needs_consent rq.operation) revision db p in
      let is_target = target_id-eq (seconds_at env 0) rq.access Kind.subject target db auth in
      let of_target : ch.subject_id ≡ target.id =
        ground (arith, q, string_eq.beq_iff ch.subject_id target.id) in
      let of_version : ch.generation ≡ target.generation = ground (arith, q) in
      record {
        target = target;
        authorized = auth;
        consented = subst (λ r. IsConsentIf r rq.access db) (sym same) agreed;
        needs_consent = needed ∙ ap is_some (sym same);
        is_new = first-none (same_request rq) db.operations e;
        read = m;
        of_nonce = ground (arith, q, string_eq.beq_iff ch.digest rq.nonce_digest);
        unspent = ground (arith, q);
        unexpired = ground (arith, q);
        of_actor = ground (arith, q, string_eq.beq_iff ch.actor_id rq.access.principal.actor_id);
        of_session = ground (arith, q, string_eq.beq_iff ch.session_id rq.access.session_id);
        of_tenant = ground (arith, q, string_eq.beq_iff ch.tenant rq.access.principal.tenant_id);
        of_subject = of_target ∙ is_target;
        of_generation =
            of_version ∙ ap (λ (t : Target). t.generation) auth.is_target ∙ auth.unchanged;
        of_operation = ground (arith, q, string_eq.beq_iff ch.operation rq.operation);
        repeated = IsEchoed-of_echoed ch f;
        fits = q;
        marked = challenges;
        added = rw (← is_target) operations;
      }

  -- A claim that goes to analysis found, at its time: a session, account and subject by which `guard`
  -- allows the action; for an enrolment or a verification, a row in which the person agrees to
  -- authentication by template; no operation of the actor and key; and an unspent and unexpired nonce
  -- that was issued to this actor, session, tenant, subject, generation and kind of operation, whose
  -- action and parameters the scan repeats. It has marked such nonces spent, and added its operation.
  pub claim_sound :
      (c : Claim F) (db db' : Db F)
      → claim fl env rq operation_id db ≡ (ok (claimed c), db')
      → IsClaimed c db db'
  claim_sound c db db' h =
      let (target, revision, g, p, k) = claim-ok fl env rq operation_id (claimed c) db db' h in
      let (kept, auth) =
        guard_sound env.gate (seconds_at env 0) rq.access Kind.subject target db db g in
      elim (Option-cases (first (same_request rq) db.operations)) [
        | inl e ↦
            let k1 = rw e at k in
            let (new, q, w) =
              claim_new-ok fl env rq operation_id target revision (claimed c) db db' k1 in
            spent-IsClaimed target revision c db db' auth p e (
              subst (λ x. IsSpent fl env rq operation_id target revision x db db')
                (sym (claimed-injective c new q)) w)
        | inr (existing, e) ↦
            let k1 = rw e at k in
            let (q, same, ended, live, os, cs, ts) =
              reclaim-ok fl env rq operation_id target existing (claimed c) db db' k1 in
            absurd (cc)
      ]
