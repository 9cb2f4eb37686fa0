-- ===== src/Operations/Outcomes.antt =====
-- How a claim has gone that returned: what it has passed, and what it has written.
use factech.Base.{
  All, ℕ, ◌+◌, ◌<◌, Bool, true, false, not, ◌&&◌, Option, none, some, List, [], ◌∷◌, ◌++◌, length,
  String, Member, any, leb, ltb, nat_beq, ◌==◌, string_eq, ◌≡◌, refl, sym, ap, arith, Bool-cases,
  Option-cases, inl, inr,
}
use factech.Numbers.{Floats}
use factech.Contracts.{Result, ok, ok-injective}
use factech.Database.{Db, Kind, Template, Operation, first, update_where, first-eq_some}
use factech.Database.Tx.{outcome-cases}
use factech.Guard.{Access, Target, guard}
use factech.Guard.Sound.{guard-state}
use factech.Lifecycle.{is_processing}
use factech.Operations.{
  Env, Request, Claim, Claimed, claimed, replay, seconds_at, consent, consent_of, capacity,
  spend_nonce, spendable, reclaim, audit, processing_lease,
}
use factech.Operations.Scan.{
  claim, claim_found, claim_new, spend, echoed, consent_if, needs_consent, same_request,
  templates_for, new_operation,
}

pub replay-injective :
    {F : Type 0} (o o' : Operation) → Path (Claimed F) (replay o) (replay o') → o ≡ o'
replay-injective o o' h = cc

pub claimed-injective :
    {F : Type 0} (c c' : Claim F) → Path (Claimed F) (claimed c) (claimed c') → c ≡ c'
claimed-injective c c' h = cc

abbrev pub is_some : Option ℕ → Bool
is_some none = false
is_some (some n) = true

pub first-none :
    {A : Type 0} (p : A → Bool) (xs : List A) → first p xs ≡ none → All (λ x. p x ≡ false) xs
unfolding first
first-none p [] h = tt
first-none p (x ∷ xs) h = elim (Bool-cases (p x)) [
  | inl e ↦ let h1 = rw e at h in absurd (cc)
  | inr e ↦ (e, first-none p xs (rw e at h))
]

module _ {F : Type 0} (fl : Floats F) (env : Env) (rq : Request F) (operation_id : String) where
  consent_if-state : (b : Bool) (access : Access) (db : Db F) → (consent_if b access db).1 ≡ db
  unfolding consent_if consent
  consent_if-state false access db = refl
  consent_if-state true access db = elim (Option-cases (first (consent_of access) db.consents)) [
    | inl e ↦ ground arith
    | inr (c, e) ↦ ground arith
  ]

  -- A claim that returns has passed the guard and the consent, and goes on with the operation found.
  pub claim-ok :
      (r : Claimed F) (db db' : Db F)
      → claim fl env rq operation_id db ≡ (ok r, db')
      → (target : Target) × (revision : Option ℕ) × (guard env.gate
            (seconds_at env 0)
            rq.access
            Kind.subject
            db
          ≡ (ok target, db))
        × (consent_if (needs_consent rq.operation) rq.access db ≡ (ok revision, db))
        × (claim_found fl env rq target revision operation_id
              (first (same_request rq) db.operations)
              db
            ≡ (ok r, db'))
  unfolding claim
  claim-ok r db db' h =
      elim (outcome-cases (guard env.gate (seconds_at env 0) rq.access Kind.subject db)) [
        | inl (d, s, e) ↦ absurd (ground arith)
        | inr (target, s, e) ↦
            elim (outcome-cases (consent_if (needs_consent rq.operation) rq.access db)) [
              | inl (d, t, f) ↦ absurd (
                  ground (arith, guard-state env.gate (seconds_at env 0) rq.access Kind.subject db))
              | inr (revision, t, f) ↦ (
                target,
                revision,
                ground (arith, guard-state env.gate (seconds_at env 0) rq.access Kind.subject db),
                ground (arith, consent_if-state (needs_consent rq.operation) rq.access db),
                ground (
                  arith,
                  guard-state env.gate (seconds_at env 0) rq.access Kind.subject db,
                  consent_if-state (needs_consent rq.operation) rq.access db,
                ),
              )
            ]
      ]

  pub reclaim-ok :
      (target : Target) (existing : Operation) (r : Claimed F) (db db' : Db F)
      → reclaim env rq target existing db ≡ (ok r, db')
      → (r ≡ replay existing)
        × ((existing.request_digest == rq.digest
              && existing.subject_id == target.id
              && existing.operation == rq.operation)
            ≡ true)
        × (is_processing existing.state ≡ false)
        × (seconds_at env 1 < existing.expires_at)
        × (db'.operations ≡ db.operations)
        × (db'.challenges ≡ db.challenges)
        × (db'.templates ≡ db.templates)
  unfolding reclaim audit
  reclaim-ok target existing r db db' h =
      elim (Bool-cases (
        existing.request_digest == rq.digest
        && existing.subject_id == target.id
        && existing.operation == rq.operation)) [
          | inr e ↦ let h' = rw e at h in absurd (cc)
          | inl e ↦
              let h1 = rw e at h in
              elim (Bool-cases (leb existing.expires_at (seconds_at env 1))) [
                | inl f ↦ let h' = rw f at h1 in absurd (cc)
                | inr f ↦
                    let h2 = rw f at h1 in
                    elim (Bool-cases (is_processing existing.state)) [
                      | inl g ↦
                          let h3 = rw g at h2 in
                          elim (Bool-cases
                            (ltb (seconds_at env 1) (existing.created_at + processing_lease))) [
                              | inl q ↦ let h4 = rw q at h3 in absurd (cc)
                              | inr q ↦ let h4 = rw q at h3 in absurd (cc)
                            ]
                      | inr g ↦
                          let h3 = rw g at h2 in
                          (
                            cc,
                            e,
                            g,
                            ground arith,
                            sym (ap (λ (p : Result (Claimed F) × Db F). p.1.operations) h3),
                            sym (ap (λ (p : Result (Claimed F) × Db F). p.1.challenges) h3),
                            sym (ap (λ (p : Result (Claimed F) × Db F). p.1.templates) h3),
                          )
                    ]
              ]
        ]

  -- What holds of the nonce that a claim has spent, before it and after.
  abbrev pub IsSpent : Target → Option ℕ → Claim F → Db F → Db F → Type 0
  IsSpent target revision c db db' =
      (c.revision ≡ revision)
      × Member c.challenge db.challenges
      × (spendable rq target (env.clock 2) c.challenge ≡ true)
      × (echoed fl rq (some c.challenge) ≡ true)
      × (db'.challenges
          ≡ update_where (spendable rq target (env.clock 2))
              (λ ch. record ch { consumed = true; operation_id = some operation_id }) db.challenges)
      × (db'.operations ≡ db.operations ++ new_operation env rq target operation_id ∷ [])

  echoed-none : echoed fl rq none ≡ false
  unfolding echoed
  echoed-none = refl

  spend-ok :
      (target : Target) (revision : Option ℕ) (templates : List Template) (r : Claimed F)
      (db db' : Db F)
      → spend fl env rq target revision templates operation_id db ≡ (ok r, db')
      → (c : Claim F) × (r ≡ claimed c) × IsSpent target revision c db db'
  unfolding spend spend_nonce audit
  spend-ok target revision templates r db db' h =
      elim (Option-cases (first (spendable rq target (env.clock 2)) db.challenges)) [
        | inl e ↦ let h1 = rw e at h in let h2 = rw echoed-none at h1 in absurd (cc)
        | inr (ch, e) ↦
            let h1 = rw e at h in
            elim (Bool-cases (echoed fl rq (some ch))) [
              | inr f ↦ let h2 = rw f at h1 in absurd (cc)
              | inl f ↦
                  let h2 = rw f at h1 in
                  let (m, q) =
                    first-eq_some (spendable rq target (env.clock 2)) db.challenges ch e in
                  (
                    _,
                    sym (ok-injective _ _ (ap (λ (p : Result (Claimed F) × Db F). p.0) h2)),
                    (
                      refl,
                      m,
                      q,
                      f,
                      sym (ap (λ (p : Result (Claimed F) × Db F). p.1.challenges) h2),
                      sym (ap (λ (p : Result (Claimed F) × Db F). p.1.operations) h2),
                    ),
                  )
            ]
      ]

  capacity-state : (tenant : String) (active : ℕ) (db : Db F) → (capacity tenant active db).1 ≡ db
  unfolding capacity
  capacity-state tenant active db = ground arith

  pub claim_new-ok :
      (target : Target) (revision : Option ℕ) (r : Claimed F) (db db' : Db F)
      → claim_new fl env rq target revision operation_id db ≡ (ok r, db')
      → (c : Claim F) × (r ≡ claimed c) × IsSpent target revision c db db'
  unfolding claim_new
  claim_new-ok target revision r db db' h =
      let ts = templates_for env rq target db in
      elim (Bool-cases (any (λ (t : Template). not (t.model_fingerprint == env.format_id)) ts)) [
        | inl e ↦ let h1 = rw e at h in absurd (cc)
        | inr e ↦
            let h1 = rw e at h in
            elim (Bool-cases (rq.operation == "verify" && nat_beq (length ts) 0)) [
              | inl f ↦ let h2 = rw f at h1 in absurd (cc)
              | inr f ↦
                  let h2 = rw f at h1 in
                  elim (Bool-cases (rq.operation == "enroll")) [
                    | inr g ↦ let h3 = rw g at h2 in spend-ok target revision ts r db db' h3
                    | inl g ↦
                        let h3 = rw g at h2 in
                        elim (outcome-cases
                          (capacity rq.access.principal.tenant_id (length ts) db)) [
                            | inl (d, s, q) ↦ let h4 = rw q at h3 in absurd (cc)
                            | inr (u, s, q) ↦
                                let h4 = rw q at h3 in
                                let same =
                                  capacity-state rq.access.principal.tenant_id (length ts) db in
                                let h5 = rw (rw q at same) at h4 in
                                spend-ok target revision ts r db db' h5
                          ]
                  ]
            ]
      ]
