-- ===== src/Operations/Commits.antt =====
-- What a commit decides: that authority, consent and the operation still stand, and that a subject
-- has room for a template.
use factech.Base.{
  List, Member, ℕ, ◌≤◌, ◌<◌, Bool, true, false, ◌&&◌, Option, none, some, [], ◌∷◌, ◌++◌, length,
  filter, String, All, All-Member, any, leb, nat_beq, ◌==◌, string_eq, ◌≡◌, ◌≢◌, ◌⊎◌, refl, sym, ap,
  arith, Bool-cases, Option-cases, inl, inr,
}
use factech.Contracts.{Result, ok, ok-injective}
use factech.Database.{
  Db, Kind, Template, Operation, State, first, update_where, first-eq_some, All-updated,
  count-append_one_le, count-append_other,
}
use factech.Database.Tx.{outcome-cases}
use factech.Guard.{Access, Target, guard, is_over}
use factech.Guard.Sound.{IsAuthorized, IsAhead, IsAhead-of_over, guard_sound, guard-state}
use factech.Lifecycle.{is_processing}
use factech.Operations.{
  Env, Claim, Analysis, seconds_at, consent, consent_of, active_templates, capacity, audit,
  enrolled,
}
use factech.Operations.Consented.{IsConsentIf, reconsent-IsConsentIf}
use factech.Operations.Scan.{
  commit, enroll, store_template, reconsent, under_way, has_expired, is_configured,
}

-- A template that is unexpired.
abbrev pub IsUnexpired : ℕ → Template → Type 0
IsUnexpired now t = (e : ℕ) × (t.expires_at ≡ some e) × (now < e)

IsUnexpired-of_live : (now : ℕ) (t : Template) → has_expired now t ≡ false → IsUnexpired now t
IsUnexpired-of_live now t h = elim (Option-cases t.expires_at) [
  | inl e ↦ let h1 = rw e at h in absurd (cc)
  | inr (n, e) ↦ let h1 = rw e at h in (n, e, ground (arith, h1))
]

all-IsUnexpired :
    (now : ℕ) (ts : List Template) → any (has_expired now) ts ≡ false → All (IsUnexpired now) ts
all-IsUnexpired now [] h = tt
all-IsUnexpired now (t ∷ ts) h =
    (IsUnexpired-of_live now t (ground (arith, h)), all-IsUnexpired now ts (ground (arith, h)))

processing-eq : (s : State) → is_processing s ≡ true → s ≡ State.processing
processing-eq State.processing h = refl
processing-eq State.completed h = absurd (cc)
processing-eq State.failed h = absurd (cc)

-- An operation's row, still under way.
abbrev pub IsUnderWay : {F : Type 0} → String → Db F → Type 0
IsUnderWay operation_id db =
    (o : Operation) × Member o db.operations × (o.id ≡ operation_id) × (o.state ≡ State.processing)

module _ {F : Type 0} where
  reconsent-state :
      (revision : Option ℕ) (access : Access) (db : Db F) → (reconsent revision access db).1 ≡ db
  unfolding reconsent consent
  reconsent-state none access db = refl
  reconsent-state (some n) access db = elim (Option-cases (first (consent_of access) db.consents)) [
    | inl e ↦ ground arith
    | inr (c, e) ↦ ground arith
  ]

module _ {F : Type 0} (env : Env) (tenant : String) (fresh : Access) (operation : String)
    (held : Claim F) (analysis : Analysis) (identity : String) where
  abbrev of_operation : Operation → Bool
  of_operation o = o.id == held.operation_id

  -- What a commit that returns has seen and done, with `mid` the state after its enrolment.
  pub record IsCommitted (template_id : Option String) (db db' : Db F) : Type 0 where
    pub target : Target
    pub mid : Db F
    pub guarded : guard env.gate (seconds_at env 0) fresh Kind.subject db ≡ (ok target, db)
    pub consented : reconsent held.revision fresh db ≡ (ok tt, db)
    pub templates_live : any (has_expired (seconds_at env 1)) held.templates ≡ false
    pub round_open : is_over env.template_expires_at (seconds_at env 2) ≡ false
    pub was_under_way : under_way (first of_operation db.operations) ≡ true
    pub enrolled_by :
        enroll env tenant fresh target operation analysis identity db ≡ (ok template_id, mid)
    pub operations_after :
        db'.operations
        ≡ update_where of_operation
            (λ o. record o {
              state = State.completed;
              status = some 200;
              result = some (record {
                error = none;
                accepted = analysis.accepted;
                template_id = template_id;
              });
            })
            mid.operations
    pub templates_after : db'.templates ≡ mid.templates

  commit-IsCommitted :
      (template_id : Option String) (db db' : Db F)
      → commit env tenant fresh operation held analysis identity db ≡ (ok template_id, db')
      → IsCommitted template_id db db'
  unfolding commit audit
  commit-IsCommitted template_id db db' h =
      elim (outcome-cases (guard env.gate (seconds_at env 0) fresh Kind.subject db)) [
        | inl (d, s, e) ↦ let h1 = rw e at h in absurd (cc)
        | inr (target, s, e0) ↦
            let e =
              rw (rw e0 at (guard-state env.gate (seconds_at env 0) fresh Kind.subject db)) at e0 in
            let h1 = rw e at h in
            elim (outcome-cases (reconsent held.revision fresh db)) [
              | inl (d, s', f) ↦ let h2 = rw f at h1 in absurd (cc)
              | inr (u, s', f0) ↦
                  let f = rw (rw f0 at (reconsent-state held.revision fresh db)) at f0 in
                  let h2 = rw f at h1 in
                  elim (Bool-cases (any (has_expired (seconds_at env 1)) held.templates)) [
                    | inl g ↦ let h3 = rw g at h2 in absurd (cc)
                    | inr g ↦
                        let h3 = rw g at h2 in
                        elim (Bool-cases (is_over env.template_expires_at (seconds_at env 2))) [
                          | inl q ↦ let h4 = rw q at h3 in absurd (cc)
                          | inr q ↦
                              let h4 = rw q at h3 in
                              elim (Bool-cases (under_way (first of_operation db.operations))) [
                                | inr w ↦ let h5 = rw w at h4 in absurd (cc)
                                | inl w ↦
                                    let h5 = rw w at h4 in
                                    elim (outcome-cases (
                                      enroll env tenant fresh target operation analysis identity
                                        db)) [
                                          | inl (d, mid, z) ↦ let h6 = rw z at h5 in absurd (cc)
                                          | inr (t, mid, z) ↦
                                              let h6 = rw z at h5 in
                                              let same = ok-injective t template_id (
                                                ap (λ (p : Result (Option String) × Db F). p.0)
                                                  h6) in
                                              record {
                                                target = target;
                                                mid = mid;
                                                guarded = e;
                                                consented = f;
                                                templates_live = g;
                                                round_open = q;
                                                was_under_way = w;
                                                enrolled_by = rw (← same) z;
                                                operations_after = rw (← same) (
                                                    sym (
                                                      ap
                                                        (λ (p : Result (Option String) × Db F).
                                                          p.1.operations)
                                                        h6));
                                                templates_after = sym (
                                                    ap
                                                      (λ (p : Result (Option String) × Db F).
                                                        p.1.templates)
                                                      h6);
                                              }
                                        ]
                              ]
                        ]
                  ]
            ]
      ]

  -- A template that was stored, where there was room for it.
  abbrev IsStored : Target → Db F → Db F → Type 0
  IsStored target db mid =
      (t : Template) × (mid.templates ≡ db.templates ++ t ∷ [])
      × ((t.tenant == tenant && t.subject_id == target.id) ≡ true)
      × (length (filter (active_templates tenant target.id (seconds_at env 3)) db.templates) < 5)

  store_template-ok :
      (target : Target) (t : Option String) (db mid : Db F)
      → store_template env tenant fresh target identity db ≡ (ok t, mid)
      → (mid.operations ≡ db.operations) × IsStored target db mid
  unfolding store_template capacity
  store_template-ok target t db mid h =
      let n = length (filter (active_templates tenant target.id (seconds_at env 3)) db.templates) in
      elim (Bool-cases (is_configured env.template_expires_at)) [
        | inr e ↦ let h1 = rw e at h in absurd (cc)
        | inl e ↦
            let h1 = rw e at h in
            elim (Bool-cases (leb 5 n)) [
              | inl f ↦ let h2 = rw f at h1 in absurd (cc)
              | inr f ↦
                  let h2 = rw f at h1 in
                  elim (Bool-cases (nat_beq n 0 && leb 1000 (enrolled tenant db))) [
                    | inl g ↦ let h3 = rw g at h2 in absurd (cc)
                    | inr g ↦
                        let h3 = rw g at h2 in
                        (
                          sym (ap (λ (p : Result (Option String) × Db F). p.1.operations) h3),
                          (
                            _,
                            sym (ap (λ (p : Result (Option String) × Db F). p.1.templates) h3),
                            ground (
                              arith,
                              string_eq.beq_iff tenant tenant,
                              string_eq.beq_iff target.id target.id,
                            ),
                            ground arith,
                          ),
                        )
                  ]
            ]
      ]

  enroll-ok :
      (target : Target) (t : Option String) (db mid : Db F)
      → enroll env tenant fresh target operation analysis identity db ≡ (ok t, mid)
      → (mid.operations ≡ db.operations) × ((mid.templates ≡ db.templates) ⊎ IsStored target db mid)
  unfolding enroll
  enroll-ok target t db mid h = elim (Bool-cases (operation == "enroll" && analysis.accepted)) [
    | inr e ↦
        let h1 = rw e at h in
        (
          sym (ap (λ (p : Result (Option String) × Db F). p.1.operations) h1),
          inl (sym (ap (λ (p : Result (Option String) × Db F). p.1.templates) h1)),
        )
    | inl e ↦
        let h1 = rw e at h in
        elim (Bool-cases analysis.has_template) [
          | inr f ↦ let h2 = rw f at h1 in absurd (cc)
          | inl f ↦
              let h2 = rw f at h1 in
              let (same, stored) = store_template-ok target t db mid h2 in (same, inr stored)
        ]
  ]

  room :
      (tenant' subject' : String) (target : Target) (db mid : Db F)
      → IsStored target db mid
      → length (filter (active_templates tenant' subject' (seconds_at env 3)) db.templates) ≤ 5
      → length (filter (active_templates tenant' subject' (seconds_at env 3)) mid.templates) ≤ 5
  room tenant' subject' target db mid (t, after, mine, below) h =
      elim (Bool-cases (tenant == tenant' && target.id == subject')) [
        | inl e ↦
            let a = (string_eq.beq_iff tenant tenant').0 (ground arith) in
            let b = (string_eq.beq_iff target.id subject').0 (ground arith) in
            rw (after, ← a, ← b)
              (omega (
                arith,
                count-append_one_le (active_templates tenant target.id (seconds_at env 3))
                    db.templates t,
                below,
              ))
        | inr e ↦
            let a = (string_eq.beq_iff t.tenant tenant).0 (ground arith) in
            let b = (string_eq.beq_iff t.subject_id target.id).0 (ground arith) in
            rw
              (
                after,
                count-append_other (active_templates tenant' subject' (seconds_at env 3))
                    db.templates t (ground arith),
              )
              h
      ]

  -- A commit leaves every subject of every tenant with at most five templates in use and unexpired, at
  -- the time of its own count, if none had more.
  pub commit_capacity :
      (tenant' subject' : String) (template_id : Option String) (db db' : Db F)
      → commit env tenant fresh operation held analysis identity db ≡ (ok template_id, db')
      → length (filter (active_templates tenant' subject' (seconds_at env 3)) db.templates) ≤ 5
      → length (filter (active_templates tenant' subject' (seconds_at env 3)) db'.templates) ≤ 5
  commit_capacity tenant' subject' template_id db db' h before =
      let c = commit-IsCommitted template_id db db' h in
      let (same, stored) = enroll-ok c.target template_id db c.mid c.enrolled_by in
      elim stored [
        | inl e ↦ rw (c.templates_after, e) before
        | inr s ↦ rw c.templates_after (room tenant' subject' c.target db c.mid s before)
      ]

  IsUnderWay-of_first :
      (db : Db F)
      → under_way (first of_operation db.operations) ≡ true
      → IsUnderWay held.operation_id db
  IsUnderWay-of_first db h = elim (Option-cases (first of_operation db.operations)) [
    | inl e ↦ let h1 = rw e at h in absurd (cc)
    | inr (o, e) ↦
        let (m, q) = first-eq_some of_operation db.operations o e in
        (o, m, (string_eq.beq_iff o.id held.operation_id).0 q, processing-eq o.state (rw e at h))
  ]

  -- A commit that returns had, at its times, a session, account and target by which `guard` allows the
  -- action; where the operation was claimed with a consent, a row of that revision in which the person
  -- still agrees to authentication by template; claimed templates and a round that have not run out;
  -- and the operation's row still processing. It has marked that operation completed, and every other
  -- operation is as before.
  pub commit_sound :
      (template_id : Option String) (db db' : Db F)
      → commit env tenant fresh operation held analysis identity db ≡ (ok template_id, db')
      → (target : Target) × IsAuthorized (seconds_at env 0) fresh Kind.subject target db
        × IsConsentIf held.revision fresh db
        × All (IsUnexpired (seconds_at env 1)) held.templates
        × IsAhead (seconds_at env 2) env.template_expires_at
        × IsUnderWay held.operation_id db
        × (db'.operations
            ≡ update_where
                (λ o. o.id == held.operation_id)
                (λ o. record o {
                  state = State.completed;
                  status = some 200;
                  result = some (record {
                    error = none;
                    accepted = analysis.accepted;
                    template_id = template_id;
                  });
                })
                db.operations)
  commit_sound template_id db db' h =
      let c = commit-IsCommitted template_id db db' h in
      let (same, stored) = enroll-ok c.target template_id db c.mid c.enrolled_by in
      let (kept, auth) =
        guard_sound env.gate (seconds_at env 0) fresh Kind.subject c.target db db c.guarded in
      (
        c.target,
        auth,
        reconsent-IsConsentIf held.revision fresh db c.consented,
        all-IsUnexpired (seconds_at env 1) held.templates c.templates_live,
        IsAhead-of_over (seconds_at env 2) env.template_expires_at c.round_open,
        IsUnderWay-of_first db c.was_under_way,
        rw (← same) c.operations_after,
      )

  commit-ends :
      (template_id : Option String) (db db' : Db F)
      → commit env tenant fresh operation held analysis identity db ≡ (ok template_id, db')
      → All
          (λ (o : Operation). of_operation o ≡ true → is_processing o.state ≡ false)
          db'.operations
  commit-ends template_id db db' h =
      let c = commit-IsCommitted template_id db db' h in
      rw c.operations_after (
        All-updated (λ (o : Operation). of_operation o ≡ true → is_processing o.state ≡ false)
          of_operation _ c.mid.operations (λ o q e. refl) (λ o q e. absurd (cc)))

  -- An operation that has ended, by a commit, a withdrawal, a revocation or a failure, is not
  -- committed, whatever its late worker brings.
  pub ended_not_committed :
      (template_id : Option String) (db db' : Db F)
      → All (λ (o : Operation). of_operation o ≡ true → is_processing o.state ≡ false) db.operations
      → commit env tenant fresh operation held analysis identity db ≢ (ok template_id, db')
  ended_not_committed template_id db db' ended h =
      let c = commit-IsCommitted template_id db db' h in
      elim (Option-cases (first of_operation db.operations)) [
        | inl e ↦ let w = rw e at c.was_under_way in absurd (cc)
        | inr (o, e) ↦
            let w = rw e at c.was_under_way in
            let (m, q) = first-eq_some of_operation db.operations o e in
            let z =
              All-Member (λ (o : Operation). of_operation o ≡ true → is_processing o.state ≡ false)
                ended m q in
            absurd (cc)
      ]
