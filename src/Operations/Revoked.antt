-- ===== src/Operations/Revoked.antt =====
-- What a person's revocation of templates leaves.
use factech.Base.{
  ℕ, Bool, none, true, false, ◌&&◌, some, List, [], ◌∷◌, String, All, Member, filter-Member,
  Member-map, any-Member, All-of_Member, ◌==◌, string_eq, ◌≡◌, refl, ap, subst, arith, Bool-cases,
  inl, inr,
}
use factech.Contracts.{ok}
use factech.Database.{
  Db, Kind, Template, Operation, Purge, update_where, State, All-updated, All-update_where,
  All-update_from,
}
use factech.Database.Tx.{bind-ok}
use factech.Guard.{Access, Target, guard}
use factech.Lifecycle.{schedule, schedule_all, fail_operations, template_key, is_processing}
use factech.Operations.{Env, seconds_at, active_templates, audit}
use factech.Operations.Requests.{Ask, Reply, has_id, active_ids, revoke_ids, perform, request}

clash : {b : Bool} → b ≡ true → b ≡ false → ⊥
clash t f = cc

-- A template that counts is among the ids.
abbrev IsFound : String → String → ℕ → List String → Template → Type 0
IsFound tenant subject now ids t = active_templates tenant subject now t ≡ true → Member t.id ids

module _ {F : Type 0} where
  -- No template of the subject counts, at a time.
  abbrev IsOut : String → String → ℕ → Db F → Type 0
  IsOut tenant subject now db =
      All (λ t. active_templates tenant subject now t ≡ false) db.templates

  schedule_all-IsOut :
      (tenant subject actor : String) (now : ℕ) (ids : List String) (db : Db F)
      → IsOut tenant subject now db
      → IsOut tenant subject now (schedule_all tenant Purge.template ids actor now db)
  unfolding schedule_all schedule
  schedule_all-IsOut tenant subject actor now [] db h = h
  schedule_all-IsOut tenant subject actor now (id ∷ ids) db h =
      schedule_all-IsOut tenant subject actor now ids
        (schedule tenant Purge.template id actor now db)
        (All-update_where (λ t. active_templates tenant subject now t ≡ false)
          (template_key tenant id) (λ t. record t { active = false; revoked_at = some now })
          db.templates (λ t q g. ground arith) h)

  -- The first update takes every template that counts.
  update-IsOut :
      (tenant subject : String) (now : ℕ) (db : Db F)
      → All
          (λ t. active_templates tenant subject now t ≡ false)
          (update_where
            (has_id (active_ids tenant subject now db))
            (λ t. record t { active = false; revoked_at = some now })
            db.templates)
  update-IsOut tenant subject now db =
      All-update_from (IsFound tenant subject now (active_ids tenant subject now db))
        (λ t. active_templates tenant subject now t ≡ false)
        (has_id (active_ids tenant subject now db))
        (λ t. record t { active = false; revoked_at = some now }) db.templates
        (λ t found q. ground arith)
        (λ t found q. not_found t (active_ids tenant subject now db) found q)
        (All-of_Member (IsFound tenant subject now (active_ids tenant subject now db)) db.templates
          (λ t m active.
            Member-map (λ (u : Template). u.id)
              (filter-Member (active_templates tenant subject now) m active)))
    where
      not_found :
          (t : Template) (ids : List String)
          → IsFound tenant subject now ids t
          → has_id ids t ≡ false
          → active_templates tenant subject now t ≡ false
      not_found t ids found q = elim (Bool-cases (active_templates tenant subject now t)) [
        | inl e ↦
            absurd (
              clash (any-Member (λ i. i == t.id) (found e) ((string_eq.beq_iff t.id t.id).1 refl))
                q)
        | inr e ↦ e
      ]

  revoke_ids-IsOut :
      (tenant subject actor : String) (now : ℕ) (db : Db F)
      → IsOut tenant subject now
          (revoke_ids tenant subject actor now (active_ids tenant subject now db) db)
        × All
            (λ (o : Operation).
              (o.tenant == tenant && o.subject_id == subject && is_processing o.state) ≡ false)
            (revoke_ids tenant subject actor now (active_ids tenant subject now db) db).operations
  unfolding revoke_ids fail_operations
  revoke_ids-IsOut tenant subject actor now db = (
    schedule_all-IsOut tenant subject actor now (active_ids tenant subject now db) _
        (update-IsOut tenant subject now db),
    All-updated
        (λ (o : Operation).
          (o.tenant == tenant && o.subject_id == subject && is_processing o.state) ≡ false)
        (λ o. o.tenant == tenant && o.subject_id == subject && is_processing o.state)
        (λ o. record o {
          state = State.failed;
          status = some 409;
          result =
              some
                (record { error = some "SUBJECT_REVOKED"; accepted = false; template_id = none });
        })
        _ (λ o q. ground arith) (λ o q. q),
  )

  -- When a person's revocation of templates is done, no template of the subject counts any more, and
  -- no operation of the subject is under way that could commit another.
  pub revoke_templates_ends :
      (order : List String → List String) (env : Env) (fresh : Access) (kind : Kind) (reply : Reply)
      (db next : Db F)
      → request order env fresh kind Ask.revoke_templates db ≡ (ok reply, next)
      → (target : Target) × (reached : Db F) × (guard env.gate (seconds_at env 0) fresh kind db
          ≡ (ok target, reached))
        × All
            (λ t. active_templates fresh.principal.tenant_id target.id (seconds_at env 1) t ≡ false)
            next.templates
        × All
            (λ (o : Operation).
              (o.tenant == fresh.principal.tenant_id
                && o.subject_id == target.id
                && is_processing o.state)
              ≡ false)
            next.operations
  unfolding request perform audit
  revoke_templates_ends order env fresh kind reply db next h =
      let (target, mid, e, h1) =
        bind-ok (guard env.gate (seconds_at env 0) fresh kind) _ db reply next h in
      let after = ap (λ r. r.1) h1 in
      let (out, ended) =
        revoke_ids-IsOut fresh.principal.tenant_id target.id fresh.principal.actor_id
          (seconds_at env 1) mid in
      (
        target,
        mid,
        e,
        subst (IsOut fresh.principal.tenant_id target.id (seconds_at env 1)) after out,
        subst
            (λ (d : Db F).
              All
                (λ (o : Operation).
                  (o.tenant == fresh.principal.tenant_id
                    && o.subject_id == target.id
                    && is_processing o.state)
                  ≡ false)
                d.operations)
            after ended,
      )
