-- ===== src/Accounts/Registration.antt =====
-- What a registration finds or makes: registration.py.
use factech.Base.{
  ℕ, ◌<◌, ◌&&◌, ◌||◌, none, some, [], ◌∷◌, ◌++◌, String, ◌==◌, string_eq, eq_iff, any, leb,
  Bool-cases, Option-cases, ◌⊎◌, inl, inr, ◌≡◌, refl, subst, ap, arith,
}
use factech.Contracts.{Denied, Result, ok, err, refuse, unavailable, ok-injective}
use factech.Database.{Db, Actor, Resource, Kind, kind_beq, first, first-append}
use factech.Database.Tx.{run, run-ok}
use factech.Accounts.{event}
use factech.Accounts.Provision.{
  max_subjects, is_identity, is_owned_by, new_subject, participant, subjects, insert_actor,
  insert_subject, create_participant, register,
}

failed :
    {S A : Type 0} (d : Denied) (a : A) (s t : S) → Path (Result A × S) (err d, s) (ok a, t) → ⊥
failed d a s t h = cc

module _ {F : Type 0} where
  -- What a registration of a new identity leaves.
  unfoldable pub registered : String → String → String → String → String → ℕ → String → Db F → Db F
  registered tenant issuer sub actor_id subject now request_id db = record db {
    actors = db.actors ++ participant tenant issuer sub actor_id ∷ [];
    resources = db.resources ++ new_subject tenant subject actor_id ∷ [];
    audit =
        db.audit ++ event request_id (some actor_id) "account.register" (some actor_id) now ∷ [];
  }

  -- A registration that returns found the account, or it made one where there was room.
  pub register-cases :
      (tenant issuer sub actor_id subject : String) (now : ℕ) (request_id : String) (db next : Db F)
      (actor : Actor)
      → register tenant issuer sub actor_id subject now request_id db ≡ (ok actor, next)
      → ((first (is_identity issuer sub) db.actors ≡ some actor) × (db ≡ next))
        ⊎ ((first (is_identity issuer sub) db.actors ≡ none)
            × (participant tenant issuer sub actor_id ≡ actor)
            × (subjects tenant db < 1000)
            × (registered tenant issuer sub actor_id subject now request_id db ≡ next))
  unfolding register create_participant insert_actor insert_subject registered
  register-cases tenant issuer sub actor_id subject now request_id db next actor h =
      elim (Option-cases (first (is_identity issuer sub) db.actors)) [
        | inl e ↦ elim (Bool-cases (leb max_subjects (subjects tenant db))) [
          | inl f ↦ absurd (failed (refuse "CAPACITY_EXCEEDED" 409) actor db next (rw (e, f) at h))
          | inr f ↦
              elim (Bool-cases
                (any (λ (b : Actor). b.id == actor_id || is_identity issuer sub b) db.actors)) [
                  | inl g ↦ absurd (failed unavailable actor db next (rw (e, f, g) at h))
                  | inr g ↦
                      elim (Bool-cases (
                        any
                          (λ (q : Resource).
                            q.tenant == tenant
                            && kind_beq q.kind Kind.subject
                            && (q.id == subject || is_owned_by actor_id q))
                          db.resources)) [
                            | inl k ↦
                                absurd (failed unavailable actor _ next (rw (e, f, g, k) at h))
                            | inr k ↦
                                let h' = rw (e, f, g, k) at h in
                                inr (
                                  e,
                                  ok-injective _ _ (ap (λ r. r.0) h'),
                                  ground arith,
                                  ap (λ r. r.1) h',
                                )
                          ]
                ]
        ]
        | inr (a, e) ↦
            let h' = rw e at h in
            inl (rw (ok-injective _ _ (ap (λ r. r.0) h')) at e, ap (λ r. r.1) h')
      ]

  known :
      (tenant issuer sub actor_id subject : String) (now : ℕ) (request_id : String) (db : Db F)
      (actor : Actor)
      → first (is_identity issuer sub) db.actors ≡ some actor
      → run (register tenant issuer sub actor_id subject now request_id) db ≡ (ok actor, db)
  unfolding register run
  known tenant issuer sub actor_id subject now request_id db actor h = rw h refl

  registered-found :
      (tenant issuer sub actor_id subject : String) (now : ℕ) (request_id : String) (db : Db F)
      (actor : Actor)
      → first (is_identity issuer sub) db.actors ≡ none
      → participant tenant issuer sub actor_id ≡ actor
      → first
          (is_identity issuer sub)
          (registered tenant issuer sub actor_id subject now request_id db).actors
        ≡ some actor
  unfolding registered
  registered-found tenant issuer sub actor_id subject now request_id db actor e made =
      rw
        (
          first-append (is_identity issuer sub) db.actors (participant tenant issuer sub actor_id),
          e,
          (eq_iff issuer issuer).1 refl,
          (eq_iff sub sub).1 refl,
        )
        (ap some made)

  -- A registration is made once: for an identity that has been registered, any later one returns the
  -- account of the first, whatever else it asks for, and changes nothing.
  pub register_once :
      (tenant tenant' issuer sub actor_id actor_id' subject subject' : String) (now later : ℕ)
      (request_id request_id' : String) (db next : Db F) (actor : Actor)
      → run (register tenant issuer sub actor_id subject now request_id) db ≡ (ok actor, next)
      → run (register tenant' issuer sub actor_id' subject' later request_id') next
        ≡ (ok actor, next)
  register_once tenant tenant' issuer sub actor_id actor_id' subject subject' now later request_id
        request_id' db next actor h =
      known tenant' issuer sub actor_id' subject' later request_id' next actor
        (elim (register-cases tenant issuer sub actor_id subject now request_id db next actor
          (run-ok (register tenant issuer sub actor_id subject now request_id) db actor next h)) [
            | inl (e, same) ↦
                subst (λ n. first (is_identity issuer sub) n.actors ≡ some actor) same e
            | inr (e, made, room, same) ↦
                subst (λ n. first (is_identity issuer sub) n.actors ≡ some actor) same
                  (registered-found tenant issuer sub actor_id subject now request_id db actor e
                    made)
          ])
