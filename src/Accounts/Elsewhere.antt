-- ===== src/Accounts/Elsewhere.antt =====
-- Transactions of provision.py and registration.py that leave the sessions alone, against the
-- specification of a session's life.
use factech.Base.{
  ℕ, true, not, ◌||◌, Option, none, some, [], ◌∷◌, ◌++◌, String, ◌==◌, string_eq, any, leb, refl,
}
use factech.Contracts.{refuse, unavailable}
use factech.Policy.{Role, role_beq}
use factech.Database.{Actor, Resource, Grant, first}
use factech.Database.Keeps.{
  Keeps, keeps_pure, keeps_gets, keeps_deny, keeps_bind, keeps_then, keeps_if,
}
use factech.Accounts.{event}
use factech.Accounts.Provision.{
  is_identity, new_subject, participant, subjects, insert_actor, insert_subject, add_subject,
  create_account, review_grant, revoke_grant, create_participant, or_create, register,
}
use factech.Accounts.Status.{Later, Later-IsPreorder}
use factech.Accounts.Steps.{elsewhere, audits, locks}

module _ {F : Type 0} where
  inserts_actor : (a : Actor) → Keeps (Later {F = F}) (insert_actor a)
  unfolding insert_actor
  inserts_actor a = keeps_bind Later-IsPreorder (keeps_gets Later-IsPreorder _) (λ taken.
      keeps_then Later-IsPreorder (keeps_deny Later-IsPreorder taken unavailable)
        (elsewhere (λ db. record db { actors = db.actors ++ a ∷ [] }) (λ db. refl)))

  inserts_subject : (r : Resource) (owner : String) → Keeps (Later {F = F}) (insert_subject r owner)
  unfolding insert_subject
  inserts_subject r owner = keeps_bind Later-IsPreorder (keeps_gets Later-IsPreorder _) (λ taken.
      keeps_then Later-IsPreorder (keeps_deny Later-IsPreorder taken unavailable)
        (elsewhere (λ db. record db { resources = db.resources ++ r ∷ [] }) (λ db. refl)))

  adds_subject : (tenant id owner : String) → Keeps (Later {F = F}) (add_subject tenant id owner)
  unfolding add_subject
  adds_subject tenant id owner =
      keeps_bind Later-IsPreorder (keeps_gets Later-IsPreorder (subjects tenant)) (λ count.
        keeps_then Later-IsPreorder
          (keeps_deny Later-IsPreorder (leb 1000 count) (refuse "CAPACITY_EXCEEDED" 409))
          (inserts_subject (new_subject tenant id owner) owner))

  pub create_account-Keeps :
      (administrator_id : String) (a : Actor) (subject : String) (now : ℕ) (request_id : String)
      → Keeps (Later {F = F}) (create_account administrator_id a subject now request_id)
  unfolding create_account
  create_account-Keeps administrator_id a subject now request_id =
      keeps_then Later-IsPreorder (inserts_actor (record a { epoch = 0; active = true })) (
        keeps_then Later-IsPreorder
          (keeps_if Later-IsPreorder (any (role_beq Role.participant) a.roles)
            (adds_subject a.tenant subject a.id) (keeps_pure Later-IsPreorder tt))
          (keeps_then Later-IsPreorder
            (audits (event request_id (some administrator_id) "account.provision" (some a.id) now))
            (keeps_pure Later-IsPreorder _)))

  pub review_grant-Keeps :
      (administrator_id : String) (g : Grant) (now : ℕ) (request_id : String)
      → Keeps (Later {F = F}) (review_grant administrator_id g now request_id)
  unfolding review_grant
  review_grant-Keeps administrator_id g now request_id =
      keeps_then Later-IsPreorder
        (keeps_deny Later-IsPreorder (g.grant.actor_id == administrator_id)
          (refuse "SELF_ESCALATION_FORBIDDEN" 403))
        (keeps_bind Later-IsPreorder (locks g.grant.actor_id) (λ actor.
          keeps_then Later-IsPreorder
            (keeps_deny Later-IsPreorder
              (not (actor.tenant == g.grant.tenant_id)
                || not (any (role_beq Role.reviewer) actor.roles))
              (refuse "NOT_FOUND" 404))
            (keeps_then Later-IsPreorder
              (elsewhere (λ db. record db { grants = db.grants ++ g ∷ [] }) (λ db. refl))
              (keeps_then Later-IsPreorder
                (audits (event request_id (some administrator_id) "review.grant" (some g.id) now))
                (keeps_pure Later-IsPreorder g.id)))))

  pub revoke_grant-Keeps :
      (administrator_id grant_id actor_id : String) (now : ℕ) (request_id : String)
      → Keeps (Later {F = F}) (revoke_grant administrator_id grant_id actor_id now request_id)
  unfolding revoke_grant
  revoke_grant-Keeps administrator_id grant_id actor_id now request_id =
      keeps_then Later-IsPreorder (locks actor_id) (
        keeps_then Later-IsPreorder (elsewhere _ (λ db. refl))
          (audits (event request_id (some administrator_id) "review.revoke" (some grant_id) now)))

  creates :
      (tenant issuer sub actor_id subject : String) (now : ℕ) (request_id : String)
      → Keeps (Later {F = F}) (create_participant tenant issuer sub actor_id subject now request_id)
  unfolding create_participant
  creates tenant issuer sub actor_id subject now request_id =
      keeps_bind Later-IsPreorder (keeps_gets Later-IsPreorder (subjects tenant)) (λ count.
        keeps_then Later-IsPreorder
          (keeps_deny Later-IsPreorder (leb 1000 count) (refuse "CAPACITY_EXCEEDED" 409))
          (keeps_then Later-IsPreorder (inserts_actor (participant tenant issuer sub actor_id)) (
            keeps_then Later-IsPreorder
              (inserts_subject (new_subject tenant subject actor_id) actor_id)
              (keeps_then Later-IsPreorder
                (audits (event request_id (some actor_id) "account.register" (some actor_id) now))
                (keeps_pure Later-IsPreorder (participant tenant issuer sub actor_id))))))

  or_creates :
      (existing : Option Actor) (tenant issuer sub actor_id subject : String) (now : ℕ)
      (request_id : String)
      → Keeps (Later {F = F}) (
          or_create existing (create_participant tenant issuer sub actor_id subject now request_id))
  or_creates (some a) tenant issuer sub actor_id subject now request_id =
      keeps_pure Later-IsPreorder a
  or_creates none tenant issuer sub actor_id subject now request_id =
      creates tenant issuer sub actor_id subject now request_id

  pub register-Keeps :
      (tenant issuer sub actor_id subject : String) (now : ℕ) (request_id : String)
      → Keeps (Later {F = F}) (register tenant issuer sub actor_id subject now request_id)
  unfolding register
  register-Keeps tenant issuer sub actor_id subject now request_id =
      keeps_bind Later-IsPreorder
        (keeps_gets Later-IsPreorder (λ db. first (is_identity issuer sub) db.actors))
        (λ existing. or_creates existing tenant issuer sub actor_id subject now request_id)
