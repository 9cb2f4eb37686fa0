-- ===== src/Accounts/Capacity.antt =====
-- The capacity of a tenant over any provisioning and registration: provision.py and registration.py.
use factech.Base.{
  ℕ, ◌≤◌, ◌<◌, Bool, true, false, ◌||◌, none, some, List, [], ◌∷◌, ◌++◌, String, ◌==◌, string_eq,
  eq_iff, any, filter, length, leb, Bool-cases, inl, inr, ◌≡◌, refl, sym, subst, ap, arith,
  if◌then◌else◌,
}
use factech.Contracts.{Denied, refuse, unavailable}
use factech.Policy.{Role, role_beq}
use factech.Database.{Db, Actor, Resource, Audit, count-append_one_le, count-append_other}
use factech.Database.Tx.{Tx, execute, deny_if, ◌>>◌, run, run-ok, run_rolls_back, outcome-cases}
use factech.Database.Keeps.{
  Keeps, keeps, keeps-of, IsPreorder, keeps_pure, keeps_gets, keeps_deny, keeps_bind, keeps_then,
  keeps_if, keeps_run,
}
use factech.Accounts.{append_audit, event}
use factech.Accounts.Provision.{
  max_subjects, is_subject_of, is_identity, new_subject, subjects, insert_actor, insert_subject,
  add_subject, register, create_account,
}
use factech.Accounts.Registration.{registered, register-cases}

appended :
    (tenant id owner t : String) (table : List Resource)
    → length (filter (is_subject_of tenant) table) < 1000
    → length (filter (is_subject_of t) table) ≤ 1000
    → length (filter (is_subject_of t) (table ++ new_subject tenant id owner ∷ [])) ≤ 1000
appended tenant id owner t table lt le = elim (Bool-cases (tenant == t)) [
  | inl e ↦
      let here : length (filter (is_subject_of t) table) < 1000 =
        subst (λ u. length (filter (is_subject_of u) table) < 1000) ((eq_iff tenant t).0 e) lt in
      omega (arith, here, count-append_one_le (is_subject_of t) table (new_subject tenant id owner))
  | inr e ↦
      rw (count-append_other (is_subject_of t) table (new_subject tenant id owner) (rw e refl)) le
]

-- Where each tenant has room before, it has room after.
unfoldable pub Room : {F : Type 0} → Db F → Db F → Type 0
Room db next = (tenant : String) → subjects tenant db ≤ 1000 → subjects tenant next ≤ 1000

Room-IsPreorder : {F : Type 0} → IsPreorder (Room {F = F})
unfolding Room
Room-IsPreorder = record {
  same = λ db tenant h. h;
  chain = λ s t u h k tenant le. k tenant (h tenant le);
}

module _ {F : Type 0} where
  rooms :
      (f : Db F → Db F) → ((db : Db F) → (f db).resources ≡ db.resources) → Keeps Room (execute f)
  unfolding Room subjects
  rooms f h = keeps (λ db tenant le. rw (h db) le)

  -- What is so before a check and after what the check lets through, is so after both.
  gated :
      {A : Type 0} (P : Db F → Type 0) (b : Bool) (d : Denied) (m : Tx (Db F) A) (db : Db F)
      → P db
      → (b ≡ false → P (m db).1)
      → P ((deny_if b d >> m) db).1
  gated P true d m db h k = h
  gated P false d m db h k = k refl

  insert_subject-room :
      (tenant id owner : String) (t : String) (db : Db F)
      → subjects tenant db < 1000
      → subjects t db ≤ 1000
      → subjects t (insert_subject (new_subject tenant id owner) owner db).1 ≤ 1000
  unfolding insert_subject subjects
  insert_subject-room tenant id owner t db lt le =
      gated (λ n. subjects t n ≤ 1000) _ unavailable
        (execute (λ db. record db { resources = db.resources ++ new_subject tenant id owner ∷ [] }))
        db le (λ _. appended tenant id owner t db.resources lt le)

  insert_actor-Room : (a : Actor) → Keeps (Room {F = F}) (insert_actor a)
  unfolding insert_actor
  insert_actor-Room a =
      keeps_bind Room-IsPreorder
        (keeps_gets Room-IsPreorder
          (λ db. any (λ (b : Actor). b.id == a.id || is_identity a.issuer a.sub b) db.actors))
        (λ taken.
          keeps_then Room-IsPreorder (keeps_deny Room-IsPreorder taken unavailable)
            (rooms (λ db. record db { actors = db.actors ++ a ∷ [] }) (λ db. refl)))

  add_subject-Room : (tenant id owner : String) → Keeps (Room {F = F}) (add_subject tenant id owner)
  unfolding add_subject Room
  add_subject-Room tenant id owner = keeps (λ db t le.
      gated (λ n. subjects t n ≤ 1000) (leb max_subjects (subjects tenant db))
        (refuse "CAPACITY_EXCEEDED" 409) (insert_subject (new_subject tenant id owner) owner) db le
        (λ e. insert_subject-room tenant id owner t db (ground arith) le))

  audits : (e : Audit) → Keeps (Room {F = F}) (append_audit e)
  audits e = rooms (λ db. record db { audit = db.audit ++ e ∷ [] }) (λ db. refl)

  create_account-Room :
      (administrator_id : String) (a : Actor) (subject : String) (now : ℕ) (request_id : String)
      → Keeps (Room {F = F}) (create_account administrator_id a subject now request_id)
  unfolding create_account
  create_account-Room administrator_id a subject now request_id =
      keeps_then Room-IsPreorder (insert_actor-Room (record a { epoch = 0; active = true })) (
        keeps_then Room-IsPreorder
          (keeps_if Room-IsPreorder (any (role_beq Role.participant) a.roles)
            (add_subject-Room a.tenant subject a.id) (keeps_pure Room-IsPreorder tt))
          (keeps_then Room-IsPreorder
            (audits (event request_id (some administrator_id) "account.provision" (some a.id) now))
            (keeps_pure Room-IsPreorder (
              record a { epoch = 0; active = true },
              if any (role_beq Role.participant) a.roles then some subject else none,
            ))))

  registered-room :
      (tenant issuer sub actor_id subject : String) (now : ℕ) (request_id : String) (db : Db F)
      (t : String)
      → subjects tenant db < 1000
      → subjects t db ≤ 1000
      → subjects t (registered tenant issuer sub actor_id subject now request_id db) ≤ 1000
  unfolding registered subjects
  registered-room tenant issuer sub actor_id subject now request_id db t lt le =
      appended tenant subject actor_id t db.resources lt le

  register-room :
      (tenant issuer sub actor_id subject : String) (now : ℕ) (request_id : String) (db : Db F)
      (t : String)
      → subjects t db ≤ 1000
      → subjects t (run (register tenant issuer sub actor_id subject now request_id) db).1 ≤ 1000
  register-room tenant issuer sub actor_id subject now request_id db t le =
      elim (outcome-cases (run (register tenant issuer sub actor_id subject now request_id) db)) [
        | inl (d, s, e) ↦
            subst (λ n. subjects t n ≤ 1000)
              (sym (
                run_rolls_back (register tenant issuer sub actor_id subject now request_id) db d
                  (ap (λ r. r.0) e)))
              le
        | inr (actor, next, e) ↦
            rw e
              (elim (register-cases tenant issuer sub actor_id subject now request_id db next actor
                (run-ok (register tenant issuer sub actor_id subject now request_id) db actor next
                  e)) [
                    | inl (f, same) ↦ subst (λ n. subjects t n ≤ 1000) same le
                    | inr (f, made, room, same) ↦
                        subst (λ n. subjects t n ≤ 1000) same
                          (registered-room tenant issuer sub actor_id subject now request_id db t
                            room le)
                  ])
      ]

-- How accounts are made: by an administrator, or by the person.
pub data Admission {F : Type 0} : Db F → Db F → Type 0 where
  none_made : (db : Db F) → Admission db db
  provisioned :
      (administrator_id : String) (a : Actor) (subject : String) (now : ℕ) (request_id : String)
      (db next : Db F)
      → Admission (run (create_account administrator_id a subject now request_id) db).1 next
      → Admission db next
  signed_up :
      (tenant issuer sub actor_id subject : String) (now : ℕ) (request_id : String) (db next : Db F)
      → Admission (run (register tenant issuer sub actor_id subject now request_id) db).1 next
      → Admission db next

module _ {F : Type 0} where
  provisioned-room :
      (administrator_id : String) (a : Actor) (subject : String) (now : ℕ) (request_id : String)
      (db : Db F) (t : String)
      → subjects t db ≤ 1000
      → subjects t (run (create_account administrator_id a subject now request_id) db).1 ≤ 1000
  unfolding Room
  provisioned-room administrator_id a subject now request_id db t le =
      keeps-of
        (keeps_run Room-IsPreorder (create_account-Room administrator_id a subject now request_id))
        db t le

  -- However many accounts are provisioned and registered, in whatever order and for whichever
  -- tenants, no tenant that has at most a thousand subjects comes to have more.
  pub subjects_capacity :
      (t : String) (db next : Db F)
      → Admission db next
      → subjects t db ≤ 1000
      → subjects t next ≤ 1000
  subjects_capacity t db next (none_made s) le = le
  subjects_capacity t db next (provisioned administrator_id a subject now request_id s n rest) le =
      subjects_capacity t _ n rest
        (provisioned-room administrator_id a subject now request_id s t le)
  subjects_capacity t db next (signed_up tenant issuer sub actor_id subject now request_id s n rest)
        le =
      subjects_capacity t _ n rest
        (register-room tenant issuer sub actor_id subject now request_id s t le)
