-- ===== src/Lifecycle/Expiry.antt =====
-- `expire` and `status` of lifecycle.py. A select without an order takes the rows of the table as
-- they stand.
use factech.Base.{
  ℕ, ◌+◌, ◌≤◌, Bool, not, ◌&&◌, ◌||◌, Option, none, some, List, [], ◌∷◌, ◌++◌, String, any, filter,
  map, take, length, leb, All, string_eq, ◌≡◌, sym, ap, subst, arith, Option-cases, inl, inr,
  length-append, length-take-le, length-map,
}
use factech.Contracts.{Result, ok, unavailable, ok-injective}
use factech.Database.{Db, Purge, Template, Resource, Recording, Job, JobState}
use factech.Database.Tx.{Tx, pure, raise, gets, execute, outcome-cases, ◌>>=◌, ◌>>◌}
use factech.Lifecycle.{
  schedule, job_key, in_tenant, has_passed, is_capture, is_pending_recording, bounded,
}
use factech.Lifecycle.Revoke.{IsRevoked, schedule_keeps_IsRevoked, schedule_revokes}

-- A row that is to be purged, and whose it is.
pub record Mark : Type 0 where
  pub tenant : String
  pub kind : Purge
  pub id : String
  pub owner : Option String

take_marks :
    {A : Type 0} (f : A → Mark) (limit : ℕ) (xs : List A)
    → length (map f (take (bounded limit) xs)) ≤ 100
take_marks f limit xs =
    omega (arith, length-map f (take (bounded limit) xs), length-take-le (bounded limit) xs)

three :
    (xs ys zs : List Mark)
    → length xs ≤ 100
    → length ys ≤ 100
    → length zs ≤ 100
    → length (xs ++ ys ++ zs) ≤ 300
three xs ys zs a b c = omega (arith, length-append (xs ++ ys) zs, length-append xs ys, a, b, c)

module _ {F : Type 0} where
  unfoldable pub expired_templates : Option String → ℕ → Db F → List Template
  expired_templates tenant now db =
      filter
        (λ (t : Template).
          in_tenant tenant t.tenant
          && (has_passed t.expires_at now || not t.active)
          && not (any (job_key t.tenant Purge.template t.id) db.purge_jobs))
        db.templates

  unfoldable pub expired_captures : Option String → ℕ → Db F → List Resource
  expired_captures tenant now db =
      filter
        (λ (r : Resource).
          in_tenant tenant r.tenant
          && is_capture r.kind
          && (has_passed r.expires_at now || not r.active)
          && not (any (job_key r.tenant Purge.capture r.id) db.purge_jobs))
        db.resources

  -- `created_at <= now - 120`
  unfoldable pub lost_recordings : Option String → ℕ → Db F → List Recording
  lost_recordings tenant now db =
      filter
        (λ (r : Recording).
          in_tenant tenant r.tenant && is_pending_recording r.state && leb (r.created_at + 120) now)
        db.recordings

  -- The rows of the three loops, in their order.
  abbrev pub due : Option String → ℕ → ℕ → Db F → List Mark
  due tenant limit now db =
      map
        (λ (t : Template). record {
          tenant = t.tenant;
          kind = Purge.template;
          id = t.id;
          owner = some t.owner_actor_id;
        })
        (take (bounded limit) (expired_templates tenant now db))
      ++ map
          (λ (r : Resource). record {
            tenant = r.tenant;
            kind = Purge.capture;
            id = r.id;
            owner = r.owner_actor_id;
          })
          (take (bounded limit) (expired_captures tenant now db))
      ++ map
          (λ (r : Recording). record {
            tenant = r.tenant;
            kind = Purge.capture;
            id = r.id;
            owner = some r.actor_id;
          })
          (take (bounded limit) (lost_recordings tenant now db))

  -- The ledger takes no missing actor: the database refuses the row, and `transaction` raises.
  abbrev pub schedule_mark : Mark → ℕ → Option String → Tx (Db F) (Unit {0})
  schedule_mark m now none = raise unavailable
  schedule_mark m now (some actor) = execute (schedule m.tenant m.kind m.id actor now)

  unfoldable pub schedule_marks : List Mark → ℕ → Tx (Db F) (Unit {0})
  schedule_marks [] now = pure tt
  schedule_marks (m ∷ ms) now = do schedule_mark m now m.owner; schedule_marks ms now

  -- expire, with its inner `mark`
  unfoldable pub expire : Option String → ℕ → ℕ → Tx (Db F) ℕ
  expire tenant limit now = do
    marks ← gets (due tenant limit now)
    schedule_marks marks now
    pure (length marks)

  -- status, as the count of each state; a state that the dictionary lacks counts 0
  unfoldable pub status : Option String → (JobState → Bool) → Db F → ℕ
  status tenant of_state db =
      length (filter (λ (j : Job). in_tenant tenant j.tenant && of_state j.state) db.purge_jobs)

  schedule_marks_keeps :
      (ms : List Mark) (now : ℕ) (tenant : String) (kind : Purge) (id : String) (db db' : Db F)
      → schedule_marks ms now db ≡ (ok tt, db')
      → IsRevoked tenant kind id db
      → IsRevoked tenant kind id db'
  unfolding schedule_marks
  schedule_marks_keeps [] now tenant kind id db db' h r =
      subst (IsRevoked tenant kind id) (ap (λ (p : Result (Unit {0}) × Db F). p.1) h) r
  schedule_marks_keeps (m ∷ ms) now tenant kind id db db' h r = elim (Option-cases m.owner) [
    | inl e ↦ let h1 = rw e at h in absurd (cc)
    | inr (actor, e) ↦
        let h1 = rw e at h in
        schedule_marks_keeps ms now tenant kind id (schedule m.tenant m.kind m.id actor now db) db'
          h1 (schedule_keeps_IsRevoked tenant kind id m.tenant m.kind m.id actor now db r)
  ]

  pub schedule_marks_revokes :
      (ms : List Mark) (now : ℕ) (db db' : Db F)
      → schedule_marks ms now db ≡ (ok tt, db')
      → All (λ (m : Mark). IsRevoked m.tenant m.kind m.id db') ms
  unfolding schedule_marks
  schedule_marks_revokes [] now db db' h = tt
  schedule_marks_revokes (m ∷ ms) now db db' h = elim (Option-cases m.owner) [
    | inl e ↦ let h1 = rw e at h in absurd (cc)
    | inr (actor, e) ↦
        let h1 = rw e at h in
        (
          schedule_marks_keeps ms now m.tenant m.kind m.id
              (schedule m.tenant m.kind m.id actor now db) db' h1
              (schedule_revokes m.tenant m.kind m.id actor now db).0,
          schedule_marks_revokes ms now (schedule m.tenant m.kind m.id actor now db) db' h1,
        )
  ]

  length-due-le :
      (tenant : Option String) (limit now : ℕ) (db : Db F) → length (due tenant limit now db) ≤ 300
  length-due-le tenant limit now db =
      let ts =
        take_marks
          (λ (t : Template). record {
            tenant = t.tenant;
            kind = Purge.template;
            id = t.id;
            owner = some t.owner_actor_id;
          })
          limit (expired_templates tenant now db) in
      let cs =
        take_marks
          (λ (r : Resource). record {
            tenant = r.tenant;
            kind = Purge.capture;
            id = r.id;
            owner = r.owner_actor_id;
          })
          limit (expired_captures tenant now db) in
      let rs =
        take_marks
          (λ (r : Recording). record {
            tenant = r.tenant;
            kind = Purge.capture;
            id = r.id;
            owner = some r.actor_id;
          })
          limit (lost_recordings tenant now db) in
      three _ _ _ ts cs rs

  -- An expiry that returns has taken out of use, in one transaction, every template and capture that it
  -- found past its time or inactive without a purge job, and every recording that stayed pending for
  -- two minutes; it returns their number, 300 at most.
  pub expire_revokes :
      (tenant : Option String) (limit now n : ℕ) (db db' : Db F)
      → expire tenant limit now db ≡ (ok n, db')
      → All (λ (m : Mark). IsRevoked m.tenant m.kind m.id db') (due tenant limit now db)
        × (n ≡ length (due tenant limit now db))
        × (n ≤ 300)
  unfolding expire
  expire_revokes tenant limit now n db db' h =
      elim (outcome-cases (schedule_marks (due tenant limit now db) now db)) [
        | inl (d, s, e) ↦ let h1 = rw e at h in absurd (cc)
        | inr (u, s, e) ↦
            let h1 = rw e at h in
            let same =
              ok-injective (length (due tenant limit now db)) n
                (ap (λ (p : Result ℕ × Db F). p.0) h1) in
            let after = ap (λ (p : Result ℕ × Db F). p.1) h1 in
            let revoked = schedule_marks_revokes (due tenant limit now db) now db s e in
            (
              subst
                  (λ x.
                    All (λ (m : Mark). IsRevoked m.tenant m.kind m.id x) (due tenant limit now db))
                  after revoked,
              sym same,
              omega (arith, same, length-due-le tenant limit now db),
            )
      ]
