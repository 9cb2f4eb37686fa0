-- ===== src/Lifecycle/Jobs.antt =====
-- The purge jobs of lifecycle.py: leases, the bound on attempts and the back-off.
use factech.Base.{
  Bool-cases, inr, ℕ, ◌+◌, ◌≤◌, ◌<◌, ◌^◌, min, true, false, not, ◌&&◌, Option, List, [], ◌∷◌,
  String, All, All-imp, All-of_Member, ◌⊎◌, Member, here, there, filter, leb, nat_beq, string_eq,
  ◌≡◌, refl, arith, inl, inr, Member-filter, Member-take, if◌then◌else◌,
}
use factech.Database.{
  Db, Purge, Job, JobState, delete_where, All-updated, All-update_where, All-insert_new,
  All-filtered,
}
use factech.Lifecycle.{
  schedule, claim, finish, retry, lease_all, block_exhausted, claimable, same_job, job_key, new_job,
  bounded, max_attempts, is_pending, in_tenant, template_key, capture_rows, remove_rows,
}

-- Leased until then, if it is of the job.
abbrev pub IsLeased : ℕ → Job → Job → Type 0
IsLeased until job j = same_job job j ≡ true → j.lease_until ≡ until

lease_all_keeps :
    (job : Job) (now : ℕ) (jobs table : List Job)
    → All (IsLeased (now + 30) job) table
    → All (IsLeased (now + 30) job) (lease_all now jobs table)
unfolding lease_all
lease_all_keeps job now [] table h = h
lease_all_keeps job now (job' ∷ jobs) table h = lease_all_keeps job now jobs _ (
    All-update_where (IsLeased (now + 30) job) (same_job job')
      (λ j. record j { attempts = job'.attempts + 1; lease_until = now + 30 }) table
      (λ j q g e. refl) h)

lease_all_leases :
    {job : Job} (now : ℕ) (jobs table : List Job)
    → Member job jobs
    → All (IsLeased (now + 30) job) (lease_all now jobs table)
unfolding lease_all
lease_all_leases now [] table m = elim m [ ]
lease_all_leases now (job ∷ jobs) table here = lease_all_keeps job now jobs _ (
    All-updated (IsLeased (now + 30) job) (same_job job)
      (λ j. record j { attempts = job.attempts + 1; lease_until = now + 30 }) table (λ j q e. refl)
      (λ j q e. absurd (cc)))
lease_all_leases now (job' ∷ jobs) table (there m) = lease_all_leases now jobs _ m

waits :
    (tenant : Option String) (now' n next : ℕ) (j : Job)
    → (now' < next) ⊎ (4 ≤ n)
    → claimable tenant now' (record j {
      state = if leb max_attempts (n + 1) then JobState.blocked else JobState.pending;
      lease_until = 0;
      next_attempt = next;
    })
      ≡ false
waits tenant now' n next j (inl h) = ground arith
waits tenant now' n next j (inr h) = ground arith

lease_all-IsBounded :
    (now : ℕ) (jobs table : List Job)
    → All (λ (j : Job). j.attempts < 5) jobs
    → All (λ (j : Job). j.attempts ≤ 5) table
    → All (λ (j : Job). j.attempts ≤ 5) (lease_all now jobs table)
unfolding lease_all
lease_all-IsBounded now [] table hs h = h
lease_all-IsBounded now (job ∷ jobs) table hs h = lease_all-IsBounded now jobs _ hs.1 (
    All-update_where (λ (j : Job). j.attempts ≤ 5) (same_job job)
      (λ j. record j { attempts = job.attempts + 1; lease_until = now + 30 }) table
      (λ j q g. omega (arith, hs.0)) h)

module _ {F : Type 0} where
  -- In the table that a claim leaves, a job that was claimed is leased.
  pub claim_leases :
      (order : List Job → List Job) (tenant : Option String) (limit now : ℕ) (db : Db F) (job : Job)
      → Member job (claim order tenant limit now db).0
      → All (IsLeased (now + 30) job) (claim order tenant limit now db).1.purge_jobs
  unfolding claim block_exhausted
  claim_leases order tenant limit now db job m =
      let jobs = (claim order tenant limit now db).0 in
      All-update_where (IsLeased (now + 30) job)
        (λ j.
          in_tenant tenant j.tenant
          && is_pending j.state
          && leb max_attempts j.attempts
          && leb j.lease_until now)
        (λ j. record j { state = JobState.blocked }) (lease_all now jobs db.purge_jobs) (λ j q g. g)
        (lease_all_leases now jobs db.purge_jobs m)

  -- In the table that a claim leaves, a job that was claimed cannot be claimed again, under any tenant
  -- filter, before 30 seconds have passed.
  pub claim_exclusive :
      (order : List Job → List Job) (tenant tenant' : Option String) (limit now now' : ℕ)
      (db : Db F) (job : Job)
      → Member job (claim order tenant limit now db).0
      → now' < now + 30
      → All
          (λ j. (same_job job j && claimable tenant' now' j) ≡ false)
          (claim order tenant limit now db).1.purge_jobs
  claim_exclusive order tenant tenant' limit now now' db job m h =
      All-imp (claim order tenant limit now db).1.purge_jobs
        (λ j g. elim (Bool-cases (same_job job j)) [
          | inl e ↦ ground (arith, g e)
          | inr e ↦ rw e refl
        ])
        (claim_leases order tenant limit now db job m)

  -- The jobs that a worker claims were pending, due, not leased and below the bound on attempts.
  pub claim_due :
      (order : List Job → List Job) (tenant : Option String) (limit now : ℕ) (db : Db F) (job : Job)
      → ((xs : List Job) (x : Job) → Member x (order xs) → Member x xs)
      → Member job (claim order tenant limit now db).0
      → Member job db.purge_jobs × (claimable tenant now job ≡ true)
  unfolding claim
  claim_due order tenant limit now db job sorts m =
      Member-filter (claimable tenant now) db.purge_jobs
        (sorts (filter (claimable tenant now) db.purge_jobs) job (Member-take (bounded limit) _ m))

  -- After a claim, no job of the worker's tenants waits unleased with its five attempts used up: it is
  -- blocked, whether its attempts failed or their workers crashed.
  pub claim_blocks_exhausted :
      (order : List Job → List Job) (tenant : Option String) (limit now : ℕ) (db : Db F)
      → All
          (λ j.
            (in_tenant tenant j.tenant
              && is_pending j.state
              && leb max_attempts j.attempts
              && leb j.lease_until now)
            ≡ false)
          (claim order tenant limit now db).1.purge_jobs
  unfolding claim block_exhausted
  claim_blocks_exhausted order tenant limit now db =
      All-updated
        (λ j.
          (in_tenant tenant j.tenant
            && is_pending j.state
            && leb max_attempts j.attempts
            && leb j.lease_until now)
          ≡ false)
        (λ j.
          in_tenant tenant j.tenant
          && is_pending j.state
          && leb max_attempts j.attempts
          && leb j.lease_until now)
        (λ j. record j { state = JobState.blocked })
        (lease_all now (claim order tenant limit now db).0 db.purge_jobs) (λ j q. ground arith)
        (λ j q. q)

  -- Nothing is left that the key names.
  abbrev pub IsCleared : Purge → String → String → Db F → Type 0
  IsCleared Purge.template tenant id db = All (λ t. template_key tenant id t ≡ false) db.templates
  IsCleared Purge.capture tenant id db = All (λ r. capture_rows tenant id r ≡ false) db.resources

  remove_rows-IsCleared :
      (kind : Purge) (job : Job) (db : Db F) (jobs : List Job)
      → IsCleared kind job.tenant job.id (record (remove_rows kind job db) { purge_jobs = jobs })
  unfolding delete_where
  remove_rows-IsCleared Purge.template job db jobs =
      All-filtered (λ t. template_key job.tenant job.id t ≡ false)
        (λ t. not (template_key job.tenant job.id t)) db.templates (λ t q. ground arith)
  remove_rows-IsCleared Purge.capture job db jobs =
      All-filtered (λ r. capture_rows job.tenant job.id r ≡ false)
        (λ r. not (capture_rows job.tenant job.id r)) db.resources (λ r q. ground arith)

  -- A job whose deletion succeeded is done, and not claimed again at any time; no template, or no
  -- capture and no receipt, is left that it names.
  pub finish_clears :
      (job : Job) (tenant : Option String) (now : ℕ) (db : Db F)
      → All (λ j. (same_job job j && claimable tenant now j) ≡ false) (finish job db).purge_jobs
        × IsCleared job.kind job.tenant job.id (finish job db)
  unfolding finish
  finish_clears job tenant now db = (
    All-updated (λ j. (same_job job j && claimable tenant now j) ≡ false) (same_job job)
        (λ j. record j { state = JobState.done; lease_until = 0 })
        (remove_rows job.kind job db).purge_jobs (λ j q. ground arith) (λ j q. rw q refl),
    remove_rows-IsCleared job.kind job db _,
  )

  -- After a failed deletion the claimed job is not claimed again before its back-off of
  -- `min(300, 2 ** attempts)` seconds has passed, and never after the fifth attempt.
  pub retry_backs_off :
      (job : Job) (tenant : Option String) (now now' : ℕ) (db : Db F)
      → (now' < now + min 300 (2 ^ (job.attempts + 1))) ⊎ (4 ≤ job.attempts)
      → All
          (λ j.
            (same_job job j && nat_beq j.attempts (job.attempts + 1) && claimable tenant now' j)
            ≡ false)
          (retry job now db).purge_jobs
  unfolding retry
  retry_backs_off job tenant now now' db h =
      All-updated
        (λ j.
          (same_job job j && nat_beq j.attempts (job.attempts + 1) && claimable tenant now' j)
          ≡ false)
        (λ j. same_job job j && is_pending j.state && nat_beq j.attempts (job.attempts + 1))
        (λ j. record j {
          state =
              if leb max_attempts (job.attempts + 1) then JobState.blocked else JobState.pending;
          lease_until = 0;
          next_attempt = now + min 300 (2 ^ (job.attempts + 1));
        })
        db.purge_jobs
        (λ j q.
          rw (waits tenant now' job.attempts (now + min 300 (2 ^ (job.attempts + 1))) j h)
            (ground arith))
        (λ j q. ground arith)

  -- A transaction that touches the purge jobs.
  pub data Step (order : List Job → List Job) : Db F → Db F → Type 0 where
    scheduled :
        (tenant : String) (kind : Purge) (id actor : String) (now : ℕ) (db : Db F)
        → Step order db (schedule tenant kind id actor now db)
    claimed :
        (tenant : Option String) (limit now : ℕ) (db : Db F)
        → Step order db (claim order tenant limit now db).1
    finished : (job : Job) (db : Db F) → Step order db (finish job db)
    retried : (job : Job) (now : ℕ) (db : Db F) → Step order db (retry job now db)

  pub data Steps (order : List Job → List Job) : Db F → Db F → Type 0 where
    stay : (db : Db F) → Steps order db db
    step : {db db' db'' : Db F} → Step order db db' → Steps order db' db'' → Steps order db db''

  abbrev pub IsBounded : Db F → Type 0
  IsBounded db = All (λ j. j.attempts ≤ 5) db.purge_jobs

  pub remove_rows-purge_jobs :
      (kind : Purge) (job : Job) (db : Db F) → (remove_rows kind job db).purge_jobs ≡ db.purge_jobs
  remove_rows-purge_jobs Purge.template job db = refl
  remove_rows-purge_jobs Purge.capture job db = refl

  module _ (order : List Job → List Job)
      (sorts : (xs : List Job) (x : Job) → Member x (order xs) → Member x xs) where
    step-IsBounded : {db db' : Db F} → Step order db db' → IsBounded db → IsBounded db'
    step-IsBounded (scheduled tenant Purge.template id actor now db) h =
        unfold schedule in
        All-insert_new (λ (j : Job). j.attempts ≤ 5) (job_key tenant Purge.template id)
          (new_job tenant Purge.template id now) db.purge_jobs (omega arith) h
    step-IsBounded (scheduled tenant Purge.capture id actor now db) h =
        unfold schedule in
        All-insert_new (λ (j : Job). j.attempts ≤ 5) (job_key tenant Purge.capture id)
          (new_job tenant Purge.capture id now) db.purge_jobs (omega arith) h
    step-IsBounded (claimed tenant limit now db) h =
        let jobs = (claim order tenant limit now db).0 in
        let below =
          All-of_Member (λ (j : Job). j.attempts < 5) jobs
            (λ j m. let (n, c) = claim_due order tenant limit now db j sorts m in ground arith) in
        let leased = lease_all-IsBounded now jobs db.purge_jobs below h in
        unfold claim block_exhausted in
        All-update_where (λ (j : Job). j.attempts ≤ 5)
          (λ j.
            in_tenant tenant j.tenant
            && is_pending j.state
            && leb max_attempts j.attempts
            && leb j.lease_until now)
          (λ j. record j { state = JobState.blocked }) (lease_all now jobs db.purge_jobs)
          (λ j q g. g) leased
    step-IsBounded (finished job db) h =
        unfold finish in
        All-update_where (λ (j : Job). j.attempts ≤ 5) (same_job job)
          (λ j. record j { state = JobState.done; lease_until = 0 })
          (remove_rows job.kind job db).purge_jobs (λ j q g. g)
          (rw (remove_rows-purge_jobs job.kind job db) h)
    step-IsBounded (retried job now db) h =
        unfold retry in
        All-update_where (λ (j : Job). j.attempts ≤ 5)
          (λ j. same_job job j && is_pending j.state && nat_beq j.attempts (job.attempts + 1)) _
          db.purge_jobs (λ j q g. g) h

    -- In every order of schedulings, claims, completions and retries, by any number of workers that
    -- may crash between them, no purge job is attempted more than five times.
    pub attempts-IsBounded : {db db' : Db F} → Steps order db db' → IsBounded db → IsBounded db'
    attempts-IsBounded (stay db) h = h
    attempts-IsBounded (step s rest) h = attempts-IsBounded rest (step-IsBounded s h)
