-- ===== src/Lifecycle/Leases.antt =====
-- The lease of a purge job in lifecycle.py, through whatever other workers commit in the meantime.
use factech.Base.{ℕ, ◌≤◌, ◌<◌, true, false, Option, List, String, any, All, Member, ◌≡◌}
use factech.Database.{Db, Purge, Job}
use factech.Lifecycle.{schedule, claim, finish, retry, same_job}

-- The columns of a key.
abbrev IsKey : String → Purge → String → Job → Type 0
IsKey tenant kind id j = (j.tenant ≡ tenant) × (j.kind ≡ kind) × (j.id ≡ id)

-- A row of the job is leased until then, at least.
abbrev IsLeased : ℕ → Job → Job → Type 0
IsLeased until job j = same_job job j ≡ true → until ≤ j.lease_until

-- The job has a row, and each is leased.
pub record IsHeld (until : ℕ) (job : Job) (table : List Job) : Type 0 where
  pub leased : All (IsLeased until job) table
  pub present : any (same_job job) table ≡ true

module _ {F : Type 0} (order : List Job → List Job)
    (sorts : (xs : List Job) (x : Job) → Member x (order xs) → Member x xs) where
  -- What others commit before the lease is over: they schedule deletions, claim jobs, and finish or
  -- put back the jobs of theirs.
  pub data Meanwhile (until : ℕ) (job : Job) : Db F → Db F → Type 0 where
    rests : (db : Db F) → Meanwhile until job db db
    schedules :
        (tenant : String) (kind : Purge) (id actor : String) (now : ℕ) (db db' : Db F)
        → Meanwhile until job (schedule tenant kind id actor now db) db'
        → Meanwhile until job db db'
    claims :
        (tenant : Option String) (limit now : ℕ) (db db' : Db F)
        → now < until
        → Meanwhile until job (claim order tenant limit now db).1 db'
        → Meanwhile until job db db'
    finishes :
        (k : Job) (db db' : Db F)
        → same_job job k ≡ false
        → Meanwhile until job (finish k db) db'
        → Meanwhile until job db db'
    puts_back :
        (k : Job) (now : ℕ) (db db' : Db F)
        → same_job job k ≡ false
        → Meanwhile until job (retry k now db) db'
        → Meanwhile until job db db'
