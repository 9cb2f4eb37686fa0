-- ===== src/Lifecycle/Revoke.antt =====
-- What `schedule` does to access: rows under a scheduled key stop counting at once, and stay so.
use factech.Base.{
  ℕ, true, false, not, ◌&&◌, List, [], ◌∷◌, String, any, All, Member, here, there, string_eq, ◌+◌,
  some, ◌≡◌, arith,
}
use factech.Database.{
  Db, Purge, Template, Resource, Recording, All-updated, All-update_where, any-insert_new,
  insert_new-eq_of_any, RecordingState,
}
use factech.Lifecycle.{
  schedule, schedule_all, template_key, capture_rows, recording_key, is_deleted, job_key,
  deletion_key, new_job,
}

module _ {F : Type 0} (tenant : String) where
  -- Nothing of the key is in use.
  abbrev pub IsRevoked : Purge → String → Db F → Type 0
  IsRevoked Purge.template id db =
      All (λ (t : Template). (template_key tenant id t && t.active) ≡ false) db.templates
  IsRevoked Purge.capture id db =
      All (λ (r : Resource). (capture_rows tenant id r && r.active) ≡ false) db.resources
      × All (λ (r : Recording). (recording_key tenant id r && not (is_deleted r.state)) ≡ false)
          db.recordings

  -- The key has a purge job and stands in the ledger.
  abbrev pub IsRecorded : Purge → String → Db F → Type 0
  IsRecorded kind id db =
      (any (job_key tenant kind id) db.purge_jobs ≡ true)
      × (any (deletion_key tenant kind id) db.deletion_ledger ≡ true)

  IsRevoked-schedule :
      (kind : Purge) (id actor : String) (now : ℕ) (db : Db F)
      → IsRevoked kind id (schedule tenant kind id actor now db)
  unfolding schedule
  IsRevoked-schedule Purge.template id actor now db =
      All-updated (λ (t : Template). (template_key tenant id t && t.active) ≡ false)
        (template_key tenant id) (λ t. record t { active = false; revoked_at = some now })
        db.templates (λ t h. ground arith) (λ t h. ground arith)
  IsRevoked-schedule Purge.capture id actor now db = (
    All-updated (λ (r : Resource). (capture_rows tenant id r && r.active) ≡ false)
        (λ r. capture_rows tenant id r && r.active)
        (λ r. record r { active = false; generation = r.generation + 1 }) db.resources
        (λ r h. ground arith) (λ r h. h),
    All-updated (λ (r : Recording). (recording_key tenant id r && not (is_deleted r.state)) ≡ false)
        (recording_key tenant id) (λ r. record r { state = RecordingState.deleted }) db.recordings
        (λ r h. ground arith) (λ r h. ground arith),
  )

  IsRecorded-schedule :
      (kind : Purge) (id actor : String) (now : ℕ) (db : Db F)
      → IsRecorded kind id (schedule tenant kind id actor now db)
  unfolding schedule
  IsRecorded-schedule Purge.template id actor now db = (
    any-insert_new (job_key tenant Purge.template id) (new_job tenant Purge.template id now)
        db.purge_jobs (ground (arith, string_eq.beq_iff tenant tenant, string_eq.beq_iff id id)),
    any-insert_new (deletion_key tenant Purge.template id)
        (record { tenant = tenant; kind = Purge.template; id = id; actor_id = actor; at = now })
        db.deletion_ledger
        (ground (arith, string_eq.beq_iff tenant tenant, string_eq.beq_iff id id)),
  )
  IsRecorded-schedule Purge.capture id actor now db = (
    any-insert_new (job_key tenant Purge.capture id) (new_job tenant Purge.capture id now)
        db.purge_jobs (ground (arith, string_eq.beq_iff tenant tenant, string_eq.beq_iff id id)),
    any-insert_new (deletion_key tenant Purge.capture id)
        (record { tenant = tenant; kind = Purge.capture; id = id; actor_id = actor; at = now })
        db.deletion_ledger
        (ground (arith, string_eq.beq_iff tenant tenant, string_eq.beq_iff id id)),
  )

  -- Scheduling a deletion takes the named template, or the recording and every capture and receipt
  -- that refers to it, out of use in the same transaction, and leaves a purge job and a ledger entry
  -- for it.
  pub schedule_revokes :
      (kind : Purge) (id actor : String) (now : ℕ) (db : Db F)
      → IsRevoked kind id (schedule tenant kind id actor now db)
        × IsRecorded kind id (schedule tenant kind id actor now db)
  schedule_revokes kind id actor now db =
      (IsRevoked-schedule kind id actor now db, IsRecorded-schedule kind id actor now db)

  -- What one scheduling has taken out of use, no later one, of any key and tenant, brings back.
  pub schedule_keeps_IsRevoked :
      (kind : Purge) (id : String) (tenant' : String) (kind' : Purge) (id' actor : String) (now : ℕ)
      (db : Db F)
      → IsRevoked kind id db
      → IsRevoked kind id (schedule tenant' kind' id' actor now db)
  unfolding schedule
  schedule_keeps_IsRevoked Purge.template id tenant' Purge.template id' actor now db h =
      All-update_where (λ (t : Template). (template_key tenant id t && t.active) ≡ false)
        (template_key tenant' id') (λ t. record t { active = false; revoked_at = some now })
        db.templates (λ t q g. ground arith) h
  schedule_keeps_IsRevoked Purge.template id tenant' Purge.capture id' actor now db h = h
  schedule_keeps_IsRevoked Purge.capture id tenant' Purge.template id' actor now db h = h
  schedule_keeps_IsRevoked Purge.capture id tenant' Purge.capture id' actor now db h = (
    All-update_where (λ (r : Resource). (capture_rows tenant id r && r.active) ≡ false)
        (λ r. capture_rows tenant' id' r && r.active)
        (λ r. record r { active = false; generation = r.generation + 1 }) db.resources
        (λ r q g. ground arith) h.0,
    All-update_where
        (λ (r : Recording). (recording_key tenant id r && not (is_deleted r.state)) ≡ false)
        (recording_key tenant' id') (λ r. record r { state = RecordingState.deleted }) db.recordings
        (λ r q g. ground arith) h.1,
  )

  pub schedule_all_keeps_IsRevoked :
      (kind : Purge) (id : String) (tenant' : String) (kind' : Purge) (ids : List String)
      (actor : String) (now : ℕ) (db : Db F)
      → IsRevoked kind id db
      → IsRevoked kind id (schedule_all tenant' kind' ids actor now db)
  unfolding schedule_all
  schedule_all_keeps_IsRevoked kind id tenant' kind' [] actor now db h = h
  schedule_all_keeps_IsRevoked kind id tenant' kind' (i ∷ ids) actor now db h =
      schedule_all_keeps_IsRevoked kind id tenant' kind' ids actor now
        (schedule tenant' kind' i actor now db)
        (schedule_keeps_IsRevoked kind id tenant' kind' i actor now db h)

  pub schedule_all_revokes :
      (kind : Purge) (ids : List String) (actor : String) (now : ℕ) (db : Db F) {id : String}
      → Member id ids
      → IsRevoked kind id (schedule_all tenant kind ids actor now db)
  unfolding schedule_all
  schedule_all_revokes kind [] actor now db m = elim m [ ]
  schedule_all_revokes kind (i ∷ ids) actor now db here =
      schedule_all_keeps_IsRevoked kind i tenant kind ids actor now
        (schedule tenant kind i actor now db) (IsRevoked-schedule kind i actor now db)
  schedule_all_revokes kind (i ∷ ids) actor now db (there m) =
      schedule_all_revokes kind ids actor now (schedule tenant kind i actor now db) m

  -- A deletion that is asked for again changes neither the purge jobs, with their attempts and their
  -- leases, nor the ledger, with the first actor and time.
  pub schedule_again :
      (kind : Purge) (id actor actor' : String) (now now' : ℕ) (db : Db F)
      → ((schedule tenant kind id actor' now' (schedule tenant kind id actor now db)).purge_jobs
          ≡ (schedule tenant kind id actor now db).purge_jobs)
        × ((schedule tenant kind id actor' now'
              (schedule tenant kind id actor now db)).deletion_ledger
            ≡ (schedule tenant kind id actor now db).deletion_ledger)
  schedule_again Purge.template id actor actor' now now' db =
      let recorded = IsRecorded-schedule Purge.template id actor now db in
      (
        unfold schedule in
            insert_new-eq_of_any (job_key tenant Purge.template id)
              (new_job tenant Purge.template id now')
              (schedule tenant Purge.template id actor now db).purge_jobs recorded.0,
        unfold schedule in
            insert_new-eq_of_any (deletion_key tenant Purge.template id)
              (record {
                tenant = tenant;
                kind = Purge.template;
                id = id;
                actor_id = actor';
                at = now';
              })
              (schedule tenant Purge.template id actor now db).deletion_ledger recorded.1,
      )
  schedule_again Purge.capture id actor actor' now now' db =
      let recorded = IsRecorded-schedule Purge.capture id actor now db in
      (
        unfold schedule in
            insert_new-eq_of_any (job_key tenant Purge.capture id)
              (new_job tenant Purge.capture id now')
              (schedule tenant Purge.capture id actor now db).purge_jobs recorded.0,
        unfold schedule in
            insert_new-eq_of_any (deletion_key tenant Purge.capture id)
              (record {
                tenant = tenant;
                kind = Purge.capture;
                id = id;
                actor_id = actor';
                at = now';
              })
              (schedule tenant Purge.capture id actor now db).deletion_ledger recorded.1,
      )
