-- ===== src/Accounts/Restores.antt =====
-- recovery.py against the specification of a session's life: a restoration ends sessions, and makes
-- none.
use factech.Base.{
  ℕ, Bool, true, false, not, ◌&&◌, Option, none, some, List, [], ◌∷◌, String, ◌==◌, string_eq,
  filter, ◌≡◌, refl,
}
use factech.Contracts.{Result, ok, err, unavailable}
use factech.Database.{Db, Resource, Template, Deletion, Purge, insert_new, delete_where}
use factech.Database.Tx.{execute, run}
use factech.Database.Keeps.{
  Keeps, keeps, keeps-of, keeps_pure, keeps_raise, keeps_gets, keeps_deny, keeps_bind, keeps_then,
  keeps_if, keeps_run,
}
use factech.Accounts.Status.{Later, Later-IsPreorder, Later-of_same, Later-of_update}
use factech.Accounts.Steps.{elsewhere}
use factech.Lifecycle.{deletion_key, schedule, is_capture}
use factech.Lifecycle.Expiry.{Mark, schedule_mark, schedule_marks}
use factech.Recovery.{
  Gate, Snapshot, Summary, validate, quarantine, is_kept, is_model, end_all, revoke_entry,
  replay_entry, replay_ledger, recover, upsert_consents, drop_template, check_templates,
  capture_marks, summary, apply, open_gate, apply_valid, enable_restored_reads,
}

module _ {F : Type 0} where
  revoke_entry-sessions :
      (e : Deletion) (kind : Purge) (db : Db F) → db.sessions ≡ (revoke_entry kind e db).sessions
  revoke_entry-sessions e Purge.template db = refl
  revoke_entry-sessions e Purge.capture db = refl

  replay_ledger-Later : (ledger : List Deletion) (db : Db F) → Later db (replay_ledger ledger db)
  unfolding replay_ledger replay_entry
  replay_ledger-Later [] db = Later-IsPreorder.same db
  replay_ledger-Later (e ∷ ledger) db =
      Later-IsPreorder.chain db (replay_entry e db) (replay_ledger ledger (replay_entry e db))
        (Later-of_same db (replay_entry e db) (
          revoke_entry-sessions e e.kind (record db {
            deletion_ledger = insert_new (deletion_key e.tenant e.kind e.id) e db.deletion_ledger;
          })))
        (replay_ledger-Later ledger (replay_entry e db))

  pub recover-Later : (ledger : List Deletion) (db : Db F) → Later db (recover ledger db)
  unfolding recover end_all
  recover-Later ledger db =
      Later-IsPreorder.chain db (end_all db) (recover ledger db)
        (Later-of_update db (end_all db) (λ s. s.active) (λ s. record s { active = false }) refl
          (λ s. refl) (λ s h. absurd (cc)))
        (replay_ledger-Later ledger (end_all db))

  recovers : (ledger : List Deletion) → Keeps (Later {F = F}) (execute (recover ledger))
  recovers ledger = keeps (recover-Later ledger)

  scheduled-sessions :
      (tenant : String) (kind : Purge) (id actor : String) (now : ℕ) (db : Db F)
      → db.sessions ≡ (schedule tenant kind id actor now db).sessions
  unfolding schedule
  scheduled-sessions tenant Purge.template id actor now db = refl
  scheduled-sessions tenant Purge.capture id actor now db = refl

  schedules_mark :
      (m : Mark) (now : ℕ) (owner : Option String)
      → Keeps (Later {F = F}) (schedule_mark m now owner)
  schedules_mark m now none = keeps_raise Later-IsPreorder unavailable
  schedules_mark m now (some actor) =
      elsewhere (schedule m.tenant m.kind m.id actor now)
        (scheduled-sessions m.tenant m.kind m.id actor now)

  schedules : (ms : List Mark) (now : ℕ) → Keeps (Later {F = F}) (schedule_marks ms now)
  unfolding schedule_marks
  schedules [] now = keeps_pure Later-IsPreorder tt
  schedules (m ∷ ms) now =
      keeps_then Later-IsPreorder (schedules_mark m now m.owner) (schedules ms now)

  drops : (now : ℕ) (t : Template) → Keeps (Later {F = F}) (drop_template now t)
  drops now t =
      keeps_then Later-IsPreorder
        (schedules_mark
          (record {
            tenant = t.tenant;
            kind = Purge.template;
            id = t.id;
            owner = some t.owner_actor_id;
          })
          now (some t.owner_actor_id))
        (elsewhere
          (λ db. record db {
            templates = delete_where (λ (u : Template). u.id == t.id) db.templates;
          })
          (λ db. refl))

  checks :
      (now : ℕ) (model_ids : List String) (opens : Template → Bool) (ts : List Template)
      → Keeps (Later {F = F}) (check_templates now model_ids opens ts)
  unfolding check_templates
  checks now model_ids opens [] = keeps_pure Later-IsPreorder tt
  checks now model_ids opens (t ∷ ts) =
      keeps_bind Later-IsPreorder (keeps_gets Later-IsPreorder (λ db. db.consents)) (λ consents.
        keeps_then Later-IsPreorder
          (keeps_if Later-IsPreorder (is_kept now consents t)
            (keeps_deny Later-IsPreorder (not (is_model model_ids t && opens t)) unavailable)
            (drops now t))
          (checks now model_ids opens ts))

  applies :
      (snapshot : Snapshot) (now : ℕ) (model_ids : List String) (opens : Template → Bool)
      → Keeps (Later {F = F}) (apply snapshot now model_ids opens)
  unfolding apply
  applies snapshot now model_ids opens =
      keeps_bind Later-IsPreorder (keeps_gets Later-IsPreorder (summary snapshot.entries))
        (λ counts. keeps_then Later-IsPreorder (recovers snapshot.entries) (
          keeps_then Later-IsPreorder
            (elsewhere
              (λ db. record db { consents = upsert_consents snapshot.consents db.consents })
              (λ db. refl))
            (keeps_bind Later-IsPreorder (keeps_gets Later-IsPreorder (λ db. db.templates))
              (λ templates. keeps_then Later-IsPreorder (checks now model_ids opens templates) (
                keeps_bind Later-IsPreorder
                  (keeps_gets Later-IsPreorder (λ db.
                    capture_marks (filter (λ (r : Resource). is_capture r.kind) db.resources)))
                  (λ captures. keeps_then Later-IsPreorder (schedules captures now) (
                    keeps_then Later-IsPreorder
                      (elsewhere (λ db. record db { reads_enabled = true }) (λ db. refl))
                      (keeps_pure Later-IsPreorder counts))))))))

  opens_gate :
      (gate : Gate) (r : Result Summary × Db F) (db : Db F)
      → Later db r.1
      → Later db (open_gate gate r).2
  opens_gate gate (ok counts, db') db h = h
  opens_gate gate (err d, db') db h = h

  applies_valid :
      (gate : Gate) (document : Result Snapshot) (now : ℕ) (model_ids : List String)
      (opens : Template → Bool) (db : Db F)
      → Later db (apply_valid gate document now model_ids opens db).2
  applies_valid gate (err d) now model_ids opens db = Later-IsPreorder.same db
  applies_valid gate (ok snapshot) now model_ids opens db =
      opens_gate gate (run (apply snapshot now model_ids opens) db) db
        (keeps-of (keeps_run Later-IsPreorder (applies snapshot now model_ids opens)) db)

  pub restored-Later :
      (gate : Gate) (opened : Result (Option Snapshot)) (now : ℕ) (digest : String)
      (model_ids : List String) (opens : Template → Bool) (db : Db F)
      → Later db (enable_restored_reads gate opened now digest model_ids opens db).2
  unfolding enable_restored_reads quarantine
  restored-Later gate (err d) now digest model_ids opens db =
      Later-of_same db (record db { reads_enabled = false }) refl
  restored-Later gate (ok document) now digest model_ids opens db =
      Later-IsPreorder.chain db (record db { reads_enabled = false }) _
        (Later-of_same db (record db { reads_enabled = false }) refl)
        (applies_valid (record gate { enabled = false })
          (validate (record gate { enabled = false }) document now digest) now model_ids opens
          (record db { reads_enabled = false }))
