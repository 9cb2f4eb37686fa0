-- ===== src/Privacy/Consented.antt =====
-- When a recording is kept: `finish` of privacy.py against the consent it was reserved under.
use factech.Base.{
  Member, Member-of_any, Option-cases, string_eq, ◌==◌, not, ◌<◌, ◌≢◌, ℕ, Bool, true, false, ◌||◌,
  Option, none, some, String, any, leb, nat_beq_iff, Bool-cases, inl, inr, ◌⊎◌, ◌≡◌, refl, sym, ap,
  ◌∙◌, subst, arith, if◌then◌else◌,
}
use factech.Contracts.{Result, ok, err}
use factech.Database.{
  Db, Kind, Recording, RecordingState, Consent, Operation, State, first, first-eq_some,
}
use factech.Database.Tx.{bind-ok, run, run-ok, execute, pure, ◌>>◌}
use factech.Guard.{Access, guard}
use factech.Guard.Sound.{guard-state}
use factech.Lifecycle.{recording_key, is_deleted}
use factech.Privacy.{
  revision_of, is_consent, is_completed, is_stored, Ticket, Outcome, Request, consent_revision,
  is_recorded, is_same, is_void, is_kept, drop_recording, conclude, activate, or_failed,
  finish_authorized, finish,
}

-- The consent's row.
abbrev pub IsAgreed : {F : Type 0} → Recording → Db F → Type 0
IsAgreed r db =
    (c : Consent) × Member c db.consents
    × (c.tenant ≡ r.tenant)
    × (c.subject_id ≡ r.subject_id)
    × (c.scope ≡ "evaluation_recording")
    × (c.granted ≡ true)
    × (c.actor_id ≡ r.actor_id)
    × (c.text_version ≡ "evaluation-recording-v1")
    × (c.revision ≡ r.revision)

-- The operation's row.
abbrev pub IsCompleted : {F : Type 0} → Recording → Request → Db F → Type 0
IsCompleted r rq db =
    (o : Operation) × Member o db.operations
    × (o.actor_id ≡ r.actor_id)
    × (o.subject_id ≡ r.subject_id)
    × (o.key ≡ rq.key)
    × (o.request_digest ≡ rq.digest)
    × (o.state ≡ State.completed)

-- What holds of the database when a recording is kept.
pub record IsConsented {F : Type 0} (r : Recording) (rq : Request) (now : ℕ) (db : Db F)
    : Type 0 where
  pub agreed : IsAgreed r db
  pub row : Recording
  pub row_read : Member row db.recordings
  pub row_tenant : row.tenant ≡ r.tenant
  pub row_id : row.id ≡ r.id
  pub row_live : row.state ≢ RecordingState.deleted
  pub row_unexpired : now < row.expires_at
  pub completed : (row.state ≡ RecordingState.stored) ⊎ IsCompleted r rq db

completed-eq : (x : State) → is_completed x ≡ true → x ≡ State.completed
completed-eq State.completed h = refl
completed-eq State.processing h = absurd (cc)
completed-eq State.failed h = absurd (cc)

stored-eq : (x : RecordingState) → is_stored x ≡ true → x ≡ RecordingState.stored
stored-eq RecordingState.stored h = refl
stored-eq RecordingState.pending h = absurd (cc)
stored-eq RecordingState.deleted h = absurd (cc)

not_deleted : (x : RecordingState) → is_deleted x ≡ false → x ≢ RecordingState.deleted
not_deleted x h e = let h' = rw e at h in absurd (cc)

-- The tests of `activate` that a kept recording has passed.
record HasPassed {F : Type 0} (r : Recording) (rq : Request) (now : ℕ) (db : Db F) : Type 0 where
  pub consent : consent_revision r.tenant r.subject_id r.actor_id db ≡ some r.revision
  pub reserved :
      (row : Recording) × (first (recording_key r.tenant r.id) db.recordings ≡ some row)
      × (is_deleted row.state ≡ false)
      × (now < row.expires_at)
  pub completed :
      (is_kept (first (recording_key r.tenant r.id) db.recordings) ≡ true)
      ⊎ (any (is_recorded r rq) db.operations ≡ true)

is_same-ok : (o : Option ℕ) (n : ℕ) → is_same o n ≡ true → o ≡ some n
is_same-ok none n h = absurd (cc)
is_same-ok (some m) n h = ap some ((nat_beq_iff m n).0 h)

void-parts :
    (r : Recording) (now : ℕ) (revision : Option ℕ) (current : Option Recording)
    → is_void r now revision current ≡ false
    → (revision ≡ some r.revision)
      × ((row : Recording) × (current ≡ some row)
          × (is_deleted row.state ≡ false)
          × (now < row.expires_at))
void-parts r now revision none h = absurd (cc)
void-parts r now revision (some row) h = (
  is_same-ok revision r.revision (ground (arith, h)),
  (row, refl, ground (arith, h), ground (arith, h)),
)

revision_of-ok :
    (actor version : String) (c : Consent) (n : ℕ)
    → revision_of actor version (some c) ≡ some n
    → (c.granted ≡ true) × (c.actor_id ≡ actor) × (c.text_version ≡ version) × (c.revision ≡ n)
revision_of-ok actor version c n h =
    elim (Bool-cases
      (not c.granted || not (c.actor_id == actor) || not (c.text_version == version))) [
        | inl e ↦ let h' = rw e at h in absurd (cc)
        | inr e ↦
            let h' = rw e at h in
            (
              ground (arith, e),
              ground (arith, e, string_eq.beq_iff c.actor_id actor),
              ground (arith, e, string_eq.beq_iff c.text_version version),
              cc,
            )
      ]

module _ {F : Type 0} where
  -- The tests of `activate`, where it keeps the recording.
  kept_or_completed :
      (r : Recording) (rq : Request) (write : Result (Unit {0})) (now : ℕ)
      (void kept reconcile completed : Bool) (db next : Db F) (id : String)
      → (if void
            then (execute (drop_recording r now) >> pure (Outcome.skipped "CONSENT_CHANGED"))
            else if kept
            then pure (Outcome.stored r.id)
            else if reconcile
            then pure (Outcome.pending "RECONCILIATION_REQUIRED")
            else conclude r rq write now completed)
          db
        ≡ (ok (Outcome.stored id), next)
      → (void ≡ false) × ((kept ≡ true) ⊎ (completed ≡ true))
  kept_or_completed r rq write now true kept reconcile completed db next id h = absurd (cc)
  kept_or_completed r rq write now false true reconcile completed db next id h = (refl, inl refl)
  kept_or_completed r rq write now false false true completed db next id h = absurd (cc)
  kept_or_completed r rq write now false false false true db next id h = (refl, inr refl)
  kept_or_completed r rq write now false false false false db next id h = absurd (cc)

  activate-HasPassed :
      (gate : Result (Unit {0})) (fresh : Access) (r : Recording) (existing : Bool) (rq : Request)
      (replayed : Bool) (write : Result (Unit {0})) (guarded now : ℕ) (db next : Db F) (id : String)
      → activate gate fresh r existing rq replayed write guarded now db
        ≡ (ok (Outcome.stored id), next)
      → HasPassed r rq now db
  unfolding activate
  activate-HasPassed gate fresh r existing rq replayed write guarded now db next id h =
      let (target, mid, e0, h1) =
        bind-ok (guard gate guarded fresh Kind.subject) _ db (Outcome.stored id) next h in
      let same : mid ≡ db =
        sym (ap (λ x. x.1) e0) ∙ guard-state gate guarded fresh Kind.subject db in
      let revision = consent_revision r.tenant r.subject_id r.actor_id mid in
      let row = first (recording_key r.tenant r.id) mid.recordings in
      let completed = any (is_recorded r rq) mid.operations in
      let (live, kept) =
        kept_or_completed r rq write now (is_void r now revision row) (is_kept row)
          (replayed || existing) completed mid next id h1 in
      let (consent, reserved) = void-parts r now revision row live in
      subst (HasPassed r rq now) same
        (record { consent = consent; reserved = reserved; completed = kept })

  or_failed-stored :
      (r : Recording) (later : ℕ) (result : Result Outcome × Db F) (id : String) (next : Db F)
      → or_failed r later result ≡ (Outcome.stored id, next)
      → result ≡ (ok (Outcome.stored id), next)
  or_failed-stored r later (ok outcome, db) id next h = ap (λ (x : Outcome × Db F). (ok x.0, x.1)) h
  or_failed-stored r later (err d, db) id next h = absurd (cc)

  finish_authorized-HasPassed :
      (gate : Result (Unit {0})) (fresh : Result Access) (r : Recording) (existing : Bool)
      (rq : Request) (replayed : Bool) (write : Result (Unit {0})) (guarded now later : ℕ)
      (db next : Db F) (id : String)
      → finish_authorized gate fresh r existing rq replayed write guarded now later db
        ≡ (Outcome.stored id, next)
      → HasPassed r rq now db
  finish_authorized-HasPassed gate (err d) r existing rq replayed write guarded now later db next id
        h =
      absurd (cc)
  finish_authorized-HasPassed gate (ok fresh) r existing rq replayed write guarded now later db next
        id h =
      activate-HasPassed gate fresh r existing rq replayed write guarded now db next id (
        run-ok (activate gate fresh r existing rq replayed write guarded now) db (Outcome.stored id)
          next
          (or_failed-stored r later
            (run (activate gate fresh r existing rq replayed write guarded now) db) id next h))

  IsAgreed-of_revision :
      (r : Recording) (db : Db F)
      → consent_revision r.tenant r.subject_id r.actor_id db ≡ some r.revision
      → IsAgreed r db
  unfolding consent_revision
  IsAgreed-of_revision r db h =
      let p = is_consent r.tenant r.subject_id "evaluation_recording" in
      elim (Option-cases (first p db.consents)) [
        | inl e ↦ let h' = rw e at h in absurd (cc)
        | inr (c, e) ↦
            let (m, q) = first-eq_some p db.consents c e in
            let (granted, actor, version, revision) =
              revision_of-ok r.actor_id "evaluation-recording-v1" c r.revision (rw e at h) in
            (
              c,
              m,
              (ground (arith, q, string_eq.beq_iff c.tenant r.tenant)),
              (ground (arith, q, string_eq.beq_iff c.subject_id r.subject_id)),
              (ground (arith, q, string_eq.beq_iff c.scope "evaluation_recording")),
              granted,
              actor,
              version,
              revision,
            )
      ]

  IsCompleted-of_any :
      (r : Recording) (rq : Request) (db : Db F)
      → any (is_recorded r rq) db.operations ≡ true
      → IsCompleted r rq db
  IsCompleted-of_any r rq db h =
      let (o, m, q) = Member-of_any (is_recorded r rq) db.operations h in
      (
        o,
        m,
        (ground (arith, q, string_eq.beq_iff o.actor_id r.actor_id)),
        (ground (arith, q, string_eq.beq_iff o.subject_id r.subject_id)),
        (ground (arith, q, string_eq.beq_iff o.key rq.key)),
        (ground (arith, q, string_eq.beq_iff o.request_digest rq.digest)),
        completed-eq o.state (ground (arith, q)),
      )

  passed-IsConsented :
      (r : Recording) (rq : Request) (now : ℕ) (db : Db F)
      → HasPassed r rq now db
      → IsConsented r rq now db
  passed-IsConsented r rq now db h =
      let (row, e, live, unexpired) = h.reserved in
      let p = recording_key r.tenant r.id in
      let (m, q) = first-eq_some p db.recordings row e in
      record {
        agreed = IsAgreed-of_revision r db h.consent;
        row = row;
        row_read = m;
        row_tenant = ground (arith, q, string_eq.beq_iff row.tenant r.tenant);
        row_id = ground (arith, q, string_eq.beq_iff row.id r.id);
        row_live = not_deleted row.state live;
        row_unexpired = unexpired;
        completed = elim h.completed [
          | inl k ↦ inl (stored-eq row.state (rw e at k))
          | inr k ↦ inr (IsCompleted-of_any r rq db k)
        ];
      }

  -- A recording is reported as stored only if the database, as the last transaction finds it, has: a row
  -- in which this person still agrees to this subject being recorded, in the present text and at the
  -- revision of the reservation; the reservation's row, neither deleted nor expired at that time; and,
  -- unless that row was stored before, a completed operation of the same person, subject, key and scan.
  pub finish_sound :
      (gate : Result (Unit {0})) (fresh : Result Access) (r : Recording) (existing : Bool)
      (rq : Request) (replayed : Bool) (write : Result (Unit {0})) (at guarded now later : ℕ)
      (db next : Db F) (id : String)
      → finish gate fresh
          (Ticket.reserved existing r)
          rq
          replayed
          write
          (at, guarded, now, later)
          db
        ≡ (Outcome.stored id, next)
      → IsConsented r rq now db
  unfolding finish
  finish_sound gate fresh r existing rq replayed write at guarded now later db next id h =
      elim (Bool-cases (is_deleted r.state || leb r.expires_at at)) [
        | inl e ↦ let h' = rw e at h in absurd (cc)
        | inr e ↦ passed-IsConsented r rq now db (
            finish_authorized-HasPassed gate fresh r existing rq replayed write guarded now later db
              next id (rw e at h))
      ]
