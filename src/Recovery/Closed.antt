-- ===== src/Recovery/Closed.antt =====
-- When reads are open after an attempt to restore.
use factech.Base.{
  ◌∙◌, ◌≤◌, ◌+◌, ◌-◌, ltb, not, ◌||◌, none, some, ◌≢◌, string_eq, Bool-cases, arith, ℕ, Bool, true,
  false, Option, List, String, filter, ◌≡◌, refl, sym, ap, inl, inr,
}
use factech.Contracts.{Result, ok, err}
use factech.Database.{Db, Resource, Template}
use factech.Database.Tx.{run, settle, outcome-cases}
use factech.Lifecycle.{is_capture}
use factech.Lifecycle.Expiry.{schedule_marks}
use factech.Policy.{given}
use factech.Recovery.{
  is_digest, Gate, Snapshot, Summary, validate, apply, open_gate, apply_valid,
  enable_restored_reads, quarantine, check_templates, capture_marks, recover, upsert_consents,
}

-- The document is complete, of the digest that the gate requires, sealed no earlier than it requires and
-- not in the future, and not older than it allows.
abbrev pub IsRequired : Gate → Option Snapshot → ℕ → String → Type 0
IsRequired gate document now digest =
    (snapshot : Snapshot) × (document ≡ some snapshot)
    × (gate.required_digest ≡ some digest)
    × (digest ≢ "")
    × (gate.required_through ≤ snapshot.through)
    × (snapshot.through ≤ now)
    × (now ≤ snapshot.through + gate.max_age)

-- The same of a ledger that the cipher has opened, or not.
abbrev pub IsOpened : Gate → Result (Option Snapshot) → ℕ → String → Type 0
IsOpened gate opened now digest =
    (document : Option Snapshot) × (opened ≡ ok document) × IsRequired gate document now digest

digest-eq :
    (o : Option String) (digest : String)
    → given o ≡ true
    → is_digest o digest ≡ true
    → (o ≡ some digest) × (digest ≢ "")
digest-eq none digest g h = absurd (cc)
digest-eq (some required) digest g h =
    let same : digest ≡ required = (string_eq.beq_iff digest required).0 h in
    (ap some (sym same), λ e. let g' = rw (sym same ∙ e) at g in absurd (cc))

validate-IsRequired :
    (gate : Gate) (document : Option Snapshot) (now : ℕ) (digest : String) (snapshot : Snapshot)
    → validate gate document now digest ≡ ok snapshot
    → IsRequired gate document now digest
unfolding validate
validate-IsRequired gate none now digest snapshot h = absurd (cc)
validate-IsRequired gate (some document) now digest snapshot h =
    elim (Bool-cases (
      not (given gate.required_digest)
      || not (is_digest gate.required_digest digest)
      || ltb document.through gate.required_through
      || ltb now document.through
      || ltb gate.max_age (now - document.through))) [
        | inl e ↦ let h' = rw e at h in absurd (cc)
        | inr e ↦
            let (same, named) =
              digest-eq gate.required_digest digest (ground (arith, e)) (ground (arith, e)) in
            (
              document,
              refl,
              same,
              named,
              (ground (arith, e)),
              (ground (arith, e)),
              (ground (arith, e)),
            )
      ]

module _ {F : Type 0} where
  -- Reads and the gate are open after a success, which needs P, and closed after a failure, which has
  -- written nothing but that.
  abbrev pub IsGuarded : Type 0 → Db F → Result Summary × Gate × Db F → Type 0
  IsGuarded P db (ok counts, gate, db') = (gate.enabled ≡ true) × (db'.reads_enabled ≡ true) × P
  IsGuarded P db (err d, gate, db') =
      (gate.enabled ≡ false) × (db' ≡ record db { reads_enabled = false })

  apply_opens :
      (snapshot : Snapshot) (now : ℕ) (model_ids : List String) (opens : Template → Bool)
      (db : Db F) (counts : Summary) (db' : Db F)
      → apply snapshot now model_ids opens db ≡ (ok counts, db')
      → db'.reads_enabled ≡ true
  unfolding apply
  apply_opens snapshot now model_ids opens db counts db' h =
      let mid = record (recover snapshot.entries db) {
        consents = upsert_consents snapshot.consents (recover snapshot.entries db).consents;
      } in
      elim (outcome-cases (check_templates now model_ids opens mid.templates mid)) [
        | inl (d, s, e) ↦ let h1 = rw e at h in absurd (cc)
        | inr (u, s, e) ↦
            let h1 = rw e at h in
            elim (outcome-cases (
              schedule_marks
                (capture_marks (filter (λ (r : Resource). is_capture r.kind) s.resources)) now s)) [
                  | inl (d, t, f) ↦ let h2 = rw f at h1 in absurd (cc)
                  | inr (v, t, f) ↦
                      let h2 = rw f at h1 in
                      ap (λ (p : Result Summary × Db F). p.1.reads_enabled) (sym h2)
                ]
      ]

  settled :
      (P : Type 0) (gate : Gate) (r : Result Summary × Db F) (db : Db F)
      → P
      → ((counts : Summary) (db' : Db F) → r ≡ (ok counts, db') → db'.reads_enabled ≡ true)
      → gate.enabled ≡ false
      → IsGuarded P db (open_gate gate (settle r (record db { reads_enabled = false })))
  settled P gate (ok counts, db') db p opened g = (refl, opened counts db' refl, p)
  settled P gate (err d, db') db p opened g = (g, refl)

  applied :
      (P : Type 0) (gate : Gate) (document : Result Snapshot) (now : ℕ) (model_ids : List String)
      (opens : Template → Bool) (db : Db F)
      → ((snapshot : Snapshot) → document ≡ ok snapshot → P)
      → gate.enabled ≡ false
      → IsGuarded P db
          (apply_valid gate document now model_ids opens (record db { reads_enabled = false }))
  unfolding run
  applied P gate (err d) now model_ids opens db p g = (g, refl)
  applied P gate (ok snapshot) now model_ids opens db p g =
      settled P gate (apply snapshot now model_ids opens (record db { reads_enabled = false })) db
        (p snapshot refl)
        (λ counts db' h.
          apply_opens snapshot now model_ids opens (record db { reads_enabled = false }) counts db'
            h)
        g

  -- However an attempt to restore ends, the gate and the database's reads are open together after a
  -- success, and closed together after a failure, which has changed nothing else of the database. It is
  -- a success only if the ledger opened to a complete document that has the digest that the gate
  -- requires, is sealed no earlier than the gate requires and not in the future, and is no older than
  -- the gate allows.
  pub restore_fails_closed :
      (gate : Gate) (opened : Result (Option Snapshot)) (now : ℕ) (digest : String)
      (model_ids : List String) (opens : Template → Bool) (db : Db F)
      → IsGuarded
          (IsOpened gate opened now digest)
          db
          (enable_restored_reads gate opened now digest model_ids opens db)
  unfolding enable_restored_reads quarantine
  restore_fails_closed gate (err d) now digest model_ids opens db = (refl, refl)
  restore_fails_closed gate (ok document) now digest model_ids opens db =
      applied (IsOpened gate (ok document) now digest) (record gate { enabled = false })
        (validate (record gate { enabled = false }) document now digest) now model_ids opens db
        (λ snapshot h. (
          document,
          refl,
          validate-IsRequired (record gate { enabled = false }) document now digest snapshot h,
        ))
        refl
