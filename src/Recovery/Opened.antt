-- ===== src/Recovery/Opened.antt =====
-- A restoration that succeeds, as a whole.
use factech.Base.{ℕ, Bool, false, Option, List, String, ◌≡◌, inl, inr}
use factech.Contracts.{Result, ok, err}
use factech.Database.{Db, Template}
use factech.Database.Tx.{run, outcome-cases}
use factech.Recovery.{
  Gate, Snapshot, Summary, apply, validate, quarantine, apply_valid, enable_restored_reads,
}
use factech.Recovery.Restored.{IsRestored, apply_restores}

module _ {F : Type 0} where
  apply_valid-IsRestored :
      (gate : Gate) (document : Result Snapshot) (now : ℕ) (model_ids : List String)
      (opens : Template → Bool) (db : Db F) (counts : Summary)
      → (apply_valid gate document now model_ids opens db).0 ≡ ok counts
      → IsRestored now model_ids opens (apply_valid gate document now model_ids opens db).2
  unfolding run
  apply_valid-IsRestored gate (err d) now model_ids opens db counts h = absurd (cc)
  apply_valid-IsRestored gate (ok snapshot) now model_ids opens db counts h =
      elim (outcome-cases (apply snapshot now model_ids opens db)) [
        | inl (d, s, e) ↦ let h' = rw e at h in absurd (cc)
        | inr (c, s, e) ↦ rw e (apply_restores snapshot now model_ids opens c db s e)
      ]

  -- When a restoration succeeds, whatever the backup held: every session has ended and every nonce is
  -- spent, no operation is under way, no capture is in use, and each template that is left is in use and
  -- unexpired, is of a known model and opens, and has a row in which its owner agrees to
  -- authentication by template, in the present text.
  pub restore_opens-IsRestored :
      (gate : Gate) (opened : Result (Option Snapshot)) (now : ℕ) (digest : String)
      (model_ids : List String) (opens : Template → Bool) (db : Db F) (counts : Summary)
      → (enable_restored_reads gate opened now digest model_ids opens db).0 ≡ ok counts
      → IsRestored now model_ids opens
          (enable_restored_reads gate opened now digest model_ids opens db).2
  unfolding enable_restored_reads
  restore_opens-IsRestored gate (err d) now digest model_ids opens db counts h = absurd (cc)
  restore_opens-IsRestored gate (ok document) now digest model_ids opens db counts h =
      apply_valid-IsRestored (record gate { enabled = false })
        (validate (record gate { enabled = false }) document now digest) now model_ids opens
        (quarantine db) counts h
