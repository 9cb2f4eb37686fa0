-- ===== src/Recovery/Tests.antt =====
-- The sample database, restored.
use factech.Base.{ℕ, true, false, some, [], ◌∷◌, ◌≡◌, refl}
use factech.Contracts.{ok, Result}
use factech.Database.{Db, update_where, delete_where, insert_new}
use factech.Database.Tx.{run}
use factech.Database.Sample.{sample, consent_one, template_one}
use factech.Lifecycle.{schedule}
use factech.Lifecycle.Expiry.{schedule_marks}
use factech.Recovery.{
  Gate, Snapshot, Summary, validate, quarantine, apply, recover, replay_ledger, end_all,
  upsert_consent, upsert_consents, permits, is_kept, check_templates, entry_counts, summary,
  enable_restored_reads,
}
use factech.Recovery.Restored.{IsRestored}
use factech.Recovery.Opened.{restore_opens-IsRestored}
use factech.Recovery.Closed.{IsOpened, IsGuarded, restore_fails_closed}

abbrev gate_one : Gate
gate_one = record {
  required_through = 1900;
  required_digest = some "l1";
  max_age = 300;
  enabled = false;
}

abbrev snapshot_one : Snapshot
snapshot_one = record { through = 1950; entries = []; consents = consent_one ∷ [] }

abbrev restored : Result Summary × Gate × Db ℕ
restored =
    enable_restored_reads gate_one (ok (some snapshot_one)) 2000 "l1" ("m1" ∷ []) (λ t. true) sample

abbrev counts_one : Summary
counts_one = record {
  sessions_revoked = 1;
  nonces_spent = 1;
  operations_failed = 0;
  ledger_templates = 0;
  ledger_captures = 0;
}

restored_ok : restored.0 ≡ ok counts_one
unfolding enable_restored_reads validate quarantine run apply recover replay_ledger end_all
    upsert_consent upsert_consents check_templates is_kept permits entry_counts summary
    schedule_marks schedule update_where delete_where insert_new
restored_ok = refl

-- The template stays.
template_stays : restored.2.templates ≡ template_one ∷ []
unfolding enable_restored_reads validate quarantine run apply recover replay_ledger end_all
    upsert_consent upsert_consents check_templates is_kept permits entry_counts summary
    schedule_marks schedule update_where delete_where insert_new
template_stays = refl

restore_opens-IsRestored_example : IsRestored 2000 ("m1" ∷ []) (λ t. true) restored.2
restore_opens-IsRestored_example =
    restore_opens-IsRestored gate_one (ok (some snapshot_one)) 2000 "l1" ("m1" ∷ []) (λ t. true)
      sample counts_one restored_ok

-- A ledger of another digest.
restore_fails_closed_example :
    IsGuarded (IsOpened gate_one (ok (some snapshot_one)) 2000 "l2") sample (
      enable_restored_reads gate_one
        (ok (some snapshot_one))
        2000
        "l2"
        ("m1" ∷ [])
        (λ t. true)
        sample)
restore_fails_closed_example =
    restore_fails_closed gate_one (ok (some snapshot_one)) 2000 "l2" ("m1" ∷ []) (λ t. true) sample
