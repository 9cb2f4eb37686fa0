-- ===== src/Privacy/Tests.antt =====
-- The sample database with consent to be recorded and a completed operation.
use factech.Base.{ℕ, false, [], ◌∷◌, ◌≡◌, refl}
use factech.Contracts.{ok}
use factech.Policy.{
  authorize, decide_parsed, decide_action, unauthenticated, is_owner, parse_action,
}
use factech.Database.{Db, State, Recording, RecordingState, first, update_where}
use factech.Database.Tx.{run}
use factech.Database.Sample.{sample, consent_one, operation_one, recording_one}
use factech.Guard.{guard, guard_target, invalid_session}
use factech.Guard.Sample.{access_one}
use factech.Privacy.{Ticket, Outcome, Request, consent_revision, activate, finish}
use factech.Privacy.Consented.{IsConsented, finish_sound}

abbrev pending_one : Recording
pending_one = record recording_one { id = "c2"; state = RecordingState.pending }

abbrev request_one : Request
request_one = record {
  access = access_one;
  identity = "c2";
  key = "i1";
  nonce_digest = "d1";
  digest = "b1";
}

abbrev recorded : Db ℕ
recorded = record sample {
  consents =
      record consent_one {
        scope = "evaluation_recording";
        text_version = "evaluation-recording-v1";
      }
      ∷ [];
  recordings = pending_one ∷ [];
  operations = record operation_one { state = State.completed } ∷ [];
}

abbrev finished : Outcome × Db ℕ
finished =
    finish (ok tt) (ok access_one) (Ticket.reserved false pending_one) request_one false (ok tt)
      (2000, 2000, 2000, 2000) recorded

is_stored : finished ≡ (Outcome.stored "c2", finished.1)
unfolding finish activate run guard guard_target invalid_session authorize decide_parsed
    decide_action unauthenticated is_owner parse_action first consent_revision update_where
is_stored = refl

-- Consent was taken back while the scan was analysed.
withdrawn :
    (finish
      (ok tt)
      (ok access_one)
      (Ticket.reserved false pending_one)
      request_one
      false
      (ok tt)
      (2000, 2000, 2000, 2000)
      (record recorded { consents = [] })).0
    ≡ Outcome.skipped "CONSENT_CHANGED"
unfolding finish activate run guard guard_target invalid_session authorize decide_parsed
    decide_action unauthenticated is_owner parse_action first consent_revision update_where
withdrawn = refl

finish_sound_example : IsConsented pending_one request_one 2000 recorded
finish_sound_example =
    finish_sound (ok tt) (ok access_one) pending_one false request_one false (ok tt) 2000 2000 2000
      2000 recorded finished.1 "c2" is_stored
