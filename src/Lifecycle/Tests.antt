-- ===== src/Lifecycle/Tests.antt =====
-- The sample database through revocation, withdrawal and purge, and the theorems there.
use factech.Base.{ℕ, false, ◌&&◌, none, List, [], ◌∷◌, All, ◌==◌, string_eq, ◌≡◌, refl, arith}
use factech.Database.{Db, Operation, Job}
use factech.Database.Sample.{sample, job_one, operation_one}
use factech.Lifecycle.{withdraw, claim, active_of, is_processing}
use factech.Lifecycle.Jobs.{attempts-IsBounded, step, stay, claimed, IsBounded}
use factech.Contracts.{ok}
use factech.Lifecycle.Expiry.{
  expire, expired_templates, expired_captures, lost_recordings, schedule_marks,
}
use factech.Lifecycle.Withdrawal.{withdraw_templates, withdraw_captures, stored_of, captured_by}

-- The order of the table.
abbrev kept : List Job → List Job
kept xs = xs

claims_job : (claim kept none 20 2000 sample).0 ≡ job_one ∷ []
unfolding claim
claims_job = refl

-- Another worker looks for jobs ten seconds later.
abbrev looked : Db ℕ
looked = (claim kept none 20 2010 (claim kept none 20 2000 sample).1).1

attempts-IsBounded_example : IsBounded (claim kept none 20 2000 sample).1
attempts-IsBounded_example =
    attempts-IsBounded kept (λ xs x m. m)
      (step (claimed none 20 2000 sample) (stay (claim kept none 20 2000 sample).1))
      (omega arith, tt)

abbrev under_way : Db ℕ
under_way = record sample { operations = operation_one ∷ [] }

withdraw_templates_example :
    All
      (λ t. active_of "t1" "p1" t ≡ false)
      (withdraw "t1" "p1" "u1" "template_authentication" 2000 under_way).templates
    × All
        (λ (o : Operation).
          (o.tenant == "t1" && o.subject_id == "p1" && is_processing o.state) ≡ false)
        (withdraw "t1" "p1" "u1" "template_authentication" 2000 under_way).operations
withdraw_templates_example = withdraw_templates "t1" "p1" "u1" 2000 under_way

withdraw_captures_example :
    All
      (λ r. stored_of "t1" "p1" "u1" r ≡ false)
      (withdraw "t1" "p1" "u1" "evaluation_capture" 2000 sample).recordings
    × All
        (λ r. captured_by "t1" "p1" "u1" r ≡ false)
        (withdraw "t1" "p1" "u1" "evaluation_capture" 2000 sample).resources
withdraw_captures_example = withdraw_captures "t1" "p1" "u1" "evaluation_capture" 2000 sample refl

expired : expire none 20 9000 sample ≡ (ok 1, (expire none 20 9000 sample).1)
unfolding expire expired_templates expired_captures lost_recordings schedule_marks
expired = refl
