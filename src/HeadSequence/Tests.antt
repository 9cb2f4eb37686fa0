-- ===== src/HeadSequence/Tests.antt =====
-- Twelve frames: three of a still head, a turn to the side of the cue, and a turn to the other.
use factech.Base.{ℕ, ℤ, pos, negsuc, none, some, Option, List, [], ◌∷◌, ◌≡◌, refl}
use factech.Numbers.Sample.{signed}
use factech.HeadSequence.{
  Cue, Reason, phase_of, diff, in_time, collect, has_successive, largest, smallest, holding,
  is_against, turn, validate, inliers, turn_guided, validate_guided, validate_for,
}
use factech.HeadSequence.Held.{IsSequence, validate_for_sound}

abbrev cue_one : Cue ℤ
cue_one = record { first_sign = pos 1; switch_ms = 9000; settle_ms = 3000; target = pos 200000 }

abbrev first_of : List ℤ → ℤ
first_of [] = pos 0
first_of (x ∷ xs) = x

abbrev times_one : List ℕ
times_one = 0 ∷ 1500 ∷ 3000 ∷ 4500 ∷ 6000 ∷ 7500 ∷ 9000 ∷ 10500 ∷ 12000 ∷ 13500 ∷ 15000 ∷ 16500 ∷ []

abbrev still_pose : Option (ℤ × ℤ)
still_pose = some (pos 0, pos 10000)

abbrev turned_pose : Option (ℤ × ℤ)
turned_pose = some (pos 300000, pos 350000)

abbrev other_pose : Option (ℤ × ℤ)
other_pose = some (negsuc 299999, negsuc 349999)

abbrev poses_one : List (Option (ℤ × ℤ))
poses_one =
    still_pose ∷ still_pose ∷ still_pose ∷ none ∷ turned_pose ∷ turned_pose ∷ none ∷ turned_pose
    ∷ turned_pose ∷ other_pose ∷ other_pose ∷ other_pose ∷ []

-- The ninth frame still shows the first turn.
accepted : validate_for signed first_of "pad-sequence-v2-slow" cue_one times_one poses_one ≡ none
unfolding signed validate_for validate in_time diff collect phase_of has_successive largest smallest
    holding is_against turn
accepted = refl

accepted_guided :
    validate_for signed first_of "pad-sequence-v3-guided" cue_one times_one poses_one ≡ none
unfolding signed validate_for validate_guided in_time diff collect phase_of has_successive largest
    smallest holding is_against turn_guided inliers
accepted_guided = refl

-- A head that does not turn.
refused :
    validate_for signed first_of "pad-sequence-v2-slow" cue_one times_one (
      still_pose ∷ still_pose ∷ still_pose ∷ still_pose ∷ still_pose ∷ still_pose ∷ still_pose
      ∷ still_pose ∷ still_pose ∷ still_pose ∷ still_pose ∷ still_pose ∷ [])
    ≡ some Reason.action_order_or_rotation
unfolding signed validate_for validate in_time diff collect phase_of has_successive largest smallest
    holding is_against turn
refused = refl

validate_for_sound_example : IsSequence signed first_of cue_one times_one poses_one
validate_for_sound_example =
    validate_for_sound signed first_of "pad-sequence-v2-slow" cue_one times_one poses_one accepted
