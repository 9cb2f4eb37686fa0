-- ===== src/HeadSequence.antt =====
-- engine/app/head_sequence.py: the order of head turns in a scan. `yaw` and numpy's `median` are
-- arguments; a pose is the pair of anatomical ratios of a frame. The times of frames ascend.
pub mod Held
mod Tests
use factech.Base.{
  ℕ, zero, suc, ◌+◌, ◌-◌, ℤ, pos, negsuc, Bool, true, false, not, ◌&&◌, ◌||◌, Option, none, some,
  List, [], ◌∷◌, ◌++◌, length, any, map, String, ◌==◌, string_eq, leb, ltb, nat_beq, if◌then◌else◌,
}
use factech.Numbers.{Floats}

-- Why a sequence is refused.
pub data Reason : Type 0 where
  timing phase_coverage not_frontal_and_still action_order_or_rotation opposite_action_in_window :
      Reason

pub data Phase : Type 0 where
  settled first_turn second_turn : Phase

abbrev pub phase_beq : Phase → Phase → Bool
phase_beq Phase.settled Phase.settled = true
phase_beq Phase.first_turn Phase.first_turn = true
phase_beq Phase.second_turn Phase.second_turn = true
phase_beq _ _ = false

-- The window of a time since the first frame.
unfoldable pub phase_of : ℕ → ℕ → ℕ → Option Phase
phase_of settle switch elapsed =
    if leb elapsed settle
    then some Phase.settled
    else if leb (settle + 1600) elapsed && ltb elapsed switch
    then some Phase.first_turn
    else if leb (switch + 1600) elapsed
    then some Phase.second_turn
    else none

-- np.diff
unfoldable pub diff : List ℕ → List ℕ
diff [] = []
diff (t ∷ []) = []
diff (t ∷ u ∷ ts) = (u - t) ∷ diff (u ∷ ts)

abbrev pub first_ts : List ℕ → ℕ
first_ts [] = 0
first_ts (t ∷ ts) = t

abbrev pub last_ts : List ℕ → ℕ
last_ts [] = 0
last_ts (t ∷ []) = t
last_ts (t ∷ u ∷ ts) = last_ts (u ∷ ts)

abbrev pub span_of : List ℕ → ℕ
span_of ts = last_ts ts - first_ts ts

-- The times of a scan that is paced.
unfoldable pub in_time : List ℕ → Bool
in_time ts =
    leb 15000 (span_of ts)
    && leb (span_of ts) 20000
    && not (any (λ gap. ltb gap 1100) (diff ts))
    && not (any (λ gap. ltb 1900 gap) (diff ts))

abbrev pub in_phase : Phase → Option Phase → Bool
in_phase p none = false
in_phase p (some q) = phase_beq p q

module _ {A : Type 0} where
  abbrev pub keep_if : Bool → ℕ → Option A → List (ℕ × A) → List (ℕ × A)
  keep_if true i (some pose) rest = (i, pose) ∷ rest
  keep_if _ i _ rest = rest

  -- phases[p]; `i` is the index of the next frame
  unfoldable pub collect : ℕ → ℕ → Phase → ℕ → ℕ → List ℕ → List (Option A) → List (ℕ × A)
  collect settle switch p origin i (t ∷ ts) (pose ∷ poses) =
      keep_if (in_phase p (phase_of settle switch (t - origin))) i pose
        (collect settle switch p origin (suc i) ts poses)
  collect settle switch p origin i _ _ = []

-- any(b == a + 1 for a, b in zip(valid, valid[1:]))
unfoldable pub has_successive : List ℕ → Bool
has_successive [] = false
has_successive (a ∷ []) = false
has_successive (a ∷ b ∷ rest) = nat_beq b (a + 1) || has_successive (b ∷ rest)

-- The cue that a scan is to follow.
pub record Cue (F : Type 0) : Type 0 where
  pub first_sign : ℤ
  pub switch_ms : ℕ
  pub settle_ms : ℕ
  pub target : F

-- -first
abbrev pub opposite : ℤ → ℤ
opposite (pos zero) = pos zero
opposite (pos (suc n)) = negsuc n
opposite (negsuc n) = pos (suc n)

-- The first of the frames, where there is one.
abbrev pub is_first : {A : Type 0} → ℕ → List (ℕ × A) → Bool
is_first i [] = false
is_first i ((j, _) ∷ rest) = nat_beq i j

abbrev pub is_before : ℕ → List ℕ → Bool
is_before i [] = false
is_before i (j ∷ rest) = ltb i j

abbrev pub or_else : {A : Type 0} → Option A → Option A → Option A
or_else (some a) rest = some a
or_else none rest = rest

-- What to tell the person.
abbrev pub hints : {A : Type 0} → Option (A × String) → Option A
hints none = none
hints (some (reason, hint)) = some reason

-- started is None or i >= started
abbrev pub has_started : List ℕ → ℕ → Bool
has_started [] i = true
has_started (j ∷ rest) i = leb j i

module _ {F : Type 0} (fl : Floats F) (median : List F → F) where
  abbrev pub lesser : F → F → F
  lesser x y = if fl.lt y x then y else x

  abbrev pub greater : F → F → F
  greater x y = if fl.lt x y then y else x

  -- max and min of numbers, from the first
  unfoldable pub largest : F → List F → F
  largest x [] = x
  largest x (y ∷ ys) = largest (greater x y) ys

  unfoldable pub smallest : F → List F → F
  smallest x [] = x
  smallest x (y ∷ ys) = smallest (lesser x y) ys

  -- np.ptp
  abbrev pub peak_to_peak : List F → F
  peak_to_peak [] = fl.ratio 0 1
  peak_to_peak (x ∷ xs) = fl.sub (largest x xs) (smallest x xs)

  abbrev pub eyes : List (ℕ × (F × F)) → List F
  eyes [] = []
  eyes ((i, (x, y)) ∷ rest) = x ∷ eyes rest

  abbrev pub mouths : List (ℕ × (F × F)) → List F
  mouths [] = []
  mouths ((i, (x, y)) ∷ rest) = y ∷ mouths rest

  abbrev pub baseline : List (ℕ × (F × F)) → F × F
  baseline phase = (median (eyes phase), median (mouths phase))

  -- max(abs(baseline)) > limit
  abbrev pub is_off_centre : F → F × F → Bool
  is_off_centre limit (x, y) = fl.lt limit (greater (fl.abs x) (fl.abs y))

  abbrev pub is_moving : List (ℕ × (F × F)) → Bool
  is_moving phase =
      fl.lt (fl.ratio 1 5) (greater (peak_to_peak (eyes phase)) (peak_to_peak (mouths phase)))

  -- (np.asarray(p) - baseline) * sign, and the lesser of the two
  abbrev pub lean : F × F → ℤ → F × F → F
  lean (bx, by) sign (x, y) =
      lesser (fl.mul (fl.sub x bx) (fl.of_int sign)) (fl.mul (fl.sub y by) (fl.of_int sign))

  -- [i for i, delta in values if min(delta) >= target]
  unfoldable pub holding : F → F × F → ℤ → List (ℕ × (F × F)) → List ℕ
  holding target base sign [] = []
  holding target base sign ((i, pose) ∷ rest) =
      if fl.le target (lean base sign pose)
      then i ∷ holding target base sign rest
      else holding target base sign rest

  unfoldable pub is_against : F → F × F → ℤ → ℕ × (F × F) → Bool
  is_against target base sign (i, pose) = fl.lt (lean base sign pose) (fl.neg target)

  -- The one leading frame of the second turn that may still show the first.
  abbrev pub is_ignored : Bool → List (ℕ × (F × F)) → List ℕ → ℕ → Bool
  is_ignored second values valid i = second && is_first i values && is_before i valid

  -- The loop of `validate` over the two actions, for one.
  unfoldable pub turn : Bool → F → F × F → ℤ → List (ℕ × (F × F)) → Option Reason
  turn second target base sign values =
      if not (has_successive (holding target base sign values))
      then some Reason.action_order_or_rotation
      else if any
          (λ v.
            is_against target base sign v
            && not (is_ignored second values (holding target base sign values) v.0))
          values
      then some Reason.opposite_action_in_window
      else none

  abbrev pub window : Cue F → Phase → List ℕ → List (Option (F × F)) → List (ℕ × (F × F))
  window cue p ts poses = collect cue.settle_ms cue.switch_ms p (first_ts ts) 0 ts poses

  -- min(result["phases"]) < 2
  abbrev pub has_few : Cue F → List ℕ → List (Option (F × F)) → Bool
  has_few cue ts poses =
      ltb (length (window cue Phase.settled ts poses)) 2
      || ltb (length (window cue Phase.first_turn ts poses)) 2
      || ltb (length (window cue Phase.second_turn ts poses)) 2

  -- validate; `none` is ok
  unfoldable pub validate : Cue F → List ℕ → List (Option (F × F)) → Option Reason
  validate cue ts poses =
      let still = window cue Phase.settled ts poses in
      let first = window cue Phase.first_turn ts poses in
      let second = window cue Phase.second_turn ts poses in
      if not (in_time ts)
      then some Reason.timing
      else if has_few cue ts poses
      then some Reason.phase_coverage
      else if is_off_centre (fl.ratio 3 10) (baseline still) || is_moving still
      then some Reason.not_frontal_and_still
      else or_else (turn false cue.target (baseline still) cue.first_sign first)
          (turn true cue.target (baseline still) (opposite cue.first_sign) second)

  -- How many frames of the first window are near the baseline.
  unfoldable pub inliers : F × F → List (ℕ × (F × F)) → ℕ
  inliers base [] = 0
  inliers (bx, by) ((i, (x, y)) ∷ rest) =
      let others = inliers (bx, by) rest in
      if fl.le (greater (fl.abs (fl.sub x bx)) (fl.abs (fl.sub y by))) (fl.ratio 3 20)
      then suc others
      else others

  abbrev pub is_late : F → F × F → ℤ → List (ℕ × (F × F)) → List ℕ → Bool
  is_late target base sign values valid =
      any (λ v. is_against target base sign v && is_before v.0 valid) values

  -- The loop of `validate_guided` over the two actions, for one.
  unfoldable pub turn_guided : F → F × F → ℤ → List (ℕ × (F × F)) → Option (Reason × String)
  turn_guided target base sign values =
      let valid = holding target base sign values in
      if any (λ v. is_against target base sign v && has_started valid v.0) values
      then some (Reason.opposite_action_in_window, "try_again")
      else if not (has_successive valid)
      then some (
        Reason.action_order_or_rotation,
        if is_late target base sign values valid then "turn_sooner" else "turn_less_or_more",
      )
      else none

  -- validate_guided; `none` is ok
  unfoldable pub validate_guided : Cue F → List ℕ → List (Option (F × F)) → Option (Reason × String)
  validate_guided cue ts poses =
      let still = window cue Phase.settled ts poses in
      let first = window cue Phase.first_turn ts poses in
      let second = window cue Phase.second_turn ts poses in
      if not (in_time ts)
      then some (Reason.timing, "try_again")
      else if has_few cue ts poses
      then some (Reason.phase_coverage, "try_again")
      else if is_off_centre (fl.ratio 1 4) (baseline still)
          || ltb (inliers (baseline still) still) 2
      then some (Reason.not_frontal_and_still, "hold_still")
      else or_else (turn_guided cue.target (baseline still) cue.first_sign first)
          (turn_guided cue.target (baseline still) (opposite cue.first_sign) second)

  -- validate_for, as to whether and why a sequence is refused
  unfoldable pub validate_for : String → Cue F → List ℕ → List (Option (F × F)) → Option Reason
  validate_for policy cue ts poses =
      if policy == "pad-sequence-v3-guided"
      then hints (validate_guided cue ts poses)
      else validate cue ts poses
