-- ===== src/Challenge/Issue.antt =====
-- `issue` of challenge.py: what is drawn for a challenge, and the record that is kept of it.
use factech.Base.{
  ℕ, zero, suc, ◌+◌, ◌-◌, ◌*◌, Bool, true, false, Option, none, some, String, ℤ, pos, negsuc,
  if◌then◌else◌,
}
use factech.Numbers.{Floats, Random}
use factech.Flash.{Schedule, draw_schedule}
use factech.Challenge.{
  Action, Policy, Params, Record, Issued, look_left, look_right, move_closer, head_sequence,
  head_sequence_policy, single_turn_glow_v1, is_single_turn, expiry_ms, put,
}
use factech.Challenge.Echo.{head, single}

-- issuable_actions(), and secrets.choice of it
abbrev pub is_single_turn_policy : Policy → Bool
is_single_turn_policy head_sequence_policy = false
is_single_turn_policy _ = true

abbrev pub turn : ℕ → Action
turn zero = look_left
turn (suc i) = look_right

abbrev pub sign : ℕ → ℤ
sign zero = negsuc 0
sign (suc i) = pos 1

module _ (r : Random) where
  unfoldable pub draw_action : Policy → Action
  draw_action policy = if is_single_turn_policy policy then turn (r.below 0 2) else head_sequence

  -- _draw_glow, for an action of SINGLE_TURN_ACTIONS
  unfoldable pub draw_glow : Policy → Action → Option Schedule
  draw_glow single_turn_glow_v1 action =
      if is_single_turn action then some (draw_schedule r) else none
  draw_glow _ action = none

  -- `low` and `high` of the hold before the movement
  abbrev pub settle_low : Action → ℕ
  settle_low action = if is_single_turn action then 1200 else 900

  abbrev pub settle_high : Action → ℕ
  settle_high action = if is_single_turn action then 2000 else 2400

  unfoldable pub draw_settle : Action → ℕ
  draw_settle action = settle_low action + r.below 1 (settle_high action - settle_low action + 1)

  module _ {F : Type 0} (fl : Floats F) where
    -- _target_band: SCALE_DELTA_FLOOR and SCALE_DELTA_LIVE, or YAW_DELTA_FLOOR and YAW_DELTA_LIVE
    abbrev pub band_floor : Action → F
    band_floor move_closer = fl.ratio 22 100
    band_floor _ = fl.ratio 15 100

    abbrev pub band_live : Action → F
    band_live move_closer = fl.ratio 47 100
    band_live _ = fl.ratio 35 100

    unfoldable pub draw_target : Action → F
    draw_target action =
        let floor = band_floor action in
        let live = fl.add floor (fl.mul (fl.sub (band_live action) floor) (fl.ratio 1 2)) in
        let step = fl.ratio (r.below 0 26) 25 in
        fl.round (fl.add floor (fl.mul (fl.sub live floor) step)) 3

    -- _draw_params
    unfoldable pub draw_params : Action → Params F
    unfolding draw_settle draw_target
    draw_params head_sequence =
        head 3200 (9000 + r.below 0 3 * 200) (sign (r.below 1 2)) (fl.ratio 18 100)
    draw_params action = single (draw_settle action) (draw_target action)

    unfoldable pub draw_record : Policy → String → String → ℕ → Record F
    draw_record policy operation user_id now =
        let action = draw_action policy in
        record {
          action = action;
          params = draw_params action;
          issued_ms = now;
          expires_ms = now + expiry_ms;
          used = false;
          binding = (operation, user_id);
          glow = draw_glow policy action;
        }

    -- issue: the challenge handed out, by its record, and the dictionary with it
    unfoldable pub issue : Policy → String → String → String → ℕ → Issued F → Record F × Issued F
    unfolding draw_record
    issue policy operation user_id nonce now d =
        let rec = draw_record policy operation user_id now in (rec, put now nonce rec d)
