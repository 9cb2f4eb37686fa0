-- ===== src/Challenge.antt =====
-- engine/app/challenge.py: the single-use challenges of the engine. The dictionary `_issued` is
-- passed from call to call in insertion order, and each critical section under `_lock` is one step
-- on it. Clock readings (ms), the drawn nonce and the drawn numbers are arguments.
mod Echo
pub mod Verdicts
pub mod Single
pub mod Table
pub mod Issue
pub mod Scan
pub mod Fresh
pub mod Consume
mod Tests
pub use Echo.{Value, Params, Presented, items, contains, is_number, num_eq}
unfoldable pub use Echo.{same_keys, echo, near, params_match}
use factech.Base.{
  ℕ, zero, suc, ◌+◌, ◌-◌, ◌*◌, ◌/◌, ◌≤◌, ◌<◌, Bool, true, false, not, ◌&&◌, ◌||◌, Option, none,
  some, List, [], ◌∷◌, String, Dict, lookup, insert, length, leb, ltb, filter, ◌==◌, string_eq, ℤ,
  pos, negsuc, prefix, strip, if◌then◌else◌,
}
use factech.Numbers.{Floats, Random}
use factech.Flash.{Schedule, draw_schedule}

-- CHALLENGE_EXPIRY_MS and RETAIN_AFTER_EXPIRY_MS
abbrev pub expiry_ms : ℕ
expiry_ms = 30000

abbrev pub retain_after_expiry_ms : ℕ
retain_after_expiry_ms = 300000

abbrev pub max_issued_nonces : ℕ
max_issued_nonces = 10000

pub data Action : Type 0 where
  look_left look_right move_closer blink_twice head_sequence : Action

abbrev pub action_name : Action → String
action_name look_left = "LOOK_LEFT"
action_name look_right = "LOOK_RIGHT"
action_name move_closer = "MOVE_CLOSER"
action_name blink_twice = "BLINK_TWICE"
action_name head_sequence = "HEAD_SEQUENCE"

-- SINGLE_TURN_ACTIONS
abbrev pub is_single_turn : Action → Bool
is_single_turn look_left = true
is_single_turn look_right = true
is_single_turn _ = false

-- `presented_action in ACTIONS`, where a missing action is None
abbrev pub is_action : Option String → Bool
is_action none = false
is_action (some s) =
    s == "LOOK_LEFT"
    || s == "LOOK_RIGHT"
    || s == "MOVE_CLOSER"
    || s == "BLINK_TWICE"
    || s == "HEAD_SEQUENCE"

abbrev pub names : Option String → Action → Bool
names none a = false
names (some s) a = s == action_name a

-- CHALLENGE_POLICY
pub data Policy : Type 0 where
  head_sequence_policy single_turn_v1 single_turn_glow_v1 : Policy

pub data Reason : Type 0 where
  missing_nonce unknown_nonce reused_nonce expired_nonce action_mismatch unknown_action
        params_mismatch binding_mismatch capture_before_issue :
      Reason

pub record Record (F : Type 0) : Type 0 where
  pub action : Action
  pub params : Params F
  pub issued_ms : ℕ
  pub expires_ms : ℕ
  pub used : Bool
  pub binding : String × String
  pub glow : Option Schedule

abbrev pub Issued : Type 0 → Type 0
Issued F = Dict String (Record F)

pub record Verdict (F : Type 0) : Type 0 where
  pub ok : Bool
  pub reason : Option Reason
  pub action : Option String
  pub presented_action : Option String
  pub params : Option (Presented F)
  pub nonce_prefix : String
  pub consumed : Bool
  pub glow : Option Schedule

-- `binding is not None and record.get("binding") != binding`
abbrev pub misbound : Option (String × String) → String × String → Bool
misbound none b = false
misbound (some (operation, user_id)) b = not (operation == b.0 && user_id == b.1)

module _ {F : Type 0} where
  -- The records that are kept: `dead` is the others.
  abbrev pub is_kept : ℕ → String × Record F → Bool
  is_kept now (n, rec) = leb now (rec.expires_ms + retain_after_expiry_ms)

  -- while len(_issued) >= MAX_ISSUED_NONCES: _issued.pop(next(iter(_issued)))
  unfoldable pub shrink : ℕ → Issued F → Issued F
  shrink bound [] = []
  shrink bound (e ∷ d) =
      let rest = shrink bound d in if leb bound (suc (length d)) then rest else e ∷ d

  -- _evict
  unfoldable pub evict : ℕ → Issued F → Issued F
  unfolding shrink
  evict now d = shrink max_issued_nonces (filter (is_kept now) d)

  -- The critical section of `issue`.
  unfoldable pub put : ℕ → String → Record F → Issued F → Issued F
  put now nonce rec d = insert nonce rec (evict now d)

  -- outstanding
  unfoldable pub outstanding : Issued F → ℕ
  outstanding d = length d

  -- _verdict
  abbrev pub verdict :
      Bool
      → Option Reason
      → Option String
      → Option String
      → String
      → Bool
      → Option (Presented F)
      → Option Schedule
      → Verdict F
  verdict ok reason action presented_action nonce consumed params glow = record {
    ok = ok;
    reason = reason;
    action = action;
    presented_action = presented_action;
    params = params;
    nonce_prefix = prefix 8 nonce;
    consumed = consumed;
    glow = glow;
  }

  abbrev pub mark : Record F → Record F
  mark rec = record rec { used = true }

  module _ (fl : Floats F) where
    -- `check` below its critical section, on the record read there
    unfoldable pub judge :
        String
        → Option String
        → Bool
        → Option (Presented F)
        → Option (String × String)
        → ℕ
        → Record F
        → Verdict F
    judge nonce presented_action spend presented binding now rec =
        let fail = λ (r : Reason).
          verdict false (some r) (some (action_name rec.action)) presented_action nonce spend
            (some (items rec.params)) none in
        if rec.used
        then fail Reason.reused_nonce
        else if ltb rec.expires_ms now
        then fail Reason.expired_nonce
        else if misbound binding rec.binding
        then fail Reason.binding_mismatch
        else if not (is_action presented_action)
        then fail Reason.unknown_action
        else if not (names presented_action rec.action)
        then fail Reason.action_mismatch
        else if not (params_match fl presented rec.params)
        then fail Reason.params_mismatch
        else verdict true none (some (action_name rec.action)) presented_action nonce spend
            (some (items rec.params)) rec.glow

    check_found :
        Option (Record F)
        → String
        → Option String
        → Bool
        → Option (Presented F)
        → Option (String × String)
        → ℕ
        → Issued F
        → Verdict F × Issued F
    check_found none nonce presented_action spend presented binding now d =
        (verdict false (some Reason.unknown_nonce) none presented_action nonce false none none, d)
    check_found (some rec) nonce presented_action spend presented binding now d = (
      judge nonce presented_action spend presented binding now rec,
      if spend then insert nonce (mark rec) d else d,
    )

    unfoldable pub check :
        String
        → Option String
        → Bool
        → Option (Presented F)
        → Option (String × String)
        → ℕ
        → Issued F
        → Verdict F × Issued F
    unfolding check_found
    check nonce presented_action spend presented binding now d =
        if nonce == ""
        then (verdict false (some Reason.missing_nonce) none presented_action "" false none none, d)
        else check_found (lookup nonce d) nonce presented_action spend presented binding now d
