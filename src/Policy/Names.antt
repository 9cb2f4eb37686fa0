-- ===== src/Policy/Names.antt =====
-- The actions of policy.py and their names on the wire.
use factech.Base.{
  Option, none, some, List, [], ◌∷◌, String, ◌==◌, string_eq, ◌≡◌, refl, some, eq_iff, arith,
  if◌then◌else◌,
}

pub data Action : Type 0 where
  challenge_enroll challenge_verify challenge_liveness enroll add_template verify liveness
        list_templates revoke_templates grant_consent withdraw_consent request_capture_deletion
        read_receipt list_captures read_capture read_diagnostics read_frame read_aggregates :
      Action

unfoldable pub action_value : Action → String
action_value challenge_enroll = "challenge.enroll"
action_value challenge_verify = "challenge.verify"
action_value challenge_liveness = "challenge.liveness"
action_value enroll = "template.enroll"
action_value add_template = "template.add"
action_value verify = "subject.verify"
action_value liveness = "subject.liveness"
action_value list_templates = "template.list"
action_value revoke_templates = "template.revoke"
action_value grant_consent = "consent.grant"
action_value withdraw_consent = "consent.withdraw"
action_value request_capture_deletion = "capture.request_deletion"
action_value read_receipt = "receipt.read"
action_value list_captures = "capture.list"
action_value read_capture = "capture.read"
action_value read_diagnostics = "diagnostics.read"
action_value read_frame = "frame.read"
action_value read_aggregates = "capture.aggregates"

abbrev all_actions : List Action
all_actions =
    challenge_enroll ∷ challenge_verify ∷ challenge_liveness ∷ enroll ∷ add_template ∷ verify
    ∷ liveness ∷ list_templates ∷ revoke_templates ∷ grant_consent ∷ withdraw_consent
    ∷ request_capture_deletion ∷ read_receipt ∷ list_captures ∷ read_capture ∷ read_diagnostics
    ∷ read_frame ∷ read_aggregates ∷ []

find_action : String → List Action → Option Action
find_action s [] = none
find_action s (a ∷ rest) = if action_value a == s then some a else find_action s rest

-- `Action(action)`; `none` is the ValueError
unfoldable pub parse_action : String → Option Action
unfolding action_value find_action
parse_action s = find_action s all_actions

pub parse_action-action_value : (a : Action) → parse_action (action_value a) ≡ some a
unfolding parse_action
parse_action-action_value challenge_enroll = refl
parse_action-action_value challenge_verify = refl
parse_action-action_value challenge_liveness = refl
parse_action-action_value enroll = refl
parse_action-action_value add_template = refl
parse_action-action_value verify = refl
parse_action-action_value liveness = refl
parse_action-action_value list_templates = refl
parse_action-action_value revoke_templates = refl
parse_action-action_value grant_consent = refl
parse_action-action_value withdraw_consent = refl
parse_action-action_value request_capture_deletion = refl
parse_action-action_value read_receipt = refl
parse_action-action_value list_captures = refl
parse_action-action_value read_capture = refl
parse_action-action_value read_diagnostics = refl
parse_action-action_value read_frame = refl
parse_action-action_value read_aggregates = refl

find_action-eq_some :
    (s : String) (actions : List Action) (a : Action)
    → find_action s actions ≡ some a
    → action_value a ≡ s
unfolding find_action
find_action-eq_some s [] a h = cc
find_action-eq_some s (b ∷ rest) a h =
    ground (arith, eq_iff (action_value b) s, find_action-eq_some s rest a)

pub parse_action-eq_some : (s : String) (a : Action) → parse_action s ≡ some a → action_value a ≡ s
parse_action-eq_some s a = unfold parse_action in find_action-eq_some s all_actions a
