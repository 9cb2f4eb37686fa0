-- ===== src/Challenge/Fresh.antt =====
-- A challenge that is echoed in time is accepted; what is drawn for it lies in its ranges.
use factech.Base.{
  ℕ, zero, suc, ◌+◌, ◌≤◌, Bool, true, false, none, some, String, lookup, string_eq, int_eq, pos,
  negsuc, ◌≡◌, ◌≢◌, ◌⊎◌, inl, inr, refl, arith, beq_refl,
}
use factech.Numbers.{Floats, IsReflexive, Random}
use factech.Challenge.{
  Action, Policy, Issued, Params, items, action_name, check, params_match, look_left, look_right,
  head_sequence, single_turn_glow_v1, single_turn_v1, head_sequence_policy, expiry_ms, put,
}
use factech.Challenge.Echo.{head, single, target_of}
use factech.Challenge.Verdicts.{check_ok_iff}
use factech.Challenge.Table.{put_table}
use factech.Challenge.Issue.{
  draw_action, draw_glow, draw_params, draw_record, issue, turn, sign, is_single_turn_policy,
}

module _ {F : Type 0} (fl : Floats F) where
  params_match-items :
      (p : Params F)
      → IsReflexive fl 1 1000000 (target_of p)
      → params_match fl (some (items p)) p ≡ true
  unfolding params_match lookup
  params_match-items (head settle switch first target) h =
      ground (arith, h.eq_self, beq_refl (pos settle), beq_refl (pos switch), beq_refl first)
  params_match-items (single settle target) h = ground (arith, h.near_self, beq_refl (pos settle))

  module _ (r : Random) where
    -- A challenge is accepted that comes back within its lifetime, under its own name, for the
    -- operation and user that it was issued to, with its parameters as they were handed out;
    -- whatever was issued before it, and under every policy.
    pub check-issue :
        (policy : Policy) (operation user_id nonce : String) (now later : ℕ) (spend : Bool)
        (d : Issued F)
        → nonce ≢ ""
        → later ≤ now + expiry_ms
        → IsReflexive fl 1 1000000 (target_of (draw_params r fl (draw_action r policy)))
        → let (rec, d') = issue r fl policy operation user_id nonce now d in
          (check fl nonce
            (some (action_name rec.action))
            spend
            (some (items rec.params))
            (some (operation, user_id))
            later
            d').0.ok
          ≡ true
    unfolding issue
    check-issue policy operation user_id nonce now later spend d named le h =
        let rec = draw_record r fl policy operation user_id now in
        (check_ok_iff fl nonce (some (action_name rec.action)) spend (some (items rec.params))
            (some (operation, user_id)) later (put now nonce rec d)).1
          (
            named,
            (
              rec,
              (put_table now nonce nonce rec rec d).1,
              record {
                unused = refl;
                fresh = le;
                bound = inr refl;
                named = refl;
                echoed = params_match-items (draw_params r fl (draw_action r policy)) h;
              },
            ),
          )

    -- What a policy may ask for: HEAD_SEQUENCE with its fixed hold and target, a switch at 9.0, 9.2
    -- or 9.4 s and a side to begin with; or a turn to one side after a hold of 1.2 to 2 s.
    abbrev pub IsDrawn : Policy → Action → Params F → Type 0
    IsDrawn head_sequence_policy action (head settle switch first target) =
        (action ≡ head_sequence)
        × (settle ≡ 3200)
        × (9000 ≤ switch)
        × (switch ≤ 9400)
        × ((first ≡ pos 1) ⊎ (first ≡ negsuc 0))
    IsDrawn head_sequence_policy action (single settle target) = ⊥
    IsDrawn _ action (head settle switch first target) = ⊥
    IsDrawn _ action (single settle target) =
        ((action ≡ look_left) ⊎ (action ≡ look_right)) × (1200 ≤ settle) × (settle ≤ 2000)

    sign_cases : (i : ℕ) → (sign i ≡ pos 1) ⊎ (sign i ≡ negsuc 0)
    sign_cases zero = inr refl
    sign_cases (suc i) = inl refl

    turn-IsDrawn :
        (policy : Policy) (i : ℕ)
        → is_single_turn_policy policy ≡ true
        → IsDrawn policy (turn i) (draw_params r fl (turn i))
    unfolding draw_params
    turn-IsDrawn single_turn_v1 zero e =
        (inl refl, omega (arith, r.below-lt 1 801), omega (arith, r.below-lt 1 801))
    turn-IsDrawn single_turn_v1 (suc i) e =
        (inr refl, omega (arith, r.below-lt 1 801), omega (arith, r.below-lt 1 801))
    turn-IsDrawn single_turn_glow_v1 zero e =
        (inl refl, omega (arith, r.below-lt 1 801), omega (arith, r.below-lt 1 801))
    turn-IsDrawn single_turn_glow_v1 (suc i) e =
        (inr refl, omega (arith, r.below-lt 1 801), omega (arith, r.below-lt 1 801))
    turn-IsDrawn head_sequence_policy i e = absurd (cc)

    head-IsDrawn : IsDrawn head_sequence_policy head_sequence (draw_params r fl head_sequence)
    unfolding draw_params
    head-IsDrawn =
        (refl, refl, omega arith, omega (arith, r.below-lt 0 3), sign_cases (r.below 1 2))

    turn_glow : (i : ℕ) → draw_glow r single_turn_glow_v1 (turn i) ≢ none
    unfolding draw_glow
    turn_glow zero e = cc
    turn_glow (suc i) e = cc

    -- Every issued challenge asks for what its policy may ask for, carries a glow exactly under the
    -- glow policy, expires 30 s after it was issued and is unused.
    pub issue-IsDrawn :
        (policy : Policy) (operation user_id nonce : String) (now : ℕ) (d : Issued F)
        → let rec = (issue r fl policy operation user_id nonce now d).0 in
          IsDrawn policy rec.action rec.params
          × (rec.used ≡ false)
          × (rec.expires_ms ≡ now + 30000)
          × ((rec.glow ≢ none → policy ≡ single_turn_glow_v1)
              × (policy ≡ single_turn_glow_v1 → rec.glow ≢ none))
    unfolding issue draw_action draw_glow
    issue-IsDrawn head_sequence_policy operation user_id nonce now d =
        (head-IsDrawn, refl, refl, ((λ n. absurd (n refl)), (λ e. absurd (cc e))))
    issue-IsDrawn single_turn_v1 operation user_id nonce now d = (
      turn-IsDrawn single_turn_v1 (r.below 0 2) refl,
      refl,
      refl,
      ((λ n. absurd (n refl)), (λ e. absurd (cc e))),
    )
    issue-IsDrawn single_turn_glow_v1 operation user_id nonce now d = (
      turn-IsDrawn single_turn_glow_v1 (r.below 0 2) refl,
      refl,
      refl,
      ((λ n. refl), (λ e. turn_glow (r.below 0 2))),
    )
