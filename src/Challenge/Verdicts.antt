-- ===== src/Challenge/Verdicts.antt =====
-- When a challenge is accepted, and what a check does to the dictionary.
use factech.Base.{
  ℕ, ◌≤◌, Bool, true, false, Option, none, some, String, lookup, insert, lookup-insert, ◌==◌,
  string_eq, eq_iff, ◌≡◌, ◌≢◌, ◌↔◌, ◌⊎◌, inl, inr, refl, arith, Option-cases, if◌then◌else◌,
}
use factech.Numbers.{Floats}
use factech.Challenge.{
  Action, Presented, Record, Issued, action_name, is_action, names, misbound, mark, judge, check,
  params_match, look_left, look_right, move_closer, blink_twice, head_sequence,
}

abbrev pub marked : {F : Type 0} → Bool → Option (Record F) → Option (Record F)
marked false o = o
marked true none = none
marked true (some rec) = some (mark rec)

lookup-missing :
    {F : Type 0} (nonce j : String) (spend : Bool) (d : Issued F)
    → lookup nonce d ≡ none
    → lookup j d ≡ (if nonce == j then marked spend (lookup j d) else lookup j d)
lookup-missing nonce j true d e = ground (arith, eq_iff nonce j, e)
lookup-missing nonce j false d e = ground (arith, eq_iff nonce j)

lookup-spent :
    {F : Type 0} (nonce j : String) (spend : Bool) (d : Issued F) (rec : Record F)
    → lookup nonce d ≡ some rec
    → lookup j (if spend then insert nonce (mark rec) d else d)
      ≡ (if nonce == j then marked spend (lookup j d) else lookup j d)
lookup-spent nonce j true d rec e =
    ground (arith, lookup-insert nonce j (mark rec) d, eq_iff nonce j, e)
lookup-spent nonce j false d rec e = ground (arith, eq_iff nonce j)

module _ {F : Type 0} (fl : Floats F) where
  -- What the record of a nonce has to show.
  pub record Accepts (action : Option String) (presented : Option (Presented F))
      (binding : Option (String × String)) (now : ℕ) (rec : Record F) : Type 0 where
    pub unused : rec.used ≡ false
    pub fresh : now ≤ rec.expires_ms
    pub bound : (binding ≡ none) ⊎ (binding ≡ some rec.binding)
    pub named : action ≡ some (action_name rec.action)
    pub echoed : params_match fl presented rec.params ≡ true

  misbound_iff :
      (binding : Option (String × String)) (b : String × String)
      → (misbound binding b ≡ false) ↔ ((binding ≡ none) ⊎ (binding ≡ some b))
  misbound_iff none b = ((λ h. inl refl), (λ h. refl))
  misbound_iff (some (operation, user_id)) (o, u) = (
    (λ h. inr (ground (arith, eq_iff operation o, eq_iff user_id u))),
    (λ h. ground (arith, eq_iff operation o, eq_iff user_id u)),
  )

  names_iff :
      (action : Option String) (a : Action)
      → (names action a ≡ true) ↔ (action ≡ some (action_name a))
  names_iff none a = ((λ h. cc), (λ h. cc))
  names_iff (some s) a = ground (arith, eq_iff s (action_name a))

  is_action-action_name : (a : Action) → is_action (some (action_name a)) ≡ true
  is_action-action_name look_left = refl
  is_action-action_name look_right = refl
  is_action-action_name move_closer = refl
  is_action-action_name blink_twice = refl
  is_action-action_name head_sequence = refl

  module _ (nonce : String) (action : Option String) (spend : Bool)
      (presented : Option (Presented F)) (binding : Option (String × String)) (now : ℕ) where
    judge_tests :
        (rec : Record F)
        → ((judge fl nonce action spend presented binding now rec).ok ≡ true) ↔ (
            (rec.used ≡ false)
            × (now ≤ rec.expires_ms)
            × (misbound binding rec.binding ≡ false)
            × (is_action action ≡ true)
            × (names action rec.action ≡ true)
            × (params_match fl presented rec.params ≡ true))
    unfolding judge
    judge_tests rec = ((λ h. ground arith), (λ h. ground arith))

    judge_ok_iff :
        (rec : Record F)
        → ((judge fl nonce action spend presented binding now rec).ok ≡ true)
          ↔ Accepts action presented binding now rec
    judge_ok_iff rec = (
      (λ h.
          let (unused, fresh, bound, _, named, echoed) = (judge_tests rec).0 h in
          record {
            unused = unused;
            fresh = fresh;
            bound = (misbound_iff binding rec.binding).0 bound;
            named = (names_iff action rec.action).0 named;
            echoed = echoed;
          }),
      (λ h. (judge_tests rec).1 (
        h.unused,
        h.fresh,
        (misbound_iff binding rec.binding).1 h.bound,
        rw h.named (is_action-action_name rec.action),
        (names_iff action rec.action).1 h.named,
        h.echoed,
      )),
    )

    pub check-none :
        (d : Issued F)
        → nonce ≢ ""
        → lookup nonce d ≡ none
        → ((check fl nonce action spend presented binding now d).0.ok ≡ false)
          × ((check fl nonce action spend presented binding now d).1 ≡ d)
    unfolding check
    check-none d named e = ground (arith, eq_iff nonce "")

    pub check-some :
        (d : Issued F) (rec : Record F)
        → nonce ≢ ""
        → lookup nonce d ≡ some rec
        → check fl nonce action spend presented binding now d ≡ (
          judge fl nonce action spend presented binding now rec,
          (if spend then insert nonce (mark rec) d else d),
        )
    unfolding check
    check-some d rec named e = ground (arith, eq_iff nonce "")

    pub check-blank_parts :
        (d : Issued F)
        → nonce ≡ ""
        → ((check fl nonce action spend presented binding now d).0.ok ≡ false)
          × ((check fl nonce action spend presented binding now d).1 ≡ d)
    unfolding check
    check-blank_parts d e = ground (arith, eq_iff nonce "")

    -- A check accepts exactly a nonce that is not blank and is in the dictionary, with a record that
    -- is unused, not past its expiry (which is inclusive), bound to the operation and user asked for
    -- where any are, of the action named, and with its parameters echoed.
    pub check_ok_iff :
        (d : Issued F)
        → ((check fl nonce action spend presented binding now d).0.ok ≡ true) ↔ (
            (nonce ≢ "")
            × ((rec : Record F) × (lookup nonce d ≡ some rec)
                × Accepts action presented binding now rec))
    check_ok_iff d = (to, from)
      where
        found :
            nonce ≢ ""
            → (check fl nonce action spend presented binding now d).0.ok ≡ true
            → (rec : Record F) × (lookup nonce d ≡ some rec)
              × Accepts action presented binding now rec
        found named h = elim (Option-cases (lookup nonce d)) [
          | inl e ↦ absurd (cc ((check-none d named e).0))
          | inr (rec, e) ↦ (rec, e, (judge_ok_iff rec).0 (rw (check-some d rec named e) at h))
        ]

        to :
            (check fl nonce action spend presented binding now d).0.ok ≡ true
            → (nonce ≢ "")
              × ((rec : Record F) × (lookup nonce d ≡ some rec)
                  × Accepts action presented binding now rec)
        to h =
            let named : nonce ≢ "" = λ e. cc ((check-blank_parts d e).0) in (named, found named h)

        from :
            (nonce ≢ "")
              × ((rec : Record F) × (lookup nonce d ≡ some rec)
                  × Accepts action presented binding now rec)
            → (check fl nonce action spend presented binding now d).0.ok ≡ true
        from (named, (rec, e, ok)) = rw (check-some d rec named e) ((judge_ok_iff rec).1 ok)

    -- Whatever its verdict, a check that spends marks the record of its nonce, and leaves every
    -- other record alone; one that does not spend changes nothing.
    pub lookup-check :
        (d : Issued F) (j : String)
        → nonce ≢ ""
        → lookup j (check fl nonce action spend presented binding now d).1
          ≡ (if nonce == j then marked spend (lookup j d) else lookup j d)
    lookup-check d j named = elim (Option-cases (lookup nonce d)) [
      | inl e ↦ rw ((check-none d named e).1) (lookup-missing nonce j spend d e)
      | inr (rec, e) ↦ rw (check-some d rec named e) (lookup-spent nonce j spend d rec e)
    ]

    -- A blank nonce is refused, and nothing changes.
    pub check-blank :
        (d : Issued F) → nonce ≡ "" → (check fl nonce action spend presented binding now d).1 ≡ d
    check-blank d e = (check-blank_parts d e).1
