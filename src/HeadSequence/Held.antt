-- ===== src/HeadSequence/Held.antt =====
-- What a sequence of frames shows that engine/app/head_sequence.py accepts, by either of its gates.
use factech.Base.{
  ℕ, zero, suc, ◌+◌, ◌-◌, ◌≤◌, ℤ, Bool, true, false, not, ◌&&◌, ◌||◌, Option, none, some, List, [],
  ◌∷◌, String, ◌==◌, string_eq, any, ltb, nat_beq, nat_beq_iff, All, Member, here, there,
  Bool-cases, inl, inr, ◌⊎◌, ◌≡◌, refl, sym, ap, ◌∙◌, subst, arith, if◌then◌else◌,
}
use factech.Numbers.{Floats}
use factech.HeadSequence.{
  Reason, Phase, phase_beq, phase_of, diff, first_ts, span_of, in_time, in_phase, keep_if, collect,
  has_successive, Cue, opposite, baseline, is_off_centre, is_moving, lean, holding, is_against,
  turn, or_else, window, has_few, validate, hints, inliers, has_started, turn_guided,
  validate_guided, validate_for,
}

-- The entry at an index.
unfoldable pub get_elem? {ℓ} : {A : Type ℓ} → List A → ℕ → Option A
get_elem? [] n = none
get_elem? (x ∷ xs) zero = some x
get_elem? (x ∷ xs) (suc n) = get_elem? xs n

phase_beq_iff : (p q : Phase) → phase_beq p q ≡ true → q ≡ p
phase_beq_iff Phase.settled Phase.settled h = refl
phase_beq_iff Phase.first_turn Phase.first_turn h = refl
phase_beq_iff Phase.second_turn Phase.second_turn h = refl
phase_beq_iff Phase.settled Phase.first_turn h = absurd (cc)
phase_beq_iff Phase.settled Phase.second_turn h = absurd (cc)
phase_beq_iff Phase.first_turn Phase.settled h = absurd (cc)
phase_beq_iff Phase.first_turn Phase.second_turn h = absurd (cc)
phase_beq_iff Phase.second_turn Phase.settled h = absurd (cc)
phase_beq_iff Phase.second_turn Phase.first_turn h = absurd (cc)

in_phase-ok : (p : Phase) (q : Option Phase) → in_phase p q ≡ true → q ≡ some p
in_phase-ok p none h = absurd (cc)
in_phase-ok p (some q) h = ap some (phase_beq_iff p q h)

-- Frame `i` is in the window and has the pose.
abbrev pub IsShown : {A : Type 0} → ℕ → ℕ → Phase → ℕ → List ℕ → List (Option A) → ℕ → A → Type 0
IsShown settle switch p origin ts poses i pose =
    (t : ℕ) × (get_elem? ts i ≡ some t)
    × (get_elem? poses i ≡ some (some pose))
    × (phase_of settle switch (t - origin) ≡ some p)

keep_if-cases :
    {A : Type 0} (b : Bool) (i : ℕ) (o : Option A) (rest : List (ℕ × A)) (v : ℕ × A)
    → Member v (keep_if b i o rest)
    → ((b ≡ true) × (o ≡ some v.1) × (v.0 ≡ i)) ⊎ Member v rest
keep_if-cases true i (some pose) rest v here = inl (refl, refl, refl)
keep_if-cases true i (some pose) rest v (there m) = inr m
keep_if-cases true i none rest v m = inr m
keep_if-cases false i o rest v m = inr m

-- What is collected are frames of the window.
collect-IsShown :
    {A : Type 0} (settle switch : ℕ) (p : Phase) (origin k : ℕ) (ts : List ℕ)
    (poses : List (Option A)) (v : ℕ × A)
    → Member v (collect settle switch p origin k ts poses)
    → (j : ℕ) × (v.0 ≡ k + j) × IsShown settle switch p origin ts poses j v.1
unfolding collect get_elem?
collect-IsShown settle switch p origin k [] poses v m = elim m [ ]
collect-IsShown settle switch p origin k (t ∷ ts) [] v m = elim m [ ]
collect-IsShown settle switch p origin k (t ∷ ts) (pose ∷ poses) v m =
    elim (keep_if-cases (in_phase p (phase_of settle switch (t - origin))) k pose
      (collect settle switch p origin (suc k) ts poses) v m) [
        | inl (e, o, i) ↦ (
          0,
          i ∙ omega arith,
          (t, refl, ap some o, in_phase-ok p (phase_of settle switch (t - origin)) e),
        )
        | inr n ↦
            let (j, i, shown) = collect-IsShown settle switch p origin (suc k) ts poses v n in
            (suc j, i ∙ omega arith, shown)
      ]

successive :
    (valid : List ℕ) → has_successive valid ≡ true → (i : ℕ) × Member i valid × Member (i + 1) valid
unfolding has_successive
successive [] h = absurd (cc)
successive (a ∷ []) h = absurd (cc)
successive (a ∷ b ∷ rest) h = elim (Bool-cases (nat_beq b (a + 1))) [
  | inl e ↦ (a, here, there (subst (λ n. Member n (b ∷ rest)) ((nat_beq_iff b (a + 1)).0 e) here))
  | inr e ↦ let (i, m, n) = successive (b ∷ rest) (rw e at h) in (i, there m, there n)
]

Member-cases : {A : Type 0} {x y : A} {xs : List A} → Member x (y ∷ xs) → (x ≡ y) ⊎ Member x xs
Member-cases here = inl refl
Member-cases (there m) = inr m

or_else-none : {A : Type 0} (a b : Option A) → or_else a b ≡ none → (a ≡ none) × (b ≡ none)
or_else-none none b h = (refl, h)
or_else-none (some x) b h = absurd (cc)

hints-none : {A : Type 0} (o : Option (A × String)) → hints o ≡ none → o ≡ none
hints-none none h = refl
hints-none (some (reason, hint)) h = absurd (cc)

-- The stages of a gate, all passed.
staged :
    {A : Type 0} (b c d : Bool) (x y z : A) (o : Option A)
    → (if not b then some x else if c then some y else if d then some z else o) ≡ none
    → (b ≡ true) × (o ≡ none)
staged true false false x y z o h = (refl, h)
staged true true d x y z o h = absurd (cc)
staged true false true x y z o h = absurd (cc)
staged false c d x y z o h = absurd (cc)

All-of_none : (p : ℕ → Bool) (xs : List ℕ) → any p xs ≡ false → All (λ x. p x ≡ false) xs
All-of_none p [] h = tt
All-of_none p (x ∷ xs) h = (ground arith, All-of_none p xs (ground arith))

in_time-parts :
    (ts : List ℕ)
    → in_time ts ≡ true
    → (15000 ≤ span_of ts)
      × (span_of ts ≤ 20000)
      × All (λ gap. (1100 ≤ gap) × (gap ≤ 1900)) (diff ts)
unfolding in_time
in_time-parts ts h = (
  ground (arith, h),
  ground (arith, h),
  All-and (diff ts) (All-of_none (λ gap. ltb gap 1100) (diff ts) (ground (arith, h)))
      (All-of_none (λ gap. ltb 1900 gap) (diff ts) (ground (arith, h))),
)
  where
    All-and :
        (gaps : List ℕ)
        → All (λ gap. ltb gap 1100 ≡ false) gaps
        → All (λ gap. ltb 1900 gap ≡ false) gaps
        → All (λ gap. (1100 ≤ gap) × (gap ≤ 1900)) gaps
    All-and [] a b = tt
    All-and (g ∷ gs) a b = ((ground (arith, a.0), ground (arith, b.0)), All-and gs a.1 b.1)

module _ {F : Type 0} (fl : Floats F) (median : List F → F) where
  holding-Member :
      (target : F) (base : F × F) (sign : ℤ) (values : List (ℕ × (F × F))) (i : ℕ)
      → Member i (holding fl median target base sign values)
      → (pose : F × F) × Member (i, pose) values
        × (fl.le target (lean fl median base sign pose) ≡ true)
  unfolding holding
  holding-Member target base sign [] i m = elim m [ ]
  holding-Member target base sign ((j, pose) ∷ rest) i m =
      elim (Bool-cases (fl.le target (lean fl median base sign pose))) [
        | inl e ↦ elim (Member-cases (rw e at m)) [
          | inl same ↦ (pose, subst (λ n. Member (n, pose) ((j, pose) ∷ rest)) (sym same) here, e)
          | inr n ↦
              let (shown, k, le) = holding-Member target base sign rest i n in (shown, there k, le)
        ]
        | inr e ↦
            let (shown, k, le) = holding-Member target base sign rest i (rw e at m) in
            (shown, there k, le)
      ]

  turn-held :
      (second : Bool) (target : F) (base : F × F) (sign : ℤ) (values : List (ℕ × (F × F)))
      → turn fl median second target base sign values ≡ none
      → has_successive (holding fl median target base sign values) ≡ true
  unfolding turn
  turn-held second target base sign values h =
      elim (Bool-cases (has_successive (holding fl median target base sign values))) [
        | inl e ↦ e
        | inr e ↦ let h' = rw e at h in absurd (cc)
      ]

  turn_guided-held :
      (target : F) (base : F × F) (sign : ℤ) (values : List (ℕ × (F × F)))
      → turn_guided fl median target base sign values ≡ none
      → has_successive (holding fl median target base sign values) ≡ true
  unfolding turn_guided
  turn_guided-held target base sign values h =
      elim (Bool-cases (
        any
          (λ v.
            is_against fl median target base sign v
            && has_started (holding fl median target base sign values) v.0)
          values)) [
            | inl f ↦ let h' = rw f at h in absurd (cc)
            | inr f ↦
                elim (Bool-cases (has_successive (holding fl median target base sign values))) [
                  | inl e ↦ e
                  | inr e ↦ let h' = rw (f, e) at h in absurd (cc)
                ]
          ]

  -- Two successive frames of the window lean by the target at least, to the side of the sign.
  abbrev pub IsHeld : Cue F → List ℕ → List (Option (F × F)) → Phase → ℤ → Type 0
  IsHeld cue ts poses p sign =
      (i : ℕ) × (a : F × F) × (b : F × F) × IsShown cue.settle_ms cue.switch_ms p (first_ts ts) ts
        poses i a
      × IsShown cue.settle_ms cue.switch_ms p (first_ts ts) ts poses (i + 1) b
      × (fl.le cue.target (
            lean fl median (baseline fl median (window fl median cue Phase.settled ts poses)) sign
              a)
          ≡ true)
      × (fl.le cue.target (
            lean fl median (baseline fl median (window fl median cue Phase.settled ts poses)) sign
              b)
          ≡ true)

  window-IsShown :
      (cue : Cue F) (ts : List ℕ) (poses : List (Option (F × F))) (p : Phase) (i : ℕ) (pose : F × F)
      → Member (i, pose) (window fl median cue p ts poses)
      → IsShown cue.settle_ms cue.switch_ms p (first_ts ts) ts poses i pose
  window-IsShown cue ts poses p i pose m =
      let (j, e, shown) =
        collect-IsShown cue.settle_ms cue.switch_ms p (first_ts ts) 0 ts poses (i, pose) m in
      subst (λ n. IsShown cue.settle_ms cue.switch_ms p (first_ts ts) ts poses n pose)
        (sym (e ∙ omega arith)) shown

  held :
      (cue : Cue F) (ts : List ℕ) (poses : List (Option (F × F))) (p : Phase) (sign : ℤ)
      → has_successive (
          holding fl median cue.target
            (baseline fl median (window fl median cue Phase.settled ts poses))
            sign
            (window fl median cue p ts poses))
        ≡ true
      → IsHeld cue ts poses p sign
  held cue ts poses p sign h =
      let base = baseline fl median (window fl median cue Phase.settled ts poses) in
      let (i, m, n) =
        successive (holding fl median cue.target base sign (window fl median cue p ts poses)) h in
      let (a, k, le) = holding-Member cue.target base sign (window fl median cue p ts poses) i m in
      let (b, k', le') =
        holding-Member cue.target base sign (window fl median cue p ts poses) (i + 1) n in
      (
        i,
        a,
        b,
        window-IsShown cue ts poses p i a k,
        window-IsShown cue ts poses p (i + 1) b k',
        le,
        le',
      )

  -- What an accepted sequence is: paced, and with both turns in their windows and in their order.
  abbrev pub IsSequence : Cue F → List ℕ → List (Option (F × F)) → Type 0
  IsSequence cue ts poses =
      (15000 ≤ span_of ts)
      × (span_of ts ≤ 20000)
      × All (λ gap. (1100 ≤ gap) × (gap ≤ 1900)) (diff ts)
      × IsHeld cue ts poses Phase.first_turn cue.first_sign
      × IsHeld cue ts poses Phase.second_turn (opposite cue.first_sign)

  held_both :
      (cue : Cue F) (ts : List ℕ) (poses : List (Option (F × F)))
      → in_time ts ≡ true
      → has_successive (
          holding fl median cue.target
            (baseline fl median (window fl median cue Phase.settled ts poses))
            cue.first_sign
            (window fl median cue Phase.first_turn ts poses))
        ≡ true
      → has_successive (
          holding fl median cue.target
            (baseline fl median (window fl median cue Phase.settled ts poses))
            (opposite cue.first_sign)
            (window fl median cue Phase.second_turn ts poses))
        ≡ true
      → IsSequence cue ts poses
  held_both cue ts poses paced first second =
      let (low, high, gaps) = in_time-parts ts paced in
      (
        low,
        high,
        gaps,
        held cue ts poses Phase.first_turn cue.first_sign first,
        held cue ts poses Phase.second_turn (opposite cue.first_sign) second,
      )

  validate-IsSequence :
      (cue : Cue F) (ts : List ℕ) (poses : List (Option (F × F)))
      → validate fl median cue ts poses ≡ none
      → IsSequence cue ts poses
  unfolding validate
  validate-IsSequence cue ts poses h =
      let first_part =
        turn fl median false cue.target
          (baseline fl median (window fl median cue Phase.settled ts poses)) cue.first_sign
          (window fl median cue Phase.first_turn ts poses) in
      let second_part =
        turn fl median true cue.target
          (baseline fl median (window fl median cue Phase.settled ts poses))
          (opposite cue.first_sign) (window fl median cue Phase.second_turn ts poses) in
      let (paced, turns) =
        staged (in_time ts) (has_few fl median cue ts poses)
          (is_off_centre fl median (fl.ratio 3 10)
              (baseline fl median (window fl median cue Phase.settled ts poses))
            || is_moving fl median (window fl median cue Phase.settled ts poses))
          Reason.timing Reason.phase_coverage Reason.not_frontal_and_still
          (or_else first_part second_part) h in
      let (first, second) = or_else-none first_part second_part turns in
      held_both cue ts poses paced
        (turn-held false cue.target
          (baseline fl median (window fl median cue Phase.settled ts poses)) cue.first_sign
          (window fl median cue Phase.first_turn ts poses) first)
        (turn-held true cue.target
          (baseline fl median (window fl median cue Phase.settled ts poses))
          (opposite cue.first_sign) (window fl median cue Phase.second_turn ts poses) second)

  validate_guided-IsSequence :
      (cue : Cue F) (ts : List ℕ) (poses : List (Option (F × F)))
      → validate_guided fl median cue ts poses ≡ none
      → IsSequence cue ts poses
  unfolding validate_guided
  validate_guided-IsSequence cue ts poses h =
      let first_part =
        turn_guided fl median cue.target
          (baseline fl median (window fl median cue Phase.settled ts poses)) cue.first_sign
          (window fl median cue Phase.first_turn ts poses) in
      let second_part =
        turn_guided fl median cue.target
          (baseline fl median (window fl median cue Phase.settled ts poses))
          (opposite cue.first_sign) (window fl median cue Phase.second_turn ts poses) in
      let (paced, turns) =
        staged (in_time ts) (has_few fl median cue ts poses)
          (is_off_centre fl median (fl.ratio 1 4)
              (baseline fl median (window fl median cue Phase.settled ts poses))
            || ltb
                (inliers fl median
                  (baseline fl median (window fl median cue Phase.settled ts poses))
                  (window fl median cue Phase.settled ts poses))
                2)
          (Reason.timing, "try_again") (Reason.phase_coverage, "try_again")
          (Reason.not_frontal_and_still, "hold_still") (or_else first_part second_part) h in
      let (first, second) = or_else-none first_part second_part turns in
      held_both cue ts poses paced
        (turn_guided-held cue.target
          (baseline fl median (window fl median cue Phase.settled ts poses)) cue.first_sign
          (window fl median cue Phase.first_turn ts poses) first)
        (turn_guided-held cue.target
          (baseline fl median (window fl median cue Phase.settled ts poses))
          (opposite cue.first_sign) (window fl median cue Phase.second_turn ts poses) second)

  -- Whichever gate is configured, a sequence that it accepts lasts 15 to 20 seconds with steps of 1.1
  -- to 1.9 seconds, and in it two successive frames of the first window lean by the target to the
  -- side of the cue, and two successive frames of the second window to the other side.
  pub validate_for_sound :
      (policy : String) (cue : Cue F) (ts : List ℕ) (poses : List (Option (F × F)))
      → validate_for fl median policy cue ts poses ≡ none
      → IsSequence cue ts poses
  unfolding validate_for
  validate_for_sound policy cue ts poses h =
      elim (Bool-cases (policy == "pad-sequence-v3-guided")) [
        | inl e ↦
            validate_guided-IsSequence cue ts poses
              (hints-none (validate_guided fl median cue ts poses) (rw e at h))
        | inr e ↦ validate-IsSequence cue ts poses (rw e at h)
      ]
