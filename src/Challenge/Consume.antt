-- ===== src/Challenge/Consume.antt =====
-- What the two readings of a challenge out of a scan promise.
use factech.Base.{
  Bool, sym, ap, ◌==◌, eq_iff, Option-cases, inl, inr, ℕ, ◌+◌, ◌≤◌, true, false, Option, none, some,
  List, [], ◌∷◌, String, lookup, string_eq, beq_refl, ◌≡◌, ◌≢◌, inl, inr, refl, ◌∙◌, arith,
  Bool-cases,
}
use factech.Numbers.{Floats}
use factech.Challenge.{
  Presented, Record, Issued, Verdict, check, mark, verdict, capture_before_issue,
}
use factech.Challenge.Verdicts.{
  Accepts, check_ok_iff, lookup-check, check-none, check-some, check-blank,
}
use factech.Challenge.Scan.{
  Scan, presented, too_long, last, with_binding, recheck, consume_from_scan, inspect_from_scan,
}

-- The frames span no more than the age of the challenge and a quarter of a second.
abbrev pub Timely : ℕ → ℕ → List ℕ → Type 0
Timely later issued_ms [] = issued_ms ≤ later + 250
Timely later issued_ms (first ∷ rest) = last first rest + issued_ms ≤ later + 250 + first

too_long_iff :
    (later issued_ms : ℕ) (ts : List ℕ)
    → too_long later issued_ms ts ≡ false
    → Timely later issued_ms ts
unfolding too_long
too_long_iff later issued_ms [] h = ground arith
too_long_iff later issued_ms (first ∷ rest) h = ground arith

-- Two tests that pass alike are one.
true_iff : {a b : Bool} → (a ≡ true → b ≡ true) → (b ≡ true → a ≡ true) → a ≡ b
true_iff {a} {b} to from = elim (Bool-cases a) [
  | inl e ↦ e ∙ sym (to e)
  | inr e ↦ elim (Bool-cases b) [ inl f ↦ from f ∙ sym f | inr f ↦ e ∙ sym f ]
]

module _ {F : Type 0} (fl : Floats F) (scan : Scan F) (binding : Option (String × String))
    (now later : ℕ) (d : Issued F) where
  -- The three parts that are read of the scan.
  abbrev pub nonce_of : String
  nonce_of = (presented scan.challenge).0

  abbrev pub action_of : Option String
  action_of = (presented scan.challenge).1

  abbrev pub params_of : Option (Presented F)
  params_of = (presented scan.challenge).2

  abbrev checked : Verdict F × Issued F
  checked = check fl nonce_of action_of true params_of binding now d

  -- An accepted scan: its nonce was there and fit to use, it is now marked as used, and a scan that
  -- is bound spans no more time than has passed.
  pub record IsConsumed (d' : Issued F) : Type 0 where
    pub rec : Record F
    pub found : lookup nonce_of d ≡ some rec
    pub fits : Accepts fl action_of params_of binding now rec
    pub spent : lookup nonce_of d' ≡ some (mark rec)
    pub timely : with_binding binding ≡ true → Timely later rec.issued_ms scan.ts_ms

  record Found : Type 0 where
    named : nonce_of ≢ ""
    rec : Record F
    found : lookup nonce_of d ≡ some rec
    fits : Accepts fl action_of params_of binding now rec
    spent : lookup nonce_of checked.1 ≡ some (mark rec)

  Found-of_ok : checked.0.ok ≡ true → Found
  Found-of_ok ok =
      let (named, (rec, e, a)) =
        (check_ok_iff fl nonce_of action_of true params_of binding now d).0 ok in
      record {
        named = named;
        rec = rec;
        found = e;
        fits = a;
        spent =
            lookup-check fl nonce_of action_of true params_of binding now d nonce_of named
            ∙ rw (beq_refl nonce_of, e);
      }

  state-consume : (consume_from_scan fl scan binding now later d).1 ≡ checked.1
  unfolding consume_from_scan
  state-consume = ground arith

  consume_ok :
      (v : Verdict F)
      → (consume_from_scan fl scan binding now later d).0 ≡ some v
      → v.ok ≡ true
      → (checked.0.ok ≡ true)
        × (with_binding binding ≡ true
            → (rec : Record F) → lookup nonce_of checked.1 ≡ some rec
            → too_long later rec.issued_ms scan.ts_ms ≡ false)
  unfolding consume_from_scan
  consume_ok v e ok = (ground arith, λ b rec f. ground arith)

  -- If `consume_from_scan` accepts a scan, the record of its nonce was there and accepts what the scan
  -- presents, as `check` tells, and that record is now marked as used; and where the scan was given with
  -- a binding, its frames span at most 250 milliseconds more than the age of the challenge.
  pub consume-IsConsumed :
      (v : Verdict F)
      → (consume_from_scan fl scan binding now later d).0 ≡ some v
      → v.ok ≡ true
      → IsConsumed (consume_from_scan fl scan binding now later d).1
  consume-IsConsumed v e ok =
      let (checked_ok, timely) = consume_ok v e ok in
      let f = Found-of_ok checked_ok in
      record {
        rec = f.rec;
        found = f.found;
        fits = f.fits;
        spent = rw state-consume f.spent;
        timely = λ b. too_long_iff later f.rec.issued_ms scan.ts_ms (timely b (mark f.rec) f.spent);
      }

  recheck-some :
      (rec : Record F)
      → (v : Verdict F) × (recheck action_of params_of nonce_of later scan.ts_ms checked.0
            (some rec)
          ≡ some v)
  unfolding recheck
  recheck-some rec = elim (Bool-cases (too_long later rec.issued_ms scan.ts_ms)) [
    | inl e ↦ (
      verdict false (some capture_before_issue) action_of action_of nonce_of true params_of none,
      rw e,
    )
    | inr e ↦ (checked.0, rw e)
  ]

  -- The record read for the age is there, so that the KeyError is never raised.
  pub consume_total : (v : Verdict F) × ((consume_from_scan fl scan binding now later d).0 ≡ some v)
  unfolding consume_from_scan
  consume_total = elim (Bool-cases checked.0.ok) [
    | inr refused ↦ rw refused (checked.0, refl)
    | inl ok ↦ elim (Bool-cases (with_binding binding)) [
      | inr free ↦ rw (ok, free) (checked.0, refl)
      | inl bound ↦
          rw (ok, bound, (Found-of_ok ok).spent) (recheck-some (mark (Found-of_ok ok).rec))
    ]
  ]

  inspected : Verdict F × Issued F
  inspected = check fl nonce_of action_of false params_of none now d

  inspect-state : inspected.1 ≡ d
  unfolding inspected
  inspect-state = elim (Bool-cases (nonce_of == "")) [
    | inl q ↦
        check-blank fl nonce_of action_of false params_of none now d ((eq_iff nonce_of "").0 q)
    | inr q ↦
        let named : nonce_of ≢ "" = λ e. ground (arith, eq_iff nonce_of "", q, e) in
        elim (Option-cases (lookup nonce_of d)) [
          | inl e ↦ (check-none fl nonce_of action_of false params_of none now d named e).1
          | inr (rec, e) ↦
              ap (λ (r : Verdict F × Issued F). r.1)
                (check-some fl nonce_of action_of false params_of none now d rec named e)
        ]
  ]

  -- Inspection changes nothing, and accepts whatever spending would accept without a binding.
  pub inspect_agrees :
      ((inspect_from_scan fl scan now d).1 ≡ d)
      × ((inspect_from_scan fl scan now d).0.ok
          ≡ (check fl nonce_of action_of true params_of none now d).0.ok)
  unfolding inspect_from_scan inspected
  inspect_agrees = (
    inspect-state,
    true_iff
        (λ h.
          (check_ok_iff fl nonce_of action_of true params_of none now d).1
            ((check_ok_iff fl nonce_of action_of false params_of none now d).0 h))
        (λ h.
          (check_ok_iff fl nonce_of action_of false params_of none now d).1
            ((check_ok_iff fl nonce_of action_of true params_of none now d).0 h)),
  )
