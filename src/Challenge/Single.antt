-- ===== src/Challenge/Single.antt =====
-- A nonce is accepted at most once, whatever happens between two uses of it.
use factech.Base.{
  ℕ, suc, Bool, true, false, Option, none, some, List, [], ◌∷◌, String, lookup, insert,
  lookup-insert, UniqueKeys, UniqueKeys-insert, UniqueKeys-filter, Within, Within-filter,
  Within-rest, length, leb, filter, ◌==◌, string_eq, eq_iff, ◌≡◌, ◌≢◌, inl, inr, sym, ◌∙◌, beq_refl,
  arith, Bool-cases, Option-cases, All, if◌then◌else◌,
}
use factech.Numbers.{Floats}
use factech.Challenge.{
  Record, Issued, Presented, mark, is_kept, shrink, evict, put, check, max_issued_nonces,
}
use factech.Challenge.Verdicts.{
  check_ok_iff, lookup-check, check-blank, check-blank_parts, check-none, check-some, marked,
}

-- One critical section of the program.
pub data Event (F : Type 0) : Type 0 where
  issued : ℕ → String → Record F → Event F
  checked :
      String → Option String → Bool → Option (Presented F) → Option (String × String) → ℕ → Event F
  reset : Event F

module _ {F : Type 0} (fl : Floats F) where
  pub apply : Event F → Issued F → Issued F
  apply (issued now nonce rec) d = put now nonce rec d
  apply (checked nonce action spend presented binding now) d =
      (check fl nonce action spend presented binding now d).1
  apply reset d = []

  pub run : List (Event F) → Issued F → Issued F
  run [] d = d
  run (e ∷ rest) d = run rest (apply e d)

  -- The event does not issue this nonce (again).
  abbrev pub Other : String → Event F → Type 0
  Other nonce (issued now n rec) = n ≢ nonce
  Other nonce _ = Unit

  -- The record of the nonce is marked as used, or is gone.
  abbrev Spent : String → Issued F → Type 0
  Spent nonce d = (rec : Record F) → lookup nonce d ≡ some rec → rec.used ≡ true

module _ {F : Type 0} where
  Within-shrink : (bound : ℕ) (d : Issued F) → UniqueKeys d → Within (shrink bound d) d
  unfolding shrink
  Within-shrink bound [] u = λ k v h. h
  Within-shrink bound ((j, w) ∷ d) u = elim (Bool-cases (leb bound (suc (length d)))) [
    | inl q ↦ rw q (Within-rest j w (shrink bound d) d u.0 (Within-shrink bound d u.1))
    | inr q ↦ rw q (λ k v h. h)
  ]

  UniqueKeys-shrink : (bound : ℕ) (d : Issued F) → UniqueKeys d → UniqueKeys (shrink bound d)
  unfolding shrink
  UniqueKeys-shrink bound [] u = tt
  UniqueKeys-shrink bound (e ∷ d) u = elim (Bool-cases (leb bound (suc (length d)))) [
    | inl q ↦ rw q (UniqueKeys-shrink bound d u.1)
    | inr q ↦ rw q u
  ]

  pub Within-evict : (now : ℕ) (d : Issued F) → UniqueKeys d → Within (evict now d) d
  unfolding evict
  Within-evict now d u k v h = Within-filter (is_kept now) d u k v (
      Within-shrink max_issued_nonces (filter (is_kept now) d) (UniqueKeys-filter (is_kept now) d u)
        k v h)

  pub UniqueKeys-evict : (now : ℕ) (d : Issued F) → UniqueKeys d → UniqueKeys (evict now d)
  unfolding evict
  UniqueKeys-evict now d u =
      UniqueKeys-shrink max_issued_nonces (filter (is_kept now) d)
        (UniqueKeys-filter (is_kept now) d u)

UniqueKeys-if :
    {F : Type 0} (spend : Bool) (nonce : String) (rec : Record F) (d : Issued F)
    → UniqueKeys d
    → UniqueKeys (if spend then insert nonce rec d else d)
UniqueKeys-if true nonce rec d u = UniqueKeys-insert nonce rec d u
UniqueKeys-if false nonce rec d u = u

marked_used :
    {F : Type 0} (spend : Bool) (o : Option (Record F))
    → ((rec : Record F) → o ≡ some rec → rec.used ≡ true)
    → (rec : Record F) → marked spend o ≡ some rec
    → rec.used ≡ true
marked_used false o h rec e = h rec e
marked_used true none h rec e = cc
marked_used true (some old) h rec e = ground arith

marked_spent :
    {F : Type 0} (o : Option (Record F)) (rec : Record F)
    → marked true o ≡ some rec
    → rec.used ≡ true
marked_spent none rec e = cc
marked_spent (some old) rec e = ground arith

module _ {F : Type 0} (fl : Floats F) where
  check-UniqueKeys :
      (nonce : String) (action : Option String) (spend : Bool) (presented : Option (Presented F))
      (binding : Option (String × String)) (now : ℕ) (d : Issued F)
      → UniqueKeys d
      → UniqueKeys (check fl nonce action spend presented binding now d).1
  check-UniqueKeys nonce action spend presented binding now d u = elim (Bool-cases (nonce == "")) [
    | inl q ↦
        rw (check-blank fl nonce action spend presented binding now d ((eq_iff nonce "").0 q)) u
    | inr q ↦
        let named : nonce ≢ "" = λ e. ground (arith, eq_iff nonce "", q, e) in
        elim (Option-cases (lookup nonce d)) [
          | inl e ↦ rw (check-none fl nonce action spend presented binding now d named e).1 u
          | inr (rec, e) ↦
              rw (check-some fl nonce action spend presented binding now d rec named e)
                (UniqueKeys-if spend nonce (mark rec) d u)
        ]
  ]

  pub apply-UniqueKeys : (e : Event F) (d : Issued F) → UniqueKeys d → UniqueKeys (apply fl e d)
  unfolding apply put
  apply-UniqueKeys (issued now nonce rec) d u =
      UniqueKeys-insert nonce rec (evict now d) (UniqueKeys-evict now d u)
  apply-UniqueKeys (checked nonce action spend presented binding now) d u =
      check-UniqueKeys nonce action spend presented binding now d u
  apply-UniqueKeys reset d u = tt

  pub run-UniqueKeys :
      (events : List (Event F)) (d : Issued F) → UniqueKeys d → UniqueKeys (run fl events d)
  unfolding run
  run-UniqueKeys [] d u = u
  run-UniqueKeys (e ∷ rest) d u = run-UniqueKeys rest (apply fl e d) (apply-UniqueKeys e d u)

  Spent-check :
      (nonce n : String) (action : Option String) (spend : Bool) (presented : Option (Presented F))
      (binding : Option (String × String)) (now : ℕ) (d : Issued F)
      → n ≢ ""
      → Spent fl nonce d
      → Spent fl nonce (check fl n action spend presented binding now d).1
  Spent-check nonce n action spend presented binding now d named h r e =
      let after = lookup-check fl n action spend presented binding now d nonce named in
      elim (Bool-cases (n == nonce)) [
        | inl q ↦ marked_used spend (lookup nonce d) h r (rw q at (sym after ∙ e))
        | inr q ↦ h r (rw q at (sym after ∙ e))
      ]

  Spent-apply :
      (nonce : String) (e : Event F) (d : Issued F)
      → UniqueKeys d
      → Other fl nonce e
      → Spent fl nonce d
      → Spent fl nonce (apply fl e d)
  unfolding apply put
  Spent-apply nonce (issued now n rec) d u other h r e = h r (
      Within-evict now d u nonce r
        (ground (arith, lookup-insert n nonce rec (evict now d), eq_iff n nonce, e)))
  Spent-apply nonce (checked n action spend presented binding now) d u other h r e =
      elim (Bool-cases (n == "")) [
        | inl q ↦
            h r
              (rw (check-blank fl n action spend presented binding now d ((eq_iff n "").0 q)) at e)
        | inr q ↦
            Spent-check nonce n action spend presented binding now d
              (λ z. ground (arith, eq_iff n "", q, z)) h r e
      ]
  Spent-apply nonce reset d u other h r e = absurd (unfold lookup in cc e)

  Spent-run :
      (nonce : String) (events : List (Event F)) (d : Issued F)
      → UniqueKeys d
      → All (Other fl nonce) events
      → Spent fl nonce d
      → Spent fl nonce (run fl events d)
  unfolding run
  Spent-run nonce [] d u others h = h
  Spent-run nonce (e ∷ rest) d u others h =
      Spent-run nonce rest (apply fl e d) (apply-UniqueKeys e d u) others.1
        (Spent-apply nonce e d u others.0 h)

  Spent-of_check :
      (nonce : String) (action : Option String) (presented : Option (Presented F))
      (binding : Option (String × String)) (now : ℕ) (d : Issued F)
      → nonce ≢ ""
      → Spent fl nonce (check fl nonce action true presented binding now d).1
  Spent-of_check nonce action presented binding now d named r e =
      let after = lookup-check fl nonce action true presented binding now d nonce named in
      marked_spent (lookup nonce d) r (rw (beq_refl nonce) at (sym after ∙ e))

  refused_of_Spent :
      (nonce : String) (action : Option String) (spend : Bool) (presented : Option (Presented F))
      (binding : Option (String × String)) (now : ℕ) (d : Issued F)
      → Spent fl nonce d
      → (check fl nonce action spend presented binding now d).0.ok ≡ false
  refused_of_Spent nonce action spend presented binding now d h =
      elim (Bool-cases (check fl nonce action spend presented binding now d).0.ok) [
        | inl ok ↦
            let (named, (rec, e, a)) =
              (check_ok_iff fl nonce action spend presented binding now d).0 ok in
            absurd (cc (h rec e, a.unused))
        | inr refused ↦ refused
      ]

  -- Start from any run of the program and spend a nonce, with whatever verdict. After any further
  -- events that do not issue that nonce again, no check of it is accepted, whatever is presented.
  pub spent_once :
      (before between : List (Event F)) (nonce : String) (action action' : Option String)
      (presented presented' : Option (Presented F)) (binding binding' : Option (String × String))
      (spend : Bool) (now later : ℕ)
      → All (Other fl nonce) between
      → let d = (check fl nonce action true presented binding now (run fl before [])).1 in
        (check fl nonce action' spend presented' binding' later (run fl between d)).0.ok ≡ false
  spent_once before between nonce action action' presented presented' binding binding' spend now
        later others =
      elim (Bool-cases (nonce == "")) [
        | inl q ↦
            (check-blank_parts fl nonce action' spend presented' binding' later (run fl between d)
              ((eq_iff nonce "").0 q)).0
        | inr q ↦
            refused_of_Spent nonce action' spend presented' binding' later (run fl between d) (
              Spent-run nonce between d unique others (
                Spent-of_check nonce action presented binding now (run fl before [])
                  (λ z. ground (arith, eq_iff nonce "", q, z))))
      ]
    where
      d : Issued F
      d = (check fl nonce action true presented binding now (run fl before [])).1

      unique : UniqueKeys d
      unique =
          check-UniqueKeys nonce action true presented binding now (run fl before [])
            (run-UniqueKeys before [] tt)
