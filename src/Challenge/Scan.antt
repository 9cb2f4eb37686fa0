-- ===== src/Challenge/Scan.antt =====
-- The two readings of a challenge out of a scan: `consume_from_scan`, which spends the nonce, and
-- `inspect_from_scan`, which does not.
use factech.Base.{
  ℕ, ◌+◌, Bool, true, false, Option, none, some, List, [], ◌∷◌, String, lookup, string_eq, ltb,
  strip, if◌then◌else◌,
}
use factech.Numbers.{Floats}
use factech.Challenge.{Presented, Record, Issued, Verdict, verdict, check, capture_before_issue}

-- scan["challenge"], where it is a dictionary: each field where it has the type that is looked for
pub record Claim (F : Type 0) : Type 0 where
  pub nonce : Option String
  pub action : Option String
  pub params : Option (Presented F)

-- A scan, by the fields read here: the times of its frames are non-negative ints.
pub record Scan (F : Type 0) : Type 0 where
  pub challenge : Option (Claim F)
  pub ts_ms : List ℕ

abbrev pub stripped : Option String → Option String
stripped none = none
stripped (some s) = some (strip s)

abbrev pub or_blank : Option String → String
or_blank none = ""
or_blank (some s) = s

abbrev pub last : ℕ → List ℕ → ℕ
last t [] = t
last t (u ∷ rest) = last u rest

-- `age + 250 < span`, with both sides moved so that no number is negative
unfoldable pub too_long : ℕ → ℕ → List ℕ → Bool
too_long now issued_ms [] = ltb (now + 250) issued_ms
too_long now issued_ms (first ∷ rest) = ltb (now + 250 + first) (last first rest + issued_ms)

abbrev pub with_binding : Option (String × String) → Bool
with_binding none = false
with_binding (some b) = true

module _ {F : Type 0} where
  -- _presented
  unfoldable pub presented : Option (Claim F) → String × Option String × Option (Presented F)
  presented none = ("", none, none)
  presented (some c) = (or_blank (stripped c.nonce), stripped c.action, c.params)

  -- The second critical section; `none` is the KeyError of a nonce that is gone.
  unfoldable pub recheck :
      Option String
      → Option (Presented F)
      → String
      → ℕ
      → List ℕ
      → Verdict F
      → Option (Record F)
      → Option (Verdict F)
  recheck action params nonce now ts_ms v none = none
  recheck action params nonce now ts_ms v (some rec) =
      if too_long now rec.issued_ms ts_ms
      then some (verdict false (some capture_before_issue) action action nonce true params none)
      else some v

  module _ (fl : Floats F) where
    -- The clock is read at `now` in `check`, and at `later` for the age.
    unfoldable pub consume_from_scan :
        Scan F → Option (String × String) → ℕ → ℕ → Issued F → Option (Verdict F) × Issued F
    unfolding presented recheck too_long
    consume_from_scan scan binding now later d =
        let (nonce, action, params) = presented scan.challenge in
        let (v, d') = check fl nonce action true params binding now d in
        if v.ok
        then (
          (if with_binding binding
              then recheck action params nonce later scan.ts_ms v (lookup nonce d')
              else some v),
          d',
        )
        else (some v, d')

    unfoldable pub inspect_from_scan : Scan F → ℕ → Issued F → Verdict F × Issued F
    unfolding presented
    inspect_from_scan scan now d =
        let (nonce, action, params) = presented scan.challenge in
        check fl nonce action false params none now d
