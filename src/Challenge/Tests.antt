-- ===== src/Challenge/Tests.antt =====
-- A run of the challenge store with decimals for doubles, and its theorems there.
use factech.Base.{
  ℕ, true, false, Option, none, some, List, [], ◌∷◌, String, lookup, insert, string_eq, strip, ◌≡◌,
  ◌≢◌, ◌↔◌, refl, arith, eq_iff,
}
use factech.Numbers.{Random, IsReflexive}
use factech.Numbers.Sample.{millionths}
use factech.Challenge.{
  Record, Issued, Presented, items, action_name, check, judge, put, evict, shrink, params_match,
  look_left, single_turn_v1,
}
use factech.Challenge.Echo.{single}
use factech.Challenge.Verdicts.{Accepts, check_ok_iff}
use factech.Challenge.Single.{Event, run, issued, checked, spent_once}
use factech.Challenge.Issue.{draw_action, draw_glow, draw_params, issue}
use factech.Challenge.Fresh.{check-issue}
use factech.Challenge.Scan.{Scan, consume_from_scan}
use factech.Challenge.Consume.{IsConsumed, consume-IsConsumed}

abbrev least : Random
least = record { below = λ i n. 0; below-lt = λ i n h. h }

reflexive : (x : ℕ) → IsReflexive millionths 1 1000000 x
reflexive x = record { eq_self = ground arith; near_self = ground arith }

abbrev issued_at_5 : Record ℕ × Issued ℕ
issued_at_5 = issue least millionths single_turn_v1 "verify" "u1" "n0" 5 []

abbrev n0 : String
n0 = "n0"

abbrev n1 : String
n1 = "n1"

-- The record that `issue` keeps there.
abbrev kept : Record ℕ
kept = record {
  action = look_left;
  params = single 1200 150000;
  issued_ms = 5;
  expires_ms = 30005;
  used = false;
  binding = ("verify", "u1");
  glow = none;
}

issue_runs : issued_at_5 ≡ (kept, ("n0", kept) ∷ [])
unfolding issue draw_action draw_glow draw_params put evict shrink insert
issue_runs = refl

abbrev store : Issued ℕ
store = ("n0", kept) ∷ []

abbrev echo_of_kept : Option (Presented ℕ)
echo_of_kept = some (items kept.params)

accepts :
    (check millionths "n0"
      (some "LOOK_LEFT")
      true
      echo_of_kept
      (some ("verify", "u1"))
      30005
      store).0.ok
    ≡ true
unfolding check judge lookup insert params_match
accepts = refl

check-issue_example :
    (check millionths "n0"
      (some (action_name issued_at_5.0.action))
      true
      (some (items issued_at_5.0.params))
      (some ("verify", "u1"))
      30005
      issued_at_5.1).0.ok
    ≡ true
check-issue_example =
    check-issue millionths least single_turn_v1 "verify" "u1" "n0" 5 30005 true []
      (λ e. ground (arith, eq_iff "n0" "")) (omega arith) (reflexive _)

check_ok_iff_example :
    ((check millionths n0
        (some "LOOK_LEFT")
        true
        echo_of_kept
        (some ("verify", "u1"))
        30005
        store).0.ok
      ≡ true)
    ↔ ((n0 ≢ "")
        × ((rec : Record ℕ) × (lookup n0 store ≡ some rec)
            × Accepts millionths (some "LOOK_LEFT") echo_of_kept (some ("verify", "u1")) 30005 rec))
check_ok_iff_example =
    check_ok_iff millionths n0 (some "LOOK_LEFT") true echo_of_kept (some ("verify", "u1")) 30005
      store

abbrev before : List (Event ℕ)
before = issued 5 "n0" kept ∷ []

abbrev between : List (Event ℕ)
between = issued 6 "n1" kept ∷ checked "n0" none false none none 8 ∷ []

spent_once_example :
    let d = (check millionths "n0" none true none none 7 (run millionths before [])).1 in
    (check millionths "n0"
      (some "LOOK_LEFT")
      true
      echo_of_kept
      (some ("verify", "u1"))
      9
      (run millionths between d)).0.ok
    ≡ false
spent_once_example =
    spent_once millionths before between "n0" none (some "LOOK_LEFT") none echo_of_kept none
      (some ("verify", "u1")) true 7 9 ((λ e. ground (arith, eq_iff "n1" "n0")), (tt, tt))

-- A scan of two seconds that claims the nonce, with spaces round it.
abbrev scan : Scan ℕ
scan = record {
  challenge =
      some (record { nonce = some " n0 "; action = some "LOOK_LEFT"; params = echo_of_kept });
  ts_ms = 100 ∷ 1100 ∷ 2100 ∷ [];
}

scan_accepted :
    (consume_from_scan millionths scan (some ("verify", "u1")) 3000 3001 store).0
    ≡ some
        (check millionths "n0"
          (some "LOOK_LEFT")
          true
          echo_of_kept
          (some ("verify", "u1"))
          3000
          store).0
unfolding consume_from_scan check judge lookup insert params_match strip
scan_accepted = refl

verdict_ok :
    (check millionths "n0"
      (some "LOOK_LEFT")
      true
      echo_of_kept
      (some ("verify", "u1"))
      3000
      store).0.ok
    ≡ true
unfolding check judge lookup insert params_match
verdict_ok = refl

consume-IsConsumed_example :
    IsConsumed millionths scan
      (some ("verify", "u1"))
      3000
      3001
      store
      (consume_from_scan millionths scan (some ("verify", "u1")) 3000 3001 store).1
consume-IsConsumed_example =
    consume-IsConsumed millionths scan (some ("verify", "u1")) 3000 3001 store
      (check millionths "n0" (some "LOOK_LEFT") true echo_of_kept (some ("verify", "u1")) 3000
        store).0
      scan_accepted verdict_ok
