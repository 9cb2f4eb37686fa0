-- ===== src/Limits/Tests.antt =====
-- Runs of the limiter, and its theorems at concrete calls.
use factech.Base.{
  ◌+◌, ◌*◌, ◌≤◌, [], ◌∷◌, ◌≡◌, ◌≢◌, ◌↔◌, refl, arith, lookup, erase, here, there, some, string_eq,
  UniqueKeys,
}
use factech.Contracts.{err}
use factech.Limits.{
  Window, window, second, retry_after, hits_of, prune, touch, evict, wait_for, enter, admission,
  busy_retry_after,
}
use factech.Limits.Pace.{count_if, within}
use factech.Limits.Rate.{Calls, admitted}
use factech.Limits.Pool.{pool-admitted-le-limit}
use factech.Limits.Retry.{Fits, retry_after_exact}
use factech.Limits.Table.{IsTable}
use factech.Limits.Slots.{Service, Reach, Step, idle, enter_exact}
use factech.Limits.Slots

abbrev two_a_minute : Window
two_a_minute = window 2 60 4

abbrev calls : Calls
calls =
    ("a", 1 * second)
    ∷ ("b", 2 * second)
    ∷ ("a", 3 * second)
    ∷ ("a", 4 * second)
    ∷ ("a", 61 * second)
    ∷ []

admits : admitted "a" two_a_minute calls [] ≡ (61 * second) ∷ (3 * second) ∷ (1 * second) ∷ []
unfolding admitted retry_after hits_of prune touch evict wait_for lookup erase
admits = refl

pool-admitted-le-limit_example :
    count_if (within (60 * second) (2 * second)) (admitted "a" two_a_minute calls []) ≤ 2
pool-admitted-le-limit_example =
    pool-admitted-le-limit ("a" ∷ "b" ∷ []) 2 60 4 calls "a" (2 * second) (omega arith)
      (omega arith) (here, (there here, (here, (here, (here, tt)))))

-- "a" has used its two calls.
abbrev full : Window
full = record {
  limit = 2;
  seconds = 60;
  keys = 4;
  hits = ("a", (1 * second) ∷ (3 * second) ∷ []) ∷ [];
}

full_waits : (retry_after "a" (4 * second + 1) full).0 ≡ 57
unfolding retry_after hits_of prune touch evict wait_for lookup erase
full_waits = refl

full_refuses : (retry_after "a" (4 * second + 1) full).0 ≢ 0
full_refuses e = omega (arith, full_waits, e)

full-Fits : Fits "a" full
unfolding hits_of lookup
full-Fits = omega arith

retry_after_exact_example :
    ((4 * second + 1) + (retry_after "a" (4 * second + 1) full).0 * second ≤ 62 * second
      → (retry_after "a" (62 * second) (retry_after "a" (4 * second + 1) full).1).0 ≡ 0)
    × ((62 * second) + second
          ≤ (4 * second + 1) + (retry_after "a" (4 * second + 1) full).0 * second
        → (retry_after "a" (62 * second) (retry_after "a" (4 * second + 1) full).1).0 ≢ 0)
retry_after_exact_example =
    retry_after_exact "a" (4 * second + 1) (62 * second) full (omega arith) full-Fits full_refuses

full-IsTable : IsTable full
unfolding lookup
full-IsTable = record { unique = (refl, tt); short = (omega arith, tt) }

abbrev strangers : Calls
strangers = ("a", 1) ∷ ("b", 2) ∷ ("c", 3) ∷ []

strangers-UniqueKeys : UniqueKeys strangers
unfolding lookup
strangers-UniqueKeys = (refl, (refl, (refl, tt)))

abbrev one_inside : Service
one_inside = record { gate = record (admission 1) { active = 1 }; inside = 1 }

one_inside-Reach : Reach (idle 1) one_inside
unfolding enter
one_inside-Reach = Slots.next Slots.here (Slots.let_in (idle 1) refl)

enter_exact_example :
    (one_inside.gate.active ≡ one_inside.inside)
    × (one_inside.inside ≤ 1)
    × (((enter one_inside.gate).0
          ≡ err (record { code = "BUSY"; status = 503; retry_after = some busy_retry_after }))
        ↔ (one_inside.inside ≡ 1))
enter_exact_example = enter_exact 1 one_inside one_inside-Reach
