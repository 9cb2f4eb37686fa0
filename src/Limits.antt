-- ===== src/Limits.antt =====
-- packages/face-auth/src/facetech_auth/limits.py: sliding windows per key, and bounded admission.
-- Times are readings of the monotonic clock in nanoseconds, given as arguments.
mod Pace
mod Prune
pub mod Rate
pub mod Retry
pub mod Table
pub mod Pool
pub mod Slots
mod Tests
use factech.Base.{
  ℕ, zero, suc, ◌+◌, ◌-◌, ◌*◌, ◌/◌, ◌≤◌, ◌<◌, max, Bool, true, false, Option, none, some, List, [],
  ◌∷◌, ◌++◌, String, Dict, lookup, erase, length, leb, ltb, ◌==◌, nat_beq, string_eq, if◌then◌else◌,
}
use factech.Contracts.{Denied, Result, ok, err}

-- Nanoseconds in a second.
abbrev pub second : ℕ
second = 1000000000

-- Window; `hits` is the OrderedDict, least recently used key first, each deque oldest first.
pub record Window : Type 0 where
  pub limit : ℕ
  pub seconds : ℕ
  pub keys : ℕ
  pub hits : Dict String (List ℕ)

abbrev pub window : ℕ → ℕ → ℕ → Window
window limit seconds keys = record { limit = limit; seconds = seconds; keys = keys; hits = [] }

abbrev pub or_empty : Option (List ℕ) → List ℕ
or_empty none = []
or_empty (some l) = l

-- self._hits.get(key), with a new deque where there is none
unfoldable pub hits_of : String → Dict String (List ℕ) → List ℕ
hits_of key d = or_empty (lookup key d)

-- while hits and hits[0] <= now - self.seconds: hits.popleft()
unfoldable pub prune : ℕ → ℕ → List ℕ → List ℕ
prune span now [] = []
prune span now (h ∷ rest) =
    let later = prune span now rest in if leb (h + span) now then later else h ∷ rest

-- The key at the most recently used end, with the deque given.
unfoldable pub touch : String → List ℕ → Dict String (List ℕ) → Dict String (List ℕ)
touch key l d = erase key d ++ (key, l) ∷ []

-- while len(self._hits) > self.keys: self._hits.popitem(last=False)
unfoldable pub evict : ℕ → Dict String (List ℕ) → Dict String (List ℕ)
evict keys [] = []
evict keys (e ∷ d) = let rest = evict keys d in if ltb keys (suc (length d)) then rest else e ∷ d

-- max(1, math.ceil(oldest + self.seconds - now)), where `oldest + span` is not before `now`
unfoldable pub wait_for : ℕ → ℕ → ℕ → ℕ
wait_for span now oldest = max 1 ((oldest + span - now + (second - 1)) / second)

abbrev pub oldest_or : ℕ → List ℕ → ℕ
oldest_or now [] = now
oldest_or now (h ∷ rest) = h

-- Window.retry_after: the seconds to wait, or 0 when the call is allowed and counted.
pub retry_after : String → ℕ → Window → ℕ × Window
retry_after key now w =
    let span = w.seconds * second in
    let live = prune span now (hits_of key w.hits) in
    if leb w.limit (length live)
    then (wait_for span now (oldest_or now live), record w { hits = touch key live w.hits })
    else (0, record w { hits = evict w.keys (touch key (live ++ now ∷ []) w.hits) })

-- Window.enforce
unfoldable pub enforce : String → ℕ → Window → Result (Unit {0}) × Window
enforce key now w =
    let (wait, w') = retry_after key now w in
    if nat_beq wait 0
    then (ok tt, w')
    else (err (record { code = "RATE_LIMITED"; status = 429; retry_after = some wait }), w')

-- Admission
pub record Admission : Type 0 where
  pub limit : ℕ
  pub retry_after : ℕ
  pub active : ℕ

abbrev pub busy_retry_after : ℕ
busy_retry_after = 2

abbrev pub admission : ℕ → Admission
admission limit = record { limit = limit; retry_after = busy_retry_after; active = 0 }

-- Admission.hold, up to its `yield`
pub enter : Admission → Result (Unit {0}) × Admission
enter a =
    if leb a.limit a.active
    then (err (record { code = "BUSY"; status = 503; retry_after = some a.retry_after }), a)
    else (ok tt, record a { active = a.active + 1 })

-- Its `finally`. It follows an `enter` that was let in, so the count is not 0 there.
pub leave : Admission → Admission
leave a = record a { active = a.active - 1 }

-- Limits
pub record Limits : Type 0 where
  pub source : Window
  pub auth_source : Window
  pub actor : Window
  pub scan : Window
  pub scans : Admission

abbrev pub limits : Limits
limits = record {
  source = window 300 60 4096;
  auth_source = window 60 60 4096;
  actor = window 120 60 4096;
  scan = window 10 60 4096;
  scans = admission 3;
}
