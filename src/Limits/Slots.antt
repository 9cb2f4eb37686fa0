-- ===== src/Limits/Slots.antt =====
-- The bounded count of work in flight, over every order of callers.
use factech.Base.{ℕ, ◌+◌, ◌-◌, ◌≤◌, ◌<◌, ◌≡◌, ◌↔◌, refl, arith, some}
use factech.Contracts.{Denied, ok, err}
use factech.Limits.{Admission, admission, enter, leave, busy_retry_after}

-- An admission and the number of callers between their `yield` and their `finally`.
pub record Service : Type 0 where
  pub gate : Admission
  pub inside : ℕ

-- What can happen next: a caller is let in, one is turned away, or one inside leaves.
pub data Step : Service → Service → Type 0 where
  let_in :
      (s : Service)
      → (enter s.gate).0 ≡ ok tt
      → Step s (record { gate = (enter s.gate).1; inside = s.inside + 1 })
  turned_away :
      (s : Service) (d : Denied)
      → (enter s.gate).0 ≡ err d
      → Step s (record { gate = (enter s.gate).1; inside = s.inside })
  left :
      (s : Service) → 0 < s.inside → Step s (record { gate = leave s.gate; inside = s.inside - 1 })

pub data Reach (s : Service) : Service → Type 0 where
  here : Reach s s
  next : {t u : Service} → Reach s t → Step t u → Reach s u

pub record IsCounted (limit : ℕ) (s : Service) : Type 0 where
  pub counted : s.gate.active ≡ s.inside
  pub capped : s.inside ≤ limit
  pub fixed : s.gate.limit ≡ limit
  pub told : s.gate.retry_after ≡ busy_retry_after

Step-IsCounted : {limit : ℕ} {s t : Service} → Step s t → IsCounted limit s → IsCounted limit t
unfolding enter leave
Step-IsCounted (let_in s e) h = ground arith
Step-IsCounted (turned_away s d e) h = ground arith
Step-IsCounted (left s pos) h = ground arith

Reach-IsCounted : {limit : ℕ} {s t : Service} → IsCounted limit s → Reach s t → IsCounted limit t
Reach-IsCounted h here = h
Reach-IsCounted h (next r st) = Step-IsCounted st (Reach-IsCounted h r)

-- The service with nobody inside.
abbrev pub idle : ℕ → Service
idle limit = record { gate = admission limit; inside = 0 }

-- However callers come and go, the counter is the number of callers inside, which never passes the
-- limit, and a caller is turned away, with BUSY and the wait, exactly when the limit is reached.
pub enter_exact :
    (limit : ℕ) (s : Service)
    → Reach (idle limit) s
    → (s.gate.active ≡ s.inside)
      × (s.inside ≤ limit)
      × (((enter s.gate).0
            ≡ err (record { code = "BUSY"; status = 503; retry_after = some busy_retry_after }))
          ↔ (s.inside ≡ limit))
enter_exact limit s r =
    let c =
      Reach-IsCounted {limit = limit}
        (record { counted = refl; capped = omega arith; fixed = refl; told = refl }) r in
    (c.counted, c.capped, unfold enter in ((λ e. ground arith), (λ e. ground arith)))
