-- ===== src/Limits/Retry.antt =====
-- The wait that a refusal announces is the right one, to the second.
use factech.Base.{
  ℕ, ◌+◌, ◌*◌, ◌≤◌, ◌<◌, List, [], ◌∷◌, String, length, leb, string_eq, beq_refl, ◌≡◌, ◌≢◌, refl,
  ap, arith, Bool-cases, inl, inr,
}
use factech.Limits.{Window, second, hits_of, prune, touch, wait_for, oldest_or, retry_after}
use factech.Limits.Rate.{hits_of-touch, wait-pos}
use factech.Limits.Prune.{length-prune-lt, length-prune-le}

prune-eq_cons : (span now h : ℕ) (l rest : List ℕ) → prune span now l ≡ h ∷ rest → now < h + span
unfolding prune
prune-eq_cons span now h [] rest e = cc
prune-eq_cons span now h (x ∷ l) rest e = ground (arith, prune-eq_cons span now h l rest)

wait_enough : (span now h : ℕ) → now < h + span → h + span ≤ now + wait_for span now h * second
unfolding wait_for
wait_enough span now h lt = omega arith

wait_least :
    (span now h t : ℕ)
    → now < h + span
    → t + second ≤ now + wait_for span now h * second
    → t < h + span
unfolding wait_for
wait_least span now h t lt le = omega arith

prune-fresh :
    (span now h : ℕ) (rest : List ℕ) → now < h + span → prune span now (h ∷ rest) ≡ h ∷ rest
unfolding prune
prune-fresh span now h rest lt = ground arith

module _ (key : String) (w : Window) where
  refused_when :
      (t : ℕ)
      → w.limit ≤ length (prune (w.seconds * second) t (hits_of key w.hits))
      → (retry_after key t w).0 ≢ 0
  unfolding retry_after
  refused_when t le e = ground (
    arith,
    wait-pos (w.seconds * second) t
        (oldest_or t (prune (w.seconds * second) t (hits_of key w.hits))),
  )

  allowed_when :
      (t : ℕ)
      → length (prune (w.seconds * second) t (hits_of key w.hits)) < w.limit
      → (retry_after key t w).0 ≡ 0
  unfolding retry_after
  allowed_when t lt = ground arith

-- What a refusal leaves: the deque that filled the window, and the wait that its oldest hit asks.
record Refusal (key : String) (t : ℕ) (w : Window) : Type 0 where
  head : ℕ
  rest : List ℕ
  full : prune (w.seconds * second) t (hits_of key w.hits) ≡ head ∷ rest
  enough : w.limit ≤ length (head ∷ rest)
  wait : (retry_after key t w).0 ≡ wait_for (w.seconds * second) t head
  kept : hits_of key (retry_after key t w).1.hits ≡ head ∷ rest
  config : ((retry_after key t w).1.limit ≡ w.limit) × ((retry_after key t w).1.seconds ≡ w.seconds)

refusal_equation :
    (key : String) (t : ℕ) (w : Window) (head : ℕ) (rest : List ℕ)
    → prune (w.seconds * second) t (hits_of key w.hits) ≡ head ∷ rest
    → w.limit ≤ length (head ∷ rest)
    → retry_after key t w
      ≡ (wait_for (w.seconds * second) t head, record w { hits = touch key (head ∷ rest) w.hits })
unfolding retry_after
refusal_equation key t w head rest e le = rw e (ground arith)

Refusal-of_live :
    (key : String) (t : ℕ) (w : Window) (l : List ℕ)
    → prune (w.seconds * second) t (hits_of key w.hits) ≡ l
    → 0 < w.limit
    → (retry_after key t w).0 ≢ 0
    → w.limit ≤ length l
    → Refusal key t w
Refusal-of_live key t w [] e pos waits le = absurd (omega arith)
Refusal-of_live key t w (head ∷ rest) e pos waits le =
    let q = refusal_equation key t w head rest e le in
    record {
      head = head;
      rest = rest;
      full = e;
      enough = le;
      wait = ap (λ (r : ℕ × Window). r.0) q;
      kept = rw q (rw (hits_of-touch key key (head ∷ rest) w.hits, beq_refl key));
      config = (ap (λ (r : ℕ × Window). r.1.limit) q, ap (λ (r : ℕ × Window). r.1.seconds) q);
    }

Refusal-of_wait :
    (key : String) (t : ℕ) (w : Window)
    → 0 < w.limit
    → (retry_after key t w).0 ≢ 0
    → Refusal key t w
Refusal-of_wait key t w pos waits =
    elim (Bool-cases (leb w.limit (length (prune (w.seconds * second) t (hits_of key w.hits))))) [
      | inl e ↦
          Refusal-of_live key t w (prune (w.seconds * second) t (hits_of key w.hits)) refl pos waits
            (ground arith)
      | inr e ↦ absurd (waits (allowed_when key w t (ground arith)))
    ]

-- The key's deque is no longer than the limit.
abbrev pub Fits : String → Window → Type 0
Fits key w = length (hits_of key w.hits) ≤ w.limit

module _ (key : String) (t u : ℕ) (w : Window) where
  -- After a refusal the key is let in again, if nothing else calls for it, once the announced number
  -- of seconds has passed, and is refused at every moment that is a whole second or more short of
  -- that.
  pub retry_after_exact :
      0 < w.limit
      → Fits key w
      → (retry_after key t w).0 ≢ 0
      → (t + (retry_after key t w).0 * second ≤ u
          → (retry_after key u (retry_after key t w).1).0 ≡ 0)
        × (u + second ≤ t + (retry_after key t w).0 * second
            → (retry_after key u (retry_after key t w).1).0 ≢ 0)
  retry_after_exact pos fits waits = (late, early)
    where
      r : Refusal key t w
      r = Refusal-of_wait key t w pos waits

      span : ℕ
      span = w.seconds * second

      after : Window
      after = (retry_after key t w).1

      fresh : t < r.head + w.seconds * second
      fresh = prune-eq_cons (w.seconds * second) t r.head (hits_of key w.hits) r.rest r.full

      late : t + (retry_after key t w).0 * second ≤ u → (retry_after key u after).0 ≡ 0
      late le = allowed_when key after u (
          rw (r.config.1, r.config.0, r.kept)
            (omega (
              arith,
              length-prune-lt span u r.head r.rest
                  (omega (arith, r.wait, wait_enough span t r.head fresh)),
              ap (λ (l : List ℕ). length l) r.full,
              length-prune-le span t (hits_of key w.hits),
            )))

      early : u + second ≤ t + (retry_after key t w).0 * second → (retry_after key u after).0 ≢ 0
      early le = refused_when key after u (
          rw (r.config.1, r.config.0, r.kept)
            (rw
              (prune-fresh span u r.head r.rest
                (wait_least span t r.head u fresh (omega (arith, r.wait))))
              r.enough))
