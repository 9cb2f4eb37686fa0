-- ===== src/Challenge/Table.antt =====
-- The dictionary of challenges stays within its bound, and drops no record that is still wanted
-- unless it is full.
use factech.Base.{
  ℕ, ◌+◌, ◌≤◌, ◌<◌, some, [], ◌∷◌, String, lookup, insert, lookup-insert, length-insert-le, length,
  length-filter-le, filter, string_eq, eq_iff, beq_refl, ◌≡◌, ◌≢◌, refl, arith,
}
use factech.Challenge.{
  Record, Issued, is_kept, shrink, evict, put, max_issued_nonces, retain_after_expiry_ms,
}

module _ {F : Type 0} where
  length-shrink-lt : (bound : ℕ) (d : Issued F) → 0 < bound → length (shrink bound d) < bound
  unfolding shrink
  length-shrink-lt bound [] pos = omega arith
  length-shrink-lt bound (e ∷ d) pos = ground (arith, length-shrink-lt bound d pos)

  shrink-eq_of_lt : (bound : ℕ) (d : Issued F) → length d < bound → shrink bound d ≡ d
  unfolding shrink
  shrink-eq_of_lt bound [] lt = refl
  shrink-eq_of_lt bound (e ∷ d) lt = ground (arith, shrink-eq_of_lt bound d)

  lookup-filter_kept :
      (now : ℕ) (j : String) (d : Issued F) (rec : Record F)
      → lookup j d ≡ some rec
      → now ≤ rec.expires_ms + retain_after_expiry_ms
      → lookup j (filter (is_kept now) d) ≡ some rec
  unfolding lookup
  lookup-filter_kept now j [] rec e le = cc
  lookup-filter_kept now j ((k, r) ∷ d) rec e le = ground (arith, lookup-filter_kept now j d rec)

  -- After a challenge is issued there are at most MAX_ISSUED_NONCES records, the new one among them;
  -- and if there were fewer before, every other record is still there that is not more than
  -- RETAIN_AFTER_EXPIRY_MS past its expiry.
  pub put_table :
      (now : ℕ) (nonce j : String) (rec old : Record F) (d : Issued F)
      → (length (put now nonce rec d) ≤ max_issued_nonces)
        × (lookup nonce (put now nonce rec d) ≡ some rec)
        × (length d < max_issued_nonces
            → nonce ≢ j
            → lookup j d ≡ some old
            → now ≤ old.expires_ms + retain_after_expiry_ms
            → lookup j (put now nonce rec d) ≡ some old)
  unfolding put evict
  put_table now nonce j rec old d = (bounded, stored, kept)
    where
      live : Issued F
      live = filter (is_kept now) d

      few : length (shrink max_issued_nonces live) < max_issued_nonces
      few = length-shrink-lt max_issued_nonces live (omega arith)

      bounded : length (insert nonce rec (shrink max_issued_nonces live)) ≤ max_issued_nonces
      bounded = omega (arith, few, length-insert-le nonce rec (shrink max_issued_nonces live))

      stored : lookup nonce (insert nonce rec (shrink max_issued_nonces live)) ≡ some rec
      stored = rw (lookup-insert nonce nonce rec (shrink max_issued_nonces live), beq_refl nonce)

      kept :
          length d < max_issued_nonces
          → nonce ≢ j
          → lookup j d ≡ some old
          → now ≤ old.expires_ms + retain_after_expiry_ms
          → lookup j (insert nonce rec (shrink max_issued_nonces live)) ≡ some old
      kept room other e le =
          rw
            (shrink-eq_of_lt max_issued_nonces live
              (omega (arith, length-filter-le (is_kept now) d)))
            (ground (
              arith,
              lookup-insert nonce j rec live,
              eq_iff nonce j,
              lookup-filter_kept now j d old e le,
            ))
