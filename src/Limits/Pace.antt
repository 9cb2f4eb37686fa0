-- ===== src/Limits/Pace.antt =====
-- Admissions that keep a pace: no stretch of `span` holds more than `limit` of them.
use factech.Base.{
  ℕ, suc, ◌+◌, ◌≤◌, ◌<◌, Bool, ◌&&◌, List, [], ◌∷◌, ◌++◌, ◌≡◌, arith, ltb, leb, All, if◌then◌else◌,
}

-- How many entries pass a test.
abbrev pub count_if : (ℕ → Bool) → List ℕ → ℕ
count_if p [] = 0
count_if p (h ∷ rest) = let n = count_if p rest in if p h then suc n else n

-- The hit is still counted at `now`.
abbrev pub live : ℕ → ℕ → ℕ → Bool
live span now h = ltb now (h + span)

-- The hit lies in the stretch from `start` on.
abbrev pub within : ℕ → ℕ → ℕ → Bool
within span start h = leb start h && ltb h (start + span)

-- Newest first: at each admission fewer than `limit` earlier ones were still counted.
abbrev pub Paced : ℕ → ℕ → List ℕ → Type 0
Paced limit span [] = Unit
Paced limit span (t ∷ past) =
    All (λ h. h ≤ t) past × (count_if (live span t) past < limit) × Paced limit span past

pub count_if-append :
    (p : ℕ → Bool) (xs ys : List ℕ) → count_if p (xs ++ ys) ≡ count_if p xs + count_if p ys
count_if-append p [] ys = omega arith
count_if-append p (x ∷ xs) ys = ground (arith, count_if-append p xs ys)

within-le-live :
    (span start t : ℕ) (l : List ℕ)
    → t < start + span
    → count_if (within span start) l ≤ count_if (live span t) l
within-le-live span start t [] h = omega arith
within-le-live span start t (x ∷ l) h = ground (arith, within-le-live span start t l h)

pub Paced-within :
    (limit span start : ℕ) (l : List ℕ)
    → Paced limit span l
    → count_if (within span start) l ≤ limit
Paced-within limit span start [] h = omega arith
Paced-within limit span start (t ∷ past) (old, few, paced) =
    ground (arith, within-le-live span start t past, Paced-within limit span start past paced)
