-- ===== src/Limits/Prune.antt =====
-- Dropping the leading expired hits of a deque that is in order leaves the hits still counted.
use factech.Base.{
  ℕ, ◌+◌, ◌≤◌, ◌<◌, List, [], ◌∷◌, ◌++◌, ◌≡◌, refl, arith, leb, length, All, All-append, Bool-cases,
  inl, inr,
}
use factech.Limits.{prune}
use factech.Limits.Pace.{count_if, live}

-- Oldest first.
abbrev pub Ordered : List ℕ → Type 0
Ordered [] = Unit
Ordered (h ∷ rest) = All (λ t. h ≤ t) rest × Ordered rest

Ordered_live :
    (span now h : ℕ) (l : List ℕ)
    → now < h + span
    → All (λ t. h ≤ t) l
    → count_if (live span now) l ≡ length l
Ordered_live span now h [] lt o = refl
Ordered_live span now h (x ∷ l) lt o = ground (arith, Ordered_live span now h l lt o.1)

pub length-prune :
    (span now : ℕ) (l : List ℕ) → Ordered l → length (prune span now l) ≡ count_if (live span now) l
unfolding prune
length-prune span now [] o = refl
length-prune span now (h ∷ rest) o =
    ground (arith, length-prune span now rest o.1, Ordered_live span now h rest)

-- What is dropped is not counted later either.
pub count-prune :
    (span now t : ℕ) (l : List ℕ)
    → now ≤ t
    → count_if (live span t) (prune span now l) ≡ count_if (live span t) l
unfolding prune
count-prune span now t [] le = refl
count-prune span now t (h ∷ rest) le = ground (arith, count-prune span now t rest le)

pub All-prune : (P : ℕ → Type 0) (span now : ℕ) (l : List ℕ) → All P l → All P (prune span now l)
unfolding prune
All-prune P span now [] a = tt
All-prune P span now (h ∷ rest) a = elim (Bool-cases (leb (h + span) now)) [
  | inl e ↦ rw e (All-prune P span now rest a.1)
  | inr e ↦ rw e a
]

pub Ordered-prune : (span now : ℕ) (l : List ℕ) → Ordered l → Ordered (prune span now l)
unfolding prune
Ordered-prune span now [] o = tt
Ordered-prune span now (h ∷ rest) o = elim (Bool-cases (leb (h + span) now)) [
  | inl e ↦ rw e (Ordered-prune span now rest o.1)
  | inr e ↦ rw e o
]

pub Ordered-append :
    (now : ℕ) (l : List ℕ) → Ordered l → All (λ h. h ≤ now) l → Ordered (l ++ now ∷ [])
Ordered-append now [] o a = (tt, tt)
Ordered-append now (h ∷ rest) o a =
    (All-append (λ t. h ≤ t) rest (now ∷ []) o.0 (a.0, tt), Ordered-append now rest o.1 a.1)

pub length-prune-le : (span now : ℕ) (l : List ℕ) → length (prune span now l) ≤ length l
unfolding prune
length-prune-le span now [] = omega arith
length-prune-le span now (h ∷ rest) = ground (arith, length-prune-le span now rest)

-- A deque that lost its oldest hit is shorter.
pub length-prune-lt :
    (span now h : ℕ) (rest : List ℕ)
    → h + span ≤ now
    → length (prune span now (h ∷ rest)) < length (h ∷ rest)
unfolding prune
length-prune-lt span now h rest le = ground (arith, length-prune-le span now rest)
