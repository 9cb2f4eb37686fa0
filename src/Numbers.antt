-- ===== src/Numbers.antt =====
-- What the program computes with beside integers: doubles, and random numbers.
pub mod Sample
use factech.Base.{ℕ, ◌<◌, Bool, true, ℤ, ◌≡◌}

-- Python's `float`, a value of which the code reads only through these operations.
pub record Floats (F : Type 0) : Type 0 where
  -- the double nearest to n / d: a literal, or `a / b` on two ints
  pub ratio : ℕ → ℕ → F
  -- float(n)
  pub of_int : ℤ → F
  pub add : F → F → F
  pub sub : F → F → F
  pub mul : F → F → F
  pub abs : F → F
  -- round(x, digits)
  pub round : F → ℕ → F
  pub eq : F → F → Bool
  pub eq_int : F → ℤ → Bool
  pub le : F → F → Bool
  pub lt : F → F → Bool
  pub neg : F → F

-- What IEEE 754 says of a finite double compared with itself, for a tolerance n / d.
pub record IsReflexive {F : Type 0} (fl : Floats F) (n d : ℕ) (x : F) : Type 0 where
  pub eq_self : fl.eq x x ≡ true
  pub near_self : fl.le (fl.abs (fl.sub x x)) (fl.ratio n d) ≡ true

-- `secrets.randbelow`: the i-th number that a call draws, below its bound.
pub record Random : Type 0 where
  pub below : ℕ → ℕ → ℕ
  pub below-lt : (i n : ℕ) → 0 < n → below i n < n
