-- ===== src/Base/Lists.antt =====
-- Lists measured by native numbers, searched and filtered by Boolean tests.
use Prim.Native.Nat.{ℕ, zero, suc, ◌+◌, ◌≤◌}
use mathlib.Core.Path.{◌≡◌, refl, subst}
use mathlib.Core.Logic.{◌⊎◌, inl, inr}
use mathlib.Core.Bool.{Bool, true, false, ◌||◌, ◌&&◌}
use mathlib.Core.List.{map, List, [], ◌∷◌, ◌++◌}
use native.Mathlib.Omega.{arith}
use factech.Base.Tests.{if◌then◌else◌, Bool-cases}

module _ {ℓ} {A : Type ℓ} where
  abbrev pub length : List A → ℕ
  length [] = 0
  length (x ∷ xs) = suc (length xs)

  abbrev pub any : (A → Bool) → List A → Bool
  any p [] = false
  any p (x ∷ xs) = p x || any p xs

  abbrev pub all : (A → Bool) → List A → Bool
  all p [] = true
  all p (x ∷ xs) = p x && all p xs

  -- [x for x in xs if p x]
  abbrev pub filter : (A → Bool) → List A → List A
  filter p [] = []
  filter p (x ∷ xs) = let rest = filter p xs in if p x then x ∷ rest else rest

  abbrev pub take : ℕ → List A → List A
  take zero xs = []
  take (suc n) [] = []
  take (suc n) (x ∷ xs) = x ∷ take n xs

  abbrev pub tail : List A → List A
  tail [] = []
  tail (x ∷ xs) = xs

  abbrev pub All {κ} : (A → Type κ) → List A → Type κ
  All P [] = Unit
  All P (x ∷ xs) = P x × All P xs

  -- x in xs, as a family to match on
  pub data Member (a : A) : List A → Type ℓ where
    here : {xs : List A} → Member a (a ∷ xs)
    there : {x : A} {xs : List A} → Member a xs → Member a (x ∷ xs)

module _ {ℓ} {A : Type ℓ} where
  pub length-append : (xs ys : List A) → length (xs ++ ys) ≡ length xs + length ys
  length-append [] ys = omega arith
  length-append (x ∷ xs) ys = omega (arith, length-append xs ys)

  pub length-filter-le : (p : A → Bool) (xs : List A) → length (filter p xs) ≤ length xs
  length-filter-le p [] = omega arith
  length-filter-le p (x ∷ xs) = ground (arith, length-filter-le p xs)

  pub length-take-le : (n : ℕ) (xs : List A) → length (take n xs) ≤ n
  length-take-le zero xs = omega arith
  length-take-le (suc n) [] = omega arith
  length-take-le (suc n) (x ∷ xs) = omega (arith, length-take-le n xs)

  pub any-Member : (p : A → Bool) {a : A} {xs : List A} → Member a xs → p a ≡ true → any p xs ≡ true
  any-Member p (here {xs = xs}) h = ground arith
  any-Member p (there {x = x} {xs = xs} m) h = ground (arith, any-Member p m h)

  pub Member-of_any :
      (p : A → Bool) (xs : List A) → any p xs ≡ true → (a : A) × Member a xs × (p a ≡ true)
  Member-of_any p [] h = cc
  Member-of_any p (x ∷ xs) h = elim (Bool-cases (p x)) [
    | inl e ↦ (x, here, e)
    | inr e ↦ let (a, m, q) = Member-of_any p xs (ground arith) in (a, there m, q)
  ]

  pub All-Member {κ} : (P : A → Type κ) {a : A} {xs : List A} → All P xs → Member a xs → P a
  All-Member P h here = h.0
  All-Member P h (there m) = All-Member P h.1 m

  pub All-of_Member {κ} : (P : A → Type κ) (xs : List A) → ((a : A) → Member a xs → P a) → All P xs
  All-of_Member P [] h = tt
  All-of_Member P (x ∷ xs) h = (h x here, All-of_Member P xs (λ a m. h a (there m)))

  pub All-imp {κ μ} :
      {P : A → Type κ} {Q : A → Type μ} (xs : List A) → ((a : A) → P a → Q a) → All P xs → All Q xs
  All-imp [] f h = tt
  All-imp (x ∷ xs) f h = (f x h.0, All-imp xs f h.1)

  pub All-append {κ} : (P : A → Type κ) (xs ys : List A) → All P xs → All P ys → All P (xs ++ ys)
  All-append P [] ys h k = k
  All-append P (x ∷ xs) ys h k = (h.0, All-append P xs ys h.1 k)

  Member-if :
      (b : Bool) {a x : A} {xs : List A}
      → Member a (if b then x ∷ xs else xs)
      → ((b ≡ true) × (a ≡ x)) ⊎ Member a xs
  Member-if true here = inl (refl, refl)
  Member-if true (there m) = inr m
  Member-if false m = inr m

  pub Member-filter :
      (p : A → Bool) {a : A} (xs : List A) → Member a (filter p xs) → Member a xs × (p a ≡ true)
  Member-filter p [] m = elim m [ ]
  Member-filter p {a} (x ∷ xs) m = elim (Member-if (p x) m) [
    | inl (t, e) ↦ (subst (λ y. Member a (y ∷ xs)) e here, rw e t)
    | inr m' ↦ let (n, t) = Member-filter p xs m' in (there n, t)
  ]

  pub filter-Member :
      (p : A → Bool) {a : A} {xs : List A} → Member a xs → p a ≡ true → Member a (filter p xs)
  filter-Member p here h = rw h here
  filter-Member p (there {x = x} m) h = elim (Bool-cases (p x)) [
    | inl e ↦ rw e (there (filter-Member p m h))
    | inr e ↦ rw e (filter-Member p m h)
  ]

  pub Member-append_left : {a : A} {xs : List A} (ys : List A) → Member a xs → Member a (xs ++ ys)
  Member-append_left ys here = here
  Member-append_left ys (there m) = there (Member-append_left ys m)

  pub Member-append_right : {a : A} (xs : List A) {ys : List A} → Member a ys → Member a (xs ++ ys)
  Member-append_right [] m = m
  Member-append_right (x ∷ xs) m = there (Member-append_right xs m)

  pub Member-take : {a : A} (n : ℕ) (xs : List A) → Member a (take n xs) → Member a xs
  Member-take zero xs m = elim m [ ]
  Member-take (suc n) [] m = elim m [ ]
  Member-take (suc n) (x ∷ xs) here = here
  Member-take (suc n) (x ∷ xs) (there m) = there (Member-take n xs m)

  pub take-eq_of_length : (n : ℕ) (xs : List A) → length xs ≤ n → take n xs ≡ xs
  take-eq_of_length zero [] h = refl
  take-eq_of_length (suc n) [] h = refl
  take-eq_of_length zero (x ∷ xs) h = absurd (omega (arith, h))
  take-eq_of_length (suc n) (x ∷ xs) h = rw (take-eq_of_length n xs (omega (arith, h))) refl

module _ {ℓ κ} {A : Type ℓ} {B : Type κ} where
  pub Member-map : (f : A → B) {a : A} {xs : List A} → Member a xs → Member (f a) (map f xs)
  Member-map f here = here
  Member-map f (there m) = there (Member-map f m)

  pub length-map : (f : A → B) (xs : List A) → length (map f xs) ≡ length xs
  length-map f [] = refl
  length-map f (x ∷ xs) = omega (arith, length-map f xs)
