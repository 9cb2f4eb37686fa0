-- ===== src/Database/Rows.antt =====
-- What a statement does to a table.
use mathlib.Core.Option.{some-injective}
use factech.Base.{
  ℕ, suc, ◌+◌, ◌≤◌, length, All-imp, Bool, true, false, not, Option, none, some, List, [], ◌∷◌,
  ◌++◌, any, filter, Member, here, there, All, All-append, subst, ◌||◌, ◌≡◌, refl, inl, inr, arith,
  Bool-cases, if◌then◌else◌,
}

module _ {ℓ} {A : Type ℓ} where
  -- the first row of SELECT ... WHERE, or None
  unfoldable pub first : (A → Bool) → List A → Option A
  first p [] = none
  first p (x ∷ xs) = if p x then some x else first p xs

  -- UPDATE ... WHERE p SET f
  unfoldable pub update_where : (A → Bool) → (A → A) → List A → List A
  update_where p f [] = []
  update_where p f (x ∷ xs) = (if p x then f x else x) ∷ update_where p f xs

  -- DELETE ... WHERE p
  unfoldable pub delete_where : (A → Bool) → List A → List A
  delete_where p xs = filter (λ x. not (p x)) xs

  -- INSERT ... ON CONFLICT DO NOTHING, where `p` finds the rows of the same key
  unfoldable pub insert_new : (A → Bool) → A → List A → List A
  insert_new p x xs = if any p xs then xs else xs ++ x ∷ []

  pub All-update_where {κ} :
      (P : A → Type κ) (p : A → Bool) (f : A → A) (xs : List A)
      → ((x : A) → p x ≡ true → P x → P (f x))
      → All P xs
      → All P (update_where p f xs)
  unfolding update_where
  All-update_where P p f [] keep h = tt
  All-update_where P p f (x ∷ xs) keep h = elim (Bool-cases (p x)) [
    | inl e ↦ rw e (keep x e h.0, All-update_where P p f xs keep h.1)
    | inr e ↦ rw e (h.0, All-update_where P p f xs keep h.1)
  ]

  -- What the updated rows satisfy, and the others satisfied already.
  pub All-updated {κ} :
      (P : A → Type κ) (p : A → Bool) (f : A → A) (xs : List A)
      → ((x : A) → p x ≡ true → P (f x))
      → ((x : A) → p x ≡ false → P x)
      → All P (update_where p f xs)
  unfolding update_where
  All-updated P p f [] hit miss = tt
  All-updated P p f (x ∷ xs) hit miss = elim (Bool-cases (p x)) [
    | inl e ↦ rw e (hit x e, All-updated P p f xs hit miss)
    | inr e ↦ rw e (miss x e, All-updated P p f xs hit miss)
  ]

  pub All-filter {κ} :
      (P : A → Type κ) (p : A → Bool) (xs : List A) → All P xs → All P (filter p xs)
  All-filter P p [] h = tt
  All-filter P p (x ∷ xs) h = elim (Bool-cases (p x)) [
    | inl e ↦ rw e (h.0, All-filter P p xs h.1)
    | inr e ↦ rw e (All-filter P p xs h.1)
  ]

  pub All-filtered {κ} :
      (P : A → Type κ) (p : A → Bool) (xs : List A)
      → ((x : A) → p x ≡ true → P x)
      → All P (filter p xs)
  All-filtered P p [] h = tt
  All-filtered P p (x ∷ xs) h = elim (Bool-cases (p x)) [
    | inl e ↦ rw e (h x e, All-filtered P p xs h)
    | inr e ↦ rw e (All-filtered P p xs h)
  ]

  pub All-insert_new {κ} :
      (P : A → Type κ) (p : A → Bool) (x : A) (xs : List A)
      → P x
      → All P xs
      → All P (insert_new p x xs)
  unfolding insert_new
  All-insert_new P p x xs hx h = elim (Bool-cases (any p xs)) [
    | inl e ↦ rw e h
    | inr e ↦ rw e (All-append P xs (x ∷ []) h (hx, tt))
  ]

  pub any-append : (p : A → Bool) (xs ys : List A) → any p (xs ++ ys) ≡ (any p xs || any p ys)
  any-append p [] ys = refl
  any-append p (x ∷ xs) ys = ground (arith, any-append p xs ys)

  -- After the insertion there is a row of the key.
  pub any-insert_new :
      (p : A → Bool) (x : A) (xs : List A) → p x ≡ true → any p (insert_new p x xs) ≡ true
  unfolding insert_new
  any-insert_new p x xs h = ground (arith, any-append p xs (x ∷ []))

  pub first-eq_some :
      (p : A → Bool) (xs : List A) (x : A) → first p xs ≡ some x → Member x xs × (p x ≡ true)
  unfolding first
  first-eq_some p [] x h = absurd (cc)
  first-eq_some p (y ∷ xs) x h = elim (Bool-cases (p y)) [
    | inl e ↦
        let same = some-injective y x (rw e at h) in
        (subst (λ z. Member z (y ∷ xs)) same here, rw (← same) e)
    | inr e ↦ let (m, q) = first-eq_some p xs x (rw e at h) in (there m, q)
  ]

  -- An update that keeps the test is seen in the first row that passes it.
  pub first-update_where :
      (q p : A → Bool) (f : A → A) (xs : List A)
      → ((x : A) → q (f x) ≡ q x)
      → first q (update_where p f xs)
        ≡ elim (first q xs) [ some x ↦ some (if p x then f x else x) | none ↦ none ]
  unfolding first update_where
  first-update_where q p f [] keep = refl
  first-update_where q p f (x ∷ xs) keep = ground (arith, keep x, first-update_where q p f xs keep)

  -- An update that keeps the test does not change whether some row passes it.
  pub any-update_where :
      (q p : A → Bool) (f : A → A) (xs : List A)
      → ((x : A) → q (f x) ≡ q x)
      → any q (update_where p f xs) ≡ any q xs
  unfolding update_where
  any-update_where q p f [] keep = refl
  any-update_where q p f (x ∷ xs) keep = ground (arith, keep x, any-update_where q p f xs keep)

  pub insert_new-eq_of_any :
      (p : A → Bool) (x : A) (xs : List A) → any p xs ≡ true → insert_new p x xs ≡ xs
  unfolding insert_new
  insert_new-eq_of_any p x xs h = ground arith

  pub any-insert_new_other :
      (q p : A → Bool) (x : A) (xs : List A) → any q xs ≡ true → any q (insert_new p x xs) ≡ true
  unfolding insert_new
  any-insert_new_other q p x xs h = ground (arith, any-append q xs (x ∷ []))

  pub All-update_from {κ μ} :
      (P : A → Type κ) (Q : A → Type μ) (p : A → Bool) (f : A → A) (xs : List A)
      → ((x : A) → P x → p x ≡ true → Q (f x))
      → ((x : A) → P x → p x ≡ false → Q x)
      → All P xs
      → All Q (update_where p f xs)
  unfolding update_where
  All-update_from P Q p f [] hit miss h = tt
  All-update_from P Q p f (x ∷ xs) hit miss h = elim (Bool-cases (p x)) [
    | inl e ↦ rw e (hit x h.0 e, All-update_from P Q p f xs hit miss h.1)
    | inr e ↦ rw e (miss x h.0 e, All-update_from P Q p f xs hit miss h.1)
  ]

  pub count-update_where :
      (q p : A → Bool) (f : A → A) (xs : List A)
      → ((x : A) → q (f x) ≡ q x)
      → length (filter q (update_where p f xs)) ≡ length (filter q xs)
  unfolding update_where
  count-update_where q p f [] keep = refl
  count-update_where q p f (x ∷ xs) keep = ground (arith, keep x, count-update_where q p f xs keep)

  any-of_count_zero :
      (q p : A → Bool) (xs : List A)
      → ((x : A) → p x ≡ true → q x ≡ true)
      → length (filter q xs) ≡ 0
      → any p xs ≡ false
  any-of_count_zero q p [] sub h = refl
  any-of_count_zero q p (x ∷ xs) sub h = ground (arith, sub x, any-of_count_zero q p xs sub)

  All-of_count_zero :
      (q : A → Bool) (xs : List A) → length (filter q xs) ≡ 0 → All (λ x. q x ≡ false) xs
  All-of_count_zero q [] h = tt
  All-of_count_zero q (x ∷ xs) h = (ground arith, All-of_count_zero q xs (ground arith))

  -- Where one row at most passes `q`, and some row passes the narrower `p`, it is that row.
  pub All-of_unique :
      (q p : A → Bool) (xs : List A)
      → ((x : A) → p x ≡ true → q x ≡ true)
      → length (filter q xs) ≤ 1
      → any p xs ≡ true
      → All (λ x. q x ≡ true → p x ≡ true) xs
  All-of_unique q p [] sub one some_row = tt
  All-of_unique q p (x ∷ xs) sub one some_row = elim (Bool-cases (q x)) [
    | inl e ↦
        let zero_rest = count_rest (length (filter q xs)) (rw e at one) in
        (
          λ g. ground (arith, any-of_count_zero q p xs sub zero_rest),
          All-imp xs (λ y n g. absurd (cc)) (All-of_count_zero q xs zero_rest),
        )
    | inr e ↦ (λ g. absurd (cc), All-of_unique q p xs sub (rw e at one) (ground (arith, sub x)))
  ]
    where
      count_rest : (n : ℕ) → suc n ≤ 1 → n ≡ 0
      count_rest n h = omega (arith, h)

  pub count-append_one_le :
      (p : A → Bool) (xs : List A) (t : A)
      → length (filter p (xs ++ t ∷ [])) ≤ length (filter p xs) + 1
  count-append_one_le p [] t = ground arith
  count-append_one_le p (x ∷ xs) t = ground (arith, count-append_one_le p xs t)

  pub count-append_other :
      (p : A → Bool) (xs : List A) (t : A)
      → p t ≡ false
      → length (filter p (xs ++ t ∷ [])) ≡ length (filter p xs)
  count-append_other p [] t h = ground arith
  count-append_other p (x ∷ xs) t h = ground (arith, count-append_other p xs t h)

  pub All-filter_imp {κ μ} :
      (P : A → Type κ) (Q : A → Type μ) (p : A → Bool) (xs : List A)
      → ((x : A) → P x → p x ≡ true → Q x)
      → All P xs
      → All Q (filter p xs)
  All-filter_imp P Q p [] imp h = tt
  All-filter_imp P Q p (x ∷ xs) imp h = elim (Bool-cases (p x)) [
    | inl e ↦ rw e (imp x h.0 e, All-filter_imp P Q p xs imp h.1)
    | inr e ↦ rw e (All-filter_imp P Q p xs imp h.1)
  ]

  pub first-append :
      (q : A → Bool) (xs : List A) (x : A)
      → first q (xs ++ x ∷ [])
        ≡ elim (first q xs) [ some y ↦ some y | none ↦ if q x then some x else none ]
  unfolding first
  first-append q [] x = ground arith
  first-append q (y ∷ xs) x = ground (arith, first-append q xs x)

  -- No row that a deletion names is left.
  pub first-delete_where :
      (q p : A → Bool) (xs : List A)
      → ((x : A) → q x ≡ true → p x ≡ true)
      → first q (delete_where p xs) ≡ none
  unfolding first delete_where
  first-delete_where q p [] sub = refl
  first-delete_where q p (x ∷ xs) sub = ground (arith, sub x, first-delete_where q p xs sub)

  pub Member-update_where :
      (p : A → Bool) (f : A → A) {x : A} {xs : List A}
      → Member x xs
      → Member (if p x then f x else x) (update_where p f xs)
  unfolding update_where
  Member-update_where p f here = here
  Member-update_where p f (there m) = there (Member-update_where p f m)

  pub length-update_where :
      (p : A → Bool) (f : A → A) (xs : List A) → length (update_where p f xs) ≡ length xs
  unfolding update_where
  length-update_where p f [] = refl
  length-update_where p f (x ∷ xs) = omega (arith, length-update_where p f xs)
