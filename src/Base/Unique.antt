-- ===== src/Base/Unique.antt =====
-- Dictionaries with one entry for a key, and how many entries a set of keys allows.
use Prim.Native.Nat.{suc, ◌≤◌, ◌<◌}
use mathlib.Core.Path.{◌≡◌, refl, subst}
use mathlib.Core.Logic.{◌≢◌, inl, inr}
use mathlib.Core.Bool.{Bool}
use mathlib.Core.Option.{none, some}
use mathlib.Core.List.{List, [], ◌∷◌, ◌++◌}
use native.Mathlib.Omega.{arith}
use factech.Base.Tests.{Eq, ◌==◌, Bool-cases, Option-cases}
use factech.Base.Lists.{length, filter, Member, here, there}
use factech.Base.Maps.{
  Dict, lookup, insert, erase, lookup-insert, lookup-erase, lookup-append, length-erase-le,
}

module _ {ℓ κ} {K : Type ℓ} {V : Type κ} ⦃e : Eq K⦄ where
  abbrev pub UniqueKeys : Dict K V → Type κ
  UniqueKeys [] = Unit
  UniqueKeys ((k, v) ∷ d) = (lookup k d ≡ none) × UniqueKeys d

  pub lookup-erase_self : (k : K) (d : Dict K V) → lookup k (erase k d) ≡ none
  lookup-erase_self k d = ground (arith, lookup-erase k k d, e.beq_iff k k)

  pub UniqueKeys-erase : (k : K) (d : Dict K V) → UniqueKeys d → UniqueKeys (erase k d)
  unfolding erase
  UniqueKeys-erase k [] u = tt
  UniqueKeys-erase k ((j, v) ∷ d) u = elim (Bool-cases (j == k)) [
    | inl q ↦ rw q (UniqueKeys-erase k d u.1)
    | inr q ↦ rw q (ground (arith, lookup-erase k j d, u.0), UniqueKeys-erase k d u.1)
  ]

  pub UniqueKeys-append :
      (k : K) (v : V) (d : Dict K V)
      → lookup k d ≡ none
      → UniqueKeys d
      → UniqueKeys (d ++ (k, v) ∷ [])
  unfolding lookup
  UniqueKeys-append k v [] h u = (refl, tt)
  UniqueKeys-append k v ((j, w) ∷ d) h u = (
    ground (arith, lookup-append j k v d, lookup-append k j v d, e.beq_iff j k, e.beq_iff k j, u.0),
    UniqueKeys-append k v d (ground arith) u.1,
  )

  pub UniqueKeys-insert : (k : K) (v : V) (d : Dict K V) → UniqueKeys d → UniqueKeys (insert k v d)
  unfolding insert lookup
  UniqueKeys-insert k v [] u = (refl, tt)
  UniqueKeys-insert k v ((j, w) ∷ d) u = elim (Bool-cases (j == k)) [
    | inl q ↦ rw q u
    | inr q ↦ rw q (
      ground (arith, lookup-insert k j v d, u.0, e.beq_iff j k, e.beq_iff k j),
      UniqueKeys-insert k v d u.1,
    )
  ]

  pub erase-eq_of_none : (k : K) (d : Dict K V) → lookup k d ≡ none → erase k d ≡ d
  unfolding erase lookup
  erase-eq_of_none k [] h = refl
  erase-eq_of_none k ((j, v) ∷ d) h = ground (arith, erase-eq_of_none k d)

  pub length-erase-ge : (k : K) (d : Dict K V) → UniqueKeys d → length d ≤ suc (length (erase k d))
  unfolding erase
  length-erase-ge k [] u = omega arith
  length-erase-ge k ((j, v) ∷ d) u = elim (Bool-cases (j == k)) [
    | inl q ↦
        let same = (e.beq_iff j k).0 q in
        rw (q, erase-eq_of_none k d (subst (λ x. lookup x d ≡ none) same u.0)) (omega arith)
    | inr q ↦ rw q (omega (arith, length-erase-ge k d u.1))
  ]

  -- A dictionary whose keys all lie in a list is no longer than the list.
  pub length-le-of_keys :
      (pool : List K) (d : Dict K V)
      → UniqueKeys d
      → ((k : K) → lookup k d ≢ none → Member k pool)
      → length d ≤ length pool
  length-le-of_keys [] [] u h = omega arith
  length-le-of_keys [] ((k, v) ∷ d) u h =
      elim (h k (unfold lookup in ground (arith, e.beq_iff k k))) [ ]
  length-le-of_keys (p ∷ pool) d u h = omega (
    arith,
    length-erase-ge p d u,
    length-le-of_keys pool (erase p d) (UniqueKeys-erase p d u) inner,
  )
    where
      not_head : (k : K) → Member k (p ∷ pool) → p ≢ k → Member k pool
      not_head k here n = absurd (n refl)
      not_head k (there m) n = m

      inner : (k : K) → lookup k (erase p d) ≢ none → Member k pool
      inner k g =
          not_head k (h k (λ z. g (ground (arith, lookup-erase p k d))))
            (λ q. g (ground (arith, lookup-erase p k d, e.beq_iff p k)))

  pub length-erase-lt : (k : K) (d : Dict K V) → lookup k d ≢ none → length (erase k d) < length d
  unfolding erase lookup
  length-erase-lt k [] h = absurd (h refl)
  length-erase-lt k ((j, v) ∷ d) h = elim (Bool-cases (j == k)) [
    | inl q ↦ rw q (omega (arith, length-erase-le k d))
    | inr q ↦ rw q (omega (arith, length-erase-lt k d (λ z. h (rw q z))))
  ]

  -- Every entry of the first is one of the second.
  abbrev pub Within : Dict K V → Dict K V → Type (ℓ ⊔ κ)
  Within d' d = (k : K) (v : V) → lookup k d' ≡ some v → lookup k d ≡ some v

  pub Within-none : (d' d : Dict K V) (k : K) → Within d' d → lookup k d ≡ none → lookup k d' ≡ none
  Within-none d' d k sub h = elim (Option-cases (lookup k d')) [
    | inl q ↦ q
    | inr (v, q) ↦ absurd (cc (sub k v q))
  ]

  Within-skip :
      (j : K) (w : V) (d' d : Dict K V) → lookup j d ≡ none → Within d' d → Within d' ((j, w) ∷ d)
  unfolding lookup
  Within-skip j w d' d h sub k v q = ground (arith, sub k v q, e.beq_iff j k)

  Within-keep : (j : K) (w : V) (d' d : Dict K V) → Within d' d → Within ((j, w) ∷ d') ((j, w) ∷ d)
  unfolding lookup
  Within-keep j w d' d sub k v q = ground (arith, sub k v)

  pub Within-filter : (p : K × V → Bool) (d : Dict K V) → UniqueKeys d → Within (filter p d) d
  Within-filter p [] u = λ k v h. h
  Within-filter p ((j, w) ∷ d) u = elim (Bool-cases (p (j, w))) [
    | inl q ↦ rw q (Within-keep j w (filter p d) d (Within-filter p d u.1))
    | inr q ↦ rw q (Within-skip j w (filter p d) d u.0 (Within-filter p d u.1))
  ]

  pub UniqueKeys-filter : (p : K × V → Bool) (d : Dict K V) → UniqueKeys d → UniqueKeys (filter p d)
  UniqueKeys-filter p [] u = tt
  UniqueKeys-filter p ((j, w) ∷ d) u = elim (Bool-cases (p (j, w))) [
    | inl q ↦
        rw q (Within-none (filter p d) d j (Within-filter p d u.1) u.0, UniqueKeys-filter p d u.1)
    | inr q ↦ rw q (UniqueKeys-filter p d u.1)
  ]

  pub Within-tail : (j : K) (w : V) (d : Dict K V) → lookup j d ≡ none → Within d ((j, w) ∷ d)
  Within-tail j w d h = Within-skip j w d d h (λ k v q. q)

  pub Within-rest :
      (j : K) (w : V) (d' d : Dict K V) → lookup j d ≡ none → Within d' d → Within d' ((j, w) ∷ d)
  Within-rest j w d' d h sub = Within-skip j w d' d h sub
