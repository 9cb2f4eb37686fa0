-- ===== src/Store/Laws.antt =====
-- The bounds of the store, and what is found in it.
use factech.Base.{
  ◌≤◌, ◌<◌, false, ◌&&◌, none, List, [], ◌∷◌, ◌++◌, String, Dict, lookup, insert, lookup-insert,
  lookup-erase, length-insert-le, UniqueKeys, UniqueKeys-insert, length, leb, ◌==◌, string_eq, ◌≡◌,
  refl, arith, Bool-cases, Option-cases, inl, inr, All,
}
use factech.Store.{
  Stored, evict_users, evict_templates, or_empty, is_new, room_for, get_templates, enroll,
  delete_user, max_users,
}

module _ {E : Type 0} where
  -- One entry for a user, at most a thousand users, at most five templates for each.
  abbrev pub IsStore : Dict String (List (Stored E)) → Type 0
  IsStore d =
      UniqueKeys d
      × (length d ≤ 1000)
      × All (λ (entry : String × List (Stored E)). length entry.1 ≤ 5) d

  evict_templates-le : (ts : List (Stored E)) → length (evict_templates ts) ≤ 5
  unfolding evict_templates
  evict_templates-le [] = omega arith
  evict_templates-le (t ∷ ts) = ground (arith, evict_templates-le ts)

  length-evict_users : (d : Dict String (List (Stored E))) → length (evict_users d) < 1000
  unfolding evict_users
  length-evict_users [] = omega arith
  length-evict_users (entry ∷ d) = ground (arith, length-evict_users d)

  evict_users-AreShort :
      (d : Dict String (List (Stored E)))
      → All (λ (entry : String × List (Stored E)). length entry.1 ≤ 5) d
      → All (λ (entry : String × List (Stored E)). length entry.1 ≤ 5) (evict_users d)
  unfolding evict_users
  evict_users-AreShort [] h = tt
  evict_users-AreShort (entry ∷ d) h = elim (Bool-cases (leb max_users (length (entry ∷ d)))) [
    | inl e ↦ rw e (evict_users-AreShort d h.1)
    | inr e ↦ rw e h
  ]

  UniqueKeys-evict_users :
      (d : Dict String (List (Stored E))) → UniqueKeys d → UniqueKeys (evict_users d)
  unfolding evict_users
  UniqueKeys-evict_users [] u = tt
  UniqueKeys-evict_users ((k, v) ∷ d) u = elim (Bool-cases (leb max_users (length ((k, v) ∷ d)))) [
    | inl e ↦ rw e (UniqueKeys-evict_users d u.1)
    | inr e ↦ rw e u
  ]

  lookup-evict_users :
      (k : String) (d : Dict String (List (Stored E)))
      → lookup k d ≡ none
      → lookup k (evict_users d) ≡ none
  unfolding evict_users lookup
  lookup-evict_users k [] h = refl
  lookup-evict_users k ((j, v) ∷ d) h = ground (arith, lookup-evict_users k d)

  evict_users-eq : (d : Dict String (List (Stored E))) → length d < 1000 → evict_users d ≡ d
  unfolding evict_users
  evict_users-eq [] h = refl
  evict_users-eq (entry ∷ d) h = ground arith

  length-insert_known :
      (k : String) (v : List (Stored E)) (d : Dict String (List (Stored E)))
      → is_new (lookup k d) ≡ false
      → length (insert k v d) ≡ length d
  unfolding insert lookup
  length-insert_known k v [] h = absurd (cc)
  length-insert_known k v ((j, w) ∷ d) h = ground (arith, length-insert_known k v d)

  insert-AreShort :
      (k : String) (v : List (Stored E)) (d : Dict String (List (Stored E)))
      → length v ≤ 5
      → All (λ (entry : String × List (Stored E)). length entry.1 ≤ 5) d
      → All (λ (entry : String × List (Stored E)). length entry.1 ≤ 5) (insert k v d)
  unfolding insert
  insert-AreShort k v [] s h = (s, tt)
  insert-AreShort k v ((j, w) ∷ d) s h = elim (Bool-cases (j == k)) [
    | inl e ↦ rw e (s, h.1)
    | inr e ↦ rw e (h.0, insert-AreShort k v d s h.1)
  ]

  -- An enrolment keeps one entry for a user, at most a thousand users and at most five templates for
  -- each.
  pub enroll-IsStore :
      (user_id : String) (embedding : E) (template_id : String) (d : Dict String (List (Stored E)))
      → IsStore d
      → IsStore (enroll user_id embedding template_id d)
  unfolding enroll
  enroll-IsStore user_id embedding template_id d (u, n, s) =
      elim (Bool-cases (is_new (lookup user_id d))) [
        | inl e ↦ rw e (
          UniqueKeys-insert user_id _ (evict_users d) (UniqueKeys-evict_users d u),
          omega (
            arith,
            length-insert-le user_id (stored (evict_users d)) (evict_users d),
            length-evict_users d,
          ),
          insert-AreShort user_id _ (evict_users d) (evict_templates-le _)
              (evict_users-AreShort d s),
        )
        | inr e ↦ rw e (
          UniqueKeys-insert user_id _ d u,
          rw (length-insert_known user_id (stored d) d e) n,
          insert-AreShort user_id _ d (evict_templates-le _) s,
        )
      ]
    where
      stored : Dict String (List (Stored E)) → List (Stored E)
      stored d' = evict_templates (
          or_empty (lookup user_id d')
          ++ record { template_id = template_id; embedding = embedding } ∷ [])

  room_for-user :
      (user_id : String) (d : Dict String (List (Stored E)))
      → or_empty (lookup user_id (room_for user_id d)) ≡ or_empty (lookup user_id d)
  room_for-user user_id d = elim (Option-cases (lookup user_id d)) [
    | inl e ↦ rw e (rw (lookup-evict_users user_id d e) refl)
    | inr (ts, e) ↦ rw e (rw e refl)
  ]

  -- After an enrolment the user has the earlier templates and the new one, less the oldest beyond five.
  pub get_templates-enroll :
      (user_id : String) (embedding : E) (template_id : String) (d : Dict String (List (Stored E)))
      → get_templates user_id (enroll user_id embedding template_id d)
        ≡ evict_templates (
            get_templates user_id d
            ++ record { template_id = template_id; embedding = embedding } ∷ [])
  unfolding enroll get_templates
  get_templates-enroll user_id embedding template_id d =
      rw
        (
          lookup-insert user_id user_id _ (room_for user_id d),
          (string_eq.beq_iff user_id user_id).1 refl,
          room_for-user user_id d,
        )
        refl

  -- An enrolment leaves the templates of everybody else as they are, unless it is of a new user into a
  -- store of a thousand.
  pub get_templates-enroll_other :
      (user_id other : String) (embedding : E) (template_id : String)
      (d : Dict String (List (Stored E)))
      → (user_id == other) ≡ false
      → (is_new (lookup user_id d) && leb 1000 (length d)) ≡ false
      → get_templates other (enroll user_id embedding template_id d) ≡ get_templates other d
  unfolding enroll get_templates
  get_templates-enroll_other user_id other embedding template_id d apart room =
      elim (Bool-cases (is_new (lookup user_id d))) [
        | inr e ↦ rw e (rw (lookup-insert user_id other _ d, apart) refl)
        | inl e ↦
            rw (e, evict_users-eq d (ground arith))
              (rw (lookup-insert user_id other _ d, apart) refl)
      ]

  -- A deletion returns how many templates the user had, and leaves none.
  pub delete_user-get_templates :
      (user_id : String) (d : Dict String (List (Stored E)))
      → ((delete_user user_id d).0 ≡ length (get_templates user_id d))
        × (get_templates user_id (delete_user user_id d).1 ≡ [])
  unfolding delete_user get_templates
  delete_user-get_templates user_id d =
      (refl, rw (lookup-erase user_id user_id d, (string_eq.beq_iff user_id user_id).1 refl) refl)
