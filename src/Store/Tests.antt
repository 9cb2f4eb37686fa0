-- ===== src/Store/Tests.antt =====
-- A store of two users, and the theorems there.
use factech.Base.{
  ℕ, false, List, [], ◌∷◌, String, Dict, lookup, insert, length, leb, string_eq, ◌≡◌, refl, arith,
  ◌&&◌,
}
use factech.Store.{Stored, evict_templates, get_templates, enroll, is_new}
use factech.Store.Laws.{IsStore, enroll-IsStore, get_templates-enroll_other}

abbrev item : ℕ → Stored ℕ
item n = record { template_id = "f"; embedding = n }

-- Five templates of one user, one of another.
abbrev store : Dict String (List (Stored ℕ))
store = ("u1", item 1 ∷ item 2 ∷ item 3 ∷ item 4 ∷ item 5 ∷ []) ∷ ("u2", item 6 ∷ []) ∷ []

oldest_goes :
    get_templates "u1" (enroll "u1" 7 "f" store) ≡ item 2 ∷ item 3 ∷ item 4 ∷ item 5 ∷ item 7 ∷ []
unfolding get_templates enroll evict_templates lookup insert
oldest_goes = refl

store-IsStore : IsStore store
unfolding lookup
store-IsStore = ((refl, (refl, tt)), omega arith, (omega arith, (omega arith, tt)))

enroll-IsStore_example : IsStore (enroll "u1" 7 "f" store)
enroll-IsStore_example = enroll-IsStore "u1" 7 "f" store store-IsStore

room : (is_new (lookup "u3" store) && leb 1000 (length store)) ≡ false
unfolding lookup
room = refl

get_templates-enroll_other_example :
    get_templates "u2" (enroll "u3" 7 "f" store) ≡ get_templates "u2" store
get_templates-enroll_other_example = get_templates-enroll_other "u3" "u2" 7 "f" store refl room
