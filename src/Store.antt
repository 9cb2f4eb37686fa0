-- ===== src/Store.antt =====
-- engine/app/store.py: the engine's templates in memory, bounded by the number of users and by the
-- number of templates of each. Each block under the lock is one step; the new id is an argument.
pub mod Laws
mod Tests
use factech.Base.{
  ℕ, ◌≤◌, Bool, true, false, not, Option, none, some, List, [], ◌∷◌, ◌++◌, String, Dict, lookup,
  insert, erase, length, leb, ltb, string_eq, if◌then◌else◌,
}

abbrev pub max_templates_per_user : ℕ
max_templates_per_user = 5

abbrev pub max_users : ℕ
max_users = 1000

pub record Stored (E : Type 0) : Type 0 where
  pub template_id : String
  pub embedding : E

module _ {E : Type 0} where
  -- while len(_templates) >= MAX_USERS: the first entry goes
  unfoldable pub evict_users : Dict String (List (Stored E)) → Dict String (List (Stored E))
  evict_users [] = []
  evict_users (entry ∷ d) =
      let rest = evict_users d in if leb max_users (length (entry ∷ d)) then rest else entry ∷ d

  -- while len(user_templates) > MAX_TEMPLATES_PER_USER: the oldest goes
  unfoldable pub evict_templates : List (Stored E) → List (Stored E)
  evict_templates [] = []
  evict_templates (t ∷ ts) =
      let rest = evict_templates ts in
      if ltb max_templates_per_user (length (t ∷ ts)) then rest else t ∷ ts

  abbrev pub or_empty : Option (List (Stored E)) → List (Stored E)
  or_empty none = []
  or_empty (some ts) = ts

  abbrev pub is_new : Option (List (Stored E)) → Bool
  is_new none = true
  is_new (some ts) = false

  unfoldable pub get_templates : String → Dict String (List (Stored E)) → List (Stored E)
  get_templates user_id d = or_empty (lookup user_id d)

  unfoldable pub has_user : String → Dict String (List (Stored E)) → Bool
  has_user user_id d = not (leb (length (get_templates user_id d)) 0)

  -- The dictionary in which `enroll` sets its entry.
  abbrev pub room_for : String → Dict String (List (Stored E)) → Dict String (List (Stored E))
  room_for user_id d = if is_new (lookup user_id d) then evict_users d else d

  unfoldable pub enroll :
      String → E → String → Dict String (List (Stored E)) → Dict String (List (Stored E))
  enroll user_id embedding template_id d =
      let d' = room_for user_id d in
      insert user_id
        (evict_templates (
          or_empty (lookup user_id d')
          ++ record { template_id = template_id; embedding = embedding } ∷ []))
        d'

  -- delete_user, with the number that it returns
  unfoldable pub delete_user :
      String → Dict String (List (Stored E)) → ℕ × Dict String (List (Stored E))
  delete_user user_id d = (length (get_templates user_id d), erase user_id d)
