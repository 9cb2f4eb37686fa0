-- ===== src/Flags.antt =====
-- engine/app/flags.py: environment flags. The environment is an argument, the value of the flag's
-- variable or `none`. The module's set `_warned` and its log are the state; the lock around the set
-- makes each reading one step. `lower` stands for Python's `str.lower` and may be any function.
mod Laws
mod Tests
use factech.Base.{
  Bool, true, false, ◌||◌, ◌&&◌, Option, none, some, List, [], ◌∷◌, ◌++◌, String, any, ◌==◌,
  string_eq, strip, if◌then◌else◌,
}

abbrev pub one_of : String → List String → Bool
one_of s allowed = any (λ a. a == s) allowed

abbrev pub off_values : List String
off_values = "0" ∷ "false" ∷ "no" ∷ "off" ∷ []

abbrev pub on_values : List String
on_values = "1" ∷ "true" ∷ "yes" ∷ "on" ∷ []

-- `_warned`, and one log line for each warning, newest last
pub record Warnings : Type 0 where
  pub warned : List (String × String)
  pub lines : List (String × String)

abbrev pub has_pair : String → String → List (String × String) → Bool
has_pair name value [] = false
has_pair name value ((n, v) ∷ rest) = (n == name && v == value) || has_pair name value rest

-- _read
unfoldable pub read : Option String → Option String
read none = none
read (some value) = if strip value == "" then none else some (strip value)

-- _invalid
unfoldable pub invalid : String → String → Warnings → Warnings
invalid name value w =
    if has_pair name value w.warned
    then w
    else record { warned = (name, value) ∷ w.warned; lines = w.lines ++ (name, value) ∷ [] }

-- reset_warnings
unfoldable pub reset_warnings : Warnings → Warnings
reset_warnings w = record w { warned = [] }

module _ (lower : String → String) where
  unfoldable pub is_off : String → Bool
  is_off value = one_of (lower (strip value)) off_values

  enabled_value : String → Bool → Option String → Warnings → Bool × Warnings
  enabled_value name default none w = (default, w)
  enabled_value name default (some value) w =
      if one_of (lower value) off_values
      then (false, w)
      else if one_of (lower value) on_values
      then (true, w)
      else (default, invalid name value w)

  unfoldable pub enabled : String → Bool → Option String → Warnings → Bool × Warnings
  unfolding enabled_value read
  enabled name default env w = enabled_value name default (read env) w

  choice_value : String → List String → String → Bool → Option String → Warnings → String × Warnings
  choice_value name allowed default case_sensitive none w = (default, w)
  choice_value name allowed default case_sensitive (some value) w =
      let key = if case_sensitive then value else lower value in
      if one_of key allowed then (key, w) else (default, invalid name value w)

  -- `none` is the ValueError on a default that is not allowed
  unfoldable pub choice :
      String → List String → String → Bool → Option String → Warnings → Option (String × Warnings)
  unfolding choice_value
  choice name allowed default case_sensitive env w =
      if one_of default allowed
      then some (choice_value name allowed default case_sensitive (read env) w)
      else none
