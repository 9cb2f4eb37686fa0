-- ===== src/Challenge/Echo.antt =====
-- The parameters of a challenge, and the test that a client echoes them.
use factech.Base.{
  ℕ, Bool, true, false, ◌&&◌, Option, none, some, [], ◌∷◌, String, Dict, lookup, all, ◌==◌,
  string_eq, int_eq, ℤ, pos, if◌then◌else◌,
}
use factech.Numbers.{Floats}

-- A value out of JSON. `other` is a text, None, a list or an object: the test treats these alike.
pub data Value (F : Type 0) : Type 0 where
  bool : Bool → Value F
  int : ℤ → Value F
  float : F → Value F
  other : Value F

-- What `_draw_params` returns, for HEAD_SEQUENCE and for any other action.
pub data Params (F : Type 0) : Type 0 where
  head : (settle_ms switch_ms : ℕ) (first_sign : ℤ) (target : F) → Params F
  single : (settle_ms : ℕ) (target : F) → Params F

abbrev pub Presented : Type 0 → Type 0
Presented F = Dict String (Value F)

module _ {F : Type 0} where
  -- The parameters as the dictionary that the code keeps.
  abbrev pub items : Params F → Presented F
  items (head settle_ms switch_ms first_sign target) =
      ("settle_ms", Value.int (pos settle_ms))
      ∷ ("switch_ms", Value.int (pos switch_ms))
      ∷ ("first_sign", Value.int first_sign)
      ∷ ("target", Value.float target)
      ∷ []
  items (single settle_ms target) =
      ("settle_ms", Value.int (pos settle_ms)) ∷ ("target", Value.float target) ∷ []

  abbrev pub is_some : Option (Value F) → Bool
  is_some none = false
  is_some (some v) = true

  abbrev pub contains : String → Presented F → Bool
  contains k d = is_some (lookup k d)

  -- set(presented) == set(issued)
  unfoldable pub same_keys : Presented F → Presented F → Bool
  same_keys a b =
      all (λ (p : String × Value F). contains p.0 b) a
      && all (λ (p : String × Value F). contains p.0 a) b

  -- type(v) in (int, float)
  abbrev pub is_number : Value F → Bool
  is_number (Value.int n) = true
  is_number (Value.float x) = true
  is_number _ = false

  abbrev pub settle_of : Params F → ℕ
  settle_of (head settle_ms switch_ms first_sign target) = settle_ms
  settle_of (single settle_ms target) = settle_ms

  abbrev pub target_of : Params F → F
  target_of (head settle_ms switch_ms first_sign target) = target
  target_of (single settle_ms target) = target

  abbrev pub settle_matches : Option (Value F) → ℕ → Bool
  settle_matches (some (Value.int s)) settle = s == pos settle
  settle_matches _ settle = false

  module _ (fl : Floats F) where
    -- `==` between two numbers
    abbrev pub num_eq : Value F → Value F → Bool
    num_eq (Value.int a) (Value.int b) = a == b
    num_eq (Value.int a) (Value.float y) = fl.eq_int y a
    num_eq (Value.float x) (Value.int b) = fl.eq_int x b
    num_eq (Value.float x) (Value.float y) = fl.eq x y
    num_eq _ _ = false

    abbrev pub echo_value : Option (Value F) → Value F → Bool
    echo_value none v = false
    echo_value (some p) v = is_number p && num_eq p v

    -- The test under `all`, for one item of the issued parameters.
    unfoldable pub echo : Presented F → String × Value F → Bool
    echo presented (k, v) = echo_value (lookup k presented) v

    -- abs(target - issued["target"]) <= TARGET_ECHO_TOLERANCE
    unfoldable pub near : F → F → Bool
    near x y = fl.le (fl.abs (fl.sub x y)) (fl.ratio 1 1000000)

    -- An int is taken by `float`, and is within the range of doubles.
    abbrev pub target_matches : Option (Value F) → F → Bool
    target_matches (some (Value.int t)) target = near (fl.of_int t) target
    target_matches (some (Value.float t)) target = near t target
    target_matches _ target = false

    -- _params_match
    unfoldable pub params_match : Option (Presented F) → Params F → Bool
    unfolding same_keys echo near
    params_match none issued = false
    params_match (some presented) issued =
        if contains "first_sign" (items issued)
        then same_keys presented (items issued) && all (echo presented) (items issued)
        else settle_matches (lookup "settle_ms" presented) (settle_of issued)
          && target_matches (lookup "target" presented) (target_of issued)
