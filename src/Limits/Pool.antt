-- ===== src/Limits/Pool.antt =====
-- Calls by at most `keys` different keys never find the table full.
use factech.Base.{
  ℕ, ◌*◌, ◌≤◌, none, List, [], ◌∷◌, ◌++◌, String, Dict, lookup, length, leb, ◌==◌, string_eq,
  eq_iff, ◌≡◌, ◌≢◌, refl, ap, subst, arith, Bool-cases, inl, inr, Member, UniqueKeys,
  length-le-of_keys, All,
}
use factech.Limits.{Window, touch, retry_after, window, second}
use factech.Limits.Rate.{
  Calls, HasRoom, InOrder, retry_after-config, refused, allowed, live_of, admitted,
  admitted-le-limit,
}
use factech.Limits.Pace.{count_if, within}
use factech.Limits.Table.{lookup-touch, UniqueKeys-touch}

module _ (key : String) (t : ℕ) (w : Window) where
  step_shape :
      length (touch key [] w.hits) ≤ w.keys
      → (l : List ℕ) × ((retry_after key t w).1.hits ≡ touch key l w.hits)
  step_shape room = elim (Bool-cases (leb w.limit (length (live_of key key t w)))) [
    | inl e ↦ (live_of key key t w, ap (λ (r : ℕ × Window). r.1.hits) (refused key key t w e))
    | inr e ↦ (
      live_of key key t w ++ t ∷ [],
      ap (λ (r : ℕ × Window). r.1.hits) (allowed key key t w e room),
    )
  ]

module _ (pool : List String) where
  abbrev KeysIn : Dict String (List ℕ) → Type 0
  KeysIn d = (k : String) → lookup k d ≢ none → Member k pool

  -- Every call is for a key of the pool.
  abbrev pub CallsIn : Calls → Type 0
  CallsIn calls = All (λ (c : String × ℕ). Member c.0 pool) calls

  KeysIn-touch :
      (key : String) (l : List ℕ) (d : Dict String (List ℕ))
      → Member key pool
      → KeysIn d
      → KeysIn (touch key l d)
  KeysIn-touch key l d m h k g = elim (Bool-cases (key == k)) [
    | inl e ↦ subst (λ x. Member x pool) ((eq_iff key k).0 e) m
    | inr e ↦ h k (λ z. g (rw (lookup-touch key k l d, e) z))
  ]

  HasRoom-of_KeysIn :
      (w : Window) (calls : Calls)
      → length pool ≤ w.keys
      → UniqueKeys w.hits
      → KeysIn w.hits
      → CallsIn calls
      → HasRoom w calls
  HasRoom-of_KeysIn w [] le u h c = tt
  HasRoom-of_KeysIn w ((key, t) ∷ calls) le u h c =
      let u' = UniqueKeys-touch key [] w.hits u in
      let h' = KeysIn-touch key [] w.hits c.0 h in
      let fits = length-le-of_keys pool (touch key [] w.hits) u' h' in
      let room : length (touch key [] w.hits) ≤ w.keys = omega (arith, fits) in
      let (l, shape) = step_shape key t w room in
      (
        room,
        HasRoom-of_KeysIn (retry_after key t w).1 calls (omega (arith, retry_after-config key t w))
            (rw shape (UniqueKeys-touch key l w.hits u))
            (rw shape (KeysIn-touch key l w.hits c.0 h)) c.1,
      )

  -- A new window that is called at any times in order, by at most `keys` different keys, lets at
  -- most `limit` calls of one key through in every stretch of `seconds` seconds.
  pub pool-admitted-le-limit :
      (limit seconds keys : ℕ) (calls : Calls) (key : String) (start : ℕ)
      → InOrder 0 calls
      → length pool ≤ keys
      → CallsIn calls
      → count_if
          (within (seconds * second) start)
          (admitted key (window limit seconds keys) calls [])
        ≤ limit
  pool-admitted-le-limit limit seconds keys calls key start o le c =
      admitted-le-limit limit seconds keys calls key start o (
        HasRoom-of_KeysIn (window limit seconds keys) calls le tt
          (λ k g. absurd (g (unfold lookup in refl))) c)
