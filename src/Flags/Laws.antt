-- ===== src/Flags/Laws.antt =====
-- What the readers of flags promise.
use factech.Base.{
  Bool, true, false, ◌||◌, ◌&&◌, Option, none, some, List, [], ◌∷◌, ◌++◌, String, ◌==◌, string_eq,
  ◌≡◌, ◌⊎◌, inl, inr, refl, arith, eq_iff, if◌then◌else◌, Bool-cases, ◌∙◌, sym, subst,
}
use factech.Flags.{
  one_of, Warnings, has_pair, read, invalid, choice, choice_value, enabled, enabled_value,
  on_values, off_values,
}

-- Every line of the log is another pair: no flag's value was reported twice.
abbrev pub Distinct : List (String × String) → Type 0
Distinct [] = Unit
Distinct ((n, v) ∷ rest) = (has_pair n v rest ≡ false) × Distinct rest

-- Each warned pair is in the log exactly once.
pub record IsOnce (w : Warnings) : Type 0 where
  pub distinct : Distinct w.lines
  pub logged : (n v : String) → has_pair n v w.lines ≡ has_pair n v w.warned

has_pair-append :
    (n v m u : String) (l : List (String × String))
    → has_pair n v (l ++ (m, u) ∷ []) ≡ (has_pair n v l || (m == n && u == v))
has_pair-append n v m u [] = ground arith
has_pair-append n v m u ((k, w) ∷ l) = ground (arith, has_pair-append n v m u l)

Distinct-append :
    (n v : String) (l : List (String × String))
    → Distinct l
    → has_pair n v l ≡ false
    → Distinct (l ++ (n, v) ∷ [])
Distinct-append n v [] d h = (refl, tt)
Distinct-append n v ((m, u) ∷ l) d h = (
  ground (arith, has_pair-append m u n v l, d.0, eq_iff m n, eq_iff n m, eq_iff u v, eq_iff v u),
  Distinct-append n v l d.1 (ground arith),
)

-- A warning is logged at the first sight of its flag and value and never again.
pub invalid-IsOnce : (name value : String) (w : Warnings) → IsOnce w → IsOnce (invalid name value w)
unfolding invalid
invalid-IsOnce name value w h = elim (Bool-cases (has_pair name value w.warned)) [
  | inl old ↦ rw old h
  | inr new ↦ rw new (record {
    distinct = Distinct-append name value w.lines h.distinct (h.logged name value ∙ new);
    logged = λ n v. ground (arith, has_pair-append n v name value w.lines, h.logged n v);
  })
]

module _ (lower : String → String) where
  choice_value_allowed :
      (name : String) (allowed : List String) (default : String) (cs : Bool) (o : Option String)
      (w : Warnings)
      → one_of default allowed ≡ true
      → let r = choice_value lower name allowed default cs o w in
        (one_of r.0 allowed ≡ true)
        × ((r.1 ≡ w) ⊎ ((r.0 ≡ default) × ((v : String) × (r.1 ≡ invalid name v w))))
  unfolding choice_value
  choice_value_allowed name allowed default cs none w h = (h, inl refl)
  choice_value_allowed name allowed default cs (some value) w h =
      elim (Bool-cases (one_of (if cs then value else lower value) allowed)) [
        | inl e ↦ rw e (e, inl refl)
        | inr e ↦ rw e (h, inr (refl, (value, refl)))
      ]

  -- A choice with an allowed default gives an allowed value, whatever the environment holds.
  pub choice_allowed :
      (name : String) (allowed : List String) (default : String) (cs : Bool) (env : Option String)
      (w : Warnings)
      → one_of default allowed ≡ true
      → (r : String × Warnings) × (choice lower name allowed default cs env w ≡ some r)
        × (one_of r.0 allowed ≡ true)
        × ((r.1 ≡ w) ⊎ ((r.0 ≡ default) × ((v : String) × (r.1 ≡ invalid name v w))))
  unfolding choice
  choice_allowed name allowed default cs env w h =
      let r = choice_value lower name allowed default cs (read env) w in
      let (fits, told) = choice_value_allowed name allowed default cs (read env) w h in
      (r, rw h, fits, told)

  enabled_value-IsOnce :
      (name : String) (default : Bool) (o : Option String) (w : Warnings)
      → IsOnce w
      → IsOnce (enabled_value lower name default o w).1
  unfolding enabled_value
  enabled_value-IsOnce name default none w h = h
  enabled_value-IsOnce name default (some value) w h =
      elim (Bool-cases (one_of (lower value) off_values)) [
        | inl e ↦ rw e h
        | inr e ↦ elim (Bool-cases (one_of (lower value) on_values)) [
          | inl d ↦ rw e (rw d h)
          | inr d ↦ rw e (rw d (invalid-IsOnce name value w h))
        ]
      ]

  -- Reading a flag by `enabled` or by `choice` keeps the log free of repeats.
  pub readers-IsOnce :
      (name default : String) (allowed : List String) (on cs : Bool) (env : Option String)
      (w : Warnings)
      → one_of default allowed ≡ true
      → IsOnce w
      → IsOnce (enabled lower name on env w).1
        × ((r : String × Warnings) × (choice lower name allowed default cs env w ≡ some r)
            × IsOnce r.1)
  unfolding enabled
  readers-IsOnce name default allowed on cs env w d h =
      let (r, e, _, told) = choice_allowed name allowed default cs env w d in
      (
        enabled_value-IsOnce name on (read env) w h,
        (
          r,
          e,
          elim told [
            | inl same ↦ subst IsOnce (sym same) h
            | inr (_, (v, new)) ↦ subst IsOnce (sym new) (invalid-IsOnce name v w h)
          ],
        ),
      )
