-- ===== src/Flash/Safety.antt =====
-- What every drawn schedule keeps to: soft colours, each unlike the one before, and no two changes
-- nearer than half a second.
use factech.Base.{
  ℕ, zero, suc, ◌+◌, ◌-◌, ◌*◌, ◌/◌, ◌≤◌, ◌<◌, true, Option, none, some, List, [], ◌∷◌, length,
  Member, here, there, Member-filter, ◌≡◌, refl, arith,
}
use factech.Numbers.{Random}
use factech.Flash.{
  Colour, blue, green, magenta, amber, Step, palette, neutral, differs, choices, element, pick,
  grained, grain_ms, draw_steps, draw_schedule, colours_min, colours_max, start_ms_min,
  start_ms_max, step_ms_min, step_ms_max,
}

-- From `at` on: a step there, in a colour of the palette unlike the colour before it, and the next
-- change 500 to 700 ms later; `end` is the change after the last step.
abbrev pub IsSoft : Option Colour → ℕ → List Step → ℕ → Type 0
IsSoft previous at [] end = at ≡ end
IsSoft previous at (s ∷ rest) end =
    (s.start_ms ≡ at)
    × (s.rgb ≡ palette s.colour)
    × (differs previous s.colour ≡ true)
    × ((next : ℕ) × (at + 500 ≤ next) × (next ≤ at + 700) × IsSoft (some s.colour) next rest end)

element-Member : (xs : List Colour) (i : ℕ) → i < length xs → Member (element xs i) xs
element-Member [] i h = elim h [ ]
element-Member (x ∷ xs) zero h = here
element-Member (x ∷ xs) (suc i) h = there (element-Member xs i (omega arith))

choices-pos : (previous : Option Colour) → 0 < length (choices previous)
choices-pos none = omega arith
choices-pos (some blue) = omega arith
choices-pos (some green) = omega arith
choices-pos (some magenta) = omega arith
choices-pos (some amber) = omega arith

module _ (r : Random) where
  differs-pick :
      (i : ℕ) (previous : Option Colour) → differs previous (pick r i (choices previous)) ≡ true
  unfolding pick
  differs-pick i previous =
      (Member-filter (differs previous) (blue ∷ green ∷ magenta ∷ amber ∷ []) (
        element-Member (choices previous) (r.below i (length (choices previous)))
          (r.below-lt i (length (choices previous)) (choices-pos previous)))).1

  grained_bounds :
      (i low high : ℕ) → low ≤ high → (low ≤ grained r i low high) × (grained r i low high ≤ high)
  unfolding grained
  grained_bounds i low high h = omega (arith, r.below-lt i ((high - low) / grain_ms + 1))

  draw_steps-IsSoft :
      (count i at : ℕ) (previous : Option Colour)
      → let (steps, end) = draw_steps r count i at previous in
        IsSoft previous at steps end × (length steps ≡ count) × (end ≤ at + 700 * count)
  unfolding draw_steps
  draw_steps-IsSoft zero i at previous = (refl, refl, omega arith)
  draw_steps-IsSoft (suc count) i at previous =
      let gap = grained r (i + 1) step_ms_min step_ms_max in
      let name = pick r i (choices previous) in
      let (low, high) = grained_bounds (i + 1) step_ms_min step_ms_max (omega arith) in
      let (soft, size, end) = draw_steps-IsSoft count (i + 2) (at + gap) (some name) in
      (
        (refl, refl, differs-pick i previous, (at + gap, omega arith, omega arith, soft)),
        omega arith,
        omega arith,
      )

  -- Whatever is drawn, the schedule has three or four steps in colours of the palette, no colour
  -- twice running; its first change comes 300 to 500 ms after frame 0 and each later one, the fade
  -- back included, 500 to 700 ms after the one before, so that there are at most two in a second;
  -- and it ends within 3300 ms.
  pub draw_schedule-IsSoft :
      let s = draw_schedule r in
      (3 ≤ length s.steps)
      × (length s.steps ≤ 4)
      × (s.end_ms ≤ 3300)
      × (s.neutral ≡ neutral)
      × ((start : ℕ) × (300 ≤ start) × (start ≤ 500) × IsSoft none start s.steps s.end_ms)
  unfolding draw_schedule
  draw_schedule-IsSoft =
      let count = colours_min + r.below 0 (colours_max - colours_min + 1) in
      let start = grained r 1 start_ms_min start_ms_max in
      let (low, high) = grained_bounds 1 start_ms_min start_ms_max (omega arith) in
      let few = r.below-lt 0 (colours_max - colours_min + 1) (omega arith) in
      let (soft, size, end) = draw_steps-IsSoft count 2 start none in
      (omega arith, omega arith, omega arith, refl, (start, low, high, soft))
