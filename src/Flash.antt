-- ===== src/Flash.antt =====
-- engine/app/flash.py: the schedule of colours that a challenge carries.
mod Safety
mod Tests
use factech.Base.{
  ℕ, zero, suc, ◌+◌, ◌-◌, ◌*◌, ◌/◌, ◌≤◌, ◌<◌, Bool, true, false, not, ◌&&◌, Option, none, some,
  List, [], ◌∷◌, String, length, filter, if◌then◌else◌,
}
use factech.Numbers.{Random}

-- The keys of PALETTE.
pub data Colour : Type 0 where
  blue green magenta amber : Colour

pub record Rgb : Type 0 where
  pub red : ℕ
  pub green : ℕ
  pub blue : ℕ

-- PALETTE
abbrev pub palette : Colour → Rgb
palette blue = record { red = 111; green = 168; blue = 255 }
palette green = record { red = 111; green = 224; blue = 160 }
palette magenta = record { red = 224; green = 127; blue = 224 }
palette amber = record { red = 255; green = 192; blue = 97 }

abbrev pub neutral : Rgb
neutral = record { red = 255; green = 255; blue = 255 }

abbrev pub colours_min : ℕ
colours_min = 3

abbrev pub colours_max : ℕ
colours_max = 4

abbrev pub fade_ms : ℕ
fade_ms = 400

abbrev pub min_change_ms : ℕ
min_change_ms = 500

abbrev pub start_ms_min : ℕ
start_ms_min = 300

abbrev pub start_ms_max : ℕ
start_ms_max = 500

abbrev pub step_ms_min : ℕ
step_ms_min = min_change_ms

abbrev pub step_ms_max : ℕ
step_ms_max = 700

abbrev pub grain_ms : ℕ
grain_ms = 50

pub record Step : Type 0 where
  pub colour : Colour
  pub rgb : Rgb
  pub start_ms : ℕ

pub record Schedule : Type 0 where
  pub version : String
  pub neutral : Rgb
  pub fade_ms : ℕ
  pub steps : List Step
  pub end_ms : ℕ

abbrev pub colour_beq : Colour → Colour → Bool
colour_beq blue blue = true
colour_beq green green = true
colour_beq magenta magenta = true
colour_beq amber amber = true
colour_beq _ _ = false

-- `n != previous`, where `previous` may be None
abbrev pub differs : Option Colour → Colour → Bool
differs none c = true
differs (some p) c = not (colour_beq c p)

abbrev pub choices : Option Colour → List Colour
choices previous = filter (differs previous) (blue ∷ green ∷ magenta ∷ amber ∷ [])

-- The i-th element. A list of choices is never shorter than the index drawn for it.
abbrev pub element : List Colour → ℕ → Colour
element [] i = blue
element (c ∷ rest) zero = c
element (c ∷ rest) (suc i) = element rest i

module _ (r : Random) where
  -- _pick, with the i-th number drawn
  unfoldable pub pick : ℕ → List Colour → Colour
  pick i choices = element choices (r.below i (length choices))

  -- _grained
  unfoldable pub grained : ℕ → ℕ → ℕ → ℕ
  grained i low high = low + r.below i ((high - low) / grain_ms + 1) * grain_ms

  -- The loop of draw_schedule, from the time and the colour before it; the time after it is second.
  -- Draws are numbered from `i`.
  unfoldable pub draw_steps : ℕ → ℕ → ℕ → Option Colour → List Step × ℕ
  draw_steps zero i at previous = ([], at)
  draw_steps (suc count) i at previous =
      let name = pick i (choices previous) in
      let (rest, end) =
        draw_steps count (i + 2) (at + grained (i + 1) step_ms_min step_ms_max) (some name) in
      (record { colour = name; rgb = palette name; start_ms = at } ∷ rest, end)

  unfoldable pub draw_schedule : Schedule
  unfolding draw_steps grained pick
  draw_schedule =
      let count = colours_min + r.below 0 (colours_max - colours_min + 1) in
      let (steps, end) = draw_steps count 2 (grained 1 start_ms_min start_ms_max) none in
      record {
        version = "glow-v1";
        neutral = neutral;
        fade_ms = fade_ms;
        steps = steps;
        end_ms = end;
      }
