-- ===== src/Flash/Tests.antt =====
-- A schedule drawn by a constant source, and the theorem at it.
use factech.Base.{ℕ, ◌≤◌, [], ◌∷◌, length, ◌≡◌, refl, none}
use factech.Numbers.{Random}
use factech.Flash.{neutral, blue, green, palette, draw_schedule}
use factech.Flash.Safety.{IsSoft, draw_schedule-IsSoft}

-- Always the least number.
abbrev least : Random
least = record { below = λ i n. 0; below-lt = λ i n h. h }

least_schedule :
    (draw_schedule least).steps
    ≡ record { colour = blue; rgb = palette blue; start_ms = 300 }
      ∷ record { colour = green; rgb = palette green; start_ms = 800 }
      ∷ record { colour = blue; rgb = palette blue; start_ms = 1300 }
      ∷ []
unfolding draw_schedule
least_schedule = refl

draw_schedule-IsSoft_example :
    let s = draw_schedule least in
    (3 ≤ length s.steps)
    × (length s.steps ≤ 4)
    × (s.end_ms ≤ 3300)
    × (s.neutral ≡ neutral)
    × ((start : ℕ) × (300 ≤ start) × (start ≤ 500) × IsSoft none start s.steps s.end_ms)
draw_schedule-IsSoft_example = draw_schedule-IsSoft least
