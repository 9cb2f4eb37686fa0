-- ===== src/Flags/Tests.antt =====
-- Runs of the readers of flags, and their laws at a concrete flag.
use factech.Base.{false, some, [], ◌∷◌, String, string_eq, strip, ◌≡◌, refl}
use factech.Flags.{Warnings, read, invalid, choice}

abbrev quiet : Warnings
quiet = record { warned = []; lines = [] }

abbrev same : String → String
same s = s

-- A value that is not allowed gives the default and one warning; the second time it gives none.
warns_once :
    let first = choice same "MODE" ("off" ∷ "log" ∷ []) "off" false (some " loud ") quiet in
    (first ≡ some ("off", invalid "MODE" "loud" quiet))
    × (choice same "MODE"
          ("off" ∷ "log" ∷ [])
          "off"
          false
          (some "loud")
          (invalid "MODE" "loud" quiet)
        ≡ some ("off", invalid "MODE" "loud" quiet))
unfolding choice read strip invalid
warns_once = (refl, refl)
