-- ===== src/Harmony/Tests.antt =====
-- A song with two harmonies.
use unidaw.Base.{◌≡◌, refl, List, [], ◌∷◌, some, none, arith}
use unidaw.Harmony.{HarmonyEvent, harmony_at}
use unidaw.Harmony.Lookup.{last_until, harmony_at_lem}

abbrev song : List HarmonyEvent
song =
    record { nanotick = 10; root = 0; scale_id = 1; flags = 0 }
    ∷ record { nanotick = 30; root = 7; scale_id = 1; flags = 0 }
    ∷ []

harmony_at-song :
    harmony_at song 29 ≡ some (record { nanotick = 10; root = 0; scale_id = 1; flags = 0 })
unfolding harmony_at
harmony_at-song = refl

harmony_at_lem_example : harmony_at song 29 ≡ last_until 29 none song
harmony_at_lem_example = harmony_at_lem song 29 (((omega arith, tt)), (tt, tt))
