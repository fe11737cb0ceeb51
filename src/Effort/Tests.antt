-- ===== src/Effort/Tests.antt =====
-- Runs of the effort mapping, and its theorems at concrete requests.
use claudodex.Common.{String, ◌≡◌, refl, none, some, List, [], ◌∷◌}
use claudodex.Common.Int.{pos}
use claudodex.Common.Text.{trim_space, to_lower, without_char, equal_fold}
use claudodex.ModelConfig.{default, normalize, supports_x_high}
use claudodex.Effort.{
  low, medium, high, effort_name, order, ordinary_reasoning_levels, normalize_effort,
  requested_effort, select_level, default_level, map_reasoning_effort_for_model,
  map_reasoning_effort_with_config, supports_max,
}
use claudodex.Effort.Select.{Nearest}
use claudodex.Effort.Laws.{
  Advertised, Within, map_reasoning_effort_for_model-Advertised,
  map_reasoning_effort_for_model-Nearest, map_reasoning_effort_with_config-Within,
}

runs : Unit {0}
unfolding trim_space to_lower without_char equal_fold effort_name order ordinary_reasoning_levels
    normalize_effort requested_effort select_level default_level map_reasoning_effort_for_model
runs = tt

abbrev levels : List String
levels = "high" ∷ "low" ∷ "ultra" ∷ []

maps :
    (ordinary_reasoning_levels levels ≡ low ∷ high ∷ [])
    × (map_reasoning_effort_for_model levels "high" "medium" (pos 0) ≡ some low)
    × (map_reasoning_effort_for_model levels "high" "Ultra-Code" (pos 0) ≡ some high)
    × (map_reasoning_effort_for_model levels "high" "auto" (pos 9) ≡ some high)
    × (map_reasoning_effort_for_model levels "ultra" "" (pos 0) ≡ some low)
    × (map_reasoning_effort_for_model ("ultra" ∷ []) "ultra" "low" (pos 0) ≡ none)
    × (requested_effort "" (pos 20000) ≡ some high)
unfolding runs
maps = (refl, refl, refl, refl, refl, refl, refl)

map_reasoning_effort_for_model-Advertised_example :
    Advertised levels
      (ordinary_reasoning_levels levels)
      (map_reasoning_effort_for_model levels "high" "max" (pos 0))
map_reasoning_effort_for_model-Advertised_example =
    map_reasoning_effort_for_model-Advertised levels "high" "max" (pos 0)

map_reasoning_effort_for_model-Nearest_example :
    Nearest medium (ordinary_reasoning_levels levels) low
unfolding runs
map_reasoning_effort_for_model-Nearest_example =
    map_reasoning_effort_for_model-Nearest levels "high" "medium" (pos 0) medium low refl refl

map_reasoning_effort_with_config-Within_example :
    Within
      (supports_max "gpt-6-luna")
      (supports_x_high (normalize default) "gpt-6-luna")
      (map_reasoning_effort_with_config "gpt-6-luna" "max" (pos 0) default)
map_reasoning_effort_with_config-Within_example =
    map_reasoning_effort_with_config-Within "gpt-6-luna" "max" (pos 0) default
