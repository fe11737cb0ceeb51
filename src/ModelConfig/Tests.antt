-- ===== src/ModelConfig/Tests.antt =====
-- Runs of the model configuration, and its theorems at concrete names.
use claudodex.Common.{◌≡◌, refl, inr, arith, eq_iff, some}
use claudodex.Common.Text.{trim_space, to_lower, contains, has_prefix, has_suffix, drop_last}
use claudodex.ModelConfig.{
  Config, Family, default, strip_long_context, normalize, map_model, target, normalize_model_name,
  family_for_model, model_family, required_models, settings_alias_for_target, is_low_effort_default,
  supports_x_high, with_long_context,
}
use claudodex.ModelConfig.Stripped.{Kept}
use claudodex.ModelConfig.Laws.{
  IsStripped, strip_long_context-IsStripped, normalize-normalize, normalize_suffix_only, Routed,
  map_model-Routed, HasNames,
}
use claudodex.ModelConfig.{field_of, haiku}
use claudodex.Common.{true, false}

runs : Unit {0}
unfolding trim_space to_lower contains has_prefix has_suffix drop_last strip_long_context normalize
    map_model target normalize_model_name family_for_model model_family required_models
    settings_alias_for_target is_low_effort_default supports_x_high with_long_context
runs = tt

strips :
    (strip_long_context " GPT-5[1M] [1m] " ≡ "GPT-5")
    × (strip_long_context "[1m]" ≡ "")
    × (with_long_context "gpt-5[1M]" ≡ "gpt-5[1m]")
unfolding runs
strips = (refl, refl, refl)

maps :
    (map_model default "claude-sonnet-4-6[1m]" ≡ "gpt-6.1-terra")
    × (map_model default "" ≡ "gpt-6.1-sol")
    × (map_model default "gpt-9-new" ≡ "gpt-9-new")
    × (map_model default "opusplan" ≡ "gpt-6.1-sol")
    × (settings_alias_for_target default "gpt-6-luna" ≡ some Family.haiku)
    × (is_low_effort_default default "small-fast" ≡ true)
    × (supports_x_high default "other" ≡ false)
unfolding runs
maps = (refl, refl, refl, refl, refl, refl, refl)

strip_long_context_example :
    IsStripped (strip_long_context "m[1m][1M]") × Kept "m[1m][1M]" (strip_long_context "m[1m][1M]")
strip_long_context_example = strip_long_context-IsStripped "m[1m][1M]"

default_names : HasNames default
unfolding runs
default_names = (
  inr (λ e. ground (arith, eq_iff default.opus "", e)),
  inr (λ e. ground (arith, eq_iff default.sonnet "", e)),
  inr (λ e. ground (arith, eq_iff default.haiku "", e)),
  inr (λ e. ground (arith, eq_iff default.fable "", e)),
)

normalize-normalize_example : normalize (normalize default) ≡ normalize default
normalize-normalize_example = normalize-normalize default default_names

abbrev suffix_only : Config
suffix_only = record default { haiku = "[1m]" }

normalize_suffix_only_example :
    (field_of (normalize suffix_only) haiku ≡ "")
    × (field_of (normalize (normalize suffix_only)) haiku ≡ field_of default haiku)
unfolding runs
normalize_suffix_only_example =
    normalize_suffix_only suffix_only haiku (λ e. ground (arith, eq_iff "[1m]" "", e)) refl

map_model-Routed_example : Routed default "claude-haiku-4-5" (map_model default "claude-haiku-4-5")
unfolding runs
map_model-Routed_example = map_model-Routed default "claude-haiku-4-5" default_names
