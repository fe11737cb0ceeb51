-- ===== src/Catalog/Tests.antt =====
-- Runs of the model catalog, and its theorems at concrete inputs.
use Prim.Native.Nat.Ordering.{lt, eq, gt}
use claudodex.Common.{
  ℕ, String, ◌≡◌, refl, true, false, none, some, List, [], ◌∷◌, map, all, string_key,
}
use claudodex.Common.Int.{pos}
use claudodex.Common.Dict.{lookup, insert}
use claudodex.Common.Order.{text_cmp}
use claudodex.Common.Sort.{sort_by}
use claudodex.Common.Outcome.{ok, failed}
use claudodex.Common.Text.{
  byte_len, trim_space, trim_left, to_lower, contains, has_prefix, has_suffix, drop_last,
  strip_prefix, split, size, is_some,
}
use claudodex.Effort.{effort_name, ordinary_reasoning_levels}
use claudodex.ModelConfig.{
  Config, Family, default, normalize, strip_long_context, with_long_context, target,
  required_models,
}
use claudodex.ModelConfig.Specs.{Pins, claude_alias_specs, family_alias_specs}
use claudodex.Catalog.{
  ModelInfo, is_model_id, model_error, validate_models, validate_catalog, target_error, find_target,
  validate_target, bad_target, unavailable, no_window, duplicate,
}
use claudodex.Catalog.Version.{
  is_numeric_version, all_digits, compare_part, compare_parts, compare_numeric_version,
  valid_client_version, version_less, version_less_parts, parse_version_part, models_client_version,
}
use claudodex.Catalog.Version.Numbers.{Compares, component, compare_numeric_version-Compares}
use claudodex.Catalog.Resolve.{
  automatic_model, candidates, comes_first, newest, resolve_role, resolve_roles, empty_pins,
  resolve, no_model,
}
use claudodex.Catalog.Resolve.Newest.{Newest, newest-Newest}
use claudodex.Catalog.Resolve.Chosen.{Chosen, resolve-Chosen}
use claudodex.Catalog.Windows.{
  Windows, put, limit, put_models, put_aliases, check_required, auto_compact_windows,
}
use claudodex.Catalog.Windows.Laws.{
  AllFit, auto_compact_windows-AllFit, auto_compact_windows-complete,
}

runs : Unit {0}
unfolding trim_space trim_left to_lower contains has_prefix has_suffix drop_last strip_prefix split
    size lookup insert text_cmp effort_name ordinary_reasoning_levels normalize strip_long_context
    with_long_context target required_models claude_alias_specs family_alias_specs byte_len
    is_model_id model_error validate_models validate_catalog target_error find_target
    validate_target is_numeric_version all_digits compare_part compare_parts compare_numeric_version
    valid_client_version version_less version_less_parts parse_version_part models_client_version
    automatic_model candidates comes_first sort_by newest resolve_role resolve_roles empty_pins
    resolve put limit put_models put_aliases check_required auto_compact_windows
runs = tt

versions :
    (compare_numeric_version "1.10" "1.9.5" ≡ gt)
    × (compare_numeric_version "1.0" "01" ≡ eq)
    × (compare_numeric_version "0.9" "0.10.1" ≡ lt)
    × (models_client_version "0.170.2" ≡ "0.170.2")
    × (models_client_version "0.99.9" ≡ "0.166.0")
    × (models_client_version "1.2" ≡ "0.166.0")
    × (automatic_model "gpt-6.1-sol" ≡ some ("6.1", "sol"))
    × (automatic_model "gpt-6.-sol" ≡ none)
    × (automatic_model "gpt-6-sol-x" ≡ none)
unfolding runs
versions = (refl, refl, refl, refl, refl, refl, refl, refl, refl)

abbrev model : String → ℕ → ModelInfo
model name window = record {
  slug = name;
  display_name = name;
  description = "";
  context_window = pos window;
  max_context_window = pos 0;
  auto_compact_token_limit = pos 0;
  effective_context_window_percent = pos 0;
  supports_reasoning_summaries = true;
  supported_reasoning_levels = record { effort = "high"; description = "" } ∷ [];
  default_reasoning_level = "high";
  priority = none;
  minimal_client_version = "";
  service_tiers = [];
  additional_speed_tiers = [];
  content_filter_guidance = none;
  supported_in_api = true;
  visibility = "list";
}

abbrev usable : List ModelInfo
usable =
    model "gpt-6-sol" 400000
    ∷ model "gpt-6.1-sol" 400000
    ∷ model "gpt-6.1-terra" 2000000
    ∷ model "gpt-6-luna" 200000
    ∷ model "gpt-6-astra" 150000
    ∷ []

abbrev models : List ModelInfo
models = model "gpt-7-sol" 0 ∷ usable

abbrev nothing_pinned : Pins
nothing_pinned = record {
  pin_opus = false;
  pin_sonnet = false;
  pin_haiku = false;
  pin_fable = false;
}

abbrev opus_pinned : Pins
opus_pinned = record nothing_pinned { pin_opus = true }

abbrev old_opus : Config
old_opus = record default { opus = "gpt-6-sol[1m]" }

abbrev resolved : Config
resolved = record default { opus = "gpt-6-sol" }

chooses :
    (validate_catalog models ≡ none)
    × (validate_catalog (model "A" 1 ∷ model "a" 1 ∷ []) ≡ some (duplicate "a"))
    × (resolve models old_opus opus_pinned "" ≡ ok resolved)
    × (newest [] "" Family.opus ≡ failed (no_model Family.opus))
    × (validate_target models "gpt-7-sol" "" ≡ failed (bad_target (no_window "gpt-7-sol")))
    × (validate_target models "GPT-6-sol" "" ≡ failed (unavailable "GPT-6-sol"))
unfolding runs
chooses = (refl, refl, refl, refl, refl, refl)

abbrev windows : Windows
windows = auto_compact_windows usable default

fits :
    (windows.complete ≡ true)
    × (lookup "gpt-6.1-sol" windows.windows ≡ some (pos 380000))
    × (lookup "sonnet" windows.windows ≡ some (pos 1000000))
    × (lookup "gpt-7-sol" windows.windows ≡ none)
unfolding runs
fits = (refl, refl, refl, refl)

compare_numeric_version_example : Compares (component "1.10") (component "1.9.5") gt
unfolding runs
compare_numeric_version_example = compare_numeric_version-Compares "1.10" "1.9.5" refl refl

newest_example : Newest models "0.166.0" Family.opus (newest models "0.166.0" Family.opus)
newest_example = newest-Newest models "0.166.0" Family.opus

resolve_example :
    Chosen models
      (normalize old_opus)
      opus_pinned
      (models_client_version "")
      Family.sonnet
      "gpt-6.1-terra"
unfolding runs
resolve_example = resolve-Chosen models old_opus opus_pinned "" resolved Family.sonnet refl

windows-AllFit_example : AllFit (auto_compact_windows usable default)
windows-AllFit_example = auto_compact_windows-AllFit usable default

windows-complete_example :
    all
      (λ id. is_some (lookup id (auto_compact_windows usable default).windows))
      (map to_lower (required_models (normalize default)))
    ≡ true
unfolding runs
windows-complete_example = auto_compact_windows-complete usable default refl
