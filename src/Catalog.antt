-- ===== src/Catalog.antt =====
-- internal/modelcatalog/resolve.go: the catalog of Codex models (types of internal/codex/models.go), and
-- what is asked of it and of a single model. The children choose models and windows.
pub mod Version
pub mod Resolve
pub mod Windows
mod Tests
use Prim.Native.Nat.Ordering.{gt}
use Prim.Native.Char.{Char, code}
use Prim.Native.String.{[] as nil, ◌∷◌ as cons}
use claudodex.Common.{
  ℕ, zero, suc, ◌+◌, String, Bool, true, false, ◌&&◌, ◌||◌, not, Option, none, some, List, [], ◌∷◌,
  map, length, any, ltb, leb, nat_eq, ◌==◌, string_key, if◌then◌else◌,
}
use claudodex.Common.Int.{ℤ, pos, ltb_ℤ}
use claudodex.Common.Text.{to_lower, size, byte_len}
use claudodex.Common.Outcome.{Outcome, failed, ok, ◌>>=◌, unless, map_error}
use claudodex.Effort.{Effort, effort_name, ordinary_efforts, ordinary_reasoning_levels}
use claudodex.ModelConfig.{strip_long_context, holds}
use claudodex.Catalog.Version.{
  is_digit, is_numeric_version, compare_numeric_version, models_client_version,
}

pub record ReasoningEffortPreset : Type 0 where
  pub effort : String
  pub description : String

pub record ModelServiceTier : Type 0 where
  pub id : String
  pub name : String

-- A missing model_messages and one without guidance are both `none`.
pub record ModelInfo : Type 0 where
  pub slug : String
  pub display_name : String
  pub description : String
  pub context_window : ℤ
  pub max_context_window : ℤ
  pub auto_compact_token_limit : ℤ
  pub effective_context_window_percent : ℤ
  pub supports_reasoning_summaries : Bool
  pub supported_reasoning_levels : List ReasoningEffortPreset
  pub default_reasoning_level : String
  pub priority : Option ℤ
  pub minimal_client_version : String
  pub service_tiers : List ModelServiceTier
  pub additional_speed_tiers : List String
  pub content_filter_guidance : Option String
  pub supported_in_api : Bool
  pub visibility : String

-- `OrdinaryReasoningLevels`, on a model
abbrev pub levels_of : ModelInfo → List Effort
levels_of model =
    ordinary_reasoning_levels
      (map (λ (level : ReasoningEffortPreset). level.effort) model.supported_reasoning_levels)

unfoldable pub supports_fast : ModelInfo → Bool
supports_fast model = any (λ (tier : ModelServiceTier). tier.id == "priority") model.service_tiers

abbrev over : String → ℕ → Bool
over s n = ltb n (byte_len s)

abbrev is_letter : Char → Bool
is_letter c = (leb 65 (code c) && leb (code c) 90) || (leb 97 (code c) && leb (code c) 122)

abbrev is_id_char : Char → Bool
is_id_char c =
    is_letter c
    || is_digit c
    || nat_eq (code c) b'.'
    || nat_eq (code c) b'_'
    || nat_eq (code c) b'-'

unfoldable pub all_id_chars : String → Bool
all_id_chars nil = true
all_id_chars (cons c s) = is_id_char c && all_id_chars s

-- modelIDPattern, ^[A-Za-z0-9][A-Za-z0-9._-]{0,199}$
unfoldable pub is_model_id : String → Bool
unfolding all_id_chars size
is_model_id nil = false
is_model_id (cons c s) = (is_letter c || is_digit c) && leb (size s) 199 && all_id_chars s

abbrev pub max_models : ℕ
max_models = 2000

-- The errors of `ValidateCatalog`; `duplicate` and those after it name the model's slug.
pub data CatalogError : Type 0 where
  catalog_size invalid_id : CatalogError
  duplicate oversized oversized_messages invalid_context invalid_priority : String → CatalogError
  invalid_client_version oversized_capabilities oversized_reasoning : String → CatalogError
  oversized_tier oversized_speed : String → CatalogError

abbrev negative : ℤ → Bool
negative n = ltb_ℤ n (pos 0)

abbrev bad_priority : Option ℤ → Bool
bad_priority none = false
bad_priority (some p) = negative p || ltb_ℤ (pos 1000000000) p

abbrev bad_guidance : Option String → Bool
bad_guidance none = false
bad_guidance (some guidance) = over guidance 65536

-- The tests of one model in the loop of `ValidateCatalog`, after that of its id; `none` for no error.
unfoldable pub model_error : ModelInfo → Option CatalogError
unfolding byte_len is_numeric_version
model_error model =
    if over model.display_name 1024
      || over model.description 65536
      || over model.visibility 64
      || over model.default_reasoning_level 64
    then some (oversized model.slug)
    else if bad_guidance model.content_filter_guidance
    then some (oversized_messages model.slug)
    else if negative model.context_window
        || negative model.max_context_window
        || negative model.auto_compact_token_limit
        || negative model.effective_context_window_percent
        || ltb_ℤ (pos 100) model.effective_context_window_percent
    then some (invalid_context model.slug)
    else if bad_priority model.priority
    then some (invalid_priority model.slug)
    else if not (model.minimal_client_version == "")
        && (over model.minimal_client_version 64
            || not (is_numeric_version model.minimal_client_version))
    then some (invalid_client_version model.slug)
    else if ltb 32 (length model.supported_reasoning_levels)
        || ltb 32 (length model.service_tiers)
        || ltb 32 (length model.additional_speed_tiers)
    then some (oversized_capabilities model.slug)
    else if any
        (λ (level : ReasoningEffortPreset). over level.effort 64 || over level.description 4096)
        model.supported_reasoning_levels
    then some (oversized_reasoning model.slug)
    else if any (λ (tier : ModelServiceTier). over tier.id 64 || over tier.name 1024)
        model.service_tiers
    then some (oversized_tier model.slug)
    else if any (λ tier. over tier 64) model.additional_speed_tiers
    then some (oversized_speed model.slug)
    else none

abbrev first_error : Option CatalogError → Option CatalogError → Option CatalogError
first_error none later = later
first_error (some e) later = some e

-- The loop of `ValidateCatalog`: `seen` holds the lowered slugs.
unfoldable pub validate_models : List String → List ModelInfo → Option CatalogError
unfolding is_model_id model_error
validate_models seen [] = none
validate_models seen (model ∷ models) =
    let key = to_lower model.slug in
    let rest = validate_models (key ∷ seen) models in
    if not (is_model_id model.slug)
    then some invalid_id
    else if holds key seen
    then some (duplicate model.slug)
    else first_error (model_error model) rest

unfoldable pub validate_catalog : List ModelInfo → Option CatalogError
unfolding validate_models
validate_catalog models =
    if nat_eq (length models) 0 || ltb max_models (length models)
    then some catalog_size
    else validate_models [] models

-- The errors of `validateTarget`, each with the model's slug.
pub data TargetError : Type 0 where
  not_visible no_window inconsistent_windows no_levels : String → TargetError
  needs_client : (slug minimal client_version : String) → TargetError
  unsupported_default : (slug level : String) → TargetError

-- `contains`
abbrev pub contains_level : List Effort → Effort → Bool
contains_level levels e = any (λ (l : Effort). effort_name l == effort_name e) levels

abbrev positive : ℤ → Bool
positive n = ltb_ℤ (pos 0) n

abbrev pub too_old : ModelInfo → String → Bool
too_old model client_version =
    not (model.minimal_client_version == "")
    && elim (compare_numeric_version model.minimal_client_version client_version) [
      | gt ↦ true
      | _ ↦ false
    ]

-- `validateTarget`; `none` for no error.
unfoldable pub target_error : ModelInfo → String → Option TargetError
target_error model client_version =
    let levels = levels_of model in
    if not model.supported_in_api || not (model.visibility == "list")
    then some (not_visible model.slug)
    else if too_old model client_version
    then some (needs_client model.slug model.minimal_client_version client_version)
    else if not (positive model.context_window) && not (positive model.max_context_window)
    then some (no_window model.slug)
    else if positive model.context_window
        && positive model.max_context_window
        && ltb_ℤ model.max_context_window model.context_window
    then some (inconsistent_windows model.slug)
    else if nat_eq (length levels) 0
    then some (no_levels model.slug)
    else if any
        (λ (e : Effort).
          model.default_reasoning_level == effort_name e && not (contains_level levels e))
        ordinary_efforts
    then some (unsupported_default model.slug model.default_reasoning_level)
    else none

-- What goes wrong when a target or a configuration is looked up.
pub data LookupError : Type 0 where
  bad_catalog : CatalogError → LookupError
  bad_target : TargetError → LookupError
  unavailable : (slug : String) → LookupError

-- The loop of `ValidateTarget`: the first model of that name decides.
unfoldable pub find_target : String → String → List ModelInfo → Outcome LookupError ModelInfo
unfolding target_error
find_target slug client_version [] = failed (unavailable slug)
find_target slug client_version (model ∷ models) =
    let rest = find_target slug client_version models in
    if model.slug == slug
    then map_error bad_target (unless (target_error model client_version) model)
    else rest

unfoldable pub validate_target :
    List ModelInfo → (slug client_version : String) → Outcome LookupError ModelInfo
unfolding find_target validate_catalog
validate_target models slug client_version = do
  catalog ← map_error bad_catalog (unless (validate_catalog models) models)
  find_target (strip_long_context slug) (models_client_version client_version) catalog
