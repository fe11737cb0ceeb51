-- ===== src/Catalog/Resolve.antt =====
-- internal/modelcatalog/resolve.go: `Resolve`, which chooses a model for every role.
pub mod Laws
pub mod Newest
pub mod Chosen
use Prim.Native.Nat.{compare, Ordering}
use Prim.Native.Nat.Ordering.{lt, eq, gt}
use claudodex.Common.{
  String, Bool, true, false, ◌&&◌, ◌||◌, not, Option, none, some, List, [], ◌∷◌, ◌==◌, string_key,
  if◌then◌else◌,
}
use mathlib.Core.Option
use claudodex.Common.Int.{ℤ, pos, ltb_ℤ, eqb_ℤ}
use claudodex.Common.Text.{strip_prefix, split}
use claudodex.Common.Order.{text_cmp}
use claudodex.Common.Sort.{sort_by}
use claudodex.Common.Outcome.{Outcome, failed, ok, ◌>>=◌, unless, map_error}
use claudodex.ModelConfig.{
  Family, opus, sonnet, haiku, fable, Config, normalize, target, field_of, strip_long_context,
}
use claudodex.ModelConfig.Specs.{Pins, has}
use claudodex.Catalog.{
  ModelInfo, CatalogError, TargetError, LookupError, validate_catalog, validate_target,
  target_error, too_old,
}
use claudodex.Catalog.Version.{is_numeric_version, compare_numeric_version, models_client_version}

-- The suffix of a role in the second loop of `Resolve`.
abbrev pub role_suffix : Family → String
role_suffix opus = "sol"
role_suffix sonnet = "terra"
role_suffix haiku = "luna"
role_suffix fable = "astra"

abbrev is_role : String → Bool
is_role s = s == "luna" || s == "terra" || s == "sol" || s == "astra"

abbrev version_and_role : List String → Option (String × String)
version_and_role (version ∷ role ∷ []) =
    if is_numeric_version version && is_role role then some (version, role) else none
version_and_role _ = none

-- automaticModelPattern, ^gpt-([0-9]+(?:\.[0-9]+)*)-(luna|terra|sol|astra)$, and its two groups
unfoldable pub automatic_model : String → Option (String × String)
unfolding strip_prefix split is_numeric_version
automatic_model slug = elim (strip_prefix "gpt-" slug) [
  | none ↦ none
  | some rest ↦ version_and_role (split rest b'-')
]

abbrev pub version_of : String → String
version_of slug = elim (automatic_model slug) [ none ↦ "" | some parts ↦ parts.0 ]

abbrev has_role : String → String → Bool
has_role suffix slug = elim (automatic_model slug) [ none ↦ false | some parts ↦ parts.1 == suffix ]

-- The tests of the loop that collects the candidates.
abbrev pub is_candidate : String → String → ModelInfo → Bool
is_candidate suffix client_version model =
    has_role suffix model.slug
    && model.supported_in_api
    && model.visibility == "list"
    && not (too_old model client_version)

unfoldable pub candidates : String → String → List ModelInfo → List ModelInfo
unfolding automatic_model
candidates suffix client_version [] = []
candidates suffix client_version (model ∷ models) =
    let rest = candidates suffix client_version models in
    if is_candidate suffix client_version model then model ∷ rest else rest

abbrev pub priority_of : ModelInfo → ℤ
priority_of model = elim model.priority [ none ↦ pos 1000000001 | some p ↦ p ]

abbrev text_less : String → String → Bool
text_less s t = elim (text_cmp s t) [ lt ↦ true | _ ↦ false ]

-- The comparison that sort.Slice gets.
unfoldable pub comes_first : ModelInfo → ModelInfo → Bool
unfolding compare_numeric_version automatic_model text_cmp
comes_first i j = elim (compare_numeric_version (version_of i.slug) (version_of j.slug)) [
  | gt ↦ true
  | lt ↦ false
  | eq ↦
      if not (eqb_ℤ (priority_of i) (priority_of j))
      then ltb_ℤ (priority_of i) (priority_of j)
      else text_less i.slug j.slug
]

pub data ResolveError : Type 0 where
  rejected_catalog : CatalogError → ResolveError
  empty_override : Family → ResolveError
  bad_override : Family → LookupError → ResolveError
  no_model : Family → ResolveError
  unusable : TargetError → ResolveError

-- candidates[0], with the error for no candidate
abbrev first_of : Family → List ModelInfo → Outcome ResolveError ModelInfo
first_of family [] = failed (no_model family)
first_of family (model ∷ rest) = ok model

unfoldable pub newest :
    List ModelInfo → (client_version : String) → Family → Outcome ResolveError ModelInfo
unfolding candidates sort_by comes_first target_error
newest models client_version family = do
  selected ←
      first_of family (sort_by comes_first (candidates (role_suffix family) client_version models))
  unless (Option.map unusable (target_error selected client_version)) selected

-- One round of the second loop; `requested` is normalized.
unfoldable pub resolve_role :
    List ModelInfo
    → (requested : Config) → Pins
    → (client_version : String) → Family
    → Outcome ResolveError String
unfolding newest validate_target
resolve_role models requested pins client_version family = do
  model ←
      if has pins family
      then map_error (bad_override family)
          (validate_target models (target requested family) client_version)
      else newest models client_version family
  ok model.slug

abbrev pub all_families : List Family
all_families = opus ∷ sonnet ∷ haiku ∷ fable ∷ []

-- The first loop: a pinned role may not be empty.
unfoldable pub empty_pins : Config → Pins → List Family → Option ResolveError
empty_pins requested pins [] = none
empty_pins requested pins (family ∷ families) =
    let rest = empty_pins requested pins families in
    if has pins family && strip_long_context (field_of requested family) == ""
    then some (empty_override family)
    else rest

unfoldable pub resolve_roles : List ModelInfo → Config → Pins → String → Outcome ResolveError Config
unfolding resolve_role
resolve_roles models requested pins client_version = do
  o ← resolve_role models requested pins client_version opus
  s ← resolve_role models requested pins client_version sonnet
  h ← resolve_role models requested pins client_version haiku
  f ← resolve_role models requested pins client_version fable
  ok record { opus = o; sonnet = s; haiku = h; fable = f }

unfoldable pub resolve :
    List ModelInfo
    → (requested : Config) → Pins
    → (client_version : String) → Outcome ResolveError Config
unfolding resolve_roles empty_pins validate_catalog
resolve models requested pins client_version = do
  catalog ← unless (Option.map rejected_catalog (validate_catalog models)) models
  named ← unless (empty_pins requested pins all_families) requested
  resolve_roles catalog (normalize named) pins (models_client_version client_version)
