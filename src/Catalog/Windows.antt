-- ===== src/Catalog/Windows.antt =====
-- internal/modelcatalog/compaction.go: `AutoCompactWindows`, the context windows at which the client
-- compacts a conversation, by the names that it may ask for.
pub mod Laws
use claudodex.Common.{
  ℕ, ◌+◌, ◌*◌, ◌/◌, ◌%◌, String, Bool, true, false, ◌&&◌, ◌||◌, not, Option, none, some, List, [],
  ◌∷◌, ◌++◌, map, length, nat_eq, ◌==◌, string_key, if◌then◌else◌,
}
use claudodex.Common.Int.{ℤ, pos, pos_part, ltb_ℤ, eqb_ℤ}
use claudodex.Common.Dict.{Dict, lookup, insert}
use claudodex.Common.Text.{to_lower, is_some}
use claudodex.ModelConfig.{
  Config, normalize, target, required_models, strip_long_context, with_long_context, holds,
}
use claudodex.ModelConfig.Specs.{ClaudeModelSpec, claude_alias_specs, family_alias_specs}
use claudodex.Catalog.{ModelInfo, levels_of}

-- The map `windows` and the flag `complete`.
pub record Windows : Type 0 where
  pub windows : Dict String ℤ
  pub complete : Bool

-- The smaller of a window and the one that its name already has.
abbrev pub lowered : Option ℤ → ℤ → ℤ
lowered none value = value
lowered (some old) value = if ltb_ℤ value old then value else old

abbrev pub capped : ℤ → ℤ
capped value = if ltb_ℤ (pos 1000000) value then pos 1000000 else value

-- The closure `put`.
unfoldable pub put : String → ℤ → Windows → Windows
unfolding lookup insert
put id value w = if ltb_ℤ value (pos 100000) then record w { complete = false } else record w {
  windows =
      insert (to_lower id) (lowered (lookup (to_lower id) w.windows) (capped value)) w.windows;
}

-- The closure `limit`, which divides positive numbers only.
unfoldable pub limit : (percent auto_compact_token_limit : ℤ) → (window : ℤ) → ℤ
limit percent auto window =
    let w = pos_part window in
    let p = pos_part percent in
    let value = pos ((w / 100) * p + (w % 100) * p / 100) in
    if not (ltb_ℤ (pos 0) percent)
      || ltb_ℤ (pos 100) percent
      || not (ltb_ℤ (pos 0) window)
      || ltb_ℤ auto (pos 0)
    then pos 0
    else if ltb_ℤ (pos 0) auto && ltb_ℤ auto value
    then auto
    else value

abbrev or_window : ℤ → ℤ → ℤ
or_window window other = if ltb_ℤ (pos 0) window then window else other

abbrev pub ordinary_window : ModelInfo → ℤ
ordinary_window model = or_window model.context_window model.max_context_window

abbrev pub long_window : ModelInfo → ℤ
long_window model = or_window model.max_context_window (ordinary_window model)

abbrev pub percent_of : ModelInfo → ℤ
percent_of model =
    if eqb_ℤ model.effective_context_window_percent (pos 0)
    then pos 95
    else model.effective_context_window_percent

-- The test at the head of the loop over the models.
abbrev pub skips : List String → ModelInfo → Bool
skips required model =
    not (holds (to_lower model.slug) required)
    && (not model.supported_in_api
        || not (model.visibility == "list")
        || nat_eq (length (levels_of model)) 0)

abbrev pub put_model : ModelInfo → Windows → Windows
put_model model w =
    let bound = limit (percent_of model) model.auto_compact_token_limit in
    put (with_long_context model.slug) (bound (long_window model))
      (put model.slug (bound (ordinary_window model)) w)

unfoldable pub put_models : List String → List ModelInfo → Windows → Windows
unfolding put limit
put_models required [] w = w
put_models required (model ∷ models) w =
    put_models required models (if skips required model then w else put_model model w)

abbrev pub not_complete : Windows → Windows
not_complete w = record w { complete = false }

abbrev pub put_alias : ClaudeModelSpec → Option ℤ → Windows → Windows
put_alias alias none w = not_complete w
put_alias alias (some value) w = put (with_long_context alias.id) value (put alias.id value w)

unfoldable pub put_aliases : Config → List ClaudeModelSpec → Windows → Windows
unfolding put lookup
put_aliases config [] w = w
put_aliases config (alias ∷ aliases) w = put_aliases config aliases (
    put_alias alias (lookup (strip_long_context (to_lower (target config alias.family))) w.windows)
      w)

-- The last loop, over the keys of `required`.
unfoldable pub check_required : List String → Windows → Windows
unfolding lookup
check_required [] w = w
check_required (id ∷ ids) w =
    check_required ids (if is_some (lookup id w.windows) then w else not_complete w)

abbrev pub required_keys : Config → List String
required_keys config = map to_lower (required_models config)

-- The map after the loops over the models and the aliases.
abbrev pub filled : List ModelInfo → Config → Windows
filled models config =
    put_aliases config (claude_alias_specs config ++ family_alias_specs)
      (put_models (required_keys config) models (record { windows = []; complete = true }))

unfoldable pub auto_compact_windows : List ModelInfo → Config → Windows
unfolding put_models put_aliases check_required
auto_compact_windows models configured =
    let config = normalize configured in
    check_required (required_keys config) (filled models config)
