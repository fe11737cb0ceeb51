-- ===== src/Catalog/Windows/Laws.antt =====
-- What `AutoCompactWindows` guarantees.
use claudodex.Common.{
  String, ◌≡◌, refl, sym, ap, ◌∙◌, Bool, true, false, inl, inr, Bool-cases, Option, none, some,
  List, [], ◌∷◌, ◌++◌, map, all, arith, ◌==◌, string_key, if◌then◌else◌,
}
use claudodex.Common.Int.{ℤ, pos, ◌≤ℤ◌, ltb_ℤ}
use claudodex.Common.Dict.{Dict, lookup, lookup-insert}
use claudodex.Common.Text.{to_lower, is_some}
use claudodex.ModelConfig.{
  Config, normalize, required_models, target, strip_long_context, with_long_context,
}
use claudodex.ModelConfig.Specs.{ClaudeModelSpec, claude_alias_specs, family_alias_specs}
use claudodex.Catalog.{ModelInfo}
use claudodex.Catalog.Windows.{
  Windows, lowered, capped, put, limit, put_models, put_aliases, put_alias, put_model, skips,
  check_required, not_complete, filled, required_keys, ordinary_window, long_window, percent_of,
  auto_compact_windows,
}

-- A window that the client's schema can hold.
abbrev pub Fits : ℤ → Type 0
Fits value = (pos 100000 ≤ℤ value) × (value ≤ℤ pos 1000000)

abbrev pub AllFit : Windows → Type 0
AllFit w = (id : String) (value : ℤ) → lookup id w.windows ≡ some value → Fits value

lowered-Fits :
    (old : Option ℤ) (value : ℤ)
    → ((v : ℤ) → old ≡ some v → Fits v)
    → ltb_ℤ value (pos 100000) ≡ false
    → Fits (lowered old (capped value))
lowered-Fits none value h e = ground (arith, e)
lowered-Fits (some o) value h e = ground (arith, e, h o refl)

put-AllFit : (id : String) (value : ℤ) (w : Windows) → AllFit w → AllFit (put id value w)
unfolding put
put-AllFit id value w h asked v = elim (Bool-cases (ltb_ℤ value (pos 100000))) [
  | inl e ↦ rw e (h asked v)
  | inr e ↦
      let new = lowered (lookup (to_lower id) w.windows) (capped value) in
      rw e (
        rw (lookup-insert (to_lower id) asked new w.windows) (
          either (to_lower id == asked) new (lookup asked w.windows)
            (lowered-Fits (lookup (to_lower id) w.windows) value (h (to_lower id)) e) (h asked) v))
]
  where
    either :
        (b : Bool) (new : ℤ) (old : Option ℤ)
        → Fits new
        → ((u : ℤ) → old ≡ some u → Fits u)
        → (u : ℤ) → (if b then some new else old) ≡ some u
        → Fits u
    either true new old f g u k = ground (arith, k)
    either false new old f g u k = g u k

put_model-AllFit : (model : ModelInfo) (w : Windows) → AllFit w → AllFit (put_model model w)
put_model-AllFit model w h =
    let bound = limit (percent_of model) model.auto_compact_token_limit in
    let ordinary = bound (ordinary_window model) in
    put-AllFit (with_long_context model.slug) (bound (long_window model))
      (put model.slug ordinary w) (put-AllFit model.slug ordinary w h)

put_models-AllFit :
    (required : List String) (models : List ModelInfo) (w : Windows)
    → AllFit w
    → AllFit (put_models required models w)
unfolding put_models
put_models-AllFit required [] w h = h
put_models-AllFit required (model ∷ models) w h =
    put_models-AllFit required models (if skips required model then w else put_model model w)
      (one (skips required model))
  where
    one : (b : Bool) → AllFit (if b then w else put_model model w)
    one true = h
    one false = put_model-AllFit model w h

put_aliases-AllFit :
    (config : Config) (aliases : List ClaudeModelSpec) (w : Windows)
    → AllFit w
    → AllFit (put_aliases config aliases w)
unfolding put_aliases
put_aliases-AllFit config [] w h = h
put_aliases-AllFit config (alias ∷ aliases) w h =
    put_aliases-AllFit config aliases _
      (one (lookup (strip_long_context (to_lower (target config alias.family))) w.windows))
  where
    one : (o : Option ℤ) → AllFit (put_alias alias o w)
    one none = h
    one (some v) = put-AllFit (with_long_context alias.id) v _ (put-AllFit alias.id v w h)

abbrev known : Dict String ℤ → String → Bool
known windows id = is_some (lookup id windows)

-- The last loop only reads the windows.
check_required-windows :
    (ids : List String) (w : Windows) → (check_required ids w).windows ≡ w.windows
unfolding check_required
check_required-windows [] w = refl
check_required-windows (id ∷ ids) w = elim (Bool-cases (known w.windows id)) [
  | inl e ↦ rw (e, check_required) (check_required-windows ids w)
  | inr e ↦ rw (e, check_required) (check_required-windows ids (not_complete w))
]

check_required_incomplete :
    (ids : List String) (w : Windows) → w.complete ≡ false → (check_required ids w).complete ≡ false
unfolding check_required
check_required_incomplete [] w h = h
check_required_incomplete (id ∷ ids) w h = elim (Bool-cases (known w.windows id)) [
  | inl e ↦ rw (e, check_required) (check_required_incomplete ids w h)
  | inr e ↦ rw (e, check_required) (check_required_incomplete ids (not_complete w) refl)
]

check_required-all :
    (ids : List String) (w : Windows)
    → (check_required ids w).complete ≡ true
    → all (known w.windows) ids ≡ true
unfolding check_required
check_required-all [] w h = refl
check_required-all (id ∷ ids) w h = elim (Bool-cases (known w.windows id)) [
  | inl e ↦ rw e (check_required-all ids w (rw (e, check_required) at h))
  | inr e ↦
      ground
        (arith, rw (e, check_required) at h, check_required_incomplete ids (not_complete w) refl)
]

-- Every window that `AutoCompactWindows` returns is from 100,000 to 1,000,000 tokens.
pub auto_compact_windows-AllFit :
    (models : List ModelInfo) (configured : Config)
    → AllFit (auto_compact_windows models configured)
unfolding auto_compact_windows
auto_compact_windows-AllFit models configured id value h =
    let config = normalize configured in
    let keys = required_keys config in
    put_aliases-AllFit config (claude_alias_specs config ++ family_alias_specs)
      (put_models keys models (record { windows = []; complete = true }))
      (put_models-AllFit keys models (record { windows = []; complete = true })
        (λ i v k. ground (arith, k)))
      id value (ap (lookup id) (sym (check_required-windows keys (filled models config))) ∙ h)

-- If `AutoCompactWindows` says that its windows are complete, every model of the normalized
-- configuration has one, under its lowered name.
pub auto_compact_windows-complete :
    (models : List ModelInfo) (configured : Config)
    → (auto_compact_windows models configured).complete ≡ true
    → all
        (λ id. is_some (lookup id (auto_compact_windows models configured).windows))
        (map to_lower (required_models (normalize configured)))
      ≡ true
unfolding auto_compact_windows
auto_compact_windows-complete models configured h =
    let config = normalize configured in
    let keys = required_keys config in
    rw (check_required-windows keys (filled models config))
      (check_required-all keys (filled models config) h)
