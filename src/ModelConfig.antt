-- ===== src/ModelConfig.antt =====
-- internal/modelconfig/catalog.go: the four roles of a configuration, and the names that map to them.
pub mod Stripped
pub mod Laws
pub mod Specs
mod Tests
use Prim.Native.String
use claudodex.Common.{
  ℕ, zero, suc, String, Bool, true, false, ◌&&◌, ◌||◌, Option, none, some, List, [], ◌∷◌, ◌==◌,
  string_key, if◌then◌else◌,
}
use claudodex.Common.Text.{trim_space, to_lower, contains, has_prefix, has_suffix, drop_last, size}

abbrev pub default_opus_model : String
default_opus_model = "gpt-6.1-sol"

abbrev pub default_sonnet_model : String
default_sonnet_model = "gpt-6.1-terra"

abbrev pub default_haiku_model : String
default_haiku_model = "gpt-6-luna"

abbrev pub default_fable_model : String
default_fable_model = "gpt-6-astra"

abbrev pub long_context_suffix : String
long_context_suffix = "[1m]"

abbrev pub default_claude_request_model : String
default_claude_request_model = "claude-opus-5"

-- The four constants of type Family; the empty Family is `none` where it can occur.
pub data Family : Type 0 where
  opus sonnet haiku fable : Family

pub record Config : Type 0 where
  pub opus : String
  pub sonnet : String
  pub haiku : String
  pub fable : String

abbrev pub default : Config
default = record {
  opus = default_opus_model;
  sonnet = default_sonnet_model;
  haiku = default_haiku_model;
  fable = default_fable_model;
}

-- The loop of `StripLongContext`, on a trimmed name: each round takes four characters away.
unfoldable pub strip_loop : ℕ → String → String
strip_loop zero model = model
strip_loop (suc fuel) model =
    let rest = strip_loop fuel (trim_space (drop_last 4 model)) in
    if has_suffix (to_lower model) long_context_suffix then rest else model

unfoldable pub strip_long_context : String → String
unfolding strip_loop size
strip_long_context model = let start = trim_space model in strip_loop (suc (size start)) start

unfoldable pub with_long_context : String → String
unfolding strip_long_context
with_long_context model =
    let clean = strip_long_context model in
    if has_suffix (to_lower clean) long_context_suffix
    then clean
    else String.◌++◌ clean long_context_suffix

abbrev or_default : String → String → String
or_default model d = strip_long_context (if trim_space model == "" then d else model)

unfoldable pub normalize : Config → Config
normalize c = record {
  opus = or_default c.opus default_opus_model;
  sonnet = or_default c.sonnet default_sonnet_model;
  haiku = or_default c.haiku default_haiku_model;
  fable = or_default c.fable default_fable_model;
}

-- A field of a configuration, by its family.
abbrev pub field_of : Config → Family → String
field_of c opus = c.opus
field_of c sonnet = c.sonnet
field_of c haiku = c.haiku
field_of c fable = c.fable

unfoldable pub target : Config → Family → String
target c family = field_of (normalize c) family

unfoldable pub normalize_model_name : String → String
normalize_model_name model = to_lower (strip_long_context model)

unfoldable pub model_family : String → Option Family
model_family n =
    if contains n "fable" || contains n "mythos" || n == default_fable_model
    then some fable
    else if contains n "haiku"
        || n == default_haiku_model
        || n == "gpt-5.6-luna"
        || contains n "small-fast"
        || n == "small"
    then some haiku
    else if contains n "opus"
        || n == default_opus_model
        || n == "gpt-5.6-sol"
        || n == "best"
        || n == "opusplan"
    then some opus
    else if contains n "sonnet" || n == default_sonnet_model || n == "gpt-5.6-terra"
    then some sonnet
    else none

unfoldable pub family_for_model : String → Option Family
family_for_model model = model_family (normalize_model_name model)

abbrev map_family : Config → Option Family → String
map_family c none = c.opus
map_family c (some f) = target c f

-- `MapModel` once the configuration is normalized; the log line of an unknown name is left out.
unfoldable pub map_normalized : Config → String → String
map_normalized c model =
    let n = normalize_model_name model in
    if has_prefix n "gpt-"
    then strip_long_context model
    else if n == normalize_model_name c.opus
    then c.opus
    else if n == normalize_model_name c.sonnet
    then c.sonnet
    else if n == normalize_model_name c.haiku
    then c.haiku
    else if n == normalize_model_name c.fable
    then c.fable
    else map_family c (family_for_model model)

unfoldable pub map_model : Config → String → String
unfolding map_normalized
map_model c model =
    map_normalized (normalize c)
      (if trim_space model == "" then default_claude_request_model else model)

unfoldable pub settings_alias_for_target : Config → String → Option Family
settings_alias_for_target config model =
    let c = normalize config in
    let n = normalize_model_name model in
    if n == normalize_model_name c.opus
    then some opus
    else if n == normalize_model_name c.sonnet
    then some sonnet
    else if n == normalize_model_name c.haiku
    then some haiku
    else if n == normalize_model_name c.fable
    then some fable
    else none

unfoldable pub supports_x_high : Config → String → Bool
supports_x_high config model =
    let c = normalize config in
    let n = normalize_model_name model in
    n == normalize_model_name c.opus
    || n == normalize_model_name c.sonnet
    || n == normalize_model_name c.haiku
    || n == normalize_model_name c.fable
    || n == "gpt-5.5"
    || n == "gpt-5.4"
    || n == "gpt-5.4-mini"
    || elim (family_for_model model) [ none ↦ false | some f ↦ true ]

abbrev is_haiku : Option Family → Bool
is_haiku (some haiku) = true
is_haiku _ = false

unfoldable pub is_low_effort_default : Config → String → Bool
is_low_effort_default config model =
    let n = normalize_model_name model in
    n == normalize_model_name (normalize config).haiku || is_haiku (model_family n)

abbrev pub holds : String → List String → Bool
holds k [] = false
holds k (x ∷ xs) = x == k || holds k xs

-- The loop of `RequiredModels`: `seen` holds the lowered names that were taken.
unfoldable pub distinct_from : List String → List String → List String
distinct_from seen [] = []
distinct_from seen (m ∷ ms) =
    let key = to_lower m in
    let taken = m ∷ distinct_from (key ∷ seen) ms in
    let skipped = distinct_from seen ms in if holds key seen then skipped else taken

unfoldable pub required_models : Config → List String
unfolding distinct_from
required_models config =
    let c = normalize config in distinct_from [] (c.opus ∷ c.sonnet ∷ c.haiku ∷ c.fable ∷ [])
