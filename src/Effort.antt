-- ===== src/Effort.antt =====
-- internal/convert/effort.go: how a request's effort or thinking budget becomes a reasoning effort of
-- the Codex model; with `OrdinaryReasoningLevels` of internal/modelcatalog/resolve.go.
pub mod Select
pub mod Laws
mod Tests
use claudodex.Common.{
  ℕ, String, Bool, true, false, ◌&&◌, ◌||◌, not, Option, none, some, List, [], ◌∷◌, any, leb, ◌==◌,
  string_key, if◌then◌else◌,
}
use claudodex.Common.Int.{ℤ, pos, ltb_ℤ}
use claudodex.Common.Text.{trim_space, to_lower, without_char, contains, equal_fold}
use claudodex.ModelConfig.{
  Config, normalize, strip_long_context, supports_x_high, is_low_effort_default, default_opus_model,
  default_sonnet_model, default_haiku_model, default_fable_model,
}

-- The seven values of ReasoningEffort; the text "" is `none` where it can occur.
pub data Effort : Type 0 where
  none_effort minimal low medium high x_high max : Effort

unfoldable pub effort_name : Effort → String
effort_name none_effort = "none"
effort_name minimal = "minimal"
effort_name low = "low"
effort_name medium = "medium"
effort_name high = "high"
effort_name x_high = "xhigh"
effort_name max = "max"

-- The map `order`.
unfoldable pub order : Effort → ℕ
order none_effort = 0
order minimal = 1
order low = 2
order medium = 3
order high = 4
order x_high = 5
order max = 6

abbrev pub ordinary_efforts : List Effort
ordinary_efforts = none_effort ∷ minimal ∷ low ∷ medium ∷ high ∷ x_high ∷ max ∷ []

-- Whether a model advertises an effort: `supported` has the names of its levels.
abbrev pub seen : List String → Effort → Bool
seen supported e = any (λ (s : String). s == effort_name e) supported

unfoldable pub seen_of : List String → List Effort → List Effort
seen_of supported [] = []
seen_of supported (e ∷ es) =
    let rest = seen_of supported es in if seen supported e then e ∷ rest else rest

unfoldable pub ordinary_reasoning_levels : List String → List Effort
unfolding seen_of
ordinary_reasoning_levels supported = seen_of supported ordinary_efforts

-- The switch of `normalizeEffort` on the folded text; `none` for its `false`.
unfoldable pub effort_of : String → Option Effort
effort_of v =
    if v == "none"
    then some none_effort
    else if v == "minimal"
    then some minimal
    else if v == "low"
    then some low
    else if v == "medium"
    then some medium
    else if v == "high"
    then some high
    else if v == "xhigh"
    then some x_high
    else if v == "max" || v == "ultracode"
    then some max
    else none

unfoldable pub normalize_effort : String → Option Effort
unfolding effort_of
normalize_effort value = effort_of (to_lower (without_char b'-' (trim_space value)))

-- The effort of a thinking budget, for one that may be as large as `top`.
abbrev pub budget_effort : ℤ → (top : Effort) → Effort
budget_effort budget_tokens top =
    if ltb_ℤ budget_tokens (pos 4000)
    then low
    else if ltb_ℤ budget_tokens (pos 16000)
    then medium
    else if ltb_ℤ budget_tokens (pos 32000)
    then high
    else top

-- What a request asks for, by its effort or its budget.
unfoldable pub requested_effort : String → ℤ → Option Effort
requested_effort output_effort budget_tokens = elim (normalize_effort output_effort) [
  | some e ↦ some e
  | none ↦
      if ltb_ℤ (pos 0) budget_tokens && not (equal_fold (trim_space output_effort) "auto")
      then some (budget_effort budget_tokens x_high)
      else none
]

-- The last loop: the last level, in their order, that is not above the request.
unfoldable pub select_level : Effort → (requested : Effort) → List Effort → Effort
select_level selected requested [] = selected
select_level selected requested (l ∷ ls) =
    select_level (if leb (order l) (order requested) then l else selected) requested ls

-- The loop for a request that asks for nothing: the default level, if it is among the levels.
unfoldable pub default_level : String → List Effort → Option Effort
default_level name [] = none
default_level name (l ∷ ls) =
    let rest = default_level name ls in if effort_name l == name then some l else rest

abbrev pub for_levels : String → Option Effort → List Effort → Option Effort
for_levels default_name requested [] = none
for_levels default_name (some q) (l ∷ ls) = some (select_level l q (l ∷ ls))
for_levels default_name none (l ∷ ls) = elim (default_level default_name (l ∷ ls)) [
  | some d ↦ some d
  | none ↦ some (select_level l medium (l ∷ ls))
]

-- `supported` and `default_name` are the fields of the ModelInfo; `none` is the error.
unfoldable pub map_reasoning_effort_for_model :
    (supported : List String) (default_name : String) (output_effort : String) (budget_tokens : ℤ)
    → Option Effort
unfolding requested_effort
map_reasoning_effort_for_model supported default_name output_effort budget_tokens =
    for_levels default_name (requested_effort output_effort budget_tokens)
      (ordinary_reasoning_levels supported)

unfoldable pub supports_max : String → Bool
supports_max model =
    let n = to_lower (strip_long_context model) in
    n == default_opus_model
    || n == default_sonnet_model
    || n == default_haiku_model
    || n == default_fable_model
    || n == "gpt-5.6-sol"
    || n == "gpt-5.6-terra"
    || n == "gpt-5.6-luna"

-- The first branch of `MapReasoningEffortWithConfig`.
unfoldable pub allowed : (max_ok x_high_ok : Bool) → Effort → Effort
allowed max_ok x_high_ok max = if max_ok then max else if x_high_ok then x_high else high
allowed max_ok x_high_ok x_high = if x_high_ok then x_high else high
allowed max_ok x_high_ok none_effort = none_effort
allowed max_ok x_high_ok minimal = minimal
allowed max_ok x_high_ok low = low
allowed max_ok x_high_ok medium = medium
allowed max_ok x_high_ok high = high

abbrev default_effort : Config → String → Effort
default_effort models model =
    let n = to_lower (strip_long_context model) in
    if is_low_effort_default models model
      || contains n "mini"
      || contains n "haiku"
      || contains n "small-fast"
      || n == "small"
    then low
    else medium

-- A given effort as far as it is allowed; else the budget's, if there is one; else the default.
abbrev pub effort_or :
    (max_ok x_high_ok : Bool) → (budget_tokens : ℤ) → Effort → Option Effort → Effort
effort_or max_ok x_high_ok budget_tokens d (some e) = allowed max_ok x_high_ok e
effort_or max_ok x_high_ok budget_tokens d none =
    if ltb_ℤ (pos 0) budget_tokens
    then budget_effort budget_tokens (if x_high_ok then x_high else high)
    else d

unfoldable pub map_reasoning_effort_with_config :
    (model output_effort : String) (budget_tokens : ℤ) → Config → Effort
map_reasoning_effort_with_config model output_effort budget_tokens config =
    effort_or (supports_max model) (supports_x_high (normalize config) model) budget_tokens
      (default_effort (normalize config) model) (normalize_effort output_effort)
