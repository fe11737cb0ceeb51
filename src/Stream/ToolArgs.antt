-- ===== src/Stream/ToolArgs.antt =====
-- internal/convert/stream.go, the arguments of a finished tool call: `finalToolArgs` and what it calls.
pub mod Required
use Prim.Native.Char.{code}
use Prim.Native.String.{[], ◌∷◌}
use mathlib.Core.Option
use claudodex.Common.{
  String, Bool, true, false, ◌&&◌, ◌||◌, not, Option, none, some, List, [], ◌∷◌, any, nat_eq, ◌==◌,
  string_key, if◌then◌else◌,
}
use claudodex.Common.Dict.{Dict, lookup}
use claudodex.Common.Text.{trim_space, to_lower, has_prefix, contains}
use claudodex.Json.{
  Json, Items, Fields, null, bool, num, str, arr, obj, nil, cons, end, field, Codec, field_at, at,
  as_map, as_list, as_str, set_field, remove_field,
}
use claudodex.ModelConfig.{Config, normalize}

-- `requiredStrings`
abbrev pub required_strings : List Json → List String
required_strings [] = []
required_strings (str s ∷ vs) = if s == "" then required_strings vs else s ∷ required_strings vs
required_strings (v ∷ vs) = required_strings vs

unfoldable pub is_empty_optional_value : Json → Bool
is_empty_optional_value null = true
is_empty_optional_value (str s) = s == ""
is_empty_optional_value _ = false

abbrev pub is_required : Option Fields → String → Bool
is_required schema key =
    any (λ (k : String). k == key) (required_strings (as_list (at schema "required")))

abbrev pub property : Option Fields → String → Option Fields
property schema key = as_map (at (as_map (at schema "properties")) key)

-- A field that is kept or dropped.
abbrev pub keep_field : Bool → String → Json → Fields → Fields
keep_field true k v fs = fs
keep_field false k v fs = field k v fs

-- `pruneEmptyOptionalObject`: the schema of a nested value is `none` where the walk does not go on.
unfoldable mutual
  pub prune_value : Option Fields → Json → Json
  prune_value none v = v
  prune_value (some schema) null = null
  prune_value (some schema) (bool b) = bool b
  prune_value (some schema) (num w f) = num w f
  prune_value (some schema) (str s) = str s
  prune_value (some schema) (arr vs) = arr (prune_items (as_map (field_at "items" schema)) vs)
  prune_value (some schema) (obj fs) = obj (prune_object (some schema) fs)

  pub prune_items : Option Fields → Items → Items
  prune_items schema nil = nil
  prune_items schema (cons v vs) = cons (prune_item schema v) (prune_items schema vs)

  pub prune_item : Option Fields → Json → Json
  prune_item none v = v
  prune_item (some schema) (obj fs) = obj (prune_object (some schema) fs)
  prune_item (some schema) null = null
  prune_item (some schema) (bool b) = bool b
  prune_item (some schema) (num w f) = num w f
  prune_item (some schema) (str s) = str s
  prune_item (some schema) (arr vs) = arr vs

  pub prune_object : Option Fields → Fields → Fields
  prune_object schema end = end
  prune_object schema (field k v fs) =
      keep_field (not (is_required schema k) && is_empty_optional_value v) k
        (prune_value (property schema k) v) (prune_object schema fs)

unfoldable pub replace_backslash : String → String
replace_backslash [] = []
replace_backslash (c ∷ s) = (if nat_eq (code c) 92 then "/" else c) ∷ replace_backslash s

unfoldable pub is_claude_plan_file_path : String → Bool
unfolding replace_backslash
is_claude_plan_file_path path =
    let normalized = replace_backslash (trim_space path) in
    contains normalized "/.claude/plans/" || contains normalized "/.claudodex/claude-config/plans/"

-- The plan file's rule of `normalizeClaudeCodeToolArgs`.
unfoldable pub redirect_plan_file : (tool_name plan_file_path : String) → Fields → Fields
redirect_plan_file tool_name plan_file_path args =
    let requested = as_str (field_at "file_path" args) in
    if (tool_name == "Write" || tool_name == "Edit")
      && not (trim_space plan_file_path == "")
      && is_claude_plan_file_path requested
      && not (requested == plan_file_path)
    then set_field "file_path" (str plan_file_path) args
    else args

-- What happens to the model of an Agent call, once it is trimmed and lowered.
pub data ModelRule : Type 0 where
  remove_model keep_model : ModelRule
  use_model : String → ModelRule

unfoldable pub agent_model_rule : Config → String → ModelRule
agent_model_rule models n =
    if n == ""
    then remove_model
    else if n == "inherit"
        || has_prefix n "gpt-"
        || n == to_lower models.opus
        || n == to_lower models.sonnet
        || n == to_lower models.haiku
        || n == to_lower models.fable
    then keep_model
    else if contains n "sonnet"
    then use_model models.sonnet
    else if contains n "haiku"
    then use_model models.haiku
    else if contains n "fable" || contains n "mythos"
    then use_model models.fable
    else if contains n "opus" || has_prefix n "claude-"
    then use_model models.opus
    else keep_model

abbrev apply_rule : ModelRule → Fields → Fields
apply_rule remove_model args = remove_field "model" args
apply_rule keep_model args = args
apply_rule (use_model m) args = set_field "model" (str m) args

unfoldable pub normalize_claude_code_tool_args :
    (tool_name : String) → Fields → Config → (plan_file_path : String) → Fields
unfolding redirect_plan_file agent_model_rule
normalize_claude_code_tool_args tool_name given models plan_file_path =
    let args = redirect_plan_file tool_name plan_file_path given in
    if tool_name == "Agent"
    then apply_rule
        (agent_model_rule (normalize models)
          (to_lower (trim_space (as_str (field_at "model" args)))))
        args
    else args

abbrev pruned : Option Fields → Fields → Fields
pruned none args = args
pruned (some schema) args = prune_object (some schema) args

abbrev args_or_raw :
    Codec → String → Dict String Fields → Config → String → String → Option (Option Fields) → String
args_or_raw codec raw schemas models plan_file_path name none = raw
args_or_raw codec raw schemas models plan_file_path name (some none) = raw
args_or_raw codec raw schemas models plan_file_path name (some (some args)) =
    Option.get_or
      (codec.encode_map (
        normalize_claude_code_tool_args name (pruned (lookup name schemas) args) models
          plan_file_path))
      raw

unfoldable pub final_tool_args :
    Codec → (schemas : Dict String Fields) → Config → (plan_file_path name args : String) → String
final_tool_args codec schemas models plan_file_path name args =
    let raw = trim_space args in
    if raw == ""
    then ""
    else args_or_raw codec raw schemas models plan_file_path name (codec.decode_map raw)
