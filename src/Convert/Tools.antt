-- ===== src/Convert/Tools.antt =====
-- internal/convert/request.go: the tools of a request, their choice, and the format of the output.
use Prim.Native.String
use claudodex.Common.{
  String, Bool, true, false, ◌&&◌, ◌||◌, not, Option, none, some, List, [], ◌∷◌, any, ◌==◌,
  string_key, if◌then◌else◌,
}
use claudodex.Common.Int.{ℤ, pos, pos_part, ltb_ℤ, eqb_ℤ}
use claudodex.Common.Dict.{Dict, insert}
use claudodex.Common.Text.{trim_space, to_lower, has_prefix, decimal}
use claudodex.Json.{
  Json, Fields, str, obj, end, field, field_at, as_map, as_str, as_bool, set_field,
}
use claudodex.ModelConfig.{Config}
use claudodex.Codex.{Tool, WebSearchLocation, TextFormat}
use claudodex.Convert.Schema.{sanitize_schema, properties_of}

pub record AnthropicTool : Type 0 where
  pub tool_type : String
  pub name : String
  pub description : String
  pub input_schema : Option Fields
  pub allowed_domains : List String
  pub blocked_domains : List String
  pub max_uses : ℤ
  pub user_location : Option WebSearchLocation

unfoldable pub is_anthropic_web_search_tool : AnthropicTool → Bool
is_anthropic_web_search_tool tool =
    tool.name == "web_search" && has_prefix (to_lower (trim_space tool.tool_type)) "web_search_"

abbrev nonempty {ℓ} : {A : Type ℓ} → List A → Bool
nonempty [] = false
nonempty (x ∷ xs) = true

-- `validateAnthropicServerTools`: whether there is an error.
unfoldable pub blocks_domains : List AnthropicTool → Bool
unfolding is_anthropic_web_search_tool
blocks_domains tools =
    any
      (λ (tool : AnthropicTool). is_anthropic_web_search_tool tool && nonempty tool.blocked_domains)
      tools

abbrev filters_of : List String → Option (Option (List String))
filters_of [] = none
filters_of (d ∷ ds) = some (some (d ∷ ds))

abbrev web_search : AnthropicTool → Tool
web_search tool = record {
  tool_type = "web_search";
  name = "";
  description = "";
  parameters = none;
  external_web_access = some true;
  indexed_web_access = none;
  filters = filters_of tool.allowed_domains;
  user_location = tool.user_location;
}

abbrev texts_of : List String → String
texts_of [] = ""
texts_of (s ∷ ss) = String.◌++◌ s (texts_of ss)

abbrev agent_description : Config → String
agent_description models = texts_of (
    "Actual worker runtime. Set an exact Codex model ID when a particular tier is required: Fable/Astra="
    ∷ models.fable ∷ " (strongest reasoning and required Astra reviews); Opus/Sol=" ∷ models.opus
    ∷ " (complex coding); Sonnet/Terra=" ∷ models.sonnet ∷ " (balanced); Haiku/Luna=" ∷ models.haiku
    ∷ " (simple tasks). A name in the prompt or description does not select the model. Preserve other explicit supported Codex IDs. Omit or use inherit only for native inheritance; never replace a required unavailable runtime with another tier."
    ∷ [])

abbrev with_native : String → String → String
with_native description native =
    if native == ""
    then description
    else String.◌++◌ description (String.◌++◌ " Native tool behavior: " native)

abbrev model_field : String → Json
model_field description =
    obj (field "description" (str description) (field "type" (str "string") end))

-- The properties of the Agent tool: its model field, if it has one, names the configured models.
abbrev agent_properties : Config → Option Fields → Fields → Fields
agent_properties models none properties = properties
agent_properties models (some native) properties =
    set_field "model"
      (model_field
        (with_native (agent_description models) (as_str (field_at "description" native))))
      properties

abbrev agent_schema : Config → Fields → Fields
agent_schema models schema =
    let properties = properties_of schema in
    set_field "properties"
      (obj (agent_properties models (as_map (field_at "model" properties)) properties)) schema

unfoldable pub parameters_of : Config → AnthropicTool → Fields
unfolding sanitize_schema
parameters_of models tool =
    let schema = sanitize_schema tool.input_schema in
    if tool.name == "Agent" then agent_schema models schema else schema

abbrev function_tool : Config → AnthropicTool → Tool
function_tool models tool = record {
  tool_type = "function";
  name = tool.name;
  description = tool.description;
  parameters = some (parameters_of models tool);
  external_web_access = none;
  indexed_web_access = none;
  filters = none;
  user_location = none;
}

unfoldable pub convert_tools_with_models : List AnthropicTool → Config → List Tool
unfolding is_anthropic_web_search_tool parameters_of
convert_tools_with_models [] models = []
convert_tools_with_models (tool ∷ tools) models =
    let rest = convert_tools_with_models tools models in
    if is_anthropic_web_search_tool tool
    then web_search tool ∷ rest
    else if trim_space tool.name == ""
    then rest
    else function_tool models tool ∷ rest

-- The loop of `toolSchemas`; the nil map that it returns for none is the empty one here.
unfoldable pub tool_schemas : List AnthropicTool → Dict String Fields → Dict String Fields
unfolding is_anthropic_web_search_tool sanitize_schema insert
tool_schemas [] out = out
tool_schemas (tool ∷ tools) out =
    let name = trim_space tool.name in
    tool_schemas tools (
      if is_anthropic_web_search_tool tool || name == ""
      then out
      else insert name (sanitize_schema tool.input_schema) out)

abbrev tighter : ℤ → AnthropicTool → ℤ
tighter limit tool =
    if is_anthropic_web_search_tool tool
      && ltb_ℤ (pos 0) tool.max_uses
      && (eqb_ℤ limit (pos 0) || ltb_ℤ tool.max_uses limit)
    then tool.max_uses
    else limit

-- The loop of `webSearchMaxUses`.
unfoldable pub max_uses_from : ℤ → List AnthropicTool → ℤ
unfolding is_anthropic_web_search_tool
max_uses_from limit [] = limit
max_uses_from limit (tool ∷ tools) = max_uses_from (tighter limit tool) tools

unfoldable pub web_search_max_uses : List AnthropicTool → ℤ
unfolding max_uses_from
web_search_max_uses tools = max_uses_from (pos 0) tools

-- The limit is positive where it is printed.
unfoldable pub with_web_search_limit_instructions : String → List AnthropicTool → String
unfolding web_search_max_uses
with_web_search_limit_instructions instructions tools =
    let limit = web_search_max_uses tools in
    let addition = texts_of (
      "Web search compatibility:\n- Perform no more than "
      ∷ decimal (pos_part limit)
      ∷ " web search actions in this response."
      ∷ []) in
    if eqb_ℤ limit (pos 0)
    then instructions
    else if trim_space instructions == ""
    then addition
    else String.◌++◌ (trim_space instructions) (String.◌++◌ "\n\n" addition)

unfoldable pub response_includes : List AnthropicTool → List String
unfolding is_anthropic_web_search_tool
response_includes tools =
    if any is_anthropic_web_search_tool tools
    then "reasoning.encrypted_content" ∷ "web_search_call.action.sources" ∷ []
    else "reasoning.encrypted_content" ∷ []

abbrev choice_of : String → Json
choice_of choice =
    if choice == "none" then str "none" else if choice == "any" then str "required" else str "auto"

abbrev is_hosted : String → List AnthropicTool → Bool
is_hosted name tools =
    any (λ (tool : AnthropicTool). tool.name == name && is_anthropic_web_search_tool tool) tools

abbrev named_choice : String → List AnthropicTool → Json
named_choice name tools =
    if is_hosted name tools
    then obj (field "type" (str "web_search") end)
    else obj (field "name" (str name) (field "type" (str "function") end))

abbrev object_choice : Fields → List AnthropicTool → Json
object_choice fs tools =
    let name = as_str (field_at "name" fs) in
    if as_str (field_at "type" fs) == "tool" && not (name == "")
    then named_choice name tools
    else str "auto"

abbrev raw_choice : Option Json → List AnthropicTool → Json
raw_choice (some (str s)) tools = choice_of s
raw_choice (some (obj fs)) tools = object_choice fs tools
raw_choice _ tools = str "auto"

unfoldable pub convert_tool_choice : Option Json → List AnthropicTool → Json
unfolding is_anthropic_web_search_tool
convert_tool_choice raw tools = if nonempty tools then raw_choice raw tools else str "none"

abbrev format_name : String → String
format_name name = if trim_space name == "" then "claudodex_response" else name

abbrev json_schema : Fields → Option Fields → Option TextFormat
json_schema fs none = none
json_schema fs (some schema) = some record {
  format_type = "json_schema";
  name = format_name (as_str (field_at "name" fs));
  schema = some schema;
  strict = as_bool (field_at "strict" fs);
}

abbrev json_object : TextFormat
json_object = record { format_type = "json_object"; name = ""; schema = none; strict = none }

abbrev format_of : Fields → Option TextFormat
format_of fs =
    let kind = as_str (field_at "type" fs) in
    if kind == "json_schema"
    then json_schema fs (as_map (field_at "schema" fs))
    else if kind == "json_object"
    then some json_object
    else none

abbrev with_format : Option TextFormat → Option (Option TextFormat)
with_format none = none
with_format (some f) = some (some f)

unfoldable pub convert_output_format : Option Json → Option (Option TextFormat)
convert_output_format (some (obj fs)) = with_format (format_of fs)
convert_output_format _ = none
