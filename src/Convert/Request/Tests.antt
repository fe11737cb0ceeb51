-- ===== src/Convert/Request/Tests.antt =====
-- Runs of the conversion of whole requests, and its theorems at concrete inputs.
use claudodex.Common.{String, List, ◌≡◌, refl, true, false, none, some, List, [], ◌∷◌, string_key}
use claudodex.Common.Int.{pos}
use claudodex.Common.Dict.{lookup, insert}
use claudodex.Common.Outcome.{ok, failed}
use claudodex.Common.Text.{
  without_char, byte_len, trim_space, trim_left, trim_right, to_lower, fold, contains, has_prefix,
  has_suffix, drop_last, strip_prefix, split, size, decimal, equal_fold,
}
use claudodex.Json.{str, field_at, set_field, remove_field}
use claudodex.Effort.{
  effort_of, effort_name, ordinary_reasoning_levels, map_reasoning_effort_for_model,
  map_reasoning_effort_with_config, seen_of, select_level, order, requested_effort, default_level,
  normalize_effort,
}
use claudodex.ModelConfig.{
  default, normalize, strip_long_context, strip_loop, map_model, map_normalized,
  normalize_model_name, family_for_model, model_family, target,
}
use claudodex.Codex.{set_create_time_if_missing}
use claudodex.Catalog.{
  ModelInfo, target_error, find_target, validate_target, is_model_id, supports_fast,
}
use claudodex.Catalog.Version.{
  models_client_version, compare_numeric_version, valid_client_version, version_less,
}
use claudodex.Convert.Schema.{has_field, sanitize_schema}
use claudodex.Convert.Messages.{take_bytes, clamp_call_id}
use claudodex.Convert.Messages.Results.{
  join, convert_block, convert_blocks, block_maps, convert_content,
}
use claudodex.Convert.System.{
  lower_text, has_return, is_billing_line, without_billing, strip_anthropic_billing_header,
  text_blocks, block_texts, system_instructions, convert_message, convert_all, convert_messages,
}
use claudodex.Convert.Tools.{
  is_anthropic_web_search_tool, blocks_domains, parameters_of, convert_tools_with_models,
  tool_schemas, max_uses_from, web_search_max_uses, with_web_search_limit_instructions,
  response_includes, convert_tool_choice, convert_output_format,
}
use claudodex.Convert.Instructions.{
  capture, find_capture, claude_code_plan_file_path, replace_names,
  with_claude_code_compatibility_instructions, is_claude_code_subagent_instructions, part_texts,
  input_text_for_routing, is_claude_code_team_teammate, all_agent_id_chars, valid_claude_agent_id,
}
use claudodex.Convert.Types.{
  AnthropicRequest, ConvertOptions, Result, Surroundings, invalid_agent_id, no_random_bytes,
}
use claudodex.Codex.{InputItem}
use claudodex.Convert.Request.{
  all_instructions, Routing, stamp_locally_authored_items, requests_thinking,
  supports_reasoning_summaries, map_service_tier, find_model, route_of, or_model, effort_of_request,
  anthropic_to_codex,
}
use claudodex.Convert.Request.Laws.{Routed, anthropic_to_codex-Routed}
use claudodex.Convert.Request.Served.{IsServed, asked_effort, anthropic_to_codex-IsServed}

runs : Unit {0}
unfolding without_char lookup insert byte_len trim_space trim_left trim_right to_lower contains
    has_prefix has_suffix drop_last strip_prefix split size decimal field_at set_field remove_field
    effort_name ordinary_reasoning_levels map_reasoning_effort_for_model
    map_reasoning_effort_with_config normalize strip_long_context map_model
    set_create_time_if_missing target_error find_target validate_target is_model_id
    models_client_version has_field sanitize_schema take_bytes clamp_call_id join convert_block
    convert_blocks block_maps convert_content lower_text has_return is_billing_line without_billing
    strip_anthropic_billing_header text_blocks block_texts system_instructions convert_message
    convert_all convert_messages is_anthropic_web_search_tool blocks_domains parameters_of
    convert_tools_with_models tool_schemas max_uses_from web_search_max_uses
    with_web_search_limit_instructions response_includes convert_tool_choice convert_output_format
    capture find_capture claude_code_plan_file_path replace_names
    with_claude_code_compatibility_instructions is_claude_code_subagent_instructions part_texts
    input_text_for_routing is_claude_code_team_teammate all_agent_id_chars valid_claude_agent_id
    stamp_locally_authored_items requests_thinking supports_reasoning_summaries map_service_tier
    find_model route_of effort_of_request anthropic_to_codex fold equal_fold strip_loop
    map_normalized normalize_model_name family_for_model model_family target seen_of select_level
    order requested_effort default_level normalize_effort effort_of supports_fast
    compare_numeric_version valid_client_version version_less
runs = tt

abbrev around : Surroundings
around = record {
  library = record { digest = λ id. "0123456789abcdef"; encode = λ v. some "{}"; sprint = λ v. "" };
  templates = record { compatibility = "Opus is {{OPUS_MODEL}}."; ordinary_subagent = "No tasks." };
  now = pos 1000;
  nonce = some "00ff";
}

abbrev astra : ModelInfo
astra = record {
  slug = "gpt-6.1-sol";
  display_name = "";
  description = "";
  context_window = pos 400000;
  max_context_window = pos 0;
  auto_compact_token_limit = pos 0;
  effective_context_window_percent = pos 0;
  supports_reasoning_summaries = true;
  supported_reasoning_levels =
      record { effort = "low"; description = "" }
      ∷ record { effort = "high"; description = "" }
      ∷ [];
  default_reasoning_level = "high";
  priority = none;
  minimal_client_version = "";
  service_tiers = [];
  additional_speed_tiers = [];
  content_filter_guidance = none;
  supported_in_api = true;
  visibility = "list";
}

abbrev models : List ModelInfo
models = astra ∷ []

abbrev request : AnthropicRequest
request = record {
  model = "claude-opus-5";
  system = some (str "Be brief.");
  messages = record { role = "user"; content = some (str "Hello") } ∷ [];
  tools = [];
  tool_choice = none;
  thinking_type = "adaptive";
  budget_tokens = pos 0;
  output_effort = "medium";
  output_format = none;
  speed = "fast";
  stream = some true;
}

abbrev settings : ConvertOptions
settings = record {
  session_id = "s1";
  agent_id = "agent-7";
  request_class = "";
  models = default;
  codex_models = some models;
  client_version = "";
}

abbrev result : Result
result = record {
  request = record {
    model = "gpt-6.1-sol";
    stream = true;
    service_tier = "";
    instructions = "Be brief.\n\nOpus is gpt-6.1-sol.\n\nNo tasks.";
    previous_response_id = "";
    input =
        record {
          id = "";
          item_type = "message";
          role = "user";
          content = some (
              record { part_type = "input_text"; text = "Hello"; image_url = ""; detail = "" }
              ∷ []);
          call_id = "";
          name = "";
          arguments = "";
          output = none;
          create_time = some (pos 1000);
          raw = none;
        }
        ∷ [];
    tools = some [];
    tool_choice = some (str "none");
    parallel_tool_calls = true;
    store = false;
    include = some ("reasoning.encrypted_content" ∷ []);
    reasoning = some record { effort = "low"; summary = "auto" };
    text = none;
    prompt_cache_key = "s1:agent:agent-7";
    client_metadata = none;
  };
  original_model = "claude-opus-5";
  stream = true;
  tool_schemas = [];
  plan_file_path = "";
  route_session_id = "s1:agent:agent-7";
  parent_thread_id = "s1";
  subagent = "collab_spawn";
  web_search_max_uses = pos 0;
  fast_mode_fallback = true;
  stateless_subagent = false;
}

conversion : anthropic_to_codex around request settings ≡ ok result
unfolding runs
conversion = refl

refuses :
    (anthropic_to_codex around request (record settings { agent_id = "a b" })
      ≡ failed invalid_agent_id)
    × (anthropic_to_codex
          (record around { nonce = none })
          request
          (record settings { session_id = "" })
        ≡ failed no_random_bytes)
unfolding runs
refuses = (refl, refl)

paths :
    (claude_code_plan_file_path "A plan file already exists at `/p.md`. You can read it" ≡ "/p.md")
    × (claude_code_plan_file_path "Read-only except plan file (/q.md)" ≡ "/q.md")
    × (replace_names (("{{A}}", "b") ∷ []) 0 "x{{A}}{{B}}" ≡ "xb{{B}}")
unfolding runs
paths = (refl, refl, refl)

anthropic_to_codex-Routed_example :
    (got : List InputItem × String) × (convert_messages around.library request.messages ≡ ok got)
    × (routing : Routing) × Routed (some "00ff") settings (all_instructions request got.1) routing
    × (result.request.prompt_cache_key ≡ routing.route_session_id)
    × (result.route_session_id ≡ routing.route_session_id)
    × (result.parent_thread_id ≡ routing.parent_thread_id)
    × (result.stateless_subagent ≡ routing.stateless)
anthropic_to_codex-Routed_example =
    anthropic_to_codex-Routed around request settings result conversion

anthropic_to_codex-IsServed_example :
    IsServed models ""
      (map_model (normalize default) (or_model "claude-opus-5"))
      result.request.model
      (asked_effort result.request.reasoning)
      result.request.service_tier
anthropic_to_codex-IsServed_example =
    anthropic_to_codex-IsServed around request settings result models refl conversion
