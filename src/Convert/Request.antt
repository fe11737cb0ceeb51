-- ===== src/Convert/Request.antt =====
-- internal/convert/request.go: `AnthropicToCodex`.
pub mod Steps
pub mod Laws
pub mod Served
mod Tests
use Prim.Native.String
use claudodex.Common.{
  ℕ, String, Bool, true, false, ◌&&◌, ◌||◌, not, Option, none, some, List, [], ◌∷◌, map, ◌==◌,
  string_key, if◌then◌else◌,
}
use claudodex.Common.Int.{ℤ, pos, ◌+ℤ◌, ltb_ℤ}
use claudodex.Common.Dict.{Dict}
use claudodex.Common.Outcome.{Outcome, failed, ok, ◌>>=◌, unless, map_error}
use claudodex.Common.Text.{trim_space, to_lower, equal_fold, fold}
use claudodex.Json.{Json, Fields}
use claudodex.ModelConfig.{Config, normalize, map_model, default_claude_request_model}
use claudodex.Effort.{
  Effort, effort_name, map_reasoning_effort_for_model, map_reasoning_effort_with_config,
}
use claudodex.Catalog.{
  ModelInfo, ReasoningEffortPreset, LookupError, validate_target, supports_fast,
}
use claudodex.Codex.{InputItem, Request, Reasoning, set_create_time_if_missing}
use claudodex.Convert.Messages.{Library, BadRequest, AnthropicMessage, part, message_item}
use claudodex.Convert.System.{system_instructions, convert_messages}
use claudodex.Convert.Tools.{
  AnthropicTool, blocks_domains, convert_tools_with_models, tool_schemas, web_search_max_uses,
  with_web_search_limit_instructions, response_includes, convert_tool_choice, convert_output_format,
}
use claudodex.Convert.Instructions.{
  Templates, claude_code_plan_file_path, with_claude_code_compatibility_instructions,
  is_claude_code_subagent_instructions, is_claude_code_team_teammate, valid_claude_agent_id,
}
use claudodex.Convert.Types.{
  AnthropicRequest, ConvertOptions, Result, ConvertError, blocked_domains, invalid_agent_id,
  no_ordinary_level, no_random_bytes, bad_request, bad_model, Surroundings,
}

unfoldable pub stamp_locally_authored_items : ℤ → List InputItem → List InputItem
unfolding set_create_time_if_missing
stamp_locally_authored_items time [] = []
stamp_locally_authored_items time (item ∷ items) =
    set_create_time_if_missing time item ∷ stamp_locally_authored_items (time +ℤ pos 1) items

unfoldable pub requests_thinking : String → ℤ → Bool
requests_thinking thinking_type budget_tokens =
    let t = to_lower (trim_space thinking_type) in
    t == "adaptive" || t == "enabled" || ltb_ℤ (pos 0) budget_tokens

unfoldable pub supports_reasoning_summaries : List ModelInfo → String → Bool
unfolding fold trim_space
supports_reasoning_summaries [] slug = false
supports_reasoning_summaries (model ∷ models) slug =
    let rest = supports_reasoning_summaries models slug in
    if equal_fold (trim_space model.slug) (trim_space slug)
    then model.supports_reasoning_summaries
    else rest

unfoldable pub map_service_tier : String → String
unfolding fold trim_space
map_service_tier speed = if equal_fold (trim_space speed) "fast" then "priority" else ""

abbrev pub or_model : String → String
or_model model = if trim_space model == "" then default_claude_request_model else model

-- The target in the catalog, if there is a catalog.
unfoldable pub find_model :
    Option (List ModelInfo) → String → String → Outcome ConvertError (Option ModelInfo)
unfolding validate_target
find_model none codex_model client_version = ok none
find_model (some models) codex_model client_version =
    map_error bad_model (validate_target models codex_model client_version) >>= λ model.
    ok (some model)

abbrev pub with_empty_message : List InputItem → List InputItem
with_empty_message [] = message_item "user" (part "input_text" "" ∷ []) ∷ []
with_empty_message (item ∷ items) = item ∷ items

abbrev joined : String → String → String
joined instructions more =
    if trim_space more == ""
    then instructions
    else if instructions == ""
    then trim_space more
    else String.◌++◌ instructions (String.◌++◌ "\n\n" (trim_space more))

-- The route of a request: its session, the parent's, the kind of worker, and whether it keeps no state.
pub record Routing : Type 0 where
  pub route_session_id : String
  pub parent_thread_id : String
  pub subagent : String
  pub stateless : Bool

abbrev pub main_route : String → Routing
main_route session = record {
  route_session_id = session;
  parent_thread_id = "";
  subagent = "";
  stateless = false;
}

abbrev pub worker_route : String → Bool → String → Routing
worker_route id stateless session = record {
  route_session_id = id;
  parent_thread_id = session;
  subagent = "collab_spawn";
  stateless = stateless;
}

abbrev isolated : Option String → String → Outcome ConvertError Routing
isolated none session = failed no_random_bytes
isolated (some nonce) session = ok (worker_route (String.◌++◌ "worker-request:" nonce) true session)

abbrev pub is_subagent : ConvertOptions → String → Bool
is_subagent opts instructions =
    not (opts.agent_id == "")
    || opts.request_class == "subagent"
    || opts.request_class == "workflow"
    || (not (opts.request_class == "main") && is_claude_code_subagent_instructions instructions)

unfoldable pub route_of :
    Option String → ConvertOptions → (is_worker : Bool) → Outcome ConvertError Routing
unfolding valid_claude_agent_id trim_space
route_of nonce opts is_worker =
    let session = trim_space opts.session_id in
    if not (opts.agent_id == "") && not (valid_claude_agent_id opts.agent_id)
    then failed invalid_agent_id
    else if not is_worker
    then ok (main_route session)
    else if not (session == "") && not (opts.agent_id == "")
    then ok (worker_route (String.◌++◌ session (String.◌++◌ ":agent:" opts.agent_id)) false session)
    else isolated nonce session

abbrev pub or_no_level : Option Effort → Outcome ConvertError Effort
or_no_level none = failed no_ordinary_level
or_no_level (some e) = ok e

unfoldable pub effort_of_request :
    Option ModelInfo
    → (codex_model : String) → AnthropicRequest
    → Config
    → Outcome ConvertError Effort
unfolding map_reasoning_effort_for_model map_reasoning_effort_with_config
effort_of_request none codex_model req models =
    ok (map_reasoning_effort_with_config codex_model req.output_effort req.budget_tokens models)
effort_of_request (some target) codex_model req models = or_no_level (
    map_reasoning_effort_for_model
      (map (λ (level : ReasoningEffortPreset). level.effort) target.supported_reasoning_levels)
      target.default_reasoning_level req.output_effort req.budget_tokens)

-- Whether the target has no fast tier, where there is a catalog.
abbrev pub lacks_fast : Option ModelInfo → Bool
lacks_fast none = false
lacks_fast (some target) = not (supports_fast target)

abbrev or_no_models : Option (List ModelInfo) → List ModelInfo
or_no_models none = []
or_no_models (some models) = models

abbrev wants_stream : Option Bool → Bool
wants_stream none = false
wants_stream (some b) = b

abbrev pub summary_of : AnthropicRequest → ConvertOptions → String → String
summary_of req opts codex_model =
    if requests_thinking req.thinking_type req.budget_tokens
      && supports_reasoning_summaries (or_no_models opts.codex_models) codex_model
    then "auto"
    else ""

-- The texts that the code has put together before it answers.
abbrev pub all_instructions : AnthropicRequest → String → String
all_instructions req more =
    with_web_search_limit_instructions (joined (trim_space (system_instructions req.system)) more)
      req.tools

abbrev pub convert_result :
    Surroundings
    → AnthropicRequest
    → ConvertOptions
    → Option ModelInfo
    → List InputItem
    → String
    → Routing
    → Effort
    → Result
convert_result around req opts target input instructions routing effort =
    let models = normalize opts.models in
    let codex_model = map_model models (or_model req.model) in
    let tier = map_service_tier req.speed in
    let falls_back = not (tier == "") && lacks_fast target in
    let ordinary =
      is_subagent opts instructions && not (is_claude_code_team_teammate instructions input) in
    record {
      request = record {
        model = codex_model;
        stream = true;
        service_tier = if falls_back then "" else tier;
        instructions =
            with_claude_code_compatibility_instructions around.templates instructions ordinary
              models;
        previous_response_id = "";
        input = input;
        tools = some (convert_tools_with_models req.tools models);
        tool_choice = some (convert_tool_choice req.tool_choice req.tools);
        parallel_tool_calls = true;
        store = false;
        include = some (response_includes req.tools);
        reasoning =
            some record { effort = effort_name effort; summary = summary_of req opts codex_model };
        text = convert_output_format req.output_format;
        prompt_cache_key = routing.route_session_id;
        client_metadata = none;
      };
      original_model = or_model req.model;
      stream = wants_stream req.stream;
      tool_schemas = tool_schemas req.tools [];
      plan_file_path = claude_code_plan_file_path instructions;
      route_session_id = routing.route_session_id;
      parent_thread_id = routing.parent_thread_id;
      subagent = routing.subagent;
      web_search_max_uses = web_search_max_uses req.tools;
      fast_mode_fallback = falls_back;
      stateless_subagent = routing.stateless;
    }

unfoldable pub anthropic_to_codex :
    Surroundings → AnthropicRequest → ConvertOptions → Outcome ConvertError Result
unfolding blocks_domains find_model convert_messages stamp_locally_authored_items route_of
    effort_of_request requests_thinking supports_reasoning_summaries map_service_tier
    system_instructions with_web_search_limit_instructions is_claude_code_subagent_instructions
    is_claude_code_team_teammate with_claude_code_compatibility_instructions
    convert_tools_with_models convert_tool_choice response_includes convert_output_format
    tool_schemas claude_code_plan_file_path web_search_max_uses map_model normalize effort_name
    supports_fast
anthropic_to_codex around req opts = do
  checked ← if blocks_domains req.tools then failed blocked_domains else ok req
  let codex_model = map_model (normalize opts.models) (or_model req.model)
  target ← find_model opts.codex_models codex_model opts.client_version
  converted ← map_error bad_request (convert_messages around.library req.messages)
  let input = stamp_locally_authored_items around.now (with_empty_message converted.0)
  let instructions = all_instructions req converted.1
  routing ← route_of around.nonce opts (is_subagent opts instructions)
  effort ← effort_of_request target codex_model req (normalize opts.models)
  ok (convert_result around req opts target input instructions routing effort)
