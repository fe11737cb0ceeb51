-- ===== src/Stream/Reduce.antt =====
-- internal/convert/stream.go: `ReduceNamed`, a method for each kind of event, and the other entries
-- of `StreamReducer`.
use claudodex.Common.{Bool}
use claudodex.Stream.{◌>>=◌, gets}
use claudodex.Common.{
  String, true, false, ◌||◌, Option, none, some, List, [], ◌∷◌, ltb, ◌==◌, string_key,
  if◌then◌else◌,
}
use claudodex.Common.Int.{ℤ, pos, negsuc}
use claudodex.Common.Dict.{Dict}
use claudodex.Common.Text.{first_nonempty, trim_space}
use claudodex.Json.{Fields, Codec, at, as_map, as_str, int_field}
use claudodex.ModelConfig.{Config, normalize, default_claude_request_model}
use claudodex.Stream.{Reducer, Usage, zero_usage, M, ◌>>◌, skip, modify}
use claudodex.Stream.Thinking.{start_thinking_summary_part}
use claudodex.Stream.Search.{add_web_search_hit}
use claudodex.Stream.Tools.{}
use claudodex.Stream.Failure.{
  error_events, error_events_with_code, error_events_from_failure, error_from_payload,
  response_failure,
}
use claudodex.Stream.Items.{
  item_added, summary_delta, summary_done, text_delta_arrived, text_done, args_delta, args_done,
  item_done,
}
use claudodex.Stream.Finish.{ensure_started, finish, turn_goes_on, incomplete_reason}

pub record StreamReducerOptions : Type 0 where
  pub tool_schemas : Dict String Fields
  pub agent_models : Config
  pub plan_file_path : String
  pub fallback_input_tokens : ℤ
  pub initial_input_usage : Usage
  pub web_search_max_uses : ℤ

unfoldable pub new_stream_reducer_with_options :
    (message_id model : String) → StreamReducerOptions → Reducer
new_stream_reducer_with_options message_id model opts = record {
  message_id = if message_id == "" then "msg_claudodex" else message_id;
  model = if model == "" then default_claude_request_model else model;
  tool_schemas = opts.tool_schemas;
  agent_models = normalize opts.agent_models;
  plan_file_path = trim_space opts.plan_file_path;
  fallback_input_tokens = opts.fallback_input_tokens;
  initial_input_usage = opts.initial_input_usage;
  started = false;
  done = false;
  needs_follow_up = false;
  next_index = 0;
  text_active = false;
  text_index = negsuc 0;
  text_saw_delta = false;
  thinking_active = false;
  thinking_index = negsuc 0;
  thinking_saw_delta = false;
  thinking_saw_summary = false;
  thinking_summary_part = negsuc 0;
  thinking_pending = "";
  thinking_blocks = 0;
  visible_blocks = 0;
  output_chars = 0;
  tools = [];
  tool_by_output = [];
  tool_by_item_id = [];
  tool_by_call_id = [];
  tool_blocks = 0;
  web_search_by_item_id = [];
  web_searches = [];
  web_search_hits = [];
  web_search_text = "";
  web_search_max_uses = opts.web_search_max_uses;
  web_search_uses = 0;
  usage = zero_usage;
  failed = false;
  failure_type = "";
  failure_code = "";
  failure_message = "";
  failure_retry_after = pos 0;
  failure_retry_set = false;
  failure_retryable = false;
}

-- `ContinueSampling`: the next response of the same message begins.
unfoldable pub continue_sampling : Reducer → Reducer
continue_sampling r = record r {
  needs_follow_up = false;
  text_saw_delta = false;
  thinking_saw_delta = false;
  thinking_saw_summary = false;
  thinking_summary_part = negsuc 0;
}

abbrev pub ask_follow_up : M (Unit {0})
ask_follow_up = modify (λ r. record r { needs_follow_up = true })

-- response.completed and response.done
unfoldable pub completed : Codec → Option Fields → M (Unit {0})
completed codec event = if turn_goes_on event then ask_follow_up else finish codec event ""

abbrev pub end_incomplete : Codec → Option Fields → (visible : Bool) → M (Unit {0})
end_incomplete codec event visible =
    if visible
    then finish codec event "max_tokens"
    else error_events codec "api_error" "Codex response ended incomplete before visible output"

abbrev pub is_visible : Reducer → Bool
is_visible r = ltb 0 r.visible_blocks

-- response.incomplete
unfoldable pub incomplete : Codec → Option Fields → M (Unit {0})
incomplete codec event =
    if incomplete_reason event == "content_filter"
    then error_events_with_code codec "content_filter"
        "Codex response was blocked by a content filter"
    else (do visible ← gets is_visible; end_incomplete codec event visible)

-- The `switch` of `ReduceNamed`; what it does not name is ignored.
unfoldable pub dispatch : Codec → String → Option Fields → M (Unit {0})
dispatch codec event_type event =
    let item = as_map (at event "item") in
    if event_type == "response.output_item.added"
    then item_added event item
    else if event_type == "response.reasoning_summary_text.delta"
    then summary_delta event
    else if event_type == "response.reasoning_summary_part.added"
    then start_thinking_summary_part (int_field (at event "summary_index") (pos 0))
    else if event_type == "response.reasoning_summary_text.done"
    then summary_done event
    else if event_type == "response.output_text.delta"
    then text_delta_arrived event
    else if event_type == "response.output_text.done"
    then text_done
    else if event_type == "response.output_text.annotation.added"
    then add_web_search_hit (as_map (at event "annotation"))
    else if event_type == "response.function_call_arguments.delta"
    then args_delta event
    else if event_type == "response.function_call_arguments.done"
    then args_done event
    else if event_type == "response.output_item.done"
    then item_done codec event item
    else if event_type == "response.completed" || event_type == "response.done"
    then completed codec event
    else if event_type == "response.incomplete"
    then incomplete codec event
    else if event_type == "response.failed"
    then error_events_from_failure codec (response_failure codec event)
    else skip

unfoldable pub event_type_of : String → Option Fields → String
event_type_of name event =
    first_nonempty (as_str (at event "type")) (first_nonempty (as_str (at event "event")) name)

-- An event that is not malformed, before the message has ended.
unfoldable pub reduce_event : Codec → String → Option Fields → M (Unit {0})
reduce_event codec name event =
    let event_type = event_type_of name event in
    if event_type == ""
    then skip
    else if event_type == "error"
    then error_from_payload codec event
    else (do ensure_started event; dispatch codec event_type event)

abbrev pub reduce_decoded : Codec → String → Option (Option Fields) → M (Unit {0})
reduce_decoded codec name none =
    error_events codec "api_error" "Codex upstream returned malformed SSE"
reduce_decoded codec name (some event) = reduce_event codec name event

unfoldable pub reduce_named : Codec → (name raw : String) → M (Unit {0})
reduce_named codec name raw r =
    if r.done then (tt, [], r) else reduce_decoded codec name (codec.decode_map raw) r

-- The events of a stream, and the reducer after it.
unfoldable pub run : Codec → List (String × String) → M (Unit {0})
run codec [] = skip
run codec ((name, raw) ∷ rest) = do reduce_named codec name raw; run codec rest
