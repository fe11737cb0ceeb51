-- ===== src/Stream/Tests.antt =====
-- Runs of the reducer on small streams, and its theorems at concrete events.
use mathlib.Core.List.{Memᴰ}
use claudodex.Stream.{content_block_stop}
use claudodex.Stream.Tools.{new_tool}
use claudodex.Stream.Finish.{finish}
use claudodex.Stream.Finish.Calm.{open_at}
use claudodex.Stream.Finish.Stops.{finish-closes}
use Prim.Native.String.{◌++◌}
use claudodex.Stream.Failure.{error_events_with_type_and_failure}
use claudodex.Common.{
  ◌∙◌, String, ◌≡◌, refl, ◌≢◌, ◌||◌, arith, true, Option, none, some, List, [], ◌∷◌, ◌==◌,
  string_key, if◌then◌else◌,
}
use claudodex.Common.Int.{pos, ltb_ℤ, ◌+ℤ◌, ◌≤ℤ◌}
use claudodex.Json.{Fields, str, arr, nil, cons, end, field, field_at, string_field, Codec}
use claudodex.ModelConfig.{default}
use claudodex.Stream.{zero_usage, Reducer}
use claudodex.Stream.Items.{text_delta_arrived}
use claudodex.Stream.Search.{has_pending_web_search_results}
use claudodex.Stream.Finish.{ensure_started}
use claudodex.Stream.Blocks.{text_delta_only, ensure_text_block, close_thinking_block}
use claudodex.Stream.Reduce.{
  reduce_named, reduce_event, event_type_of, dispatch, StreamReducerOptions,
  new_stream_reducer_with_options, run,
}
use claudodex.Stream.Thinking.{
  consume_thinking_summary, next_round, stop_thinking_block, append_thinking_summary,
  ignores_thinking,
}
use claudodex.Stream.Thinking.Kept.{
  thinking_text, stop_thinking_block_lem, append_thinking_summary_lem,
}
use claudodex.Stream.Counts.{split_cached, usage_input_tokens, usage_for_finish}
use claudodex.Stream.Counts.Totals.{
  split_cached_total, split_cached_bounds, usage_for_finish-nonzero,
}
use claudodex.Stream.ToolArgs.{property, prune_object, prune_value}
use claudodex.Stream.ToolArgs.Required.{field_at-prune_object}
use claudodex.Stream.Client.{Client, new_client, accepts}
use claudodex.Stream.Live.Whole.{run-accepted, run-append_ended}

-- A decoder that knows five texts.
abbrev decode : String → Option (Option Fields)
decode raw =
    if raw == "text"
    then some
        (some (field "type" (str "response.output_text.delta") (field "delta" (str "Hi") end)))
    else if raw == "call"
    then some (
        some (
          field "type" (str "response.function_call_arguments.delta")
            (field "delta" (str "{}") end)))
    else if raw == "done"
    then some (some (field "type" (str "response.completed") end))
    else if raw == "null"
    then some none
    else none

abbrev codec : Codec
codec = record {
  decode_map = decode;
  encode_map = λ fs. some "{}";
  format_number = λ w f. "0";
  parse_retry_after = λ s. none;
  retry_after_from_message = λ s. pos 0;
}

abbrev reducer_options : StreamReducerOptions
reducer_options = record {
  tool_schemas = [];
  agent_models = default;
  plan_file_path = "";
  fallback_input_tokens = pos 7;
  initial_input_usage = zero_usage;
  web_search_max_uses = pos 0;
}

abbrev start : Reducer
start = new_stream_reducer_with_options "" "" reducer_options

-- A text, a tool call beside it, and the end; what comes later is ignored.
abbrev events : List (String × String)
events = ("", "text") ∷ ("", "call") ∷ ("", "done") ∷ ("", "text") ∷ []

run-accepted_example :
    (c : Client) × (accepts new_client (run codec events start).1 ≡ some c)
    × (c.ended ≡ (run codec events start).2.done)
run-accepted_example = run-accepted codec "" "" reducer_options events

-- A reducer with a title and the start of a section pending.
abbrev pondering : Reducer
pondering = record start { started = true; thinking_pending = "a****b\n" }

stop_thinking_block_example :
    (thinking_text (stop_thinking_block pondering).1 ≡ "a****b\n")
    × ((stop_thinking_block pondering).2.thinking_pending ≡ "")
stop_thinking_block_example = stop_thinking_block_lem pondering

abbrev addition : String
addition = "c"

append_thinking_summary_example :
    thinking_text (append_thinking_summary addition (pos 1) pondering).1
      ++ (append_thinking_summary addition (pos 1) pondering).2.thinking_pending
    ≡ (if addition == "" || ignores_thinking pondering then "a****b\n" else "a****b\n" ++ addition)
append_thinking_summary_example = append_thinking_summary_lem addition (pos 1) pondering

split_cached_total_example :
    usage_input_tokens (split_cached (pos 9) (pos 4) (pos 2) (pos 5) (pos 1))
    ≡ (if ltb_ℤ (pos 0) (pos 4) then pos 9 +ℤ pos 2 else pos 9 +ℤ pos 2 +ℤ pos 5)
split_cached_total_example = split_cached_total (pos 9) (pos 4) (pos 2) (pos 5) (pos 1)

split_cached_bounds_example :
    (pos 0 ≤ℤ (split_cached (pos 9) (pos 12) (pos 2) (pos 5) (pos 1)).input_tokens)
    × ((split_cached (pos 9) (pos 12) (pos 2) (pos 5) (pos 1)).input_tokens ≤ℤ pos 9)
    × (pos 0 ≤ℤ (split_cached (pos 9) (pos 12) (pos 2) (pos 5) (pos 1)).cache_read_input_tokens)
split_cached_bounds_example =
    split_cached_bounds (pos 9) (pos 12) (pos 2) (pos 5) (pos 1) (omega arith) (omega arith)

abbrev shown_one : Reducer
shown_one = record start { visible_blocks = 1 }

usage_for_finish-nonzero_example : (usage_for_finish shown_one none).output_tokens ≢ pos 0
usage_for_finish-nonzero_example = usage_for_finish-nonzero shown_one none (omega arith)

-- A schema that requires "path", and arguments that leave it empty.
abbrev schema : Option Fields
schema = some (field "required" (arr (cons (str "path") nil)) end)

abbrev arguments : Fields
arguments = field "note" (str "") (field "path" (str "") end)

field_at-prune_object_example :
    field_at "path" (prune_object schema arguments)
    ≡ prune_value (property schema "path") (field_at "path" arguments)
unfolding field_at
field_at-prune_object_example = field_at-prune_object schema "path" arguments refl

-- A text and then an event that cannot be decoded, which ends the stream.
abbrev first_events : List (String × String)
first_events = ("", "text") ∷ ("", "broken") ∷ []

abbrev all_events : List (String × String)
all_events = ("", "text") ∷ ("", "broken") ∷ ("", "text") ∷ []

abbrev last_client : Client
last_client = (run-accepted codec "" "" reducer_options first_events).0

first_done : (run codec first_events start).2.done ≡ true
unfolding run reduce_named new_stream_reducer_with_options reduce_event event_type_of field_at
    dispatch text_delta_arrived string_field has_pending_web_search_results ensure_started
    text_delta_only ensure_text_block stop_thinking_block close_thinking_block
    consume_thinking_summary next_round error_events_with_type_and_failure
first_done = refl

run-append_ended_example : run codec all_events start ≡ run codec first_events start
run-append_ended_example =
    run-append_ended codec "" "" reducer_options first_events (("", "text") ∷ []) last_client
      (run-accepted codec "" "" reducer_options first_events).1
      ((run-accepted codec "" "" reducer_options first_events).2 ∙ first_done)

-- A call under two outputs, between a text that is open and the end.
abbrev calling : Reducer
calling = record start {
  started = true;
  text_active = true;
  next_index = 2;
  tools = record (new_tool (pos 4)) { active = true; sent_start = true; block_index = pos 1 } ∷ [];
  tool_by_output = (pos 3, 0) ∷ (pos 4, 0) ∷ [];
}

calling_open : open_at calling.tools 0 ≡ some (pos 1)
unfolding open_at new_stream_reducer_with_options
calling_open = refl

finish-closes_example :
    Memᴰ (content_block_stop (pos 1)) (finish codec none "" calling).1
    × (open_at (finish codec none "" calling).2.tools 0 ≡ none)
finish-closes_example =
    finish-closes codec none "" (pos 4) 0 (pos 1) calling (Memᴰ.tail (Memᴰ.head refl)) calling_open
