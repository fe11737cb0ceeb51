-- ===== src/Chain/Tests.antt =====
-- Runs of the recorded conversations, and their theorems at concrete inputs.
use native.Mathlib.Decide.{ℕ_discrete}
use mathlib.Core.List.{Memᴰ}
use claudodex.Common.{
  ℕ, String, ◌≡◌, ◌≢◌, refl, true, false, none, some, List, [], ◌∷◌, length, get_elem?, arith,
  eq_iff, string_key, int_key,
}
use claudodex.Common.Int.{pos}
use claudodex.Common.Dict.{lookup, insert, remove}
use claudodex.Common.Sort.{insert_by, sort_by}
use claudodex.Common.Text.{trim_space}
use claudodex.Codex.{InputItem, Request, Route}
use claudodex.Codex.Equal.{
  decide_text, String_discrete, content_discrete, item_discrete, request_discrete,
}
use claudodex.Chain.{
  Chains, last_where, last_matching_message, last_matching_function_call, position_of, last_output,
  trim_after_recorded_output, input_has_prefix, resume_compatible, apply_implicit_resume_detailed,
  apply_stateless_replay_detailed, clear_implicit_resume,
}
use claudodex.Chain.Trace.{
  ResponseTrace, Decoder, empty_trace, merge_output_item, upsert_output_item, upsert_all,
  observe_function_call_arguments, observe_output_item_done, observe, items_at, others_from,
  output_in_order, record_response_chain, continuation_request,
}
use claudodex.Chain.Identity.{
  pending_calls, chain_continues_tool_call, inherit_response_turn_identity,
}
use claudodex.Chain.Trim.{Trimmed, trim_after_recorded_output-Trimmed}
use claudodex.Chain.Resume.{Resumed, apply_implicit_resume_detailed-Resumed}
use claudodex.Chain.Replay.{
  Replayed, apply_stateless_replay_detailed-Replayed, resume-record_response_chain,
  clear_implicit_resume_lem,
}
use claudodex.Chain.Trace.Valid.{IsValid, empty_trace-IsValid, observe-IsValid}
use claudodex.Chain.Trace.Order.{output_in_order-mem}

runs : Unit {0}
unfolding ℕ_discrete lookup insert remove insert_by sort_by trim_space decide_text String_discrete
    content_discrete item_discrete request_discrete last_where last_matching_message
    last_matching_function_call position_of last_output trim_after_recorded_output input_has_prefix
    resume_compatible apply_implicit_resume_detailed apply_stateless_replay_detailed
    clear_implicit_resume merge_output_item upsert_output_item upsert_all
    observe_function_call_arguments observe_output_item_done observe items_at others_from
    output_in_order record_response_chain continuation_request pending_calls
    chain_continues_tool_call inherit_response_turn_identity
runs = tt

abbrev item : String → String → String → InputItem
item kind role call_id = record {
  id = "";
  item_type = kind;
  role = role;
  content = none;
  call_id = call_id;
  name = "";
  arguments = "";
  output = none;
  create_time = none;
  raw = none;
}

abbrev question : InputItem
question = item "message" "user" ""

abbrev call : InputItem
call = record (item "function_call" "" "call_1") { arguments = "{}" }

abbrev answer : InputItem
answer = item "function_call_output" "" "call_1"

abbrev request_with : List InputItem → Request
request_with input = record {
  model = "gpt-6-sol";
  stream = true;
  service_tier = "";
  instructions = "Be brief.";
  previous_response_id = "";
  input = input;
  tools = none;
  tool_choice = none;
  parallel_tool_calls = true;
  store = false;
  include = none;
  reasoning = none;
  text = none;
  prompt_cache_key = "";
  client_metadata = some (("turn_id", " t1 ") ∷ []);
}

-- The payloads of three events.
abbrev decoder : Decoder
decoder = record {
  created = λ payload. some "resp_1 ";
  arguments_done = λ payload. some (pos 1, "{}");
  item_done = λ payload. some (pos 1, item "function_call" "" "call_1");
  completed = λ payload. some ("resp_1", call ∷ []);
}

abbrev created : ResponseTrace
created = observe decoder "response.created" "" empty_trace

abbrev trace : ResponseTrace
trace =
    observe decoder "response.output_item.done" ""
      (observe decoder "response.function_call_arguments.done" "" created)

abbrev server : Chains
server =
    record_response_chain " key" (request_with (question ∷ [])) trace
      (record { chains = []; usage = [] })

abbrev route : Route
route = record {
  session_id = "";
  thread_id = "";
  turn_id = "t2";
  root_turn_id = "r2";
  parent_thread_id = "";
  subagent = "";
}

abbrev next : Request
next = request_with (question ∷ call ∷ answer ∷ [])

resumes :
    (trace.response_id ≡ "resp_1")
    × (output_in_order trace ≡ call ∷ [])
    × ((apply_implicit_resume_detailed server "key" next).request.input ≡ answer ∷ [])
    × ((apply_implicit_resume_detailed server "key" (request_with (call ∷ answer ∷ []))).reason
        ≡ "applied_by_output_calls")
    × ((apply_stateless_replay_detailed server "key"
          (request_with (call ∷ answer ∷ []))).request.input
        ≡ question ∷ call ∷ answer ∷ [])
    × ((apply_implicit_resume_detailed server "other" next).reason ≡ "missing_chain")
    × ((inherit_response_turn_identity server "key" next route).turn_id ≡ "t1")
    × ((inherit_response_turn_identity server "key" next route).root_turn_id ≡ "r2")
unfolding runs
resumes = (refl, refl, refl, refl, refl, refl, refl, refl)

-- A call that came under the index 1 and comes again under the index 0 is listed twice.
twice : output_in_order (observe decoder "response.completed" "" trace) ≡ call ∷ call ∷ []
unfolding runs
twice = refl

trim_after_recorded_output_example :
    Trimmed next.input (call ∷ []) (trim_after_recorded_output next.input (call ∷ []))
trim_after_recorded_output_example = trim_after_recorded_output-Trimmed next.input (call ∷ [])

apply_implicit_resume_detailed_example :
    Resumed server "key" next (apply_implicit_resume_detailed server "key" next)
apply_implicit_resume_detailed_example = apply_implicit_resume_detailed-Resumed server "key" next

apply_stateless_replay_detailed_example :
    Replayed server "key" next (apply_stateless_replay_detailed server "key" next)
apply_stateless_replay_detailed_example = apply_stateless_replay_detailed-Replayed server "key" next

key_named : trim_space " key" ≢ ""
unfolding trim_space
key_named h = ground (arith, h, eq_iff "key" "")

answer_new : answer ∷ [] ≢ []
answer_new h = ground (arith, h)

resume_example : apply_implicit_resume_detailed server " key" next ≡ record {
  used = true;
  reason = "applied";
  prefix_items = length (question ∷ call ∷ []);
  input_items = 1;
  request = record next { previous_response_id = "resp_1"; instructions = ""; input = answer ∷ [] };
}
unfolding runs
resume_example =
    resume-record_response_chain (record { chains = []; usage = [] }) " key"
      (request_with (question ∷ [])) next trace (answer ∷ []) key_named refl refl refl refl
      answer_new

clear_implicit_resume_example :
    ((apply_implicit_resume_detailed (clear_implicit_resume server "key") "key" next).used ≡ false)
    × ((apply_stateless_replay_detailed (clear_implicit_resume server "key") "key" next).used
        ≡ false)
    × (trim_space "key" ≢ "other"
        → lookup "other" (clear_implicit_resume server "key").chains ≡ lookup "other" server.chains)
clear_implicit_resume_example = clear_implicit_resume_lem server "key" "other" next

observe_example : IsValid (observe decoder "response.output_item.done" "" empty_trace)
observe_example =
    observe-IsValid decoder "response.output_item.done" "" empty_trace empty_trace-IsValid

output_in_order_example :
    ((i : ℕ) (x : InputItem) → get_elem? trace.output i ≡ some x → Memᴰ x (output_in_order trace))
    × ((x : InputItem) → Memᴰ x (output_in_order trace) → Memᴰ x trace.output)
output_in_order_example = output_in_order-mem trace
