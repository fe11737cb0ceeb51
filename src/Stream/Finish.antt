-- ===== src/Stream/Finish.antt =====
-- internal/convert/stream.go: the start of the message, and its end.
pub mod Calm
pub mod State
pub mod Stops
use claudodex.Common.{
  ℕ, String, Bool, true, false, ◌&&◌, ◌||◌, not, Option, none, some, List, [], ◌∷◌, ltb, ◌==◌,
  string_key, if◌then◌else◌,
}
use claudodex.Common.Int.{ℤ, ltb_ℤ}
use claudodex.Common.Text.{first_nonempty, to_lower, trim_space}
use claudodex.Json.{Fields, Codec, at, as_map, as_str, as_bool}
use claudodex.Stream.{
  Reducer, M, ◌>>=◌, ◌>>◌, skip, gets, message_start, message_delta, message_stop,
}
use claudodex.Stream.Counts.{usage_for_start, usage_for_finish}
use claudodex.Stream.Blocks.{stop_text_block}
use claudodex.Stream.Thinking.{stop_thinking_block}
use claudodex.Stream.Search.{flush_pending_web_search_output}
use claudodex.Stream.Tools.{stop_tool_state}

-- The id of the response replaces the placeholder.
unfoldable pub message_id_for_start : Reducer → Option Fields → String
message_id_for_start r event =
    let id = as_str (at (as_map (at event "response")) "id") in
    if not (id == "") && r.message_id == "msg_claudodex" then id else r.message_id

abbrev pub begin_message : Option Fields → M (Unit {0})
begin_message event r = (
  tt,
  message_start (message_id_for_start r event) r.model (usage_for_start r event) ∷ [],
  record r { message_id = message_id_for_start r event; started = true },
)

unfoldable pub ensure_started : Option Fields → M (Unit {0})
ensure_started event r = if r.started then (tt, [], r) else begin_message event r

-- sort.Slice by output index; the keys of the map are distinct.
unfoldable pub insert_by_output : ℤ × ℕ → List (ℤ × ℕ) → List (ℤ × ℕ)
insert_by_output (i, k) [] = (i, k) ∷ []
insert_by_output (i, k) ((j, l) ∷ ps) =
    if ltb_ℤ j i then (j, l) ∷ insert_by_output (i, k) ps else (i, k) ∷ (j, l) ∷ ps

unfoldable pub sort_by_output : List (ℤ × ℕ) → List (ℤ × ℕ)
unfolding insert_by_output
sort_by_output [] = []
sort_by_output (p ∷ ps) = insert_by_output p (sort_by_output ps)

unfoldable pub stop_tools : Codec → List (ℤ × ℕ) → M (Unit {0})
stop_tools codec [] = skip
stop_tools codec ((i, k) ∷ ps) = do stop_tool_state codec k; stop_tools codec ps

unfoldable pub stop_reason_from_event : Option Fields → Bool → String
stop_reason_from_event event has_tools =
    let response = as_map (at event "response") in
    let reason = to_lower (
      first_nonempty (as_str (at response "stop_reason")) (
        first_nonempty (as_str (at response "finish_reason")) (as_str (at event "stop_reason")))) in
    if reason == "tool_use" || reason == "tool_calls" || reason == "function_call"
    then "tool_use"
    else if reason == "length"
        || reason == "max_tokens"
        || reason == "max_output_tokens"
        || reason == "incomplete"
    then "max_tokens"
    else if reason == "stop_sequence"
    then "stop_sequence"
    else if has_tools
    then "tool_use"
    else "end_turn"

unfoldable pub end_message : Option Fields → String → M (Unit {0})
end_message event forced_stop r =
    let usage = usage_for_finish r event in
    (
      tt,
      message_delta
            (first_nonempty forced_stop (stop_reason_from_event event (ltb 0 r.tool_blocks))) usage
          ∷ message_stop
          ∷ [],
      record r { usage = usage; done = true },
    )

unfoldable pub finish : Codec → Option Fields → String → M (Unit {0})
finish codec event forced_stop = do
  stop_thinking_block
  stop_text_block
  states ← gets (λ r. sort_by_output r.tool_by_output)
  stop_tools codec states
  flush_pending_web_search_output
  end_message event forced_stop

-- Whether the response says that the turn goes on: an end_turn that is there and false.
unfoldable pub turn_goes_on : Option Fields → Bool
turn_goes_on event = elim (as_bool (at (as_map (at event "response")) "end_turn")) [
  | none ↦ false
  | some b ↦ not b
]

unfoldable pub incomplete_reason : Option Fields → String
incomplete_reason event = to_lower (
    trim_space
      (as_str (at (as_map (at (as_map (at event "response")) "incomplete_details")) "reason")))
