-- ===== src/Stream/Items.antt =====
-- internal/convert/stream.go: what `ReduceNamed` does for each kind of event that carries content.
use Prim.Native.String.{◌++◌}
use claudodex.Common.{
  ℕ, suc, String, Bool, true, ◌&&◌, ◌||◌, not, Option, none, some, List, [], ◌∷◌, ◌==◌, string_key,
  if◌then◌else◌, get_elem?,
}
use claudodex.Common.Int.{pos, ltb_ℤ}
use claudodex.Common.Text.{concat}
use claudodex.Json.{Json, Fields, Codec, at, as_map, as_list, as_str, int_field, string_field}
use claudodex.Stream.{Reducer, WebSearch, M, ◌>>=◌, ◌>>◌, skip, gets, modify}
use claudodex.Stream.Blocks.{when, ensure_text_block, stop_text_block, text_delta_only, count_chars}
use claudodex.Stream.Thinking.{
  append_thinking_summary, append_reasoning_item_summary, stop_thinking_block,
}
use claudodex.Stream.Search.{
  web_search_state_for_item, web_search_action, change_search, emit_web_search_use,
  add_web_search_hits_from_item, web_search_hits_from_action, has_pending_web_search_results,
  emit_pending_web_search_results, emit_buffered_web_search_text, flush_pending_web_search_output,
}
use claudodex.Stream.Tools.{
  tool_state_for_event, tool_state_for_item, start_tool_state, stop_tool_state, take_args,
}
use claudodex.Stream.Failure.{}

abbrev output_texts : List Json → List String
output_texts [] = []
output_texts (v ∷ vs) =
    let typ = as_str (at (as_map v) "type") in
    if typ == "output_text" || typ == "text"
    then as_str (at (as_map v) "text") ∷ output_texts vs
    else output_texts vs

unfoldable pub output_text_from_item : Option Fields → String
output_text_from_item item = concat (output_texts (as_list (at item "content")))

abbrev is_message : String → Bool
is_message typ = typ == "message" || typ == "output_text"

abbrev is_call : String → Bool
is_call typ = typ == "function_call" || typ == "output_tool_call"

abbrev pub unsaid_text : String → Reducer → Bool
unsaid_text text r = not (text == "") && not r.text_saw_delta

unfoldable pub finish_message_item : Option Fields → M (Unit {0})
finish_message_item item = do
  let text = output_text_from_item item
  unsaid ← gets (unsaid_text text)
  when unsaid (do ensure_text_block; text_delta_only text; count_chars text)
  stop_text_block

abbrev set_item_type : Option Fields → String
set_item_type item = as_str (at item "type")

-- response.output_item.added
unfoldable pub item_added : (event item : Option Fields) → M (Unit {0})
item_added event item =
    let typ = set_item_type item in
    if is_message typ
    then (do
      stop_thinking_block
      pending ← gets has_pending_web_search_results
      when (not pending) ensure_text_block)
    else if is_call typ
    then (do
      stop_thinking_block
      flush_pending_web_search_output
      k ← tool_state_for_item event item
      start_tool_state k)
    else if typ == "web_search_call"
    then (do k ← web_search_state_for_item item; skip)
    else skip

abbrev pub note_thinking_delta : M (Unit {0})
note_thinking_delta = modify (λ r. record r { thinking_saw_delta = true })

-- response.reasoning_summary_text.delta
unfoldable pub summary_delta : Option Fields → M (Unit {0})
summary_delta event =
    let delta = string_field (at event "delta") in
    when (not (delta == "")) (do
      append_thinking_summary delta (int_field (at event "summary_index") (pos 0))
      note_thinking_delta)

-- response.reasoning_summary_text.done
unfoldable pub summary_done : Option Fields → M (Unit {0})
summary_done event = do
  seen ← gets (λ r. r.thinking_saw_delta)
  when (not seen) (do
    append_thinking_summary (string_field (at event "text"))
        (int_field (at event "summary_index") (pos 0)))

abbrev pub hold_text : String → M (Unit {0})
hold_text text = modify (λ r. record r { web_search_text = r.web_search_text ++ text })

abbrev pub note_text_delta : M (Unit {0})
note_text_delta = modify (λ r. record r { text_saw_delta = true })

abbrev pub buffer_text : String → M (Unit {0})
buffer_text text = do hold_text text; count_chars text

abbrev pub show_text : String → M (Unit {0})
show_text text = do
  stop_thinking_block
  ensure_text_block
  text_delta_only text
  note_text_delta
  count_chars text

-- response.output_text.delta: behind a search that waits for its result the text is buffered.
unfoldable pub text_delta_arrived : Option Fields → M (Unit {0})
text_delta_arrived event =
    let text = string_field (at event "delta") in
    when (not (text == "")) (do
      pending ← gets has_pending_web_search_results
      if pending then buffer_text text else show_text text)

-- response.output_text.done
unfoldable pub text_done : M (Unit {0})
text_done = do pending ← gets has_pending_web_search_results; when (not pending) stop_text_block

-- response.function_call_arguments.delta
unfoldable pub args_delta : Option Fields → M (Unit {0})
args_delta event = do
  stop_thinking_block
  k ← tool_state_for_event event
  start_tool_state k
  when (not (string_field (at event "delta") == "")) (take_args k (string_field (at event "delta")))

abbrev pub saw_delta_at : ℕ → Reducer → Bool
saw_delta_at k r = elim (get_elem? r.tools k) [ none ↦ true | some t ↦ t.saw_delta ]

-- Arguments that come whole count only if no piece of them came before.
abbrev pub whole_args : ℕ → String → M (Unit {0})
whole_args k args = do
  seen ← gets (saw_delta_at k)
  when (not (args == "") && not seen) (take_args k args)

-- response.function_call_arguments.done
unfoldable pub args_done : Option Fields → M (Unit {0})
args_done event = do
  stop_thinking_block
  k ← tool_state_for_event event
  start_tool_state k
  whole_args k (string_field (at event "arguments"))

abbrev pub hold_item_text : Option Fields → M (Unit {0})
hold_item_text item = modify (λ r. record r {
  web_search_text =
      if r.web_search_text == "" then output_text_from_item item else r.web_search_text;
})

-- A message that is done while a search waits: its text is what was buffered, or the item's.
unfoldable pub message_after_search : Option Fields → M (Unit {0})
message_after_search item = do
  modify (λ r. record r {
    web_search_text =
        if r.web_search_text == "" then output_text_from_item item else r.web_search_text;
  })
  add_web_search_hits_from_item item
  emit_pending_web_search_results
  emit_buffered_web_search_text

-- A message that is done.
unfoldable pub message_done : Option Fields → M (Unit {0})
message_done item = do
  stop_thinking_block
  pending ← gets has_pending_web_search_results
  if pending then message_after_search item else finish_message_item item

-- A function call that is done.
unfoldable pub call_done : Codec → (event item : Option Fields) → M (Unit {0})
call_done codec event item = do
  stop_thinking_block
  flush_pending_web_search_output
  k ← tool_state_for_item event item
  start_tool_state k
  whole_args k (string_field (at item "arguments"))
  stop_tool_state codec k

-- The search is refused once more uses were asked for than are allowed; 0 allows any number.
abbrev pub over_limit : Reducer → Bool
over_limit r =
    ltb_ℤ (pos 0) r.web_search_max_uses && ltb_ℤ r.web_search_max_uses (pos r.web_search_uses)

abbrev pub note_search : ℕ → Option Fields → M (Unit {0})
note_search k item = modify (
    change_search k (λ (s : WebSearch). record s {
      query = (web_search_action item).1;
      found = web_search_hits_from_action item;
    }))

abbrev pub count_use : M (Unit {0})
count_use = modify (λ r. record r { web_search_uses = suc r.web_search_uses })

abbrev pub refuse_search : ℕ → M (Unit {0})
refuse_search k =
    modify (
      change_search k
        (λ (s : WebSearch). record s { error_code = "max_uses_exceeded"; found = [] }))

-- A web search that is done.
unfoldable pub search_done : Codec → Option Fields → M (Unit {0})
search_done codec item = do
  stop_thinking_block
  stop_text_block
  k ← web_search_state_for_item item
  when ((web_search_action item).0 == "search") (do
    modify (
        change_search k (λ (s : WebSearch). record s {
          query = (web_search_action item).1;
          found = web_search_hits_from_action item;
        }))
    modify (λ r. record r { web_search_uses = suc r.web_search_uses })
    over ← gets over_limit
    when over (
        modify (
          change_search k
            (λ (s : WebSearch). record s { error_code = "max_uses_exceeded"; found = [] })))
    emit_web_search_use codec k)

-- response.output_item.done
unfoldable pub item_done : Codec → (event item : Option Fields) → M (Unit {0})
item_done codec event item =
    let typ = set_item_type item in
    if typ == "reasoning"
    then (do
      seen ← gets (λ r. r.thinking_saw_summary)
      when (not seen) (append_reasoning_item_summary item))
    else if is_message typ
    then message_done item
    else if is_call typ
    then call_done codec event item
    else if typ == "web_search_call"
    then search_done codec item
    else skip
