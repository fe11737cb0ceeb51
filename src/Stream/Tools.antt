-- ===== src/Stream/Tools.antt =====
-- internal/convert/stream.go, the tool calls: their states, and the blocks that show them.
use Prim.Native.String.{◌++◌}
use claudodex.Common.{
  ℕ, zero, suc, ◌+◌, String, Bool, true, false, ◌&&◌, ◌||◌, not, Option, none, some, List, [], ◌∷◌,
  ltb, ◌==◌, string_key, int_key, if◌then◌else◌, length, set, get_elem?,
}
use claudodex.Common as C
use claudodex.Common.Int.{ℤ, pos, negsuc, ltb_ℤ}
use claudodex.Common.Dict.{Dict, lookup, insert}
use claudodex.Common.Text.{decimal}
use claudodex.Json.{Fields, Codec, at, as_str, int_field}
use claudodex.Stream.{
  Reducer, ToolState, M, ◌>>=◌, ◌>>◌, pure, skip, emit, gets, modify, Block, content_block_start,
  content_block_delta, content_block_stop, tool_use, input_json_delta,
}
use claudodex.Stream.Blocks.{when, count_chars}
use claudodex.Stream.ToolArgs.{final_tool_args}

abbrev pub new_tool : ℤ → ToolState
new_tool output_index = record {
  output_index = output_index;
  block_index = negsuc 0;
  item_id = "";
  call_id = "";
  name = "";
  args = "";
  active = false;
  saw_delta = false;
  sent_args = false;
  sent_start = false;
}

abbrev pub found_or_new : ℤ → Option ℕ → M ℕ
found_or_new output_index (some k) r = (k, [], r)
found_or_new output_index none r = (
  length r.tools,
  [],
  record r {
    tools = C.◌++◌ r.tools (new_tool output_index ∷ []);
    tool_by_output = insert output_index (length r.tools) r.tool_by_output;
  },
)

unfoldable pub ensure_tool_state : ℤ → M ℕ
ensure_tool_state output_index r =
    found_or_new output_index (lookup output_index r.tool_by_output) r

-- A change of the state at `k`.
abbrev pub change_tool : ℕ → (ToolState → ToolState) → Reducer → Reducer
change_tool k f r = elim (get_elem? r.tools k) [
  | none ↦ r
  | some t ↦ record r { tools = set r.tools k (f t) }
]

abbrev pub set_item_id : ℕ → String → M (Unit {0})
set_item_id k item_id =
    if item_id == ""
    then skip
    else modify (λ r. record (change_tool k (λ (t : ToolState). record t { item_id = item_id }) r) {
      tool_by_item_id = insert item_id k r.tool_by_item_id;
    })

abbrev pub set_call_id : ℕ → String → M (Unit {0})
set_call_id k call_id =
    if call_id == ""
    then skip
    else modify (λ r. record (change_tool k (λ (t : ToolState). record t { call_id = call_id }) r) {
      tool_by_call_id = insert call_id k r.tool_by_call_id;
    })

abbrev pub set_name : ℕ → String → M (Unit {0})
set_name k name =
    if name == ""
    then skip
    else modify (change_tool k (λ (t : ToolState). record t { name = name }))

unfoldable pub apply_tool_fields : ℕ → Option Fields → M (Unit {0})
apply_tool_fields k fs = do
  set_item_id k (as_str (at fs "id"))
  set_item_id k (as_str (at fs "item_id"))
  set_call_id k (as_str (at fs "call_id"))
  set_name k (as_str (at fs "name"))

-- A lookup by an id that may be empty.
abbrev lookup_id : String → Dict String ℕ → Option ℕ
lookup_id id m = if id == "" then none else lookup id m

abbrev or_else {ℓ} : {A : Type ℓ} → Option A → Option A → Option A
or_else none b = b
or_else (some a) b = some a

abbrev pub event_state : ℤ → Option Fields → Option ℕ → M ℕ
event_state index event (some k) = pure k
event_state index event none = do k ← ensure_tool_state index; apply_tool_fields k event; pure k

abbrev pub known_state : (item_id call_id : String) → Reducer → Option ℕ
known_state item_id call_id r =
    or_else (lookup_id item_id r.tool_by_item_id) (lookup_id call_id r.tool_by_call_id)

-- A state that the event's ids know is returned as it is.
unfoldable pub tool_state_for_event : Option Fields → M ℕ
tool_state_for_event event = do
  known ← gets (known_state (as_str (at event "item_id")) (as_str (at event "call_id")))
  event_state (int_field (at event "output_index") (pos 0)) event known

abbrev pub item_state : ℤ → Option Fields → Option ℕ → M ℕ
item_state index item (some k) = do apply_tool_fields k item; pure k
item_state index item none = do k ← ensure_tool_state index; apply_tool_fields k item; pure k

unfoldable pub tool_state_for_item : (event item : Option Fields) → M ℕ
tool_state_for_item event item = do
  known ← gets (known_state (as_str (at item "id")) (as_str (at item "call_id")))
  item_state (int_field (at event "output_index") (int_field (at item "output_index") (pos 0))) item
      known

abbrev pub is_empty_dict {ℓ κ} : {K : Type ℓ} {V : Type κ} → Dict K V → Bool
is_empty_dict [] = true
is_empty_dict (x ∷ xs) = false

unfoldable pub should_buffer_tool_args : Reducer → Bool
should_buffer_tool_args r = not (is_empty_dict r.tool_schemas)

abbrev show_int : ℤ → String
show_int (pos n) = decimal n
show_int (negsuc n) = "-" ++ decimal (suc n)

abbrev tool_id : ToolState → String
tool_id t =
    if t.call_id == ""
    then (if t.item_id == "" then "call_" ++ show_int t.output_index else t.item_id)
    else t.call_id

abbrev tool_name : ToolState → String
tool_name t = if t.name == "" then "tool" else t.name

abbrev pub shown_block : ToolState → Block
shown_block t = tool_use (tool_id t) (tool_name t)

-- `startToolBlock`, for the state `t` at `k`.
unfoldable pub start_block_of : ℕ → ToolState → M (Unit {0})
start_block_of k t r = if t.sent_start then (tt, [], r) else (
  tt,
  content_block_start t.block_index (shown_block t) ∷ [],
  record r { tools = set r.tools k (record t { sent_start = true }) },
)

unfoldable pub start_tool_block : ℕ → M (Unit {0})
unfolding start_block_of
start_tool_block k r = elim (get_elem? r.tools k) [
  | none ↦ (tt, [], r)
  | some t ↦ start_block_of k t r
]

abbrev pub with_index : ℕ → ToolState → Reducer → Reducer
with_index k t r = record r {
  tools = set r.tools k (record t { block_index = pos r.next_index; active = true });
  next_index = suc r.next_index;
}

abbrev pub with_active : ℕ → ToolState → Reducer → Reducer
with_active k t r = record r { tools = set r.tools k (record t { active = true }) }

-- The part of `startToolState` before the block: an inactive state becomes active, and takes an
-- index if it has none.
unfoldable pub activate : ℕ → ToolState → Reducer → Reducer
activate k t r = if ltb_ℤ t.block_index (pos 0) then with_index k t r else with_active k t r

abbrev pub start_unless_buffered : ℕ → M (Unit {0})
start_unless_buffered k = do
  buffer ← gets should_buffer_tool_args
  when (not buffer) (start_tool_block k)

unfoldable pub start_tool_state : ℕ → M (Unit {0})
unfolding activate
start_tool_state k r = elim (get_elem? r.tools k) [
  | none ↦ (tt, [], r)
  | some t ↦ if t.active then (tt, [], r) else start_unless_buffered k (activate k t r)
]

-- An input_json_delta of the state `t` at `k`, after which its arguments count as sent.
unfoldable pub send_args : ℕ → String → M (Unit {0})
send_args k args r = elim (get_elem? r.tools k) [
  | none ↦ (tt, [], r)
  | some t ↦ (
    tt,
    content_block_delta t.block_index (input_json_delta args) ∷ [],
    record r { tools = set r.tools k (record t { sent_args = true }) },
  )
]

abbrev pub with_args : String → ToolState → ToolState
with_args args t = record t { args = t.args ++ args; saw_delta = true }

-- Arguments that arrived: they are kept, and shown at once unless the reducer buffers.
unfoldable pub take_args : ℕ → String → M (Unit {0})
unfolding send_args
take_args k args = do
  modify (change_tool k (with_args args))
  count_chars args
  buffer ← gets should_buffer_tool_args
  when (not buffer) (send_args k args)

abbrev pub tool_args : Codec → Reducer → ToolState → String
tool_args codec r t =
    final_tool_args codec r.tool_schemas r.agent_models r.plan_file_path t.name t.args

-- The buffered arguments of a call that stops, if there are any and none were sent.
abbrev pub send_final : Codec → ℕ → ToolState → M (Unit {0})
send_final codec k t r =
    let args = tool_args codec r t in
    if should_buffer_tool_args r && not t.sent_args && not (args == "")
    then send_args k args r
    else (tt, [], r)

abbrev pub stopped : ℕ → ToolState → M (Unit {0})
stopped k t = modify (λ r. record r {
  tools = set r.tools k (record t { active = false });
  visible_blocks = suc r.visible_blocks;
  tool_blocks = suc r.tool_blocks;
})

unfoldable pub stop_block_of : Codec → ℕ → ToolState → M (Unit {0})
stop_block_of codec k t = do
  stopped k t
  start_tool_block k
  send_final codec k t
  emit (content_block_stop t.block_index ∷ [])

unfoldable pub stop_tool_state : Codec → ℕ → M (Unit {0})
unfolding stop_block_of
stop_tool_state codec k r = elim (get_elem? r.tools k) [
  | none ↦ (tt, [], r)
  | some t ↦ if t.active then stop_block_of codec k t r else (tt, [], r)
]
