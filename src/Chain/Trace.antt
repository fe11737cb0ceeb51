-- ===== src/Chain/Trace.antt =====
-- internal/proxy/chain.go: `responseTrace`, which collects the items of a response from its events, and
-- what is recorded of it.
pub mod Order
pub mod Valid
use claudodex.Common.{
  ℕ, suc, ◌+◌, ◌-◌, String, Bool, true, false, ◌&&◌, ◌||◌, not, Option, none, some, List, [], ◌∷◌,
  ◌++◌, map, length, get_elem?, set, any, ltb, nat_eq, ◌==◌, string_key, int_key, if◌then◌else◌,
}
use claudodex.Common.Int.{ℤ, pos, ◌+ℤ◌, ltb_ℤ}
use claudodex.Common.Dict.{Dict, lookup, insert}
use claudodex.Common.Sort.{sort_by}
use claudodex.Common.Text.{trim_space}
use claudodex.Json.{Json}
use claudodex.Codex.{Output, ContentPart, InputItem, Request}
use claudodex.Chain.{ResponseChain, Chains, is_blank}

-- A nil map and an empty one are one here: the code makes a map before it writes, and a nil map reads
-- like an empty one.
pub record ResponseTrace : Type 0 where
  pub response_id : String
  pub output : List InputItem
  pub args_by_index : Dict ℤ String
  pub item_by_index : Dict ℤ ℕ
  pub item_by_call_id : Dict String ℕ

abbrev pub empty_trace : ResponseTrace
empty_trace = record {
  response_id = "";
  output = [];
  args_by_index = [];
  item_by_index = [];
  item_by_call_id = [];
}

-- json.Unmarshal into the four payload types; `none` for an error.
pub record Decoder : Type 0 where
  pub created : String → Option String
  pub arguments_done : String → Option (ℤ × String)
  pub item_done : String → Option (ℤ × InputItem)
  pub completed : String → Option (String × List InputItem)

abbrev or_text : String → String → String
or_text next previous = if is_blank next then previous else next

abbrev or_list {ℓ} : {A : Type ℓ} → Option (List A) → Option (List A) → Option (List A)
or_list none previous = previous
or_list (some []) previous = previous
or_list (some (x ∷ xs)) previous = some (x ∷ xs)

abbrev or_value : Option Output → Option Output → Option Output
or_value none previous = previous
or_value (some v) previous = some v

unfoldable pub merge_output_item : (previous next : InputItem) → InputItem
merge_output_item previous next = record previous {
  raw = or_list next.raw previous.raw;
  item_type = or_text next.item_type previous.item_type;
  role = or_text next.role previous.role;
  content = or_list next.content previous.content;
  call_id = or_text next.call_id previous.call_id;
  name = or_text next.name previous.name;
  arguments = or_text next.arguments previous.arguments;
  output = or_value next.output previous.output;
}

-- A position of one of the maps, if it is one of the output.
abbrev pub index_in_range : List InputItem → Option ℕ → Option ℕ
index_in_range output none = none
index_in_range output (some i) = if ltb i (length output) then some i else none

abbrev pub merge_into : ℕ → InputItem → List InputItem → Option InputItem → List InputItem
merge_into i item output none = output
merge_into i item output (some previous) = set output i (merge_output_item previous item)

abbrev pub merge_at : ℕ → InputItem → ResponseTrace → List InputItem
merge_at i item t = merge_into i item t.output (get_elem? t.output i)

abbrev pub note_call : String → ℕ → Dict String ℕ → Dict String ℕ
note_call call_id i calls = if call_id == "" then calls else insert call_id i calls

abbrev pub merge_known : ℕ → InputItem → ResponseTrace → ResponseTrace
merge_known i item t = record t {
  output = merge_at i item t;
  item_by_call_id = note_call item.call_id i t.item_by_call_id;
}

abbrev pub merge_call : ℤ → ℕ → InputItem → ResponseTrace → ResponseTrace
merge_call output_index i item t = record t {
  output = merge_at i item t;
  item_by_index = insert output_index i t.item_by_index;
}

abbrev pub append_item : ℤ → InputItem → ResponseTrace → ResponseTrace
append_item output_index item t =
    let i = length t.output in
    record t {
      output = t.output ++ item ∷ [];
      item_by_index = insert output_index i t.item_by_index;
      item_by_call_id = note_call item.call_id i t.item_by_call_id;
    }

abbrev pub upsert_call : ℤ → InputItem → ResponseTrace → Option ℕ → ResponseTrace
upsert_call output_index item t none = append_item output_index item t
upsert_call output_index item t (some i) = merge_call output_index i item t

abbrev pub call_position : InputItem → ResponseTrace → Option ℕ
call_position item t =
    if item.call_id == ""
    then none
    else index_in_range t.output (lookup item.call_id t.item_by_call_id)

abbrev pub index_position : ℤ → ResponseTrace → Option ℕ
index_position output_index t = index_in_range t.output (lookup output_index t.item_by_index)

abbrev pub upsert_indexed : ℤ → InputItem → ResponseTrace → Option ℕ → ResponseTrace
upsert_indexed output_index item t (some i) = merge_known i item t
upsert_indexed output_index item t none = upsert_call output_index item t (call_position item t)

unfoldable pub upsert_output_item : ℤ → InputItem → ResponseTrace → ResponseTrace
unfolding lookup insert merge_output_item
upsert_output_item output_index item t =
    upsert_indexed output_index item t (index_position output_index t)

-- The last statement of `observeFunctionCallArguments`.
abbrev pub fill_arguments : String → ℕ → List InputItem → Option InputItem → List InputItem
fill_arguments arguments i output none = output
fill_arguments arguments i output (some item) =
    if item.arguments == "" then set output i (record item { arguments = arguments }) else output

abbrev pub fill_at : String → Option ℕ → List InputItem → List InputItem
fill_at arguments none output = output
fill_at arguments (some i) output = fill_arguments arguments i output (get_elem? output i)

abbrev pub note_arguments : Option (ℤ × String) → ResponseTrace → ResponseTrace
note_arguments none t = t
note_arguments (some (output_index, arguments)) t = if arguments == "" then t else record t {
  args_by_index = insert output_index arguments t.args_by_index;
  output = fill_at arguments (lookup output_index t.item_by_index) t.output;
}

unfoldable pub observe_function_call_arguments : Decoder → String → ResponseTrace → ResponseTrace
unfolding lookup insert
observe_function_call_arguments decoder payload t =
    note_arguments (decoder.arguments_done payload) t

abbrev text_or_empty : Option String → String
text_or_empty none = ""
text_or_empty (some s) = s

-- A call without arguments takes those that came on their own.
abbrev pub with_arguments : ℤ → InputItem → ResponseTrace → InputItem
with_arguments output_index item t =
    if item.item_type == "function_call" && item.arguments == ""
    then record item { arguments = text_or_empty (lookup output_index t.args_by_index) }
    else item

abbrev pub add_done : Option (ℤ × InputItem) → ResponseTrace → ResponseTrace
add_done none t = t
add_done (some (output_index, item)) t =
    if is_blank item.item_type
    then t
    else upsert_output_item output_index (with_arguments output_index item t) t

unfoldable pub observe_output_item_done : Decoder → String → ResponseTrace → ResponseTrace
unfolding lookup upsert_output_item
observe_output_item_done decoder payload t = add_done (decoder.item_done payload) t

abbrev pub note_id : String → ResponseTrace → ResponseTrace
note_id id t = if is_blank id then t else record t { response_id = trim_space id }

abbrev pub note_created : Option String → ResponseTrace → ResponseTrace
note_created none t = t
note_created (some id) t = note_id id t

unfoldable pub upsert_all : ℤ → List InputItem → ResponseTrace → ResponseTrace
unfolding upsert_output_item
upsert_all output_index [] t = t
upsert_all output_index (item ∷ items) t =
    upsert_all (output_index +ℤ pos 1) items (upsert_output_item output_index item t)

abbrev pub note_completed : Option (String × List InputItem) → ResponseTrace → ResponseTrace
note_completed none t = t
note_completed (some (id, items)) t = upsert_all (pos 0) items (note_id id t)

unfoldable pub observe : Decoder → (event payload : String) → ResponseTrace → ResponseTrace
unfolding observe_function_call_arguments observe_output_item_done upsert_all
observe decoder event payload t =
    if event == "response.created"
    then note_created (decoder.created payload) t
    else if event == "response.function_call_arguments.done"
    then observe_function_call_arguments decoder payload t
    else if event == "response.output_item.done"
    then observe_output_item_done decoder payload t
    else if event == "response.completed" || event == "response.done"
    then note_completed (decoder.completed payload) t
    else t

-- The items at the positions that the sorted indices lead to; a position out of range is skipped.
unfoldable pub items_at : List InputItem → List ℕ → List InputItem
items_at output [] = []
items_at output (i ∷ is) = elim (get_elem? output i) [
  | none ↦ items_at output is
  | some item ↦ item ∷ items_at output is
]

-- The items at the positions that no index leads to; `i` is the position of the first one.
unfoldable pub others_from : List ℕ → ℕ → List InputItem → List InputItem
others_from used i [] = []
others_from used i (item ∷ output) =
    let rest = others_from used (suc i) output in
    if any (λ (u : ℕ). nat_eq u i) used then rest else item ∷ rest

abbrev pub before : ℤ × ℕ → ℤ × ℕ → Bool
before a b = ltb_ℤ a.0 b.0

-- The positions of `itemByIndex` by increasing index.
abbrev pub positions : ResponseTrace → List ℕ
positions t = map (λ (e : ℤ × ℕ). e.1) (sort_by before t.item_by_index)

unfoldable pub output_in_order : ResponseTrace → List InputItem
unfolding items_at others_from sort_by
output_in_order t = items_at t.output (positions t) ++ others_from (positions t) 0 t.output

unfoldable pub append_segment : (segment t : ResponseTrace) → ResponseTrace
unfolding output_in_order
append_segment segment t = record t {
  response_id = or_text segment.response_id t.response_id;
  output = t.output ++ output_in_order segment;
}

unfoldable pub continuation_request : Request → ResponseTrace → Bool → Request
continuation_request request trace same_web_socket =
    if same_web_socket && not (is_blank trace.response_id)
    then record request { previous_response_id = trace.response_id; input = []; instructions = "" }
    else record request { previous_response_id = ""; input = request.input ++ trace.output }

-- request.ClientMetadata[key]
abbrev pub metadata_at : String → Option (Dict String String) → String
metadata_at key none = ""
metadata_at key (some metadata) = text_or_empty (lookup key metadata)

abbrev pub chain_of : Request → ResponseTrace → ResponseChain
chain_of request trace = record {
  request = record request { previous_response_id = "" };
  response_id = trim_space trace.response_id;
  output = output_in_order trace;
  turn_id = trim_space (metadata_at "turn_id" request.client_metadata);
  root_turn_id = trim_space (metadata_at "root_turn_id" request.client_metadata);
}

unfoldable pub record_response_chain : String → Request → ResponseTrace → Chains → Chains
unfolding insert lookup output_in_order
record_response_chain chain_key request trace s =
    let key = trim_space chain_key in
    if key == "" || is_blank trace.response_id
    then s
    else record s { chains = insert key (chain_of request trace) s.chains }
