-- ===== src/Convert/Messages/Results.antt =====
-- internal/convert/request.go: the results of tools, and the loop over the blocks of a message.
use Prim.Native.String
use claudodex.Common.{
  String, Bool, true, false, ◌&&◌, ◌||◌, not, Option, none, some, List, [], ◌∷◌, any, ◌==◌,
  string_key, if◌then◌else◌,
}
use claudodex.Common.Dict.{Dict}
use claudodex.Common.Outcome.{Outcome, failed, ok, ◌>>=◌}
use claudodex.Common.Text.{trim_space, has_suffix, drop_last}
use claudodex.Json.{
  Json, Fields, null, bool, num, str, arr, obj, at, as_map, as_bool, as_str, field_at, items,
}
use claudodex.Codex.{ContentPart, InputItem, Output, value, parts}
use claudodex.Convert.Messages.{
  Library, BadRequest, bad_content, misplaced_tool_use, misplaced_tool_result, Loop, part, text_at,
  image_part_from_block, message_item, flush, add_item, add_part, register_call_id, resolve_call_id,
  clamp_call_id, use_id, call_item, result_item,
}

-- strings.Join(parts, sep)
unfoldable pub join : String → List String → String
join sep [] = ""
join sep (s ∷ []) = s
join sep (s ∷ t ∷ ss) = String.◌++◌ s (String.◌++◌ sep (join sep (t ∷ ss)))

abbrev has_image_part : List ContentPart → Bool
has_image_part ps = any (λ (p : ContentPart). p.part_type == "input_image") ps

abbrev add_image : Outcome BadRequest ContentPart → List ContentPart → List ContentPart
add_image (failed e) ps = ps
add_image (ok p) ps = p ∷ ps

-- The loop of `toolResultOutputValue` over a list: its texts and its parts.
unfoldable pub result_texts : List Json → List String
result_texts [] = []
result_texts (obj fs ∷ vs) =
    let rest = result_texts vs in
    let s = as_str (field_at "text" fs) in
    if as_str (field_at "type" fs) == "text" && not (s == "") then s ∷ rest else rest
result_texts (v ∷ vs) = result_texts vs

unfoldable pub result_parts : List Json → List ContentPart
unfolding image_part_from_block
result_parts [] = []
result_parts (obj fs ∷ vs) =
    let rest = result_parts vs in
    let kind = as_str (field_at "type" fs) in
    let s = as_str (field_at "text" fs) in
    if kind == "text"
    then (if s == "" then rest else part "input_text" s ∷ rest)
    else if kind == "image"
    then add_image (image_part_from_block (some fs)) rest
    else rest
result_parts (v ∷ vs) = result_parts vs

abbrev encoded : Library → Json → String
encoded lib v = elim (lib.encode v) [ none ↦ lib.sprint v | some t ↦ t ]

unfoldable pub tool_result_output_value : Library → Json → Output
unfolding result_texts result_parts join
tool_result_output_value lib (str s) = value (str s)
tool_result_output_value lib (arr vs) =
    let ps = result_parts (items vs) in
    if has_image_part ps then parts ps else value (str (join "\n" (result_texts (items vs))))
tool_result_output_value lib null = value (str "")
tool_result_output_value lib (bool b) = value (str (encoded lib (bool b)))
tool_result_output_value lib (num w f) = value (str (encoded lib (num w f)))
tool_result_output_value lib (obj fs) = value (str (encoded lib (obj fs)))

abbrev error_text : String → String
error_text t = if trim_space t == "" then "Error" else String.◌++◌ "Error: " t

abbrev error_part : ContentPart
error_part = part "input_text" "Error"

-- The loop of `errorToolResultOutput`: the first text gets the prefix; `none` if there is no text.
unfoldable pub mark_first : List ContentPart → Option (List ContentPart)
mark_first [] = none
mark_first (p ∷ ps) =
    let rest = mark_first ps in
    if p.part_type == "input_text"
    then some (record p { text = error_text p.text } ∷ ps)
    else elim rest [ none ↦ none | some marked ↦ some (p ∷ marked) ]

abbrev or_marked : List ContentPart → Option (List ContentPart) → List ContentPart
or_marked ps none = error_part ∷ ps
or_marked ps (some marked) = marked

unfoldable pub error_tool_result_output : Output → Output
unfolding mark_first
error_tool_result_output (value (str s)) = value (str (error_text s))
error_tool_result_output (value v) = value (str "Error")
error_tool_result_output (parts ps) = parts (or_marked ps (mark_first ps))

abbrev is_true : Option Bool → Bool
is_true (some true) = true
is_true _ = false

unfoldable pub tool_result_output : Library → Option Fields → Output
unfolding tool_result_output_value error_tool_result_output
tool_result_output lib block =
    let output = tool_result_output_value lib (at block "content") in
    if is_true (as_bool (at block "is_error")) then error_tool_result_output output else output

abbrev output_text : Output → String
output_text (value (str s)) = s
output_text _ = ""

abbrev whole_block : Library → Option Fields → String
whole_block lib none = encoded lib null
whole_block lib (some fs) = encoded lib (obj fs)

unfoldable pub server_tool_result_output : Library → Option Fields → String
unfolding tool_result_output_value
server_tool_result_output lib block =
    let content = at block "content" in
    let text = text_at (as_map content) "text" in
    let code = text_at (as_map content) "error_code" in
    let given = output_text (tool_result_output_value lib content) in
    if not (text == "")
    then text
    else if not (code == "")
    then String.◌++◌ "Error: " code
    else if not (given == "")
    then given
    else whole_block lib block

abbrev quoted : Library → String → String
quoted lib s = elim (lib.encode (str s)) [ none ↦ "\"\"" | some t ↦ t ]

unfoldable pub server_tool_result_item :
    Library → Dict String String → (kind : String) → Option Fields → InputItem
unfolding server_tool_result_output resolve_call_id clamp_call_id drop_last
server_tool_result_item lib call_ids kind block =
    let id = text_at block "tool_use_id" in
    if id == ""
    then result_item (clamp_call_id lib (String.◌++◌ "call_missing_" (drop_last 12 kind))) (
        value (
          str (
            String.◌++◌
              "{\"error\":\"server tool result block did not include a tool_use_id\",\"block_type\":"
              (String.◌++◌ (quoted lib kind) "}"))))
    else result_item (resolve_call_id lib call_ids id)
        (value (str (server_tool_result_output lib block)))

abbrev pub part_type_of : String → String
part_type_of role = if role == "assistant" then "output_text" else "input_text"

abbrev pub result_id : Option Fields → String
result_id block = let id = text_at block "tool_use_id" in if id == "" then "call_unknown" else id

-- A call, on a state that is flushed.
abbrev pub add_call : Library → Option Fields → Loop → Loop
add_call lib block l = add_item (call_item lib block) (register_call_id lib (use_id block) l)

abbrev pub add_result : Library → Option Fields → Loop → Loop
add_result lib block l =
    add_item
      (result_item (resolve_call_id lib l.call_ids (result_id block))
        (tool_result_output lib block))
      l

abbrev pub add_server_result : Library → String → Option Fields → Loop → Loop
add_server_result lib kind block l = add_item (server_tool_result_item lib l.call_ids kind block) l

abbrev pub add_picture : Option Fields → Loop → Outcome BadRequest Loop
add_picture block l = do picture ← image_part_from_block block; ok (add_part picture l)

-- One round of the loop over the blocks.
unfoldable pub convert_block :
    Library → (role : String) → Option Fields → Loop → Outcome BadRequest Loop
unfolding image_part_from_block tool_result_output server_tool_result_item resolve_call_id
convert_block lib role block l =
    let kind = text_at block "type" in
    if kind == "text"
    then ok (add_part (part (part_type_of role) (text_at block "text")) l)
    else if kind == "image"
    then (if role == "user" then add_picture block l else ok l)
    else if kind == "tool_use" || kind == "server_tool_use"
    then (if role == "assistant"
        then ok (add_call lib block (flush role l))
        else failed misplaced_tool_use)
    else if kind == "tool_result"
    then (if role == "user"
        then ok (add_result lib block (flush role l))
        else failed misplaced_tool_result)
    else if kind == "thinking" || kind == "redacted_thinking"
    then ok l
    else if has_suffix kind "_tool_result"
    then ok (add_server_result lib kind block (flush role l))
    else ok l

unfoldable pub convert_blocks :
    Library → String → List (Option Fields) → Loop → Outcome BadRequest Loop
unfolding convert_block
convert_blocks lib role [] l = ok (flush role l)
convert_blocks lib role (block ∷ blocks) l = do
  next ← convert_block lib role block l
  convert_blocks lib role blocks next

-- json.Unmarshal into a list of maps: a null is a nil map.
unfoldable pub block_maps : List Json → Option (List (Option Fields))
block_maps [] = some []
block_maps (obj fs ∷ vs) = elim (block_maps vs) [ none ↦ none | some bs ↦ some (some fs ∷ bs) ]
block_maps (null ∷ vs) = elim (block_maps vs) [ none ↦ none | some bs ↦ some (none ∷ bs) ]
block_maps (v ∷ vs) = none

abbrev pub on_blocks :
    Library → String → Dict String String → Option (List (Option Fields)) → Outcome BadRequest Loop
on_blocks lib role call_ids none = failed bad_content
on_blocks lib role call_ids (some blocks) =
    convert_blocks lib role blocks (record { call_ids = call_ids; done = []; pending = [] })

abbrev pub whole_text : String → Dict String String → String → Loop
whole_text role call_ids text = record {
  call_ids = call_ids;
  done = message_item role (part (part_type_of role) text ∷ []) ∷ [];
  pending = [];
}

-- `convertContent`: the items are in `done`. A null decodes as an empty text.
unfoldable pub convert_content :
    Library → String → Dict String String → Option Json → Outcome BadRequest Loop
unfolding convert_blocks block_maps
convert_content lib role call_ids (some (str text)) = ok (whole_text role call_ids text)
convert_content lib role call_ids (some null) = ok (whole_text role call_ids "")
convert_content lib role call_ids (some (arr vs)) =
    on_blocks lib role call_ids (block_maps (items vs))
convert_content lib role call_ids _ = failed bad_content
