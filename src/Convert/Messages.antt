-- ===== src/Convert/Messages.antt =====
-- internal/convert/request.go and toolids.go: the messages of a conversation as items of a Codex request.
-- The content of a message is its decoded JSON, `none` if there is none or it cannot be decoded.
pub mod Results
pub mod Laws
pub mod Shape
use Prim.Native.String
use Prim.Native.String.{[] as nil, ◌∷◌ as cons}
use claudodex.Common.{
  ℕ, ◌-◌, String, Bool, true, false, ◌&&◌, ◌||◌, not, Option, none, some, List, [], ◌∷◌, ◌++◌, any,
  leb, ◌==◌, string_key, if◌then◌else◌,
}
use claudodex.Common.Dict.{Dict, lookup, insert}
use claudodex.Common.Outcome.{Outcome, failed, ok, ◌>>=◌}
use claudodex.Common.Text.{
  first_nonempty, trim_space, to_lower, contains, has_suffix, byte_len, char_bytes,
}
use claudodex.Json.{Json, Fields, null, str, arr, obj, field_at, at, as_map, as_str, items}
use claudodex.Codex.{ContentPart, InputItem, Output, value, parts}

-- What the conversion takes from crypto/sha256, encoding/json and fmt: the 16 hexadecimal digits that a
-- long id ends with, json.Marshal (`none` for an error), and fmt.Sprint.
pub record Library : Type 0 where
  pub digest : String → String
  pub encode : Json → Option String
  pub sprint : Json → String

-- The errors that the conversion answers a bad request with.
pub data BadRequest : Type 0 where
  unsupported_role : String → BadRequest
  bad_content misplaced_tool_use misplaced_tool_result : BadRequest
  incomplete_base64_image incomplete_url_image unsupported_image : BadRequest

pub record AnthropicMessage : Type 0 where
  pub role : String
  pub content : Option Json

-- The first bytes of a text; a character that the cut would split is left out.
unfoldable pub take_bytes : ℕ → String → String
take_bytes n nil = nil
take_bytes n (cons c s) =
    let rest = take_bytes (n - char_bytes c) s in if leb (char_bytes c) n then cons c rest else nil

-- `ClampCallID`
unfoldable pub clamp_call_id : Library → String → String
unfolding byte_len take_bytes
clamp_call_id lib id =
    if leb (byte_len id) 64
    then id
    else String.◌++◌ (take_bytes 47 id) (String.◌++◌ "-" (lib.digest id))

abbrev pub part : String → String → ContentPart
part part_type text = record { part_type = part_type; text = text; image_url = ""; detail = "" }

abbrev pub empty_item : InputItem
empty_item = record {
  id = "";
  item_type = "";
  role = "";
  content = none;
  call_id = "";
  name = "";
  arguments = "";
  output = none;
  create_time = none;
  raw = none;
}

abbrev pub message_item : String → List ContentPart → InputItem
message_item role ps = record empty_item { item_type = "message"; role = role; content = some ps }

abbrev image : String → String → ContentPart
image image_url detail = record {
  part_type = "input_image";
  text = "";
  image_url = image_url;
  detail = detail;
}

abbrev pub text_at : Option Fields → String → String
text_at block k = as_str (at block k)

unfoldable pub image_part_from_block : Option Fields → Outcome BadRequest ContentPart
image_part_from_block block =
    let source = as_map (at block "source") in
    let detail = text_at block "detail" in
    let source_type = text_at source "type" in
    let media_type = text_at source "media_type" in
    let payload = text_at source "data" in
    let url = text_at source "url" in
    if source_type == "base64"
    then (if media_type == "" || payload == ""
        then failed incomplete_base64_image
        else ok (
            image (String.◌++◌ "data:" (String.◌++◌ media_type (String.◌++◌ ";base64," payload)))
              detail))
    else if source_type == "url"
    then (if url == "" then failed incomplete_url_image else ok (image url detail))
    else failed unsupported_image

-- The state of the loop over the blocks of a message, with the ids of the converter.
pub record Loop : Type 0 where
  pub call_ids : Dict String String
  pub done : List InputItem
  pub pending : List ContentPart

-- The closure `flush`.
abbrev pub flushed : String → List ContentPart → List InputItem → List InputItem
flushed role [] done = done
flushed role (p ∷ ps) done = done ++ message_item role (p ∷ ps) ∷ []

abbrev pub flush : String → Loop → Loop
flush role l = record l { done = flushed role l.pending l.done; pending = [] }

abbrev pub add_item : InputItem → Loop → Loop
add_item item l = record l { done = l.done ++ item ∷ [] }

abbrev pub add_part : ContentPart → Loop → Loop
add_part p l = record l { pending = l.pending ++ p ∷ [] }

-- `registerCallID`, which also returns the id.
abbrev pub register_call_id : Library → String → Loop → Loop
register_call_id lib id l = record l { call_ids = insert id (clamp_call_id lib id) l.call_ids }

abbrev or_clamped : Library → String → Option String → String
or_clamped lib id none = clamp_call_id lib id
or_clamped lib id (some clamped) = clamped

unfoldable pub resolve_call_id : Library → Dict String String → String → String
unfolding lookup clamp_call_id
resolve_call_id lib call_ids id = or_clamped lib id (lookup id call_ids)

abbrev or_empty_object : Option String → String
or_empty_object none = "{}"
or_empty_object (some t) = if t == "null" then "{}" else t

-- The name and the id of a tool call.
abbrev pub call_name : Option Fields → String
call_name block =
    first_nonempty (text_at block "name") (first_nonempty (text_at block "tool_name") "tool")

abbrev pub use_id : Option Fields → String
use_id block = first_nonempty (text_at block "id") (String.◌++◌ "call_" (call_name block))

abbrev pub call_item : Library → Option Fields → InputItem
call_item lib block = record empty_item {
  item_type = "function_call";
  call_id = clamp_call_id lib (use_id block);
  name = call_name block;
  arguments = or_empty_object (lib.encode (at block "input"));
}

abbrev pub result_item : String → Output → InputItem
result_item call_id output = record empty_item {
  item_type = "function_call_output";
  call_id = call_id;
  output = some output;
}
