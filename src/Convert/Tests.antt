-- ===== src/Convert/Tests.antt =====
-- Runs of the conversion of schemas and messages, and their theorems at concrete inputs.
use claudodex.Common.{String, ◌≡◌, refl, true, Option, none, some, List, [], ◌∷◌, string_key}
use claudodex.Common.Dict.{lookup, insert}
use claudodex.Common.Outcome.{ok, failed}
use claudodex.Common.Text.{
  byte_len, trim_space, to_lower, contains, has_prefix, has_suffix, drop_last, split,
}
use claudodex.Json.{
  Json, Items, Fields, bool, str, arr, obj, nil, cons, end, field, field_at, set_field,
  remove_field,
}
use claudodex.Codex.{value}
use claudodex.Convert.Schema.{
  has_field, merge_maps, merge_object_schema, object_branches, set_required, distinct_texts,
  union_strings, common_texts, intersect_strings, merge_all, merge_objects, intersect_all,
  sanitize_schema,
}
use claudodex.Convert.Schema.Laws.{IsPlain, sanitize_schema-IsPlain}
use claudodex.Convert.Schema.Required.{Requires, sanitize_schema-Requires}
use claudodex.Convert.Messages.{
  Library, AnthropicMessage, take_bytes, clamp_call_id, image_part_from_block, resolve_call_id,
  misplaced_tool_use, unsupported_role, message_item, empty_item, part,
}
use claudodex.Convert.Messages.Results.{
  join, result_texts, result_parts, tool_result_output_value, mark_first, error_tool_result_output,
  tool_result_output, server_tool_result_output, server_tool_result_item, convert_block,
  convert_blocks, block_maps, convert_content,
}
use claudodex.Convert.Messages.Laws.{HasDigits}
use claudodex.Convert.System.{
  lower_text, has_return, is_billing_line, without_billing, strip_anthropic_billing_header,
  text_blocks, block_texts, system_instructions, convert_message, convert_all, convert_messages,
}
use claudodex.Convert.System.{Conversation}
use claudodex.Codex.{InputItem}
use claudodex.Convert.System.Laws.{Yields, convert_messages-Yields}
use claudodex.Convert.Tools.{}
use claudodex.Convert.Instructions.{}
use claudodex.Convert.Request.{}

runs : Unit {0}
unfolding lookup insert byte_len trim_space to_lower contains has_prefix has_suffix drop_last split
    field_at set_field remove_field has_field merge_maps merge_object_schema object_branches
    set_required distinct_texts union_strings common_texts intersect_strings merge_all merge_objects
    intersect_all sanitize_schema take_bytes clamp_call_id image_part_from_block resolve_call_id
    join result_texts result_parts tool_result_output_value mark_first error_tool_result_output
    tool_result_output server_tool_result_output server_tool_result_item convert_block
    convert_blocks block_maps convert_content lower_text has_return is_billing_line without_billing
    strip_anthropic_billing_header text_blocks block_texts system_instructions convert_message
    convert_all convert_messages
runs = tt

abbrev library : Library
library = record { digest = λ id. "0123456789abcdef"; encode = λ v. some "{}"; sprint = λ v. "" }

library-HasDigits : HasDigits library
unfolding byte_len
library-HasDigits id = refl

abbrev string_type : Fields
string_type = field "type" (str "string") end

-- {"required": ["path"], "allOf": [{"properties": {"path": {"type": "string"}}}], "anyOf": [...]}
abbrev schema : Fields
schema = field "required" (arr (cons (str "path") nil)) (
    field "allOf"
      (arr (
        cons
          (obj (
            field "properties" (obj (field "path" (obj string_type) end))
              (field "required" (arr (cons (str "mode") nil)) end)))
          nil))
      (field "anyOf"
        (arr (
          cons (obj (field "required" (arr (cons (str "a") (cons (str "b") nil))) end))
            (cons (obj (field "required" (arr (cons (str "b") nil)) end)) nil)))
        end))

sanitizes :
    (field_at "required" (sanitize_schema (some schema))
      ≡ arr (cons (str "path") (cons (str "mode") (cons (str "b") nil))))
    × (field_at "properties" (sanitize_schema (some schema))
        ≡ obj (field "path" (obj string_type) end))
unfolding runs
sanitizes = (refl, refl)

sanitize_schema-IsPlain_example : IsPlain (sanitize_schema (some schema))
sanitize_schema-IsPlain_example = sanitize_schema-IsPlain (some schema)

sanitize_schema-Requires_example : Requires (sanitize_schema (some schema)) "path"
unfolding runs
sanitize_schema-Requires_example = sanitize_schema-Requires "path" refl schema refl

abbrev blocks : List Fields → Option Json
blocks bs = some (arr (go bs))
  where
    go : List Fields → Items
    go [] = nil
    go (b ∷ bs) = cons (obj b) (go bs)

abbrev long_id : String
long_id = "call_0123456789_0123456789_0123456789_0123456789_0123456789_0123456789"

abbrev messages : List AnthropicMessage
messages =
    record { role = "System"; content = some (str "x-anthropic-billing-header: a\nBe brief.") }
    ∷ record {
      role = "assistant";
      content = blocks (
          field "type" (str "text") (field "text" (str "I read it.") end)
          ∷ field "type" (str "tool_use") (field "id" (str long_id) (field "name" (str "Read") end))
          ∷ []);
    }
    ∷ record {
      role = "user";
      content = blocks (
          field "type" (str "tool_result") (
            field "tool_use_id" (str long_id)
              (field "content" (str "gone") (field "is_error" (bool true) end)))
          ∷ []);
    }
    ∷ []

abbrev clamped : String
clamped = "call_0123456789_0123456789_0123456789_012345678-0123456789abcdef"

abbrev inputs : List InputItem
inputs =
    message_item "assistant" (part "output_text" "I read it." ∷ [])
    ∷ record empty_item {
      item_type = "function_call";
      call_id = clamped;
      name = "Read";
      arguments = "{}";
    }
    ∷ record empty_item {
      item_type = "function_call_output";
      call_id = clamped;
      output = some (value (str "Error: gone"));
    }
    ∷ []

converts :
    (convert_messages library messages ≡ ok (inputs, "Be brief."))
    × (convert_content library "user" [] (blocks (field "type" (str "tool_use") end ∷ []))
        ≡ failed misplaced_tool_use)
    × (convert_messages library (record { role = "tool"; content = none } ∷ [])
        ≡ failed (unsupported_role "tool"))
unfolding runs
converts = (refl, refl, refl)

convert_messages-Yields_example :
    Yields library library-HasDigits (convert_messages library messages)
convert_messages-Yields_example = convert_messages-Yields library library-HasDigits messages

-- The converter after the three messages, which knows the long id.
abbrev conversation : Conversation
conversation = record {
  call_ids = insert long_id clamped [];
  input = inputs;
  system_texts = "Be brief." ∷ [];
}

abbrev read_call : Option Fields
read_call = some (field "id" (str long_id) (field "name" (str "Read") end))
