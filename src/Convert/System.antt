-- ===== src/Convert/System.antt =====
-- internal/convert/billing.go and request.go: the texts of system messages, and the loop over the messages
-- of a conversation.
pub mod Laws
use Prim.Native.Char.{Char, code}
use Prim.Native.String
use Prim.Native.String.{[] as nil, ◌∷◌ as cons}
use claudodex.Common.{
  ℕ, ◌+◌, ◌-◌, String, Bool, true, false, ◌&&◌, ◌||◌, not, Option, none, some, List, [], ◌∷◌, ◌++◌,
  leb, nat_eq, ◌==◌, string_key, if◌then◌else◌,
}
use claudodex.Common.Dict.{Dict}
use claudodex.Common.Outcome.{Outcome, failed, ok, ◌>>=◌}
use claudodex.Common.Text.{
  trim_space, to_lower, contains, has_prefix, has_suffix, split, drop_last, lowers, nth,
}
use claudodex.Json.{Json, Fields, null, str, arr, obj, field_at, items}
use claudodex.Codex.{InputItem}
use claudodex.Convert.Messages.{
  Library, BadRequest, unsupported_role, AnthropicMessage, part, message_item, Loop,
}
use claudodex.Convert.Messages.Results.{join, convert_content}

-- The flag (?i) on a text of ASCII letters without k and s.
abbrev lower_ascii : Char → Char
lower_ascii c = if leb 65 (code c) && leb (code c) 90 then nth lowers (code c - 65) c else c

unfoldable pub lower_text : String → String
lower_text nil = nil
lower_text (cons c s) = cons (lower_ascii c) (lower_text s)

unfoldable pub has_return : String → Bool
has_return nil = false
has_return (cons c s) = nat_eq (code c) 13 || has_return s

-- Whether billingHeaderLine matches a line, without its newline: the header runs up to it, with at most
-- one return before it.
unfoldable pub is_billing_line : (last : Bool) → String → Bool
unfolding lower_text has_return has_prefix has_suffix drop_last
is_billing_line last line =
    let rest = if not last && has_suffix line "\r" then drop_last 1 line else line in
    has_prefix (lower_text line) "x-anthropic-billing-header:" && not (has_return rest)

-- The lines of a text that stay, each with its newline.
unfoldable pub without_billing : List String → String
unfolding is_billing_line
without_billing [] = ""
without_billing (line ∷ []) = if is_billing_line true line then "" else line
without_billing (line ∷ next ∷ lines) =
    let rest = without_billing (next ∷ lines) in
    if is_billing_line false line then rest else String.◌++◌ line (String.◌++◌ "\n" rest)

unfoldable pub strip_anthropic_billing_header : String → String
unfolding without_billing split
strip_anthropic_billing_header text = without_billing (split text b'\n')

-- A field of a struct that json.Unmarshal fills: a text, or "" for a missing or null one; `none` for
-- anything else.
abbrev text_field : Json → Option String
text_field (str s) = some s
text_field null = some ""
text_field _ = none

abbrev both_fields : Option String → Option String → Option (String × String)
both_fields (some a) (some b) = some (a, b)
both_fields _ _ = none

abbrev more :
    Option (String × String) → Option (List (String × String)) → Option (List (String × String))
more (some b) (some bs) = some (b ∷ bs)
more _ _ = none

-- json.Unmarshal into a list of type and text, whose keys are spelled as the API spells them.
unfoldable pub text_blocks : List Json → Option (List (String × String))
text_blocks [] = some []
text_blocks (obj fs ∷ vs) =
    more (both_fields (text_field (field_at "type" fs)) (text_field (field_at "text" fs)))
      (text_blocks vs)
text_blocks (null ∷ vs) = more (some ("", "")) (text_blocks vs)
text_blocks (v ∷ vs) = none

abbrev plain_text : String → String
plain_text text = trim_space (strip_anthropic_billing_header text)

unfoldable pub block_texts : List (String × String) → List String
unfolding strip_anthropic_billing_header trim_space
block_texts [] = []
block_texts ((kind, text) ∷ blocks) =
    let rest = block_texts blocks in
    if (kind == "" || kind == "text") && not (plain_text text == "")
    then plain_text text ∷ rest
    else rest

abbrev joined_texts : Option (List (String × String)) → String
joined_texts none = ""
joined_texts (some blocks) = join "\n\n" (block_texts blocks)

unfoldable pub system_instructions : Option Json → String
unfolding block_texts text_blocks join
system_instructions (some (str text)) = plain_text text
system_instructions (some (arr vs)) = joined_texts (text_blocks (items vs))
system_instructions _ = ""

abbrev pub queued_steering_marker : String
queued_steering_marker = "The user sent a new message while you were working:"

-- The state of the loop of `convertMessages`.
pub record Conversation : Type 0 where
  pub call_ids : Dict String String
  pub input : List InputItem
  pub system_texts : List String

abbrev pub add_system : String → Conversation → Conversation
add_system text c =
    if text == ""
    then c
    else if contains text queued_steering_marker
    then record c { input = c.input ++ message_item "user" (part "input_text" text ∷ []) ∷ [] }
    else record c { system_texts = c.system_texts ++ text ∷ [] }

abbrev pub add_content : Conversation → Loop → Outcome BadRequest Conversation
add_content c l = ok (record c { call_ids = l.call_ids; input = c.input ++ l.done })

unfoldable pub convert_message :
    Library → AnthropicMessage → Conversation → Outcome BadRequest Conversation
unfolding convert_content system_instructions
convert_message lib msg c =
    let role = to_lower (trim_space msg.role) in
    if role == "system"
    then ok (add_system (trim_space (system_instructions msg.content)) c)
    else if role == "user" || role == "assistant"
    then convert_content lib role c.call_ids msg.content >>= add_content c
    else failed (unsupported_role msg.role)

unfoldable pub convert_all :
    Library → List AnthropicMessage → Conversation → Outcome BadRequest Conversation
unfolding convert_message
convert_all lib [] c = ok c
convert_all lib (msg ∷ msgs) c = do next ← convert_message lib msg c; convert_all lib msgs next

abbrev pub nothing_yet : Conversation
nothing_yet = record { call_ids = []; input = []; system_texts = [] }

abbrev pub with_instructions : Conversation → Outcome BadRequest (List InputItem × String)
with_instructions c = ok (c.input, join "\n\n" c.system_texts)

unfoldable pub convert_messages :
    Library → List AnthropicMessage → Outcome BadRequest (List InputItem × String)
unfolding convert_all join
convert_messages lib msgs = convert_all lib msgs nothing_yet >>= with_instructions
