-- ===== src/Stream/Assemble.antt =====
-- internal/convert/stream.go, `AssembleMessage`: the whole message that a list of events stands for.
pub mod Described
pub mod Fill
pub mod Laws
mod Tests
use Prim.Native.String
use claudodex.Common.{
  ℕ, zero, suc, String, none, some, List, [], ◌∷◌, ◌++◌, map, ◌==◌, string_key, if◌then◌else◌,
}
use claudodex.Common.Int.{ℤ, pos, negsuc}
use claudodex.Common.Outcome.{Outcome, failed, ok, ◌>>=◌}
use claudodex.Json.{Fields, end, Codec}
use claudodex.Stream.{
  Usage, zero_usage, SearchContent, Block, text_block, thinking_block, tool_use, server_tool_use,
  web_search_tool_result, Delta, text_delta, thinking_delta, signature_delta, input_json_delta, Sse,
  message_start, content_block_start, content_block_delta, content_block_stop, message_delta,
  message_stop, error_event,
}

-- `assembledBlock`: `start` has its type, its id, its name and its raw block.
pub record AssembledBlock : Type 0 where
  pub start : Block
  pub text : String
  pub signature : String
  pub args : String

-- The fields that stringField reads from a delta.
abbrev pub text_of : Delta → String
text_of (text_delta s) = s
text_of _ = ""

abbrev pub thinking_of : Delta → String
thinking_of (thinking_delta s) = s
thinking_of _ = ""

abbrev pub signature_of : Delta → String
signature_of (signature_delta s) = s
signature_of _ = ""

abbrev pub partial_json_of : Delta → String
partial_json_of (input_json_delta s) = s
partial_json_of _ = ""

abbrev pub write_args : Delta → AssembledBlock → AssembledBlock
write_args d b = record b { args = String.◌++◌ b.args (partial_json_of d) }

abbrev pub write_as : Block → Delta → AssembledBlock → AssembledBlock
write_as text_block d b = record b { text = String.◌++◌ b.text (text_of d) }
write_as thinking_block d b = record b {
  text = String.◌++◌ b.text (thinking_of d);
  signature = String.◌++◌ b.signature (signature_of d);
}
write_as (tool_use id name) d b = write_args d b
write_as (server_tool_use id) d b = write_args d b
write_as (web_search_tool_result id content) d b = b

-- A position out of range is left aside.
abbrev pub write_nth : ℕ → Delta → List AssembledBlock → List AssembledBlock
write_nth n d [] = []
write_nth zero d (b ∷ bs) = write_as b.start d b ∷ bs
write_nth (suc n) d (b ∷ bs) = b ∷ write_nth n d bs

abbrev pub write_at : ℤ → Delta → List AssembledBlock → List AssembledBlock
write_at (pos n) d bs = write_nth n d bs
write_at (negsuc n) d bs = bs

abbrev pub started_block : Block → AssembledBlock
started_block b = record { start = b; text = ""; signature = ""; args = "" }

-- The variables of `AssembleMessage`.
pub record Assembly : Type 0 where
  pub message_id : String
  pub blocks : List AssembledBlock
  pub stop_reason : String
  pub usage : Usage

-- One round of the loop over the events.
unfoldable pub assemble_event : Assembly → Sse → Outcome Sse Assembly
assemble_event a (error_event type message) = failed (error_event type message)
assemble_event a (message_start id model usage) =
    ok (record a { message_id = if id == "" then a.message_id else id })
assemble_event a (content_block_start i b) =
    ok (record a { blocks = a.blocks ++ started_block b ∷ [] })
assemble_event a (content_block_delta i d) = ok (record a { blocks = write_at i d a.blocks })
assemble_event a (message_delta stop_reason usage) =
    ok (record a { stop_reason = stop_reason; usage = usage })
assemble_event a (content_block_stop i) = ok a
assemble_event a message_stop = ok a

unfoldable pub assemble_events : Assembly → List Sse → Outcome Sse Assembly
unfolding assemble_event
assemble_events a [] = ok a
assemble_events a (e ∷ es) = do next ← assemble_event a e; assemble_events next es

-- An element of the content of a message.
pub data Content : Type 0 where
  text_content : String → Content
  thinking_content : (thinking signature : String) → Content
  tool_content : (id name : String) → Fields → Content
  server_tool_content : (id : String) → Fields → Content
  search_content : (tool_use_id : String) → SearchContent → Content

abbrev pub input_of : Codec → String → Fields
input_of codec args = elim (codec.decode_map args) [
  | none ↦ end
  | some decoded ↦ elim decoded [ none ↦ end | some fs ↦ fs ]
]

abbrev pub content_of : Codec → Block → (said signature args : String) → Content
content_of codec text_block said signature args = text_content said
content_of codec thinking_block said signature args = thinking_content said signature
content_of codec (tool_use id name) said signature args = tool_content id name (input_of codec args)
content_of codec (server_tool_use id) said signature args =
    server_tool_content id (input_of codec args)
content_of codec (web_search_tool_result id content) said signature args = search_content id content

pub record Message : Type 0 where
  pub id : String
  pub model : String
  pub content : List Content
  pub stop_reason : String
  pub usage : Usage

abbrev pub message_of : Codec → (model : String) → Assembly → Message
message_of codec model a = record {
  id = a.message_id;
  model = model;
  content =
      map (λ (b : AssembledBlock). content_of codec b.start b.text b.signature b.args) a.blocks;
  stop_reason = a.stop_reason;
  usage = a.usage;
}

abbrev pub or_claudodex : String → String
or_claudodex id = if id == "" then "msg_claudodex" else id

-- The message, or the error event that came instead.
unfoldable pub assemble_message :
    Codec → (message_id model : String) → List Sse → Outcome Sse Message
unfolding assemble_events
assemble_message codec message_id model events =
    assemble_events
      (record {
        message_id = or_claudodex message_id;
        blocks = [];
        stop_reason = "end_turn";
        usage = zero_usage;
      })
      events
    >>= λ a. ok (message_of codec model a)
