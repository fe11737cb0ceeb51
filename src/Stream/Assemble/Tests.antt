-- ===== src/Stream/Assemble/Tests.antt =====
-- Runs of the assembly of a message, and its theorem at concrete events.
use claudodex.Common.{◌≡◌, refl, none, some, List, [], ◌∷◌, ◌==◌, string_key, if◌then◌else◌}
use claudodex.Common.Int.{pos, negsuc}
use claudodex.Common.Outcome.{ok, failed, unless}
use claudodex.Json.{str, end, field, Codec}
use claudodex.Stream.{
  zero_usage, thinking_block, tool_use, text_delta, thinking_delta, signature_delta,
  input_json_delta, Sse, message_start, content_block_start, content_block_delta,
  content_block_stop, message_delta, message_stop, error_event,
}
use claudodex.Stream.Assemble.{
  thinking_content, tool_content, assemble_event, assemble_events, assemble_message, or_claudodex,
  Message,
}
use claudodex.Stream.Assemble.Described.{first_error, contents, last_id, last_stop}
use claudodex.Stream.Assemble.Laws.{assemble_message_lem}

abbrev codec : Codec
codec = record {
  decode_map = λ raw. if raw == "{\"a\":1}" then some (some (field "a" (str "1") end)) else none;
  encode_map = λ fs. some "{}";
  format_number = λ w f. "0";
  parse_retry_after = λ s. none;
  retry_after_from_message = λ s. pos 0;
}

-- Two blocks that are written in turn, a delta that comes too early, and one that fits no block.
abbrev events : List Sse
events =
    message_start "" "m" zero_usage
    ∷ content_block_delta (pos 0) (text_delta "early")
    ∷ content_block_start (pos 0) thinking_block
    ∷ content_block_delta (pos 0) (thinking_delta "Let")
    ∷ content_block_start (pos 1) (tool_use "t1" "Read")
    ∷ content_block_delta (pos 1) (input_json_delta "{\"a\"")
    ∷ content_block_delta (pos 0) (thinking_delta " me")
    ∷ content_block_delta (negsuc 0) (thinking_delta "lost")
    ∷ content_block_delta (pos 1) (input_json_delta ":1}")
    ∷ content_block_delta (pos 0) (signature_delta "sig")
    ∷ content_block_stop (pos 0)
    ∷ content_block_stop (pos 1)
    ∷ message_delta "tool_use" zero_usage
    ∷ message_stop
    ∷ []

abbrev message : Message
message = record {
  id = "msg_claudodex";
  model = "m";
  content =
      thinking_content "Let me" "sig" ∷ tool_content "t1" "Read" (field "a" (str "1") end) ∷ [];
  stop_reason = "tool_use";
  usage = zero_usage;
}

assembles :
    (assemble_message codec "" "m" events ≡ ok message)
    × (assemble_message codec "" "m" (message_stop ∷ error_event "api_error" "no" ∷ events)
        ≡ failed (error_event "api_error" "no"))
unfolding assemble_message assemble_events assemble_event
assembles = (refl, refl)

assemble_message_example :
    assemble_message codec "" "m" events
    ≡ unless (first_error events) (record {
      id = last_id (or_claudodex "") events;
      model = "m";
      content = contents codec 0 events;
      stop_reason = (last_stop ("end_turn", zero_usage) events).0;
      usage = (last_stop ("end_turn", zero_usage) events).1;
    })
assemble_message_example = assemble_message_lem codec "" "m" events
