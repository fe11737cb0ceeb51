-- ===== src/Stream/Blocks.antt =====
-- internal/convert/stream.go, the text block and the thinking block.
use Prim.Native.String.{len, [], ◌∷◌}
use claudodex.Common.{List}
use claudodex.Common.{
  suc, ◌+◌, String, Bool, true, false, not, [], ◌∷◌, ◌==◌, string_key, if◌then◌else◌,
}
use claudodex.Common.Int.{ℤ, pos, negsuc}
use claudodex.Stream.{
  Reducer, M, Sse, ◌>>=◌, ◌>>◌, skip, gets, modify, content_block_start, content_block_delta,
  content_block_stop, text_block, thinking_block, text_delta, thinking_delta, signature_delta,
}

abbrev pub when : Bool → M (Unit {0}) → M (Unit {0})
when true m = m
when false m = skip

abbrev pub open_ai_reasoning_summary_signature : String
open_ai_reasoning_summary_signature = "claudodex_openai_reasoning_summary"

abbrev pub opened_text : Reducer → Reducer
opened_text r = record r {
  text_index = pos r.next_index;
  next_index = suc r.next_index;
  text_active = true;
  text_saw_delta = false;
}

unfoldable pub ensure_text_block : M (Unit {0})
ensure_text_block r =
    if r.text_active
    then (tt, [], r)
    else (tt, content_block_start (pos r.next_index) text_block ∷ [], opened_text r)

abbrev pub stopped_text : Reducer → Reducer
stopped_text r = record r {
  text_active = false;
  text_index = negsuc 0;
  visible_blocks = suc r.visible_blocks;
}

unfoldable pub stop_text_block : M (Unit {0})
stop_text_block r =
    if r.text_active
    then (tt, content_block_stop r.text_index ∷ [], stopped_text r)
    else (tt, [], r)

-- A text_delta of the text block.
unfoldable pub text_delta_only : String → M (Unit {0})
text_delta_only text r = (tt, content_block_delta r.text_index (text_delta text) ∷ [], r)

abbrev pub count_chars : String → M (Unit {0})
count_chars text = modify (λ r. record r { output_chars = r.output_chars + len text })

unfoldable pub start_thinking_block : ℤ → M (Unit {0})
start_thinking_block summary_part r = (
  tt,
  content_block_start (pos r.next_index) thinking_block ∷ [],
  record r {
    thinking_index = pos r.next_index;
    next_index = suc r.next_index;
    thinking_active = true;
    thinking_summary_part = summary_part;
  },
)

abbrev pub closing_events : Reducer → List Sse
closing_events r =
    content_block_delta r.thinking_index (signature_delta open_ai_reasoning_summary_signature)
    ∷ content_block_stop r.thinking_index
    ∷ []

abbrev pub closed_thinking : Reducer → Reducer
closed_thinking r = record r {
  thinking_active = false;
  thinking_index = negsuc 0;
  visible_blocks = suc r.visible_blocks;
  thinking_blocks = suc r.thinking_blocks;
}

unfoldable pub close_thinking_block : M (Unit {0})
close_thinking_block r =
    if r.thinking_active then (tt, closing_events r, closed_thinking r) else (tt, [], r)

unfoldable pub thinking_delta_event : String → M (Unit {0})
thinking_delta_event text r = (
  tt,
  content_block_delta r.thinking_index (thinking_delta text) ∷ [],
  record r { thinking_saw_summary = true; output_chars = r.output_chars + len text },
)

unfoldable pub emit_thinking_summary_text : String → ℤ → M (Unit {0})
unfolding start_thinking_block thinking_delta_event
emit_thinking_summary_text text summary_part = if text == "" then skip else do
  active ← gets (λ r. r.thinking_active)
  when (not active) (start_thinking_block summary_part)
  thinking_delta_event text
