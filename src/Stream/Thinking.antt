-- ===== src/Stream/Thinking.antt =====
-- internal/convert/stream.go, the reasoning summary: how a text that arrives in pieces is cut into
-- thinking blocks, one for each titled section.
pub mod Rounds
pub mod Kept
use Prim.Native.String.{◌++◌}
use claudodex.Common.{
  ℕ, zero, suc, ◌+◌, ◌-◌, String, Bool, true, false, ◌&&◌, ◌||◌, not, Option, none, some, List, [],
  ◌∷◌, ltb, nat_eq, ◌==◌, string_key, if◌then◌else◌,
}
use claudodex.Common.Int.{ℤ, pos, ltb_ℤ}
use claudodex.Common.Text.{find_text, has_suffix, size, take_chars, drop_chars}
use claudodex.Json.{Json, Fields, at, as_map, as_list, string_field}
use claudodex.Stream.{Reducer, M, skip, ◌>>=◌, ◌>>◌, gets, modify}
use claudodex.Stream.Blocks.{when, close_thinking_block, emit_thinking_summary_text}

-- The first of "****" and "\n\n**"; at one position they cannot both stand.
abbrev earlier : Option ℕ → Option ℕ → Option ℕ
earlier none p = p
earlier (some a) none = some a
earlier (some a) (some p) = some (if ltb p a then p else a)

unfoldable pub delimiter : String → Option ℕ
delimiter pending = earlier (find_text "****" pending) (find_text "\n\n**" pending)

unfoldable pub ambiguous_thinking_suffix_bytes : String → ℕ
ambiguous_thinking_suffix_bytes text =
    if has_suffix text "\n\n*" || has_suffix text "***"
    then 3
    else if has_suffix text "\n\n" || has_suffix text "**"
    then 2
    else if has_suffix text "\n" || has_suffix text "*"
    then 1
    else 0

-- One round of `consumeThinkingSummary`: it stops, or emits `head` and goes on with `rest`; a title
-- also closes the block.
pub data Round : Type 0 where
  stop : Round
  title plain : (head rest : String) → Round

abbrev pub cut : String → ℕ → Round
cut pending n = if nat_eq n 0 then stop else plain (take_chars n pending) (drop_chars n pending)

abbrev pub round_at : Bool → String → Option ℕ → Round
round_at flush pending (some d) = title (take_chars (d + 2) pending) (drop_chars (d + 2) pending)
round_at flush pending none =
    cut pending (size pending - (if flush then 0 else ambiguous_thinking_suffix_bytes pending))

unfoldable pub next_round : Bool → String → Round
unfolding delimiter
next_round flush pending =
    if pending == "" then stop else round_at flush pending (delimiter pending)

abbrev pub set_pending : String → M (Unit {0})
set_pending rest = modify (λ r. record r { thinking_pending = rest })

abbrev pub add_pending : String → M (Unit {0})
add_pending text = modify (λ r. record r { thinking_pending = r.thinking_pending ++ text })

abbrev pub set_part : ℤ → M (Unit {0})
set_part summary_part = modify (λ r. record r { thinking_summary_part = summary_part })

abbrev pub later_part : ℤ → Reducer → Bool
later_part summary_part r = r.thinking_active && ltb_ℤ r.thinking_summary_part summary_part

-- What a round does; `next` is the rest of the loop.
abbrev pub run_round : M (Unit {0}) → ℤ → Round → M (Unit {0})
run_round next summary_part stop = skip
run_round next summary_part (title head rest) = do
  emit_thinking_summary_text head summary_part
  set_pending rest
  close_thinking_block
  next
run_round next summary_part (plain head rest) = do
  emit_thinking_summary_text head summary_part
  set_pending rest
  next

-- The loop, with fuel for its rounds: each one shortens the pending text.
unfoldable pub consume_from : ℕ → ℤ → Bool → M (Unit {0})
consume_from zero summary_part flush r = (tt, [], r)
consume_from (suc fuel) summary_part flush r =
    run_round (consume_from fuel summary_part flush) summary_part
      (next_round flush r.thinking_pending) r

unfoldable pub consume_thinking_summary : ℤ → Bool → M (Unit {0})
unfolding consume_from
consume_thinking_summary summary_part flush r =
    consume_from (suc (size r.thinking_pending)) summary_part flush r

unfoldable pub stop_thinking_block : M (Unit {0})
stop_thinking_block = do
  part ← gets (λ r. r.thinking_summary_part)
  consume_thinking_summary part true
  close_thinking_block

-- A summary text is ignored where text, a tool or a search already stands behind the thinking.
unfoldable pub ignores_thinking : Reducer → Bool
ignores_thinking r = r.text_active || ltb 0 r.tool_blocks || ltb r.thinking_blocks r.visible_blocks

unfoldable pub append_thinking_summary : String → ℤ → M (Unit {0})
append_thinking_summary text summary_part = do
  ignored ← gets (λ r. text == "" || ignores_thinking r)
  when (not ignored) (do
    later ← gets (later_part summary_part)
    when later stop_thinking_block
    add_pending text
    consume_thinking_summary summary_part false)

unfoldable pub start_thinking_summary_part : ℤ → M (Unit {0})
start_thinking_summary_part summary_part = do
  seen ← gets (λ r. not (ltb_ℤ r.thinking_summary_part summary_part))
  when (not seen)
      (do stop_thinking_block; modify (λ r. record r { thinking_summary_part = summary_part }))

unfoldable pub append_summary_parts : ℕ → List Json → M (Unit {0})
append_summary_parts index [] = skip
append_summary_parts index (raw ∷ parts) = do
  append_thinking_summary (string_field (at (as_map raw) "text")) (pos index)
  append_summary_parts (suc index) parts

unfoldable pub append_reasoning_item_summary : Option Fields → M (Unit {0})
unfolding append_summary_parts
append_reasoning_item_summary item = append_summary_parts 0 (as_list (at item "summary"))
