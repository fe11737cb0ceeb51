-- ===== src/Stream/Live/Summary.antt =====
-- The reasoning summary keeps the order of the events.
use claudodex.Common.{
  ℕ, zero, suc, refl, String, Bool, true, false, not, Option, List, [], ◌∷◌, ◌==◌, string_key,
}
use claudodex.Common.Int.{ℤ, pos}
use claudodex.Common.Text.{size}
use claudodex.Json.{Json, Fields}
use claudodex.Stream.{M}
use claudodex.Stream.Blocks.{emit_thinking_summary_text}
use claudodex.Stream.Thinking.{
  set_pending, add_pending, set_part, later_part, Round, run_round, next_round, consume_from,
  consume_thinking_summary, stop_thinking_block, append_thinking_summary,
  start_thinking_summary_part, append_summary_parts, append_reasoning_item_summary,
}
use claudodex.Stream.Client.{accepts}
use claudodex.Stream.Live.{
  Holds, holds_bind, holds_skip, holds_weaken, holds_when, holds_quiet, holds_gets, holds_gets-view,
  holds_if, holds_any, Any,
}
use claudodex.Stream.Live.Blocks.{
  Thinks, holds_open_thinking, holds_thinking_delta, holds_close_thinking,
}

pub holds_emit_thinking :
    (text : String) (part : ℤ)
    → Holds (Unit {0}) Any (emit_thinking_summary_text text part) (λ a. Any)
unfolding emit_thinking_summary_text
holds_emit_thinking text part = holds_if (text == "") holds_skip (
    holds_bind (holds_gets-view (λ v. v.thinking_active)) (λ b.
      holds_bind (holds_weaken (λ v q. q.0) (λ a v q. q) (holds_open_thinking part b))
        (λ u. holds_any (holds_thinking_delta text))))

holds_round :
    (next : M (Unit {0})) (part : ℤ) (x : Round)
    → Holds (Unit {0}) Any next (λ a. Any)
    → Holds (Unit {0}) Any (run_round next part x) (λ a. Any)
holds_round next part Round.stop h = holds_skip
holds_round next part (Round.title head rest) h = holds_bind (holds_emit_thinking head part) (λ a.
    holds_bind (holds_quiet (set_pending rest) (λ r. (refl, refl)))
      (λ b. holds_bind (holds_any holds_close_thinking) (λ d. h)))
holds_round next part (Round.plain head rest) h =
    holds_bind (holds_emit_thinking head part)
      (λ a. holds_bind (holds_quiet (set_pending rest) (λ r. (refl, refl))) (λ b. h))

holds_consume_from :
    (fuel : ℕ) (part : ℤ) (flush : Bool)
    → Holds (Unit {0}) Any (consume_from fuel part flush) (λ a. Any)
unfolding consume_from accepts
holds_consume_from zero part flush = holds_skip
holds_consume_from (suc fuel) part flush = record {
  go = λ r c h p.
      (holds_round (consume_from fuel part flush) part (next_round flush r.thinking_pending)
          (holds_consume_from fuel part flush)).go
        r c h p;
}

pub holds_consume :
    (part : ℤ) (flush : Bool)
    → Holds (Unit {0}) Any (consume_thinking_summary part flush) (λ a. Any)
unfolding consume_thinking_summary
holds_consume part flush = record {
  go = λ r c h p. (holds_consume_from (suc (size r.thinking_pending)) part flush).go r c h p;
}

pub holds_stop_thinking : Holds (Unit {0}) Any stop_thinking_block (λ a. Thinks false)
unfolding stop_thinking_block
holds_stop_thinking =
    holds_bind (holds_gets _)
      (λ part. holds_bind (holds_consume part true) (λ a. holds_close_thinking))

pub holds_append_thinking :
    (text : String) (part : ℤ) → Holds (Unit {0}) Any (append_thinking_summary text part) (λ a. Any)
unfolding append_thinking_summary
holds_append_thinking text part = holds_bind (holds_gets _) (λ ignored. holds_when (not ignored) (
    holds_bind (holds_gets (later_part part)) (λ later.
      holds_bind (holds_when later (holds_any holds_stop_thinking)) (λ a.
        holds_bind (holds_quiet (add_pending text) (λ r. (refl, refl)))
          (λ b. holds_consume part false)))))

pub holds_start_part :
    (part : ℤ) → Holds (Unit {0}) Any (start_thinking_summary_part part) (λ a. Any)
unfolding start_thinking_summary_part
holds_start_part part = holds_bind (holds_gets _) (λ seen. holds_when (not seen) (
    holds_bind (holds_any holds_stop_thinking)
      (λ a. holds_quiet (set_part part) (λ r. (refl, refl)))))

holds_parts :
    (index : ℕ) (parts : List Json)
    → Holds (Unit {0}) Any (append_summary_parts index parts) (λ a. Any)
unfolding append_summary_parts
holds_parts index [] = holds_skip
holds_parts index (raw ∷ parts) =
    holds_bind (holds_append_thinking _ (pos index)) (λ a. holds_parts (suc index) parts)

pub holds_item_summary :
    (item : Option Fields) → Holds (Unit {0}) Any (append_reasoning_item_summary item) (λ a. Any)
unfolding append_reasoning_item_summary
holds_item_summary item = holds_parts 0 _
