-- ===== src/Stream/Counts/Totals.antt =====
-- What the token counts keep.
use claudodex.Common.{ℕ, ◌<◌, ◌≡◌, ◌≢◌, Option, arith, if◌then◌else◌}
use claudodex.Common.Int.{ℤ, pos, ◌+ℤ◌, ◌≤ℤ◌, ltb_ℤ, int_laws}
use claudodex.Json.{Fields}
use claudodex.Stream.{Reducer}
use claudodex.Stream.Counts.{
  split_cached, usage_input_tokens, estimate_visible_output_tokens, usage_for_finish,
}

-- Cached tokens are moved out of the input, not counted again: where the counts report some, the total
-- is the input and the tokens written to the cache, and else the separate count of cache reads joins.
pub split_cached_total :
    (input found creation read output : ℤ)
    → usage_input_tokens (split_cached input found creation read output)
      ≡ (if ltb_ℤ (pos 0) found then input +ℤ creation else input +ℤ creation +ℤ read)
unfolding split_cached usage_input_tokens
split_cached_total input found creation read output = grind int_laws

-- If the input and the cache reads that `split_cached` gets are not negative, neither are those that it
-- gives, and it gives no larger input.
pub split_cached_bounds :
    (input found creation read output : ℤ)
    → pos 0 ≤ℤ input
    → pos 0 ≤ℤ read
    → (pos 0 ≤ℤ (split_cached input found creation read output).input_tokens)
      × ((split_cached input found creation read output).input_tokens ≤ℤ input)
      × (pos 0 ≤ℤ (split_cached input found creation read output).cache_read_input_tokens)
unfolding split_cached
split_cached_bounds input found creation read output h l = grind int_laws

estimate_pos : (chars blocks : ℕ) → 0 < blocks → 0 < estimate_visible_output_tokens chars blocks
unfolding estimate_visible_output_tokens
estimate_pos chars blocks h = ground arith

-- A message that has shown a block never ends with an output count of zero.
pub usage_for_finish-nonzero :
    (r : Reducer) (event : Option Fields)
    → 0 < r.visible_blocks
    → (usage_for_finish r event).output_tokens ≢ pos 0
unfolding usage_for_finish
usage_for_finish-nonzero r event h e =
    ground (arith, estimate_pos r.output_chars r.visible_blocks h, e)
