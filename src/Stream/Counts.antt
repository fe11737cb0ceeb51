-- ===== src/Stream/Counts.antt =====
-- internal/convert/stream.go, the token counts: `usageFromMap` and what the reducer does with it.
pub mod Totals
use claudodex.Common.{
  ℕ, ◌+◌, ◌/◌, String, ◌&&◌, Option, none, some, List, [], ◌∷◌, ltb, if◌then◌else◌,
}
use claudodex.Common.Int.{ℤ, pos, ◌+ℤ◌, ◌-ℤ◌, ltb_ℤ, eqb_ℤ}
use claudodex.Json.{Fields, field_at, at, as_map, int_field}
use claudodex.Stream.{Usage, zero_usage, Reducer}

unfoldable pub first_int_field : Option Fields → List String → ℤ
first_int_field none ks = pos 0
first_int_field (some fs) [] = pos 0
first_int_field (some fs) (k ∷ ks) =
    let v = int_field (field_at k fs) (pos 0) in
    let rest = first_int_field (some fs) ks in if ltb_ℤ (pos 0) v then v else rest

-- a, or b where a is nil
abbrev or_map : Option Fields → Option Fields → Option Fields
or_map none b = b
or_map (some fs) b = some fs

-- `input` after the fallback to total_tokens.
unfoldable pub input_or_total : (input output total : ℤ) → ℤ
input_or_total input output total =
    if eqb_ℤ input (pos 0) && ltb_ℤ (pos 0) total
    then (if ltb_ℤ (pos 0) output && ltb_ℤ output total then total -ℤ output else total)
    else input

-- The last part of `usageFromMap`: `found` is the number of cached tokens as the counts report it.
unfoldable pub split_cached : (input found creation read output : ℤ) → Usage
split_cached input found creation read output =
    let cached = if ltb_ℤ input found then input else found in
    if ltb_ℤ (pos 0) found
    then record {
      input_tokens = input -ℤ cached;
      cache_creation_input_tokens = creation;
      cache_read_input_tokens = cached;
      output_tokens = output;
    }
    else record {
      input_tokens = input;
      cache_creation_input_tokens = creation;
      cache_read_input_tokens = read;
      output_tokens = output;
    }

abbrev nonzero_or : ℤ → ℤ → ℤ
nonzero_or a b = if eqb_ℤ a (pos 0) then b else a

unfoldable pub usage_of_fields : Fields → Usage
unfolding first_int_field input_or_total split_cached
usage_of_fields fs =
    let given = int_field (field_at "input_tokens" fs) (pos 0) in
    let prompt = first_int_field (some fs) ("prompt_tokens" ∷ []) in
    let output = first_int_field (some fs) ("output_tokens" ∷ "completion_tokens" ∷ []) in
    let total = first_int_field (some fs) ("total_tokens" ∷ []) in
    let input = input_or_total (nonzero_or given prompt) output total in
    let details =
      or_map (as_map (field_at "input_tokens_details" fs))
        (as_map (field_at "prompt_tokens_details" fs)) in
    let detailed = first_int_field details ("cached_tokens" ∷ []) in
    let plain =
      first_int_field (some fs)
        ("cached_tokens" ∷ "cached_input_tokens" ∷ "input_cached_tokens" ∷ []) in
    split_cached input (nonzero_or detailed plain)
      (first_int_field (some fs) ("cache_creation_input_tokens" ∷ "cache_creation_tokens" ∷ []))
      (first_int_field (some fs) ("cache_read_input_tokens" ∷ "cache_read_tokens" ∷ [])) output

abbrev pub usage_from_map : Option Fields → Usage
usage_from_map none = zero_usage
usage_from_map (some fs) = usage_of_fields fs

unfoldable pub usage_from_event : Option Fields → Usage
usage_from_event event =
    usage_from_map
      (or_map (as_map (at (as_map (at event "response")) "usage")) (as_map (at event "usage")))

unfoldable pub usage_input_tokens : Usage → ℤ
usage_input_tokens u = u.input_tokens +ℤ u.cache_creation_input_tokens +ℤ u.cache_read_input_tokens

unfoldable pub usage_with_input_fallback : Usage → ℤ → Usage
usage_with_input_fallback u fallback =
    if eqb_ℤ (usage_input_tokens u) (pos 0) && ltb_ℤ (pos 0) fallback
    then record u { input_tokens = fallback }
    else u

unfoldable pub estimate_visible_output_tokens : (chars visible_blocks : ℕ) → ℕ
estimate_visible_output_tokens chars visible_blocks =
    if ltb 0 chars then (chars + 2) / 3 else if ltb 0 visible_blocks then 1 else 0

unfoldable pub usage_for_finish : Reducer → Option Fields → Usage
usage_for_finish r event =
    let u = usage_with_input_fallback (usage_from_event event) r.fallback_input_tokens in
    if ltb 0 r.visible_blocks && eqb_ℤ u.output_tokens (pos 0)
    then record u {
      output_tokens = pos (estimate_visible_output_tokens r.output_chars r.visible_blocks);
    }
    else u

unfoldable pub usage_for_start : Reducer → Option Fields → Usage
usage_for_start r event =
    let u = usage_from_event event in
    let v =
      if eqb_ℤ (usage_input_tokens u) (pos 0)
        && ltb_ℤ (pos 0) (usage_input_tokens r.initial_input_usage)
      then r.initial_input_usage
      else u in
    let w = usage_with_input_fallback v r.fallback_input_tokens in
    record w { output_tokens = pos 0 }
