-- ===== src/Stream/Live/Handlers.antt =====
-- Every kind of event that carries content keeps the order of the events.
use claudodex.Common.{
  ℕ, ◌≡◌, refl, String, Bool, true, false, not, ◌&&◌, Option, Option-cases, [], inl, inr, ◌==◌,
  string_key, get_elem?,
}
use claudodex.Json.{Fields, Codec, at, string_field}
use claudodex.Stream.{Reducer, M, ◌>>◌, modify, WebSearch}
use claudodex.Stream.Blocks.{when, count_chars, ensure_text_block, stop_text_block, text_delta_only}
use claudodex.Stream.Thinking.{stop_thinking_block}
use claudodex.Stream.Tools.{start_tool_state, take_args}
use claudodex.Stream.Search.{
  flush_pending_web_search_output, change_search, has_pending_web_search_results, web_search_action,
  web_search_hits_from_action,
}
use claudodex.Stream.Items.{
  unsaid_text, note_thinking_delta, hold_text, note_text_delta, saw_delta_at, whole_args,
  over_limit, hold_item_text, note_search, count_use, refuse_search, output_text_from_item,
  finish_message_item, item_added, summary_delta, summary_done, text_delta_arrived, text_done,
  args_delta, args_done, message_after_search, message_done, call_done, search_done, item_done,
}
use claudodex.Stream.Live.{
  view, Holds, holds_bind, holds_skip, holds_when, holds_if, holds_gets, holds_quiet, holds_any,
  Any,
}
use claudodex.Stream.Live.Blocks.{holds_ensure_text, holds_text_delta, holds_stop_text}
use claudodex.Stream.Live.Summary.{holds_append_thinking, holds_item_summary, holds_stop_thinking}
use claudodex.Stream.Live.Searches.{
  holds_emit_use, holds_pending_results, holds_buffered_text, holds_flush,
}
use claudodex.Stream.Live.Hits.{holds_search_state, holds_item_hits}
use claudodex.Stream.Live.Calls.{holds_event_state, holds_item_state}
use claudodex.Stream.Live.Starts.{Begun, holds_start_state}
use claudodex.Stream.Live.Args.{holds_take_args}
use claudodex.Stream.Live.Stops.{holds_stop_state}

abbrev Free : Bool → Bool → Type 0
Free b t = Unit

abbrev Loose : Bool → Type 0
Loose t = Unit

thinking_over : Holds (Unit {0}) Any stop_thinking_block (λ a. Any)
thinking_over = holds_any holds_stop_thinking

flushed : Holds (Unit {0}) Any flush_pending_web_search_output (λ a. Any)
flushed = holds_flush Free (λ b t p. p)

text_open : Holds (Unit {0}) Any ensure_text_block (λ a. Any)
text_open = holds_any (holds_ensure_text Loose)

text_over : Holds (Unit {0}) Any stop_text_block (λ a. Any)
text_over = holds_any (holds_stop_text Loose)

-- A text block with a text in it.
texted :
    (text : String) → Holds (Unit {0}) Any (ensure_text_block >> text_delta_only text) (λ a. Any)
texted text = holds_bind (holds_ensure_text Loose) (λ a. holds_any (holds_text_delta Loose text))

counted : (text : String) → Holds (Unit {0}) Any (count_chars text) (λ a. Any)
counted text = holds_quiet (count_chars text) (λ r. (refl, refl))

holds_finish_item :
    (item : Option Fields) → Holds (Unit {0}) Any (finish_message_item item) (λ a. Any)
unfolding finish_message_item
holds_finish_item item =
    let text = output_text_from_item item in
    holds_bind (holds_gets (unsaid_text text)) (λ unsaid.
      holds_bind
        (holds_when unsaid (
          holds_bind (holds_ensure_text Loose)
            (λ a. holds_bind (holds_any (holds_text_delta Loose text)) (λ b. counted text))))
        (λ d. text_over))

pub holds_item_added :
    (event item : Option Fields) → Holds (Unit {0}) Any (item_added event item) (λ a. Any)
unfolding item_added
holds_item_added event item =
    holds_if _
      (holds_bind thinking_over (λ a.
        holds_bind (holds_gets has_pending_web_search_results)
          (λ pending. holds_when (not pending) text_open)))
      (holds_if _
        (holds_bind thinking_over (λ a.
          holds_bind flushed
            (λ b. holds_bind (holds_item_state event item) (λ k. holds_any (holds_start_state k)))))
        (holds_if _ (holds_bind (holds_search_state Any item) (λ k. holds_skip)) holds_skip))

pub holds_summary_delta :
    (event : Option Fields) → Holds (Unit {0}) Any (summary_delta event) (λ a. Any)
unfolding summary_delta
holds_summary_delta event = holds_when _ (
    holds_bind (holds_append_thinking _ _)
      (λ a. holds_quiet note_thinking_delta (λ r. (refl, refl))))

pub holds_summary_done :
    (event : Option Fields) → Holds (Unit {0}) Any (summary_done event) (λ a. Any)
unfolding summary_done
holds_summary_done event =
    holds_bind (holds_gets (λ r. r.thinking_saw_delta))
      (λ seen. holds_when (not seen) (holds_append_thinking _ _))

pub holds_text_arrived :
    (event : Option Fields) → Holds (Unit {0}) Any (text_delta_arrived event) (λ a. Any)
unfolding text_delta_arrived
holds_text_arrived event =
    let text = string_field (at event "delta") in
    holds_when _ (
      holds_bind (holds_gets has_pending_web_search_results) (λ pending.
        holds_if pending
          (holds_bind (holds_quiet (hold_text text) (λ r. (refl, refl))) (λ a. counted text))
          (holds_bind thinking_over (λ a. holds_bind (holds_ensure_text Loose) (λ b.
            holds_bind (holds_any (holds_text_delta Loose text)) (λ d.
              holds_bind (holds_quiet note_text_delta (λ r. (refl, refl))) (λ e. counted text)))))))

pub holds_text_done : Holds (Unit {0}) Any text_done (λ a. Any)
unfolding text_done
holds_text_done =
    holds_bind (holds_gets has_pending_web_search_results)
      (λ pending. holds_when (not pending) text_over)

holds_whole : (k : ℕ) (args : String) → Holds (Unit {0}) (Begun k) (whole_args k args) (λ a. Any)
holds_whole k args =
    holds_bind (holds_gets (saw_delta_at k)) (λ seen. taken (not (args == "") && not seen))
  where
    taken : (b : Bool) → Holds (Unit {0}) (Begun k) (when b (take_args k args)) (λ a. Any)
    taken true = holds_take_args k args
    taken false = holds_any holds_skip

-- A call that starts, with what follows.
begun_with :
    (k : ℕ) (m : M (Unit {0}))
    → Holds (Unit {0}) (Begun k) m (λ a. Any)
    → Holds (Unit {0}) Any (start_tool_state k >> m) (λ a. Any)
begun_with k m h = holds_bind (holds_start_state k) (λ a. h)

pub holds_args_delta : (event : Option Fields) → Holds (Unit {0}) Any (args_delta event) (λ a. Any)
unfolding args_delta
holds_args_delta event = holds_bind thinking_over (λ a.
    holds_bind (holds_event_state event)
      (λ k. begun_with k _ (taken k (not (string_field (at event "delta") == "")))))
  where
    taken :
        (k : ℕ) (b : Bool)
        → Holds
            (Unit {0})
            (Begun k)
            (when b (take_args k (string_field (at event "delta"))))
            (λ a. Any)
    taken k true = holds_take_args k _
    taken k false = holds_any holds_skip

pub holds_args_done : (event : Option Fields) → Holds (Unit {0}) Any (args_done event) (λ a. Any)
unfolding args_done
holds_args_done event = holds_bind thinking_over (λ a.
    holds_bind (holds_event_state event)
      (λ k. begun_with k _ (holds_whole k (string_field (at event "arguments")))))

holds_message_done : (item : Option Fields) → Holds (Unit {0}) Any (message_done item) (λ a. Any)
unfolding message_done message_after_search
holds_message_done item = holds_bind thinking_over (λ a.
    holds_bind (holds_gets has_pending_web_search_results) (λ pending.
      holds_if pending
        (holds_bind (holds_quiet (hold_item_text item) (λ r. (refl, refl))) (λ b.
          holds_bind (holds_item_hits Any item) (λ d.
            holds_bind (holds_pending_results Free) (λ e. holds_buffered_text Free (λ b t p. p)))))
        (holds_finish_item item)))

holds_call_done :
    (codec : Codec) (event item : Option Fields)
    → Holds (Unit {0}) Any (call_done codec event item) (λ a. Any)
unfolding call_done
holds_call_done codec event item = holds_bind thinking_over (λ a. holds_bind flushed (λ b.
    holds_bind (holds_item_state event item) (λ k. holds_bind (holds_start_state k) (λ d.
      holds_bind (holds_whole k (string_field (at item "arguments")))
        (λ e. holds_stop_state Free codec k)))))

-- A change of a search's state is not in the view.
search_changed :
    (k : ℕ) (f : WebSearch → WebSearch)
    → Holds (Unit {0}) Any (modify (change_search k f)) (λ a. Any)
search_changed k f = holds_quiet (modify (change_search k f)) (λ r. (refl, same r))
  where
    same : (r : Reducer) → view (change_search k f r) ≡ view r
    same r = elim (Option-cases (get_elem? r.web_searches k)) [
      | inl e ↦ rw (e, change_search) refl
      | inr (s, e) ↦ rw (e, change_search) refl
    ]

noted : (k : ℕ) (item : Option Fields) → Holds (Unit {0}) Any (note_search k item) (λ a. Any)
noted k item = search_changed k (λ (s : WebSearch). record s {
  query = (web_search_action item).1;
  found = web_search_hits_from_action item;
})

refused : (k : ℕ) → Holds (Unit {0}) Any (refuse_search k) (λ a. Any)
refused k =
    search_changed k (λ (s : WebSearch). record s { error_code = "max_uses_exceeded"; found = [] })

holds_search_done :
    (codec : Codec) (item : Option Fields)
    → Holds (Unit {0}) Any (search_done codec item) (λ a. Any)
unfolding search_done
holds_search_done codec item = holds_bind thinking_over (λ a. holds_bind text_over (λ b.
    holds_bind (holds_search_state Any item) (λ k.
      holds_when ((web_search_action item).0 == "search") (
        holds_bind (noted k item) (λ d. holds_bind (holds_quiet count_use (λ r. (refl, refl))) (λ e.
          holds_bind (holds_gets over_limit) (λ over.
            holds_bind (holds_when over (refused k)) (λ f. holds_emit_use Free codec k))))))))

pub holds_item_done :
    (codec : Codec) (event item : Option Fields)
    → Holds (Unit {0}) Any (item_done codec event item) (λ a. Any)
unfolding item_done
holds_item_done codec event item =
    holds_if _
      (holds_bind (holds_gets (λ r. r.thinking_saw_summary))
        (λ seen. holds_when (not seen) (holds_item_summary item)))
      (holds_if _ (holds_message_done item) (
        holds_if _ (holds_call_done codec event item)
          (holds_if _ (holds_search_done codec item) holds_skip)))
