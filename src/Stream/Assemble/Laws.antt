-- ===== src/Stream/Assemble/Laws.antt =====
-- What an assembled message says of the events: each block is read off from the events after its start.
use mathlib.Core.Path.{ap₂}
use mathlib.Core.List.{append-nil as append-nil_list}
use claudodex.Common.{
  String, ◌≡◌, refl, sym, ap, ◌∙◌, List, [], ◌∷◌, ◌++◌, length, ◌==◌, string_key, if◌then◌else◌,
}
use claudodex.Common.Outcome.{Outcome, ok, ◌>>=◌, unless}
use claudodex.Json.{Codec}
use claudodex.Stream.{
  zero_usage, Sse, message_start, content_block_start, content_block_delta, content_block_stop,
  message_delta, message_stop, error_event,
}
use claudodex.Stream.Assemble.{
  write_at, started_block, Assembly, assemble_events, Content, Message, message_of, or_claudodex,
  assemble_message,
}
use claudodex.Stream.Assemble.Described.{first_error, contents, last_id, last_stop}
use claudodex.Stream.Assemble.Fill.{
  contents_at, all_contents, contents_at-same, contents_at-write_at, length-write_at,
  contents_at_done, all_contents-start,
}

module _ (codec : Codec) where
  -- The message that the events describe, for the variables that the loop begins with.
  abbrev described : (model : String) → Assembly → List Sse → List Content → Outcome Sse Message
  described model a es content = unless (first_error es) (record {
    id = last_id a.message_id es;
    model = model;
    content = content;
    stop_reason = (last_stop (a.stop_reason, a.usage) es).0;
    usage = (last_stop (a.stop_reason, a.usage) es).1;
  })

  abbrev assembled : (model : String) → Assembly → List Sse → Outcome Sse Message
  assembled model a es = assemble_events a es >>= λ b. ok (message_of codec model b)

  assembled-described :
      (model : String) (a : Assembly) (es : List Sse)
      → assembled model a es ≡ described model a es (all_contents codec a.blocks es)
  unfolding assemble_events
  assembled-described model a [] =
      ap (described model a []) (
        contents_at_done codec 0 a.blocks ∙ sym (append-nil_list (contents_at codec 0 a.blocks [])))
  assembled-described model a (error_event type message ∷ es) = refl
  assembled-described model a (message_start id m usage ∷ es) =
      assembled-described model (record a { message_id = if id == "" then a.message_id else id }) es
      ∙ ap
          (λ cs.
            described model a (message_start id m usage ∷ es)
              (cs ++ contents codec (length a.blocks) es))
          (contents_at-same codec es (message_start id m usage ∷ es) 0 a.blocks (λ pick n le. refl))
  assembled-described model a (content_block_start i b ∷ es) =
      assembled-described model (record a { blocks = a.blocks ++ started_block b ∷ [] }) es
      ∙ ap (described model a (content_block_start i b ∷ es))
          (all_contents-start codec i b a.blocks es)
  assembled-described model a (content_block_delta i d ∷ es) =
      assembled-described model (record a { blocks = write_at i d a.blocks }) es
      ∙ ap₂ (λ cs n. described model a es (cs ++ contents codec n es))
          (contents_at-write_at codec i d a.blocks es) (length-write_at codec i d a.blocks)
  assembled-described model a (message_delta reason usage ∷ es) =
      assembled-described model (record a { stop_reason = reason; usage = usage }) es
      ∙ ap
          (λ cs.
            described model a (message_delta reason usage ∷ es)
              (cs ++ contents codec (length a.blocks) es))
          (contents_at-same codec es (message_delta reason usage ∷ es) 0 a.blocks
            (λ pick n le. refl))
  assembled-described model a (content_block_stop i ∷ es) =
      assembled-described model a es
      ∙ ap (λ cs. described model a es (cs ++ contents codec (length a.blocks) es))
          (contents_at-same codec es (content_block_stop i ∷ es) 0 a.blocks (λ pick n le. refl))
  assembled-described model a (message_stop ∷ es) =
      assembled-described model a es
      ∙ ap (λ cs. described model a es (cs ++ contents codec (length a.blocks) es))
          (contents_at-same codec es (message_stop ∷ es) 0 a.blocks (λ pick n le. refl))

-- `AssembleMessage` answers with the first error event, if there is one. Else its content has a block for
-- each start event, in order, with what the later deltas say whose index is the number of start events
-- before it, whatever index the start event itself has; its id and its stop are the last that the events
-- give.
pub assemble_message_lem :
    (codec : Codec) (message_id model : String) (events : List Sse)
    → assemble_message codec message_id model events
      ≡ unless (first_error events) (record {
        id = last_id (or_claudodex message_id) events;
        model = model;
        content = contents codec 0 events;
        stop_reason = (last_stop ("end_turn", zero_usage) events).0;
        usage = (last_stop ("end_turn", zero_usage) events).1;
      })
unfolding assemble_message
assemble_message_lem codec message_id model events =
    assembled-described codec model
      (record {
        message_id = or_claudodex message_id;
        blocks = [];
        stop_reason = "end_turn";
        usage = zero_usage;
      })
      events
