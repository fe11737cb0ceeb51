-- ===== src/Stream/Live/Ends.antt =====
-- The end of a message, by its finish or by an error.
use claudodex.Common.{
  ℕ, ◌≡◌, refl, ◌∙◌, ◌⊎◌, String, Bool, true, false, Option, List, [], ◌∷◌, inl, inr, string_key,
  if◌then◌else◌,
}
use claudodex.Common.Int.{ℤ}
use claudodex.Json.{Fields, Codec, at, as_map}
use claudodex.Stream.{Reducer, M, ◌>>=◌, message_stop}
use claudodex.Stream.Failure.{ResponseFailure, error_events_with_type_and_failure}
use claudodex.Stream.Finish.{sort_by_output, stop_tools, end_message, finish}
use claudodex.Stream.Reduce.{
  completed, incomplete, dispatch, ask_follow_up, end_incomplete, is_visible,
}
use claudodex.Stream.Client.{
  Client, accept-close, accept-end, accept-error, accepts-append, accepts-one, accepts-cons,
}
use claudodex.Stream.Live.{
  View, view, Live, Live-receiving, After, Holds, holds_bind, holds_skip, holds_weaken, holds_gets,
  holds_quiet, Any, Flags,
}
use claudodex.Stream.Live.Blocks.{holds_stop_text}
use claudodex.Stream.Live.Summary.{holds_start_part, holds_stop_thinking}
use claudodex.Stream.Live.Searches.{holds_flush}
use claudodex.Stream.Live.Hits.{holds_add_hit}
use claudodex.Stream.Live.Stops.{holds_stop_state}
use claudodex.Stream.Live.Handlers.{
  holds_item_added, holds_summary_delta, holds_summary_done, holds_text_arrived, holds_text_done,
  holds_args_delta, holds_args_done, holds_item_done,
}

-- The message goes on, or the reducer is done.
abbrev pub Outcome : Reducer → Client → Type 0
Outcome r c = Live true (view r) c ⊎ ((r.done ≡ true) × (c.ended ≡ true))

-- A method that may end the message.
pub record Ends (P : View → Type 0) (m : M (Unit {0})) : Type 0 where
  pub go :
      (r : Reducer) (c : Client)
      → Live true (view r) c
      → P (view r)
      → After c (m r).1 (Outcome (m r).2)

Holds-Ends : {P : View → Type 0} {m : M (Unit {0})} → Holds (Unit {0}) P m (λ a. Any) → Ends P m
Holds-Ends h = record { go = λ r c live p. let x = h.go r c live p in (x.0, x.1, inl x.2.0) }

bind-Ends :
    {A : Type 0} {P : View → Type 0} {m : M A} {Q : A → View → Type 0} {f : A → M (Unit {0})}
    → Holds A P m Q
    → ((a : A) → Ends (Q a) (f a))
    → Ends P (m >>= f)
bind-Ends {m = m} {f = f} hm hf = record {
  go = λ r c h p.
      let x = hm.go r c h p in
      let y = (hf (m r).0).go (m r).2 x.0 x.2.0 x.2.1 in
      (y.0, accepts-append c (m r).1 (f (m r).0 (m r).2).1 x.0 x.1 ∙ y.1, y.2);
}

if-Ends :
    {P : View → Type 0} {m n : M (Unit {0})} (b : Bool)
    → Ends P m
    → Ends P n
    → Ends P (if b then m else n)
if-Ends true h k = h
if-Ends false h k = k

-- No block is open that must be closed.
abbrev Quiet : Bool → Bool → Type 0
Quiet b t = (b ≡ false) × (t ≡ false)

end_message-Ends :
    (event : Option Fields) (forced : String) → Ends (Flags Quiet) (end_message event forced)
unfolding end_message
end_message-Ends event forced = record {
  go = λ r c h p. (
    record c { closing = true; ended = true },
    accepts-cons c _ (message_stop ∷ []) (record c { closing = true })
          (accept-close c _ _ (Live-receiving h)
            (rw (h.text ∙ p.0, h.thinking ∙ p.1, h.search) refl))
        ∙ accepts-one (record c { closing = true }) message_stop _
            (accept-end (record c { closing = true }) refl h.ended),
    inr (refl, refl),
  );
}

holds_stop_tools :
    (codec : Codec) (states : List (ℤ × ℕ))
    → Holds (Unit {0}) (Flags Quiet) (stop_tools codec states) (λ a. Flags Quiet)
unfolding stop_tools
holds_stop_tools codec [] = holds_skip
holds_stop_tools codec ((i, k) ∷ states) =
    holds_bind (holds_stop_state Quiet codec k) (λ a. holds_stop_tools codec states)

finish-Ends :
    (codec : Codec) (event : Option Fields) (forced : String) → Ends Any (finish codec event forced)
unfolding finish
finish-Ends codec event forced = bind-Ends holds_stop_thinking (λ a.
    bind-Ends (holds_weaken (λ v p. p) (λ a v q. q) (holds_stop_text (λ t. t ≡ false))) (λ b.
      bind-Ends (holds_gets (λ r. sort_by_output r.tool_by_output)) (λ states.
        bind-Ends (holds_stop_tools codec states) (λ d.
          bind-Ends (holds_flush Quiet (λ b t p. (refl, p.1)))
            (λ e. end_message-Ends event forced)))))

-- An error ends the stream, whether or not the message has begun.
pub error_ends :
    (codec : Codec) (typ : String) (failure : ResponseFailure) (r : Reducer) (c : Client)
    → c.ended ≡ false
    → After c (error_events_with_type_and_failure codec typ failure r).1 (λ d.
      ((error_events_with_type_and_failure codec typ failure r).2.done ≡ true) × (d.ended ≡ true))
unfolding error_events_with_type_and_failure
error_ends codec typ failure r c live =
    (record c { ended = true }, accepts-one c _ _ (accept-error c _ _ live), (refl, refl))

error-Ends :
    (codec : Codec) (typ : String) (failure : ResponseFailure)
    → Ends Any (error_events_with_type_and_failure codec typ failure)
error-Ends codec typ failure = record {
  go = λ r c h p. let x = error_ends codec typ failure r c h.ended in (x.0, x.1, inr x.2);
}

completed-Ends : (codec : Codec) (event : Option Fields) → Ends Any (completed codec event)
unfolding completed
completed-Ends codec event =
    if-Ends _ (Holds-Ends (holds_quiet ask_follow_up (λ r. (refl, refl))))
      (finish-Ends codec event "")

end_incomplete-Ends :
    (codec : Codec) (event : Option Fields) (visible : Bool)
    → Ends Any (end_incomplete codec event visible)
end_incomplete-Ends codec event visible =
    if-Ends visible (finish-Ends codec event "max_tokens") (error-Ends codec _ _)

incomplete-Ends : (codec : Codec) (event : Option Fields) → Ends Any (incomplete codec event)
unfolding incomplete
incomplete-Ends codec event =
    if-Ends _ (error-Ends codec _ _)
      (bind-Ends (holds_gets is_visible) (λ visible. end_incomplete-Ends codec event visible))

pub dispatch-Ends :
    (codec : Codec) (event_type : String) (event : Option Fields)
    → Ends Any (dispatch codec event_type event)
unfolding dispatch
dispatch-Ends codec event_type event =
    let item = as_map (at event "item") in
    if-Ends _ (Holds-Ends (holds_item_added event item)) (
      if-Ends _ (Holds-Ends (holds_summary_delta event)) (
        if-Ends _ (Holds-Ends (holds_start_part _)) (
          if-Ends _ (Holds-Ends (holds_summary_done event)) (
            if-Ends _ (Holds-Ends (holds_text_arrived event)) (
              if-Ends _ (Holds-Ends holds_text_done) (
                if-Ends _ (Holds-Ends (holds_add_hit Any (as_map (at event "annotation")))) (
                  if-Ends _ (Holds-Ends (holds_args_delta event)) (
                    if-Ends _ (Holds-Ends (holds_args_done event)) (
                      if-Ends _ (Holds-Ends (holds_item_done codec event item)) (
                        if-Ends _ (completed-Ends codec event) (
                          if-Ends _ (incomplete-Ends codec event)
                            (if-Ends _ (error-Ends codec _ _) (Holds-Ends holds_skip)))))))))))))
