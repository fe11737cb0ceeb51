-- ===== src/Stream/Live/Whole.antt =====
-- Whole streams of events: from a new reducer on, a client allows every event.
use mathlib.Core.Path.{subst}
use claudodex.Common.{
  ◌≡◌, refl, sym, ap, ◌∙◌, String, Bool, true, false, Option, none, some, List, [], ◌++◌, ◌∷◌, inl,
  inr, arith, string_key, if◌then◌else◌,
}
use claudodex.Json.{Fields, Codec}
use claudodex.Stream.{Reducer, M, ◌>>◌, skip}
use claudodex.Stream.Counts.{usage_for_start}
use claudodex.Stream.Failure.{
  ResponseFailure, error_events_with_type_and_failure, error_from_payload,
}
use claudodex.Stream.Finish.{begin_message, message_id_for_start, ensure_started}
use claudodex.Stream.Reduce.{
  StreamReducerOptions, new_stream_reducer_with_options, dispatch, reduce_event, reduce_decoded,
  reduce_named, run, event_type_of,
}
use claudodex.Stream.Client.{Client, new_client, accepts, accept-begin, accepts-append, accepts-one}
use claudodex.Stream.Live.{View, view, Live, After}
use claudodex.Stream.Live.Handlers.{}
use claudodex.Stream.Live.Ends.{Outcome, error_ends, dispatch-Ends}

-- The reducer and its client between two events: before the message, within it, or after it.
pub data Phase (r : Reducer) (c : Client) : Type 0 where
  before : Live false (view r) c → Phase r c
  within : Live true (view r) c → Phase r c
  over : r.done ≡ true → c.ended ≡ true → Phase r c

phase_of : (r : Reducer) (c : Client) → Outcome r c → Phase r c
phase_of r c (inl h) = Phase.within h
phase_of r c (inr h) = Phase.over h.0 h.1

-- A method that leads from one phase to another.
record Steps (begun : Bool) (m : M (Unit {0})) : Type 0 where
  go : (r : Reducer) (c : Client) → Live begun (view r) c → After c (m r).1 (Phase (m r).2)

abbrev phase_at : (begun : Bool) (r : Reducer) (c : Client) → Live begun (view r) c → Phase r c
phase_at true r c h = Phase.within h
phase_at false r c h = Phase.before h

skip-Steps : (begun : Bool) → Steps begun skip
unfolding accepts
skip-Steps begun = record { go = λ r c h. (c, refl, phase_at begun r c h) }

error-Steps :
    (begun : Bool) (codec : Codec) (typ : String) (failure : ResponseFailure)
    → Steps begun (error_events_with_type_and_failure codec typ failure)
error-Steps begun codec typ failure = record {
  go = λ r c h.
      let x = error_ends codec typ failure r c h.ended in (x.0, x.1, Phase.over x.2.0 x.2.1);
}

if-Steps :
    {m n : M (Unit {0})} (begun b : Bool)
    → Steps begun m
    → Steps begun n
    → Steps begun (if b then m else n)
if-Steps begun true h k = h
if-Steps begun false h k = k

started-Live :
    (v : View) (c : Client)
    → Live false v c
    → Live true (record v { started = true }) (record c { started = true })
started-Live v c h = record {
  v_started = refl;
  v_done = h.v_done;
  started = refl;
  closing = h.closing;
  ended = h.ended;
  text = h.text;
  text_at = h.text_at;
  thinking = h.thinking;
  thinking_at = h.thinking_at;
  search = h.search;
  slots = h.slots;
}

-- After `ensureStarted` the message has begun.
start_message :
    (event : Option Fields) (begun : Bool) (r : Reducer) (c : Client)
    → Live begun (view r) c
    → After c (ensure_started event r).1 (Live true (view (ensure_started event r).2))
unfolding ensure_started accepts
start_message event true r c h =
    subst (λ x. After c x.1 (Live true (view x.2))) (sym (same event r h.v_started)) (c, refl, h)
  where
    same :
        (event : Option Fields) (r : Reducer)
        → r.started ≡ true
        → ensure_started event r ≡ (tt, [], r)
    same event r e = rw e refl
start_message event false r c h =
    subst (λ x. After c x.1 (Live true (view x.2))) (sym (new event r h.v_started))
      (
        record c { started = true },
        accepts-one c _ _ (
            accept-begin c (message_id_for_start r event) r.model (usage_for_start r event)
              h.started h.ended),
        started-Live (view r) c h,
      )
  where
    new :
        (event : Option Fields) (r : Reducer)
        → r.started ≡ false
        → ensure_started event r ≡ begin_message event r
    new event r e = rw e refl

dispatch-Steps :
    (codec : Codec) (event_type : String) (event : Option Fields) (begun : Bool)
    → Steps begun (ensure_started event >> dispatch codec event_type event)
dispatch-Steps codec event_type event begun = record {
  go = λ r c h.
      let x = start_message event begun r c h in
      let r' = (ensure_started event r).2 in
      let y = (dispatch-Ends codec event_type event).go r' x.0 x.2 tt in
      (
        y.0,
        accepts-append c (ensure_started event r).1 (dispatch codec event_type event r').1 x.0 x.1
            ∙ y.1,
        phase_of (dispatch codec event_type event r').2 y.0 y.2,
      );
}

event-Steps :
    (codec : Codec) (name : String) (event : Option Fields) (begun : Bool)
    → Steps begun (reduce_event codec name event)
unfolding reduce_event error_from_payload
event-Steps codec name event begun = if-Steps begun _ (skip-Steps begun) (
    if-Steps begun _ (error-Steps begun codec _ _)
      (dispatch-Steps codec (event_type_of name event) event begun))

decoded-Steps :
    (codec : Codec) (name : String) (decoded : Option (Option Fields)) (begun : Bool)
    → Steps begun (reduce_decoded codec name decoded)
decoded-Steps codec name none begun = error-Steps begun codec _ _
decoded-Steps codec name (some event) begun = event-Steps codec name event begun

not_done :
    (codec : Codec) (name raw : String) (r : Reducer)
    → r.done ≡ false
    → reduce_named codec name raw r ≡ reduce_decoded codec name (codec.decode_map raw) r
unfolding reduce_named
not_done codec name raw r e = rw e refl

reduce_named-done :
    (codec : Codec) (name raw : String) (r : Reducer)
    → r.done ≡ true
    → reduce_named codec name raw r ≡ (tt, [], r)
unfolding reduce_named
reduce_named-done codec name raw r e = rw e refl

run-done :
    (codec : Codec) (events : List (String × String)) (r : Reducer)
    → r.done ≡ true
    → run codec events r ≡ (tt, [], r)
unfolding run
run-done codec [] r e = refl
run-done codec ((name, raw) ∷ events) r e =
    ap (λ x. (tt, x.1 ++ (run codec events x.2).1, (run codec events x.2).2))
      (reduce_named-done codec name raw r e)
    ∙ run-done codec events r e

step :
    (codec : Codec) (name raw : String) (r : Reducer) (c : Client)
    → Phase r c
    → After c (reduce_named codec name raw r).1 (Phase (reduce_named codec name raw r).2)
unfolding accepts
step codec name raw r c (Phase.over e f) =
    subst (λ x. After c x.1 (Phase x.2)) (sym (reduce_named-done codec name raw r e))
      (c, refl, Phase.over e f)
step codec name raw r c (Phase.before h) =
    subst (λ x. After c x.1 (Phase x.2)) (sym (not_done codec name raw r h.v_done))
      ((decoded-Steps codec name (codec.decode_map raw) false).go r c h)
step codec name raw r c (Phase.within h) =
    subst (λ x. After c x.1 (Phase x.2)) (sym (not_done codec name raw r h.v_done))
      ((decoded-Steps codec name (codec.decode_map raw) true).go r c h)

run_from :
    (codec : Codec) (events : List (String × String)) (r : Reducer) (c : Client)
    → Phase r c
    → After c (run codec events r).1 (Phase (run codec events r).2)
unfolding run accepts
run_from codec [] r c h = (c, refl, h)
run_from codec ((name, raw) ∷ events) r c h =
    let x = step codec name raw r c h in
    let r' = (reduce_named codec name raw r).2 in
    let y = run_from codec events r' x.0 x.2 in
    (
      y.0,
      accepts-append c (reduce_named codec name raw r).1 (run codec events r').1 x.0 x.1 ∙ y.1,
      y.2,
    )

new_Live :
    (message_id model : String) (opts : StreamReducerOptions)
    → Live false (view (new_stream_reducer_with_options message_id model opts)) new_client
unfolding new_stream_reducer_with_options
new_Live message_id model opts = record {
  v_started = refl;
  v_done = refl;
  started = refl;
  closing = refl;
  ended = refl;
  text = refl;
  text_at = λ o. ground arith;
  thinking = refl;
  thinking_at = λ o. ground arith;
  search = refl;
  slots = record {
    unused = λ m le. refl;
    each = λ k t there. ground arith;
    apart = λ k l t u i a b d e. ground arith;
  };
}

phase_ended : (r : Reducer) (c : Client) → Phase r c → c.ended ≡ r.done
phase_ended r c (Phase.before h) = h.ended ∙ sym h.v_done
phase_ended r c (Phase.within h) = h.ended ∙ sym h.v_done
phase_ended r c (Phase.over e f) = f ∙ sym e

some_inj : {a b : Client} → Path (Option Client) (some a) (some b) → a ≡ b
some_inj e = ground (arith, e)

-- Whatever events a Codex stream has, well-formed or not and in any order, the events that a new reducer
-- emits for them stand in the order that `Client` states: no block outside the message, no index used
-- twice, at most one text, one thinking and one search block open at a time and none of these open at the
-- message's delta, and every delta in a block of its kind that is started and, but for a tool's, not yet
-- stopped. The end of the message or an error has been seen exactly if the reducer is done. It does not ask
-- that tool blocks are stopped.
pub run-accepted :
    (codec : Codec) (message_id model : String) (opts : StreamReducerOptions)
    (events : List (String × String))
    → (c : Client) × (accepts new_client
          (run codec events (new_stream_reducer_with_options message_id model opts)).1
        ≡ some c)
      × (c.ended
          ≡ (run codec events (new_stream_reducer_with_options message_id model opts)).2.done)
run-accepted codec message_id model opts events =
    let r = new_stream_reducer_with_options message_id model opts in
    let x = run_from codec events r new_client (Phase.before (new_Live message_id model opts)) in
    (x.0, x.1, phase_ended (run codec events r).2 x.0 x.2)

run-append :
    (codec : Codec) (es fs : List (String × String)) (r : Reducer)
    → (run codec es r).2.done ≡ true
    → run codec (es ++ fs) r ≡ run codec es r
unfolding run
run-append codec [] fs r e = run-done codec fs r e
run-append codec ((name, raw) ∷ es) fs r e =
    let next = reduce_named codec name raw r in
    ap (λ x. (tt, next.1 ++ x.1, x.2)) (run-append codec es fs next.2 e)

-- Once the client has seen the end of the message or an error, whatever events the Codex stream still
-- has add nothing to the message stream and change nothing in the reducer.
pub run-append_ended :
    (codec : Codec) (message_id model : String) (opts : StreamReducerOptions)
    (events more : List (String × String)) (c : Client)
    → accepts new_client
        (run codec events (new_stream_reducer_with_options message_id model opts)).1
      ≡ some c
    → c.ended ≡ true
    → run codec (events ++ more) (new_stream_reducer_with_options message_id model opts)
      ≡ run codec events (new_stream_reducer_with_options message_id model opts)
run-append_ended codec message_id model opts events more c seen ended =
    let r = new_stream_reducer_with_options message_id model opts in
    let (d, taken, agree) = run-accepted codec message_id model opts events in
    let same : d ≡ c = some_inj (sym taken ∙ seen) in
    run-append codec events more r (sym agree ∙ ap (λ (x : Client). x.ended) same ∙ ended)
