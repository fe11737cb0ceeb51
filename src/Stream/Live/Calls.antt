-- ===== src/Stream/Live/Calls.antt =====
-- The tool states keep the order of the events: what is said of a call without showing it.
use mathlib.Core.Path.{subst}
use claudodex.Common.{
  ℕ, ◌≡◌, refl, sym, ◌∙◌, ◌≢◌, String, Bool, true, Option, none, some, Option-cases, List, [], ◌∷◌,
  ◌++◌, inl, inr, ◌==◌, string_key, int_key, set, get_elem?,
}
use claudodex.Common.Int.{ℤ, pos}
use claudodex.Common.Dict.{lookup}
use claudodex.Json.{Fields, at, as_str}
use claudodex.Stream.{Reducer, ToolState, pure, modify}
use claudodex.Stream.Tools.{
  known_state, new_tool, found_or_new, ensure_tool_state, change_tool, set_item_id, set_call_id,
  set_name, apply_tool_fields, event_state, item_state, tool_state_for_event, tool_state_for_item,
}
use claudodex.Stream.Client.{
  Status, open_text, open_thinking, Client, update, update-other, accepts,
}
use claudodex.Stream.Slots.{ToolOk, Slots, Slots-add, Slots-change}
use claudodex.Stream.Live.{
  View, view, buffers, Live, at-Good, Holds, holds_bind, holds_skip, holds_gets, holds_if, Any,
}

-- A change of the states without an event.
pub states-Live :
    (v : View) (c : Client) (n : ℕ) (tools : List ToolState)
    → Live true v c
    → Slots (buffers v) n c.status tools
    → Live true (record v { next_index = n; tools = tools }) c
states-Live v c n tools h slots = record {
  v_started = h.v_started;
  v_done = h.v_done;
  started = h.started;
  closing = h.closing;
  ended = h.ended;
  text = h.text;
  text_at = h.text_at;
  thinking = h.thinking;
  thinking_at = h.thinking_at;
  search = h.search;
  slots = slots;
}

-- A change of the states with an event of the block `i`.
pub shown-Live :
    (v : View) (c : Client) (n i : ℕ) (a s : Status) (tools : List ToolState)
    → Live true v c
    → c.status (pos i) ≡ a
    → (a ≢ open_text) × (a ≢ open_thinking)
    → Slots (buffers v) n (update c.status (pos i) s) tools
    → Live true
        (record v { next_index = n; tools = tools })
        (record c { status = update c.status (pos i) s })
shown-Live v c n i a s tools h was ne slots = record {
  v_started = h.v_started;
  v_done = h.v_done;
  started = h.started;
  closing = h.closing;
  ended = h.ended;
  text = h.text;
  text_at = λ o. update-other c.status (pos i) v.text_index s a open_text was (h.text_at o) ne.0;
  thinking = h.thinking;
  thinking_at = λ o.
      update-other c.status (pos i) v.thinking_index s a open_thinking was (h.thinking_at o) ne.1;
  search = h.search;
  slots = slots;
}

-- What a state's place in the order depends on.
abbrev pub SamePlace : ToolState → ToolState → Type 0
SamePlace t u =
    (t.block_index ≡ u.block_index) × (t.active ≡ u.active) × (t.sent_start ≡ u.sent_start)

pub ToolOk-SamePlace :
    (buffer : Bool) (n : ℕ) (status : ℤ → Status) (t u : ToolState)
    → SamePlace u t
    → ToolOk buffer n status t
    → ToolOk buffer n status u
ToolOk-SamePlace buffer n status t u e (ToolOk.idle a b d) =
    ToolOk.idle (e.0 ∙ a) (e.1 ∙ b) (e.2 ∙ d)
ToolOk-SamePlace buffer n status t u e (ToolOk.held i a lt d b f) =
    ToolOk.held i (e.0 ∙ a) lt (e.2 ∙ d) (λ no_buffer. e.1 ∙ b no_buffer) f
ToolOk-SamePlace buffer n status t u e (ToolOk.shown i a lt d f) =
    ToolOk.shown i (e.0 ∙ a) lt (e.2 ∙ d) f

pub change_none :
    (r : Reducer) (k : ℕ) (f : ToolState → ToolState)
    → get_elem? r.tools k ≡ none
    → change_tool k f r ≡ r
change_none r k f e = rw (e, change_tool) refl

pub change_some :
    (r : Reducer) (k : ℕ) (f : ToolState → ToolState) (t : ToolState)
    → get_elem? r.tools k ≡ some t
    → change_tool k f r ≡ record r { tools = set r.tools k (f t) }
change_some r k f t e = rw (e, change_tool) refl

pub change-Live :
    (r : Reducer) (c : Client) (k : ℕ) (f : ToolState → ToolState)
    → ((t : ToolState) → SamePlace (f t) t)
    → Live true (view r) c
    → Live true (view (change_tool k f r)) c
change-Live r c k f same h = elim (Option-cases (get_elem? r.tools k)) [
  | inl e ↦ subst (λ x. Live true (view x) c) (sym (change_none r k f e)) h
  | inr (t, e) ↦
      subst (λ x. Live true (view x) c) (sym (change_some r k f t e))
        (states-Live (view r) c r.next_index (set r.tools k (f t)) h (
          Slots-change (buffers (view r)) r.next_index c.status r.tools k t (f t) h.slots e
            (same t).0
            (ToolOk-SamePlace (buffers (view r)) r.next_index c.status t (f t) (same t)
              (h.slots.each k t e))))
]

holds_change :
    (k : ℕ) (f : ToolState → ToolState) (g : Reducer → Reducer)
    → ((t : ToolState) → SamePlace (f t) t)
    → ((r : Reducer) → view (g r) ≡ view (change_tool k f r))
    → Holds (Unit {0}) Any (modify g) (λ a. Any)
unfolding accepts
holds_change k f g same quiet = record {
  go = λ r c h p. (c, refl, (rw (quiet r) (change-Live r c k f same h), tt));
}

holds_set_item_id : (k : ℕ) (id : String) → Holds (Unit {0}) Any (set_item_id k id) (λ a. Any)
holds_set_item_id k id = holds_if (id == "") holds_skip (
    holds_change k (λ (t : ToolState). record t { item_id = id }) _ (λ t. (refl, refl, refl))
      (λ r. refl))

holds_set_call_id : (k : ℕ) (id : String) → Holds (Unit {0}) Any (set_call_id k id) (λ a. Any)
holds_set_call_id k id = holds_if (id == "") holds_skip (
    holds_change k (λ (t : ToolState). record t { call_id = id }) _ (λ t. (refl, refl, refl))
      (λ r. refl))

holds_set_name : (k : ℕ) (name : String) → Holds (Unit {0}) Any (set_name k name) (λ a. Any)
holds_set_name k name = holds_if (name == "") holds_skip (
    holds_change k (λ (t : ToolState). record t { name = name }) _ (λ t. (refl, refl, refl))
      (λ r. refl))

holds_fields :
    (k : ℕ) (fs : Option Fields) → Holds (Unit {0}) Any (apply_tool_fields k fs) (λ a. Any)
unfolding apply_tool_fields
holds_fields k fs = holds_bind (holds_set_item_id k (as_str (at fs "id"))) (λ a.
    holds_bind (holds_set_item_id k (as_str (at fs "item_id"))) (λ b.
      holds_bind (holds_set_call_id k (as_str (at fs "call_id")))
        (λ d. holds_set_name k (as_str (at fs "name")))))

holds_ensure_state : (index : ℤ) → Holds ℕ Any (ensure_tool_state index) (λ k. Any)
unfolding ensure_tool_state accepts
holds_ensure_state index = record {
  go = λ r c h p. elim (Option-cases (lookup index r.tool_by_output)) [
    | inr (k, e) ↦
        at-Good c (λ k. Any) (ensure_tool_state index r) (k, [], r) (rw (e, ensure_tool_state) refl)
          (c, refl, (h, tt))
    | inl e ↦
        at-Good c (λ k. Any) (ensure_tool_state index r) (found_or_new index none r)
          (rw (e, ensure_tool_state) refl)
          (
            c,
            refl,
            (
              states-Live (view r) c r.next_index (r.tools ++ (new_tool index ∷ [])) h
                  (Slots-add (buffers (view r)) r.next_index c.status r.tools index h.slots),
              tt,
            ),
          )
  ];
}

holds_pure : {A : Type 0} (a : A) → Holds A Any (pure a) (λ a. Any)
unfolding accepts
holds_pure a = record { go = λ r c h p. (c, refl, (h, tt)) }

pub holds_event_state :
    (event : Option Fields) → Holds ℕ Any (tool_state_for_event event) (λ k. Any)
unfolding tool_state_for_event
holds_event_state event =
    holds_bind
      (holds_gets (known_state (as_str (at event "item_id")) (as_str (at event "call_id"))))
      (found _)
  where
    found : (index : ℤ) (known : Option ℕ) → Holds ℕ Any (event_state index event known) (λ k. Any)
    found index (some k) = holds_pure k
    found index none =
        holds_bind (holds_ensure_state index)
          (λ k. holds_bind (holds_fields k event) (λ a. holds_pure k))

pub holds_item_state :
    (event item : Option Fields) → Holds ℕ Any (tool_state_for_item event item) (λ k. Any)
unfolding tool_state_for_item
holds_item_state event item =
    holds_bind (holds_gets (known_state (as_str (at item "id")) (as_str (at item "call_id"))))
      (found _)
  where
    found : (index : ℤ) (known : Option ℕ) → Holds ℕ Any (item_state index item known) (λ k. Any)
    found index (some k) = holds_bind (holds_fields k item) (λ a. holds_pure k)
    found index none =
        holds_bind (holds_ensure_state index)
          (λ k. holds_bind (holds_fields k item) (λ a. holds_pure k))
