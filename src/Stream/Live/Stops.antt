-- ===== src/Stream/Live/Stops.antt =====
-- The end of a tool call keeps the order of the events.
use mathlib.Core.Path.{subst}
use claudodex.Common.{
  ℕ, ◌<◌, ◌≡◌, refl, sym, ap, ◌∙◌, Bool, true, false, not, ◌&&◌, some, Option-cases, [], ◌∷◌,
  Bool-cases, inl, inr, arith, ◌==◌, string_key, set, set-get_elem?, get_elem?, get_elem?-set_self,
}
use claudodex.Common.Int.{ℤ, pos}
use claudodex.Json.{Codec}
use claudodex.Stream.{ToolState, emit, content_block_start, content_block_stop}
use claudodex.Stream.Tools.{
  should_buffer_tool_args, shown_block, start_block_of, start_tool_block, send_args, send_final,
  stopped, stop_block_of, stop_tool_state, tool_args,
}
use claudodex.Stream.Client.{
  Status, fresh, open_tool, closed_tool, Client, update, update_self, accepts, accept-start,
  accept-stop, accepts-one,
}
use claudodex.Stream.Slots.{
  IsTool, ToolOk, Slots, Slots-put, Slots-change, exists_below, update-AgreeOff,
}
use claudodex.Stream.Live.{
  View, view, buffers, Live, Live-receiving, at-Good, Holds, holds_bind, Flags,
}
use claudodex.Stream.Live.Calls.{states-Live, shown-Live}
use claudodex.Stream.Live.Args.{Shown, holds_send_args}

-- The state at `k` has the index `i`.
abbrev Placed : ℕ → ℕ → (Bool → Bool → Type 0) → View → Type 0
Placed k i P v =
    ((t : ToolState) × (get_elem? v.tools k ≡ some t) × (t.block_index ≡ pos i)) × Flags P v

-- A state that was not shown, with an index: nobody has seen it.
unseen :
    (b : Bool) (n i : ℕ) (status : ℤ → Status) (t : ToolState)
    → ToolOk b n status t
    → t.block_index ≡ pos i
    → t.sent_start ≡ false
    → (i < n) × (status (pos i) ≡ fresh)
unseen b n i status t (ToolOk.idle a d e) at unsent = absurd (ground (arith, a, at))
unseen b n i status t (ToolOk.held j a lt d e f) at unsent =
    subst (λ (m : ℕ). (m < n) × (status (pos m) ≡ fresh)) (ground (arith, a, at)) (lt, f)
unseen b n i status t (ToolOk.shown j a lt d f) at unsent = absurd (ground (arith, d, unsent))

holds_start_block :
    (P : Bool → Bool → Type 0) (k i : ℕ)
    → Holds (Unit {0}) (Placed k i P) (start_tool_block k) (λ a. Shown k (pos i) P)
unfolding start_tool_block start_block_of accepts
holds_start_block P k i = record {
  go = λ r c h p.
      let t = p.0.0 in
      elim (Bool-cases t.sent_start) [
        | inl sent ↦
            at-Good c (λ a. Shown k (pos i) P) (start_tool_block k r) (tt, [], r)
              (rw (p.0.1, start_tool_block) (rw sent refl))
              (c, refl, (h, ((t, p.0.1, p.0.2, sent), p.1)))
        | inr unsent ↦
            let t' = record t { sent_start = true } in
            let new =
              unseen (buffers (view r)) r.next_index i c.status t (h.slots.each k t p.0.1) p.0.2
                unsent in
            let d = record c { status = update c.status (pos i) open_tool } in
            at-Good c (λ a. Shown k (pos i) P) (start_tool_block k r)
              (
                tt,
                content_block_start t.block_index (shown_block t) ∷ [],
                record r { tools = set r.tools k t' },
              )
              (rw (p.0.1, start_tool_block) (rw unsent refl))
              (
                d,
                accepts-one c (content_block_start t.block_index (shown_block t)) d (
                    accept-start c t.block_index (shown_block t) (Live-receiving h)
                      (ap c.status p.0.2 ∙ new.1)
                    ∙ ap (λ z. some (record c { status = update c.status z open_tool })) p.0.2),
                (
                  shown-Live (view r) c r.next_index i fresh open_tool (set r.tools k t') h new.1
                      (λ e. ground arith, λ e. ground arith)
                      (Slots-put (buffers (view r)) r.next_index r.next_index i c.status
                        (update c.status (pos i) open_tool) r.tools k t t' h.slots p.0.1 p.0.2
                        (omega arith) new.0 (inl p.0.2) (update-AgreeOff i c.status open_tool)
                        (ToolOk.shown i p.0.2 new.0 refl
                          (inl (update_self c.status (pos i) open_tool)))),
                  (
                    (
                      t',
                      get_elem?-set_self r.tools k t' (exists_below r.tools k t p.0.1),
                      p.0.2,
                      refl,
                    ),
                    p.1,
                  ),
                ),
              )
      ];
}

holds_send_final :
    (P : Bool → Bool → Type 0) (codec : Codec) (k : ℕ) (t : ToolState) (z : ℤ)
    → Holds (Unit {0}) (Shown k z P) (send_final codec k t) (λ a. Shown k z P)
unfolding accepts
holds_send_final P codec k t z = record {
  go = λ r c h p.
      elim (Bool-cases
        (should_buffer_tool_args r && not t.sent_args && not (tool_args codec r t == ""))) [
          | inl e ↦
              at-Good c (λ a. Shown k z P) (send_final codec k t r)
                (send_args k (tool_args codec r t) r) (rw e refl)
                ((holds_send_args P k z (tool_args codec r t)).go r c h p)
          | inr e ↦
              at-Good c (λ a. Shown k z P) (send_final codec k t r) (tt, [], r) (rw e refl)
                (c, refl, (h, p))
        ];
}

-- The stop of a shown block.
stop_at :
    (v : View) (c : Client) (i : ℕ) (t : ToolState) (k : ℕ)
    → Live true v c
    → get_elem? v.tools k ≡ some t
    → t.block_index ≡ pos i
    → t.sent_start ≡ true
    → i < v.next_index
    → IsTool (c.status (pos i))
    → (d : Client) × (accepts c (content_block_stop (pos i) ∷ []) ≡ some d) × Live true v d
stop_at v c i t k h there at sent lt (inl o) =
    let d = record c { status = update c.status (pos i) closed_tool } in
    (
      d,
      accepts-one c (content_block_stop (pos i)) d
          (accept-stop c (pos i) open_tool (Live-receiving h) o),
      shown-Live v c v.next_index i open_tool closed_tool v.tools h o
          (λ e. ground arith, λ e. ground arith)
          (subst (Slots (buffers v) v.next_index (update c.status (pos i) closed_tool))
            (set-get_elem? v.tools k t there)
            (Slots-put (buffers v) v.next_index v.next_index i c.status
              (update c.status (pos i) closed_tool) v.tools k t t h.slots there at (omega arith) lt
              (inl at) (update-AgreeOff i c.status closed_tool)
              (ToolOk.shown i at lt sent (inr (update_self c.status (pos i) closed_tool))))),
    )
stop_at v c i t k h there at sent lt (inr o) = (
  c,
  accepts-one c (content_block_stop (pos i)) c
      (accept-stop c (pos i) closed_tool (Live-receiving h) o),
  h,
)

shown_status :
    (b : Bool) (n i : ℕ) (status : ℤ → Status) (t : ToolState)
    → ToolOk b n status t
    → t.block_index ≡ pos i
    → t.sent_start ≡ true
    → (i < n) × IsTool (status (pos i))
shown_status b n i status t (ToolOk.idle a d e) at sent = absurd (ground (arith, a, at))
shown_status b n i status t (ToolOk.held j a lt d e f) at sent = absurd (ground (arith, d, sent))
shown_status b n i status t (ToolOk.shown j a lt d f) at sent =
    subst (λ (m : ℕ). (m < n) × IsTool (status (pos m))) (ground (arith, a, at)) (lt, f)

holds_stop_at :
    (P : Bool → Bool → Type 0) (k i : ℕ)
    → Holds (Unit {0}) (Shown k (pos i) P) (emit (content_block_stop (pos i) ∷ [])) (λ a. Flags P)
holds_stop_at P k i = record {
  go = λ r c h p.
      let t = p.0.0 in
      let s =
        shown_status (buffers (view r)) r.next_index i c.status t (h.slots.each k t p.0.1) p.0.2
          p.0.3 in
      let x = stop_at (view r) c i t k h p.0.1 p.0.2 p.0.3 s.0 s.1 in (x.0, x.1, (x.2, p.1));
}

-- An active state becomes inactive in its place.
holds_stopped :
    (P : Bool → Bool → Type 0) (k i : ℕ) (t : ToolState)
    → t.block_index ≡ pos i
    → Holds
        (Unit {0})
        (λ v. (get_elem? v.tools k ≡ some t) × Flags P v)
        (stopped k t)
        (λ a. Placed k i P)
unfolding accepts
holds_stopped P k i t at = record {
  go = λ r c h p.
      let t' = record t { active = false } in
      (
        c,
        refl,
        (
          states-Live (view r) c r.next_index (set r.tools k t') h (
              Slots-change (buffers (view r)) r.next_index c.status r.tools k t t' h.slots p.0 refl
                (inactive (buffers (view r)) r.next_index c.status t (h.slots.each k t p.0))),
          ((t', get_elem?-set_self r.tools k t' (exists_below r.tools k t p.0), at), p.1),
        ),
      );
}
  where
    inactive :
        (b : Bool) (n : ℕ) (status : ℤ → Status) (u : ToolState)
        → ToolOk b n status u
        → ToolOk b n status (record u { active = false })
    inactive b n status u (ToolOk.idle a d e) = ToolOk.idle a refl e
    inactive b n status u (ToolOk.held j a lt d e f) = ToolOk.held j a lt d (λ direct. refl) f
    inactive b n status u (ToolOk.shown j a lt d f) = ToolOk.shown j a lt d f

holds_stop_block :
    (P : Bool → Bool → Type 0) (codec : Codec) (k i : ℕ) (t : ToolState)
    → t.block_index ≡ pos i
    → Holds
        (Unit {0})
        (λ v. (get_elem? v.tools k ≡ some t) × Flags P v)
        (stop_block_of codec k t)
        (λ a. Flags P)
unfolding stop_block_of
holds_stop_block P codec k i t at = holds_bind (holds_stopped P k i t at) (λ a.
    holds_bind (holds_start_block P k i) (λ b.
      holds_bind (holds_send_final P codec k t (pos i)) (λ d.
        subst
          (λ z.
            Holds (Unit {0}) (Shown k (pos i) P) (emit (content_block_stop z ∷ [])) (λ a. Flags P))
          (sym at) (holds_stop_at P k i))))

-- An active state has an index.
active_index :
    (b : Bool) (n : ℕ) (status : ℤ → Status) (t : ToolState)
    → ToolOk b n status t
    → t.active ≡ true
    → (i : ℕ) × (t.block_index ≡ pos i)
active_index b n status t (ToolOk.idle a d e) on = absurd (ground (arith, d, on))
active_index b n status t (ToolOk.held i a lt d e f) on = (i, a)
active_index b n status t (ToolOk.shown i a lt d f) on = (i, a)

pub holds_stop_state :
    (P : Bool → Bool → Type 0) (codec : Codec) (k : ℕ)
    → Holds (Unit {0}) (Flags P) (stop_tool_state codec k) (λ a. Flags P)
unfolding stop_tool_state accepts
holds_stop_state P codec k = record {
  go = λ r c h p. elim (Option-cases (get_elem? r.tools k)) [
    | inl e ↦
        at-Good c (λ a. Flags P) (stop_tool_state codec k r) (tt, [], r)
          (rw (e, stop_tool_state) refl) (c, refl, (h, p))
    | inr (t, e) ↦ elim (Bool-cases t.active) [
      | inr off ↦
          at-Good c (λ a. Flags P) (stop_tool_state codec k r) (tt, [], r)
            (rw (e, stop_tool_state) (rw off refl)) (c, refl, (h, p))
      | inl on ↦
          let x = active_index (buffers (view r)) r.next_index c.status t (h.slots.each k t e) on in
          at-Good c (λ a. Flags P) (stop_tool_state codec k r) (stop_block_of codec k t r)
            (rw (e, stop_tool_state) (rw on refl))
            ((holds_stop_block P codec k x.0 t x.1).go r c h (e, p))
    ]
  ];
}
