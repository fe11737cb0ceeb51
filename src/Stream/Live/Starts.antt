-- ===== src/Stream/Live/Starts.antt =====
-- A tool call that starts keeps the order of the events.
use mathlib.Core.Path.{subst}
use claudodex.Common.{
  ℕ, suc, ◌≤◌, ◌<◌, ◌≡◌, refl, sym, ap, ◌∙◌, ◌⊎◌, Bool, true, false, some, Option-cases, List, [],
  ◌∷◌, Bool-cases, inl, inr, arith, set, set-set, get_elem?, get_elem?-set_self,
}
use claudodex.Common.Int.{ℤ, pos, ltb_ℤ}
use claudodex.Stream.{Reducer, Sse, ToolState, content_block_start}
use claudodex.Stream.Tools.{
  should_buffer_tool_args, shown_block, start_block_of, start_tool_block, with_index, with_active,
  activate, start_unless_buffered, start_tool_state,
}
use claudodex.Stream.Client.{
  Status, fresh, open_tool, Client, update, update_self, accepts, accept-start, accepts-one,
}
use claudodex.Stream.Slots.{ToolOk, Slots-put, Slots-change, exists_below, update-AgreeOff}
use claudodex.Stream.Live.{View, view, buffers, Live, Live-receiving, Good, at-Good, Holds, Any}
use claudodex.Stream.Live.Calls.{states-Live, shown-Live}

-- The call at `k` has shown its block, unless the reducer buffers.
abbrev pub Begun : ℕ → View → Type 0
Begun k v = (t : ToolState) → get_elem? v.tools k ≡ some t → buffers v ≡ false → t.sent_start ≡ true

-- The state at `k` after a write there.
pub written :
    (tools : List ToolState) (k : ℕ) (t t' u : ToolState)
    → get_elem? tools k ≡ some t
    → get_elem? (set tools k t') k ≡ some u
    → t' ≡ u
written tools k t t' u there hu =
    ground (arith, get_elem?-set_self tools k t' (exists_below tools k t there), hu)

-- The start of the block of a state `t` at `k` that has not shown it.
started : ℕ → ToolState → Reducer → Unit {0} × List Sse × Reducer
started k t r = (
  tt,
  content_block_start t.block_index (shown_block t) ∷ [],
  record r { tools = set r.tools k (record t { sent_start = true }) },
)

unless_buffered_true :
    (k : ℕ) (r : Reducer)
    → should_buffer_tool_args r ≡ true
    → start_unless_buffered k r ≡ (tt, [], r)
unless_buffered_true k r e = rw e refl

unless_buffered_false :
    (k : ℕ) (r : Reducer) (t : ToolState)
    → should_buffer_tool_args r ≡ false
    → get_elem? r.tools k ≡ some t
    → start_unless_buffered k r ≡ start_block_of k t r
unfolding start_tool_block
unless_buffered_false k r t e there = rw e (rw (there, start_tool_block) refl)

block_fresh :
    (k : ℕ) (r : Reducer) (t : ToolState)
    → t.sent_start ≡ false
    → start_block_of k t r ≡ started k t r
unfolding start_block_of started
block_fresh k r t e = rw e refl

block_shown :
    (k : ℕ) (r : Reducer) (t : ToolState) → t.sent_start ≡ true → start_block_of k t r ≡ (tt, [], r)
unfolding start_block_of
block_shown k r t e = rw e refl

-- The state `t` at `k` became `t1`, which has the fresh index `i`.
module _ (r r1 : Reducer) (c : Client) (k n i : ℕ) (t t1 : ToolState) (h : Live true (view r) c)
    (there : get_elem? r.tools k ≡ some t)
    (after : view r1 ≡ record (view r) { next_index = n; tools = set r.tools k t1 })
    (at : t1.block_index ≡ pos i) (unsent : t1.sent_start ≡ false) (le : r.next_index ≤ n)
    (lt : i < n) (mine : (t.block_index ≡ pos i) ⊎ (r.next_index ≤ i))
    (new : c.status (pos i) ≡ fresh) where
  there1 : get_elem? r1.tools k ≡ some t1
  there1 =
      subst (λ (v : View). get_elem? v.tools k ≡ some t1) (sym after)
        (get_elem?-set_self r.tools k t1 (exists_below r.tools k t there))

  held_back : buffers (view r) ≡ true → Good c (λ a. Begun k) (tt, [], r1)
  unfolding accepts
  held_back buffered = (
    c,
    refl,
    (
      subst (λ v. Live true v c) (sym after)
          (states-Live (view r) c n (set r.tools k t1) h (
            Slots-put (buffers (view r)) r.next_index n i c.status c.status r.tools k t t1 h.slots
              there at le lt mine (λ j ne. refl)
              (ToolOk.held i at lt unsent (λ no. absurd (ground (arith, buffered, no))) new))),
      subst (Begun k) (sym after) (λ u hu no. absurd (ground (arith, buffered, no))),
    ),
  )

  abbrev t2 : ToolState
  t2 = record t1 { sent_start = true }

  twice :
      view (record r1 { tools = set r1.tools k t2 })
      ≡ record (view r) { next_index = n; tools = set r.tools k t2 }
  twice =
      ap (λ (v : View). record v { tools = set v.tools k t2 }) after
      ∙ ap (λ l. record (view r) { next_index = n; tools = l }) (set-set r.tools k t1 t2)

  shown_now : Good c (λ a. Begun k) (started k t1 r1)
  unfolding started
  shown_now = (
    record c { status = update c.status (pos i) open_tool },
    accepts-one c _ _ (
        accept-start c t1.block_index (shown_block t1) (Live-receiving h) (ap c.status at ∙ new)
        ∙ ap (λ z. some (record c { status = update c.status z open_tool })) at),
    (
      subst (λ v. Live true v (record c { status = update c.status (pos i) open_tool })) (sym twice)
          (shown-Live (view r) c n i fresh open_tool (set r.tools k t2) h new
            (λ e. ground arith, λ e. ground arith)
            (Slots-put (buffers (view r)) r.next_index n i c.status
              (update c.status (pos i) open_tool) r.tools k t t2 h.slots there at le lt mine
              (update-AgreeOff i c.status open_tool)
              (ToolOk.shown i at lt refl (inl (update_self c.status (pos i) open_tool))))),
      subst (Begun k) (sym twice) (λ u hu no.
          ap (λ (x : ToolState). x.sent_start) (sym (written r.tools k t t2 u there hu))),
    ),
  )

  pub start_fresh : Good c (λ a. Begun k) (start_unless_buffered k r1)
  unfolding should_buffer_tool_args
  start_fresh = elim (Bool-cases (buffers (view r))) [
    | inl e ↦
        at-Good c (λ a. Begun k) (start_unless_buffered k r1) (tt, [], r1)
          (unless_buffered_true k r1 (ap buffers after ∙ e)) (held_back e)
    | inr e ↦
        at-Good c (λ a. Begun k) (start_unless_buffered k r1) (started k t1 r1)
          (unless_buffered_false k r1 t1 (ap buffers after ∙ e) there1 ∙ block_fresh k r1 t1 unsent)
          shown_now
  ]

-- A call that was stopped and is named again: its block was shown, and it only becomes active.
start_again :
    (r : Reducer) (c : Client) (k i : ℕ) (t : ToolState)
    → Live true (view r) c
    → get_elem? r.tools k ≡ some t
    → t.sent_start ≡ true
    → ToolOk (buffers (view r)) r.next_index c.status (record t { active = true })
    → Good c (λ a. Begun k) (start_unless_buffered k (with_active k t r))
unfolding should_buffer_tool_args accepts
start_again r c k i t h there sent ok =
    let t1 = record t { active = true } in
    let r1 = with_active k t r in
    at-Good c (λ a. Begun k) (start_unless_buffered k r1) (tt, [], r1)
      (elim (Bool-cases (buffers (view r))) [
        | inl e ↦ unless_buffered_true k r1 e
        | inr e ↦
            unless_buffered_false k r1 t1 e
              (get_elem?-set_self r.tools k t1 (exists_below r.tools k t there))
            ∙ block_shown k r1 t1 sent
      ])
      (
        c,
        refl,
        (
          states-Live (view r) c r.next_index (set r.tools k t1) h (
              Slots-change (buffers (view r)) r.next_index c.status r.tools k t t1 h.slots there
                refl ok),
          λ u hu no.
              ap (λ (x : ToolState). x.sent_start) (sym (written r.tools k t t1 u there hu)) ∙ sent,
        ),
      )

pos_not_negative : (i : ℕ) → ltb_ℤ (pos i) (pos 0) ≡ false
pos_not_negative i = ground arith

-- The activation of an inactive state, by its place.
start_inactive :
    (r : Reducer) (c : Client) (k : ℕ) (t : ToolState)
    → Live true (view r) c
    → get_elem? r.tools k ≡ some t
    → ToolOk (buffers (view r)) r.next_index c.status t
    → Good c (λ a. Begun k) (start_unless_buffered k (activate k t r))
unfolding activate
start_inactive r c k t h there (ToolOk.idle a b d) =
    at-Good c (λ a. Begun k) _ (start_unless_buffered k (with_index k t r))
      (ap (start_unless_buffered k) (rw a refl))
      (start_fresh r (with_index k t r) c k (suc r.next_index) r.next_index t
        (record t { block_index = pos r.next_index; active = true }) h there refl refl d
        (omega arith) (omega arith) (inr (omega arith)) (h.slots.unused r.next_index (omega arith)))
start_inactive r c k t h there (ToolOk.held i a lt d b f) =
    at-Good c (λ a. Begun k) _ (start_unless_buffered k (with_active k t r))
      (ap (start_unless_buffered k) (rw (ap (λ z. ltb_ℤ z (pos 0)) a ∙ pos_not_negative i) refl))
      (start_fresh r (with_active k t r) c k r.next_index i t (record t { active = true }) h there
        refl a d (omega arith) lt (inl a) f)
start_inactive r c k t h there (ToolOk.shown i a lt d f) =
    at-Good c (λ a. Begun k) _ (start_unless_buffered k (with_active k t r))
      (ap (start_unless_buffered k) (rw (ap (λ z. ltb_ℤ z (pos 0)) a ∙ pos_not_negative i) refl))
      (start_again r c k i t h there d (ToolOk.shown i a lt d f))

-- An active state has begun.
active_begun :
    (b : Bool) (n : ℕ) (status : ℤ → Status) (t : ToolState)
    → ToolOk b n status t
    → t.active ≡ true
    → b ≡ false
    → t.sent_start ≡ true
active_begun b n status t (ToolOk.idle a d e) on direct = absurd (ground (arith, d, on))
active_begun b n status t (ToolOk.held i a lt d e f) on direct =
    absurd (ground (arith, e direct, on))
active_begun b n status t (ToolOk.shown i a lt d f) on direct = d

pub holds_start_state : (k : ℕ) → Holds (Unit {0}) Any (start_tool_state k) (λ a. Begun k)
unfolding start_tool_state accepts
holds_start_state k = record {
  go = λ r c h p. elim (Option-cases (get_elem? r.tools k)) [
    | inl e ↦
        at-Good c (λ a. Begun k) (start_tool_state k r) (tt, [], r) (rw (e, start_tool_state) refl)
          (c, refl, (h, λ t there no. absurd (ground (arith, e, there))))
    | inr (t, e) ↦ elim (Bool-cases t.active) [
      | inl on ↦
          at-Good c (λ a. Begun k) (start_tool_state k r) (tt, [], r)
            (rw (e, start_tool_state) (rw on refl))
            (
              c,
              refl,
              (
                h,
                λ u there no.
                    active_begun _ r.next_index c.status u (h.slots.each k u there)
                      (ground (arith, e, there, on)) no,
              ),
            )
      | inr off ↦
          at-Good c (λ a. Begun k) (start_tool_state k r) (start_unless_buffered k (activate k t r))
            (rw (e, start_tool_state) (rw off refl))
            (start_inactive r c k t h e (h.slots.each k t e))
    ]
  ];
}
