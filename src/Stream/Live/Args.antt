-- ===== src/Stream/Live/Args.antt =====
-- The arguments of a tool call keep the order of the events.
use mathlib.Core.Path.{subst}
use claudodex.Common.{
  ℕ, ◌≡◌, refl, sym, ap, ◌∙◌, String, Bool, true, false, not, some, Option-cases, [], ◌∷◌, inl, inr,
  arith, string_key, set, get_elem?, get_elem?-set_self,
}
use claudodex.Common.Int.{ℤ}
use claudodex.Stream.{Reducer, ToolState, modify, content_block_delta, input_json_delta}
use claudodex.Stream.Blocks.{when, count_chars}
use claudodex.Stream.Tools.{change_tool, should_buffer_tool_args, send_args, with_args, take_args}
use claudodex.Stream.Client.{
  Status, open_tool, closed_tool, Client, accepts, accept-delta, accepts-one,
}
use claudodex.Stream.Slots.{IsTool, ToolOk, Slots-change, exists_below}
use claudodex.Stream.Live.{
  View, view, buffers, Live, Live-receiving, at-Good, Holds, holds_bind, holds_skip,
  holds_gets-view, holds_quiet, holds_any, Any, Flags,
}
use claudodex.Stream.Live.Calls.{
  states-Live, change_none, change_some, change-Live, ToolOk-SamePlace,
}
use claudodex.Stream.Live.Starts.{Begun, written}

-- The state at `k` has shown its block, which has the index `z`.
abbrev pub Shown : ℕ → ℤ → (Bool → Bool → Type 0) → View → Type 0
Shown k z P v =
    ((t : ToolState) × (get_elem? v.tools k ≡ some t) × (t.block_index ≡ z) × (t.sent_start ≡ true))
    × Flags P v

-- The status of a block that was shown.
place :
    (b : Bool) (n : ℕ) (status : ℤ → Status) (t : ToolState)
    → ToolOk b n status t
    → t.sent_start ≡ true
    → IsTool (status t.block_index)
place b n status t (ToolOk.idle a d e) sent = absurd (ground (arith, e, sent))
place b n status t (ToolOk.held i a lt d e f) sent = absurd (ground (arith, d, sent))
place b n status t (ToolOk.shown i a lt d f) sent = subst (λ z. IsTool (status z)) (sym a) f

accept_args :
    (v : View) (c : Client) (t : ToolState) (args : String)
    → Live true v c
    → IsTool (c.status t.block_index)
    → accepts c (content_block_delta t.block_index (input_json_delta args) ∷ []) ≡ some c
accept_args v c t args h (inl o) =
    accepts-one c _ c
      (accept-delta c t.block_index (input_json_delta args) open_tool (Live-receiving h) o refl)
accept_args v c t args h (inr o) =
    accepts-one c _ c
      (accept-delta c t.block_index (input_json_delta args) closed_tool (Live-receiving h) o refl)

pub holds_send_args :
    (P : Bool → Bool → Type 0) (k : ℕ) (z : ℤ) (args : String)
    → Holds (Unit {0}) (Shown k z P) (send_args k args) (λ a. Shown k z P)
unfolding send_args
holds_send_args P k z args = record {
  go = λ r c h p.
      let t = p.0.0 in
      let t' = record t { sent_args = true } in
      at-Good c (λ a. Shown k z P) (send_args k args r)
        (
          tt,
          content_block_delta t.block_index (input_json_delta args) ∷ [],
          record r { tools = set r.tools k t' },
        )
        (rw (p.0.1, send_args) refl)
        (
          c,
          accept_args (view r) c t args h
              (place (buffers (view r)) r.next_index c.status t (h.slots.each k t p.0.1) p.0.3),
          (
            states-Live (view r) c r.next_index (set r.tools k t') h (
                Slots-change (buffers (view r)) r.next_index c.status r.tools k t t' h.slots p.0.1
                  refl
                  (ToolOk-SamePlace (buffers (view r)) r.next_index c.status t t' (refl, refl, refl)
                    (h.slots.each k t p.0.1))),
            (
              (t', get_elem?-set_self r.tools k t' (exists_below r.tools k t p.0.1), p.0.2, p.0.3),
              p.1,
            ),
          ),
        );
}

-- Without buffering the arguments of a call that has begun are shown.
holds_send_known :
    (k : ℕ) (args : String) (b : Bool)
    → Holds
        (Unit {0})
        (λ v. (buffers v ≡ b) × Begun k v)
        (when (not b) (send_args k args))
        (λ a. Any)
unfolding send_args accepts
holds_send_known k args true = holds_any holds_skip
holds_send_known k args false = record {
  go = λ r c h p. elim (Option-cases (get_elem? r.tools k)) [
    | inl e ↦
        at-Good c (λ a. Any) (send_args k args r) (tt, [], r) (rw (e, send_args) refl)
          (c, refl, (h, tt))
    | inr (t, e) ↦
        (holds_any (holds_send_args (λ a b. Unit) k t.block_index args)).go r c h
          ((t, e, refl, p.1 t e p.0), tt)
  ];
}

-- Arguments are noted in a state that stays in its place.
holds_note_args :
    (k : ℕ) (args : String)
    → Holds (Unit {0}) (Begun k) (modify (change_tool k (with_args args))) (λ a. Begun k)
unfolding accepts
holds_note_args k args = record {
  go = λ r c h p.
      (c, refl, (change-Live r c k (with_args args) (λ t. (refl, refl, refl)) h, kept r p));
}
  where
    kept : (r : Reducer) → Begun k (view r) → Begun k (view (change_tool k (with_args args) r))
    kept r p = elim (Option-cases (get_elem? r.tools k)) [
      | inl e ↦ subst (λ x. Begun k (view x)) (sym (change_none r k (with_args args) e)) p
      | inr (t, e) ↦
          subst (λ x. Begun k (view x)) (sym (change_some r k (with_args args) t e))
            (λ u hu unbuffered.
              ap (λ (x : ToolState). x.sent_start)
                (sym (written r.tools k t (with_args args t) u e hu))
              ∙ p t e unbuffered)
    ]

pub holds_take_args :
    (k : ℕ) (args : String) → Holds (Unit {0}) (Begun k) (take_args k args) (λ a. Any)
unfolding take_args should_buffer_tool_args
holds_take_args k args = holds_bind (holds_note_args k args) (λ a.
    holds_bind (holds_quiet (count_chars args) (λ r. (refl, refl)))
      (λ b. holds_bind (holds_gets-view buffers) (λ buffer. holds_send_known k args buffer)))
