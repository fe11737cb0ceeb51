-- ===== src/Stream/Finish/Stops.antt =====
-- The tool blocks at the end of a message (`finish` of internal/convert/stream.go).
use mathlib.Core.List.{Memᴰ}
use mathlib.Core.Path.{subst}
use mathlib.Core.List.Memᴰ
use claudodex.Common.{
  ℕ, String, ◌≡◌, sym, ap, ◌∙◌, Bool, true, false, inl, inr, Option, none, some, List, [], ◌∷◌,
  string_key, if◌then◌else◌,
}
use claudodex.Common.Int.{ℤ, ltb_ℤ}
use claudodex.Json.{Fields, Codec}
use claudodex.Stream.{Reducer, ◌>>◌, content_block_stop}
use claudodex.Stream.Tools.{stop_tool_state}
use claudodex.Stream.Search.{flush_pending_web_search_output}
use claudodex.Stream.Blocks.{stop_text_block}
use claudodex.Stream.Thinking.{stop_thinking_block}
use claudodex.Stream.Finish.{insert_by_output, sort_by_output, stop_tools, end_message, finish}
use claudodex.Stream.Finish.State.{
  Closed, left-Closed, right-Closed, stop_state_self, stop_state_cases,
}
use claudodex.Stream.Finish.Calm.{
  open_at, bind-Calm, stop_text-Calm, stop_thinking-Calm, flush-Calm, end-Calm,
}

stop_tools-shut :
    (codec : Codec) (ps : List (ℤ × ℕ)) (k : ℕ) (r : Reducer)
    → open_at r.tools k ≡ none
    → open_at (stop_tools codec ps r).2.tools k ≡ none
unfolding stop_tools
stop_tools-shut codec [] k r shut = shut
stop_tools-shut codec ((i, l) ∷ ps) k r shut =
    stop_tools-shut codec ps k (stop_tool_state codec l r).2
      (elim (stop_state_cases codec l k r) [ inl h ↦ h.0 | inr e ↦ e ∙ shut ])

stop_tools-Closed :
    (codec : Codec) (ps : List (ℤ × ℕ)) (i : ℤ) (k : ℕ) (r : Reducer)
    → Memᴰ (i, k) ps
    → Closed k r (stop_tools codec ps r)
unfolding stop_tools
stop_tools-Closed codec [] i k r m = absurd (Memᴰ.not-nil m)
stop_tools-Closed codec ((j, l) ∷ ps) i k r m = elim (stop_state_cases codec l k r) [
  | inl h ↦ first h
  | inr e ↦ elim (Memᴰ.cases_cons m) [
    | inl same ↦ first (
        subst (λ n. Closed k r (stop_tool_state codec n r)) (ap (λ (p : ℤ × ℕ). p.1) same)
          (stop_state_self codec k r))
    | inr later ↦
        right-Closed k (stop_tool_state codec l) (λ u. stop_tools codec ps) r e
          (stop_tools-Closed codec ps i k (stop_tool_state codec l r).2 later)
  ]
]
  where
    first :
        Closed k r (stop_tool_state codec l r)
        → Closed k r ((stop_tool_state codec l >> stop_tools codec ps) r)
    first h =
        left-Closed k (stop_tool_state codec l) (stop_tools codec ps) r h
          (stop_tools-shut codec ps k (stop_tool_state codec l r).2 h.0)

insert_by_output-mem :
    (p q : ℤ × ℕ) (ps : List (ℤ × ℕ)) → Memᴰ p (q ∷ ps) → Memᴰ p (insert_by_output q ps)
unfolding insert_by_output
insert_by_output-mem p (i, k) [] m = m
insert_by_output-mem p (i, k) ((j, l) ∷ ps) m = go (ltb_ℤ j i) (elim (Memᴰ.cases_cons m) [
  | inl e ↦ Memᴰ.tail (insert_by_output-mem p (i, k) ps (Memᴰ.head e))
  | inr h ↦ elim (Memᴰ.cases_cons h) [
    | inl e ↦ Memᴰ.head e
    | inr t ↦ Memᴰ.tail (insert_by_output-mem p (i, k) ps (Memᴰ.tail t))
  ]
])
  where
    go :
        (b : Bool)
        → Memᴰ p ((j, l) ∷ insert_by_output (i, k) ps)
        → Memᴰ p (if b then (j, l) ∷ insert_by_output (i, k) ps else (i, k) ∷ (j, l) ∷ ps)
    go true swap = swap
    go false swap = m

sort_by_output-mem : (p : ℤ × ℕ) (ps : List (ℤ × ℕ)) → Memᴰ p ps → Memᴰ p (sort_by_output ps)
unfolding sort_by_output
sort_by_output-mem p [] m = m
sort_by_output-mem p (q ∷ ps) m =
    insert_by_output-mem p q (sort_by_output ps) (elim (Memᴰ.cases_cons m) [
      | inl e ↦ Memᴰ.head e
      | inr t ↦ Memᴰ.tail (sort_by_output-mem p ps t)
    ])

end_open :
    (codec : Codec) (event : Option Fields) (forced : String) (k : ℕ) (r : Reducer)
    (ps : List (ℤ × ℕ))
    → Closed k r (stop_tools codec ps r)
    → Closed k r
        ((stop_tools codec ps >> (flush_pending_web_search_output >> end_message event forced)) r)
end_open codec event forced k r ps h =
    left-Closed k (stop_tools codec ps)
      (flush_pending_web_search_output >> end_message event forced) r h
      (((bind-Calm flush-Calm (λ u. end-Calm event forced)).go (stop_tools codec ps r).2).1 k ∙ h.0)

-- Where the map by output index holds the pointer `k` of an active tool state, whose block has the
-- index `b`, `finish` emits the stop of the block `b`, and leaves the state inactive.
pub finish-closes :
    (codec : Codec) (event : Option Fields) (forced : String) (i : ℤ) (k : ℕ) (b : ℤ) (r : Reducer)
    → Memᴰ (i, k) r.tool_by_output
    → open_at r.tools k ≡ some b
    → Memᴰ (content_block_stop b) (finish codec event forced r).1
      × (open_at (finish codec event forced r).2.tools k ≡ none)
unfolding finish
finish-closes codec event forced i k b r m on =
    let t = (stop_thinking_block r).2 in
    let u = (stop_text_block t).2 in
    let ct = stop_thinking-Calm.go r in
    let cu = stop_text-Calm.go t in
    let h = end_open codec event forced k u (sort_by_output u.tool_by_output) (
      stop_tools-Closed codec (sort_by_output u.tool_by_output) i k u
        (sort_by_output-mem (i, k) u.tool_by_output (subst (Memᴰ (i, k)) (sym (cu.0 ∙ ct.0)) m))) in
    (
      Memᴰ.append_right (stop_thinking_block r).1
          (Memᴰ.append_right (stop_text_block t).1 (h.1 b (cu.1 k ∙ ct.1 k ∙ on))),
      h.0,
    )
