-- ===== src/Stream/Thinking/Kept.antt =====
-- No character of a reasoning summary is lost, doubled or moved by the cutting into thinking blocks.
use mathlib.Core.Path.{subst}
use Prim.Native.String.{[], ◌∷◌, ◌++◌}
use text.Mathlib.TextLemmas.{nil-append, append-nil, append_assoc}
use claudodex.Common.{
  ℕ, zero, suc, ◌+◌, ◌-◌, ◌≤◌, ◌<◌, ◌≡◌, refl, sym, ap, ◌∙◌, ◌≢◌, String, Bool, true, false, not,
  ◌||◌, Option, none, some, Option-cases, List, [], ◌∷◌, Bool-cases, inl, inr, arith, eq_iff, ◌==◌,
  string_key, nat_eq, nat_eq_iff, if◌then◌else◌,
}
use claudodex.Common as C
use claudodex.Common.Int.{ℤ}
use claudodex.Common.Text.{size}
use claudodex.Stream.{Reducer, Sse, content_block_delta, Delta, thinking_delta, M, ◌>>◌}
use claudodex.Stream.Blocks.{
  emit_thinking_summary_text, close_thinking_block, start_thinking_block, thinking_delta_event,
}
use claudodex.Stream.Thinking.{
  Round, next_round, run_round, set_pending, consume_from, consume_thinking_summary,
  stop_thinking_block, ignores_thinking, later_part, add_pending, append_thinking_summary,
}
use claudodex.Stream.Thinking.Rounds.{RoundOk, next_round-Ok}

abbrev delta_text : Delta → String
delta_text (thinking_delta s) = s
delta_text _ = ""

abbrev said : Sse → String
said (content_block_delta i d) = delta_text d
said _ = ""

-- The texts of the thinking deltas, in order.
unfoldable pub thinking_text : List Sse → String
thinking_text [] = ""
thinking_text (e ∷ es) = said e ++ thinking_text es

pub thinking_text-append :
    (es fs : List Sse) → thinking_text (C.◌++◌ es fs) ≡ thinking_text es ++ thinking_text fs
unfolding thinking_text
thinking_text-append [] fs = sym (nil-append (thinking_text fs))
thinking_text-append (e ∷ es) fs =
    ap (λ s. said e ++ s) (thinking_text-append es fs)
    ∙ sym (append_assoc (said e) (thinking_text es) (thinking_text fs))

-- Emitting a text says it, and leaves the pending text alone.
emit_thinking_lem :
    (text : String) (part : ℤ) (r : Reducer)
    → (thinking_text (emit_thinking_summary_text text part r).1 ≡ text)
      × ((emit_thinking_summary_text text part r).2.thinking_pending ≡ r.thinking_pending)
unfolding emit_thinking_summary_text thinking_text start_thinking_block thinking_delta_event
emit_thinking_lem text part r = elim (Bool-cases (text == "")) [
  | inl e ↦ rw e (sym ((eq_iff text "").0 e), refl)
  | inr e ↦ elim (Bool-cases r.thinking_active) [
    | inl on ↦ rw (e, on) (append-nil text, refl)
    | inr off ↦ rw (e, off) (nil-append (text ++ "") ∙ append-nil text, refl)
  ]
]

close_thinking_lem :
    (r : Reducer)
    → (thinking_text (close_thinking_block r).1 ≡ "")
      × ((close_thinking_block r).2.thinking_pending ≡ r.thinking_pending)
unfolding close_thinking_block thinking_text
close_thinking_lem r = elim (Bool-cases r.thinking_active) [
  | inl on ↦ rw on (refl, refl)
  | inr off ↦ rw off (refl, refl)
]

-- What the rest of the loop keeps, a round keeps.
abbrev Keeps : M (Unit {0}) → Type 0
Keeps m = (r : Reducer) → thinking_text (m r).1 ++ (m r).2.thinking_pending ≡ r.thinking_pending

glue :
    (es fs : List Sse) (h p q : String)
    → thinking_text es ≡ h
    → thinking_text fs ++ p ≡ q
    → thinking_text (C.◌++◌ es fs) ++ p ≡ h ++ q
glue es fs h p q said_h rest =
    ap (λ s. s ++ p) (thinking_text-append es fs)
    ∙ append_assoc (thinking_text es) (thinking_text fs) p
    ∙ ap (λ s. s ++ (thinking_text fs ++ p)) said_h
    ∙ ap (λ s. h ++ s) rest

close-Keeps : (next : M (Unit {0})) → Keeps next → Keeps (close_thinking_block >> next)
close-Keeps next h r =
    let r' = (close_thinking_block r).2 in
    glue (close_thinking_block r).1 (next r').1 "" (next r').2.thinking_pending r'.thinking_pending
      (close_thinking_lem r).0 (h r')
    ∙ nil-append r'.thinking_pending
    ∙ (close_thinking_lem r).1

-- A text is emitted, and another one is left pending for the rest of the loop.
emit-Keeps :
    (next : M (Unit {0})) (part : ℤ) (head rest : String) (r : Reducer)
    → Keeps next
    → thinking_text ((emit_thinking_summary_text head part >> (set_pending rest >> next)) r).1
        ++ ((emit_thinking_summary_text head part >> (set_pending rest >> next))
            r).2.thinking_pending
      ≡ head ++ rest
emit-Keeps next part head rest r h =
    let r' = record (emit_thinking_summary_text head part r).2 { thinking_pending = rest } in
    glue (emit_thinking_summary_text head part r).1 (next r').1 head (next r').2.thinking_pending
      rest (emit_thinking_lem head part r).0 (h r')

round-Keeps :
    (next : M (Unit {0})) (part : ℤ) (flush : Bool) (x : Round) (r : Reducer)
    → Keeps next
    → RoundOk flush r.thinking_pending x
    → thinking_text (run_round next part x r).1 ++ (run_round next part x r).2.thinking_pending
      ≡ r.thinking_pending
unfolding thinking_text
round-Keeps next part flush Round.stop r h ok = nil-append r.thinking_pending
round-Keeps next part flush (Round.title head rest) r h (RoundOk.titled join less) =
    emit-Keeps (close_thinking_block >> next) part head rest r (close-Keeps next h) ∙ join
round-Keeps next part flush (Round.plain head rest) r h (RoundOk.plainly join less) =
    emit-Keeps next part head rest r h ∙ join

pub consume_from-Keeps : (fuel : ℕ) (part : ℤ) (flush : Bool) → Keeps (consume_from fuel part flush)
unfolding consume_from thinking_text
consume_from-Keeps zero part flush r = nil-append r.thinking_pending
consume_from-Keeps (suc fuel) part flush r =
    round-Keeps (consume_from fuel part flush) part flush (next_round flush r.thinking_pending) r
      (consume_from-Keeps fuel part flush) (next_round-Ok flush r.thinking_pending)

-- The fuel is enough to say all of the pending text.
abbrev Empties : M (Unit {0}) → ℕ → Type 0
Empties m n = (r : Reducer) → size r.thinking_pending < n → (m r).2.thinking_pending ≡ ""

round-Empties :
    (next : M (Unit {0})) (part : ℤ) (n : ℕ) (x : Round) (r : Reducer)
    → Empties next n
    → size r.thinking_pending < suc n
    → RoundOk true r.thinking_pending x
    → (run_round next part x r).2.thinking_pending ≡ ""
round-Empties next part n Round.stop r h le (RoundOk.ends f) = f refl
round-Empties next part n (Round.title head rest) r h le (RoundOk.titled join less) =
    let r' = record (emit_thinking_summary_text head part r).2 { thinking_pending = rest } in
    h (close_thinking_block r').2
      (subst (λ s. size s < n) (sym (close_thinking_lem r').1) (omega (arith, less, le)))
round-Empties next part n (Round.plain head rest) r h le (RoundOk.plainly join less) =
    h (record (emit_thinking_summary_text head part r).2 { thinking_pending = rest })
      (omega (arith, less, le))

consume_from-Empties : (fuel : ℕ) (part : ℤ) → Empties (consume_from fuel part true) fuel
unfolding consume_from
consume_from-Empties zero part r le = absurd (omega (arith, le))
consume_from-Empties (suc fuel) part r le =
    round-Empties (consume_from fuel part true) part fuel (next_round true r.thinking_pending) r
      (consume_from-Empties fuel part) le (next_round-Ok true r.thinking_pending)

-- `consumeThinkingSummary` neither loses, doubles nor moves a character: the texts of its thinking
-- deltas, in order, and what is left pending make up what was pending before.
pub consume_thinking-Keeps :
    (part : ℤ) (flush : Bool) (r : Reducer)
    → thinking_text (consume_thinking_summary part flush r).1
        ++ (consume_thinking_summary part flush r).2.thinking_pending
      ≡ r.thinking_pending
unfolding consume_thinking_summary
consume_thinking-Keeps part flush r =
    consume_from-Keeps (suc (size r.thinking_pending)) part flush r

-- `stopThinkingBlock` says all of the pending text: its thinking deltas, in order, are that text, and
-- nothing is pending after it.
pub stop_thinking_block_lem :
    (r : Reducer)
    → (thinking_text (stop_thinking_block r).1 ≡ r.thinking_pending)
      × ((stop_thinking_block r).2.thinking_pending ≡ "")
unfolding stop_thinking_block consume_thinking_summary
stop_thinking_block_lem r =
    let x = consume_from (suc (size r.thinking_pending)) r.thinking_summary_part true r in
    let none_left =
      consume_from-Empties (suc (size r.thinking_pending)) r.thinking_summary_part r
        (omega arith) in
    (
      thinking_text-append x.1 (close_thinking_block x.2).1
          ∙ ap (λ s. thinking_text x.1 ++ s) ((close_thinking_lem x.2).0 ∙ sym none_left)
          ∙ consume_from-Keeps (suc (size r.thinking_pending)) r.thinking_summary_part true r,
      (close_thinking_lem x.2).1 ∙ none_left,
    )

-- The text of a later part: the block of the part before it is stopped first.
after_stop :
    (text : String) (part : ℤ) (r : Reducer)
    → thinking_text
          ((stop_thinking_block >> (add_pending text >> consume_thinking_summary part false)) r).1
        ++ ((stop_thinking_block >> (add_pending text >> consume_thinking_summary part false))
            r).2.thinking_pending
      ≡ r.thinking_pending ++ text
after_stop text part r =
    let s = (stop_thinking_block r).2 in
    let s' = record s { thinking_pending = s.thinking_pending ++ text } in
    let x = consume_thinking_summary part false s' in
    glue (stop_thinking_block r).1 x.1 r.thinking_pending x.2.thinking_pending text
      (stop_thinking_block_lem r).0
      (consume_thinking-Keeps part false s'
        ∙ ap (λ t. t ++ text) (stop_thinking_block_lem r).1
        ∙ nil-append text)

-- `appendThinkingSummary` ignores a text, or says what was pending and then that text, up to an end
-- that stays pending.
pub append_thinking_summary_lem :
    (text : String) (part : ℤ) (r : Reducer)
    → thinking_text (append_thinking_summary text part r).1
        ++ (append_thinking_summary text part r).2.thinking_pending
      ≡ (if text == "" || ignores_thinking r
          then r.thinking_pending
          else r.thinking_pending ++ text)
unfolding append_thinking_summary thinking_text
append_thinking_summary_lem text part r = elim (Bool-cases (text == "" || ignores_thinking r)) [
  | inl e ↦ rw e (nil-append r.thinking_pending)
  | inr e ↦ elim (Bool-cases (later_part part r)) [
    | inr l ↦
        rw (e, l)
          (consume_thinking-Keeps part false
            (record r { thinking_pending = r.thinking_pending ++ text }))
    | inl l ↦ rw (e, l) (after_stop text part r)
  ]
]
