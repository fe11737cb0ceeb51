-- ===== src/Stream/Finish/Calm.antt =====
-- The methods that `finish` of internal/convert/stream.go calls beside the stops of the tools, and
-- which tool blocks they leave open.
use claudodex.Common.{
  ℕ, zero, suc, String, ◌≡◌, refl, sym, ap, ◌∙◌, Bool, true, false, not, Option, none, some, List,
  [], ◌∷◌, set, get_elem?, arith, nat_eq, length, ◌==◌, string_key, if◌then◌else◌,
}
use claudodex.Common.Int.{ℤ}
use claudodex.Common.Text.{size}
use claudodex.Json.{Fields}
use claudodex.Stream.{Sse, ToolState, WebSearch, Reducer, M, ◌>>=◌, ◌>>◌, skip, gets}
use claudodex.Stream.Blocks.{
  when, ensure_text_block, stop_text_block, text_delta_only, start_thinking_block,
  close_thinking_block, thinking_delta_event, emit_thinking_summary_text,
}
use claudodex.Stream.Thinking.{
  Round, stop, title, plain, run_round, next_round, consume_from, consume_thinking_summary,
  stop_thinking_block, set_pending,
}
use claudodex.Stream.Search.{
  result_events, emit_result_at, emit_results, emit_pending_web_search_results,
  emit_buffered_web_search_text, flush_pending_web_search_output, result_hits, all_pending,
  clear_hits, clear_text,
}
use claudodex.Stream.Tools.{}
use claudodex.Stream.Finish.{end_message}

-- The index of the block of the state at a position, where that state is active.
unfoldable pub open_at : List ToolState → ℕ → Option ℤ
open_at [] j = none
open_at (t ∷ ts) zero = if t.active then some t.block_index else none
open_at (t ∷ ts) (suc j) = open_at ts j

some_state : (u t : ToolState) → Path (Option ToolState) (some u) (some t) → u ≡ t
some_state u t h = ground (arith, h)

pub open_at_of :
    (ts : List ToolState) (k : ℕ) (t : ToolState)
    → get_elem? ts k ≡ some t
    → open_at ts k ≡ (if t.active then some t.block_index else none)
unfolding open_at
open_at_of [] k t h = ground (arith, h)
open_at_of (u ∷ ts) zero t h =
    ap (λ (x : ToolState). if x.active then some x.block_index else none) (some_state u t h)
open_at_of (u ∷ ts) (suc k) t h = open_at_of ts k t h

pub open_at-none : (ts : List ToolState) (k : ℕ) → get_elem? ts k ≡ none → open_at ts k ≡ none
unfolding open_at
open_at-none [] k h = refl
open_at-none (u ∷ ts) zero h = ground (arith, h)
open_at-none (u ∷ ts) (suc k) h = open_at-none ts k h

-- A change that keeps whether the state is active, and its block.
pub open_at-set :
    (ts : List ToolState) (k j : ℕ) (t t' : ToolState)
    → get_elem? ts k ≡ some t
    → t'.active ≡ t.active
    → t'.block_index ≡ t.block_index
    → open_at (set ts k t') j ≡ open_at ts j
unfolding open_at
open_at-set [] k j t t' there on at = refl
open_at-set (u ∷ ts) zero zero t t' there on at =
    ap (λ b. if b then some t'.block_index else none) on
    ∙ ap (λ i. if t.active then some i else none) at
    ∙ sym (
        ap (λ (x : ToolState). if x.active then some x.block_index else none)
          (some_state u t there))
open_at-set (u ∷ ts) zero (suc j) t t' there on at = refl
open_at-set (u ∷ ts) (suc k) zero t t' there on at = refl
open_at-set (u ∷ ts) (suc k) (suc j) t t' there on at = open_at-set ts k j t t' there on at

-- The same blocks of tools are open, and the list by output stays.
abbrev pub At : {A : Type 0} → Reducer → A × List Sse × Reducer → Type 0
At r x =
    (x.2.tool_by_output ≡ r.tool_by_output) × ((j : ℕ) → open_at x.2.tools j ≡ open_at r.tools j)

pub record Calm {A : Type 0} (m : M A) : Type 0 where
  pub go : (r : Reducer) → At r (m r)

pub same-Calm :
    {A : Type 0} (m : M A)
    → ((r : Reducer) → ((m r).2.tool_by_output ≡ r.tool_by_output) × ((m r).2.tools ≡ r.tools))
    → Calm m
same-Calm m h = record { go = λ r. ((h r).0, λ j. ap (λ ts. open_at ts j) (h r).1) }

pub bind-Calm :
    {A B : Type 0} {m : M A} {f : A → M B} → Calm m → ((a : A) → Calm (f a)) → Calm (m >>= f)
bind-Calm {m = m} {f = f} h k = record {
  go = λ r. let x = h.go r in let y = (k (m r).0).go (m r).2 in (y.0 ∙ x.0, λ j. y.1 j ∙ x.1 j);
}

skip-Calm : Calm skip
skip-Calm = same-Calm skip (λ r. (refl, refl))

when-Calm : {m : M (Unit {0})} (b : Bool) → Calm m → Calm (when b m)
when-Calm true h = h
when-Calm false h = skip-Calm

pub if-Calm :
    (b : Bool) (r : Reducer) (x y : Unit {0} × List Sse × Reducer)
    → At r x
    → At r y
    → At r (if b then x else y)
if-Calm true r x y h k = h
if-Calm false r x y h k = k

pub gets-Calm : {A : Type 0} (f : Reducer → A) → Calm (gets f)
gets-Calm f = same-Calm (gets f) (λ r. (refl, refl))

pub stay-Calm : (r : Reducer) → At {A = Unit {0}} r (tt, [], r)
stay-Calm r = (refl, λ j. refl)

-- The methods that the end of a message calls.
pub stop_text-Calm : Calm stop_text_block
unfolding stop_text_block
stop_text-Calm = record { go = λ r. if-Calm r.text_active r _ _ (refl, λ j. refl) (stay-Calm r) }

ensure_text-Calm : Calm ensure_text_block
unfolding ensure_text_block
ensure_text-Calm = record { go = λ r. if-Calm r.text_active r _ _ (stay-Calm r) (refl, λ j. refl) }

text_delta-Calm : (text : String) → Calm (text_delta_only text)
unfolding text_delta_only
text_delta-Calm text = same-Calm (text_delta_only text) (λ r. (refl, refl))

close_thinking-Calm : Calm close_thinking_block
unfolding close_thinking_block
close_thinking-Calm = record {
  go = λ r. if-Calm r.thinking_active r _ _ (refl, λ j. refl) (stay-Calm r);
}

thinking-Calm : (text : String) (part : ℤ) → Calm (emit_thinking_summary_text text part)
unfolding emit_thinking_summary_text start_thinking_block thinking_delta_event
thinking-Calm text part = go (text == "")
  where
    go :
        (b : Bool)
        → Calm (
            if b
            then skip
            else gets (λ r. r.thinking_active) >>= λ active.
                when (not active) (start_thinking_block part) >> thinking_delta_event text)
    go true = skip-Calm
    go false = bind-Calm (gets-Calm (λ r. r.thinking_active)) (λ active.
        bind-Calm
          (when-Calm (not active) (same-Calm (start_thinking_block part) (λ r. (refl, refl))))
          (λ u. same-Calm (thinking_delta_event text) (λ r. (refl, refl))))

pending-Calm : (rest : String) → Calm (set_pending rest)
pending-Calm rest = same-Calm (set_pending rest) (λ r. (refl, refl))

round-Calm :
    (next : M (Unit {0})) (part : ℤ) (round : Round) → Calm next → Calm (run_round next part round)
round-Calm next part stop h = skip-Calm
round-Calm next part (title head rest) h =
    bind-Calm (thinking-Calm head part)
      (λ u. bind-Calm (pending-Calm rest) (λ u. bind-Calm close_thinking-Calm (λ u. h)))
round-Calm next part (plain head rest) h =
    bind-Calm (thinking-Calm head part) (λ u. bind-Calm (pending-Calm rest) (λ u. h))

consume-Calm : (fuel : ℕ) (part : ℤ) (flush : Bool) → Calm (consume_from fuel part flush)
unfolding consume_from
consume-Calm zero part flush = skip-Calm
consume-Calm (suc fuel) part flush = record {
  go = λ r.
      (round-Calm (consume_from fuel part flush) part (next_round flush r.thinking_pending)
          (consume-Calm fuel part flush)).go
        r;
}

consume_summary-Calm : (part : ℤ) (flush : Bool) → Calm (consume_thinking_summary part flush)
unfolding consume_thinking_summary
consume_summary-Calm part flush = record {
  go = λ r. (consume-Calm (suc (size r.thinking_pending)) part flush).go r;
}

pub stop_thinking-Calm : Calm stop_thinking_block
unfolding stop_thinking_block
stop_thinking-Calm = bind-Calm (gets-Calm (λ r. r.thinking_summary_part)) (λ part.
    bind-Calm {A = Unit {0}} {m = consume_thinking_summary part true}
      (consume_summary-Calm part true) (λ u. close_thinking-Calm))

result_at-Calm : (alone : Bool) (k : ℕ) → Calm (emit_result_at alone k)
unfolding emit_result_at result_events
result_at-Calm alone k = record { go = λ r. go r (get_elem? r.web_searches k) }
  where
    go :
        (r : Reducer) (o : Option WebSearch)
        → At {A = Unit {0}} r (elim o [
          | none ↦ (tt, [], r)
          | some s ↦ result_events k s (result_hits alone s r.web_search_hits) r
        ])
    go r none = stay-Calm r
    go r (some s) = if-Calm s.result_emitted r _ _ (stay-Calm r) (refl, λ j. refl)

results-Calm : (alone : Bool) (ks : List ℕ) → Calm (emit_results alone ks)
unfolding emit_results
results-Calm alone [] = skip-Calm
results-Calm alone (k ∷ ks) = bind-Calm (result_at-Calm alone k) (λ u. results-Calm alone ks)

pending_results-Calm : Calm emit_pending_web_search_results
unfolding emit_pending_web_search_results
pending_results-Calm = bind-Calm (gets-Calm all_pending) (λ pending.
    bind-Calm (results-Calm (nat_eq (length pending) 1) pending)
      (λ u. same-Calm clear_hits (λ r. (refl, refl))))

buffered-Calm : Calm emit_buffered_web_search_text
unfolding emit_buffered_web_search_text
buffered-Calm = bind-Calm (gets-Calm (λ r. r.web_search_text)) (λ text.
    bind-Calm (same-Calm clear_text (λ r. (refl, refl))) (λ u.
      when-Calm (not (text == ""))
        (bind-Calm ensure_text-Calm (λ u. bind-Calm (text_delta-Calm text) (λ u. stop_text-Calm)))))

pub flush-Calm : Calm flush_pending_web_search_output
unfolding flush_pending_web_search_output
flush-Calm = bind-Calm pending_results-Calm (λ u. buffered-Calm)

pub end-Calm : (event : Option Fields) (forced : String) → Calm (end_message event forced)
unfolding end_message
end-Calm event forced = same-Calm (end_message event forced) (λ r. (refl, refl))
