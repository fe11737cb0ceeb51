-- ===== src/Stream/Live/Searches.antt =====
-- The web searches keep the order of the events.
use claudodex.Common.{
  ℕ, suc, ◌≡◌, refl, ◌∙◌, ◌≢◌, Bool, true, false, not, some, Option-cases, List, [], ◌∷◌,
  Bool-cases, inl, inr, arith, ◌==◌, string_key, length, nat_eq, get_elem?,
}
use claudodex.Common.Int.{ℤ, pos}
use claudodex.Json.{Codec, at}
use claudodex.Stream.{
  WebSearch, Hit, Block, content_block_start, content_block_delta, content_block_stop,
  server_tool_use, web_search_tool_result, input_json_delta,
}
use claudodex.Stream.Search.{
  used, answered, query_input, result_content, result_hits, all_pending, clear_hits, clear_text,
  use_events, emit_web_search_use, result_events, emit_result_at, emit_results,
  emit_pending_web_search_results, emit_buffered_web_search_text, flush_pending_web_search_output,
}
use claudodex.Stream.Client.{
  Status, fresh, open_text, open_thinking, open_search, closed, Client, update, update-other,
  update_self, opens, accept, accepts, accept-start, accept-delta, accept-stop, accepts-one,
  accepts-cons,
}
use claudodex.Stream.Slots.{update-AgreeOff, Slots-take}
use claudodex.Stream.Live.{
  View, view, buffers, Live, Live-receiving, at-Good, Holds, holds_bind, holds_skip, holds_weaken,
  holds_when, holds_gets, holds_quiet, Flags,
}
use claudodex.Stream.Live.Marks.{next_fresh}
use claudodex.Stream.Live.Blocks.{Silent, holds_ensure_text, holds_text_delta, holds_stop_text}

-- A search block is open.
abbrev searching : Client → ℤ → Client
searching c i = record c { search_open = true; status = update c.status i open_search }

abbrev searched : Client → ℤ → Client
searched c i = record (searching c i) {
  search_open = false;
  status = update (update c.status i open_search) i closed;
}

-- It has the next index, and is closed at once.
searched-Live :
    (v : View) (c : Client)
    → Live true v c
    → Live true (record v { next_index = suc v.next_index }) (searched c (pos v.next_index))
searched-Live v c h = record {
  v_started = h.v_started;
  v_done = h.v_done;
  started = h.started;
  closing = h.closing;
  ended = h.ended;
  text = h.text;
  text_at = λ o. keeps v.text_index open_text (h.text_at o) (λ e. ground arith) (λ e. ground arith);
  thinking = h.thinking;
  thinking_at = λ o.
      keeps v.thinking_index open_thinking (h.thinking_at o) (λ e. ground arith)
        (λ e. ground arith);
  search = refl;
  slots =
      Slots-take (buffers v) v.next_index c.status (searched c (pos v.next_index)).status v.tools
        (λ j ne.
          update-AgreeOff v.next_index (update c.status (pos v.next_index) open_search) closed j ne
          ∙ update-AgreeOff v.next_index c.status open_search j ne)
        h.slots;
}
  where
    keeps :
        (i : ℤ) (a : Status)
        → c.status i ≡ a
        → fresh ≢ a
        → open_search ≢ a
        → (searched c (pos v.next_index)).status i ≡ a
    keeps i a at ne ne' =
        update-other (update c.status (pos v.next_index) open_search) (pos v.next_index) i closed
          open_search a (update_self c.status (pos v.next_index) open_search)
          (update-other c.status (pos v.next_index) i open_search fresh a (next_fresh v c h) at ne)
          ne'

search_start :
    (v : View) (c : Client) (b : Block)
    → Live true v c
    → (c.search_open ≡ false → opens b c (pos v.next_index) ≡ some (searching c (pos v.next_index)))
    → accept c (content_block_start (pos v.next_index) b) ≡ some (searching c (pos v.next_index))
search_start v c b h f =
    accept-start c (pos v.next_index) b (Live-receiving h) (next_fresh v c h) ∙ f h.search

search_stop :
    (v : View) (c : Client)
    → Live true v c
    → accepts (searching c (pos v.next_index)) (content_block_stop (pos v.next_index) ∷ [])
      ≡ some (searched c (pos v.next_index))
search_stop v c h = accepts-one (searching c (pos v.next_index)) _ _ (
    accept-stop (searching c (pos v.next_index)) (pos v.next_index) open_search (Live-receiving h)
      (update_self c.status (pos v.next_index) open_search))

holds_use_events :
    (P : Bool → Bool → Type 0) (codec : Codec) (k : ℕ) (s : WebSearch)
    → Holds (Unit {0}) (Flags P) (use_events codec k s) (λ a. Flags P)
unfolding use_events accepts
holds_use_events P codec k s = record {
  go = λ r c h p. elim (Bool-cases s.use_emitted) [
    | inl e ↦
        at-Good c (λ a. Flags P) (use_events codec k s r) (tt, [], r) (rw e refl) (c, refl, (h, p))
    | inr e ↦
        at-Good c (λ a. Flags P) (use_events codec k s r)
          (
            tt,
            content_block_start (pos r.next_index) (server_tool_use s.anthropic_id)
                ∷ content_block_delta (pos r.next_index)
                    (input_json_delta (query_input codec s.query))
                ∷ content_block_stop (pos r.next_index)
                ∷ [],
            used k s r,
          )
          (rw e refl)
          (
            searched c (pos r.next_index),
            accepts-cons c _
                  (content_block_delta (pos r.next_index)
                      (input_json_delta (query_input codec s.query))
                    ∷ content_block_stop (pos r.next_index)
                    ∷ [])
                  (searching c (pos r.next_index))
                  (search_start (view r) c (server_tool_use s.anthropic_id) h (λ f. rw f refl))
                ∙ accepts-cons (searching c (pos r.next_index)) _
                    (content_block_stop (pos r.next_index) ∷ []) (searching c (pos r.next_index))
                    (accept-delta (searching c (pos r.next_index)) (pos r.next_index) _ open_search
                      (Live-receiving h) (update_self c.status (pos r.next_index) open_search) refl)
                ∙ search_stop (view r) c h,
            (searched-Live (view r) c h, p),
          )
  ];
}

holds_result_events :
    (P : Bool → Bool → Type 0) (k : ℕ) (s : WebSearch) (hs : List Hit)
    → Holds (Unit {0}) (Flags P) (result_events k s hs) (λ a. Flags P)
unfolding result_events accepts
holds_result_events P k s hs = record {
  go = λ r c h p. elim (Bool-cases s.result_emitted) [
    | inl e ↦
        at-Good c (λ a. Flags P) (result_events k s hs r) (tt, [], r) (rw e refl) (c, refl, (h, p))
    | inr e ↦
        at-Good c (λ a. Flags P) (result_events k s hs r)
          (
            tt,
            content_block_start (pos r.next_index)
                  (web_search_tool_result s.anthropic_id (result_content s hs))
                ∷ content_block_stop (pos r.next_index)
                ∷ [],
            answered k s r,
          )
          (rw e refl)
          (
            searched c (pos r.next_index),
            accepts-cons c _ (content_block_stop (pos r.next_index) ∷ [])
                  (searching c (pos r.next_index))
                  (search_start (view r) c
                    (web_search_tool_result s.anthropic_id (result_content s hs)) h
                    (λ f. rw f refl))
                ∙ search_stop (view r) c h,
            (searched-Live (view r) c h, p),
          )
  ];
}

pub holds_emit_use :
    (P : Bool → Bool → Type 0) (codec : Codec) (k : ℕ)
    → Holds (Unit {0}) (Flags P) (emit_web_search_use codec k) (λ a. Flags P)
unfolding emit_web_search_use accepts
holds_emit_use P codec k = record {
  go = λ r c h p. elim (Option-cases (get_elem? r.web_searches k)) [
    | inl e ↦
        at-Good c (λ a. Flags P) (emit_web_search_use codec k r) (tt, [], r)
          (rw (e, emit_web_search_use) refl) (c, refl, (h, p))
    | inr (s, e) ↦
        at-Good c (λ a. Flags P) (emit_web_search_use codec k r) (use_events codec k s r)
          (rw (e, emit_web_search_use) refl) ((holds_use_events P codec k s).go r c h p)
  ];
}

holds_result_at :
    (P : Bool → Bool → Type 0) (alone : Bool) (k : ℕ)
    → Holds (Unit {0}) (Flags P) (emit_result_at alone k) (λ a. Flags P)
unfolding emit_result_at accepts
holds_result_at P alone k = record {
  go = λ r c h p. elim (Option-cases (get_elem? r.web_searches k)) [
    | inl e ↦
        at-Good c (λ a. Flags P) (emit_result_at alone k r) (tt, [], r)
          (rw (e, emit_result_at) refl) (c, refl, (h, p))
    | inr (s, e) ↦
        at-Good c (λ a. Flags P) (emit_result_at alone k r)
          (result_events k s (result_hits alone s r.web_search_hits) r)
          (rw (e, emit_result_at) refl)
          ((holds_result_events P k s (result_hits alone s r.web_search_hits)).go r c h p)
  ];
}

holds_results :
    (P : Bool → Bool → Type 0) (alone : Bool) (ks : List ℕ)
    → Holds (Unit {0}) (Flags P) (emit_results alone ks) (λ a. Flags P)
unfolding emit_results
holds_results P alone [] = holds_skip
holds_results P alone (k ∷ ks) =
    holds_bind (holds_result_at P alone k) (λ a. holds_results P alone ks)

pub holds_pending_results :
    (P : Bool → Bool → Type 0)
    → Holds (Unit {0}) (Flags P) emit_pending_web_search_results (λ a. Flags P)
unfolding emit_pending_web_search_results
holds_pending_results P = holds_bind (holds_gets all_pending) (λ ks.
    holds_bind (holds_results P (nat_eq (length ks) 1) ks)
      (λ a. holds_quiet clear_hits (λ r. (refl, refl))))

-- The text that was held back; no text block is open after it if none was before.
pub holds_buffered_text :
    (P : Bool → Bool → Type 0)
    → ((b t : Bool) → P b t → P false t)
    → Holds (Unit {0}) (Flags P) emit_buffered_web_search_text (λ a. Flags P)
unfolding emit_buffered_web_search_text
holds_buffered_text P shut = holds_bind (holds_gets (λ r. r.web_search_text)) (λ text.
    holds_bind (holds_quiet clear_text (λ r. (refl, refl))) (λ a. holds_when (not (text == "")) (
      holds_weaken (λ v p. shut v.text_active v.thinking_active p) (λ a v q. subst_flag v q)
        (holds_bind (holds_ensure_text (P false)) (λ a.
          holds_bind (holds_text_delta (P false) text)
            (λ b. holds_weaken (λ v q. q.1) (λ a v q. q) (holds_stop_text (P false))))))))
  where
    subst_flag : (v : View) → Silent (P false) v → Flags P v
    subst_flag v q = rw q.0 q.1

pub holds_flush :
    (P : Bool → Bool → Type 0)
    → ((b t : Bool) → P b t → P false t)
    → Holds (Unit {0}) (Flags P) flush_pending_web_search_output (λ a. Flags P)
unfolding flush_pending_web_search_output
holds_flush P shut = holds_bind (holds_pending_results P) (λ a. holds_buffered_text P shut)
