-- ===== src/Stream/Live/Blocks.antt =====
-- The text block and the thinking block keep the order of the events.
use claudodex.Common.{◌≡◌, refl, ◌∙◌, String, Bool, true, false, not, [], ◌∷◌, Bool-cases, inl, inr}
use claudodex.Common.Int.{ℤ, pos}
use claudodex.Stream.{content_block_start, content_block_stop, text_block, thinking_block}
use claudodex.Stream.Blocks.{
  when, stopped_text, closing_events, closed_thinking, opened_text, ensure_text_block,
  stop_text_block, text_delta_only, start_thinking_block, close_thinking_block,
  thinking_delta_event,
}
use claudodex.Stream.Client.{
  accept-start, accept-delta, accept-stop, accepts-one, accepts-cons, open_text, open_thinking,
  closed, accepts,
}
use claudodex.Stream.Live.{View, view, Live-receiving, at-Good, Holds, holds_skip, Any}
use claudodex.Stream.Live.Marks.{
  with_text, with_thinking, next_fresh, open_text-Live, open_thinking-Live, close_text-Live,
  close_thinking-Live,
}

-- A predicate on whether a thinking block is open.
abbrev pub Thinking : (Bool → Type 0) → View → Type 0
Thinking P v = P v.thinking_active

abbrev pub InText : (Bool → Type 0) → View → Type 0
InText P v = (v.text_active ≡ true) × P v.thinking_active

pub holds_ensure_text :
    (P : Bool → Type 0) → Holds (Unit {0}) (Thinking P) ensure_text_block (λ a. InText P)
unfolding ensure_text_block accepts
holds_ensure_text P = record {
  go = λ r c h p. elim (Bool-cases r.text_active) [
    | inl e ↦
        at-Good c (λ a. InText P) (ensure_text_block r) (tt, [], r) (rw e refl)
          (c, refl, (h, (e, p)))
    | inr e ↦
        at-Good c (λ a. InText P) (ensure_text_block r)
          (tt, content_block_start (pos r.next_index) text_block ∷ [], opened_text r) (rw e refl)
          (
            with_text c true (pos r.next_index) open_text,
            accepts-one c _ _ (
                accept-start c _ text_block (Live-receiving h) (next_fresh (view r) c h)
                ∙ rw (h.text ∙ e) refl),
            (open_text-Live (view r) c h, (refl, p)),
          )
  ];
}

pub holds_text_delta :
    (P : Bool → Type 0) (text : String)
    → Holds (Unit {0}) (InText P) (text_delta_only text) (λ a. InText P)
unfolding text_delta_only accepts
holds_text_delta P text = record {
  go = λ r c h p. (
    c,
    accepts-one c _ c (accept-delta c _ _ open_text (Live-receiving h) (h.text_at p.0) refl),
    (h, p),
  );
}

-- No text block is open.
abbrev pub Silent : (Bool → Type 0) → View → Type 0
Silent P v = (v.text_active ≡ false) × P v.thinking_active

pub holds_stop_text :
    (P : Bool → Type 0) → Holds (Unit {0}) (Thinking P) stop_text_block (λ a. Silent P)
unfolding stop_text_block accepts
holds_stop_text P = record {
  go = λ r c h p. elim (Bool-cases r.text_active) [
    | inr e ↦
        at-Good c (λ a. Silent P) (stop_text_block r) (tt, [], r) (rw e refl) (c, refl, (h, (e, p)))
    | inl e ↦
        at-Good c (λ a. Silent P) (stop_text_block r)
          (tt, content_block_stop r.text_index ∷ [], stopped_text r) (rw e refl)
          (
            with_text c false r.text_index closed,
            accepts-one c _ _ (accept-stop c _ open_text (Live-receiving h) (h.text_at e)),
            (close_text-Live (view r) c h e, (refl, p)),
          )
  ];
}

abbrev pub Thinks : Bool → View → Type 0
Thinks b v = v.thinking_active ≡ b

pub holds_start_thinking :
    (part : ℤ) → Holds (Unit {0}) (Thinks false) (start_thinking_block part) (λ a. Thinks true)
unfolding start_thinking_block accepts
holds_start_thinking part = record {
  go = λ r c h e. (
    with_thinking c true (pos r.next_index) open_thinking,
    accepts-one c _ _ (
        accept-start c _ thinking_block (Live-receiving h) (next_fresh (view r) c h)
        ∙ rw (h.thinking ∙ e) refl),
    (open_thinking-Live (view r) c h, refl),
  );
}

pub holds_thinking_delta :
    (text : String) → Holds (Unit {0}) (Thinks true) (thinking_delta_event text) (λ a. Thinks true)
unfolding thinking_delta_event accepts
holds_thinking_delta text = record {
  go = λ r c h e. (
    c,
    accepts-one c _ c (accept-delta c _ _ open_thinking (Live-receiving h) (h.thinking_at e) refl),
    (h, e),
  );
}

pub holds_close_thinking : Holds (Unit {0}) Any close_thinking_block (λ a. Thinks false)
unfolding close_thinking_block accepts
holds_close_thinking = record {
  go = λ r c h p. elim (Bool-cases r.thinking_active) [
    | inr e ↦
        at-Good c (λ a. Thinks false) (close_thinking_block r) (tt, [], r) (rw e refl)
          (c, refl, (h, e))
    | inl e ↦
        at-Good c (λ a. Thinks false) (close_thinking_block r)
          (tt, closing_events r, closed_thinking r) (rw e refl)
          (
            with_thinking c false r.thinking_index closed,
            accepts-cons c _ (content_block_stop r.thinking_index ∷ []) c
                  (accept-delta c _ _ open_thinking (Live-receiving h) (h.thinking_at e) refl)
                ∙ accepts-one c _ _
                    (accept-stop c _ open_thinking (Live-receiving h) (h.thinking_at e)),
            (close_thinking-Live (view r) c h e, refl),
          )
  ];
}

pub holds_open_thinking :
    (part : ℤ) (b : Bool)
    → Holds (Unit {0}) (Thinks b) (when (not b) (start_thinking_block part)) (λ a. Thinks true)
holds_open_thinking part true = holds_skip
holds_open_thinking part false = holds_start_thinking part
