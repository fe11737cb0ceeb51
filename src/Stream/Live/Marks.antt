-- ===== src/Stream/Live/Marks.antt =====
-- What the opening and the closing of a text block or a thinking block do to a live state.
use claudodex.Common.{suc, ◌≡◌, refl, ◌≢◌, Bool, true, false, arith}
use claudodex.Common.Int.{ℤ, pos, negsuc}
use claudodex.Stream.Blocks.{}
use claudodex.Stream.Client.{
  update-other, update_self, Status, fresh, open_text, open_thinking, closed, Client, update,
}
use claudodex.Stream.Slots.{Slots, Slots-take, Slots-close, update-AgreeOff}
use claudodex.Stream.Live.{View, buffers, Live}

fresh-open_text : fresh ≢ open_text
fresh-open_text e = ground arith

fresh-open_thinking : fresh ≢ open_thinking
fresh-open_thinking e = ground arith

-- A block that opens at the next index: its client, where nothing else changes but the flags.
abbrev pub with_text : Client → Bool → ℤ → Status → Client
with_text c b i s = record c { text_open = b; status = update c.status i s }

abbrev pub with_thinking : Client → Bool → ℤ → Status → Client
with_thinking c b i s = record c { thinking_open = b; status = update c.status i s }

-- The next index has not been seen.
pub next_fresh : (v : View) (c : Client) → Live true v c → c.status (pos v.next_index) ≡ fresh
next_fresh v c h = h.slots.unused v.next_index (omega arith)

taken :
    (v : View) (c : Client) (s : Status)
    → Live true v c
    → Slots (buffers v) (suc v.next_index) (update c.status (pos v.next_index) s) v.tools
taken v c s h =
    Slots-take (buffers v) v.next_index c.status (update c.status (pos v.next_index) s) v.tools
      (update-AgreeOff v.next_index c.status s) h.slots

pub open_text-Live :
    (v : View) (c : Client)
    → Live true v c
    → Live true
        (record v {
          text_index = pos v.next_index;
          next_index = suc v.next_index;
          text_active = true;
        })
        (with_text c true (pos v.next_index) open_text)
open_text-Live v c h = record {
  v_started = h.v_started;
  v_done = h.v_done;
  started = h.started;
  closing = h.closing;
  ended = h.ended;
  text = refl;
  text_at = λ o. update_self c.status (pos v.next_index) open_text;
  thinking = h.thinking;
  thinking_at = λ o.
      update-other c.status (pos v.next_index) v.thinking_index open_text fresh open_thinking
        (next_fresh v c h) (h.thinking_at o) fresh-open_thinking;
  search = h.search;
  slots = taken v c open_text h;
}

pub open_thinking-Live :
    (v : View) (c : Client)
    → Live true v c
    → Live true
        (record v {
          thinking_index = pos v.next_index;
          next_index = suc v.next_index;
          thinking_active = true;
        })
        (with_thinking c true (pos v.next_index) open_thinking)
open_thinking-Live v c h = record {
  v_started = h.v_started;
  v_done = h.v_done;
  started = h.started;
  closing = h.closing;
  ended = h.ended;
  text = h.text;
  text_at = λ o.
      update-other c.status (pos v.next_index) v.text_index open_thinking fresh open_text
        (next_fresh v c h) (h.text_at o) fresh-open_text;
  thinking = refl;
  thinking_at = λ o. update_self c.status (pos v.next_index) open_thinking;
  search = h.search;
  slots = taken v c open_thinking h;
}

pub close_text-Live :
    (v : View) (c : Client)
    → Live true v c
    → v.text_active ≡ true
    → Live true
        (record v { text_active = false; text_index = negsuc 0 })
        (with_text c false v.text_index closed)
close_text-Live v c h on = record {
  v_started = h.v_started;
  v_done = h.v_done;
  started = h.started;
  closing = h.closing;
  ended = h.ended;
  text = refl;
  text_at = λ o. ground arith;
  thinking = h.thinking;
  thinking_at = λ o.
      update-other c.status v.text_index v.thinking_index closed open_text open_thinking
        (h.text_at on) (h.thinking_at o) (λ e. ground arith);
  search = h.search;
  slots =
      Slots-close (buffers v) v.next_index c.status v.tools v.text_index open_text closed
        (h.text_at on) (λ e. ground arith, λ e. ground arith, λ e. ground arith) h.slots;
}

pub close_thinking-Live :
    (v : View) (c : Client)
    → Live true v c
    → v.thinking_active ≡ true
    → Live true
        (record v { thinking_active = false; thinking_index = negsuc 0 })
        (with_thinking c false v.thinking_index closed)
close_thinking-Live v c h on = record {
  v_started = h.v_started;
  v_done = h.v_done;
  started = h.started;
  closing = h.closing;
  ended = h.ended;
  text = h.text;
  text_at = λ o.
      update-other c.status v.thinking_index v.text_index closed open_thinking open_text
        (h.thinking_at on) (h.text_at o) (λ e. ground arith);
  thinking = refl;
  thinking_at = λ o. ground arith;
  search = h.search;
  slots =
      Slots-close (buffers v) v.next_index c.status v.tools v.thinking_index open_thinking closed
        (h.thinking_at on) (λ e. ground arith, λ e. ground arith, λ e. ground arith) h.slots;
}
