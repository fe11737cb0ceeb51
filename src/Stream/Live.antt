-- ===== src/Stream/Live.antt =====
-- Between the start and the end of a message: how the reducer and a client of its events agree, and
-- the rules for methods that keep this.
pub mod Marks
pub mod Blocks
pub mod Summary
pub mod Searches
pub mod Hits
pub mod Calls
pub mod Starts
pub mod Args
pub mod Stops
pub mod Handlers
pub mod Ends
pub mod Whole
use claudodex.Common.{
  ℕ, String, ◌≡◌, refl, ap, ◌∙◌, ◌&&◌, [], Bool, true, false, not, some, List, if◌then◌else◌,
}
use claudodex.Common.Int.{ℤ}
use claudodex.Common.Dict.{Dict}
use claudodex.Json.{Fields}
use claudodex.Stream.{Sse, ToolState, Reducer, M, ◌>>=◌, skip, gets, modify}
use claudodex.Stream.Blocks.{when}
use claudodex.Stream.Tools.{is_empty_dict}
use claudodex.Stream.Client.{open_text, open_thinking, Client, receiving, accepts, accepts-append}
use claudodex.Stream.Slots.{Slots}

-- What the order of the events depends on.
pub record View : Type 0 where
  pub started : Bool
  pub done : Bool
  pub text_active : Bool
  pub text_index : ℤ
  pub thinking_active : Bool
  pub thinking_index : ℤ
  pub next_index : ℕ
  pub schemas : Dict String Fields
  pub tools : List ToolState

abbrev pub view : Reducer → View
view r = record {
  started = r.started;
  done = r.done;
  text_active = r.text_active;
  text_index = r.text_index;
  thinking_active = r.thinking_active;
  thinking_index = r.thinking_index;
  next_index = r.next_index;
  schemas = r.tool_schemas;
  tools = r.tools;
}

abbrev pub buffers : View → Bool
buffers v = not (is_empty_dict v.schemas)

-- The message has begun, unless `begun` is false, and not ended; the open blocks are the client's.
pub record Live (begun : Bool) (v : View) (c : Client) : Type 0 where
  pub v_started : v.started ≡ begun
  pub v_done : v.done ≡ false
  pub started : c.started ≡ begun
  pub closing : c.closing ≡ false
  pub ended : c.ended ≡ false
  pub text : c.text_open ≡ v.text_active
  pub text_at : v.text_active ≡ true → c.status v.text_index ≡ open_text
  pub thinking : c.thinking_open ≡ v.thinking_active
  pub thinking_at : v.thinking_active ≡ true → c.status v.thinking_index ≡ open_thinking
  pub search : c.search_open ≡ false
  pub slots : Slots (buffers v) v.next_index c.status v.tools

pub Live-receiving : {v : View} {c : Client} → Live true v c → receiving c ≡ true
Live-receiving {c = c} h =
    ap (λ x. x && not c.closing && not c.ended) h.started
    ∙ ap (λ x. not x && not c.ended) h.closing
    ∙ ap not h.ended

-- What a client knows after the events, if it allows them.
abbrev pub After : Client → List Sse → (Client → Type 0) → Type 0
After c es P = (d : Client) × (accepts c es ≡ some d) × P d

-- A result of a method that a client allows, in a live state with Q.
abbrev pub Good : {A : Type 0} → Client → (A → View → Type 0) → (A × List Sse × Reducer) → Type 0
Good c Q x = After c x.1 (λ d. Live true (view x.2) d × Q x.0 (view x.2))

pub at-Good :
    {A : Type 0} (c : Client) (Q : A → View → Type 0) (x y : A × List Sse × Reducer)
    → x ≡ y
    → Good c Q y
    → Good c Q x
at-Good c Q x y e h = rw e h

-- From a live state with P the method emits what a client allows, and leaves a live state with Q.
pub record Holds (A : Type 0) (P : View → Type 0) (m : M A) (Q : A → View → Type 0) : Type 0 where
  pub go : (r : Reducer) (c : Client) → Live true (view r) c → P (view r) → Good c Q (m r)

abbrev pub Any : View → Type 0
Any v = Unit

abbrev pub AnyOf : {A : Type 0} → A → View → Type 0
AnyOf a v = Unit

pub holds_bind :
    {A B : Type 0} {P : View → Type 0} {m : M A} {Q : A → View → Type 0} {f : A → M B}
    {R : B → View → Type 0}
    → Holds A P m Q
    → ((a : A) → Holds B (Q a) (f a) R)
    → Holds B P (m >>= f) R
holds_bind {m = m} {f = f} hm hf = record {
  go = λ r c h p.
      let x = hm.go r c h p in
      let y = (hf (m r).0).go (m r).2 x.0 x.2.0 x.2.1 in
      (y.0, accepts-append c (m r).1 (f (m r).0 (m r).2).1 x.0 x.1 ∙ y.1, y.2);
}

pub holds_skip : {P : View → Type 0} → Holds (Unit {0}) P skip (λ a. P)
unfolding accepts
holds_skip = record { go = λ r c h p. (c, refl, (h, p)) }

pub holds_weaken :
    {A : Type 0} {P P' : View → Type 0} {m : M A} {Q Q' : A → View → Type 0}
    → ((v : View) → P' v → P v)
    → ((a : A) (v : View) → Q a v → Q' a v)
    → Holds A P m Q
    → Holds A P' m Q'
holds_weaken f g h = record {
  go = λ r c live p. let x = h.go r c live (f (view r) p) in (x.0, x.1, (x.2.0, g _ _ x.2.1));
}

pub holds_when :
    {P : View → Type 0} {m : M (Unit {0})} (b : Bool)
    → Holds (Unit {0}) P m (λ a. P)
    → Holds (Unit {0}) P (when b m) (λ a. P)
holds_when true h = h
holds_when false h = holds_skip

-- A change of fields that the view does not have.
pub holds_modify :
    {P : View → Type 0} (f : Reducer → Reducer)
    → ((r : Reducer) → view (f r) ≡ view r)
    → Holds (Unit {0}) P (modify f) (λ a. P)
unfolding accepts
holds_modify f same = record { go = λ r c h p. (c, refl, (rw (same r) h, rw (same r) p)) }

pub holds_gets : {A : Type 0} {P : View → Type 0} (f : Reducer → A) → Holds A P (gets f) (λ a. P)
unfolding accepts
holds_gets f = record { go = λ r c h p. (c, refl, (h, p)) }

-- A test whose outcome the view tells.
pub holds_gets-view :
    {A : Type 0} {P : View → Type 0} (g : View → A)
    → Holds A P (gets (λ r. g (view r))) (λ a v. (g v ≡ a) × P v)
unfolding accepts
holds_gets-view g = record { go = λ r c h p. (c, refl, (h, (refl, p))) }

pub holds_if :
    {A : Type 0} {P : View → Type 0} {m n : M A} {Q : A → View → Type 0} (b : Bool)
    → Holds A P m Q
    → Holds A P n Q
    → Holds A P (if b then m else n) Q
holds_if true h k = h
holds_if false h k = k

pub holds_any :
    {A : Type 0} {P : View → Type 0} {m : M A} {Q : A → View → Type 0}
    → Holds A P m Q
    → Holds A P m (λ a. Any)
holds_any h = holds_weaken (λ v p. p) (λ a v q. tt) h

-- A method that emits nothing, and changes nothing that the view has.
pub holds_quiet :
    {A : Type 0} {P : View → Type 0} (m : M A)
    → ((r : Reducer) → ((m r).1 ≡ []) × (view (m r).2 ≡ view r))
    → Holds A P m (λ a. P)
unfolding accepts
holds_quiet {P = P} m same = record {
  go = λ r c h p. (c, ap (accepts c) (same r).0, (rw (same r).1 h, rw (same r).1 p));
}

-- A predicate on whether a text block and a thinking block are open.
abbrev pub Flags : (Bool → Bool → Type 0) → View → Type 0
Flags P v = P v.text_active v.thinking_active
