-- ===== src/Stream/Client.antt =====
-- A client of the Anthropic message stream: the order of events that it goes by, written from the
-- protocol without regard to the reducer. A tool block may be open when the message ends, and may be
-- written and stopped again after its stop, since a Codex event may name a call that is done; nothing
-- else may.
use claudodex.Common.{
  Bool, true, false, ◌&&◌, ◌||◌, not, Option, none, some, List, [], ◌∷◌, ◌++◌, ◌≡◌, if◌then◌else◌,
  arith, String, Option-cases, Bool-cases, ◌≢◌, refl, sym, ap, ◌∙◌, inl, inr,
}
use claudodex.Common.Int.{ℤ, eqb_ℤ, eqb_ℤ_iff}
use claudodex.Stream.{
  Usage, Sse, message_start, content_block_start, content_block_delta, content_block_stop,
  message_delta, message_stop, error_event, Block, text_block, thinking_block, tool_use,
  server_tool_use, web_search_tool_result, Delta, text_delta, thinking_delta, signature_delta,
  input_json_delta,
}

-- What a client knows of a block's index.
pub data Status : Type 0 where
  fresh open_text open_thinking open_search open_tool closed_tool closed : Status

pub record Client : Type 0 where
  pub started : Bool
  pub closing : Bool
  pub ended : Bool
  pub text_open : Bool
  pub thinking_open : Bool
  pub search_open : Bool
  pub status : ℤ → Status

abbrev pub new_client : Client
new_client = record {
  started = false;
  closing = false;
  ended = false;
  text_open = false;
  thinking_open = false;
  search_open = false;
  status = λ i. fresh;
}

abbrev pub update : (ℤ → Status) → ℤ → Status → ℤ → Status
update status i s j = if eqb_ℤ i j then s else status j

abbrev pub is_fresh : Status → Bool
is_fresh fresh = true
is_fresh _ = false

-- Blocks stand between the start of the message and its delta.
abbrev pub receiving : Client → Bool
receiving c = c.started && not c.closing && not c.ended

abbrev pub opens : Block → Client → ℤ → Option Client
opens text_block c i =
    if c.text_open
    then none
    else some (record c { text_open = true; status = update c.status i open_text })
opens thinking_block c i =
    if c.thinking_open
    then none
    else some (record c { thinking_open = true; status = update c.status i open_thinking })
opens (tool_use id name) c i = some (record c { status = update c.status i open_tool })
opens (server_tool_use id) c i =
    if c.search_open
    then none
    else some (record c { search_open = true; status = update c.status i open_search })
opens (web_search_tool_result id content) c i =
    if c.search_open
    then none
    else some (record c { search_open = true; status = update c.status i open_search })

-- Which delta a block of this status takes.
abbrev pub fits : Delta → Status → Bool
fits (text_delta s) open_text = true
fits (thinking_delta s) open_thinking = true
fits (signature_delta s) open_thinking = true
fits (input_json_delta s) open_search = true
fits (input_json_delta s) open_tool = true
fits (input_json_delta s) closed_tool = true
fits _ _ = false

abbrev pub closes : Status → Client → ℤ → Option Client
closes open_text c i = some (record c { text_open = false; status = update c.status i closed })
closes open_thinking c i =
    some (record c { thinking_open = false; status = update c.status i closed })
closes open_search c i = some (record c { search_open = false; status = update c.status i closed })
closes open_tool c i = some (record c { status = update c.status i closed_tool })
closes closed_tool c i = some c
closes _ c i = none

unfoldable pub accept : Client → Sse → Option Client
accept c (message_start id model usage) =
    if c.started || c.ended then none else some (record c { started = true })
accept c (content_block_start i block) =
    if receiving c && is_fresh (c.status i) then opens block c i else none
accept c (content_block_delta i delta) =
    if receiving c && fits delta (c.status i) then some c else none
accept c (content_block_stop i) = if receiving c then closes (c.status i) c i else none
accept c (message_delta stop_reason usage) =
    if receiving c && not (c.text_open || c.thinking_open || c.search_open)
    then some (record c { closing = true })
    else none
accept c message_stop = if c.closing && not c.ended then some (record c { ended = true }) else none
accept c (error_event type message) = if c.ended then none else some (record c { ended = true })

abbrev pub then_accept : Option Client → (Client → Option Client) → Option Client
then_accept none f = none
then_accept (some c) f = f c

-- Every event in turn; `none` is an event that the protocol does not allow.
unfoldable pub accepts : Client → List Sse → Option Client
accepts c [] = some c
accepts c (e ∷ es) = elim (accept c e) [ none ↦ none | some c' ↦ accepts c' es ]

pub accepts-cons :
    (c : Client) (e : Sse) (es : List Sse) (c' : Client)
    → accept c e ≡ some c'
    → accepts c (e ∷ es) ≡ accepts c' es
unfolding accepts
accepts-cons c e es c' taken = rw (taken, accepts) refl

pub accepts-append :
    (c : Client) (es fs : List Sse) (d : Client)
    → accepts c es ≡ some d
    → accepts c (es ++ fs) ≡ accepts d fs
unfolding accepts
accepts-append c [] fs d h = ground arith
accepts-append c (e ∷ es) fs d h = elim (Option-cases (accept c e)) [
  | inl refused ↦ ground arith
  | inr (c', taken) ↦
      accepts-cons c e (es ++ fs) c' taken
      ∙ accepts-append c' es fs d (sym (accepts-cons c e es c' taken) ∙ h)
]

pub accept-start :
    (c : Client) (i : ℤ) (b : Block)
    → receiving c ≡ true
    → c.status i ≡ fresh
    → accept c (content_block_start i b) ≡ opens b c i
unfolding accept
accept-start c i b h f =
    ap (λ x. if x && is_fresh (c.status i) then opens b c i else none) h
    ∙ ap (λ x. if is_fresh x then opens b c i else none) f

pub accept-delta :
    (c : Client) (i : ℤ) (d : Delta) (s : Status)
    → receiving c ≡ true
    → c.status i ≡ s
    → fits d s ≡ true
    → accept c (content_block_delta i d) ≡ some c
unfolding accept
accept-delta c i d s h f ok =
    ap (λ x. if x && fits d (c.status i) then some c else none) h
    ∙ ap (λ x. if fits d x then some c else none) f
    ∙ ap (λ x. if x then some c else none) ok

pub accept-stop :
    (c : Client) (i : ℤ) (s : Status)
    → receiving c ≡ true
    → c.status i ≡ s
    → accept c (content_block_stop i) ≡ closes s c i
unfolding accept
accept-stop c i s h f =
    ap (λ x. if x then closes (c.status i) c i else none) h ∙ ap (λ x. closes x c i) f

pub accepts-one :
    (c : Client) (e : Sse) (d : Client) → accept c e ≡ some d → accepts c (e ∷ []) ≡ some d
unfolding accepts
accepts-one c e d h = accepts-cons c e [] d h

pub update-other :
    (status : ℤ → Status) (i j : ℤ) (s a b : Status)
    → status i ≡ a
    → status j ≡ b
    → a ≢ b
    → update status i s j ≡ b
update-other status i j s a b hi hj ne = elim (Bool-cases (eqb_ℤ i j)) [
  | inl e ↦ absurd (ne (sym hi ∙ ap status ((eqb_ℤ_iff i j).0 e) ∙ hj))
  | inr e ↦ rw e hj
]

pub update_self : (status : ℤ → Status) (i : ℤ) (s : Status) → update status i s i ≡ s
update_self status i s = rw ((eqb_ℤ_iff i i).1 refl) refl

pub accept-close :
    (c : Client) (reason : String) (usage : Usage)
    → receiving c ≡ true
    → c.text_open || c.thinking_open || c.search_open ≡ false
    → accept c (message_delta reason usage) ≡ some (record c { closing = true })
unfolding accept
accept-close c reason usage on shut =
    ap
      (λ x.
        if x && not (c.text_open || c.thinking_open || c.search_open)
        then some (record c { closing = true })
        else none)
      on
    ∙ ap (λ x. if not x then some (record c { closing = true }) else none) shut

pub accept-end :
    (c : Client)
    → c.closing ≡ true
    → c.ended ≡ false
    → accept c message_stop ≡ some (record c { ended = true })
unfolding accept
accept-end c on live =
    ap (λ x. if x && not c.ended then some (record c { ended = true }) else none) on
    ∙ ap (λ x. if not x then some (record c { ended = true }) else none) live

pub accept-error :
    (c : Client) (type message : String)
    → c.ended ≡ false
    → accept c (error_event type message) ≡ some (record c { ended = true })
unfolding accept
accept-error c type message live =
    ap (λ x. if x then none else some (record c { ended = true })) live

pub accept-begin :
    (c : Client) (id model : String) (usage : Usage)
    → c.started ≡ false
    → c.ended ≡ false
    → accept c (message_start id model usage) ≡ some (record c { started = true })
unfolding accept
accept-begin c id model usage new live =
    ap (λ x. if x || c.ended then none else some (record c { started = true })) new
    ∙ ap (λ x. if x then none else some (record c { started = true })) live
