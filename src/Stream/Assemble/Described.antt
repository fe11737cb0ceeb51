-- ===== src/Stream/Assemble/Described.antt =====
-- What the events of a message stream describe, whatever the order in which blocks are written.
use Prim.Native.String
use text.Mathlib.TextLemmas.{append_assoc}
use claudodex.Common.{
  ℕ, suc, String, ◌≡◌, ◌≢◌, refl, sym, ap, ◌∙◌, Bool-cases, inl, inr, Option, none, some, List, [],
  ◌∷◌, ◌==◌, string_key, if◌then◌else◌,
}
use claudodex.Common.Int.{ℤ, pos, eqb_ℤ, eqb_ℤ_iff}
use claudodex.Json.{Codec}
use claudodex.Stream.{
  Usage, Block, thinking_block, Delta, Sse, message_start, content_block_start, content_block_delta,
  message_delta, error_event,
}
use claudodex.Stream.Assemble.{
  text_of, thinking_of, signature_of, partial_json_of, Content, content_of,
}

abbrev pub first_error : List Sse → Option Sse
first_error [] = none
first_error (error_event type message ∷ es) = some (error_event type message)
first_error (_ ∷ es) = first_error es

-- What the deltas at an index say, put together.
abbrev pub said : (Delta → String) → ℕ → List Sse → String
said pick n [] = ""
said pick n (content_block_delta i d ∷ es) =
    let rest = said pick n es in if eqb_ℤ i (pos n) then String.◌++◌ (pick d) rest else rest
said pick n (_ ∷ es) = said pick n es

-- The text of a block comes from the deltas of its kind.
abbrev pub said_by : Block → Delta → String
said_by thinking_block = thinking_of
said_by _ = text_of

-- The blocks that are started, with the deltas that follow at their index, counted from n.
abbrev pub contents : Codec → ℕ → List Sse → List Content
contents codec n [] = []
contents codec n (content_block_start i b ∷ es) =
    content_of codec b (said (said_by b) n es) (said signature_of n es) (said partial_json_of n es)
    ∷ contents codec (suc n) es
contents codec n (_ ∷ es) = contents codec n es

abbrev pub last_id : String → List Sse → String
last_id id [] = id
last_id id (message_start next model usage ∷ es) = last_id (if next == "" then id else next) es
last_id id (_ ∷ es) = last_id id es

abbrev pub last_stop : String × Usage → List Sse → String × Usage
last_stop stop [] = stop
last_stop stop (message_delta reason usage ∷ es) = last_stop (reason, usage) es
last_stop stop (_ ∷ es) = last_stop stop es

pub said-here :
    (pick : Delta → String) (k : ℕ) (d : Delta) (es : List Sse)
    → said pick k (content_block_delta (pos k) d ∷ es) ≡ String.◌++◌ (pick d) (said pick k es)
said-here pick k d es = rw ((eqb_ℤ_iff (pos k) (pos k)).1 refl) refl

pub said-other :
    (pick : Delta → String) (k : ℕ) (i : ℤ) (d : Delta) (es : List Sse)
    → i ≢ pos k
    → said pick k (content_block_delta i d ∷ es) ≡ said pick k es
said-other pick k i d es ne = elim (Bool-cases (eqb_ℤ i (pos k))) [
  | inl e ↦ absurd (ne ((eqb_ℤ_iff i (pos k)).0 e))
  | inr e ↦ rw e refl
]

pub said-append :
    (pick : Delta → String) (s : String) (k : ℕ) (d : Delta) (es : List Sse)
    → String.◌++◌ (String.◌++◌ s (pick d)) (said pick k es)
      ≡ String.◌++◌ s (said pick k (content_block_delta (pos k) d ∷ es))
said-append pick s k d es =
    append_assoc s (pick d) (said pick k es) ∙ ap (String.◌++◌ s) (sym (said-here pick k d es))
