-- ===== src/Stream.antt =====
-- internal/convert/stream.go: `StreamReducer`, which turns the events of a Codex response into the
-- events of an Anthropic message stream. This file has the types; the children have the methods.
pub mod Counts
pub mod Blocks
pub mod Thinking
pub mod Search
pub mod Tools
pub mod ToolArgs
pub mod Failure
pub mod Finish
pub mod Items
pub mod Reduce
pub mod Client
pub mod Slots
pub mod Live
pub mod Assemble
mod Tests
use claudodex.Common.{
  ℕ, zero, suc, ◌+◌, String, Bool, true, false, Option, none, some, List, [], ◌∷◌, ◌++◌,
}
use claudodex.Common.Int.{ℤ, pos, negsuc}
use claudodex.Common.Dict.{Dict}
use claudodex.Json.{Json, Fields}
use claudodex.ModelConfig.{Config}

-- Token counts are Go ints. Their sums stay far below 2^63, so ℤ has no wrap.
pub record Usage : Type 0 where
  pub input_tokens : ℤ
  pub cache_creation_input_tokens : ℤ
  pub cache_read_input_tokens : ℤ
  pub output_tokens : ℤ

abbrev pub zero_usage : Usage
zero_usage = record {
  input_tokens = pos 0;
  cache_creation_input_tokens = pos 0;
  cache_read_input_tokens = pos 0;
  output_tokens = pos 0;
}

-- A `web_search_result`: its type and its empty encrypted_content are constant.
pub record Hit : Type 0 where
  pub title : String
  pub url : String

-- The content of a web_search_tool_result: the hits, or an error code.
pub data SearchContent : Type 0 where
  hits : List Hit → SearchContent
  search_error : String → SearchContent

-- The content_block of a start event. A thinking block starts with an empty signature, and a tool
-- block with an empty input.
pub data Block : Type 0 where
  text_block thinking_block : Block
  tool_use : (id name : String) → Block
  server_tool_use : (id : String) → Block
  web_search_tool_result : (tool_use_id : String) → SearchContent → Block

pub data Delta : Type 0 where
  text_delta thinking_delta signature_delta input_json_delta : String → Delta

-- `AnthropicSSE`: the event's name, with the fields of its data that are not constant.
pub data Sse : Type 0 where
  message_start : (id model : String) → Usage → Sse
  content_block_start : ℤ → Block → Sse
  content_block_delta : ℤ → Delta → Sse
  content_block_stop : ℤ → Sse
  message_delta : (stop_reason : String) → Usage → Sse
  message_stop : Sse
  error_event : (type message : String) → Sse

pub record ToolState : Type 0 where
  pub output_index : ℤ
  pub block_index : ℤ
  pub item_id : String
  pub call_id : String
  pub name : String
  pub args : String
  pub active : Bool
  pub saw_delta : Bool
  pub sent_args : Bool
  pub sent_start : Bool

pub record WebSearch : Type 0 where
  pub item_id : String
  pub anthropic_id : String
  pub query : String
  pub use_emitted : Bool
  pub result_emitted : Bool
  pub found : List Hit
  pub error_code : String

-- The tool states and searches live in `tools` and `web_searches`; a pointer is a position there,
-- and the maps hold pointers, so that two keys may lead to one state.
pub record Reducer : Type 0 where
  pub message_id : String
  pub model : String
  pub tool_schemas : Dict String Fields
  pub agent_models : Config
  pub plan_file_path : String
  pub fallback_input_tokens : ℤ
  pub initial_input_usage : Usage
  pub started : Bool
  pub done : Bool
  pub needs_follow_up : Bool
  pub next_index : ℕ
  pub text_active : Bool
  pub text_index : ℤ
  pub text_saw_delta : Bool
  pub thinking_active : Bool
  pub thinking_index : ℤ
  pub thinking_saw_delta : Bool
  pub thinking_saw_summary : Bool
  pub thinking_summary_part : ℤ
  pub thinking_pending : String
  pub thinking_blocks : ℕ
  pub visible_blocks : ℕ
  pub output_chars : ℕ
  pub tools : List ToolState
  pub tool_by_output : Dict ℤ ℕ
  pub tool_by_item_id : Dict String ℕ
  pub tool_by_call_id : Dict String ℕ
  pub tool_blocks : ℕ
  pub web_search_by_item_id : Dict String ℕ
  pub web_searches : List WebSearch
  pub web_search_hits : List Hit
  pub web_search_text : String
  pub web_search_max_uses : ℤ
  pub web_search_uses : ℕ
  pub usage : Usage
  pub failed : Bool
  pub failure_type : String
  pub failure_code : String
  pub failure_message : String
  pub failure_retry_after : ℤ
  pub failure_retry_set : Bool
  pub failure_retryable : Bool

-- A method of the reducer: its result, the events that it returns, and the reducer after it.
abbrev pub M {ℓ} : Type ℓ → Type ℓ
M A = Reducer → A × List Sse × Reducer

infixl 5 ◌>>=◌ ◌>>◌
abbrev pub ◌>>=◌ {ℓ κ} : {A : Type ℓ} {B : Type κ} → M A → (A → M B) → M B
◌>>=◌ m f r = let (a, es, s) = m r in let (b, fs, t) = f a s in (b, es ++ fs, t)

abbrev pub ◌>>◌ {ℓ} : {B : Type ℓ} → M (Unit {0}) → M B → M B
m >> k = m >>= λ _. k

abbrev pub pure {ℓ} : {A : Type ℓ} → A → M A
pure a r = (a, [], r)

-- Nothing happens: `return nil`.
abbrev pub skip : M (Unit {0})
skip r = (tt, [], r)

abbrev pub emit : List Sse → M (Unit {0})
emit es r = (tt, es, r)

abbrev pub gets {ℓ} : {A : Type ℓ} → (Reducer → A) → M A
gets f r = (f r, [], r)

abbrev pub modify : (Reducer → Reducer) → M (Unit {0})
modify f r = (tt, [], f r)
