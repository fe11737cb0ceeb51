-- ===== src/Convert/Types.antt =====
-- internal/convert/request.go: requests of the Anthropic API, and what the conversion takes and gives.
use claudodex.Common.{String, Bool, Option, List, string_key}
use claudodex.Common.Int.{ℤ}
use claudodex.Common.Dict.{Dict}
use claudodex.Json.{Json, Fields}
use claudodex.ModelConfig.{Config}
use claudodex.Effort.{}
use claudodex.Catalog.{ModelInfo, LookupError}
use claudodex.Codex.{Request}
use claudodex.Convert.Messages.{Library, BadRequest, AnthropicMessage}
use claudodex.Convert.Tools.{AnthropicTool}
use claudodex.Convert.Instructions.{Templates}

-- The limit on tokens is read and not used.
pub record AnthropicRequest : Type 0 where
  pub model : String
  pub system : Option Json
  pub messages : List AnthropicMessage
  pub tools : List AnthropicTool
  pub tool_choice : Option Json
  pub thinking_type : String
  pub budget_tokens : ℤ
  pub output_effort : String
  pub output_format : Option Json
  pub speed : String
  pub stream : Option Bool

-- A nil catalog is `none`.
pub record ConvertOptions : Type 0 where
  pub session_id : String
  pub agent_id : String
  pub request_class : String
  pub models : Config
  pub codex_models : Option (List ModelInfo)
  pub client_version : String

pub record Result : Type 0 where
  pub request : Request
  pub original_model : String
  pub stream : Bool
  pub tool_schemas : Dict String Fields
  pub plan_file_path : String
  pub route_session_id : String
  pub parent_thread_id : String
  pub subagent : String
  pub web_search_max_uses : ℤ
  pub fast_mode_fallback : Bool
  pub stateless_subagent : Bool

pub data ConvertError : Type 0 where
  blocked_domains invalid_agent_id no_ordinary_level no_random_bytes : ConvertError
  bad_request : BadRequest → ConvertError
  bad_model : LookupError → ConvertError

-- What the conversion takes from its surroundings: the library functions, the constant texts, the time in
-- microseconds, and the hexadecimal digits of 16 random bytes (`none` if there are none).
pub record Surroundings : Type 0 where
  pub library : Library
  pub templates : Templates
  pub now : ℤ
  pub nonce : Option String
