-- ===== src/Codex.antt =====
-- internal/codex/types.go: the requests to Codex and the items of a conversation.
-- A nil slice or pointer is `none`. A Go map is listed by the order of its keys, so that equal maps are
-- equal lists; a json.RawMessage is its text.
pub mod Equal
use claudodex.Common.{
  ℕ, String, Bool, true, false, ◌&&◌, ◌||◌, not, Option, none, some, List, [], ◌∷◌, ◌==◌,
  string_key, if◌then◌else◌,
}
use claudodex.Common.Int.{ℤ, pos, ltb_ℤ, eqb_ℤ}
use claudodex.Common.Text.{trim_space}
use claudodex.Common.Dict.{Dict}
use claudodex.Json.{Json, Items, Fields}

pub record ContentPart : Type 0 where
  pub part_type : String
  pub text : String
  pub image_url : String
  pub detail : String

-- What the field `Output any` holds: a decoded JSON value, or content that the conversion put there.
pub data Output : Type 0 where
  value : Json → Output
  parts : List ContentPart → Output

-- `create_time` is InternalChatMessageMetadataPassthrough: its float64 of seconds, in microseconds.
pub record InputItem : Type 0 where
  pub id : String
  pub item_type : String
  pub role : String
  pub content : Option (List ContentPart)
  pub call_id : String
  pub name : String
  pub arguments : String
  pub output : Option Output
  pub create_time : Option ℤ
  pub raw : Option (Dict String String)

pub record Reasoning : Type 0 where
  pub effort : String
  pub summary : String

pub record TextFormat : Type 0 where
  pub format_type : String
  pub name : String
  pub schema : Option Fields
  pub strict : Option Bool

-- WebSearchFilters is its list of allowed domains.
pub record WebSearchLocation : Type 0 where
  pub location_type : String
  pub country : String
  pub region : String
  pub city : String
  pub timezone : String

pub record Tool : Type 0 where
  pub tool_type : String
  pub name : String
  pub description : String
  pub parameters : Option Fields
  pub external_web_access : Option Bool
  pub indexed_web_access : Option Bool
  pub filters : Option (Option (List String))
  pub user_location : Option WebSearchLocation

-- `text` is TextConfig, which has only a format.
pub record Request : Type 0 where
  pub model : String
  pub stream : Bool
  pub service_tier : String
  pub instructions : String
  pub previous_response_id : String
  pub input : List InputItem
  pub tools : Option (List Tool)
  pub tool_choice : Option Json
  pub parallel_tool_calls : Bool
  pub store : Bool
  pub include : Option (List String)
  pub reasoning : Option Reasoning
  pub text : Option (Option TextFormat)
  pub prompt_cache_key : String
  pub client_metadata : Option (Dict String String)

pub record Route : Type 0 where
  pub session_id : String
  pub thread_id : String
  pub turn_id : String
  pub root_turn_id : String
  pub parent_thread_id : String
  pub subagent : String

abbrev unset : Option ℤ → Bool
unset none = true
unset (some t) = eqb_ℤ t (pos 0)

abbrev has_raw : Option (Dict String String) → Bool
has_raw none = false
has_raw (some []) = false
has_raw (some (x ∷ xs)) = true

unfoldable pub set_create_time_if_missing : ℤ → InputItem → InputItem
set_create_time_if_missing create_time i =
    let eligible =
      i.item_type == "function_call_output"
      || (i.item_type == "message" && (i.role == "user" || i.role == "developer")) in
    if not (ltb_ℤ (pos 0) create_time) || has_raw i.raw || not eligible || not (unset i.create_time)
    then i
    else record i { create_time = some create_time }

-- `with_id` stands for the hash of the cache key and the instructions, which is the id of the item.
unfoldable pub with_developer_instructions : (String → String → String) → Request → Request
unfolding trim_space
with_developer_instructions with_id r =
    let instructions = trim_space r.instructions in
    let part : ContentPart = record {
      part_type = "input_text";
      text = instructions;
      image_url = "";
      detail = "";
    } in
    let developer : InputItem = record {
      id = with_id (trim_space r.prompt_cache_key) instructions;
      item_type = "message";
      role = "developer";
      content = some (part ∷ []);
      call_id = "";
      name = "";
      arguments = "";
      output = none;
      create_time = none;
      raw = none;
    } in
    if instructions == "" then r else record r { input = developer ∷ r.input }
