-- ===== src/Json.antt =====
-- Go's `any` as json.Unmarshal fills it, and the field readers of internal/convert/stream.go.
-- A number is kept as its whole part, toward zero, which is what int() of the float64 gives, and a
-- code of its fraction (0 for a whole number). A nil map is `none`; reading it gives nil.
use claudodex.Common.{
  ℕ, String, Bool, Option, none, some, List, [], ◌∷◌, ◌==◌, string_key, if◌then◌else◌,
}
use claudodex.Common.Int.{ℤ}

mutual
  pub data Json : Type 0 where
    null : Json
    bool : Bool → Json
    num : (whole : ℤ) → (fraction : ℕ) → Json
    str : String → Json
    arr : Items → Json
    obj : Fields → Json

  pub data Items : Type 0 where
    nil : Items
    cons : Json → Items → Items

  pub data Fields : Type 0 where
    end : Fields
    field : String → Json → Fields → Fields

abbrev pub items : Items → List Json
items nil = []
items (cons v vs) = v ∷ items vs

abbrev pub fields : Fields → List (String × Json)
fields end = []
fields (field k v fs) = (k, v) ∷ fields fs

unfoldable pub field_at : String → Fields → Json
field_at k end = null
field_at k (field j v fs) = if j == k then v else field_at k fs

-- m[k], on a map that may be nil
abbrev pub at : Option Fields → String → Json
at none k = null
at (some fs) k = field_at k fs

-- v.(map[string]any), comma-ok
abbrev pub as_map : Json → Option Fields
as_map (obj fs) = some fs
as_map _ = none

-- v.([]any), comma-ok; a nil slice and an empty one are one
abbrev pub as_list : Json → List Json
as_list (arr vs) = items vs
as_list _ = []

-- v.(string), comma-ok, with "" for no string
abbrev pub as_str : Json → String
as_str (str s) = s
as_str _ = ""

-- v.(bool), comma-ok
abbrev pub as_bool : Json → Option Bool
as_bool (bool b) = some b
as_bool _ = none

unfoldable pub int_field : Json → ℤ → ℤ
int_field (num whole fraction) fallback = whole
int_field _ fallback = fallback

-- The first non-empty text among the fields that `stringField` tries.
unfoldable pub first_text : Fields → List String → String
first_text fs [] = ""
first_text fs (k ∷ ks) =
    let s = as_str (field_at k fs) in let rest = first_text fs ks in if s == "" then rest else s

unfoldable pub string_field : Json → String
unfolding first_text field_at
string_field (str s) = s
string_field (obj fs) = first_text fs ("text" ∷ "arguments" ∷ "partial_json" ∷ "delta" ∷ [])
string_field _ = ""

-- Assignment and deletion of one field. The order of a Go map is not kept, and no reader sees it.
unfoldable pub set_field : String → Json → Fields → Fields
set_field k v end = field k v end
set_field k v (field j w fs) = if j == k then field k v fs else field j w (set_field k v fs)

unfoldable pub remove_field : String → Fields → Fields
remove_field k end = end
remove_field k (field j w fs) =
    let rest = remove_field k fs in if j == k then rest else field j w rest

-- What the reducer takes from encoding/json, and the two readers of waiting times, which work on
-- floating point numbers, a regular expression and the clock. `decode_map` is json.Unmarshal into a
-- map[string]any: `none` for an error and `some none` for a nil map. Times are in nanoseconds.
pub record Codec : Type 0 where
  pub decode_map : String → Option (Option Fields)
  pub encode_map : Fields → Option String
  pub format_number : ℤ → ℕ → String
  pub parse_retry_after : String → Option ℤ
  pub retry_after_from_message : String → ℤ
