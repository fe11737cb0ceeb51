-- ===== src/Convert/Instructions.antt =====
-- internal/convert/request.go: what the instructions of a request say of it, and what is added to them.
use Prim.Native.Char.{Char, code}
use Prim.Native.String
use Prim.Native.String.{[] as nil, ◌∷◌ as cons}
use mathlib.Core.Option
use claudodex.Common.{
  ℕ, zero, suc, ◌-◌, String, Bool, true, ◌&&◌, ◌||◌, not, Option, none, some, List, [], ◌∷◌, ◌++◌,
  any, leb, nat_eq, ◌==◌, string_key, if◌then◌else◌,
}
use claudodex.Common.Text.{
  first_nonempty, trim_space, trim_left, trim_right, to_lower, contains, has_prefix, strip_prefix,
  size,
}
use claudodex.Json.{str}
use claudodex.ModelConfig.{Config, normalize}
use claudodex.Codex.{ContentPart, InputItem, Output, value}

-- A non-empty run of characters up to `suf`, as short as possible, in which no character stops it.
unfoldable pub capture : (Char → Bool) → (suf : String) → String → Option String
unfolding has_prefix
capture stop suf nil = none
capture stop suf (cons c s) =
    let rest = capture stop suf s in
    if stop c
    then none
    else if has_prefix s suf
    then some (cons c nil)
    else Option.map (λ t. cons c t) rest

abbrev capture_after : (Char → Bool) → String → Option String → Option String
capture_after stop suf none = none
capture_after stop suf (some t) = capture stop suf t

abbrev or_later : Option String → Option String → Option String
or_later (some group) later = some group
or_later none later = later

-- FindStringSubmatch of a pattern `pre`, one group, `suf`: the group of the leftmost match.
unfoldable pub find_capture :
    (pre : String) → (Char → Bool) → (suf : String) → String → Option String
unfolding capture strip_prefix
find_capture pre stop suf nil = none
find_capture pre stop suf (cons c s) =
    or_later (capture_after stop suf (strip_prefix pre (cons c s))) (find_capture pre stop suf s)

abbrev is_newline : Char → Bool
is_newline c = nat_eq (code c) 10

abbrev is_newline_or_close : Char → Bool
is_newline_or_close c = nat_eq (code c) 10 || nat_eq (code c) 41

abbrev is_backtick : Char → Bool
is_backtick c = nat_eq (code c) 96

abbrev plan_path : Option String → String
plan_path none = ""
plan_path (some path) = trim_right is_backtick (trim_left is_backtick (trim_space path))

unfoldable pub claude_code_plan_file_path : String → String
unfolding find_capture
claude_code_plan_file_path instructions =
    first_nonempty
      (plan_path (
        find_capture "No plan file exists yet. You should create your plan at " is_newline
          " using the " instructions))
      (first_nonempty
        (plan_path (
          find_capture "A plan file already exists at " is_newline ". You can read it"
            instructions))
        (plan_path
          (find_capture "Read-only except plan file (" is_newline_or_close ")" instructions)))

-- The first pair whose name the text begins with.
abbrev replacement_at : List (String × String) → String → Option (String × String)
replacement_at [] s = none
replacement_at ((name, with_text) ∷ rest) s =
    if has_prefix s name then some (name, with_text) else replacement_at rest s

-- strings.NewReplacer(...).Replace: `skip` characters of a name that was replaced are still to go.
unfoldable pub replace_names : List (String × String) → (skip : ℕ) → String → String
unfolding has_prefix size
replace_names names skip nil = nil
replace_names names (suc skip) (cons c s) = replace_names names skip s
replace_names names zero (cons c s) = elim (replacement_at names (cons c s)) [
  | none ↦ cons c (replace_names names zero s)
  | some (name, with_text) ↦ String.◌++◌ with_text (replace_names names (size name - 1) s)
]

-- The two constant texts of the source, which are only put together.
pub record Templates : Type 0 where
  pub compatibility : String
  pub ordinary_subagent : String

abbrev paragraphs : String → String → String
paragraphs a b = String.◌++◌ a (String.◌++◌ "\n\n" b)

unfoldable pub with_claude_code_compatibility_instructions :
    Templates → String → Bool → Config → String
unfolding replace_names
with_claude_code_compatibility_instructions templates instructions ordinary_subagent config =
    let given = trim_space instructions in
    let models = normalize config in
    let compatibility =
      replace_names
        (("{{OPUS_MODEL}}", models.opus)
          ∷ ("{{SONNET_MODEL}}", models.sonnet)
          ∷ ("{{HAIKU_MODEL}}", models.haiku)
          ∷ ("{{FABLE_MODEL}}", models.fable)
          ∷ [])
        0 templates.compatibility in
    let whole =
      if ordinary_subagent
      then paragraphs compatibility templates.ordinary_subagent
      else compatibility in
    if given == "" then whole else paragraphs given whole

unfoldable pub is_claude_code_subagent_instructions : String → Bool
is_claude_code_subagent_instructions instructions =
    let normalized = to_lower instructions in
    contains normalized "you are an agent for claude code"
    || contains normalized "agent threads always have their cwd reset between bash calls"

unfoldable pub part_texts : List ContentPart → List String
part_texts [] = []
part_texts (p ∷ ps) = let rest = part_texts ps in if p.text == "" then rest else p.text ∷ rest

abbrev content_texts : Option (List ContentPart) → List String
content_texts none = []
content_texts (some ps) = part_texts ps

abbrev if_text : String → List String
if_text s = if s == "" then [] else s ∷ []

abbrev result_value_texts : Option Output → List String
result_value_texts (some (value (str s))) = if_text s
result_value_texts _ = []

unfoldable pub input_text_for_routing : List InputItem → List String
unfolding part_texts
input_text_for_routing [] = []
input_text_for_routing (item ∷ items) =
    content_texts item.content
    ++ result_value_texts item.output
    ++ if_text item.arguments
    ++ input_text_for_routing items

abbrev is_teammate_text : String → Bool
is_teammate_text text =
    let normalized = to_lower text in
    contains normalized "# agent teammate communication"
    || contains normalized "you are a teammate in team"
    || contains normalized "you are running as an agent in a team"

unfoldable pub is_claude_code_team_teammate : String → List InputItem → Bool
unfolding input_text_for_routing
is_claude_code_team_teammate instructions input =
    any is_teammate_text (instructions ∷ input_text_for_routing input)

abbrev is_agent_id_char : Char → Bool
is_agent_id_char c =
    let n = code c in
    (leb 97 n && leb n 122)
    || (leb 65 n && leb n 90)
    || (leb 48 n && leb n 57)
    || nat_eq n b'_'
    || nat_eq n b'-'

unfoldable pub all_agent_id_chars : String → Bool
all_agent_id_chars nil = true
all_agent_id_chars (cons c s) = is_agent_id_char c && all_agent_id_chars s

-- `validClaudeAgentID`; a valid id is ASCII, so that its length is the number of its characters.
unfoldable pub valid_claude_agent_id : String → Bool
unfolding all_agent_id_chars size
valid_claude_agent_id id = not (id == "") && leb (size id) 80 && all_agent_id_chars id
