-- ===== src/ModelConfig/Specs.antt =====
-- internal/modelconfig/catalog.go: pins, and the tables of names that a client may ask for.
use Prim.Native.String
use claudodex.Common.{String, Bool, true, List, [], ◌∷◌, if◌then◌else◌}
use claudodex.Common.Text.{to_lower}
use claudodex.ModelConfig.{
  Family, opus, sonnet, haiku, fable, Config, normalize, with_long_context, holds,
}

-- The four bits of the type `Pins`; no other bit is ever set or read.
pub record Pins : Type 0 where
  pub pin_opus : Bool
  pub pin_sonnet : Bool
  pub pin_haiku : Bool
  pub pin_fable : Bool

abbrev pub has : Pins → Family → Bool
has p opus = p.pin_opus
has p sonnet = p.pin_sonnet
has p haiku = p.pin_haiku
has p fable = p.pin_fable

-- `With`
abbrev pub with_pin : Pins → Family → Pins
with_pin p opus = record p { pin_opus = true }
with_pin p sonnet = record p { pin_sonnet = true }
with_pin p haiku = record p { pin_haiku = true }
with_pin p fable = record p { pin_fable = true }

-- The text of a Family constant.
abbrev pub family_name : Family → String
family_name opus = "opus"
family_name sonnet = "sonnet"
family_name haiku = "haiku"
family_name fable = "fable"

pub record ClaudeModelSpec : Type 0 where
  pub id : String
  pub display_name : String
  pub family : Family

abbrev spec : String → String → Family → ClaudeModelSpec
spec i d f = record { id = i; display_name = d; family = f }

-- fmt.Sprintf("<title> (%s)", model)
abbrev titled : String → String → String
titled title model = String.◌++◌ title (String.◌++◌ " (" (String.◌++◌ model ")"))

unfoldable pub claude_alias_specs : Config → List ClaudeModelSpec
claude_alias_specs config =
    let c = normalize config in
    spec "claude-opus-5" (titled "Opus 5" c.opus) opus
    ∷ spec "claude-opus-4-8" (titled "Opus 4.8" c.opus) opus
    ∷ spec "claude-opus-4-6" (titled "Opus" c.opus) opus
    ∷ spec "claude-opus-4-7" (titled "Opus 4.7" c.opus) opus
    ∷ spec "claude-sonnet-4-6" (titled "Sonnet" c.sonnet) sonnet
    ∷ spec "claude-haiku-4-5" (titled "Haiku" c.haiku) haiku
    ∷ spec "claude-fable-5" (titled "Fable" c.fable) fable
    ∷ spec "claude-fable-5-5" (titled "Fable 5.5" c.fable) fable
    ∷ []

unfoldable pub family_alias_specs : List ClaudeModelSpec
family_alias_specs =
    spec "opus" "Opus" opus
    ∷ spec "sonnet" "Sonnet" sonnet
    ∷ spec "haiku" "Haiku" haiku
    ∷ spec "fable" "Fable" fable
    ∷ []

-- The loop of `dedupeSpecs`: `seen` holds the lowered ids that were taken.
unfoldable pub dedupe_from : List String → List ClaudeModelSpec → List ClaudeModelSpec
dedupe_from seen [] = []
dedupe_from seen (s ∷ ss) =
    let key = to_lower s.id in
    let taken = s ∷ dedupe_from (key ∷ seen) ss in
    let skipped = dedupe_from seen ss in if holds key seen then skipped else taken

unfoldable pub dedupe_specs : List ClaudeModelSpec → List ClaudeModelSpec
unfolding dedupe_from
dedupe_specs specs = dedupe_from [] specs

unfoldable pub direct_model_specs : Config → List ClaudeModelSpec
unfolding dedupe_specs
direct_model_specs config =
    let c = normalize config in
    dedupe_specs (
      spec c.opus c.opus opus
      ∷ spec c.sonnet c.sonnet sonnet
      ∷ spec c.haiku c.haiku haiku
      ∷ spec c.fable c.fable fable
      ∷ [])

unfoldable pub direct_runtime_model_specs : Config → List ClaudeModelSpec
unfolding dedupe_specs
direct_runtime_model_specs config =
    let c = normalize config in
    dedupe_specs (
      spec (with_long_context c.opus) c.opus opus
      ∷ spec (with_long_context c.sonnet) c.sonnet sonnet
      ∷ spec (with_long_context c.haiku) c.haiku haiku
      ∷ spec (with_long_context c.fable) c.fable fable
      ∷ [])
