-- ===== src/Effort/Laws.antt =====
-- Which efforts are chosen.
use mathlib.Core.Path.{subst}
use claudodex.Common.{
  String, ◌≡◌, refl, sym, ap, ◌∙◌, inl, inr, Bool, true, false, Option, none, some, Option-cases,
  Bool-cases, List, [], ◌∷◌, all, arith, ◌==◌, string_key, if◌then◌else◌,
}
use claudodex.Common.Int.{ℤ, pos, ltb_ℤ}
use claudodex.ModelConfig.{Config, normalize, supports_x_high}
use claudodex.Effort.{
  Effort, none_effort, minimal, low, medium, high, x_high, max, effort_name, ordinary_efforts, seen,
  ordinary_reasoning_levels, normalize_effort, budget_effort, requested_effort, default_level,
  for_levels, map_reasoning_effort_for_model, supports_max, allowed, effort_or,
  map_reasoning_effort_with_config,
}
use claudodex.Effort.Select.{
  Ascending, levels-Ascending, select_level-seen, seen_of-seen, Nearest, select_level-Nearest,
}

levels-seen :
    (supported : List String) → all (seen supported) (ordinary_reasoning_levels supported) ≡ true
unfolding ordinary_reasoning_levels
levels-seen supported = seen_of-seen supported ordinary_efforts

default_level-seen :
    (supported : List String) (name : String) (ls : List Effort) (d : Effort)
    → all (seen supported) ls ≡ true
    → default_level name ls ≡ some d
    → seen supported d ≡ true
unfolding default_level
default_level-seen supported name [] d h e = ground (arith, e)
default_level-seen supported name (l ∷ ls) d h e = elim (Bool-cases (effort_name l == name)) [
  | inl same ↦ ground (arith, h, e, same)
  | inr other ↦
      default_level-seen supported name ls d (ground (arith, h)) (ground (arith, e, other))
]

-- The error, which is for a model without ordinary levels, or a level that the model advertises.
pub data Advertised (supported : List String) (levels : List Effort) : Option Effort → Type 0 where
  refused : levels ≡ [] → Advertised supported levels none
  chosen : {e : Effort} → seen supported e ≡ true → Advertised supported levels (some e)

for_levels-Advertised :
    (supported : List String) (name : String) (asked : Option Effort) (ls : List Effort)
    → all (seen supported) ls ≡ true
    → Advertised supported ls (for_levels name asked ls)
for_levels-Advertised supported name asked [] h = Advertised.refused refl
for_levels-Advertised supported name (some q) (l ∷ ls) h =
    Advertised.chosen (select_level-seen supported l q (l ∷ ls) (ground (arith, h)) h)
for_levels-Advertised supported name none (l ∷ ls) h =
    elim (Option-cases (default_level name (l ∷ ls))) [
      | inl unknown ↦
          rw (unknown, for_levels)
            (Advertised.chosen
              (select_level-seen supported l medium (l ∷ ls) (ground (arith, h)) h))
      | inr (d, known) ↦
          rw (known, for_levels)
            (Advertised.chosen (default_level-seen supported name (l ∷ ls) d h known))
    ]

-- `MapReasoningEffortForModel` fails only for a model that advertises no ordinary level, and otherwise
-- returns a level that the model advertises, whatever the request asks for.
pub map_reasoning_effort_for_model-Advertised :
    (supported : List String) (default_name output_effort : String) (budget_tokens : ℤ)
    → Advertised supported
        (ordinary_reasoning_levels supported)
        (map_reasoning_effort_for_model supported default_name output_effort budget_tokens)
unfolding map_reasoning_effort_for_model
map_reasoning_effort_for_model-Advertised supported default_name output_effort budget_tokens =
    for_levels-Advertised supported default_name (requested_effort output_effort budget_tokens)
      (ordinary_reasoning_levels supported) (levels-seen supported)

for_levels-Nearest :
    (name : String) (q e : Effort) (ls : List Effort)
    → Ascending 0 ls
    → for_levels name (some q) ls ≡ some e
    → Nearest q ls e
for_levels-Nearest name q e [] up h = ground (arith, h)
for_levels-Nearest name q e (l ∷ ls) up h =
    subst (Nearest q (l ∷ ls)) (ground (arith, h)) (select_level-Nearest q l ls up)

-- A request for an effort, or a budget that stands for one, gets one of the model's ordinary levels: the
-- greatest that is not above it, or, if all of them are above it, the least.
pub map_reasoning_effort_for_model-Nearest :
    (supported : List String) (default_name output_effort : String) (budget_tokens : ℤ)
    (q e : Effort)
    → requested_effort output_effort budget_tokens ≡ some q
    → map_reasoning_effort_for_model supported default_name output_effort budget_tokens ≡ some e
    → Nearest q (ordinary_reasoning_levels supported) e
unfolding map_reasoning_effort_for_model
map_reasoning_effort_for_model-Nearest supported default_name output_effort budget_tokens q e asked
      got =
    for_levels-Nearest default_name q e (ordinary_reasoning_levels supported)
      (levels-Ascending supported)
      (ap (λ a. for_levels default_name a (ordinary_reasoning_levels supported)) (sym asked) ∙ got)

-- Only what a model supports: xhigh and max are given to a model that takes them.
abbrev pub Within : (max_ok x_high_ok : Bool) → Effort → Type 0
Within max_ok x_high_ok e = (e ≡ x_high → x_high_ok ≡ true) × (e ≡ max → max_ok ≡ true)

allowed-Within :
    (max_ok x_high_ok : Bool) (e : Effort) → Within max_ok x_high_ok (allowed max_ok x_high_ok e)
unfolding allowed
allowed-Within true true max = (λ h. refl, λ h. refl)
allowed-Within true false max = (λ h. ground (arith, h), λ h. refl)
allowed-Within false true max = (λ h. refl, λ h. ground (arith, h))
allowed-Within false false max = (λ h. ground (arith, h), λ h. ground (arith, h))
allowed-Within m true x_high = (λ h. refl, λ h. ground (arith, h))
allowed-Within m false x_high = (λ h. ground (arith, h), λ h. ground (arith, h))
allowed-Within m x none_effort = (λ h. ground (arith, h), λ h. ground (arith, h))
allowed-Within m x minimal = (λ h. ground (arith, h), λ h. ground (arith, h))
allowed-Within m x low = (λ h. ground (arith, h), λ h. ground (arith, h))
allowed-Within m x medium = (λ h. ground (arith, h), λ h. ground (arith, h))
allowed-Within m x high = (λ h. ground (arith, h), λ h. ground (arith, h))

budget-Within :
    (m x : Bool) (budget_tokens : ℤ)
    → Within m x (budget_effort budget_tokens (if x then x_high else high))
budget-Within m true budget_tokens = (λ h. refl, λ h. ground (arith, h))
budget-Within m false budget_tokens = (λ h. ground (arith, h), λ h. ground (arith, h))

if-Within :
    (m x b : Bool) (d e : Effort) → Within m x d → Within m x e → Within m x (if b then d else e)
if-Within m x true d e h k = h
if-Within m x false d e h k = k

effort_or-Within :
    (m x : Bool) (budget_tokens : ℤ) (d : Effort) (given : Option Effort)
    → Within m x d
    → Within m x (effort_or m x budget_tokens d given)
effort_or-Within m x budget_tokens d (some e) h = allowed-Within m x e
effort_or-Within m x budget_tokens d none h =
    if-Within m x (ltb_ℤ (pos 0) budget_tokens) _ d (budget-Within m x budget_tokens) h

-- `MapReasoningEffortWithConfig` gives xhigh and max only to a model that supports them, whatever the
-- request says.
pub map_reasoning_effort_with_config-Within :
    (model output_effort : String) (budget_tokens : ℤ) (config : Config)
    → Within
        (supports_max model)
        (supports_x_high (normalize config) model)
        (map_reasoning_effort_with_config model output_effort budget_tokens config)
unfolding map_reasoning_effort_with_config
map_reasoning_effort_with_config-Within model output_effort budget_tokens config =
    let m = supports_max model in
    let x = supports_x_high (normalize config) model in
    effort_or-Within m x budget_tokens _ (normalize_effort output_effort) (
      if-Within m x _ low medium (λ h. ground (arith, h), λ h. ground (arith, h))
        (λ h. ground (arith, h), λ h. ground (arith, h)))
