-- ===== src/Convert/Request/Served.antt =====
-- What a converted request asks of the model.
use mathlib.Core.Path.{subst}
use claudodex.Common.{
  String, ◌≡◌, ◌≢◌, refl, sym, ap, ◌∙◌, true, ◌&&◌, not, inl, inr, Bool-cases, Option, none, some,
  List, map, eq_iff, ◌==◌, string_key, if◌then◌else◌,
}
use claudodex.Common.Outcome.{ok, failed-ne-ok, ok_inj, ok_of_bind, ok_of_map_error}
use claudodex.ModelConfig.Laws.{map_model_stripped}
use claudodex.ModelConfig.{normalize, map_model}
use claudodex.Effort.{Effort, effort_name, seen}
use claudodex.Effort.Laws.{Advertised, map_reasoning_effort_for_model-Advertised}
use claudodex.Catalog.{ModelInfo, ReasoningEffortPreset, supports_fast}
use claudodex.Catalog.Version.{models_client_version}
use claudodex.Catalog.Resolve.Chosen.{IsPinned, validate_target-IsPinned}
use claudodex.Codex.{Reasoning}
use claudodex.Convert.Types.{AnthropicRequest, ConvertOptions, Result, bad_model, Surroundings}
use claudodex.Convert.Request.{
  or_model, find_model, or_no_level, effort_of_request, lacks_fast, map_service_tier,
  anthropic_to_codex,
}
use claudodex.Convert.Request.Steps.{steps, asked}

-- What is asked of the model, where there is a catalog: the name of the target is sent, an advertised model that can be used, an effort
-- that it advertises, and the fast tier only if it has one.
pub record IsServed (models : List ModelInfo) (client_version name : String)
    (sent effort tier : String) : Type 0 where
  pub target : ModelInfo
  pub sent_to : sent ≡ target.slug
  pub pinned : IsPinned models (models_client_version client_version) name target
  pub level : Effort
  pub advertised :
      seen (map (λ (l : ReasoningEffortPreset). l.effort) target.supported_reasoning_levels) level
      ≡ true
  pub asked : effort ≡ effort_name level
  pub fast : tier ≢ "" → supports_fast target ≡ true

level_of :
    (supported : List String) (levels : List Effort) (o : Option Effort) (e : Effort)
    → Advertised supported levels o
    → or_no_level o ≡ ok e
    → seen supported e ≡ true
level_of supported levels _ e (Advertised.refused h) k = absurd (failed-ne-ok k)
level_of supported levels _ e (Advertised.chosen h) k =
    subst (λ l. seen supported l ≡ true) (ok_inj k) h

find_model_lem :
    (models : List ModelInfo) (codex_model client_version : String) (target : Option ModelInfo)
    → find_model (some models) codex_model client_version ≡ ok target
    → (model : ModelInfo) × (target ≡ some model)
      × IsPinned models (models_client_version client_version) codex_model model
unfolding find_model
find_model_lem models codex_model client_version target h =
    let (model, got, same) = ok_of_bind _ _ target h in
    (
      model,
      sym (ok_inj same),
      validate_target-IsPinned models codex_model client_version model
          (ok_of_map_error bad_model _ model got),
    )

fast_only :
    (tier : String) (model : ModelInfo)
    → (if not (tier == "") && not (supports_fast model) then "" else tier) ≢ ""
    → supports_fast model ≡ true
fast_only tier model h = elim (Bool-cases (supports_fast model)) [
  | inl e ↦ e
  | inr e ↦ elim (Bool-cases (tier == "")) [
    | inl none_asked ↦ absurd (h (rw (e, none_asked) ((eq_iff tier "").0 none_asked)))
    | inr asked ↦ absurd (h (rw (e, asked) refl))
  ]
]

abbrev pub asked_effort : Option Reasoning → String
asked_effort none = ""
asked_effort (some r) = r.effort

-- Where the account's catalog is known, a request that is converted names exactly a model that is
-- advertised and that this client can use, the one that the requested name maps to; it asks for an effort
-- that this model advertises, and for the fast tier only if the model has it.
pub anthropic_to_codex-IsServed :
    (around : Surroundings) (req : AnthropicRequest) (opts : ConvertOptions) (r : Result)
    (models : List ModelInfo)
    → opts.codex_models ≡ some models
    → anthropic_to_codex around req opts ≡ ok r
    → IsServed models opts.client_version
        (map_model (normalize opts.models) (or_model req.model))
        r.request.model
        (asked_effort r.request.reasoning)
        r.request.service_tier
unfolding effort_of_request
anthropic_to_codex-IsServed around req opts r models known h =
    let s = steps around req opts r h in
    let name = map_model (normalize opts.models) (or_model req.model) in
    let (model, same, pinned) =
      find_model_lem models name opts.client_version s.target
        (ap (λ o. find_model o name opts.client_version) (sym known) ∙ s.found) in
    let supported =
      map (λ (l : ReasoningEffortPreset). l.effort) model.supported_reasoning_levels in
    record {
      target = model;
      sent_to =
          s.named ∙ sym (map_model_stripped opts.models (or_model req.model)) ∙ sym pinned.named;
      pinned = pinned;
      level = s.level;
      advertised =
          level_of supported _ _ s.level
            (map_reasoning_effort_for_model-Advertised supported model.default_reasoning_level
              req.output_effort req.budget_tokens)
            (ap (λ t. effort_of_request t name req (normalize opts.models)) (sym same) ∙ s.leveled);
      asked = ap asked_effort s.reasoned.1;
      fast = λ used. fast_only (map_service_tier req.speed) model (λ e. used (
          s.tiered
          ∙ ap
              (λ t.
                if not (map_service_tier req.speed == "") && lacks_fast t
                then ""
                else map_service_tier req.speed)
              same
          ∙ e));
    }
