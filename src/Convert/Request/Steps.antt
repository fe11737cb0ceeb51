-- ===== src/Convert/Request/Steps.antt =====
-- The steps of a conversion of a request that returned.
use claudodex.Common.{
  String, ◌≡◌, sym, ap, ◌&&◌, not, Option, some, List, ◌==◌, string_key, if◌then◌else◌,
}
use claudodex.Common.Outcome.{
  Outcome, failed, ok, ◌>>=◌, map_error, ok_inj, ok_of_bind, ok_of_map_error,
}
use claudodex.ModelConfig.{normalize, map_model}
use claudodex.Effort.{Effort, effort_name}
use claudodex.Catalog.{ModelInfo}
use claudodex.Codex.{InputItem}
use claudodex.Convert.System.{convert_messages}
use claudodex.Convert.Tools.{blocks_domains}
use claudodex.Convert.Types.{
  AnthropicRequest, ConvertOptions, Result, ConvertError, Surroundings, bad_request,
  blocked_domains,
}
use claudodex.Convert.Request.{
  or_model, Routing, is_subagent, route_of, find_model, effort_of_request, lacks_fast,
  map_service_tier, convert_result, anthropic_to_codex, with_empty_message, all_instructions,
  stamp_locally_authored_items, summary_of,
}

-- The steps of a conversion that returned.
pub record Steps (around : Surroundings) (req : AnthropicRequest) (opts : ConvertOptions)
    (r : Result) : Type 0 where
  pub target : Option ModelInfo
  pub converted : List InputItem × String
  pub received : convert_messages around.library req.messages ≡ ok converted
  pub named : r.request.model ≡ map_model (normalize opts.models) (or_model req.model)
  pub routing : Routing
  pub level : Effort
  pub found :
      find_model opts.codex_models
        (map_model (normalize opts.models) (or_model req.model))
        opts.client_version
      ≡ ok target
  pub routed :
      route_of around.nonce opts (is_subagent opts (all_instructions req converted.1)) ≡ ok routing
  pub leveled :
      effort_of_request target
        (map_model (normalize opts.models) (or_model req.model))
        req
        (normalize opts.models)
      ≡ ok level
  pub keyed : r.request.prompt_cache_key ≡ routing.route_session_id
  pub answered :
      (r.route_session_id ≡ routing.route_session_id)
      × (r.parent_thread_id ≡ routing.parent_thread_id)
      × (r.stateless_subagent ≡ routing.stateless)
  pub tiered : r.request.service_tier ≡ (
      if not (map_service_tier req.speed == "") && lacks_fast target
      then ""
      else map_service_tier req.speed)
  pub reasoned :
      (summary : String) × (r.request.reasoning
        ≡ some record { effort = effort_name level; summary = summary })

-- The steps after each check, as the conversion puts them together.
abbrev pub asked : AnthropicRequest → ConvertOptions → String
asked req opts = map_model (normalize opts.models) (or_model req.model)

abbrev with_route :
    Surroundings
    → AnthropicRequest
    → ConvertOptions
    → Option ModelInfo
    → List InputItem × String
    → Routing
    → Outcome ConvertError Result
with_route around req opts target converted routing =
    effort_of_request target (asked req opts) req (normalize opts.models) >>= λ level. ok (
      convert_result around req opts target
        (stamp_locally_authored_items around.now (with_empty_message converted.0))
        (all_instructions req converted.1) routing level)

abbrev with_messages :
    Surroundings
    → AnthropicRequest
    → ConvertOptions
    → Option ModelInfo
    → List InputItem × String
    → Outcome ConvertError Result
with_messages around req opts target converted =
    route_of around.nonce opts (is_subagent opts (all_instructions req converted.1))
    >>= with_route around req opts target converted

abbrev with_target :
    Surroundings
    → AnthropicRequest
    → ConvertOptions
    → Option ModelInfo
    → Outcome ConvertError Result
with_target around req opts target =
    map_error bad_request (convert_messages around.library req.messages)
    >>= with_messages around req opts target

abbrev with_check :
    Surroundings
    → AnthropicRequest
    → ConvertOptions
    → AnthropicRequest
    → Outcome ConvertError Result
with_check around req opts checked =
    find_model opts.codex_models (asked req opts) opts.client_version
    >>= with_target around req opts

pub steps :
    (around : Surroundings) (req : AnthropicRequest) (opts : ConvertOptions) (r : Result)
    → anthropic_to_codex around req opts ≡ ok r
    → Steps around req opts r
unfolding anthropic_to_codex
steps around req opts r h =
    let (checked, got_0, after_0) =
      ok_of_bind (if blocks_domains req.tools then failed blocked_domains else ok req)
        (with_check around req opts) r h in
    let (target, found, after_1) =
      ok_of_bind (find_model opts.codex_models (asked req opts) opts.client_version)
        (with_target around req opts) r after_0 in
    let (converted, got_2, after_2) =
      ok_of_bind (map_error bad_request (convert_messages around.library req.messages))
        (with_messages around req opts target) r after_1 in
    let (routing, routed, after_3) =
      ok_of_bind (route_of around.nonce opts (is_subagent opts (all_instructions req converted.1)))
        (with_route around req opts target converted) r after_2 in
    let (level, leveled, after_4) =
      ok_of_bind (effort_of_request target (asked req opts) req (normalize opts.models))
        (λ level. ok (
          convert_result around req opts target
            (stamp_locally_authored_items around.now (with_empty_message converted.0))
            (all_instructions req converted.1) routing level))
        r after_3 in
    let same = sym (ok_inj after_4) in
    record {
      target = target;
      converted = converted;
      received =
          ok_of_map_error bad_request (convert_messages around.library req.messages) converted
            got_2;
      named = ap (λ (x : Result). x.request.model) same;
      routing = routing;
      level = level;
      found = found;
      routed = routed;
      leveled = leveled;
      keyed = ap (λ (x : Result). x.request.prompt_cache_key) same;
      answered = (
        ap (λ (x : Result). x.route_session_id) same,
        ap (λ (x : Result). x.parent_thread_id) same,
        ap (λ (x : Result). x.stateless_subagent) same,
      );
      tiered = ap (λ (x : Result). x.request.service_tier) same;
      reasoned =
          (summary_of req opts (asked req opts), ap (λ (x : Result). x.request.reasoning) same);
    }
