-- ===== src/Convert/Request/Laws.antt =====
-- What a converted request is routed to.
use Prim.Native.String
use claudodex.Common.{
  String, ◌≡◌, ◌≢◌, refl, sym, true, false, ◌&&◌, not, ◌⊎◌, inl, inr, Bool-cases, Option, none,
  some, List, arith, eq_iff, ◌==◌, string_key,
}
use claudodex.Common.Outcome.{ok, failed-ne-ok, ok_inj}
use claudodex.Common.Text.{trim_space}
use claudodex.Codex.{InputItem}
use claudodex.Convert.Instructions.{valid_claude_agent_id, is_claude_code_subagent_instructions}
use claudodex.Convert.System.{convert_messages}
use claudodex.Convert.Types.{AnthropicRequest, ConvertOptions, Result, Surroundings}
use claudodex.Convert.Request.{
  Routing, all_instructions, main_route, worker_route, isolated, is_subagent, route_of,
  anthropic_to_codex,
}
use claudodex.Convert.Request.Steps.{steps}

-- What makes a request that of a worker: an agent's id, its class, or, if no class says that it is not,
-- instructions that are those of one.
pub data IsWorker (opts : ConvertOptions) (instructions : String) : Type 0 where
  by_id : opts.agent_id ≢ "" → IsWorker opts instructions
  by_class :
      (opts.request_class ≡ "subagent") ⊎ (opts.request_class ≡ "workflow")
      → IsWorker opts instructions
  by_instructions :
      opts.request_class ≢ "main"
      → is_claude_code_subagent_instructions instructions ≡ true
      → IsWorker opts instructions

-- The routes that a request may get.
pub data Routed (random : Option String) (opts : ConvertOptions) (instructions : String)
    (r : Routing) : Type 0 where
  main :
      ¬ (IsWorker opts instructions)
      → r ≡ main_route (trim_space opts.session_id)
      → Routed random opts instructions r
  agent :
      valid_claude_agent_id opts.agent_id ≡ true
      → trim_space opts.session_id ≢ ""
      → r
        ≡ worker_route
            (String.◌++◌ (trim_space opts.session_id) (String.◌++◌ ":agent:" opts.agent_id))
            false
            (trim_space opts.session_id)
      → Routed random opts instructions r
  alone :
      IsWorker opts instructions
      → (trim_space opts.session_id ≢ "" → opts.agent_id ≡ "")
      → (opts.agent_id ≢ "" → valid_claude_agent_id opts.agent_id ≡ true)
      → (digits : String) → random ≡ some digits
      → r ≡ worker_route (String.◌++◌ "worker-request:" digits) true (trim_space opts.session_id)
      → Routed random opts instructions r

not_main :
    (opts : ConvertOptions) (instructions : String)
    → is_subagent opts instructions ≡ false
    → ¬ (IsWorker opts instructions)
not_main opts instructions h (IsWorker.by_id id) = ground (arith, h, id, eq_iff opts.agent_id "")
not_main opts instructions h (IsWorker.by_class (inl e)) =
    ground (arith, h, e, eq_iff opts.request_class "subagent")
not_main opts instructions h (IsWorker.by_class (inr e)) =
    ground (arith, h, e, eq_iff opts.request_class "workflow")
not_main opts instructions h (IsWorker.by_instructions class text) =
    ground (arith, h, class, text, eq_iff opts.request_class "main")

is_subagent-IsWorker :
    (opts : ConvertOptions) (instructions : String)
    → is_subagent opts instructions ≡ true
    → IsWorker opts instructions
is_subagent-IsWorker opts instructions h = elim (Bool-cases (opts.agent_id == "")) [
  | inr id ↦ IsWorker.by_id (λ e. ground (arith, id, e, eq_iff opts.agent_id ""))
  | inl no_id ↦ elim (Bool-cases (opts.request_class == "subagent")) [
    | inl e ↦ IsWorker.by_class (inl ((eq_iff opts.request_class "subagent").0 e))
    | inr other ↦ elim (Bool-cases (opts.request_class == "workflow")) [
      | inl e ↦ IsWorker.by_class (inr ((eq_iff opts.request_class "workflow").0 e))
      | inr neither ↦
          IsWorker.by_instructions
            (λ e. ground (arith, h, no_id, other, neither, e, eq_iff opts.request_class "main"))
            (ground (arith, h, no_id, other, neither))
    ]
  ]
]

isolated-Routed :
    (random n : Option String) (opts : ConvertOptions) (instructions : String) (r : Routing)
    → IsWorker opts instructions
    → (trim_space opts.session_id ≢ "" → opts.agent_id ≡ "")
    → (opts.agent_id ≢ "" → valid_claude_agent_id opts.agent_id ≡ true)
    → random ≡ n
    → isolated n (trim_space opts.session_id) ≡ ok r
    → Routed random opts instructions r
isolated-Routed random none opts instructions r worker named valid e h = absurd (failed-ne-ok h)
isolated-Routed random (some digits) opts instructions r worker named valid e h =
    Routed.alone worker named valid digits e (sym (ok_inj h))

route_of-Routed :
    (random : Option String) (opts : ConvertOptions) (instructions : String) (r : Routing)
    → route_of random opts (is_subagent opts instructions) ≡ ok r
    → Routed random opts instructions r
unfolding route_of
route_of-Routed random opts instructions r h =
    elim (Bool-cases (not (opts.agent_id == "") && not (valid_claude_agent_id opts.agent_id))) [
      | inl bad ↦ absurd (failed-ne-ok (rw (bad, route_of) at h))
      | inr good ↦ elim (Bool-cases (is_subagent opts instructions)) [
        | inr e ↦
            Routed.main (not_main opts instructions e) (sym (ok_inj (rw (good, e, route_of) at h)))
        | inl e ↦
            elim (Bool-cases
              (not (trim_space opts.session_id == "") && not (opts.agent_id == ""))) [
                | inl named ↦
                    Routed.agent (ground (arith, good, named))
                      (λ blank.
                        ground (arith, named, (eq_iff (trim_space opts.session_id) "").1 blank))
                      (sym (ok_inj (rw (good, e, named, route_of) at h)))
                | inr other ↦
                    isolated-Routed random random opts instructions r
                      (is_subagent-IsWorker opts instructions e)
                      (λ session. ground (
                        arith,
                        session,
                        other,
                        eq_iff (trim_space opts.session_id) "",
                        eq_iff opts.agent_id "",
                      ))
                      (λ id. ground (arith, id, good, eq_iff opts.agent_id "")) refl
                      (rw (good, e, other, route_of) at h)
              ]
      ]
    ]

-- A request that is converted is routed in one of three ways, and its cache key is its route. One that is
-- not a worker's is routed to the session itself; with a valid id and a session it is routed to the
-- session's agent, under the session as its parent; and a worker's without an id or without a session
-- gets a fresh route of its own, and is stateless. A worker's has an agent's id, the class of one, or, if
-- it is not of the main class, instructions that are a worker's.
pub anthropic_to_codex-Routed :
    (around : Surroundings) (req : AnthropicRequest) (opts : ConvertOptions) (r : Result)
    → anthropic_to_codex around req opts ≡ ok r
    → (converted : List InputItem × String) × (convert_messages around.library req.messages
        ≡ ok converted)
      × (routing : Routing) × Routed around.nonce opts (all_instructions req converted.1) routing
      × (r.request.prompt_cache_key ≡ routing.route_session_id)
      × (r.route_session_id ≡ routing.route_session_id)
      × (r.parent_thread_id ≡ routing.parent_thread_id)
      × (r.stateless_subagent ≡ routing.stateless)
anthropic_to_codex-Routed around req opts r h =
    let s = steps around req opts r h in
    (
      s.converted,
      s.received,
      s.routing,
      route_of-Routed around.nonce opts (all_instructions req s.converted.1) s.routing s.routed,
      s.keyed,
      s.answered.0,
      s.answered.1,
      s.answered.2,
    )
