-- ===== src/Chain/Identity.antt =====
-- internal/proxy/chain.go: which turn a request belongs to, by the conversation that it goes on with.
use claudodex.Common.{
  ℕ, String, Bool, false, ◌&&◌, not, Option, none, some, List, [], ◌∷◌, length, drop, any, leb,
  ◌==◌, string_key, if◌then◌else◌,
}
use claudodex.Common.Dict.{lookup}
use claudodex.Common.Text.{trim_space}
use claudodex.ModelConfig.{holds}
use claudodex.Codex.{InputItem, Request, Route}
use claudodex.Chain.{ResponseChain, Chains, is_blank, trim_after_recorded_output}

-- The set `pending`: the calls of a response.
unfoldable pub pending_calls : List InputItem → List String
pending_calls [] = []
pending_calls (item ∷ output) =
    let rest = pending_calls output in
    if item.item_type == "function_call" && not (is_blank item.call_id)
    then item.call_id ∷ rest
    else rest

abbrev pub answers : List String → InputItem → Bool
answers pending item = item.item_type == "function_call_output" && holds item.call_id pending

abbrev continues_after : ResponseChain → Request → Option ℕ → Bool
continues_after chain request none = false
continues_after chain request (some n) =
    if leb (length request.input) n
    then false
    else any (answers (pending_calls chain.output)) (drop n request.input)

unfoldable pub chain_continues_tool_call : ResponseChain → Request → Bool
unfolding trim_after_recorded_output pending_calls
chain_continues_tool_call chain request =
    continues_after chain request (trim_after_recorded_output request.input chain.output)

abbrev unless_blank : String → String → String
unless_blank new old = if is_blank new then old else new

-- The turn of the chain, for an answer to one of its calls.
abbrev pub same_turn : ResponseChain → Route → Route
same_turn chain route = record route {
  turn_id = unless_blank chain.turn_id route.turn_id;
  root_turn_id = unless_blank chain.root_turn_id route.root_turn_id;
}

abbrev from_parent : Option ResponseChain → Route → Route
from_parent none route = route
from_parent (some parent) route =
    if is_blank route.parent_thread_id
    then route
    else record route { root_turn_id = unless_blank parent.root_turn_id route.root_turn_id }

abbrev inherited : Option ResponseChain → Option ResponseChain → Request → Route → Route
inherited none parent request route = from_parent parent route
inherited (some chain) parent request route =
    if chain_continues_tool_call chain request
    then same_turn chain route
    else from_parent parent route

-- `route` is never nil here; the code returns at once for a nil one.
unfoldable pub inherit_response_turn_identity : Chains → String → Request → Route → Route
unfolding chain_continues_tool_call lookup
inherit_response_turn_identity s chain_key request route =
    inherited (lookup (trim_space chain_key) s.chains)
      (lookup (trim_space route.parent_thread_id) s.chains) request route
