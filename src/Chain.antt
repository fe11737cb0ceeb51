-- ===== src/Chain.antt =====
-- internal/proxy/chain.go: the conversations that the server has recorded, and how a later request goes
-- on from one. The mutex is held for one read or one write of a map at a time, so each is one step.
-- A request that is passed by pointer is never nil here.
pub mod Trace
pub mod Identity
pub mod Trim
pub mod Resume
pub mod Replay
mod Tests
use claudodex.Common.{
  ℕ, zero, suc, ◌+◌, String, Bool, true, false, ◌&&◌, ◌||◌, not, Option, none, some, List, [], ◌∷◌,
  ◌++◌, length, drop, ltb, leb, ◌==◌, string_key, if◌then◌else◌,
}
use claudodex.Common.Int.{ℤ, pos, ◌+ℤ◌, eqb_ℤ}
use claudodex.Common.Dict.{Dict, lookup, insert, remove}
use claudodex.Common.Text.{trim_space}
use claudodex.Stream.{Usage, zero_usage}
use claudodex.Codex.{ContentPart, InputItem, Request}
use claudodex.Codex.Equal.{content_discrete, item_discrete, request_discrete, is_yes}

pub record ResponseChain : Type 0 where
  pub request : Request
  pub response_id : String
  pub output : List InputItem
  pub turn_id : String
  pub root_turn_id : String

-- The two maps of the server.
pub record Chains : Type 0 where
  pub chains : Dict String ResponseChain
  pub usage : Dict String Usage

abbrev pub is_blank : String → Bool
is_blank s = trim_space s == ""

-- The last position at which a test holds, as the loops that count down find it; `none` for -1.
module _ {ℓ} {A : Type ℓ} (test : A → Bool) where
  unfoldable pub last_where : List A → Option ℕ
  last_where [] = none
  last_where (x ∷ xs) = elim (last_where xs) [
    | some i ↦ some (suc i)
    | none ↦ if test x then some 0 else none
  ]

abbrev pub same_content : Option (List ContentPart) → Option (List ContentPart) → Bool
same_content a b = is_yes (content_discrete a b)

abbrev pub same_message : InputItem → InputItem → Bool
same_message want item =
    item.item_type == "message" && item.role == want.role && same_content item.content want.content

abbrev pub same_call : InputItem → InputItem → Bool
same_call want item =
    item.item_type == "function_call"
    && item.call_id == want.call_id
    && (is_blank want.name || item.name == want.name)

unfoldable pub last_matching_message : List InputItem → InputItem → Option ℕ
unfolding last_where content_discrete
last_matching_message input want = last_where (same_message want) input

unfoldable pub last_matching_function_call : List InputItem → InputItem → Option ℕ
unfolding last_where
last_matching_function_call input want = last_where (same_call want) input

-- The switch in the loop of `trimAfterRecordedOutput`: where an item of the output stands in the input.
unfoldable pub position_of : List InputItem → InputItem → Option ℕ
unfolding last_matching_message last_matching_function_call
position_of input item =
    if item.item_type == "function_call"
    then (if is_blank item.call_id then none else last_matching_function_call input item)
    else if item.item_type == "message"
    then last_matching_message input item
    else none

abbrev pub later_of : Option ℕ → Option ℕ → Option ℕ
later_of none best = best
later_of (some i) none = some i
later_of (some i) (some best) = some (if ltb best i then i else best)

-- The loop: `best` is lastOutputPos, `none` while nothing is found.
unfoldable pub last_output : List InputItem → Option ℕ → List InputItem → Option ℕ
unfolding position_of
last_output input best [] = best
last_output input best (item ∷ output) =
    last_output input (later_of (position_of input item) best) output

unfoldable pub trim_after_recorded_output : (input output : List InputItem) → Option ℕ
unfolding last_output
trim_after_recorded_output input output = elim (last_output input none output) [
  | none ↦ none
  | some i ↦ some (i + 1)
]

unfoldable pub input_has_prefix : (input pre : List InputItem) → Bool
unfolding item_discrete
input_has_prefix input [] = true
input_has_prefix [] (p ∷ pre) = false
input_has_prefix (x ∷ input) (p ∷ pre) = is_yes (item_discrete x p) && input_has_prefix input pre

-- What `resumeCompatible` leaves of a request.
abbrev pub options : Request → Request
options r = record r {
  input = [];
  previous_response_id = "";
  client_metadata = none;
  instructions = "";
  tools = none;
  tool_choice = none;
}

unfoldable pub resume_compatible : (previous current : Request) → Bool
unfolding request_discrete
resume_compatible previous current = is_yes (request_discrete (options previous) (options current))

-- The results of the two functions that go on from a chain, with the request as it is afterwards.
pub record Resumption : Type 0 where
  pub used : Bool
  pub reason : String
  pub prefix_items : ℕ
  pub input_items : ℕ
  pub request : Request

abbrev pub refused : String → ℕ → ℕ → Request → Resumption
refused reason prefix_items input_items request = record {
  used = false;
  reason = reason;
  prefix_items = prefix_items;
  input_items = input_items;
  request = request;
}

abbrev pub recorded : ResponseChain → List InputItem
recorded chain = chain.request.input ++ chain.output

abbrev pub with_replay : ResponseChain → ℕ → Request → Request
with_replay chain n request = record request {
  previous_response_id = "";
  input = chain.request.input ++ chain.output ++ drop n request.input;
}

abbrev pub replay_from : ResponseChain → Request → Option ℕ → Resumption
replay_from chain request none =
    refused "output_prefix_mismatch" (length (recorded chain)) (length request.input) request
replay_from chain request (some n) =
    if leb (length request.input) n
    then refused "no_new_input" n (length request.input) request
    else record {
      used = true;
      reason = "applied";
      prefix_items = n;
      input_items = length (with_replay chain n request).input;
      request = with_replay chain n request;
    }

abbrev pub replay_chain : Option ResponseChain → Request → Resumption
replay_chain none request = refused "missing_chain" 0 (length request.input) request
replay_chain (some chain) request =
    if not (resume_compatible chain.request request)
    then refused "request_options_changed" (length (recorded chain)) (length request.input) request
    else replay_from chain request (trim_after_recorded_output request.input chain.output)

unfoldable pub apply_stateless_replay_detailed :
    Chains → (chain_key : String) → Request → Resumption
unfolding trim_after_recorded_output resume_compatible lookup
apply_stateless_replay_detailed s chain_key request =
    let key = trim_space chain_key in
    if key == ""
    then refused "missing_chain_key" 0 0 request
    else replay_chain (lookup key s.chains) request

-- The request that goes on from the recorded response with what follows the first `n` items.
abbrev pub with_resume : ResponseChain → ℕ → Request → Request
with_resume chain n request = record request {
  previous_response_id = chain.response_id;
  instructions = "";
  input = drop n request.input;
}

abbrev pub resume_at : String → ResponseChain → ℕ → Request → Resumption
resume_at reason chain n request =
    if leb (length request.input) n
    then refused "no_new_input" n (length request.input) request
    else record {
      used = true;
      reason = reason;
      prefix_items = n;
      input_items = length (drop n request.input);
      request = with_resume chain n request;
    }

abbrev pub resume_by_calls : ResponseChain → Request → Option ℕ → Resumption
resume_by_calls chain request none =
    refused "input_prefix_mismatch" (length (recorded chain)) (length request.input) request
resume_by_calls chain request (some n) = resume_at "applied_by_output_calls" chain n request

abbrev pub resume_chain : Option ResponseChain → Request → Resumption
resume_chain none request = refused "missing_chain" 0 0 request
resume_chain (some chain) request =
    let total = length (recorded chain) in
    let given = length request.input in
    if is_blank chain.response_id
    then refused "missing_response_id" total given request
    else if not (resume_compatible chain.request request)
    then refused "request_options_changed" total given request
    else if not (trim_space chain.request.instructions == trim_space request.instructions)
    then refused "instructions_changed" total given request
    else if input_has_prefix request.input (recorded chain)
    then resume_at "applied" chain total request
    else resume_by_calls chain request (trim_after_recorded_output request.input chain.output)

unfoldable pub apply_implicit_resume_detailed : Chains → (chain_key : String) → Request → Resumption
unfolding trim_after_recorded_output resume_compatible input_has_prefix lookup
apply_implicit_resume_detailed s chain_key request =
    let key = trim_space chain_key in
    if key == ""
    then refused "missing_chain_key" 0 0 request
    else resume_chain (lookup key s.chains) request

unfoldable pub clear_implicit_resume : Chains → String → Chains
unfolding remove
clear_implicit_resume s chain_key =
    let key = trim_space chain_key in
    if key == "" then s else record s { chains = remove key s.chains }

abbrev pub total_input : Usage → ℤ
total_input u = u.input_tokens +ℤ u.cache_creation_input_tokens +ℤ u.cache_read_input_tokens

abbrev usage_or_zero : Option Usage → Usage
usage_or_zero none = zero_usage
usage_or_zero (some u) = u

unfoldable pub previous_response_usage : Chains → String → Usage
unfolding lookup
previous_response_usage s chain_key =
    let key = trim_space chain_key in
    if key == "" then zero_usage else usage_or_zero (lookup key s.usage)

-- `estimate` is estimateCodexInputItems, which measures the encoded items.
unfoldable pub estimated_next_input_usage :
    (List InputItem → ℤ) → Chains → String → List InputItem → Bool → Usage
unfolding previous_response_usage
estimated_next_input_usage estimate s chain_key incremental_input known =
    let previous = previous_response_usage s chain_key in
    if eqb_ℤ (total_input previous) (pos 0) || not known then zero_usage else record previous {
      input_tokens =
          previous.input_tokens +ℤ (previous.output_tokens +ℤ estimate incremental_input);
      output_tokens = pos 0;
    }

unfoldable pub record_response_usage : Chains → String → Usage → Chains
unfolding insert
record_response_usage s chain_key usage =
    let key = trim_space chain_key in
    if key == "" || eqb_ℤ (total_input usage) (pos 0)
    then s
    else record s { usage = insert key usage s.usage }
