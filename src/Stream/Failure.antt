-- ===== src/Stream/Failure.antt =====
-- internal/codex/errors.go: what a failure event says; and the error events of
-- internal/convert/stream.go. json.Marshal and Unmarshal between the two give back the same map.
use Prim.Native.Char.{code}
use Prim.Native.String.{[], ◌∷◌}
use claudodex.Common.{
  ℕ, zero, ◌+◌, ◌-◌, ◌*◌, String, Bool, true, false, ◌&&◌, ◌||◌, not, Option, none, some, List, [],
  ◌∷◌, leb, ltb, nat_eq, ◌==◌, string_key, if◌then◌else◌,
}
use claudodex.Common.Int.{ℤ, pos, ltb_ℤ}
use claudodex.Common.Text.{first_nonempty, trim_space, to_lower, equal_fold}
use claudodex.Json.{
  Json, Items, Fields, num, str, arr, nil, cons, Codec, field_at, at, as_map, as_str, as_bool,
  fields,
}
use claudodex.Stream.{M, error_event}

pub record ResponseFailure : Type 0 where
  pub code : String
  pub message : String
  pub status : ℕ
  pub retry_after : ℤ
  pub retry_after_set : Bool
  pub retryable : Bool

abbrev pub no_failure : ResponseFailure
no_failure = record {
  code = "";
  message = "";
  status = 0;
  retry_after = pos 0;
  retry_after_set = false;
  retryable = false;
}

abbrev pub bio_policy_fallback_message : String
bio_policy_fallback_message = "This content was flagged for possible biological risk."

abbrev pub budget_reached_fallback_message : String
budget_reached_fallback_message =
    "The Codex session budget has been reached. Start a new session to continue."

-- The digits of strconv.Atoi; `none` is an error, for which the code reads 0.
digits : ℕ → String → Option ℕ
digits n [] = some n
digits n (c ∷ s) =
    let d = code c in if leb 48 d && leb d 57 then digits (n * 10 + (d - 48)) s else none

-- A negative number is out of the range of a status, so it counts as no number here.
abbrev signed : String → Option ℕ
signed [] = none
signed (c ∷ s) = if nat_eq (code c) b'+' && not (s == "") then digits 0 s else digits 0 (c ∷ s)

abbrev in_range : Option ℕ → ℕ
in_range none = 0
in_range (some n) = if leb 100 n && leb n 999 then n else 0

abbrev whole_status : ℤ → ℕ → ℕ
whole_status (pos n) zero = in_range (some n)
whole_status _ _ = 0

unfoldable pub response_failure_status : Json → ℕ
unfolding digits
response_failure_status (num whole fraction) = whole_status whole fraction
response_failure_status (str s) = in_range (signed (trim_space s))
response_failure_status _ = 0

abbrev or_else {ℓ} : {A : Type ℓ} → Option A → Option A → Option A
or_else none b = b
or_else (some a) b = some a

abbrev parse_text : Codec → String → Option ℤ
parse_text codec value =
    if trim_space value == "" then none else codec.parse_retry_after (trim_space value)

unfoldable mutual
  pub retry_after_value : Codec → Json → Option ℤ
  retry_after_value codec (str s) = parse_text codec s
  retry_after_value codec (num w f) = parse_text codec (codec.format_number w f)
  retry_after_value codec (arr vs) = retry_after_values codec vs
  retry_after_value codec _ = none

  pub retry_after_values : Codec → Items → Option ℤ
  retry_after_values codec nil = none
  retry_after_values codec (cons v vs) =
      or_else (retry_after_value codec v) (retry_after_values codec vs)

-- The headers whose name is retry-after, in the order of their names.
abbrev insert_header : String → Json → List (String × Json) → List (String × Json)
insert_header k v [] = (k, v) ∷ []
insert_header k v ((j, w) ∷ hs) =
    if before k j then (k, v) ∷ (j, w) ∷ hs else (j, w) ∷ insert_header k v hs
  where
    before : String → String → Bool
    before [] t = true
    before (c ∷ s) [] = false
    before (c ∷ s) (d ∷ t) =
        if ltb (code c) (code d) then true else if ltb (code d) (code c) then false else before s t

retry_headers : List (String × Json) → List (String × Json)
retry_headers [] = []
retry_headers ((k, v) ∷ hs) =
    let rest = retry_headers hs in
    if equal_fold (trim_space k) "retry-after" then insert_header k v rest else rest

abbrev first_value : Codec → List (String × Json) → Option ℤ
first_value codec [] = none
first_value codec ((k, v) ∷ hs) = or_else (retry_after_value codec v) (first_value codec hs)

unfoldable pub response_failure_retry_after : Codec → Json → Option ℤ
unfolding retry_headers
response_failure_retry_after codec headers = elim (as_map headers) [
  | none ↦ none
  | some hs ↦ first_value codec (retry_headers (fields hs))
]

abbrev maybe_cons : Option Fields → List Fields → List Fields
maybe_cons none cs = cs
maybe_cons (some c) cs = c ∷ cs

unfoldable pub response_failure_candidates : Fields → List Fields
response_failure_candidates payload =
    maybe_cons (as_map (field_at "error" payload))
      (maybe_cons (as_map (at (as_map (field_at "response" payload)) "error")) (payload ∷ []))

abbrev first_retry : Codec → List Fields → Option ℤ
first_retry codec [] = none
first_retry codec (c ∷ cs) =
    or_else (response_failure_retry_after codec (field_at "headers" c)) (first_retry codec cs)

abbrev status_of : Fields → ℕ
status_of c =
    let s = response_failure_status (field_at "status" c) in
    if nat_eq s 0 then response_failure_status (field_at "status_code" c) else s

abbrev with_fallback : String → String → String
with_fallback code message =
    if trim_space message == ""
    then (if equal_fold code "bio_policy"
        then bio_policy_fallback_message
        else if equal_fold code "budget_reached"
        then budget_reached_fallback_message
        else message)
    else message

abbrev or_zero : Option ℤ → ℤ
or_zero none = pos 0
or_zero (some d) = d

abbrev is_set {ℓ} : {A : Type ℓ} → Option A → Bool
is_set none = false
is_set (some a) = true

abbrev or_false : Option Bool → Bool
or_false none = false
or_false (some b) = b

abbrev failure_of : Fields → ℕ → Option ℤ → ResponseFailure
failure_of c status retry = record {
  code = trim_space (as_str (field_at "code" c));
  message = with_fallback (trim_space (as_str (field_at "code" c))) (as_str (field_at "message" c));
  status = status;
  retry_after = or_zero retry;
  retry_after_set = is_set retry;
  retryable = or_false (as_bool (field_at "retryable" c));
}

-- The first candidate that says anything is the failure.
unfoldable pub first_failure : Option ℤ → List Fields → ResponseFailure
first_failure retry [] = no_failure
first_failure retry (c ∷ cs) =
    let rest = first_failure retry cs in
    if trim_space (as_str (field_at "code" c)) == ""
      && trim_space (as_str (field_at "message" c)) == ""
      && nat_eq (status_of c) 0
    then rest
    else failure_of c (status_of c) retry

unfoldable pub parse_response_failure : Codec → Fields → ResponseFailure
unfolding first_failure
parse_response_failure codec payload =
    let candidates = response_failure_candidates payload in
    first_failure (first_retry codec candidates) candidates

abbrev pub response_failure : Codec → Option Fields → ResponseFailure
response_failure codec none = no_failure
response_failure codec (some event) = parse_response_failure codec event

unfoldable pub anthropic_failure_type : String → String
anthropic_failure_type code =
    let c = to_lower (trim_space code) in
    if c == "slow_down" || c == "rate_limit_exceeded"
    then "rate_limit_error"
    else if c == "bio_policy" || c == "budget_reached"
    then "invalid_request_error"
    else "api_error"

abbrev pub upstream_error : String
upstream_error = "Codex upstream returned an error"

unfoldable pub error_events_with_type_and_failure : Codec → String → ResponseFailure → M (Unit {0})
error_events_with_type_and_failure codec typ failure r =
    let message = first_nonempty failure.message upstream_error in
    let said = codec.retry_after_from_message message in
    (
      tt,
      error_event (first_nonempty typ "api_error") message ∷ [],
      record r {
        failed = true;
        failure_type = first_nonempty typ "api_error";
        failure_code = failure.code;
        failure_message = message;
        failure_retry_after = if failure.retry_after_set then failure.retry_after else said;
        failure_retry_set = failure.retry_after_set || ltb_ℤ (pos 0) said;
        failure_retryable = failure.retryable;
        done = true;
      },
    )

abbrev pub error_events : Codec → (typ message : String) → M (Unit {0})
error_events codec typ message =
    error_events_with_type_and_failure codec typ (record no_failure { message = message })

abbrev pub error_events_with_code : Codec → (code message : String) → M (Unit {0})
error_events_with_code codec code message =
    error_events_with_type_and_failure codec (anthropic_failure_type code)
      (record no_failure { code = code; message = message })

abbrev pub error_events_from_failure : Codec → ResponseFailure → M (Unit {0})
error_events_from_failure codec failure =
    error_events_with_type_and_failure codec (anthropic_failure_type failure.code) failure

unfoldable pub error_from_payload : Codec → Option Fields → M (Unit {0})
error_from_payload codec event =
    let failure = response_failure codec event in
    let given = first_nonempty (as_str (at (as_map (at event "error")) "type")) "api_error" in
    let mapped = anthropic_failure_type failure.code in
    error_events_with_type_and_failure codec (if mapped == "api_error" then given else mapped)
      failure
