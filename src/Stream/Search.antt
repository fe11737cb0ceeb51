-- ===== src/Stream/Search.antt =====
-- internal/convert/stream.go, the web searches: their states, hits and blocks.
use Prim.Native.String.{◌++◌}
use mathlib.Core.Option
use claudodex.Common.{
  ℕ, zero, suc, ◌+◌, String, Bool, true, false, ◌&&◌, ◌||◌, not, Option, none, some, List, [], ◌∷◌,
  ltb, nat_eq, ◌==◌, string_key, if◌then◌else◌, length, set, any, get_elem?,
}
use claudodex.Common as C
use claudodex.Common.Int.{pos}
use claudodex.Common.Dict.{lookup, insert}
use claudodex.Common.Text.{to_lower, has_prefix, trim_prefix, decimal}
use claudodex.Json.{Json, Fields, Codec, at, as_map, as_list, string_field, field, end, str}
use claudodex.Stream.{
  Reducer, WebSearch, Hit, SearchContent, hits, search_error, M, ◌>>=◌, ◌>>◌, skip, gets, modify,
  content_block_start, content_block_delta, content_block_stop, server_tool_use,
  web_search_tool_result, input_json_delta,
}
use claudodex.Stream.Blocks.{when, ensure_text_block, text_delta_only, stop_text_block}

unfoldable pub anthropic_web_search_id : String → String
anthropic_web_search_id item_id =
    let rest = trim_prefix item_id "ws_" in
    if has_prefix item_id "srvtoolu_"
    then item_id
    else "srvtoolu_" ++ (if rest == "" then "web_search" else rest)

abbrev new_search : String → WebSearch
new_search item_id = record {
  item_id = item_id;
  anthropic_id = anthropic_web_search_id item_id;
  query = "";
  use_emitted = false;
  result_emitted = false;
  found = [];
  error_code = "";
}

-- A new state is appended, and its id leads to it from now on.
abbrev pub add_search : String → M ℕ
add_search item_id r = (
  length r.web_searches,
  [],
  record r {
    web_search_by_item_id = insert item_id (length r.web_searches) r.web_search_by_item_id;
    web_searches = C.◌++◌ r.web_searches (new_search item_id ∷ []);
  },
)

abbrev pub found_or_add : String → Option ℕ → M ℕ
found_or_add item_id (some k) r = (k, [], r)
found_or_add item_id none r = add_search item_id r

-- The state of an id; without an id a new state gets one.
abbrev pub search_state : String → M ℕ
search_state item_id r =
    if item_id == ""
    then add_search ("ws_" ++ decimal (length r.web_searches)) r
    else found_or_add item_id (lookup item_id r.web_search_by_item_id) r

unfoldable pub web_search_state_for_item : Option Fields → M ℕ
web_search_state_for_item item = search_state (string_field (at item "id"))

abbrev first_query : List Json → String
first_query [] = ""
first_query (v ∷ vs) = if string_field v == "" then first_query vs else string_field v

-- The type and the query of the item's action.
unfoldable pub web_search_action : Option Fields → String × String
web_search_action item =
    let action = as_map (at item "action") in
    let query = string_field (at action "query") in
    (
      to_lower (string_field (at action "type")),
      if query == "" then first_query (as_list (at action "queries")) else query,
    )

-- A change of the state at `k`.
abbrev pub change_search : ℕ → (WebSearch → WebSearch) → Reducer → Reducer
change_search k f r = elim (get_elem? r.web_searches k) [
  | none ↦ r
  | some s ↦ record r { web_searches = set r.web_searches k (f s) }
]

abbrev pub query_input : Codec → String → String
query_input codec query = Option.get_or (codec.encode_map (field "query" (str query) end)) ""

abbrev pub used : ℕ → WebSearch → Reducer → Reducer
used k s r = record r {
  web_searches = set r.web_searches k (record s { use_emitted = true });
  next_index = suc r.next_index;
  visible_blocks = suc r.visible_blocks;
}

-- `emitWebSearchUse`, for the state `s` at `k`.
unfoldable pub use_events : Codec → ℕ → WebSearch → M (Unit {0})
use_events codec k s r = if s.use_emitted then (tt, [], r) else (
  tt,
  content_block_start (pos r.next_index) (server_tool_use s.anthropic_id)
      ∷ content_block_delta (pos r.next_index) (input_json_delta (query_input codec s.query))
      ∷ content_block_stop (pos r.next_index)
      ∷ [],
  used k s r,
)

unfoldable pub emit_web_search_use : Codec → ℕ → M (Unit {0})
emit_web_search_use codec k r = elim (get_elem? r.web_searches k) [
  | none ↦ (tt, [], r)
  | some s ↦ use_events codec k s r
]

abbrev or_url : String → String → String
or_url title url = if title == "" then url else title

-- An annotation or source, with the nested citation in its place where there is one.
abbrev citation : Fields → Option Fields
citation a = elim (as_map (at (some a) "url_citation")) [ none ↦ some a | some n ↦ some n ]

-- `addWebSearchHit` past the nil check: a citation with a new url adds a hit.
unfoldable pub add_hit : Option Fields → List Hit → List Hit
add_hit annotation hs =
    let typ = to_lower (string_field (at annotation "type")) in
    let url = string_field (at annotation "url") in
    if not (typ == "") && not (typ == "url_citation")
    then hs
    else if url == "" || any (λ (h : Hit). h.url == url) hs
    then hs
    else C.◌++◌ hs
        (record { title = or_url (string_field (at annotation "title")) url; url = url } ∷ [])

unfoldable pub add_web_search_hit : Option Fields → M (Unit {0})
unfolding add_hit
add_web_search_hit none = skip
add_web_search_hit (some a) =
    modify (λ r. record r { web_search_hits = add_hit (citation a) r.web_search_hits })

abbrev pub add_annotations : List Json → M (Unit {0})
add_annotations [] = skip
add_annotations (a ∷ as') = do add_web_search_hit (as_map a); add_annotations as'

abbrev pub add_parts : List Json → M (Unit {0})
add_parts [] = skip
add_parts (p ∷ ps) = do add_annotations (as_list (at (as_map p) "annotations")); add_parts ps

unfoldable pub add_web_search_hits_from_item : Option Fields → M (Unit {0})
add_web_search_hits_from_item item = add_parts (as_list (at item "content"))

-- A source of an action, unless its url is empty or was seen.
unfoldable pub add_source : Option Fields → List Hit → List Hit
add_source source hs =
    let url = string_field (at source "url") in
    if url == "" || any (λ (h : Hit). h.url == url) hs
    then hs
    else C.◌++◌ hs
        (record { title = or_url (string_field (at source "title")) url; url = url } ∷ [])

abbrev source_of : Option Fields → Option Fields
source_of none = none
source_of (some a) = citation a

abbrev add_sources : List Json → List Hit → List Hit
add_sources [] hs = hs
add_sources (s ∷ ss) hs = add_sources ss (add_source (source_of (as_map s)) hs)

unfoldable pub web_search_hits_from_action : Option Fields → List Hit
unfolding add_source
web_search_hits_from_action item =
    add_sources (as_list (at (as_map (at item "action")) "sources")) []

abbrev pub is_pending : WebSearch → Bool
is_pending s = s.use_emitted && not s.result_emitted

unfoldable pub has_pending_web_search_results : Reducer → Bool
has_pending_web_search_results r = any is_pending r.web_searches

abbrev pub answered : ℕ → WebSearch → Reducer → Reducer
answered k s r = record r {
  web_searches = set r.web_searches k (record s { result_emitted = true });
  next_index = suc r.next_index;
  visible_blocks = suc r.visible_blocks;
}

abbrev pub result_content : WebSearch → List Hit → SearchContent
result_content s hs = if s.error_code == "" then hits hs else search_error s.error_code

-- `emitWebSearchResult`, for the state `s` at `k`.
unfoldable pub result_events : ℕ → WebSearch → List Hit → M (Unit {0})
result_events k s hs r = if s.result_emitted then (tt, [], r) else (
  tt,
  content_block_start (pos r.next_index)
        (web_search_tool_result s.anthropic_id (result_content s hs))
      ∷ content_block_stop (pos r.next_index)
      ∷ [],
  answered k s r,
)

-- The pointers of the states that have shown their use and not their result.
abbrev pub pending_from : ℕ → List WebSearch → List ℕ
pending_from k [] = []
pending_from k (s ∷ ss) =
    if is_pending s then k ∷ pending_from (suc k) ss else pending_from (suc k) ss

abbrev pub all_pending : Reducer → List ℕ
all_pending r = pending_from 0 r.web_searches

abbrev is_empty {ℓ} : {A : Type ℓ} → List A → Bool
is_empty [] = true
is_empty (x ∷ xs) = false

-- The hits of a lone search without its own are those that the text's annotations gave.
abbrev pub result_hits : Bool → WebSearch → List Hit → List Hit
result_hits alone s collected =
    if alone && is_empty s.found && s.error_code == "" then collected else s.found

unfoldable pub emit_result_at : Bool → ℕ → M (Unit {0})
unfolding result_events
emit_result_at alone k r = elim (get_elem? r.web_searches k) [
  | none ↦ (tt, [], r)
  | some s ↦ result_events k s (result_hits alone s r.web_search_hits) r
]

unfoldable pub emit_results : Bool → List ℕ → M (Unit {0})
emit_results alone [] = skip
emit_results alone (k ∷ ks) = do emit_result_at alone k; emit_results alone ks

abbrev pub clear_hits : M (Unit {0})
clear_hits = modify (λ r. record r { web_search_hits = [] })

abbrev pub clear_text : M (Unit {0})
clear_text = modify (λ r. record r { web_search_text = "" })

unfoldable pub emit_pending_web_search_results : M (Unit {0})
emit_pending_web_search_results = do
  pending ← gets all_pending
  emit_results (nat_eq (length pending) 1) pending
  clear_hits

-- Its length is counted when the text is buffered, not here.
unfoldable pub emit_buffered_web_search_text : M (Unit {0})
emit_buffered_web_search_text = do
  text ← gets (λ r. r.web_search_text)
  clear_text
  when (not (text == "")) (do ensure_text_block; text_delta_only text; stop_text_block)

unfoldable pub flush_pending_web_search_output : M (Unit {0})
flush_pending_web_search_output = do emit_pending_web_search_results; emit_buffered_web_search_text
