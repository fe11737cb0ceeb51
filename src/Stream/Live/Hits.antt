-- ===== src/Stream/Live/Hits.antt =====
-- The states and hits of the web searches, which no event shows by themselves.
use claudodex.Common.{
  ℕ, ◌≡◌, refl, String, Option, none, some, Option-cases, List, [], ◌∷◌, Bool-cases, inl, inr, ◌==◌,
  string_key,
}
use claudodex.Json.{Json, Fields, at, as_map, as_list, string_field}
use claudodex.Common.Dict.{lookup}
use claudodex.Stream.{Reducer}
use claudodex.Stream.Search.{
  search_state, add_annotations, add_parts, web_search_state_for_item, add_web_search_hit,
  add_web_search_hits_from_item,
}
use claudodex.Stream.Client.{}
use claudodex.Stream.Live.{View, view, Holds, holds_bind, holds_skip, holds_quiet}
use claudodex.Stream.Live.Blocks.{}

pub holds_search_state :
    (P : View → Type 0) (item : Option Fields) → Holds ℕ P (web_search_state_for_item item) (λ k. P)
unfolding web_search_state_for_item
holds_search_state P item =
    holds_quiet (web_search_state_for_item item) (λ r. found (string_field (at item "id")) r)
  where
    found :
        (item_id : String) (r : Reducer)
        → ((search_state item_id r).1 ≡ []) × (view (search_state item_id r).2 ≡ view r)
    found item_id r = elim (Bool-cases (item_id == "")) [
      | inl e ↦ rw e (refl, refl)
      | inr e ↦ elim (Option-cases (lookup item_id r.web_search_by_item_id)) [
        | inl unknown ↦ rw (e, unknown) (refl, refl)
        | inr (k, known) ↦ rw (e, known) (refl, refl)
      ]
    ]

pub holds_add_hit :
    (P : View → Type 0) (annotation : Option Fields)
    → Holds (Unit {0}) P (add_web_search_hit annotation) (λ a. P)
unfolding add_web_search_hit
holds_add_hit P none = holds_skip
holds_add_hit P (some a) = holds_quiet (add_web_search_hit (some a)) (λ r. (refl, refl))

holds_annotations :
    (P : View → Type 0) (annotations : List Json)
    → Holds (Unit {0}) P (add_annotations annotations) (λ a. P)
holds_annotations P [] = holds_skip
holds_annotations P (a ∷ rest) =
    holds_bind (holds_add_hit P (as_map a)) (λ u. holds_annotations P rest)

holds_parts :
    (P : View → Type 0) (parts : List Json) → Holds (Unit {0}) P (add_parts parts) (λ a. P)
holds_parts P [] = holds_skip
holds_parts P (p ∷ ps) =
    holds_bind (holds_annotations P (as_list (at (as_map p) "annotations"))) (λ u. holds_parts P ps)

pub holds_item_hits :
    (P : View → Type 0) (item : Option Fields)
    → Holds (Unit {0}) P (add_web_search_hits_from_item item) (λ a. P)
unfolding add_web_search_hits_from_item
holds_item_hits P item = holds_parts P (as_list (at item "content"))
