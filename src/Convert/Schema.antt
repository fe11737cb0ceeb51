-- ===== src/Convert/Schema.antt =====
-- internal/convert/request.go: the schemas of tools, which Codex wants as plain objects. A Go map that is
-- cloned before it is written is a value here.
pub mod Laws
pub mod Required
use claudodex.Common.{
  String, Bool, true, false, ◌&&◌, ◌||◌, not, Option, none, some, List, [], ◌∷◌, ◌++◌, map, ◌==◌,
  string_key, if◌then◌else◌,
}
use claudodex.Json.{
  Json, Items, Fields, null, bool, num, str, arr, obj, nil, cons, end, field, field_at, as_map,
  as_list, as_str, set_field, remove_field,
}
use claudodex.ModelConfig.{holds}
use claudodex.Stream.ToolArgs.{required_strings}

-- _, ok := m[k]
unfoldable pub has_field : String → Fields → Bool
has_field k end = false
has_field k (field j v fs) = j == k || has_field k fs

-- `mergeMaps`: two maps under one name are merged, and else the right value wins.
unfoldable mutual
  pub merge_maps : (left right : Fields) → Fields
  merge_maps left end = left
  merge_maps left (field k v fs) =
      merge_maps (set_field k (merge_value (field_at k left) v) left) fs

  pub merge_value : (existing next : Json) → Json
  merge_value (obj left) (obj right) = obj (merge_maps left right)
  merge_value existing (obj right) = obj right
  merge_value existing null = null
  merge_value existing (bool b) = bool b
  merge_value existing (num w f) = num w f
  merge_value existing (str s) = str s
  merge_value existing (arr vs) = arr vs

abbrev pub map_or_empty : Json → Fields
map_or_empty (obj fs) = fs
map_or_empty _ = end

-- `ensureProperties` and `objectProperties`: the properties of a schema, or none.
abbrev pub properties_of : Fields → Fields
properties_of schema = map_or_empty (field_at "properties" schema)

abbrev add_description : Fields → String → Fields
add_description dst description =
    if description == "" || has_field "description" dst
    then dst
    else set_field "description" (str description) dst

-- `mergeObjectSchema`; its loop over the properties is that of `mergeMaps`.
unfoldable pub merge_object_schema : (dst branch : Fields) → Fields
unfolding merge_maps has_field
merge_object_schema dst branch =
    let described = add_description dst (as_str (field_at "description" branch)) in
    set_field "properties" (obj (merge_maps (properties_of described) (properties_of branch)))
      described

-- A branch counts if its type is missing or is that of an object.
abbrev is_branch : Fields → Bool
is_branch branch = let kind = as_str (field_at "type" branch) in kind == "" || kind == "object"

unfoldable pub object_branches : List Json → List Fields
object_branches [] = []
object_branches (obj branch ∷ vs) =
    let rest = object_branches vs in if is_branch branch then branch ∷ rest else rest
object_branches (v ∷ vs) = object_branches vs

abbrev pub schema_branches : Json → List Fields
schema_branches value = object_branches (as_list value)

abbrev pub required_of : Fields → List String
required_of schema = required_strings (as_list (field_at "required" schema))

abbrev texts : List String → Items
texts [] = nil
texts (s ∷ ss) = cons (str s) (texts ss)

unfoldable pub set_required : Fields → List String → Fields
set_required schema [] = remove_field "required" schema
set_required schema (s ∷ ss) = set_field "required" (arr (texts (s ∷ ss))) schema

-- The loop of `unionStrings`.
unfoldable pub distinct_texts : List String → List String → List String
distinct_texts seen [] = []
distinct_texts seen (s ∷ ss) =
    let taken = s ∷ distinct_texts (s ∷ seen) ss in
    let skipped = distinct_texts seen ss in if s == "" || holds s seen then skipped else taken

unfoldable pub union_strings : (left right : List String) → List String
unfolding distinct_texts
union_strings left right = distinct_texts [] (left ++ right)

-- The loop of `intersectStrings`.
unfoldable pub common_texts : List String → List String → List String → List String
common_texts seen allowed [] = []
common_texts seen allowed (s ∷ ss) =
    let taken = s ∷ common_texts (s ∷ seen) allowed ss in
    let skipped = common_texts seen allowed ss in
    if holds s allowed && not (holds s seen) then taken else skipped

unfoldable pub intersect_strings : (left right : List String) → List String
unfolding common_texts
intersect_strings left right = common_texts [] right left

abbrev add_required : Fields → List String → Fields
add_required dst names = set_required dst (union_strings (required_of dst) names)

-- The loop of `mergeAllOf`, over the branches that stood there at its start.
unfoldable pub merge_all : Fields → List Fields → Fields
unfolding merge_object_schema set_required union_strings
merge_all dst [] = dst
merge_all dst (branch ∷ branches) =
    merge_all (add_required (merge_object_schema dst branch) (required_of branch)) branches

abbrev pub merge_all_of : Fields → Fields
merge_all_of dst = merge_all dst (schema_branches (field_at "allOf" dst))

unfoldable pub merge_objects : Fields → List Fields → Fields
unfolding merge_object_schema
merge_objects dst [] = dst
merge_objects dst (branch ∷ branches) = merge_objects (merge_object_schema dst branch) branches

-- What all branches after the first require as well.
unfoldable pub intersect_all : List String → List Fields → List String
unfolding intersect_strings
intersect_all names [] = names
intersect_all names (branch ∷ branches) =
    intersect_all (intersect_strings names (required_of branch)) branches

abbrev merge_variants : Fields → List Fields → Fields
merge_variants dst [] = dst
merge_variants dst (branch ∷ branches) =
    add_required (merge_objects dst (branch ∷ branches))
      (intersect_all (required_of branch) branches)

abbrev pub merge_variant_of : String → Fields → Fields
merge_variant_of key dst = merge_variants dst (schema_branches (field_at key dst))

abbrev as_object : Fields → Fields
as_object out =
    if as_str (field_at "type" out) == "object"
    then out
    else remove_field "enum" (set_field "type" (str "object") out)

abbrev with_properties : Fields → Fields
with_properties out =
    if has_field "properties" out then out else set_field "properties" (obj end) out

abbrev sanitized : Fields → Fields
sanitized out =
    let plain = remove_field "not" (with_properties (as_object out)) in
    let merged = merge_variant_of "anyOf" (merge_variant_of "oneOf" (merge_all_of plain)) in
    remove_field "anyOf" (remove_field "oneOf" (remove_field "allOf" merged))

abbrev empty_schema : Fields
empty_schema = field "type" (str "object") (field "properties" (obj end) end)

-- A nil schema is `none`.
unfoldable pub sanitize_schema : Option Fields → Fields
unfolding has_field merge_all merge_objects intersect_all set_required union_strings object_branches
sanitize_schema none = empty_schema
sanitize_schema (some schema) = sanitized schema
