-- ===== src/Convert/Schema/Required.antt =====
-- What a schema requires, it still requires once it is sanitized.
use claudodex.Common.{
  String, ◌≡◌, refl, ap, ◌∙◌, Bool, true, false, ◌||◌, inl, inr, Bool-cases, some, List, [], ◌∷◌,
  ◌++◌, arith, eq_iff, ◌==◌, string_key, if◌then◌else◌,
}
use claudodex.Json.{
  Fields, str, arr, obj, end, items, field_at, as_list, as_str, set_field, remove_field,
}
use claudodex.ModelConfig.{holds}
use claudodex.Stream.ToolArgs.{required_strings}
use claudodex.Convert.Schema.{
  has_field, add_description, merge_maps, merge_object_schema, properties_of, schema_branches,
  required_of, texts, set_required, distinct_texts, union_strings, add_required, merge_all,
  merge_objects, intersect_all, merge_variants, as_object, with_properties, sanitized,
  sanitize_schema,
}
use claudodex.Convert.Schema.Laws.{
  field_at-set_field, field_at-set_ne, field_at-remove_ne, plain, merged,
}

abbrev pub Requires : Fields → String → Type 0
Requires schema name = holds name (required_of schema) ≡ true

holds-append_left :
    (name : String) (xs ys : List String) → holds name xs ≡ true → holds name (xs ++ ys) ≡ true
holds-append_left name [] ys h = ground (arith, h)
holds-append_left name (x ∷ xs) ys h = ground (arith, h, holds-append_left name xs ys)

-- A text that is not empty and not seen before is taken.
holds-distinct_texts :
    (name : String) (seen ss : List String)
    → name == "" ≡ false
    → holds name ss ≡ true
    → (holds name seen || holds name (distinct_texts seen ss)) ≡ true
unfolding distinct_texts
holds-distinct_texts name seen [] n h = ground (arith, h)
holds-distinct_texts name seen (s ∷ ss) n h = ground (
  arith,
  n,
  h,
  eq_iff s name,
  eq_iff s "",
  eq_iff name "",
  holds-distinct_texts name (s ∷ seen) ss n,
  holds-distinct_texts name seen ss n,
)

holds-union_strings :
    (name : String) (left right : List String)
    → name == "" ≡ false
    → holds name left ≡ true
    → holds name (union_strings left right) ≡ true
unfolding union_strings
holds-union_strings name left right n h =
    holds-distinct_texts name [] (left ++ right) n (holds-append_left name left right h)

holds-texts :
    (name : String) (ss : List String)
    → name == "" ≡ false
    → holds name ss ≡ true
    → holds name (required_strings (items (texts ss))) ≡ true
holds-texts name [] n h = h
holds-texts name (s ∷ ss) n h = elim (Bool-cases (s == "")) [
  | inl e ↦
      rw e (
        holds-texts name ss n (ground (arith, n, h, e, eq_iff s name, eq_iff s "", eq_iff name "")))
  | inr e ↦ rw e (ground (arith, h, holds-texts name ss n))
]

set_required-Requires :
    (schema : Fields) (names : List String) (name : String)
    → name == "" ≡ false
    → holds name names ≡ true
    → Requires (set_required schema names) name
unfolding set_required
set_required-Requires schema [] name n h = ground (arith, h)
set_required-Requires schema (s ∷ ss) name n h =
    ap (λ v. holds name (required_strings (as_list v)))
      (field_at-set_field "required" "required" (arr (texts (s ∷ ss))) schema)
    ∙ holds-texts name (s ∷ ss) n h

add_required-Requires :
    (schema : Fields) (names : List String) (name : String)
    → name == "" ≡ false
    → Requires schema name
    → Requires (add_required schema names) name
add_required-Requires schema names name n h =
    set_required-Requires schema (union_strings (required_of schema) names) name n
      (holds-union_strings name (required_of schema) names n h)

-- Requirements are read from one field only.
same_required :
    (a b : Fields) (name : String)
    → field_at "required" a ≡ field_at "required" b
    → Requires b name
    → Requires a name
same_required a b name e h = ap (λ v. holds name (required_strings (as_list v))) e ∙ h

merge_object_schema_required :
    (dst branch : Fields)
    → field_at "required" (merge_object_schema dst branch) ≡ field_at "required" dst
unfolding merge_object_schema
merge_object_schema_required dst branch =
    let d = as_str (field_at "description" branch) in
    let described = add_description dst d in
    field_at-set_ne "required" "properties"
      (obj (merge_maps (properties_of described) (properties_of branch))) described refl
    ∙ unless_described (d == "" || has_field "description" dst) d
  where
    unless_described :
        (b : Bool) (d : String)
        → field_at "required" (if b then dst else set_field "description" (str d) dst)
          ≡ field_at "required" dst
    unless_described true d = refl
    unless_described false d = field_at-set_ne "required" "description" (str d) dst refl

module _ (name : String) (n : name == "" ≡ false) where
  merge_object_schema-Requires :
      (dst branch : Fields) → Requires dst name → Requires (merge_object_schema dst branch) name
  merge_object_schema-Requires dst branch =
      same_required (merge_object_schema dst branch) dst name
        (merge_object_schema_required dst branch)

  merge_all-Requires :
      (dst : Fields) (branches : List Fields)
      → Requires dst name
      → Requires (merge_all dst branches) name
  unfolding merge_all
  merge_all-Requires dst [] h = h
  merge_all-Requires dst (branch ∷ branches) h =
      merge_all-Requires (add_required (merge_object_schema dst branch) (required_of branch))
        branches
        (add_required-Requires (merge_object_schema dst branch) (required_of branch) name n
          (merge_object_schema-Requires dst branch h))

  merge_objects-Requires :
      (dst : Fields) (branches : List Fields)
      → Requires dst name
      → Requires (merge_objects dst branches) name
  unfolding merge_objects
  merge_objects-Requires dst [] h = h
  merge_objects-Requires dst (branch ∷ branches) h =
      merge_objects-Requires (merge_object_schema dst branch) branches
        (merge_object_schema-Requires dst branch h)

  merge_variants-Requires :
      (dst : Fields) (branches : List Fields)
      → Requires dst name
      → Requires (merge_variants dst branches) name
  merge_variants-Requires dst [] h = h
  merge_variants-Requires dst (branch ∷ branches) h =
      add_required-Requires (merge_objects dst (branch ∷ branches))
        (intersect_all (required_of branch) branches) name n
        (merge_objects-Requires dst (branch ∷ branches) h)

  as_object_required :
      (schema : Fields) → field_at "required" (as_object schema) ≡ field_at "required" schema
  as_object_required schema = elim (Bool-cases (as_str (field_at "type" schema) == "object")) [
    | inl e ↦ rw e refl
    | inr e ↦ rw e (
        field_at-remove_ne "required" "enum" (set_field "type" (str "object") schema) refl
        ∙ field_at-set_ne "required" "type" (str "object") schema refl)
  ]

  with_properties_required :
      (schema : Fields) → field_at "required" (with_properties schema) ≡ field_at "required" schema
  with_properties_required schema = elim (Bool-cases (has_field "properties" schema)) [
    | inl e ↦ rw e refl
    | inr e ↦ rw e (field_at-set_ne "required" "properties" (obj end) schema refl)
  ]

  plain-Requires : (schema : Fields) → Requires schema name → Requires (plain schema) name
  plain-Requires schema = same_required (plain schema) schema name (
      field_at-remove_ne "required" "not" (with_properties (as_object schema)) refl
      ∙ with_properties_required (as_object schema)
      ∙ as_object_required schema)

  -- A name that a tool's schema requires is still required by the schema that `sanitizeSchema` makes of
  -- it, whatever variants are merged into it.
  pub sanitize_schema-Requires :
      (schema : Fields) → Requires schema name → Requires (sanitize_schema (some schema)) name
  unfolding sanitize_schema
  sanitize_schema-Requires schema h =
      let m = merged schema in
      let start = plain schema in
      let all_of = merge_all start (schema_branches (field_at "allOf" start)) in
      let one_of = merge_variants all_of (schema_branches (field_at "oneOf" all_of)) in
      let kept : Requires m name =
        merge_variants-Requires one_of (schema_branches (field_at "anyOf" one_of)) (
          merge_variants-Requires all_of (schema_branches (field_at "oneOf" all_of)) (
            merge_all-Requires start (schema_branches (field_at "allOf" start))
              (plain-Requires schema h))) in
      same_required (sanitized schema) m name
        (field_at-remove_ne "required" "anyOf" (remove_field "oneOf" (remove_field "allOf" m)) refl
          ∙ field_at-remove_ne "required" "oneOf" (remove_field "allOf" m) refl
          ∙ field_at-remove_ne "required" "allOf" m refl)
        kept
