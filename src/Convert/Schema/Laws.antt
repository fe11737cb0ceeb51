-- ===== src/Convert/Schema/Laws.antt =====
-- What a sanitized schema is, and what it keeps of the given one.
use claudodex.Common.{
  String, ◌≡◌, refl, ap, ◌∙◌, true, false, ◌||◌, inl, inr, Bool-cases, Option, none, some, List, [],
  ◌∷◌, arith, eq_iff, ◌==◌, string_key, if◌then◌else◌,
}
use claudodex.Json.{
  Json, Fields, null, bool, num, str, arr, obj, end, field, field_at, as_str, set_field,
  remove_field,
}
use claudodex.Convert.Schema.{
  has_field, add_description, merge_maps, merge_object_schema, properties_of, schema_branches,
  required_of, texts, set_required, add_required, merge_all, merge_all_of, merge_objects,
  merge_variants, merge_variant_of, as_object, with_properties, sanitized, sanitize_schema,
}

pub field_at-set_field :
    (asked k : String) (v : Json) (fs : Fields)
    → field_at asked (set_field k v fs) ≡ (if k == asked then v else field_at asked fs)
unfolding field_at set_field
field_at-set_field asked k v end = refl
field_at-set_field asked k v (field j w fs) =
    ground (arith, eq_iff k asked, eq_iff j k, eq_iff j asked, field_at-set_field asked k v fs)

pub field_at-set_ne :
    (asked k : String) (v : Json) (fs : Fields)
    → k == asked ≡ false
    → field_at asked (set_field k v fs) ≡ field_at asked fs
field_at-set_ne asked k v fs e =
    field_at-set_field asked k v fs ∙ ap (λ b. if b then v else field_at asked fs) e

pub field_at-remove_ne :
    (asked k : String) (fs : Fields)
    → k == asked ≡ false
    → field_at asked (remove_field k fs) ≡ field_at asked fs
unfolding field_at remove_field
field_at-remove_ne asked k end e = refl
field_at-remove_ne asked k (field j w fs) e =
    ground (arith, eq_iff k asked, eq_iff j k, eq_iff j asked, field_at-remove_ne asked k fs e)

has_field-remove_self : (k : String) (fs : Fields) → has_field k (remove_field k fs) ≡ false
unfolding has_field remove_field
has_field-remove_self k end = refl
has_field-remove_self k (field j w fs) = ground (arith, has_field-remove_self k fs)

has_field-remove :
    (asked k : String) (fs : Fields)
    → has_field asked fs ≡ false
    → has_field asked (remove_field k fs) ≡ false
unfolding has_field remove_field
has_field-remove asked k end h = h
has_field-remove asked k (field j w fs) h = ground (arith, h, has_field-remove asked k fs)

-- The fields that merging never touches.
abbrev pub IsFixed : String → Type 0
IsFixed k =
    (("description" == k) ≡ false) × (("properties" == k) ≡ false) × (("required" == k) ≡ false)

add_description_fixed :
    (dst : Fields) (d k : String) → IsFixed k → field_at k (add_description dst d) ≡ field_at k dst
add_description_fixed dst d k f = elim (Bool-cases (d == "" || has_field "description" dst)) [
  | inl e ↦ rw e refl
  | inr e ↦ rw e (field_at-set_ne k "description" (str d) dst f.0)
]

merge_object_schema_fixed :
    (dst branch : Fields) (k : String)
    → IsFixed k
    → field_at k (merge_object_schema dst branch) ≡ field_at k dst
unfolding merge_object_schema
merge_object_schema_fixed dst branch k f =
    let described = add_description dst (as_str (field_at "description" branch)) in
    field_at-set_ne k "properties"
      (obj (merge_maps (properties_of described) (properties_of branch))) described f.1
    ∙ add_description_fixed dst (as_str (field_at "description" branch)) k f

set_required_fixed :
    (schema : Fields) (names : List String) (k : String)
    → IsFixed k
    → field_at k (set_required schema names) ≡ field_at k schema
unfolding set_required
set_required_fixed schema [] k f = field_at-remove_ne k "required" schema f.2
set_required_fixed schema (s ∷ ss) k f =
    field_at-set_ne k "required" (arr (texts (s ∷ ss))) schema f.2

merge_all_fixed :
    (dst : Fields) (branches : List Fields) (k : String)
    → IsFixed k
    → field_at k (merge_all dst branches) ≡ field_at k dst
unfolding merge_all
merge_all_fixed dst [] k f = refl
merge_all_fixed dst (branch ∷ branches) k f =
    merge_all_fixed (add_required (merge_object_schema dst branch) (required_of branch)) branches k
      f
    ∙ set_required_fixed (merge_object_schema dst branch) _ k f
    ∙ merge_object_schema_fixed dst branch k f

merge_objects_fixed :
    (dst : Fields) (branches : List Fields) (k : String)
    → IsFixed k
    → field_at k (merge_objects dst branches) ≡ field_at k dst
unfolding merge_objects
merge_objects_fixed dst [] k f = refl
merge_objects_fixed dst (branch ∷ branches) k f =
    merge_objects_fixed (merge_object_schema dst branch) branches k f
    ∙ merge_object_schema_fixed dst branch k f

merge_variants_fixed :
    (dst : Fields) (branches : List Fields) (k : String)
    → IsFixed k
    → field_at k (merge_variants dst branches) ≡ field_at k dst
merge_variants_fixed dst [] k f = refl
merge_variants_fixed dst (branch ∷ branches) k f =
    set_required_fixed (merge_objects dst (branch ∷ branches)) _ k f
    ∙ merge_objects_fixed dst (branch ∷ branches) k f

is_object : (v : Json) → as_str v == "object" ≡ true → v ≡ str "object"
is_object (str s) h = ap str ((eq_iff s "object").0 h)
is_object null h = ground (arith, h)
is_object (bool b) h = ground (arith, h)
is_object (num w f) h = ground (arith, h)
is_object (arr vs) h = ground (arith, h)
is_object (obj fs) h = ground (arith, h)

as_object-type : (out : Fields) → field_at "type" (as_object out) ≡ str "object"
as_object-type out = elim (Bool-cases (as_str (field_at "type" out) == "object")) [
  | inl e ↦ rw e (is_object (field_at "type" out) e)
  | inr e ↦ rw e (
      field_at-remove_ne "type" "enum" (set_field "type" (str "object") out) refl
      ∙ field_at-set_field "type" "type" (str "object") out)
]

with_properties-type : (out : Fields) → field_at "type" (with_properties out) ≡ field_at "type" out
with_properties-type out = elim (Bool-cases (has_field "properties" out)) [
  | inl e ↦ rw e refl
  | inr e ↦ rw e (field_at-set_ne "type" "properties" (obj end) out refl)
]

abbrev type_fixed : IsFixed "type"
type_fixed = (refl, refl, refl)

abbrev pub plain : Fields → Fields
plain schema = remove_field "not" (with_properties (as_object schema))

abbrev pub merged : Fields → Fields
merged schema = merge_variant_of "anyOf" (merge_variant_of "oneOf" (merge_all_of (plain schema)))

merged-type : (schema : Fields) → field_at "type" (merged schema) ≡ str "object"
merged-type schema =
    let all_of = merge_all_of (plain schema) in
    let one_of = merge_variant_of "oneOf" all_of in
    merge_variants_fixed one_of (schema_branches (field_at "anyOf" one_of)) "type" type_fixed
    ∙ merge_variants_fixed all_of (schema_branches (field_at "oneOf" all_of)) "type" type_fixed
    ∙ merge_all_fixed (plain schema) (schema_branches (field_at "allOf" (plain schema))) "type"
        type_fixed
    ∙ field_at-remove_ne "type" "not" (with_properties (as_object schema)) refl
    ∙ with_properties-type (as_object schema)
    ∙ as_object-type schema

sanitized-type : (schema : Fields) → field_at "type" (sanitized schema) ≡ str "object"
sanitized-type schema =
    let m = merged schema in
    let rest = remove_field "oneOf" (remove_field "allOf" m) in
    field_at-remove_ne "type" "anyOf" rest refl
    ∙ field_at-remove_ne "type" "oneOf" (remove_field "allOf" m) refl
    ∙ field_at-remove_ne "type" "allOf" m refl
    ∙ merged-type schema

-- A schema without variants, which says that it is one of an object.
pub record IsPlain (schema : Fields) : Type 0 where
  pub object : field_at "type" schema ≡ str "object"
  pub no_all_of : has_field "allOf" schema ≡ false
  pub no_one_of : has_field "oneOf" schema ≡ false
  pub no_any_of : has_field "anyOf" schema ≡ false

-- Whatever schema a tool has, or none, `sanitizeSchema` gives one of an object, without allOf, oneOf and
-- anyOf at its top.
pub sanitize_schema-IsPlain : (schema : Option Fields) → IsPlain (sanitize_schema schema)
unfolding sanitize_schema has_field field_at
sanitize_schema-IsPlain none = record {
  object = refl;
  no_all_of = refl;
  no_one_of = refl;
  no_any_of = refl;
}
sanitize_schema-IsPlain (some schema) =
    let m = merged schema in
    let less = remove_field "oneOf" (remove_field "allOf" m) in
    record {
      object = sanitized-type schema;
      no_all_of = has_field-remove "allOf" "anyOf" less (
          has_field-remove "allOf" "oneOf" (remove_field "allOf" m)
            (has_field-remove_self "allOf" m));
      no_one_of =
          has_field-remove "oneOf" "anyOf" less
            (has_field-remove_self "oneOf" (remove_field "allOf" m));
      no_any_of = has_field-remove_self "anyOf" less;
    }
