-- ===== src/Stream/ToolArgs/Required.antt =====
-- What the pruning of a tool call's arguments keeps.
use claudodex.Common.{
  String, ◌≡◌, refl, sym, ap, ◌∙◌, Bool, true, false, not, ◌&&◌, Option, none, some, Bool-cases,
  inl, inr, eq_iff, ◌==◌, string_key,
}
use claudodex.Json.{Json, Fields, null, end, field, field_at}
use claudodex.Stream.ToolArgs.{
  is_empty_optional_value, is_required, property, keep_field, prune_value, prune_object,
}

prune_null : (schema : Option Fields) → prune_value schema null ≡ null
unfolding prune_value
prune_null none = refl
prune_null (some schema) = refl

skip_field :
    (b : Bool) (j k : String) (v : Json) (fs : Fields)
    → j == k ≡ false
    → field_at k (keep_field b j v fs) ≡ field_at k fs
unfolding field_at
skip_field true j k v fs e = refl
skip_field false j k v fs e = rw e refl

-- A required argument survives the pruning, whatever its value: what is read from it is the value that
-- was there, pruned by its own schema.
pub field_at-prune_object :
    (schema : Option Fields) (k : String) (fs : Fields)
    → is_required schema k ≡ true
    → field_at k (prune_object schema fs) ≡ prune_value (property schema k) (field_at k fs)
unfolding prune_object prune_value field_at
field_at-prune_object schema k end h = sym (prune_null (property schema k))
field_at-prune_object schema k (field j v fs) h = elim (Bool-cases (j == k)) [
  | inl e ↦
      let p = (eq_iff j k).0 e in
      rw (ap (is_required schema) p ∙ h, e) (ap (λ x. prune_value (property schema x) v) p)
  | inr e ↦ rw e (
      skip_field (not (is_required schema j) && is_empty_optional_value v) j k _
        (prune_object schema fs) e
      ∙ field_at-prune_object schema k fs h)
]
