-- ===== src/Catalog/Resolve/Newest.antt =====
-- The model that a role gets that is not pinned.
use mathlib.Core.List.{Memᴰ}
use mathlib.Core.List.Memᴰ
use mathlib.Core.Path.{subst}
use mathlib.Core.Option
use claudodex.Common.{
  String, ◌≡◌, refl, sym, ap, ◌∙◌, inl, inr, true, false, not, Bool-cases, Option-cases, Option,
  none, some, List, [], ◌∷◌, arith, string_key, if◌then◌else◌,
}
use claudodex.Common.Outcome.{Outcome, failed, ok, ◌>>=◌, unless}
use claudodex.ModelConfig.{Family}
use claudodex.Catalog.{ModelInfo, TargetError, target_error}
use claudodex.Catalog.Version.{}
use claudodex.Catalog.Resolve.{
  role_suffix, is_candidate, candidates, comes_first, first_of, newest, ResolveError, no_model,
  unusable,
}
use claudodex.Common.Sort.{sort_by, LeastOf, Leads, Leads-sort_by}
use claudodex.Catalog.Resolve.Laws.{
  IsUsable, target_error-IsUsable, comes_first_irrefl, comes_first_trans,
}
use Prim.Native.Nat.{Ordering}
use Prim.Native.Nat.Ordering.{lt, eq, gt}
use claudodex.Common.{◌≢◌, Bool, ◌&&◌, ◌==◌}
use claudodex.Common.Int.{◌<ℤ◌, ltb_ℤ, eqb_ℤ, eqb_ℤ_iff}
use claudodex.Common.Order.{text_cmp}
use claudodex.Common.Text.{strip_prefix, split}
use claudodex.Catalog.Version.{is_numeric_version, compare_numeric_version}
use claudodex.Catalog.Version.Numbers.{Compares, component, compare_numeric_version-Compares}
use claudodex.Catalog.Resolve.{
  version_of, priority_of, version_and_role, automatic_model, text_less, has_role,
}

none-ne-some : {x : String × String} → ¬ (Path (Option (String × String)) none (some x))
none-ne-some h = ground (arith, h)

mem_of_candidates :
    (suffix client_version : String) (m : ModelInfo) (models : List ModelInfo)
    → Memᴰ m (candidates suffix client_version models)
    → Memᴰ m models × (is_candidate suffix client_version m ≡ true)
unfolding candidates
mem_of_candidates suffix client_version m [] h = absurd (Memᴰ.not-nil h)
mem_of_candidates suffix client_version m (n ∷ models) h =
    elim (Bool-cases (is_candidate suffix client_version n)) [
      | inl e ↦ elim (Memᴰ.cases_cons (rw (e, candidates) at h)) [
        | inl same ↦ (Memᴰ.head same, ap (is_candidate suffix client_version) same ∙ e)
        | inr below ↦
            let r = mem_of_candidates suffix client_version m models below in (Memᴰ.tail r.0, r.1)
      ]
      | inr e ↦
          let r = mem_of_candidates suffix client_version m models (rw (e, candidates) at h) in
          (Memᴰ.tail r.0, r.1)
    ]

mem-candidates :
    (suffix client_version : String) (m : ModelInfo) (models : List ModelInfo)
    → is_candidate suffix client_version m ≡ true
    → Memᴰ m models
    → Memᴰ m (candidates suffix client_version models)
unfolding candidates
mem-candidates suffix client_version m [] c h = elim h [ ]
mem-candidates suffix client_version m (n ∷ models) c (Memᴰ.head e) =
    rw (sym (ap (is_candidate suffix client_version) e) ∙ c) (Memᴰ.head e)
mem-candidates suffix client_version m (n ∷ models) c (Memᴰ.tail h) =
    let below = mem-candidates suffix client_version m models c h in
    elim (Bool-cases (is_candidate suffix client_version n)) [
      | inl e ↦ rw e (Memᴰ.tail below)
      | inr e ↦ rw e below
    ]

-- The first model does not come before the second: its version is older, number by number, or the versions
-- are the same and its priority is greater, or both are the same and its name is not an earlier one.
pub data Behind (other model : ModelInfo) : Type 0 where
  older :
      Compares (component (version_of other.slug)) (component (version_of model.slug)) lt
      → Behind other model
  less_preferred :
      Compares (component (version_of other.slug)) (component (version_of model.slug)) eq
      → priority_of model <ℤ priority_of other
      → Behind other model
  named_later :
      Compares (component (version_of other.slug)) (component (version_of model.slug)) eq
      → priority_of other ≡ priority_of model
      → text_cmp other.slug model.slug ≢ lt
      → Behind other model

-- A listed model for this role and this client, before which no other such model comes.
pub record IsLeading (models : List ModelInfo) (client_version : String) (family : Family)
    (model : ModelInfo) : Type 0 where
  pub listed : Memᴰ model models
  pub candidate : is_candidate (role_suffix family) client_version model ≡ true
  pub first :
      (other : ModelInfo)
      → Memᴰ other models
      → is_candidate (role_suffix family) client_version other ≡ true
      → Behind other model

-- The model that an unpinned role gets.
pub record IsNewest (models : List ModelInfo) (client_version : String) (family : Family)
    (model : ModelInfo) : Type 0 where
  pub leading : IsLeading models client_version family model
  pub usable : IsUsable client_version model

-- What may come of the choice for an unpinned role.
pub data Newest (models : List ModelInfo) (client_version : String) (family : Family)
    : Outcome ResolveError ModelInfo → Type 0 where
  none_fits :
      ((other : ModelInfo)
        → Memᴰ other models
        → is_candidate (role_suffix family) client_version other ≡ false)
      → Newest models client_version family (failed (no_model family))
  first_unusable :
      (model : ModelInfo) (e : TargetError)
      → IsLeading models client_version family model
      → target_error model client_version ≡ some e
      → Newest models client_version family (failed (unusable e))
  chosen :
      (model : ModelInfo)
      → IsNewest models client_version family model
      → Newest models client_version family (ok model)

parts_numeric :
    (parts : List String) (version role : String)
    → version_and_role parts ≡ some (version, role)
    → is_numeric_version version ≡ true
parts_numeric [] version role h = ground (arith, h)
parts_numeric (v ∷ []) version role h = ground (arith, h)
parts_numeric (v ∷ r ∷ []) version role h = ground (arith, h)
parts_numeric (v ∷ r ∷ t ∷ ts) version role h = ground (arith, h)

model_numeric :
    (slug : String) (parts : String × String)
    → automatic_model slug ≡ some parts
    → is_numeric_version parts.0 ≡ true
unfolding automatic_model
model_numeric slug parts h = elim (Option-cases (strip_prefix "gpt-" slug)) [
  | inl e ↦ absurd (none-ne-some (rw (e, automatic_model) at h))
  | inr (rest, e) ↦ parts_numeric (split rest b'-') parts.0 parts.1 (rw (e, automatic_model) at h)
]

first_of_and : (a b c d : Bool) → a && b && c && d ≡ true → a ≡ true
first_of_and a b c d h = ground (arith, h)

version_numeric :
    (suffix client_version : String) (m : ModelInfo)
    → is_candidate suffix client_version m ≡ true
    → is_numeric_version (version_of m.slug) ≡ true
version_numeric suffix client_version m h =
    go (automatic_model m.slug) refl (first_of_and (has_role suffix m.slug) _ _ _ h)
  where
    go :
        (o : Option (String × String))
        → automatic_model m.slug ≡ o
        → (elim o [ none ↦ false | some parts ↦ parts.1 == suffix ]) ≡ true
        → is_numeric_version (elim o [ none ↦ "" | some parts ↦ parts.0 ]) ≡ true
    go none e k = ground (arith, k)
    go (some parts) e k = model_numeric m.slug parts e

not_lt : (o : Ordering) → (elim o [ lt ↦ true | _ ↦ false ]) ≡ false → o ≢ lt
not_lt lt h e = ground (arith, h)
not_lt eq h e = ground (arith, e)
not_lt gt h e = ground (arith, e)

-- What the comparison that sort.Slice gets says of two candidates.
not_first-Behind :
    (other model : ModelInfo) (o : Ordering)
    → compare_numeric_version (version_of other.slug) (version_of model.slug) ≡ o
    → Compares (component (version_of other.slug)) (component (version_of model.slug)) o
    → comes_first other model ≡ false
    → Behind other model
unfolding comes_first
not_first-Behind other model lt e c h = Behind.older c
not_first-Behind other model gt e c h = ground (arith, rw (e, comes_first) at h)
not_first-Behind other model eq e c h =
    let left : (if not (eqb_ℤ (priority_of other) (priority_of model))
          then ltb_ℤ (priority_of other) (priority_of model)
          else text_less other.slug model.slug)
        ≡ false =
      rw (e, comes_first) at h in
    elim (Bool-cases (eqb_ℤ (priority_of other) (priority_of model))) [
      | inl same ↦
          Behind.named_later c ((eqb_ℤ_iff (priority_of other) (priority_of model)).0 same)
            (not_lt (text_cmp other.slug model.slug) (rw same at left))
      | inr apart ↦ Behind.less_preferred c (ground (arith, apart, rw apart at left))
    ]

module _ (models : List ModelInfo) (client_version : String) (family : Family) where
  abbrev fitting : List ModelInfo
  fitting = candidates (role_suffix family) client_version models

  no_candidate :
      fitting ≡ []
      → (other : ModelInfo) → Memᴰ other models
      → is_candidate (role_suffix family) client_version other ≡ false
  no_candidate h other m =
      elim (Bool-cases (is_candidate (role_suffix family) client_version other)) [
        | inl e ↦ absurd (
            Memᴰ.not-nil (
              subst (Memᴰ other) h
                (mem-candidates (role_suffix family) client_version other models e m)))
        | inr e ↦ e
      ]

  first-IsLeading :
      (model : ModelInfo)
      → LeastOf comes_first model fitting
      → IsLeading models client_version family model
  first-IsLeading model (m, h) =
      let suffix = role_suffix family in
      let r = mem_of_candidates suffix client_version model models m in
      record {
        listed = r.0;
        candidate = r.1;
        first = λ other o c.
            not_first-Behind other model _ refl
              (compare_numeric_version-Compares (version_of other.slug) (version_of model.slug)
                (version_numeric suffix client_version other c)
                (version_numeric suffix client_version model r.1))
              (h other (mem-candidates suffix client_version other models c o));
      }

  first_of-Newest :
      (sorted : List ModelInfo)
      → Leads comes_first sorted fitting
      → Newest models client_version family (
          first_of family sorted >>= λ selected.
          unless (Option.map unusable (target_error selected client_version)) selected)
  first_of-Newest [] h = Newest.none_fits (no_candidate h)
  first_of-Newest (model ∷ rest) h = elim (Option-cases (target_error model client_version)) [
    | inl u ↦ rw u (
        Newest.chosen model record {
          leading = first-IsLeading model h;
          usable = target_error-IsUsable client_version model u;
        })
    | inr (e, u) ↦ rw u (Newest.first_unusable model e (first-IsLeading model h) u)
  ]

  -- A role that is not pinned fails only if no visible model of its kind fits the client, or if exactly the
  -- newest of them cannot be used; otherwise it gets that newest one. Versions are compared number by
  -- number, ties going to the lower priority and then to the earlier name.
  pub newest-Newest : Newest models client_version family (newest models client_version family)
  unfolding newest
  newest-Newest =
      first_of-Newest (sort_by comes_first fitting)
        (Leads-sort_by comes_first comes_first_irrefl comes_first_trans fitting)
