-- ===== src/Catalog/Resolve/Laws.antt =====
-- Which models the roles get.
use Prim.Native.Nat.{compare, Ordering}
use Prim.Native.Nat.Ordering.{lt, eq, gt}
use claudodex.Common.{
  String, ◌≡◌, ◌≢◌, refl, sym, ap, ◌∙◌, ◌+◌, ◌⊎◌, Bool, true, false, not, none, [], arith, eq_iff,
  string_key, if◌then◌else◌,
}
use claudodex.Common.Int.{ℤ, pos, pos_part, neg_part, ◌<ℤ◌, ltb_ℤ, eqb_ℤ}
use claudodex.Common.Order.{
  then_by, swap, text_cmp, IsPreorder, text_cmp-IsPreorder, both, both-IsPreorder, on-IsPreorder,
  swapped-IsPreorder,
}
use claudodex.Catalog.{ModelInfo, target_error, levels_of, too_old}
use claudodex.Catalog.Version.{compare_numeric_version}
use claudodex.Catalog.Version.Order.{compare_numeric_version-IsPreorder}
use claudodex.Catalog.Resolve.{comes_first, version_of, priority_of}

-- The order of the candidates as one comparison.
cmp_ℤ : ℤ → ℤ → Ordering
cmp_ℤ a b = compare (pos_part a + neg_part b) (pos_part b + neg_part a)

cmp_ℤ-IsPreorder : IsPreorder cmp_ℤ
unfolding cmp_ℤ
cmp_ℤ-IsPreorder = record {
  cmp_refl = λ a. ground arith;
  cmp_swap = λ a b. ground arith;
  cmp_trans = λ a b c. ground arith;
  cmp_eq = λ a b c. ground arith;
}

abbrev by_version : ModelInfo → ModelInfo → Ordering
by_version i j = compare_numeric_version (version_of j.slug) (version_of i.slug)

abbrev by_priority : ModelInfo → ModelInfo → Ordering
by_priority i j = cmp_ℤ (priority_of i) (priority_of j)

abbrev by_slug : ModelInfo → ModelInfo → Ordering
by_slug i j = text_cmp i.slug j.slug

abbrev rank : ModelInfo → ModelInfo → Ordering
rank = both by_version (both by_priority by_slug)

rank-IsPreorder : IsPreorder rank
rank-IsPreorder =
    both-IsPreorder
      (swapped-IsPreorder
        (on-IsPreorder (λ (i : ModelInfo). version_of i.slug) compare_numeric_version-IsPreorder))
      (both-IsPreorder (on-IsPreorder priority_of cmp_ℤ-IsPreorder)
        (on-IsPreorder (λ (i : ModelInfo). i.slug) text_cmp-IsPreorder))

open rank-IsPreorder use {cmp_refl, cmp_trans}
open compare_numeric_version-IsPreorder use {cmp_swap}

is_lt : Ordering → Bool
is_lt lt = true
is_lt _ = false

decides :
    (version slugs : Ordering) (p q : ℤ)
    → elim version [
      | gt ↦ true
      | lt ↦ false
      | eq ↦ if not (eqb_ℤ p q) then ltb_ℤ p q else elim slugs [ lt ↦ true | _ ↦ false ]
    ]
      ≡ is_lt (then_by (swap version) (then_by (cmp_ℤ p q) slugs))
unfolding is_lt cmp_ℤ
decides lt slugs p q = refl
decides gt slugs p q = refl
decides eq lt p q = ground arith
decides eq eq p q = ground arith
decides eq gt p q = ground arith

comes_first_lem : (i j : ModelInfo) → comes_first i j ≡ is_lt (rank i j)
unfolding comes_first
comes_first_lem i j =
    decides (compare_numeric_version (version_of i.slug) (version_of j.slug))
      (text_cmp i.slug j.slug) (priority_of i) (priority_of j)
    ∙ ap (λ o. is_lt (then_by o (then_by (by_priority i j) (by_slug i j))))
        (sym (cmp_swap (version_of i.slug) (version_of j.slug)))

pub comes_first_irrefl : (i : ModelInfo) → comes_first i i ≡ false
unfolding is_lt
comes_first_irrefl i = comes_first_lem i i ∙ ap is_lt (cmp_refl i)

pub comes_first_trans :
    (i j k : ModelInfo) → comes_first i j ≡ true → comes_first j k ≡ true → comes_first i k ≡ true
unfolding is_lt
comes_first_trans i j k h l =
    ground (arith, comes_first_lem i j, comes_first_lem j k, comes_first_lem i k, cmp_trans i j k)

-- What makes a model usable for a client.
pub record IsUsable (client_version : String) (model : ModelInfo) : Type 0 where
  pub advertised : (model.supported_in_api ≡ true) × (model.visibility ≡ "list")
  pub new_enough : too_old model client_version ≡ false
  pub has_window : (pos 0 <ℤ model.context_window) ⊎ (pos 0 <ℤ model.max_context_window)
  pub has_levels : levels_of model ≢ []

pub target_error-IsUsable :
    (client_version : String) (model : ModelInfo)
    → target_error model client_version ≡ none
    → IsUsable client_version model
unfolding target_error
target_error-IsUsable client_version model h = record {
  advertised = ground (arith, h, eq_iff model.visibility "list");
  new_enough = ground (arith, h);
  has_window = ground (arith, h);
  has_levels = ground (arith, h);
}
