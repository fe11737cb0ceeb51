-- ===== src/Common/Dict.antt =====
-- A Go map as an association list: `lookup` is the comma-ok read, `insert` the assignment and
-- `remove` the delete.
use mathlib.Core.Path.{◌≡◌, refl}
use mathlib.Core.Option.{Option, none, some}
use mathlib.Core.List.{List, [], ◌∷◌}
use native.Mathlib.Omega.{arith}
use claudodex.Common.Tests.{if◌then◌else◌}
use claudodex.Common.Keys.{Key, ◌==◌}

abbrev pub Dict {ℓ κ} : Type ℓ → Type κ → Type (ℓ ⊔ κ)
Dict K V = List (K × V)

module _ {ℓ κ} {K : Type ℓ} {V : Type κ} ⦃key : Key K⦄ where
  unfoldable pub lookup : K → Dict K V → Option V
  lookup asked [] = none
  lookup asked ((k, v) ∷ rest) = if k == asked then some v else lookup asked rest

  unfoldable pub remove : K → Dict K V → Dict K V
  remove gone [] = []
  remove gone ((k, v) ∷ rest) =
      let others = remove gone rest in if k == gone then others else (k, v) ∷ others

  unfoldable pub insert : K → V → Dict K V → Dict K V
  insert new w [] = (new, w) ∷ []
  insert new w ((k, v) ∷ rest) = if k == new then (new, w) ∷ rest else (k, v) ∷ insert new w rest

  pub lookup-remove :
      (gone asked : K) (m : Dict K V)
      → lookup asked (remove gone m) ≡ (if gone == asked then none else lookup asked m)
  unfolding lookup remove
  lookup-remove gone asked [] = ground arith
  lookup-remove gone asked ((k, v) ∷ rest) = ground (
    arith,
    key.same_iff gone asked,
    key.same_iff k gone,
    key.same_iff k asked,
    lookup-remove gone asked rest,
  )

  pub lookup-insert :
      (new asked : K) (w : V) (m : Dict K V)
      → lookup asked (insert new w m) ≡ (if new == asked then some w else lookup asked m)
  unfolding insert lookup
  lookup-insert new asked w [] = refl
  lookup-insert new asked w ((k, v) ∷ rest) = ground (
    arith,
    key.same_iff new asked,
    key.same_iff k new,
    key.same_iff k asked,
    lookup-insert new asked w rest,
  )

pub ruleset dict_laws = (lookup-insert, lookup-remove)
