-- ===== src/Common/Sort.antt =====
-- Sorting by a comparison, and what comes first after it: one that nothing comes before.
use mathlib.Core.List.{Memᴰ}
use mathlib.Core.List.Memᴰ
use mathlib.Core.Path.{subst}
use mathlib.Core.Path.{◌≡◌, refl, ap, ◌∙◌}
use mathlib.Core.Logic.{inl, inr}
use mathlib.Core.Bool.{Bool, true, false}
use mathlib.Core.List.{List, [], ◌∷◌}
use native.Mathlib.Omega.{arith}
use claudodex.Common.Tests.{Bool-cases, if◌then◌else◌}

-- sort.Slice by a comparison. The order of what the comparison does not tell apart is open in Go.
module _ {ℓ} {A : Type ℓ} (less : A → A → Bool) where
  unfoldable pub insert_by : A → List A → List A
  insert_by x [] = x ∷ []
  insert_by x (y ∷ ys) = let rest = insert_by x ys in if less x y then x ∷ y ∷ ys else y ∷ rest

  unfoldable pub sort_by : List A → List A
  unfolding insert_by
  sort_by [] = []
  sort_by (x ∷ xs) = insert_by x (sort_by xs)

module _ {ℓ} {A : Type ℓ} (less : A → A → Bool) where
  abbrev pub LeastOf : A → List A → Type ℓ
  LeastOf x l = Memᴰ x l × ((a : A) → Memᴰ a l → less a x ≡ false)

  -- The first of a sorted list is the least of the list that was sorted.
  abbrev pub Leads : (sorted l : List A) → Type ℓ
  Leads [] l = l ≡ []
  Leads (x ∷ xs) l = LeastOf x l

  module _ (irrefl : (a : A) → less a a ≡ false)
      (trans : (a b c : A) → less a b ≡ true → less b c ≡ true → less a c ≡ true) where
    below_least : (x z a : A) → less x z ≡ true → less a z ≡ false → less a x ≡ false
    below_least x z a h k = ground (arith, trans a x z)

    below_first :
        (x z a : A) (l : List A)
        → less z x ≡ false
        → ((b : A) → Memᴰ b l → less b x ≡ false)
        → Memᴰ a (z ∷ l)
        → less a x ≡ false
    below_first x z a l h k (Memᴰ.head e) = ap (λ b. less b x) e ∙ h
    below_first x z a l h k (Memᴰ.tail m) = k a m

    Leads-insert_by : (x : A) (s l : List A) → Leads s l → Leads (insert_by less x s) (x ∷ l)
    unfolding insert_by
    Leads-insert_by x [] l h =
        (Memᴰ.head refl, λ a. below_first x x a l (irrefl x) (λ b m. absurd (empty b m)))
      where
        empty : (b : A) → Memᴰ b l → ⊥
        empty b m = Memᴰ.not-nil (subst (Memᴰ b) h m)
    Leads-insert_by x (z ∷ s) l h = elim (Bool-cases (less x z)) [
      | inl e ↦ rw e (
        Memᴰ.head refl,
        λ a. below_first x x a l (irrefl x) (λ b m. below_least x z b e (h.1 b m)),
      )
      | inr e ↦ rw e (Memᴰ.tail h.0, λ a. below_first z x a l e h.1)
    ]

    pub Leads-sort_by : (l : List A) → Leads (sort_by less l) l
    unfolding sort_by
    Leads-sort_by [] = refl
    Leads-sort_by (x ∷ l) = Leads-insert_by x (sort_by less l) l (Leads-sort_by l)
