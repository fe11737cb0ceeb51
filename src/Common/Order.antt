-- ===== src/Common/Order.antt =====
-- Comparisons with three results: Go's order of strings, which is that of their code points, and the
-- laws of a comparison that does not tell all values apart.
use Prim.Native.Nat.{compare, Ordering}
use Prim.Native.Nat.Ordering.{lt, eq, gt}
use Prim.Native.String.{String, [], ◌∷◌}
use Prim.Native.Char.{code}
use mathlib.Core.Path.{◌≡◌, refl}
use mathlib.Core.Logic.{◌⊎◌, inl, inr}
use native.Mathlib.Omega.{arith}

-- The first result that is not equality.
abbrev pub then_by : Ordering → Ordering → Ordering
then_by eq second = second
then_by lt _ = lt
then_by gt _ = gt

abbrev pub swap : Ordering → Ordering
swap lt = gt
swap eq = eq
swap gt = lt

pub Ordering-cases : (o : Ordering) → (o ≡ lt) ⊎ (o ≡ eq) ⊎ (o ≡ gt)
Ordering-cases lt = inl refl
Ordering-cases eq = inr (inl refl)
Ordering-cases gt = inr (inr refl)

unfoldable pub text_cmp : String → String → Ordering
text_cmp [] [] = eq
text_cmp [] (d ∷ t) = lt
text_cmp (c ∷ s) [] = gt
text_cmp (c ∷ s) (d ∷ t) = then_by (compare (code c) (code d)) (text_cmp s t)

pub record IsPreorder {ℓ} {A : Type ℓ} (cmp : A → A → Ordering) : Type ℓ where
  pub cmp_refl : (a : A) → cmp a a ≡ eq
  pub cmp_swap : (a b : A) → cmp b a ≡ swap (cmp a b)
  pub cmp_trans : (a b c : A) → cmp a b ≡ lt → cmp b c ≡ lt → cmp a c ≡ lt
  pub cmp_eq : (a b c : A) → cmp a b ≡ eq → cmp a c ≡ cmp b c

pub compare-IsPreorder : IsPreorder compare
compare-IsPreorder = ground arith

text_cmp_refl : (a : String) → text_cmp a a ≡ eq
unfolding text_cmp
text_cmp_refl [] = refl
text_cmp_refl (c ∷ s) = ground (arith, text_cmp_refl s)

text_cmp-swap : (a b : String) → text_cmp b a ≡ swap (text_cmp a b)
unfolding text_cmp
text_cmp-swap [] [] = refl
text_cmp-swap [] (d ∷ t) = refl
text_cmp-swap (c ∷ s) [] = refl
text_cmp-swap (c ∷ s) (d ∷ t) = ground (arith, text_cmp-swap s t)

text_cmp_trans : (a b c : String) → text_cmp a b ≡ lt → text_cmp b c ≡ lt → text_cmp a c ≡ lt
unfolding text_cmp
text_cmp_trans [] [] [] h k = h
text_cmp_trans [] [] (e ∷ u) h k = refl
text_cmp_trans [] (d ∷ t) [] h k = ground arith
text_cmp_trans [] (d ∷ t) (e ∷ u) h k = refl
text_cmp_trans (c ∷ s) [] u h k = ground arith
text_cmp_trans (c ∷ s) (d ∷ t) [] h k = ground arith
text_cmp_trans (c ∷ s) (d ∷ t) (e ∷ u) h k = ground (arith, text_cmp_trans s t u)

text_cmp-eq : (a b c : String) → text_cmp a b ≡ eq → text_cmp a c ≡ text_cmp b c
unfolding text_cmp
text_cmp-eq [] [] c h = refl
text_cmp-eq [] (d ∷ t) c h = ground arith
text_cmp-eq (c ∷ s) [] u h = ground arith
text_cmp-eq (c ∷ s) (d ∷ t) [] h = refl
text_cmp-eq (c ∷ s) (d ∷ t) (e ∷ u) h = ground (arith, text_cmp-eq s t u)

pub text_cmp-IsPreorder : IsPreorder text_cmp
text_cmp-IsPreorder = record {
  cmp_refl = text_cmp_refl;
  cmp_swap = text_cmp-swap;
  cmp_trans = text_cmp_trans;
  cmp_eq = text_cmp-eq;
}

-- Two comparisons, the second where the first tells nothing, each of a part of the value.
abbrev pub both {ℓ} : {A : Type ℓ} → (first second : A → A → Ordering) → A → A → Ordering
both first second a b = then_by (first a b) (second a b)

module _ {ℓ} {A : Type ℓ} {f g : A → A → Ordering} where
  pub both-IsPreorder : IsPreorder f → IsPreorder g → IsPreorder (both f g)
  both-IsPreorder p q = record {
    cmp_refl = λ a. ground (arith, p.cmp_refl a, q.cmp_refl a);
    cmp_swap = λ a b. ground (arith, p.cmp_swap a b, q.cmp_swap a b);
    cmp_trans = λ a b c. ground (
      arith,
      p.cmp_trans a b c,
      p.cmp_eq a b c,
      p.cmp_eq b a c,
      p.cmp_eq c b a,
      p.cmp_eq b c a,
      p.cmp_swap a b,
      p.cmp_swap b c,
      p.cmp_swap a c,
      q.cmp_trans a b c,
    );
    cmp_eq = λ a b c. ground (arith, p.cmp_eq a b c, q.cmp_eq a b c);
  }

module _ {ℓ κ} {A : Type ℓ} {B : Type κ} (f : A → B) {cmp : B → B → Ordering} where
  pub on-IsPreorder : IsPreorder cmp → IsPreorder (λ a b. cmp (f a) (f b))
  on-IsPreorder p = record {
    cmp_refl = λ a. p.cmp_refl (f a);
    cmp_swap = λ a b. p.cmp_swap (f a) (f b);
    cmp_trans = λ a b c. p.cmp_trans (f a) (f b) (f c);
    cmp_eq = λ a b c. p.cmp_eq (f a) (f b) (f c);
  }

module _ {ℓ} {A : Type ℓ} {cmp : A → A → Ordering} where
  pub swapped-IsPreorder : IsPreorder cmp → IsPreorder (λ a b. cmp b a)
  swapped-IsPreorder p = record {
    cmp_refl = p.cmp_refl;
    cmp_swap = λ a b. p.cmp_swap b a;
    cmp_trans = λ a b c h k. p.cmp_trans c b a k h;
    cmp_eq =
        λ a b c h. ground (arith, p.cmp_swap a b, p.cmp_eq a b c, p.cmp_swap a c, p.cmp_swap b c);
  }
