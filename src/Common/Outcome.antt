-- ===== src/Common/Outcome.antt =====
-- A Go result with an error: the value, or the error that came instead.
use mathlib.Core.Path.{◌≡◌, refl, ap, sym}
use native.Mathlib.Omega.{arith}
use mathlib.Core.Option.{Option, none, some}
use mathlib.Core.Logic.{◌⊎◌, inl, inr}

pub data Outcome {ℓ κ} (E : Type ℓ) (A : Type κ) : Type (ℓ ⊔ κ) where
  failed : E → Outcome E A
  ok : A → Outcome E A

module _ {ℓ κ μ} {E : Type ℓ} {A : Type κ} {B : Type μ} where
  infixl 10 ◌>>=◌
  abbrev pub ◌>>=◌ : Outcome E A → (A → Outcome E B) → Outcome E B
  failed e >>= f = failed e
  ok a >>= f = f a

module _ {ℓ κ} {E : Type ℓ} {A : Type κ} where
  -- An error that was found, or else the value.
  abbrev pub unless : Option E → A → Outcome E A
  unless none a = ok a
  unless (some e) a = failed e

  pub Outcome-cases : (o : Outcome E A) → ((e : E) × (o ≡ failed e)) ⊎ ((a : A) × (o ≡ ok a))
  Outcome-cases (failed e) = inl (e, refl)
  Outcome-cases (ok a) = inr (a, refl)

module _ {ℓ κ μ} {E : Type ℓ} {F : Type κ} {A : Type μ} where
  -- fmt.Errorf around an error
  abbrev pub map_error : (E → F) → Outcome E A → Outcome F A
  map_error f (failed e) = failed (f e)
  map_error f (ok a) = ok a

module _ {ℓ κ} {E : Type ℓ} {A : Type κ} where
  pub failed-ne-ok : {e : E} {a : A} → ¬ (failed e ≡ ok a)
  failed-ne-ok h = ground (arith, h)

  pub ok_inj : {a b : A} → Path (Outcome E A) (ok a) (ok b) → a ≡ b
  ok_inj h = ground (arith, h)

module _ {ℓ κ μ} {E : Type ℓ} {A : Type κ} {B : Type μ} where
  -- A chain that returns has a first step that returned.
  pub ok_of_bind :
      (o : Outcome E A) (f : A → Outcome E B) (b : B)
      → (o >>= f) ≡ ok b
      → (a : A) × (o ≡ ok a) × (f a ≡ ok b)
  ok_of_bind (failed e) f b h = absurd (failed-ne-ok h)
  ok_of_bind (ok a) f b h = (a, refl, h)

module _ {ℓ κ μ} {E : Type ℓ} {F : Type κ} {A : Type μ} where
  pub ok_of_map_error : (f : E → F) (o : Outcome E A) (a : A) → map_error f o ≡ ok a → o ≡ ok a
  ok_of_map_error f (failed e) a h = absurd (failed-ne-ok h)
  ok_of_map_error f (ok b) a h = ap ok (ok_inj h)

  pub ok_of_unless :
      (f : E → F) (o : Option E) (a b : A) → map_error f (unless o a) ≡ ok b → (o ≡ none) × (b ≡ a)
  ok_of_unless f none a b h = (refl, sym (ok_inj h))
  ok_of_unless f (some e) a b h = absurd (failed-ne-ok h)
