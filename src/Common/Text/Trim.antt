-- ===== src/Common/Text/Trim.antt =====
-- Trimming takes nothing from a trimmed text, and makes no text longer.
use Prim.Native.Char.{Char}
use Prim.Native.String.{String, [], ◌∷◌}
use claudodex.Common.Tests.{Bool-cases}
use Prim.Native.Nat.{ℕ, zero, suc, ◌-◌, ◌≤◌}
use mathlib.Core.Path.{◌≡◌, refl, ap, ◌∙◌}
use mathlib.Core.Logic.{inl, inr}
use mathlib.Core.Bool.{Bool, false}
use native.Mathlib.Omega.{arith}
use claudodex.Common.Text.{
  is_space, trim_left, trim_right, keep, trim_space, size, take_chars, drop_last,
}

module _ (p : Char → Bool) where
  size-trim_left : (s : String) → size (trim_left p s) ≤ size s
  unfolding trim_left size
  size-trim_left [] = omega arith
  size-trim_left (c ∷ s) = ground (arith, size-trim_left s)

  size-keep : (c : Char) (t : String) → size (keep (p c) c t) ≤ suc (size t)
  unfolding size
  size-keep c [] = elim (Bool-cases (p c)) [
    | inl e ↦ rw e (omega arith)
    | inr e ↦ rw e (omega arith)
  ]
  size-keep c (d ∷ t) = omega arith

  size-trim_right : (s : String) → size (trim_right p s) ≤ size s
  unfolding trim_right size
  size-trim_right [] = omega arith
  size-trim_right (c ∷ s) = omega (arith, size-keep c (trim_right p s), size-trim_right s)

  -- A text that begins with nothing to cut.
  abbrev pub Begins : String → Type 0
  Begins [] = Unit
  Begins (c ∷ s) = p c ≡ false

  pub Begins-trim_left : (s : String) → Begins (trim_left p s)
  unfolding trim_left
  Begins-trim_left [] = tt
  Begins-trim_left (c ∷ s) = elim (Bool-cases (p c)) [
    | inl e ↦ rw e (Begins-trim_left s)
    | inr e ↦ rw e e
  ]

  trim_left_of_Begins : (s : String) → Begins s → trim_left p s ≡ s
  unfolding trim_left
  trim_left_of_Begins [] h = refl
  trim_left_of_Begins (c ∷ s) h = rw h

  Begins-trim_right : (s : String) → Begins s → Begins (trim_right p s)
  unfolding trim_right
  Begins-trim_right [] h = tt
  Begins-trim_right (c ∷ s) h = go (trim_right p s)
    where
      go : (t : String) → Begins (keep (p c) c t)
      go [] = rw h h
      go (d ∷ t) = h

  keep_again :
      (c : Char) (t : String) → trim_right p t ≡ t → trim_right p (keep (p c) c t) ≡ keep (p c) c t
  unfolding trim_right
  keep_again c [] h = elim (Bool-cases (p c)) [ inl e ↦ rw e | inr e ↦ rw e (rw e) ]
  keep_again c (d ∷ t) h = rw h

  trim_right-trim_right : (s : String) → trim_right p (trim_right p s) ≡ trim_right p s
  unfolding trim_right
  trim_right-trim_right [] = refl
  trim_right-trim_right (c ∷ s) = keep_again c (trim_right p s) (trim_right-trim_right s)

pub size-trim_space : (s : String) → size (trim_space s) ≤ size s
unfolding trim_space
size-trim_space s =
    omega (arith, size-trim_right is_space (trim_left is_space s), size-trim_left is_space s)

pub trim_space-trim_space : (s : String) → trim_space (trim_space s) ≡ trim_space s
unfolding trim_space
trim_space-trim_space s =
    ap (trim_right is_space) (
      trim_left_of_Begins is_space (trim_right is_space (trim_left is_space s))
        (Begins-trim_right is_space (trim_left is_space s) (Begins-trim_left is_space s)))
    ∙ trim_right-trim_right is_space (trim_left is_space s)

size-take_chars : (n : ℕ) (s : String) → size (take_chars n s) ≤ n
unfolding size take_chars
size-take_chars zero s = omega arith
size-take_chars (suc n) [] = omega arith
size-take_chars (suc n) (c ∷ s) = omega (arith, size-take_chars n s)

pub size-drop_last : (n : ℕ) (s : String) → size (drop_last n s) ≤ size s - n
unfolding drop_last
size-drop_last n s = size-take_chars (size s - n) s
