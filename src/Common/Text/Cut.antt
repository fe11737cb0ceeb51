-- ===== src/Common/Text/Cut.antt =====
-- A text that is cut in two.
use Prim.Native.String.{String, [], ◌∷◌, ◌++◌}
use Prim.Native.Nat.{ℕ, zero, suc, ◌≤◌, ◌<◌}
use mathlib.Core.Path.{◌≡◌, ap, ◌∙◌}
use native.Mathlib.Omega.{arith}
use text.Mathlib.TextLemmas.{nil-append, cons-append}
use claudodex.Common.Text.{size, take_chars, drop_chars}

pub take_chars-drop_chars : (n : ℕ) (s : String) → take_chars n s ++ drop_chars n s ≡ s
unfolding take_chars drop_chars
take_chars-drop_chars zero s = nil-append s
take_chars-drop_chars (suc n) [] = nil-append ""
take_chars-drop_chars (suc n) (c ∷ s) =
    cons-append c (take_chars n s) (drop_chars n s) ∙ ap (λ t. c ∷ t) (take_chars-drop_chars n s)

size-drop_chars_le : (n : ℕ) (s : String) → size (drop_chars n s) ≤ size s
unfolding drop_chars size
size-drop_chars_le zero s = omega arith
size-drop_chars_le (suc n) [] = omega arith
size-drop_chars_le (suc n) (c ∷ s) = omega (arith, size-drop_chars_le n s)

pub size-drop_chars : (n : ℕ) (s : String) → 0 < n → 0 < size s → size (drop_chars n s) < size s
unfolding drop_chars size
size-drop_chars zero s h k = omega arith
size-drop_chars (suc n) [] h k = omega arith
size-drop_chars (suc n) (c ∷ s) h k = omega (arith, size-drop_chars_le n s)
