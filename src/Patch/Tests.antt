-- ===== src/Patch/Tests.antt =====
-- Runs of the replacements, and the theorems at concrete data.
use claudodex.Common.{ℕ, ◌≡◌, refl, true, false, ◌&&◌, none, some, List, [], ◌∷◌, arith}
use claudodex.Common.Text.{is_some}
use claudodex.Patch.{
  index, fit_display_replacement, replace_all_fixed, replace_all_pattern_string,
  replace_first_fixed, fixed_loop, pattern_loop, copy_at, pad_to, bytes_prefix, fit_replacement,
  patch_inner,
}
use claudodex.Patch.Loop.{Rewrites, patched}
use claudodex.Patch.Laws.{
  replace_all_fixed_lem, replace_all_pattern_string_lem, FirstReplaced, replace_first_fixed_lem,
  replace_all_pattern_string-nil,
}

runs : Unit {0}
unfolding index fit_display_replacement fit_replacement replace_all_fixed replace_all_pattern_string
    replace_first_fixed fixed_loop pattern_loop patch_inner copy_at pad_to bytes_prefix
runs = tt

-- "aXaaXb" with "aX" made "c", and with "aX" made "long".
abbrev sample : List ℕ
sample = b'a' ∷ b'X' ∷ b'a' ∷ b'a' ∷ b'X' ∷ b'b' ∷ []

abbrev old : List ℕ
old = b'a' ∷ b'X' ∷ []

abbrev short_done : List ℕ
short_done = b'c' ∷ b' ' ∷ b'a' ∷ b'c' ∷ b' ' ∷ b'b' ∷ []

all_runs : replace_all_fixed 7 sample old (b'c' ∷ []) ≡ some (short_done, true)
unfolding runs
all_runs = refl

cut_runs :
    replace_all_fixed 7 sample old (b'l' ∷ b'o' ∷ b'n' ∷ b'g' ∷ [])
    ≡ some (b'l' ∷ b'o' ∷ b'a' ∷ b'l' ∷ b'o' ∷ b'b' ∷ [], true)
unfolding runs
cut_runs = refl

pattern_runs :
    replace_all_pattern_string 7 sample old (b'X' ∷ []) (b'Y' ∷ [])
    ≡ some (b'a' ∷ b'Y' ∷ b'a' ∷ b'a' ∷ b'Y' ∷ b'b' ∷ [], true)
unfolding runs
pattern_runs = refl

first_runs :
    (replace_first_fixed sample old (b'c' ∷ [])
      ≡ (b'c' ∷ b' ' ∷ b'a' ∷ b'a' ∷ b'X' ∷ b'b' ∷ [], true))
    × (replace_first_fixed sample old (b'l' ∷ b'o' ∷ b'n' ∷ []) ≡ (sample, false))
unfolding runs
first_runs = (refl, refl)

replace_all_fixed_example :
    (out : List ℕ) × (replace_all_fixed 7 sample old (b'c' ∷ [])
      ≡ some (out, is_some (index old sample)))
    × Rewrites old (fit_display_replacement old (b'c' ∷ [])) sample out
replace_all_fixed_example =
    replace_all_fixed_lem 7 sample b'a' (b'X' ∷ []) (b'c' ∷ []) (omega arith)

replace_all_pattern_string_example :
    (out : List ℕ) × (replace_all_pattern_string 7 sample old (b'X' ∷ []) (b'Y' ∷ [])
      ≡ some (out, is_some (index old sample) && is_some (index (b'X' ∷ []) old)))
    × Rewrites old
        (patched old (b'X' ∷ []) (fit_display_replacement (b'X' ∷ []) (b'Y' ∷ [])))
        sample
        out
replace_all_pattern_string_example =
    replace_all_pattern_string_lem 7 sample b'a' (b'X' ∷ []) (b'X' ∷ []) (b'Y' ∷ []) (omega arith)

replace_first_fixed_example :
    FirstReplaced old (b'c' ∷ []) sample (replace_first_fixed sample old (b'c' ∷ []))
replace_first_fixed_example = replace_first_fixed_lem sample old (b'c' ∷ [])

replace_all_pattern_string-nil_example :
    replace_all_pattern_string 99 sample [] old (b'Y' ∷ []) ≡ none
replace_all_pattern_string-nil_example = replace_all_pattern_string-nil 99 sample old (b'Y' ∷ [])
