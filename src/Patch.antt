-- ===== src/Patch.antt =====
-- internal/launcher/claude_binary_patch.go: the replacements that a UI patch makes in the bytes of
-- the Claude executable. A Go slice that is written in place is passed in and returned.
pub mod Bytes
pub mod Loop
pub mod Laws
mod Tests
use mathlib.Core.Option
use claudodex.Common.{
  ℕ, zero, suc, ◌+◌, ◌-◌, Bool, true, false, not, Option, none, some, List, [], ◌∷◌, ◌++◌, ltb,
  nat_eq, length, take, drop, replicate, if◌then◌else◌,
}

-- bytes.HasPrefix(data, pattern)
unfoldable pub bytes_prefix : List ℕ → List ℕ → Bool
bytes_prefix [] bytes = true
bytes_prefix (b ∷ pattern) [] = false
bytes_prefix (b ∷ pattern) (d ∷ bytes) = if nat_eq b d then bytes_prefix pattern bytes else false

-- bytes.Index: the first position at which `pattern` stands in `data`, `none` for -1.
unfoldable pub index : List ℕ → List ℕ → Option ℕ
index pattern [] = if bytes_prefix pattern [] then some 0 else none
index pattern (d ∷ bytes) =
    if bytes_prefix pattern (d ∷ bytes) then some 0 else Option.map suc (index pattern bytes)

-- copy(data[at:], source): bytes past the end of `data` are not written.
unfoldable pub copy_at : ℕ → List ℕ → List ℕ → List ℕ
copy_at at source [] = []
copy_at zero [] (d ∷ bytes) = d ∷ bytes
copy_at zero (b ∷ source) (d ∷ bytes) = b ∷ copy_at zero source bytes
copy_at (suc at) source (d ∷ bytes) = d ∷ copy_at at source bytes

-- The bytes of `new`, filled up with spaces to the width of `old`.
unfoldable pub pad_to : List ℕ → List ℕ → List ℕ
pad_to old new =
    if ltb (length new) (length old) then new ++ replicate (length old - length new) b' ' else new

unfoldable pub fit_replacement : List ℕ → List ℕ → Option (List ℕ)
fit_replacement old replacement =
    if ltb (length old) (length replacement) then none else some (pad_to old replacement)

unfoldable pub fit_display_replacement : List ℕ → List ℕ → List ℕ
fit_display_replacement old replacement =
    let cut =
      if ltb (length old) (length replacement)
      then take (length old) replacement
      else replacement in
    pad_to old cut

-- The loop of `replaceAllFixed`; `none` means that the fuel ran out. What is returned is the data
-- and `changed`.
unfoldable pub fixed_loop : ℕ → (old new bytes : List ℕ) → ℕ → Bool → Option (List ℕ × Bool)
fixed_loop zero old new bytes search_from changed = none
fixed_loop (suc fuel) old new bytes search_from changed =
    elim (index old (drop search_from bytes)) [
      | none ↦ some (bytes, changed)
      | some i ↦
          fixed_loop fuel old new (copy_at (search_from + i) new bytes)
            (search_from + i + length old) true
    ]

unfoldable pub replace_all_fixed : ℕ → (bytes old replacement : List ℕ) → Option (List ℕ × Bool)
replace_all_fixed fuel bytes [] replacement = some (bytes, false)
replace_all_fixed fuel bytes (b ∷ old) replacement =
    fixed_loop fuel (b ∷ old) (fit_display_replacement (b ∷ old) replacement) bytes 0 false

-- The write of one round of `replaceAllPatternString`, where `pattern` stands at `absolute`:
-- `old` is looked for within the pattern's own bytes.
abbrev pub write_inner : (new bytes : List ℕ) → ℕ → Bool → Option ℕ → List ℕ × Bool
write_inner new bytes absolute changed none = (bytes, changed)
write_inner new bytes absolute changed (some inner) = (copy_at (absolute + inner) new bytes, true)

unfoldable pub patch_inner : (pattern old new bytes : List ℕ) → ℕ → Bool → List ℕ × Bool
patch_inner pattern old new bytes absolute changed =
    write_inner new bytes absolute changed (index old (take (length pattern) (drop absolute bytes)))

unfoldable pub pattern_loop :
    ℕ → (pattern old new bytes : List ℕ) → ℕ → Bool → Option (List ℕ × Bool)
pattern_loop zero pattern old new bytes search_from changed = none
pattern_loop (suc fuel) pattern old new bytes search_from changed =
    elim (index pattern (drop search_from bytes)) [
      | none ↦ some (bytes, changed)
      | some i ↦
          let (bytes', changed') = patch_inner pattern old new bytes (search_from + i) changed in
          pattern_loop fuel pattern old new bytes' (search_from + i + length pattern) changed'
    ]

unfoldable pub replace_all_pattern_string :
    ℕ → (bytes pattern old replacement : List ℕ) → Option (List ℕ × Bool)
replace_all_pattern_string fuel bytes pattern old replacement =
    pattern_loop fuel pattern old (fit_display_replacement old replacement) bytes 0 false

-- The write of `replaceFirstFixed` once the replacement fits.
abbrev write_first : List ℕ → List ℕ → Option ℕ → List ℕ × Bool
write_first bytes new none = (bytes, false)
write_first bytes new (some i) = (copy_at i new bytes, true)

abbrev first_of_fit : List ℕ → List ℕ → Option (List ℕ) → List ℕ × Bool
first_of_fit bytes old none = (bytes, false)
first_of_fit bytes old (some new) = write_first bytes new (index old bytes)

unfoldable pub replace_first_fixed : (bytes old replacement : List ℕ) → List ℕ × Bool
replace_first_fixed bytes old replacement = first_of_fit bytes old (fit_replacement old replacement)
