-- ===== src/Patch/Laws.antt =====
-- What the three replacements do to an executable.
use claudodex.Common.{
  ℕ, zero, suc, ◌<◌, ◌≡◌, refl, ◌≢◌, inl, inr, Bool, true, false, ◌&&◌, none, some, List, [], ◌∷◌,
  ◌++◌, length, arith, Option-cases, length-append, ap, ◌≤◌, ltb, Bool-cases, drop,
}
use claudodex.Common.Text.{is_some}
use claudodex.Patch.{
  index, copy_at, pad_to, fit_replacement, fit_display_replacement, replace_all_fixed,
  replace_all_pattern_string, replace_first_fixed, pattern_loop, bytes_prefix,
}
use claudodex.Patch.Bytes.{
  index-none, index_sound, index_first, copy_at_over, length-pad_to, length-fit_display_replacement,
}
use claudodex.Patch.Loop.{Rewrites, patched, fixed_loop_lem, pattern_loop_lem}

-- For a non-empty `old` and fuel above the length of the data `replaceAllFixed` returns. It reports a change
-- exactly if `old` stands somewhere, and its bytes are the data with every occurrence of `old`,
-- from the left and without overlap, made the display replacement.
pub replace_all_fixed_lem :
    (fuel : ℕ) (bytes : List ℕ) (b : ℕ) (old replacement : List ℕ)
    → length bytes < fuel
    → (out : List ℕ) × (replace_all_fixed fuel bytes (b ∷ old) replacement
        ≡ some (out, is_some (index (b ∷ old) bytes)))
      × Rewrites (b ∷ old) (fit_display_replacement (b ∷ old) replacement) bytes out
unfolding replace_all_fixed
replace_all_fixed_lem fuel bytes b old replacement h =
    let d =
      fixed_loop_lem (b ∷ old) (fit_display_replacement (b ∷ old) replacement)
        (length-fit_display_replacement (b ∷ old) replacement) fuel [] bytes false (omega arith)
        h in
    (d.out, d.returns, d.rewrites)

-- For a non-empty pattern and fuel above the length of the data `replaceAllPatternString` returns. It reports
-- a change exactly if the pattern stands in the data and `old` stands in the pattern, and its bytes are the
-- data with every occurrence of the pattern replaced by the pattern whose first `old` is made the
-- display replacement.
pub replace_all_pattern_string_lem :
    (fuel : ℕ) (bytes : List ℕ) (b : ℕ) (pattern old replacement : List ℕ)
    → length bytes < fuel
    → (out : List ℕ) × (replace_all_pattern_string fuel bytes (b ∷ pattern) old replacement
        ≡ some (out, is_some (index (b ∷ pattern) bytes) && is_some (index old (b ∷ pattern))))
      × Rewrites
          (b ∷ pattern)
          (patched (b ∷ pattern) old (fit_display_replacement old replacement))
          bytes
          out
unfolding replace_all_pattern_string
replace_all_pattern_string_lem fuel bytes b pattern old replacement h =
    let d =
      pattern_loop_lem (b ∷ pattern) old (fit_display_replacement old replacement)
        (length-fit_display_replacement old replacement) fuel [] bytes false (omega arith) h in
    (d.out, d.returns, d.rewrites)

-- What `Rewrites` keeps, if both texts have one width.
pub Rewrites-length :
    {old new before after : List ℕ}
    → length new ≡ length old
    → Rewrites old new before after
    → length after ≡ length before
Rewrites-length w (Rewrites.untouched h) = refl
Rewrites-length {old} {new} w (Rewrites.replaced {r = r} {out = out} p there first done rest) =
    omega (
      arith,
      Rewrites-length w rest,
      ap length there,
      ap length done,
      length-append (p ++ old) r,
      length-append (p ++ new) out,
      length-append p old,
      length-append p new,
    )

-- What `replaceFirstFixed` returns, told from the data alone.
pub data FirstReplaced (old replacement bytes : List ℕ) (result : List ℕ × Bool) : Type 0 where
  too_long :
      length old < length replacement
      → result ≡ (bytes, false)
      → FirstReplaced old replacement bytes result
  absent :
      ((q r : List ℕ) → bytes ≢ q ++ old ++ r)
      → result ≡ (bytes, false)
      → FirstReplaced old replacement bytes result
  written :
      (p r : List ℕ)
      → length replacement ≤ length old
      → bytes ≡ p ++ old ++ r
      → ((q s : List ℕ) → bytes ≡ q ++ old ++ s → length p ≤ length q)
      → result ≡ (p ++ pad_to old replacement ++ r, true)
      → FirstReplaced old replacement bytes result

-- `replaceFirstFixed` leaves the data alone and returns false if the replacement is longer than `old`
-- or `old` stands nowhere; otherwise it overwrites exactly the first `old` by the replacement, filled
-- up with spaces, and returns true.
pub replace_first_fixed_lem :
    (bytes old replacement : List ℕ)
    → FirstReplaced old replacement bytes (replace_first_fixed bytes old replacement)
unfolding replace_first_fixed fit_replacement
replace_first_fixed_lem bytes old replacement =
    elim (Bool-cases (ltb (length old) (length replacement))) [
      | inl long ↦ too_long (ground arith) (rw long)
      | inr fits ↦ elim (Option-cases (index old bytes)) [
        | inl missed ↦ absent (λ q r. index-none old bytes q r missed) (rw (fits, missed))
        | inr (i, found) ↦
            let (p, r, there, len) = index_sound old bytes i found in
            let width : length (pad_to old replacement) ≡ length old =
              length-pad_to old replacement (ground arith) in
            let done : copy_at i (pad_to old replacement) bytes ≡ p ++ pad_to old replacement ++ r =
              rw (← len, there) (copy_at_over p old (pad_to old replacement) r width) in
            written p r (ground arith) there
              (λ q s e. omega (arith, index_first old bytes q s i found e))
              (rw (fits, found) (rw done))
      ]
    ]

index-nil : (bytes : List ℕ) → index [] bytes ≡ some 0
unfolding index bytes_prefix
index-nil [] = refl
index-nil (d ∷ bytes) = refl

pattern_loop-nil :
    (fuel : ℕ) (old new bytes : List ℕ) (from : ℕ) (changed : Bool)
    → pattern_loop fuel [] old new bytes from changed ≡ none
unfolding pattern_loop
pattern_loop-nil zero old new bytes from changed = refl
pattern_loop-nil (suc fuel) old new bytes from changed =
    rw (index-nil (drop from bytes), pattern_loop) (pattern_loop-nil fuel old new _ _ _)

-- With an empty pattern `replaceAllPatternString` never returns: no fuel is enough, whatever the data.
pub replace_all_pattern_string-nil :
    (fuel : ℕ) (bytes old replacement : List ℕ)
    → replace_all_pattern_string fuel bytes [] old replacement ≡ none
unfolding replace_all_pattern_string
replace_all_pattern_string-nil fuel bytes old replacement =
    pattern_loop-nil fuel old (fit_display_replacement old replacement) bytes 0 false
