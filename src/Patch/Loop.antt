-- ===== src/Patch/Loop.antt =====
-- What the two search loops compute: the leftmost occurrences, none of them overlapping, one after
-- another, each overwritten once.
use claudodex.Common.{
  ℕ, zero, suc, ◌+◌, ◌≤◌, ◌<◌, ◌≡◌, refl, ap, ◌∙◌, ◌≢◌, Bool, true, false, ◌&&◌, ◌||◌, Option, none,
  some, List, [], ◌∷◌, ◌++◌, length, take, drop, arith, Option-cases, length-append, append_assoc,
  inl, inr,
}
use claudodex.Common.Text.{is_some}
use claudodex.Patch.{write_inner, index, copy_at, fixed_loop, patch_inner, pattern_loop}
use claudodex.Patch.Bytes.{
  index-none, index_sound, index_first, copy_at_over, drop-length-append, length-copy_at,
}

-- `after` is `before` with every occurrence of `old`, from the left and without overlap, made `new`.
pub data Rewrites (old new : List ℕ) : List ℕ → List ℕ → Type 0 where
  untouched :
      {before : List ℕ} → ((q r : List ℕ) → before ≢ q ++ old ++ r) → Rewrites old new before before
  replaced :
      {before after r out : List ℕ} (p : List ℕ)
      → before ≡ p ++ old ++ r
      → ((q s : List ℕ) → before ≡ q ++ old ++ s → length p ≤ length q)
      → after ≡ p ++ new ++ out
      → Rewrites old new r out
      → Rewrites old new before after

-- What a loop returns, over a part `rest` of the bytes behind `pre`.
pub record Done (old new pre rest : List ℕ) (changed : Bool) (result : Option (List ℕ × Bool))
    : Type 0 where
  pub out : List ℕ
  pub returns : result ≡ some (pre ++ out, changed)
  pub rewrites : Rewrites old new rest out

or-true : (a : Bool) → (a || true) ≡ true
or-true true = refl
or-true false = refl

take-length-append : (p r : List ℕ) → take (length p) (p ++ r) ≡ p
take-length-append [] r = refl
take-length-append (x ∷ p) r = ap (λ l. x ∷ l) (take-length-append p r)

module _ (old new : List ℕ) (width : length new ≡ length old) where
  -- One write, at an occurrence behind `pre ++ p`.
  write_at :
      (pre p r rest : List ℕ) (i : ℕ)
      → rest ≡ p ++ old ++ r
      → length p ≡ i
      → copy_at (length pre + i) new (pre ++ rest) ≡ pre ++ p ++ new ++ r
  write_at pre p r rest i there e =
      let at : length pre + i ≡ length (pre ++ p) = omega (arith, length-append pre p) in
      let whole : pre ++ rest ≡ pre ++ p ++ old ++ r = rw there (simp append_assoc) in
      rw (at, whole) (copy_at_over (pre ++ p) old new r width)

  next_position :
      (pre p : List ℕ) (i : ℕ)
      → length p ≡ i
      → length pre + i + length old ≡ length (pre ++ p ++ new)
  next_position pre p i e = omega (arith, length-append (pre ++ p) new, length-append pre p)

  shorter : (p r rest : List ℕ) → 0 < length old → rest ≡ p ++ old ++ r → length r < length rest
  shorter p r rest h there =
      omega (arith, ap length there, length-append (p ++ old) r, length-append p old)

  fixed_loop_step :
      (fuel : ℕ) (pre p r rest : List ℕ) (i : ℕ) (changed : Bool)
      → index old rest ≡ some i
      → rest ≡ p ++ old ++ r
      → length p ≡ i
      → fixed_loop (suc fuel) old new (pre ++ rest) (length pre) changed
        ≡ fixed_loop fuel old new (pre ++ p ++ new ++ r) (length (pre ++ p ++ new)) true
  unfolding fixed_loop
  fixed_loop_step fuel pre p r rest i changed found there e =
      rw (ap (index old) (drop-length-append pre rest) ∙ found, fixed_loop)
        (rw (write_at pre p r rest i there e, next_position pre p i e))

  pub fixed_loop_lem :
      (fuel : ℕ) (pre rest : List ℕ) (changed : Bool)
      → 0 < length old
      → length rest < fuel
      → Done old new pre rest
          (changed || is_some (index old rest))
          (fixed_loop fuel old new (pre ++ rest) (length pre) changed)
  fixed_loop_lem zero pre rest changed b h = absurd (omega arith)
  fixed_loop_lem (suc fuel) pre rest changed b h = elim (Option-cases (index old rest)) [
    | inl missed ↦ record {
      out = rest;
      returns =
          unfold fixed_loop in
          rw (ap (index old) (drop-length-append pre rest) ∙ missed, fixed_loop)
            (rw missed (ground arith));
      rewrites = untouched (λ q r. index-none old rest q r missed);
    }
    | inr (i, found) ↦
        let (p, r, there, len) = index_sound old rest i found in
        let ih =
          fixed_loop_lem fuel (pre ++ p ++ new) r true b
            (omega (arith, shorter p r rest b there)) in
        record {
          out = p ++ new ++ ih.out;
          returns =
              rw (fixed_loop_step fuel pre p r rest i changed found there len, found)
                (rw ih.returns (simp (append_assoc, or-true)));
          rewrites =
              replaced p there (λ q s e. omega (arith, index_first old rest q s i found e)) refl
                ih.rewrites;
        }
  ]

-- The pattern with the first `old` in it made `new`: what a pattern replacement puts in its place.
abbrev patched_at : (pattern new : List ℕ) → Option ℕ → List ℕ
patched_at pattern new none = pattern
patched_at pattern new (some j) = copy_at j new pattern

abbrev pub patched : (pattern old new : List ℕ) → List ℕ
patched pattern old new = patched_at pattern new (index old pattern)

length-patched_at :
    (pattern new : List ℕ) (o : Option ℕ) → length (patched_at pattern new o) ≡ length pattern
length-patched_at pattern new none = refl
length-patched_at pattern new (some j) = length-copy_at j new pattern

absorb : (a b c : Bool) → ((a || b) || (c && b)) ≡ (a || b)
absorb a b c = ground arith

or-false : (a : Bool) → (a || false) ≡ a
or-false true = refl
or-false false = refl

module _ (pattern old new : List ℕ) (width : length new ≡ length old) where
  write_inner_lem :
      (q r : List ℕ) (changed : Bool) (o : Option ℕ)
      → index old pattern ≡ o
      → write_inner new (q ++ pattern ++ r) (length q) changed o
        ≡ (q ++ patched_at pattern new o ++ r, changed || is_some o)
  write_inner_lem q r changed none e = rw or-false
  write_inner_lem q r changed (some j) e =
      let (p, s, there, len) = index_sound old pattern j e in
      let at : length q + j ≡ length (q ++ p) = omega (arith, length-append q p) in
      let whole : q ++ pattern ++ r ≡ q ++ p ++ old ++ (s ++ r) = rw there (simp append_assoc) in
      let inside : copy_at j new pattern ≡ p ++ new ++ s =
        rw (← len, there) (copy_at_over p old new s width) in
      let written : copy_at (length q + j) new (q ++ pattern ++ r)
          ≡ q ++ copy_at j new pattern ++ r =
        rw (at, whole, inside) (copy_at_over (q ++ p) old new (s ++ r) width ∙ simp append_assoc) in
      rw (written, or-true)

  patch_inner_lem :
      (pre p r rest : List ℕ) (i : ℕ) (changed : Bool)
      → rest ≡ p ++ pattern ++ r
      → length p ≡ i
      → patch_inner pattern old new (pre ++ rest) (length pre + i) changed
        ≡ (pre ++ p ++ patched pattern old new ++ r, changed || is_some (index old pattern))
  unfolding patch_inner
  patch_inner_lem pre p r rest i changed there e =
      let at : length pre + i ≡ length (pre ++ p) = omega (arith, length-append pre p) in
      let whole : pre ++ rest ≡ pre ++ p ++ pattern ++ r = rw there (simp append_assoc) in
      let seen : take (length pattern) (drop (length (pre ++ p)) (pre ++ p ++ pattern ++ r))
          ≡ pattern =
        ap (take (length pattern)) (
          ap (drop (length (pre ++ p))) (append_assoc (pre ++ p) pattern r)
          ∙ drop-length-append (pre ++ p) (pattern ++ r))
        ∙ take-length-append pattern r in
      rw (at, whole) (rw seen (write_inner_lem (pre ++ p) r changed (index old pattern) refl))

  length-patched : length (patched pattern old new) ≡ length pattern
  length-patched = length-patched_at pattern new (index old pattern)

  pattern_loop_step :
      (fuel : ℕ) (pre p r rest : List ℕ) (i : ℕ) (changed : Bool)
      → index pattern rest ≡ some i
      → rest ≡ p ++ pattern ++ r
      → length p ≡ i
      → pattern_loop (suc fuel) pattern old new (pre ++ rest) (length pre) changed
        ≡ pattern_loop fuel pattern old new
            (pre ++ p ++ patched pattern old new ++ r)
            (length (pre ++ p ++ patched pattern old new))
            (changed || is_some (index old pattern))
  unfolding pattern_loop
  pattern_loop_step fuel pre p r rest i changed found there e =
      rw (ap (index pattern) (drop-length-append pre rest) ∙ found, pattern_loop)
        (rw (patch_inner_lem pre p r rest i changed there e)
          (rw (next_position pattern (patched pattern old new) length-patched pre p i e)))

  pub pattern_loop_lem :
      (fuel : ℕ) (pre rest : List ℕ) (changed : Bool)
      → 0 < length pattern
      → length rest < fuel
      → Done pattern
          (patched pattern old new)
          pre
          rest
          (changed || (is_some (index pattern rest) && is_some (index old pattern)))
          (pattern_loop fuel pattern old new (pre ++ rest) (length pre) changed)
  pattern_loop_lem zero pre rest changed b h = absurd (omega arith)
  pattern_loop_lem (suc fuel) pre rest changed b h = elim (Option-cases (index pattern rest)) [
    | inl missed ↦ record {
      out = rest;
      returns =
          unfold pattern_loop in
          rw (ap (index pattern) (drop-length-append pre rest) ∙ missed, pattern_loop)
            (rw missed (ground arith));
      rewrites = untouched (λ q r. index-none pattern rest q r missed);
    }
    | inr (i, found) ↦
        let (p, r, there, len) = index_sound pattern rest i found in
        let ih =
          pattern_loop_lem fuel (pre ++ p ++ patched pattern old new) r
            (changed || is_some (index old pattern)) b
            (omega
              (arith, shorter pattern (patched pattern old new) length-patched p r rest b there)) in
        record {
          out = p ++ patched pattern old new ++ ih.out;
          returns =
              rw (pattern_loop_step fuel pre p r rest i changed found there len, found)
                (rw ih.returns (simp (append_assoc, absorb)));
          rewrites =
              replaced p there (λ q s e. omega (arith, index_first pattern rest q s i found e)) refl
                ih.rewrites;
        }
  ]
