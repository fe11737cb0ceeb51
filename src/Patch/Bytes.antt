-- ===== src/Patch/Bytes.antt =====
-- Search, copy and fitting of byte strings.
use claudodex.Common.{
  ℕ, zero, suc, ◌-◌, ◌≤◌, ◌≡◌, refl, sym, ap, ◌∙◌, ◌≢◌, inl, inr, true, none, some, List, [], ◌∷◌,
  ◌++◌, ltb, nat_eq, length, take, drop, replicate, arith, Bool-cases, Option-cases, length-append,
  length-take, length-replicate,
}
use claudodex.Patch.{bytes_prefix, index, copy_at, pad_to, fit_replacement, fit_display_replacement}

pub bytes_prefix-append : (old r : List ℕ) → bytes_prefix old (old ++ r) ≡ true
unfolding bytes_prefix
bytes_prefix-append [] r = refl
bytes_prefix-append (b ∷ old) r = ground (arith, bytes_prefix-append old r)

pub bytes_prefix_sound :
    (old bytes : List ℕ) → bytes_prefix old bytes ≡ true → (r : List ℕ) × (bytes ≡ old ++ r)
unfolding bytes_prefix
bytes_prefix_sound [] bytes h = (bytes, refl)
bytes_prefix_sound (b ∷ old) [] h = cc
bytes_prefix_sound (b ∷ old) (d ∷ bytes) h = elim (Bool-cases (nat_eq b d)) [
  | inl e ↦
      let (r, p) = bytes_prefix_sound old bytes (rw (e, bytes_prefix) at h) in
      (r, cc (nat_path b d e, p))
  | inr e ↦ ground arith
]
  where
    nat_path : (a c : ℕ) → nat_eq a c ≡ true → a ≡ c
    nat_path a c e = ground arith

-- A text that stands behind `q` is found, and no later than there.
pub index-append :
    (old q r : List ℕ) → (j : ℕ) × (index old (q ++ old ++ r) ≡ some j) × (j ≤ length q)
unfolding index bytes_prefix
index-append [] [] [] = (0, refl, omega arith)
index-append [] [] (x ∷ r) = (0, refl, omega arith)
index-append (b ∷ old) [] r = (0, rw (bytes_prefix-append (b ∷ old) r), omega arith)
index-append old (x ∷ q) r =
    let (j, found, le) = index-append old q r in
    elim (Bool-cases (bytes_prefix old (x ∷ (q ++ old ++ r)))) [
      | inl e ↦ (0, rw e, omega arith)
      | inr e ↦ (suc j, rw (e, found), omega arith)
    ]

-- What is found is there.
pub index_sound :
    (old bytes : List ℕ) (i : ℕ)
    → index old bytes ≡ some i
    → (p r : List ℕ) × (bytes ≡ p ++ old ++ r) × (length p ≡ i)
unfolding index
index_sound old [] i h = elim (Bool-cases (bytes_prefix old [])) [
  | inl e ↦ let (r, p) = bytes_prefix_sound old [] e in ([], r, p, ground arith)
  | inr e ↦ absurd (ground arith)
]
index_sound old (d ∷ bytes) i h = elim (Bool-cases (bytes_prefix old (d ∷ bytes))) [
  | inl e ↦ let (r, p) = bytes_prefix_sound old (d ∷ bytes) e in ([], r, p, ground arith)
  | inr e ↦ elim (Option-cases (index old bytes)) [
    | inl missed ↦ absurd (ground arith)
    | inr (j, found) ↦
        let (p, r, there, len) = index_sound old bytes j found in
        (d ∷ p, r, ap (λ l. d ∷ l) there, ground arith)
  ]
]

-- What is not found stands nowhere.
pub index-none : (old bytes q r : List ℕ) → index old bytes ≡ none → bytes ≢ q ++ old ++ r
index-none old bytes q r h e =
    let (j, found, _) = index-append old q r in cc (found, h, ap (index old) e)

-- What is found is the first.
pub index_first :
    (old bytes q r : List ℕ) (i : ℕ)
    → index old bytes ≡ some i
    → bytes ≡ q ++ old ++ r
    → i ≤ length q
index_first old bytes q r i h e =
    let (j, found, le) = index-append old q r in
    let same : i ≡ j = some_path i j (sym h ∙ ap (index old) e ∙ found) in omega arith
  where
    some_path : (a b : ℕ) → some a ≡ some b → a ≡ b
    some_path a b e = cc

pub length-copy_at : (i : ℕ) (new bytes : List ℕ) → length (copy_at i new bytes) ≡ length bytes
unfolding copy_at
length-copy_at i new [] = refl
length-copy_at zero [] (d ∷ bytes) = refl
length-copy_at zero (b ∷ new) (d ∷ bytes) = ap suc (length-copy_at zero new bytes)
length-copy_at (suc i) new (d ∷ bytes) = ap suc (length-copy_at i new bytes)

-- A write over as many bytes puts the new ones in their place.
pub copy_at_over :
    (p old new r : List ℕ)
    → length new ≡ length old
    → copy_at (length p) new (p ++ old ++ r) ≡ p ++ new ++ r
unfolding copy_at
copy_at_over [] [] [] [] h = refl
copy_at_over [] [] [] (x ∷ r) h = refl
copy_at_over [] (x ∷ old) [] r h = absurd (omega arith)
copy_at_over [] [] (b ∷ new) r h = absurd (omega arith)
copy_at_over [] (x ∷ old) (b ∷ new) r h = ap (λ l. b ∷ l) (copy_at_over [] old new r (omega arith))
copy_at_over (x ∷ p) old new r h = ap (λ l. x ∷ l) (copy_at_over p old new r h)

pub drop-length-append : (p r : List ℕ) → drop (length p) (p ++ r) ≡ r
drop-length-append [] r = refl
drop-length-append (x ∷ p) r = drop-length-append p r

pub length-pad_to :
    (old new : List ℕ) → length new ≤ length old → length (pad_to old new) ≡ length old
unfolding pad_to
length-pad_to old new h = ground (
  arith,
  length-append new (replicate (length old - length new) b' '),
  length-replicate {A = ℕ} (length old - length new) b' ',
)

-- A display replacement has the width of what it replaces.
pub length-fit_display_replacement :
    (old replacement : List ℕ) → length (fit_display_replacement old replacement) ≡ length old
unfolding fit_display_replacement
length-fit_display_replacement old replacement =
    elim (Bool-cases (ltb (length old) (length replacement))) [
      | inl e ↦ rw e (
          length-pad_to old (take (length old) replacement)
            (ground (arith, length-take (length old) replacement)))
      | inr e ↦ rw e (length-pad_to old replacement (ground arith))
    ]

-- A strict replacement has the width of what it replaces.
pub length-fit_replacement :
    (old replacement new : List ℕ)
    → fit_replacement old replacement ≡ some new
    → length new ≡ length old
unfolding fit_replacement
length-fit_replacement old replacement new h = ground (arith, length-pad_to old replacement)
