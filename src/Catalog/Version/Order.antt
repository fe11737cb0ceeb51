-- ===== src/Catalog/Version/Order.antt =====
-- The order of versions: equal versions may be spelt differently, and it is transitive.
use Prim.Native.Nat.Ordering.{lt, eq}
use claudodex.Common.{
  ℕ, zero, suc, ◌+◌, ◌≤◌, String, ◌≡◌, refl, sym, ap, ◌∙◌, List, [], ◌∷◌, length, arith,
}
use claudodex.Common.Order.{
  then_by, swap, IsPreorder, compare-IsPreorder, text_cmp-IsPreorder, both-IsPreorder,
  on-IsPreorder,
}
use claudodex.Common.Text.{size, split, trim_left}
use claudodex.Catalog.Version.{
  is_zero, compare_part, head_part, tail_parts, compare_parts, longer, compare_numeric_version,
}

pub compare_part-IsPreorder : IsPreorder compare_part
unfolding compare_part trim_left size
compare_part-IsPreorder =
    on-IsPreorder (trim_left is_zero)
      (both-IsPreorder (on-IsPreorder size compare-IsPreorder) text_cmp-IsPreorder)

open compare_part-IsPreorder use {cmp_refl, cmp_swap, cmp_trans, cmp_eq}

parts_refl : (n : ℕ) (l : List String) → compare_parts n l l ≡ eq
unfolding compare_parts
parts_refl zero l = refl
parts_refl (suc n) l = ground (arith, cmp_refl (head_part l), parts_refl n (tail_parts l))

parts_swap : (n : ℕ) (l r : List String) → compare_parts n r l ≡ swap (compare_parts n l r)
unfolding compare_parts
parts_swap zero l r = refl
parts_swap (suc n) l r =
    ground (arith, cmp_swap (head_part l) (head_part r), parts_swap n (tail_parts l) (tail_parts r))

parts_eq :
    (n : ℕ) (a b c : List String)
    → compare_parts n a b ≡ eq
    → compare_parts n a c ≡ compare_parts n b c
unfolding compare_parts
parts_eq zero a b c h = refl
parts_eq (suc n) a b c h = ground (
  arith,
  cmp_eq (head_part a) (head_part b) (head_part c),
  parts_eq n (tail_parts a) (tail_parts b) (tail_parts c),
)

parts_trans :
    (n : ℕ) (a b c : List String)
    → compare_parts n a b ≡ lt
    → compare_parts n b c ≡ lt
    → compare_parts n a c ≡ lt
unfolding compare_parts
parts_trans zero a b c h k = ground arith
parts_trans (suc n) a b c h k =
    let x = head_part a in
    let y = head_part b in
    let z = head_part c in
    ground (
      arith,
      cmp_trans x y z,
      cmp_eq x y z,
      cmp_eq y x z,
      cmp_eq z y x,
      cmp_eq y z x,
      cmp_swap x y,
      cmp_swap y z,
      cmp_swap x z,
      parts_trans n (tail_parts a) (tail_parts b) (tail_parts c),
    )

-- Past the end of both there is nothing to tell apart, however many rounds there are.
parts_end : (n : ℕ) → compare_parts n [] [] ≡ eq
unfolding compare_parts
parts_end zero = refl
parts_end (suc n) = ground (arith, cmp_refl "", parts_end n)

pub length-tail_parts : (n : ℕ) (l : List String) → length l ≤ suc n → length (tail_parts l) ≤ n
length-tail_parts n [] h = omega arith
length-tail_parts n (x ∷ l) h = omega arith

parts_more :
    (n m : ℕ) (l r : List String)
    → length l ≤ n
    → length r ≤ n
    → n ≤ m
    → compare_parts m l r ≡ compare_parts n l r
unfolding compare_parts
parts_more zero m [] [] h k e = parts_end m
parts_more zero m [] (y ∷ r) h k e = absurd (omega arith)
parts_more zero m (x ∷ l) r h k e = absurd (omega arith)
parts_more (suc n) zero l r h k e = absurd (omega arith)
parts_more (suc n) (suc m) l r h k e = ap (then_by (compare_part (head_part l) (head_part r))) (
    parts_more n m (tail_parts l) (tail_parts r) (length-tail_parts n l h) (length-tail_parts n r k)
      (omega arith))

-- The comparison with more rounds than the loop has.
pub compare_rounds :
    (n : ℕ) (a b : String)
    → length (split a b'.') ≤ n
    → length (split b b'.') ≤ n
    → compare_numeric_version a b ≡ compare_parts n (split a b'.') (split b b'.')
unfolding compare_numeric_version
compare_rounds n a b h k =
    let l = split a b'.' in
    let r = split b b'.' in
    sym (parts_more (longer l r) n l r (ground arith) (ground arith) (ground arith))

-- `compareNumericVersion` is a total preorder on all texts, versions or not.
pub compare_numeric_version-IsPreorder : IsPreorder compare_numeric_version
compare_numeric_version-IsPreorder = record {
  cmp_refl = λ a.
      let n = length (split a b'.') in
      compare_rounds n a a (omega arith) (omega arith) ∙ parts_refl n (split a b'.');
  cmp_swap = λ a b.
      let n = length (split a b'.') + length (split b b'.') in
      cc (
        compare_rounds n b a (omega arith) (omega arith),
        compare_rounds n a b (omega arith) (omega arith),
        parts_swap n (split a b'.') (split b b'.'),
      );
  cmp_trans = λ a b c h k.
      let n = length (split a b'.') + length (split b b'.') + length (split c b'.') in
      compare_rounds n a c (omega arith) (omega arith)
      ∙ parts_trans n (split a b'.') (split b b'.') (split c b'.')
          (sym (compare_rounds n a b (omega arith) (omega arith)) ∙ h)
          (sym (compare_rounds n b c (omega arith) (omega arith)) ∙ k);
  cmp_eq = λ a b c h.
      let n = length (split a b'.') + length (split b b'.') + length (split c b'.') in
      compare_rounds n a c (omega arith) (omega arith)
      ∙ parts_eq n (split a b'.') (split b b'.') (split c b'.')
          (sym (compare_rounds n a b (omega arith) (omega arith)) ∙ h)
      ∙ sym (compare_rounds n b c (omega arith) (omega arith));
}
