-- ===== src/Catalog/Version/Numbers.antt =====
-- A version as the sequence of its numbers, which no machine integer bounds, and what
-- `compareNumericVersion` says of them.
use Prim.Native.Nat.{compare, Ordering}
use Prim.Native.Nat.Ordering.{lt, eq, gt}
use Prim.Native.Char.{code}
use Prim.Native.String.{[] as nil, ◌∷◌ as cons}
use claudodex.Common.{
  ℕ, zero, suc, ◌+◌, ◌-◌, ◌*◌, ◌≤◌, ◌<◌, String, ◌≡◌, refl, sym, ap, ◌∙◌, true, inl, inr,
  Bool-cases, List, [], ◌∷◌, length, get_or, all, arith,
}
use mathlib.Core.Path.{subst, fun_ext}
use claudodex.Common.Order.{Ordering-cases, then_by, text_cmp}
use claudodex.Common.Text.{size, split, trim_left}
use claudodex.Common.Text.Trim.{Begins, Begins-trim_left}
use claudodex.Catalog.Version.Order.{length-tail_parts}
use claudodex.Catalog.Version.{
  all_digits, is_number, is_numeric_version, is_zero, compare_part, head_part, tail_parts,
  compare_parts, longer, compare_numeric_version,
}

-- The number that decimal digits stand for, after those that stand for `n`.
unfoldable pub number_from : ℕ → String → ℕ
number_from n nil = n
number_from n (cons c s) = number_from (n * 10 + (code c - 48)) s

abbrev pub number : String → ℕ
number s = number_from 0 s

-- The i-th number of a version, 0 past its end.
abbrev pub component : String → ℕ → ℕ
component version i = number (get_or (split version b'.') i "")

number_from_ge : (n : ℕ) (s : String) → n ≤ number_from n s
unfolding number_from
number_from_ge n nil = omega arith
number_from_ge n (cons c s) = omega (arith, number_from_ge (n * 10 + (code c - 48)) s)

number_from_lt :
    (n m : ℕ) (s t : String)
    → n < m
    → size s ≤ size t
    → all_digits s ≡ true
    → number_from n s < number_from m t
unfolding number_from size all_digits
number_from_lt n m nil t h k d = omega (arith, number_from_ge m t)
number_from_lt n m (cons c s) nil h k d = absurd (omega arith)
number_from_lt n m (cons c s) (cons e t) h k d =
    number_from_lt (n * 10 + (code c - 48)) (m * 10 + (code e - 48)) s t (ground (arith, d))
      (omega arith) (ground (arith, d))

same_size :
    (n : ℕ) (s t : String)
    → size s ≡ size t
    → all_digits s ≡ true
    → all_digits t ≡ true
    → text_cmp s t ≡ compare (number_from n s) (number_from n t)
unfolding number_from size all_digits text_cmp
same_size n nil nil h d e = ground arith
same_size n nil (cons f t) h d e = absurd (omega arith)
same_size n (cons c s) nil h d e = absurd (omega arith)
same_size n (cons c s) (cons f t) h d e = ground (
  arith,
  d,
  e,
  same_size (n * 10 + (code c - 48)) s t,
  number_from_lt (n * 10 + (code c - 48)) (n * 10 + (code f - 48)) s t,
  number_from_lt (n * 10 + (code f - 48)) (n * 10 + (code c - 48)) t s,
)

number-trim_left : (s : String) → number (trim_left is_zero s) ≡ number s
unfolding number_from trim_left
number-trim_left nil = refl
number-trim_left (cons c s) = elim (Bool-cases (is_zero c)) [
  | inl e ↦
      let digit : 0 * 10 + (code c - 48) ≡ 0 = ground arith in
      rw e (number-trim_left s ∙ ap (λ n. number_from n s) (sym digit))
  | inr e ↦ rw e
]

all_digits-trim_left : (s : String) → all_digits s ≡ true → all_digits (trim_left is_zero s) ≡ true
unfolding all_digits trim_left
all_digits-trim_left nil h = h
all_digits-trim_left (cons c s) h = elim (Bool-cases (is_zero c)) [
  | inl e ↦ rw e (all_digits-trim_left s (ground (arith, h)))
  | inr e ↦ rw (e, all_digits) h
]

longer_is_more :
    (s t : String)
    → size s < size t
    → all_digits s ≡ true
    → all_digits t ≡ true
    → Begins is_zero t
    → number s < number t
unfolding number_from size all_digits
longer_is_more s nil h d e z = absurd (omega arith)
longer_is_more s (cons c t) h d e z =
    number_from_lt 0 (0 * 10 + (code c - 48)) s t (ground (arith, e, z)) (omega arith) d

by_size :
    (s t : String)
    → all_digits s ≡ true
    → all_digits t ≡ true
    → Begins is_zero s
    → Begins is_zero t
    → then_by (compare (size s) (size t)) (text_cmp s t) ≡ compare (number s) (number t)
by_size s t d e y z =
    ground (arith, d, e, same_size 0 s t, longer_is_more s t, longer_is_more t s, y, z)

compare_part_lem :
    (l r : String)
    → all_digits l ≡ true
    → all_digits r ≡ true
    → compare_part l r ≡ compare (number l) (number r)
unfolding compare_part size trim_left text_cmp
compare_part_lem l r d e =
    let lp = trim_left is_zero l in
    let rp = trim_left is_zero r in
    cc (
      by_size lp rp (all_digits-trim_left l d) (all_digits-trim_left r e)
          (Begins-trim_left is_zero l) (Begins-trim_left is_zero r),
      number-trim_left l,
      number-trim_left r,
    )

-- Two sequences of numbers compared: at the first place where they differ, if there is one.
pub data Compares (f g : ℕ → ℕ) : Ordering → Type 0 where
  same : ((i : ℕ) → f i ≡ g i) → Compares f g eq
  less : (i : ℕ) → ((j : ℕ) → j < i → f j ≡ g j) → f i < g i → Compares f g lt
  more : (i : ℕ) → ((j : ℕ) → j < i → f j ≡ g j) → g i < f i → Compares f g gt

abbrev later : (ℕ → ℕ) → ℕ → ℕ
later f i = f (suc i)

from_zero :
    (f g : ℕ → ℕ) (n : ℕ)
    → f 0 ≡ g 0
    → ((j : ℕ) → j < n → later f j ≡ later g j)
    → (j : ℕ) → j < suc n
    → f j ≡ g j
from_zero f g n e h zero k = e
from_zero f g n e h (suc j) k = h j (omega arith)

later_decides :
    (f g : ℕ → ℕ) (o : Ordering) → f 0 ≡ g 0 → Compares (later f) (later g) o → Compares f g o
later_decides f g eq e (Compares.same h) =
    Compares.same λ i. from_zero f g i e (λ j _. h j) i (omega arith)
later_decides f g lt e (Compares.less i h l) = Compares.less (suc i) (from_zero f g i e h) l
later_decides f g gt e (Compares.more i h l) = Compares.more (suc i) (from_zero f g i e h) l

-- The first numbers decide, or those that follow do.
Compares-step :
    (f g : ℕ → ℕ) (o : Ordering)
    → Compares (later f) (later g) o
    → Compares f g (then_by (compare (f 0) (g 0)) o)
Compares-step f g o h = elim (Ordering-cases (compare (f 0) (g 0))) [
  | inl l ↦ rw l (Compares.less 0 (λ j b. absurd (omega arith)) (ground (arith, l)))
  | inr (inl e) ↦ rw e (later_decides f g o (ground (arith, e)) h)
  | inr (inr m) ↦ rw m (Compares.more 0 (λ j b. absurd (omega arith)) (ground (arith, m)))
]

abbrev at_part : List String → ℕ → ℕ
at_part l i = number (get_or l i "")

head_digits : (l : List String) → all is_number l ≡ true → all_digits (head_part l) ≡ true
unfolding all_digits
head_digits [] h = refl
head_digits (p ∷ l) h = ground (arith, h)

tail_numbers : (l : List String) → all is_number l ≡ true → all is_number (tail_parts l) ≡ true
tail_numbers [] h = refl
tail_numbers (p ∷ l) h = ground (arith, h)

at_head : (l : List String) → at_part l 0 ≡ number (head_part l)
at_head [] = refl
at_head (p ∷ l) = refl

at_later : (l : List String) → later (at_part l) ≡ at_part (tail_parts l)
at_later [] = fun_ext (λ i. refl)
at_later (p ∷ l) = refl

past_end : (l r : List String) → length l ≤ 0 → length r ≤ 0 → (i : ℕ) → at_part l i ≡ at_part r i
past_end [] [] h k i = refl
past_end [] (y ∷ r) h k i = absurd (omega arith)
past_end (x ∷ l) r h k i = absurd (omega arith)

parts-Compares :
    (n : ℕ) (l r : List String)
    → length l ≤ n
    → length r ≤ n
    → all is_number l ≡ true
    → all is_number r ≡ true
    → Compares (at_part l) (at_part r) (compare_parts n l r)
unfolding compare_parts
parts-Compares zero l r h k d e = Compares.same (past_end l r h k)
parts-Compares (suc n) l r h k d e =
    subst
      (λ o.
        Compares (at_part l) (at_part r)
          (then_by o (compare_parts n (tail_parts l) (tail_parts r))))
      (cc (
        compare_part_lem (head_part l) (head_part r) (head_digits l d) (head_digits r e),
        at_head l,
        at_head r,
      ))
      (Compares-step (at_part l) (at_part r) _ (
        rw (at_later l, at_later r)
          (parts-Compares n (tail_parts l) (tail_parts r) (length-tail_parts n l h)
            (length-tail_parts n r k) (tail_numbers l d) (tail_numbers r e))))

-- On numeric versions `compareNumericVersion` compares their numbers, which may be of any size: the
-- first that differs decides, and a version that is shorter goes on with zeros.
pub compare_numeric_version-Compares :
    (left right : String)
    → is_numeric_version left ≡ true
    → is_numeric_version right ≡ true
    → Compares (component left) (component right) (compare_numeric_version left right)
unfolding compare_numeric_version is_numeric_version
compare_numeric_version-Compares left right d e =
    let l = split left b'.' in
    let r = split right b'.' in parts-Compares (longer l r) l r (ground arith) (ground arith) d e
