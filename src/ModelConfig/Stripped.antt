-- ===== src/ModelConfig/Stripped.antt =====
-- What `StripLongContext` takes away: spaces at either end, and [1m] tags at the end.
use Prim.Native.Char.{Char}
use Prim.Native.String
use Prim.Native.String.{[] as nil, ◌∷◌ as cons}
use text.Mathlib.TextLemmas.{nil-append, append-nil, cons-append, append_assoc}
use mathlib.Core.Path.{subst}
use claudodex.Common.{
  ℕ, zero, suc, ◌-◌, ◌≤◌, String, ◌≡◌, refl, sym, ap, ◌∙◌, true, inl, inr, Bool-cases, arith,
  eq_iff, ◌==◌, string_key,
}
use claudodex.Common.Text.{
  is_space, trim_left, trim_right, trim_space, to_lower, has_suffix, size, take_chars, drop_chars,
  drop_last, keep,
}
use claudodex.Common.Text.Cut.{take_chars-drop_chars}
use claudodex.ModelConfig.{long_context_suffix}

pub data Spaces : String → Type 0 where
  none_left : Spaces ""
  space : (c : Char) (s : String) → is_space c ≡ true → Spaces s → Spaces (cons c s)

-- Spaces and [1m] tags, in either case.
pub data Filler : String → Type 0 where
  spaces : (s : String) → Spaces s → Filler s
  tag : (s : String) → to_lower s ≡ long_context_suffix → Filler s
  both : (s t : String) → Filler s → Filler t → Filler (String.◌++◌ s t)

-- The second text is what is left of the first once spaces in front and filler behind are gone.
pub record Kept (s kept : String) : Type 0 where
  pub before : String
  pub after : String
  pub in_front : Spaces before
  pub behind : Filler after
  pub whole : s ≡ String.◌++◌ before (String.◌++◌ kept after)

Spaces-append : (s t : String) → Spaces s → Spaces t → Spaces (String.◌++◌ s t)
Spaces-append _ t Spaces.none_left k = subst Spaces (sym (nil-append t)) k
Spaces-append _ t (Spaces.space c s e h) k =
    subst Spaces (sym (cons-append c s t))
      (Spaces.space c (String.◌++◌ s t) e (Spaces-append s t h k))

pub Kept-refl : (s : String) → Kept s s
Kept-refl s = record {
  before = "";
  after = "";
  in_front = Spaces.none_left;
  behind = Filler.spaces "" Spaces.none_left;
  whole = sym (nil-append (String.◌++◌ s "") ∙ append-nil s);
}

pub Kept-trans : (s m r : String) → Kept s m → Kept m r → Kept s r
Kept-trans s m r h k = record {
  before = String.◌++◌ h.before k.before;
  after = String.◌++◌ k.after h.after;
  in_front = Spaces-append h.before k.before h.in_front k.in_front;
  behind = Filler.both k.after h.after k.behind h.behind;
  whole =
      h.whole
      ∙ ap (λ t. String.◌++◌ h.before (String.◌++◌ t h.after)) k.whole
      ∙ ap (String.◌++◌ h.before) (
          append_assoc k.before (String.◌++◌ r k.after) h.after
          ∙ ap (String.◌++◌ k.before) (append_assoc r k.after h.after))
      ∙ sym (append_assoc h.before k.before (String.◌++◌ r (String.◌++◌ k.after h.after)));
}

abbrev FrontCut : String → Type 0
FrontCut s = (b : String) × Spaces b × (s ≡ String.◌++◌ b (trim_left is_space s))

trim_left_kept : (s : String) → FrontCut s
unfolding trim_left
trim_left_kept nil = ("", Spaces.none_left, sym (nil-append ""))
trim_left_kept (cons c s) = elim (Bool-cases (is_space c)) [
  | inr e ↦ ("", Spaces.none_left, rw e (sym (nil-append (cons c s))))
  | inl e ↦
      let (b, h, same) = trim_left_kept s in
      (
        cons c b,
        Spaces.space c b e h,
        rw e (ap (cons c) same ∙ sym (cons-append c b (trim_left is_space s))),
      )
]

abbrev BackCut : String → String → Type 0
BackCut s kept = (a : String) × Spaces a × (s ≡ String.◌++◌ kept a)

keep_kept : (c : Char) (s t : String) → BackCut s t → BackCut (cons c s) (keep (is_space c) c t)
keep_kept c s nil (a, h, same) = elim (Bool-cases (is_space c)) [
  | inl e ↦ (
    cons c a,
    Spaces.space c a e h,
    rw e (ap (cons c) (same ∙ nil-append a) ∙ sym (nil-append (cons c a))),
  )
  | inr e ↦ (a, h, rw e (ap (cons c) same ∙ sym (cons-append c "" a)))
]
keep_kept c s (cons d t) (a, h, same) = (a, h, ap (cons c) same ∙ sym (cons-append c (cons d t) a))

trim_right_kept : (s : String) → BackCut s (trim_right is_space s)
unfolding trim_right
trim_right_kept nil = ("", Spaces.none_left, sym (nil-append ""))
trim_right_kept (cons c s) = keep_kept c s (trim_right is_space s) (trim_right_kept s)

pub trim_space-Kept : (s : String) → Kept s (trim_space s)
unfolding trim_space
trim_space-Kept s =
    let (b, h, left) = trim_left_kept s in
    let (a, k, right) = trim_right_kept (trim_left is_space s) in
    record {
      before = b;
      after = a;
      in_front = h;
      behind = Filler.spaces a k;
      whole = left ∙ ap (String.◌++◌ b) right;
    }

size-to_lower : (s : String) → size (to_lower s) ≡ size s
unfolding to_lower size
size-to_lower nil = refl
size-to_lower (cons c s) = omega (arith, size-to_lower s)

size-suffix : (s w : String) → has_suffix s w ≡ true → size w ≤ size s
unfolding has_suffix size
size-suffix nil w h = ap_le (ap size ((eq_iff w "").0 h))
  where
    ap_le : size w ≡ 0 → size w ≤ 0
    ap_le e = omega (arith, e)
size-suffix (cons c s) w h = elim (Bool-cases (cons c s == w)) [
  | inl e ↦ omega (arith, ap size ((eq_iff (cons c s) w).0 e))
  | inr e ↦ omega (arith, size-suffix s w (ground (arith, h, e)))
]

drop_chars_nil : (n : ℕ) → drop_chars n nil ≡ nil
unfolding drop_chars
drop_chars_nil zero = refl
drop_chars_nil (suc n) = refl

-- The end of a text whose lowered form has a suffix.
suffix_end :
    (s w : String)
    → has_suffix (to_lower s) w ≡ true
    → to_lower (drop_chars (size s - size w) s) ≡ w
unfolding has_suffix to_lower size drop_chars
suffix_end nil w h = ap to_lower (drop_chars_nil (0 - size w)) ∙ sym ((eq_iff w "").0 h)
suffix_end (cons c s) w h = elim (Bool-cases (to_lower (cons c s) == w)) [
  | inl e ↦
      let same = (eq_iff (to_lower (cons c s)) w).0 e in
      let none_over : suc (size s) - size w ≡ 0 = omega (arith, ap size same, size-to_lower s) in
      rw none_over same
  | inr e ↦
      let below : has_suffix (to_lower s) w ≡ true = ground (arith, h, e) in
      let one_more : suc (size s) - size w ≡ suc (size s - size w) =
        omega (arith, size-suffix (to_lower s) w below, size-to_lower s) in
      rw one_more (suffix_end s w below)
]

pub drop_last-Kept :
    (s : String) → has_suffix (to_lower s) long_context_suffix ≡ true → Kept s (drop_last 4 s)
unfolding drop_last size
drop_last-Kept s h =
    let n = size s - 4 in
    record {
      before = "";
      after = drop_chars n s;
      in_front = Spaces.none_left;
      behind = Filler.tag (drop_chars n s) (suffix_end s long_context_suffix h);
      whole =
          sym (
            nil-append (String.◌++◌ (take_chars n s) (drop_chars n s)) ∙ take_chars-drop_chars n s);
    }
