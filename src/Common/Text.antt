-- ===== src/Common/Text.antt =====
-- What the code uses of Go's `strings`, over texts of characters.
-- `to_lower` maps the letters whose lower case is ASCII, U+212A and U+0130 among them; the other
-- letters stay as they are, since the code only compares lowered texts with ASCII words.
pub mod Trim
pub mod Cut
use Prim.Native.Nat.{ℕ, zero, suc, ◌+◌, ◌-◌, ◌/◌, ◌%◌, ◌≤◌, ◌<◌}
use Prim.Native.Char.{Char, code}
use Prim.Native.String.{String, [], ◌∷◌, ◌++◌}
use mathlib.Core.Path.{◌≡◌, refl}
use mathlib.Core.Bool.{Bool, true, false, ◌&&◌, ◌||◌}
use mathlib.Core.Option
use mathlib.Core.Option.{Option, none, some}
use mathlib.Core.List.{List, [], ◌∷◌}
use native.Mathlib.Omega.{arith}
use text.Mathlib.Text.{◌==◌}
use text.Mathlib.TextEquality.{Char-path}
use mathlib.Core.Logic.{inl, inr}
use text.Mathlib.TextLemmas.{nil-append, cons-append}
use claudodex.Common.Tests.{ltb, leb, nat_eq, if◌then◌else◌, Bool-cases}

-- unicode.IsSpace
abbrev pub is_space : Char → Bool
is_space c =
    let n = code c in
    (leb 9 n && leb n 13)
    || nat_eq n 32
    || nat_eq n 0x85
    || nat_eq n 0xa0
    || nat_eq n 0x1680
    || (leb 0x2000 n && leb n 0x200a)
    || nat_eq n 0x2028
    || nat_eq n 0x2029
    || nat_eq n 0x202f
    || nat_eq n 0x205f
    || nat_eq n 0x3000

unfoldable pub trim_left : (Char → Bool) → String → String
trim_left p [] = []
trim_left p (c ∷ s) = if p c then trim_left p s else c ∷ s

-- A text that is all cut away leaves nothing; otherwise its first character stays.
abbrev pub keep : Bool → Char → String → String
keep p c [] = if p then [] else c ∷ []
keep p c (d ∷ s) = c ∷ d ∷ s

unfoldable pub trim_right : (Char → Bool) → String → String
trim_right p [] = []
trim_right p (c ∷ s) = keep (p c) c (trim_right p s)

unfoldable pub trim_space : String → String
unfolding trim_left trim_right
trim_space s = trim_right is_space (trim_left is_space s)

abbrev pub lowers : String
lowers = "abcdefghijklmnopqrstuvwxyz"

-- The character at a position, or `d` past the end.
abbrev pub nth : String → ℕ → Char → Char
nth [] i d = d
nth (c ∷ s) zero d = c
nth (c ∷ s) (suc i) d = nth s i d

unfoldable pub lower_char : Char → Char
lower_char c =
    let n = code c in
    if leb 65 n && leb n 90
    then nth lowers (n - 65) c
    else if nat_eq n 0x212a
    then "k"
    else if nat_eq n 0x130
    then "i"
    else c

unfoldable pub to_lower : String → String
unfolding lower_char
to_lower [] = []
to_lower (c ∷ s) = lower_char c ∷ to_lower s

-- What follows the prefix `p` in `s`, if `s` begins with it.
unfoldable pub strip_prefix : String → String → Option String
strip_prefix [] s = some s
strip_prefix (c ∷ p) [] = none
strip_prefix (c ∷ p) (d ∷ s) = if nat_eq (code c) (code d) then strip_prefix p s else none

abbrev pub is_some {ℓ} : {A : Type ℓ} → Option A → Bool
is_some none = false
is_some (some a) = true

unfoldable pub has_prefix : String → String → Bool
unfolding strip_prefix
has_prefix s p = is_some (strip_prefix p s)

unfoldable pub trim_prefix : String → String → String
unfolding strip_prefix
trim_prefix s p = Option.get_or (strip_prefix p s) s

unfoldable pub contains : String → String → Bool
unfolding has_prefix
contains [] w = has_prefix [] w
contains (c ∷ s) w = has_prefix (c ∷ s) w || contains s w

unfoldable pub has_suffix : String → String → Bool
has_suffix [] w = w == ""
has_suffix (c ∷ s) w = (c ∷ s) == w || has_suffix s w

-- strings.ReplaceAll(s, "-", "") and the like: every character `c` goes.
unfoldable pub without_char : ℕ → String → String
without_char n [] = []
without_char n (c ∷ s) = let rest = without_char n s in if nat_eq (code c) n then rest else c ∷ rest

-- strings.Split(s, sep) for a separator of one character: the part under way, and those after it.
unfoldable pub split_from : ℕ → String → String → List String
split_from n cur [] = cur ∷ []
split_from n cur (c ∷ s) =
    if nat_eq (code c) n then cur ∷ split_from n [] s else split_from n (cur ++ c ∷ []) s

unfoldable pub split : String → ℕ → List String
unfolding split_from
split s n = split_from n [] s

-- How many characters a text has.
unfoldable pub size : String → ℕ
size [] = 0
size (c ∷ s) = suc (size s)

-- The first characters of a text.
unfoldable pub take_chars : ℕ → String → String
take_chars zero s = []
take_chars (suc n) [] = []
take_chars (suc n) (c ∷ s) = c ∷ take_chars n s

unfoldable pub drop_chars : ℕ → String → String
drop_chars zero s = s
drop_chars (suc n) [] = []
drop_chars (suc n) (c ∷ s) = drop_chars n s

-- strings.Index(s, w), as a number of characters; `none` for -1.
unfoldable pub find_text : String → String → Option ℕ
unfolding has_prefix
find_text w [] = if has_prefix [] w then some 0 else none
find_text w (c ∷ s) = if has_prefix (c ∷ s) w then some 0 else Option.map suc (find_text w s)

-- The text without its last characters.
unfoldable pub drop_last : ℕ → String → String
unfolding size take_chars
drop_last n s = take_chars (size s - n) s

-- A number in decimal, as fmt's %d prints it: `fuel` bounds the digits.
unfoldable pub decimal_from : ℕ → ℕ → String → String
decimal_from zero n rest = rest
decimal_from (suc fuel) n rest =
    let digit = nth "0123456789" (n % 10) "0" in
    let more = decimal_from fuel (n / 10) (digit ∷ rest) in if ltb n 10 then digit ∷ rest else more

unfoldable pub decimal : ℕ → String
unfolding decimal_from
decimal n = decimal_from (suc n) n []

abbrev fold_char : Char → Char
fold_char c = if nat_eq (code c) 0x17f then "s" else lower_char c

-- What strings.EqualFold compares, where one side is an ASCII word: U+017F folds to an s.
unfoldable pub fold : String → String
unfolding lower_char
fold [] = []
fold (c ∷ s) = fold_char c ∷ fold s

unfoldable pub equal_fold : String → String → Bool
unfolding fold
equal_fold s w = fold s == fold w

-- strings.Join(parts, "")
unfoldable pub concat : List String → String
concat [] = []
concat (s ∷ ss) = s ++ concat ss

-- Go's len of a text: its bytes in UTF-8.
abbrev pub char_bytes : Char → ℕ
char_bytes c =
    let n = code c in
    if ltb n 0x80 then 1 else if ltb n 0x800 then 2 else if ltb n 0x10000 then 3 else 4

unfoldable pub byte_len : String → ℕ
byte_len [] = 0
byte_len (c ∷ s) = char_bytes c + byte_len s

trims : trim_space " \tA b\n" ≡ "A b"
unfolding trim_space
trims = refl

lowered : to_lower (trim_prefix "x-GPT-5.6-Sol" "x-") ≡ "gpt-5.6-sol"
unfolding to_lower trim_prefix
lowered = refl

found :
    (contains "claude-opus-5" "opus" ≡ true)
    × (contains "opu" "opus" ≡ false)
    × (has_suffix "m[1m]" "[1m]" ≡ true)
    × (without_char b'-' "x-high" ≡ "xhigh")
unfolding contains has_suffix without_char
found = (refl, refl, refl, refl)

-- A prefix that is stripped is a prefix.
pub strip_prefix_sound : (p s t : String) → strip_prefix p s ≡ some t → s ≡ p ++ t
unfolding strip_prefix
strip_prefix_sound [] s t h = cc (nil-append t)
strip_prefix_sound (c ∷ p) [] t h = cc
strip_prefix_sound (c ∷ p) (d ∷ s) t h = elim (Bool-cases (nat_eq (code c) (code d))) [
  | inl e ↦
      let same : c ≡ d = Char-path c d (ground arith) in
      rw cons-append (cc (same, strip_prefix_sound p s t (rw (e, strip_prefix) at h)))
  | inr e ↦ ground arith
]

-- The first of two texts, or the second where it is empty.
abbrev pub first_nonempty : String → String → String
first_nonempty s d = if s == "" then d else s
