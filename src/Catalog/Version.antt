-- ===== src/Catalog/Version.antt =====
-- internal/modelcatalog/resolve.go and internal/codex/models.go: versions of clients and models.
pub mod Order
pub mod Numbers
use Prim.Native.Nat.{compare, Ordering}
use Prim.Native.Nat.Ordering.{lt, eq, gt}
use Prim.Native.Char.{Char, code}
use Prim.Native.String.{[] as nil, ◌∷◌ as cons}
use claudodex.Common.{
  ℕ, zero, suc, ◌+◌, ◌-◌, ◌*◌, ◌%◌, ◌^◌, String, Bool, true, false, ◌&&◌, ◌||◌, not, List, [], ◌∷◌,
  length, all, ltb, leb, nat_eq, ◌==◌, string_key, if◌then◌else◌,
}
use claudodex.Common.Order.{then_by, text_cmp}
use claudodex.Common.Text.{size, split, trim_left}

abbrev pub is_digit : Char → Bool
is_digit c = leb 48 (code c) && leb (code c) 57

unfoldable pub all_digits : String → Bool
all_digits nil = true
all_digits (cons c s) = is_digit c && all_digits s

-- One part of a version: [0-9]+
abbrev pub is_number : String → Bool
is_number s = not (s == "") && all_digits s

-- numericVersionPattern, ^[0-9]+(?:\.[0-9]+)*$, matched on a whole text
unfoldable pub is_numeric_version : String → Bool
unfolding split all_digits
is_numeric_version s = all is_number (split s b'.')

abbrev is_zero : Char → Bool
is_zero c = nat_eq (code c) 48

-- Two parts: without their leading zeros, the longer one is greater.
unfoldable pub compare_part : String → String → Ordering
unfolding trim_left size text_cmp
compare_part l r =
    let lp = trim_left is_zero l in
    let rp = trim_left is_zero r in then_by (compare (size lp) (size rp)) (text_cmp lp rp)

-- The part under way, "" past the end, and the parts after it.
abbrev pub head_part : List String → String
head_part [] = ""
head_part (p ∷ ps) = p

abbrev pub tail_parts : List String → List String
tail_parts [] = []
tail_parts (p ∷ ps) = ps

-- The loop of `compareNumericVersion`, over so many parts.
unfoldable pub compare_parts : ℕ → List String → List String → Ordering
unfolding compare_part
compare_parts zero l r = eq
compare_parts (suc n) l r =
    then_by (compare_part (head_part l) (head_part r))
      (compare_parts n (tail_parts l) (tail_parts r))

abbrev pub longer : List String → List String → ℕ
longer l r = if ltb (length l) (length r) then length r else length l

-- `compareNumericVersion`: lt for -1, eq for 0 and gt for 1.
unfoldable pub compare_numeric_version : String → String → Ordering
unfolding compare_parts split
compare_numeric_version left right =
    let l = split left b'.' in let r = split right b'.' in compare_parts (longer l r) l r

abbrev pub default_models_client_version : String
default_models_client_version = "0.166.0"

unfoldable pub valid_client_version : String → Bool
unfolding split all_digits
valid_client_version version =
    let parts = split version b'.' in nat_eq (length parts) 3 && all is_number parts

-- `parseVersionPart` in the two's complement of 64 bits: `int` wraps.
unfoldable pub parse_version_part : ℕ → String → ℕ
parse_version_part value nil = value
parse_version_part value (cons c s) = parse_version_part ((value * 10 + (code c - 48)) % 2 ^ 64) s

-- `<` and `!=` of two such ints.
abbrev signed_less : ℕ → ℕ → Bool
signed_less l r = ltb ((l + 2 ^ 63) % 2 ^ 64) ((r + 2 ^ 63) % 2 ^ 64)

unfoldable pub version_less_parts : List String → List String → Bool
unfolding parse_version_part
version_less_parts [] [] = false
version_less_parts [] (r ∷ rs) = true
version_less_parts (l ∷ ls) [] = false
version_less_parts (l ∷ ls) (r ∷ rs) =
    let lv = parse_version_part 0 l in
    let rv = parse_version_part 0 r in
    let rest = version_less_parts ls rs in if nat_eq lv rv then rest else signed_less lv rv

unfoldable pub version_less : String → String → Bool
unfolding version_less_parts split
version_less left right = version_less_parts (split left b'.') (split right b'.')

unfoldable pub models_client_version : String → String
unfolding valid_client_version version_less
models_client_version version =
    if valid_client_version version && not (version_less version default_models_client_version)
    then version
    else default_models_client_version
