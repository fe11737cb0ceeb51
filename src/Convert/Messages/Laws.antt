-- ===== src/Convert/Messages/Laws.antt =====
-- The items of a converted message, and the ids of calls and their results.
use Prim.Native.String
use Prim.Native.String.{[] as nil, ◌∷◌ as cons}
use text.Mathlib.TextLemmas.{nil-append, cons-append}
use claudodex.Common.{
  ℕ, ◌+◌, ◌-◌, ◌≤◌, String, ◌≡◌, ◌≢◌, ◌⊎◌, refl, sym, ap, ◌∙◌, true, false, inl, inr, Bool-cases,
  Option-cases, Option, some, List, [], ◌∷◌, ◌++◌, leb, arith, eq_iff, ◌==◌, string_key,
  if◌then◌else◌,
}
use claudodex.Common.Dict.{Dict, lookup, lookup-insert}
use claudodex.Common.Text.{byte_len, char_bytes}
use claudodex.Json.{Fields}
use claudodex.Codex.{ContentPart, InputItem}
use claudodex.Convert.Messages.{
  Library, take_bytes, clamp_call_id, Loop, message_item, flushed, flush, add_item,
  register_call_id, resolve_call_id, call_name, text_at,
}
use claudodex.Convert.Messages.Results.{}

byte_len-append : (s t : String) → byte_len (String.◌++◌ s t) ≡ byte_len s + byte_len t
unfolding byte_len
byte_len-append nil t = rw (nil-append t) (omega arith)
byte_len-append (cons c s) t = rw (cons-append c s t) (omega (arith, byte_len-append s t))

byte_len-take_bytes : (n : ℕ) (s : String) → byte_len (take_bytes n s) ≤ n
unfolding byte_len take_bytes
byte_len-take_bytes n nil = omega arith
byte_len-take_bytes n (cons c s) = elim (Bool-cases (leb (char_bytes c) n)) [
  | inl e ↦ rw e (ground (arith, e, byte_len-take_bytes (n - char_bytes c) s))
  | inr e ↦ rw e (omega arith)
]

-- A digest has 16 digits.
abbrev pub HasDigits : Library → Type 0
HasDigits lib = (id : String) → byte_len (lib.digest id) ≡ 16

pub byte_len-clamp_call_id :
    (lib : Library) (id : String) → HasDigits lib → byte_len (clamp_call_id lib id) ≤ 64
unfolding clamp_call_id byte_len
byte_len-clamp_call_id lib id h = elim (Bool-cases (leb (byte_len id) 64)) [
  | inl e ↦ rw e (ground (arith, e))
  | inr e ↦ rw e (
      omega (
        arith,
        byte_len-append (take_bytes 47 id) (String.◌++◌ "-" (lib.digest id)),
        byte_len-append "-" (lib.digest id),
        byte_len-take_bytes 47 id,
        h id,
      ))
]

-- The ids that the converter has registered are those that it would compute again.
abbrev pub Consistent : Library → Dict String String → Type 0
Consistent lib call_ids =
    (id clamped : String) → lookup id call_ids ≡ some clamped → clamped ≡ clamp_call_id lib id

pub resolve_of_Consistent :
    (lib : Library) (call_ids : Dict String String) (id : String)
    → Consistent lib call_ids
    → resolve_call_id lib call_ids id ≡ clamp_call_id lib id
unfolding resolve_call_id
resolve_of_Consistent lib call_ids id h = elim (Option-cases (lookup id call_ids)) [
  | inl e ↦ rw e refl
  | inr (clamped, e) ↦ rw e (h id clamped e)
]

pub register-Consistent :
    (lib : Library) (id : String) (l : Loop)
    → Consistent lib l.call_ids
    → Consistent lib (register_call_id lib id l).call_ids
register-Consistent lib id l h asked clamped got =
    either (Bool-cases (id == asked))
      (sym (lookup-insert id asked (clamp_call_id lib id) l.call_ids) ∙ got)
  where
    either :
        (id == asked ≡ true) ⊎ (id == asked ≡ false)
        → (if id == asked then some (clamp_call_id lib id) else lookup asked l.call_ids)
          ≡ some clamped
        → clamped ≡ clamp_call_id lib asked
    either (inl e) k = ground (arith, rw e at k, ap (clamp_call_id lib) ((eq_iff id asked).0 e))
    either (inr e) k = h asked clamped (rw e at k)

-- What the conversion of a message of a role may give.
pub data IsItem (role : String) (item : InputItem) : Type 0 where
  message :
      (p : ContentPart) (ps : List ContentPart)
      → item ≡ message_item role (p ∷ ps)
      → IsItem role item
  call :
      role ≡ "assistant"
      → item.item_type ≡ "function_call"
      → item.name ≢ ""
      → byte_len item.call_id ≤ 64
      → IsItem role item
  answer : item.item_type ≡ "function_call_output" → byte_len item.call_id ≤ 64 → IsItem role item

abbrev pub AllItems : String → List InputItem → Type 0
AllItems role [] = Unit
AllItems role (item ∷ rest) = IsItem role item × AllItems role rest

AllItems-append :
    (role : String) (xs ys : List InputItem)
    → AllItems role xs
    → AllItems role ys
    → AllItems role (xs ++ ys)
AllItems-append role [] ys h k = k
AllItems-append role (x ∷ xs) ys h k = (h.0, AllItems-append role xs ys h.1 k)

-- The state of the loop, at every round.
pub record IsGood (lib : Library) (role : String) (l : Loop) : Type 0 where
  pub consistent : Consistent lib l.call_ids
  pub well_formed : AllItems role l.done

pub flush-IsGood :
    (lib : Library) (role : String) (l : Loop) → IsGood lib role l → IsGood lib role (flush role l)
flush-IsGood lib role l g = record { consistent = g.consistent; well_formed = go l.pending }
  where
    go : (ps : List ContentPart) → AllItems role (flushed role ps l.done)
    go [] = g.well_formed
    go (p ∷ ps) =
        AllItems-append role l.done (message_item role (p ∷ ps) ∷ []) g.well_formed
          (IsItem.message p ps refl, tt)

pub add_item-IsGood :
    (lib : Library) (role : String) (item : InputItem) (l : Loop)
    → IsItem role item
    → IsGood lib role l
    → IsGood lib role (add_item item l)
add_item-IsGood lib role item l h g = record {
  consistent = g.consistent;
  well_formed = AllItems-append role l.done (item ∷ []) g.well_formed (h, tt);
}

pub name_nonempty : (block : Option Fields) → call_name block ≢ ""
name_nonempty block h = ground (
  arith,
  h,
  eq_iff (text_at block "name") "",
  eq_iff (text_at block "tool_name") "",
  eq_iff "tool" "",
)
