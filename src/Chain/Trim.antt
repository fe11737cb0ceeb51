-- ===== src/Chain/Trim.antt =====
-- Where the new part of a request begins.
use mathlib.Core.Path.{subst, fun_ext}
use claudodex.Common.{
  ℕ, suc, ◌+◌, ◌≡◌, refl, sym, ap, ◌∙◌, Bool, true, false, ◌||◌, not, inl, inr, Bool-cases, Option,
  none, some, List, [], ◌∷◌, get_elem?, drop, any, all, arith, ◌==◌, string_key, if◌then◌else◌,
}
use claudodex.Codex.{InputItem}
use claudodex.Chain.{
  is_blank, last_where, same_message, same_call, last_matching_message, last_matching_function_call,
  position_of, later_of, last_output, trim_after_recorded_output,
}

-- What `last_where` finds.
pub data LastWhere {ℓ} {A : Type ℓ} (test : A → Bool) (xs : List A) : Option ℕ → Type ℓ where
  absent : all (λ x. not (test x)) xs ≡ true → LastWhere test xs none
  found :
      (i : ℕ) (x : A)
      → get_elem? xs i ≡ some x
      → test x ≡ true
      → all (λ y. not (test y)) (drop (suc i) xs) ≡ true
      → LastWhere test xs (some i)

module _ {ℓ} {A : Type ℓ} where
  later-LastWhere :
      (test : A → Bool) (x : A) (xs : List A) (o : Option ℕ)
      → LastWhere test xs o
      → LastWhere test
          (x ∷ xs)
          (elim o [ some i ↦ some (suc i) | none ↦ if test x then some 0 else none ])
  later-LastWhere test x xs _ (LastWhere.found i y got yes_y rest) =
      LastWhere.found (suc i) y got yes_y rest
  later-LastWhere test x xs _ (LastWhere.absent h) = elim (Bool-cases (test x)) [
    | inl e ↦ rw e (LastWhere.found 0 x refl e h)
    | inr e ↦ rw e (LastWhere.absent (rw e h))
  ]

  pub last_where-LastWhere :
      (test : A → Bool) (xs : List A) → LastWhere test xs (last_where test xs)
  unfolding last_where
  last_where-LastWhere test [] = LastWhere.absent refl
  last_where-LastWhere test (x ∷ xs) =
      later-LastWhere test x xs (last_where test xs) (last_where-LastWhere test xs)

  last_where-ext :
      (p q : A → Bool) (xs : List A) → ((x : A) → p x ≡ q x) → last_where p xs ≡ last_where q xs
  last_where-ext p q xs h = ap (λ f. last_where f xs) (fun_ext h)

  last_where-or :
      (p q : A → Bool) (xs : List A)
      → later_of (last_where p xs) (last_where q xs) ≡ last_where (λ x. p x || q x) xs
  unfolding last_where
  last_where-or p q [] = refl
  last_where-or p q (x ∷ xs) = ground (arith, last_where-or p q xs)

  last_where_never : (xs : List A) → last_where (λ x. false) xs ≡ none
  unfolding last_where
  last_where_never [] = refl
  last_where_never (x ∷ xs) = rw (last_where_never xs) refl

  -- The tests of the kind that `position_of` makes once may be made at each item.
  last_where_if :
      (call blank message : Bool) (p q : A → Bool) (xs : List A)
      → (if call
          then (if blank then none else last_where p xs)
          else if message
          then last_where q xs
          else none)
        ≡ last_where
            (λ x. if call then (if blank then false else p x) else if message then q x else false)
            xs
  last_where_if true true message p q xs = sym (last_where_never xs)
  last_where_if true false message p q xs = refl
  last_where_if false blank true p q xs = refl
  last_where_if false blank false p q xs = sym (last_where_never xs)

-- Whether an item of the input is one of the output, come back: a call by its id and name, a message by
-- its role and content.
abbrev pub comes_back : (want item : InputItem) → Bool
comes_back want item =
    if want.item_type == "function_call"
    then (if is_blank want.call_id then false else same_call want item)
    else if want.item_type == "message"
    then same_message want item
    else false

position_of_lem :
    (input : List InputItem) (want : InputItem)
    → position_of input want ≡ last_where (comes_back want) input
unfolding position_of last_matching_message last_matching_function_call
position_of_lem input want =
    last_where_if (want.item_type == "function_call") (is_blank want.call_id)
      (want.item_type == "message") (same_call want) (same_message want) input

abbrev pub in_output : List InputItem → InputItem → Bool
in_output output item = any (λ want. comes_back want item) output

or_order : (a b c : Bool) → (b || (a || c)) ≡ ((a || b) || c)
or_order a b c = ground arith

last_output_lem :
    (input output : List InputItem) (q : InputItem → Bool)
    → last_output input (last_where q input) output
      ≡ last_where (λ item. in_output output item || q item) input
unfolding last_output
last_output_lem input [] q = refl
last_output_lem input (want ∷ output) q =
    ap (λ best. last_output input best output)
      (ap (λ p. later_of p (last_where q input)) (position_of_lem input want)
        ∙ last_where-or (comes_back want) q input)
    ∙ last_output_lem input output (λ item. comes_back want item || q item)
    ∙ last_where-ext _ _ input
        (λ item. or_order (comes_back want item) (in_output output item) (q item))

or_false : (b : Bool) → (b || false) ≡ b
or_false true = refl
or_false false = refl

-- Where the last item of the input that the output has stands.
last_output-LastWhere :
    (input output : List InputItem)
    → LastWhere (in_output output) input (last_output input none output)
last_output-LastWhere input output =
    subst (LastWhere (in_output output) input)
      (sym (
        ap (λ best. last_output input best output) (sym (last_where_never input))
        ∙ last_output_lem input output (λ item. false)
        ∙ last_where-ext _ _ input (λ item. or_false (in_output output item))))
      (last_where-LastWhere (in_output output) input)

-- What `trimAfterRecordedOutput` may find.
pub data Trimmed (input output : List InputItem) : Option ℕ → Type 0 where
  not_back : all (λ item. not (in_output output item)) input ≡ true → Trimmed input output none
  after :
      (i : ℕ) (item : InputItem)
      → get_elem? input i ≡ some item
      → in_output output item ≡ true
      → all (λ later. not (in_output output later)) (drop (suc i) input) ≡ true
      → Trimmed input output (some (i + 1))

-- `trimAfterRecordedOutput` cuts right behind the last item of the input that is one of the recorded
-- output, so that none of these is sent again; it finds nothing exactly if none came back.
pub trim_after_recorded_output-Trimmed :
    (input output : List InputItem) → Trimmed input output (trim_after_recorded_output input output)
unfolding trim_after_recorded_output
trim_after_recorded_output-Trimmed input output =
    cut (last_output input none output) (last_output-LastWhere input output)
  where
    cut :
        (o : Option ℕ)
        → LastWhere (in_output output) input o
        → Trimmed input output (elim o [ none ↦ none | some i ↦ some (i + 1) ])
    cut _ (LastWhere.absent h) = Trimmed.not_back h
    cut _ (LastWhere.found i x got here rest) = Trimmed.after i x got here rest
