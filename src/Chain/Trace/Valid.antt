-- ===== src/Chain/Trace/Valid.antt =====
-- The maps of a trace lead to items of its output, whatever events it sees.
use claudodex.Common.{
  ℕ, ◌+◌, ◌<◌, ◌≤◌, String, ◌≡◌, refl, sym, ◌∙◌, Bool, true, false, ◌||◌, inl, inr, Bool-cases,
  Option, none, some, List, [], ◌∷◌, length, get_elem?, set, length-append, length-set, arith, ◌==◌,
  string_key, int_key, if◌then◌else◌,
}
use claudodex.Common.Int.{ℤ, pos, ◌+ℤ◌}
use claudodex.Common.Dict.{Dict, lookup, insert, lookup-insert}
use claudodex.Common.{Key}
use claudodex.Codex.{InputItem}
use claudodex.Chain.{is_blank}
use claudodex.Chain.Trace.{
  ResponseTrace, empty_trace, Decoder, index_in_range, merge_into, merge_at, note_call, merge_known,
  merge_call, append_item, upsert_call, call_position, index_position, upsert_indexed,
  upsert_output_item, fill_arguments, fill_at, note_arguments, observe_function_call_arguments,
  with_arguments, add_done, observe_output_item_done, note_id, note_created, upsert_all,
  note_completed, observe,
}

module _ {ℓ} {K : Type ℓ} ⦃key : Key K⦄ where
  -- Every value of a map is below `n`.
  abbrev pub Below : ℕ → Dict K ℕ → Type ℓ
  Below n m = (k : K) (i : ℕ) → lookup k m ≡ some i → i < n

  Below-insert : (n : ℕ) (k : K) (i : ℕ) (m : Dict K ℕ) → i < n → Below n m → Below n (insert k i m)
  Below-insert n k i m h below asked j got =
      either (k == asked) (sym (lookup-insert k asked i m) ∙ got)
    where
      either : (b : Bool) → (if b then some i else lookup asked m) ≡ some j → j < n
      either true e = ground (arith, e, h)
      either false e = below asked j e

  Below-le : (n n' : ℕ) (m : Dict K ℕ) → n ≤ n' → Below n m → Below n' m
  Below-le n n' m h below k i got = omega (arith, below k i got)

pub record IsValid (t : ResponseTrace) : Type 0 where
  pub indexed : Below (length t.output) t.item_by_index
  pub called : Below (length t.output) t.item_by_call_id

pub empty_trace-IsValid : IsValid empty_trace
unfolding lookup
empty_trace-IsValid = record {
  indexed = λ k i h. ground (arith, h);
  called = λ k i h. ground (arith, h);
}

index_in_range-lt :
    (output : List InputItem) (o : Option ℕ) (i : ℕ)
    → index_in_range output o ≡ some i
    → i < length output
index_in_range-lt output none i h = ground (arith, h)
index_in_range-lt output (some j) i h = ground (arith, h)

length-merge_at :
    (i : ℕ) (item : InputItem) (t : ResponseTrace) → length (merge_at i item t) ≡ length t.output
length-merge_at i item t = go (get_elem? t.output i)
  where
    go : (o : Option InputItem) → length (merge_into i item t.output o) ≡ length t.output
    go none = refl
    go (some previous) = length-set t.output i _

note_call-Below :
    (n : ℕ) (call_id : String) (i : ℕ) (calls : Dict String ℕ)
    → i < n
    → Below n calls
    → Below n (note_call call_id i calls)
note_call-Below n call_id i calls h below = elim (Bool-cases (call_id == "")) [
  | inl e ↦ rw e below
  | inr e ↦ rw e (Below-insert n call_id i calls h below)
]

merge_known-IsValid :
    (i : ℕ) (item : InputItem) (t : ResponseTrace)
    → i < length t.output
    → IsValid t
    → IsValid (merge_known i item t)
merge_known-IsValid i item t h v = record {
  indexed = rw (length-merge_at i item t) v.indexed;
  called =
      rw (length-merge_at i item t)
        (note_call-Below (length t.output) item.call_id i t.item_by_call_id h v.called);
}

merge_call-IsValid :
    (output_index : ℤ) (i : ℕ) (item : InputItem) (t : ResponseTrace)
    → i < length t.output
    → IsValid t
    → IsValid (merge_call output_index i item t)
merge_call-IsValid output_index i item t h v = record {
  indexed =
      rw (length-merge_at i item t)
        (Below-insert (length t.output) output_index i t.item_by_index h v.indexed);
  called = rw (length-merge_at i item t) v.called;
}

append_item-IsValid :
    (output_index : ℤ) (item : InputItem) (t : ResponseTrace)
    → IsValid t
    → IsValid (append_item output_index item t)
append_item-IsValid output_index item t v =
    let n = length t.output in
    let longer = length-append t.output (item ∷ []) in
    record {
      indexed = rw longer (
          Below-insert (n + 1) output_index n t.item_by_index (omega arith)
            (Below-le n (n + 1) t.item_by_index (omega arith) v.indexed));
      called = rw longer (
          note_call-Below (n + 1) item.call_id n t.item_by_call_id (omega arith)
            (Below-le n (n + 1) t.item_by_call_id (omega arith) v.called));
    }

upsert_call-IsValid :
    (output_index : ℤ) (item : InputItem) (t : ResponseTrace)
    → IsValid t
    → IsValid (upsert_call output_index item t (call_position item t))
upsert_call-IsValid output_index item t v = go (call_position item t) (position_lt)
  where
    position_lt : (i : ℕ) → call_position item t ≡ some i → i < length t.output
    position_lt i h = elim (Bool-cases (item.call_id == "")) [
      | inl e ↦ ground (arith, h, e)
      | inr e ↦ index_in_range-lt t.output (lookup item.call_id t.item_by_call_id) i (rw e at h)
    ]

    go :
        (o : Option ℕ)
        → ((i : ℕ) → o ≡ some i → i < length t.output)
        → IsValid (upsert_call output_index item t o)
    go none h = append_item-IsValid output_index item t v
    go (some i) h = merge_call-IsValid output_index i item t (h i refl) v

pub upsert_output_item-IsValid :
    (output_index : ℤ) (item : InputItem) (t : ResponseTrace)
    → IsValid t
    → IsValid (upsert_output_item output_index item t)
unfolding upsert_output_item
upsert_output_item-IsValid output_index item t v =
    go (index_position output_index t)
      (index_in_range-lt t.output (lookup output_index t.item_by_index))
  where
    go :
        (o : Option ℕ)
        → ((i : ℕ) → o ≡ some i → i < length t.output)
        → IsValid (upsert_indexed output_index item t o)
    go none h = upsert_call-IsValid output_index item t v
    go (some i) h = merge_known-IsValid i item t (h i refl) v

length-fill_at :
    (arguments : String) (o : Option ℕ) (output : List InputItem)
    → length (fill_at arguments o output) ≡ length output
length-fill_at arguments none output = refl
length-fill_at arguments (some i) output = go (get_elem? output i)
  where
    if_set :
        (b : Bool) (item : InputItem)
        → length (if b then set output i item else output) ≡ length output
    if_set true item = length-set output i item
    if_set false item = refl

    go : (o : Option InputItem) → length (fill_arguments arguments i output o) ≡ length output
    go none = refl
    go (some item) = if_set (item.arguments == "") (record item { arguments = arguments })

note_arguments-IsValid :
    (o : Option (ℤ × String)) (t : ResponseTrace) → IsValid t → IsValid (note_arguments o t)
note_arguments-IsValid none t v = v
note_arguments-IsValid (some (output_index, arguments)) t v =
    let same = length-fill_at arguments (lookup output_index t.item_by_index) t.output in
    elim (Bool-cases (arguments == "")) [
      | inl e ↦ rw e v
      | inr e ↦ rw e (record { indexed = rw same v.indexed; called = rw same v.called })
    ]

add_done-IsValid :
    (o : Option (ℤ × InputItem)) (t : ResponseTrace) → IsValid t → IsValid (add_done o t)
add_done-IsValid none t v = v
add_done-IsValid (some (output_index, item)) t v = elim (Bool-cases (is_blank item.item_type)) [
  | inl e ↦ rw e v
  | inr e ↦ rw e (upsert_output_item-IsValid output_index (with_arguments output_index item t) t v)
]

note_id-IsValid : (id : String) (t : ResponseTrace) → IsValid t → IsValid (note_id id t)
note_id-IsValid id t v = elim (Bool-cases (is_blank id)) [
  | inl e ↦ rw e v
  | inr e ↦ rw e (record { indexed = v.indexed; called = v.called })
]

upsert_all-IsValid :
    (output_index : ℤ) (items : List InputItem) (t : ResponseTrace)
    → IsValid t
    → IsValid (upsert_all output_index items t)
unfolding upsert_all
upsert_all-IsValid output_index [] t v = v
upsert_all-IsValid output_index (item ∷ items) t v =
    upsert_all-IsValid (output_index +ℤ pos 1) items (upsert_output_item output_index item t)
      (upsert_output_item-IsValid output_index item t v)

note_created-IsValid :
    (o : Option String) (t : ResponseTrace) → IsValid t → IsValid (note_created o t)
note_created-IsValid none t v = v
note_created-IsValid (some id) t v = note_id-IsValid id t v

note_completed-IsValid :
    (o : Option (String × List InputItem)) (t : ResponseTrace)
    → IsValid t
    → IsValid (note_completed o t)
note_completed-IsValid none t v = v
note_completed-IsValid (some (id, items)) t v =
    upsert_all-IsValid (pos 0) items (note_id id t) (note_id-IsValid id t v)

if-IsValid : (b : Bool) (t u : ResponseTrace) → IsValid t → IsValid u → IsValid (if b then t else u)
if-IsValid true t u v w = v
if-IsValid false t u v w = w

-- Whatever event a trace observes, well-formed or not, its maps go on leading to items of its output
-- only.
pub observe-IsValid :
    (decoder : Decoder) (event payload : String) (t : ResponseTrace)
    → IsValid t
    → IsValid (observe decoder event payload t)
unfolding observe observe_function_call_arguments observe_output_item_done
observe-IsValid decoder event payload t v =
    if-IsValid (event == "response.created") _ _
      (note_created-IsValid (decoder.created payload) t v)
      (if-IsValid (event == "response.function_call_arguments.done") _ _
        (note_arguments-IsValid (decoder.arguments_done payload) t v)
        (if-IsValid (event == "response.output_item.done") _ _
          (add_done-IsValid (decoder.item_done payload) t v)
          (if-IsValid (event == "response.completed" || event == "response.done") _ _
            (note_completed-IsValid (decoder.completed payload) t v) v)))
