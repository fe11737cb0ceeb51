-- ===== src/Chain/Trace/Order.antt =====
-- `outputInOrder` gives the items of the output and no others.
use mathlib.Core.List.{Memᴰ}
use mathlib.Core.List.Memᴰ
use mathlib.Core.Path.{subst}
use claudodex.Common.{
  ℕ, zero, suc, ◌+◌, ◌≡◌, refl, ap, ◌∙◌, Bool, true, false, inl, inr, Bool-cases, Option-cases,
  some, List, [], ◌∷◌, ◌++◌, get_elem?, any, nat_eq, nat_eq_iff, arith,
}
use claudodex.Codex.{InputItem}
use claudodex.Chain.Trace.{ResponseTrace, items_at, others_from, positions, output_in_order}

mem_of_get_elem? :
    (output : List InputItem) (i : ℕ) (x : InputItem) → get_elem? output i ≡ some x → Memᴰ x output
mem_of_get_elem? [] i x h = ground (arith, h)
mem_of_get_elem? (y ∷ output) zero x h = Memᴰ.head (ground (arith, h))
mem_of_get_elem? (y ∷ output) (suc i) x h = Memᴰ.tail (mem_of_get_elem? output i x h)

abbrev leads_to : List ℕ → ℕ → Bool
leads_to used i = any (λ (u : ℕ). nat_eq u i) used

mem-items_at :
    (output : List InputItem) (is : List ℕ) (i : ℕ) (x : InputItem)
    → get_elem? output i ≡ some x
    → leads_to is i ≡ true
    → Memᴰ x (items_at output is)
unfolding items_at
mem-items_at output [] i x got h = ground (arith, h)
mem-items_at output (j ∷ is) i x got h = elim (Bool-cases (nat_eq j i)) [
  | inl e ↦
      let here : get_elem? output j ≡ some x = ap (get_elem? output) ((nat_eq_iff j i).0 e) ∙ got in
      rw (here, items_at) (Memᴰ.head refl)
  | inr e ↦
      let below = mem-items_at output is i x got (ground (arith, h, e)) in
      elim (Option-cases (get_elem? output j)) [
        | inl gone ↦ rw (gone, items_at) below
        | inr (y, there) ↦ rw (there, items_at) (Memᴰ.tail below)
      ]
]

items_at-mem :
    (output : List InputItem) (is : List ℕ) (x : InputItem)
    → Memᴰ x (items_at output is)
    → Memᴰ x output
unfolding items_at
items_at-mem output [] x h = absurd (Memᴰ.not-nil h)
items_at-mem output (j ∷ is) x h = elim (Option-cases (get_elem? output j)) [
  | inl gone ↦ items_at-mem output is x (rw (gone, items_at) at h)
  | inr (y, there) ↦ elim (Memᴰ.cases_cons (rw (there, items_at) at h)) [
    | inl same ↦ Memᴰ.cast same (mem_of_get_elem? output j y there)
    | inr below ↦ items_at-mem output is x below
  ]
]

mem-others_from :
    (used : List ℕ) (k : ℕ) (output : List InputItem) (i : ℕ) (x : InputItem)
    → get_elem? output i ≡ some x
    → leads_to used (i + k) ≡ false
    → Memᴰ x (others_from used k output)
unfolding others_from
mem-others_from used k [] i x got h = ground (arith, got)
mem-others_from used k (y ∷ output) zero x got h =
    let unused : leads_to used k ≡ false = subst (λ n. leads_to used n ≡ false) (omega arith) h in
    rw unused (Memᴰ.head (ground (arith, got)))
mem-others_from used k (y ∷ output) (suc i) x got h =
    let below =
      mem-others_from used (suc k) output i x got
        (subst (λ n. leads_to used n ≡ false) (omega arith) h) in
    elim (Bool-cases (leads_to used k)) [ inl e ↦ rw e below | inr e ↦ rw e (Memᴰ.tail below) ]

others_from-mem :
    (used : List ℕ) (k : ℕ) (output : List InputItem) (x : InputItem)
    → Memᴰ x (others_from used k output)
    → Memᴰ x output
unfolding others_from
others_from-mem used k [] x h = h
others_from-mem used k (y ∷ output) x h = elim (Bool-cases (leads_to used k)) [
  | inl e ↦ Memᴰ.tail (others_from-mem used (suc k) output x (rw (e, others_from) at h))
  | inr e ↦ elim (Memᴰ.cases_cons (rw (e, others_from) at h)) [
    | inl same ↦ Memᴰ.head same
    | inr below ↦ Memᴰ.tail (others_from-mem used (suc k) output x below)
  ]
]

-- `outputInOrder` loses no item of the output, and every item that it gives is one of the output.
pub output_in_order-mem :
    (t : ResponseTrace)
    → ((i : ℕ) (x : InputItem) → get_elem? t.output i ≡ some x → Memᴰ x (output_in_order t))
      × ((x : InputItem) → Memᴰ x (output_in_order t) → Memᴰ x t.output)
unfolding output_in_order
output_in_order-mem t = (
  kept,
  λ x h. elim (Memᴰ.append_cases (items_at t.output (positions t)) h) [
    | inl m ↦ items_at-mem t.output (positions t) x m
    | inr m ↦ others_from-mem (positions t) 0 t.output x m
  ],
)
  where
    kept :
        (i : ℕ) (x : InputItem)
        → get_elem? t.output i ≡ some x
        → Memᴰ x (items_at t.output (positions t) ++ others_from (positions t) 0 t.output)
    kept i x got = elim (Bool-cases (leads_to (positions t) i)) [
      | inl e ↦
          Memᴰ.append_left (others_from (positions t) 0 t.output)
            (mem-items_at t.output (positions t) i x got e)
      | inr e ↦ Memᴰ.append_right (items_at t.output (positions t)) (
          mem-others_from (positions t) 0 t.output i x got
            (subst (λ n. leads_to (positions t) n ≡ false) (omega arith) e))
    ]
