-- ===== src/Effort/Select.antt =====
-- The loop that selects a level: what it returns among levels in increasing order.
use mathlib.Core.List.{Memᴰ}
use mathlib.Core.Path.{subst}
use claudodex.Common.{
  ℕ, ◌≤◌, String, ◌≡◌, refl, sym, ◌⊎◌, inl, inr, Bool, true, false, ◌||◌, not, Bool-cases, List, [],
  ◌∷◌, all, leb, arith, string_key,
}
use claudodex.Effort.{
  Effort, order, ordinary_efforts, seen, seen_of, ordinary_reasoning_levels, select_level,
}

-- Levels in increasing order, none below `n`.
abbrev pub Ascending : ℕ → List Effort → Type 0
Ascending n [] = Unit {0}
Ascending n (l ∷ ls) = (n ≤ order l) × Ascending (order l) ls

Ascending-le : (m n : ℕ) (ls : List Effort) → m ≤ n → Ascending n ls → Ascending m ls
Ascending-le m n [] le h = tt
Ascending-le m n (l ∷ ls) le h = (omega (arith, le, h.0), h.1)

seen_of-Ascending :
    (supported : List String) (n : ℕ) (ls : List Effort)
    → Ascending n ls
    → Ascending n (seen_of supported ls)
unfolding seen_of
seen_of-Ascending supported n [] h = tt
seen_of-Ascending supported n (l ∷ ls) h = elim (Bool-cases (seen supported l)) [
  | inl e ↦ rw e (h.0, seen_of-Ascending supported (order l) ls h.1)
  | inr e ↦ rw e (Ascending-le n (order l) _ h.0 (seen_of-Ascending supported (order l) ls h.1))
]

pub levels-Ascending : (supported : List String) → Ascending 0 (ordinary_reasoning_levels supported)
unfolding ordinary_reasoning_levels order
levels-Ascending supported = seen_of-Ascending supported 0 ordinary_efforts (
  omega arith,
  (omega arith, (omega arith, (omega arith, (omega arith, (omega arith, (omega arith, tt)))))),
)

-- Every level that is not above the request is not above `e` either.
abbrev pub covers : (requested e : Effort) → List Effort → Bool
covers requested e levels =
    all (λ (x : Effort). not (leb (order x) (order requested)) || leb (order x) (order e)) levels

covers-cons :
    (q e l : Effort) (ls : List Effort)
    → (order l ≤ order q → order l ≤ order e)
    → covers q e ls ≡ true
    → covers q e (l ∷ ls) ≡ true
covers-cons q e l ls f h = ground (arith, f, h)

abbrev Best : (sel q : Effort) → List Effort → Effort → Type 0
Best sel q ls e = (order sel ≤ order e) × (covers q e ls ≡ true) × ((e ≡ sel) ⊎ (order e ≤ order q))

within : (l q e : Effort) → order l ≤ order q → (e ≡ l) ⊎ (order e ≤ order q) → order e ≤ order q
within l q e le (inl same) = rw same le
within l q e le (inr h) = h

select_in :
    (sel q l : Effort) (ls : List Effort)
    → leb (order l) (order q) ≡ true
    → select_level sel q (l ∷ ls) ≡ select_level l q ls
unfolding select_level
select_in sel q l ls e = rw e refl

select_out :
    (sel q l : Effort) (ls : List Effort)
    → leb (order l) (order q) ≡ false
    → select_level sel q (l ∷ ls) ≡ select_level sel q ls
unfolding select_level
select_out sel q l ls e = rw e refl

-- The loop goes up, covers what it passes, and leaves its start only for a level within the request.
select_level-Best :
    (sel q : Effort) (ls : List Effort)
    → Ascending (order sel) ls
    → Best sel q ls (select_level sel q ls)
unfolding select_level
select_level-Best sel q [] h = (omega arith, refl, inl refl)
select_level-Best sel q (l ∷ ls) h = elim (Bool-cases (leb (order l) (order q))) [
  | inl e ↦
      let ih = select_level-Best l q ls h.1 in
      subst (Best sel q (l ∷ ls)) (sym (select_in sel q l ls e)) (
        omega (arith, ih.0, h.0),
        covers-cons q (select_level l q ls) l ls (λ le. ih.0) ih.1,
        inr (within l q (select_level l q ls) (ground (arith, e)) ih.2),
      )
  | inr e ↦
      let ih = select_level-Best sel q ls (Ascending-le (order sel) (order l) ls h.0 h.1) in
      subst (Best sel q (l ∷ ls)) (sym (select_out sel q l ls e)) (
        ih.0,
        covers-cons q (select_level sel q ls) l ls (λ le. absurd (ground (arith, e, le))) ih.1,
        ih.2,
      )
]

-- What the loop returns is its start or one of the levels.
pub select_level-seen :
    (supported : List String) (sel q : Effort) (ls : List Effort)
    → seen supported sel ≡ true
    → all (seen supported) ls ≡ true
    → seen supported (select_level sel q ls) ≡ true
unfolding select_level
select_level-seen supported sel q [] h k = h
select_level-seen supported sel q (l ∷ ls) h k = elim (Bool-cases (leb (order l) (order q))) [
  | inl e ↦ rw e (select_level-seen supported l q ls (ground (arith, k)) (ground (arith, k)))
  | inr e ↦ rw e (select_level-seen supported sel q ls h (ground (arith, k)))
]

pub seen_of-seen :
    (supported : List String) (ls : List Effort)
    → all (seen supported) (seen_of supported ls) ≡ true
unfolding seen_of
seen_of-seen supported [] = refl
seen_of-seen supported (l ∷ ls) = elim (Bool-cases (seen supported l)) [
  | inl e ↦ rw e (rw e (seen_of-seen supported ls))
  | inr e ↦ rw e (seen_of-seen supported ls)
]

-- No level is below `e`.
abbrev pub least : Effort → List Effort → Bool
least e levels = all (λ (x : Effort). leb (order e) (order x)) levels

Ascending-least : (e : Effort) (ls : List Effort) → Ascending (order e) ls → least e ls ≡ true
Ascending-least e [] h = refl
Ascending-least e (l ∷ ls) h =
    ground (arith, Ascending-least e ls (Ascending-le (order e) (order l) ls h.0 h.1), h.0)

-- The selected level is the first or one of those that the loop sees.
select_level-mem :
    (sel q : Effort) (ls all_levels : List Effort)
    → Memᴰ sel all_levels
    → ((x : Effort) → Memᴰ x ls → Memᴰ x all_levels)
    → Memᴰ (select_level sel q ls) all_levels
unfolding select_level
select_level-mem sel q [] all_levels h sub = h
select_level-mem sel q (l ∷ ls) all_levels h sub = elim (Bool-cases (leb (order l) (order q))) [
  | inl e ↦
      rw e
        (select_level-mem l q ls all_levels (sub l (Memᴰ.head refl)) (λ x m. sub x (Memᴰ.tail m)))
  | inr e ↦ rw e (select_level-mem sel q ls all_levels h (λ x m. sub x (Memᴰ.tail m)))
]

-- The greatest of the levels within the request, or the least of them.
abbrev pub Nearest : (requested : Effort) → List Effort → Effort → Type 0
Nearest q levels e =
    Memᴰ e levels × (covers q e levels ≡ true) × ((order e ≤ order q) ⊎ (least e levels ≡ true))

pub select_level-Nearest :
    (q l : Effort) (ls : List Effort)
    → Ascending 0 (l ∷ ls)
    → Nearest q (l ∷ ls) (select_level l q (l ∷ ls))
select_level-Nearest q l ls up =
    let best = select_level-Best l q (l ∷ ls) (omega arith, up.1) in
    (
      select_level-mem l q (l ∷ ls) (l ∷ ls) (Memᴰ.head refl) (λ x h. h),
      best.1,
      reached (select_level l q (l ∷ ls)) best.2,
    )
  where
    reached :
        (e : Effort)
        → (e ≡ l) ⊎ (order e ≤ order q)
        → (order e ≤ order q) ⊎ (least e (l ∷ ls) ≡ true)
    reached e (inr h) = inl h
    reached e (inl same) = inr (
        subst (λ (x : Effort). least x (l ∷ ls) ≡ true) (sym same)
          (Ascending-least l (l ∷ ls) (omega arith, up.1)))
