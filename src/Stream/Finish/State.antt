-- ===== src/Stream/Finish/State.antt =====
-- The stop of a single tool state (`stopToolState` of internal/convert/stream.go).
use mathlib.Core.List.{Memᴰ}
use mathlib.Core.Path.{subst}
use mathlib.Core.List.Memᴰ
use claudodex.Common.{
  ℕ, zero, suc, String, ◌≡◌, ◌⊎◌, refl, sym, ap, ◌∙◌, Bool, true, false, not, inl, inr, Option,
  none, some, List, [], ◌∷◌, set, get_elem?, arith, ◌==◌, string_key, if◌then◌else◌, ◌&&◌,
}
use claudodex.Common.Int.{ℤ}
use claudodex.Json.{Codec}
use claudodex.Stream.{
  Sse, ToolState, Reducer, M, ◌>>=◌, ◌>>◌, emit, content_block_stop, content_block_delta,
  input_json_delta,
}
use claudodex.Stream.Tools.{
  start_block_of, start_tool_block, send_args, send_final, stopped, stop_block_of, stop_tool_state,
  tool_args, should_buffer_tool_args,
}
use claudodex.Stream.Finish.Calm.{
  open_at, open_at_of, open_at-none, open_at-set, At, Calm, same-Calm, bind-Calm, if-Calm,
  stay-Calm,
}

open_at-set_self :
    (ts : List ToolState) (k : ℕ) (t : ToolState) → t.active ≡ false → open_at (set ts k t) k ≡ none
unfolding open_at
open_at-set_self [] k t h = refl
open_at-set_self (u ∷ ts) zero t h = rw h refl
open_at-set_self (u ∷ ts) (suc k) t h = open_at-set_self ts k t h

open_at-set_other :
    (ts : List ToolState) (k j : ℕ) (t : ToolState)
    → (j ≡ k) ⊎ (open_at (set ts k t) j ≡ open_at ts j)
unfolding open_at
open_at-set_other [] k j t = inr refl
open_at-set_other (u ∷ ts) zero zero t = inl refl
open_at-set_other (u ∷ ts) zero (suc j) t = inr refl
open_at-set_other (u ∷ ts) (suc k) zero t = inr refl
open_at-set_other (u ∷ ts) (suc k) (suc j) t = elim (open_at-set_other ts k j t) [
  | inl e ↦ inl (ap suc e)
  | inr e ↦ inr e
]

start_block-Calm : (k : ℕ) → Calm (start_tool_block k)
unfolding start_tool_block start_block_of
start_block-Calm k = record { go = λ r. go r (get_elem? r.tools k) refl }
  where
    go :
        (r : Reducer) (o : Option ToolState)
        → get_elem? r.tools k ≡ o
        → At {A = Unit {0}} r (elim o [ none ↦ (tt, [], r) | some t ↦ start_block_of k t r ])
    go r none there = stay-Calm r
    go r (some t) there =
        if-Calm t.sent_start r _ _ (stay-Calm r)
          (refl, λ j. open_at-set r.tools k j t _ there refl refl)

send_args-Calm : (k : ℕ) (args : String) → Calm (send_args k args)
unfolding send_args
send_args-Calm k args = record { go = λ r. go r (get_elem? r.tools k) refl }
  where
    go :
        (r : Reducer) (o : Option ToolState)
        → get_elem? r.tools k ≡ o
        → At {A = Unit {0}} r (elim o [
          | none ↦ (tt, [], r)
          | some t ↦ (
            tt,
            content_block_delta t.block_index (input_json_delta args) ∷ [],
            record r { tools = set r.tools k (record t { sent_args = true }) },
          )
        ])
    go r none there = stay-Calm r
    go r (some t) there = (refl, λ j. open_at-set r.tools k j t _ there refl refl)

send_final-Calm : (codec : Codec) (k : ℕ) (t : ToolState) → Calm (send_final codec k t)
send_final-Calm codec k t = record {
  go = λ r.
      if-Calm (should_buffer_tool_args r && not t.sent_args && not (tool_args codec r t == "")) r _
        _ ((send_args-Calm k (tool_args codec r t)).go r) (stay-Calm r);
}

-- The block of the state at `k` is closed: its stop was emitted, and the state is active no longer.
abbrev pub Closed : ℕ → Reducer → Unit {0} × List Sse × Reducer → Type 0
Closed k r x =
    (open_at x.2.tools k ≡ none)
    × ((b : ℤ) → open_at r.tools k ≡ some b → Memᴰ (content_block_stop b) x.1)

none-Closed :
    (k : ℕ) (r : Reducer) (x : Unit {0} × List Sse × Reducer)
    → open_at r.tools k ≡ none
    → open_at x.2.tools k ≡ none
    → Closed k r x
none-Closed k r x before after = (after, λ b on. ground (arith, before, on))

pub left-Closed :
    (k : ℕ) (m n : M (Unit {0})) (r : Reducer)
    → Closed k r (m r)
    → open_at (n (m r).2).2.tools k ≡ none
    → Closed k r ((m >> n) r)
left-Closed k m n r h after = (after, λ b on. Memᴰ.append_left (n (m r).2).1 (h.1 b on))

pub right-Closed :
    {A : Type 0} (k : ℕ) (m : M A) (f : A → M (Unit {0})) (r : Reducer)
    → open_at (m r).2.tools k ≡ open_at r.tools k
    → Closed k (m r).2 (f (m r).0 (m r).2)
    → Closed k r ((m >>= f) r)
right-Closed k m f r same h = (h.0, λ b on. Memᴰ.append_right (m r).1 (h.1 b (same ∙ on)))

active_block :
    (t : ToolState) (a : Bool) (b : ℤ)
    → (if a then some t.block_index else none) ≡ some b
    → t.block_index ≡ b
active_block t true b h = ground (arith, h)
active_block t false b h = ground (arith, h)

-- The rest of a stop, after the state has become inactive.
abbrev stop_rest : Codec → ℕ → ToolState → M (Unit {0})
stop_rest codec k t =
    start_tool_block k >> (send_final codec k t >> emit (content_block_stop t.block_index ∷ []))

stop_rest-Calm : (codec : Codec) (k : ℕ) (t : ToolState) → Calm (stop_rest codec k t)
stop_rest-Calm codec k t = bind-Calm (start_block-Calm k) (λ u.
    bind-Calm (send_final-Calm codec k t)
      (λ u. same-Calm (emit (content_block_stop t.block_index ∷ [])) (λ r. (refl, refl))))

stop_block_self :
    (codec : Codec) (k : ℕ) (t : ToolState) (r : Reducer)
    → get_elem? r.tools k ≡ some t
    → Closed k r (stop_block_of codec k t r)
unfolding stop_block_of
stop_block_self codec k t r there =
    let s = (stopped k t r).2 in
    let u = start_tool_block k s in
    (
      ((stop_rest-Calm codec k t).go s).1 k
          ∙ open_at-set_self r.tools k (record t { active = false }) refl,
      λ b on. Memᴰ.append_right u.1 (
          Memᴰ.append_right (send_final codec k t u.2).1 (
            Memᴰ.head (
              ap content_block_stop
                (sym (active_block t t.active b (sym (open_at_of r.tools k t there) ∙ on)))))),
    )

stop_block_other :
    (codec : Codec) (l k : ℕ) (t : ToolState) (r : Reducer)
    → (k ≡ l) ⊎ (open_at (stop_block_of codec l t r).2.tools k ≡ open_at r.tools k)
unfolding stop_block_of
stop_block_other codec l k t r =
    elim (open_at-set_other r.tools l k (record t { active = false })) [
      | inl e ↦ inl e
      | inr e ↦ inr (((stop_rest-Calm codec l t).go (stopped l t r).2).1 k ∙ e)
    ]

pub stop_state_self : (codec : Codec) (k : ℕ) (r : Reducer) → Closed k r (stop_tool_state codec k r)
unfolding stop_tool_state
stop_state_self codec k r = go (get_elem? r.tools k) refl
  where
    if_active :
        (t : ToolState) (a : Bool)
        → get_elem? r.tools k ≡ some t
        → t.active ≡ a
        → Closed k r (if a then stop_block_of codec k t r else (tt, [], r))
    if_active t true there on = stop_block_self codec k t r there
    if_active t false there off =
        let shut =
          open_at_of r.tools k t there ∙ ap (λ b. if b then some t.block_index else none) off in
        none-Closed k r (tt, [], r) shut shut

    go :
        (o : Option ToolState)
        → get_elem? r.tools k ≡ o
        → Closed k r (elim o [
          | none ↦ (tt, [], r)
          | some t ↦ if t.active then stop_block_of codec k t r else (tt, [], r)
        ])
    go none there = let shut = open_at-none r.tools k there in none-Closed k r (tt, [], r) shut shut
    go (some t) there = if_active t t.active there refl

stop_state_other :
    (codec : Codec) (l k : ℕ) (r : Reducer)
    → (k ≡ l) ⊎ (open_at (stop_tool_state codec l r).2.tools k ≡ open_at r.tools k)
unfolding stop_tool_state
stop_state_other codec l k r = go (get_elem? r.tools l)
  where
    if_active :
        (t : ToolState) (a : Bool)
        → (k ≡ l)
          ⊎ (open_at (if a then stop_block_of codec l t r else (tt, [], r)).2.tools k
              ≡ open_at r.tools k)
    if_active t true = stop_block_other codec l k t r
    if_active t false = inr refl

    go :
        (o : Option ToolState)
        → (k ≡ l)
          ⊎ (open_at
                (elim o as (λ x. Unit {0} × List Sse × Reducer) [
                  | none ↦ (tt, [], r)
                  | some t ↦ if t.active then stop_block_of codec l t r else (tt, [], r)
                ]).2.tools
                k
              ≡ open_at r.tools k)
    go none = inr refl
    go (some t) = if_active t t.active

-- Stopping another state closes that of `k` or leaves it as it is.
pub stop_state_cases :
    (codec : Codec) (l k : ℕ) (r : Reducer)
    → Closed k r (stop_tool_state codec l r)
      ⊎ (open_at (stop_tool_state codec l r).2.tools k ≡ open_at r.tools k)
stop_state_cases codec l k r = elim (stop_state_other codec l k r) [
  | inl e ↦ inl (subst (λ j. Closed k r (stop_tool_state codec j r)) e (stop_state_self codec k r))
  | inr e ↦ inr e
]
