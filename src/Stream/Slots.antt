-- ===== src/Stream/Slots.antt =====
-- The indices of the blocks: what a client's statuses say of the reducer's tool states.
use claudodex.Common.{
  ℕ, zero, suc, ◌≤◌, ◌<◌, ◌≡◌, refl, sym, ap, ◌∙◌, ◌≢◌, ◌⊎◌, inl, inr, Bool, true, false, some,
  List, [], ◌∷◌, ◌++◌, length, set, get_elem?, get_elem?-set_self, get_elem?-set_ne, arith,
  Bool-cases, nat_eq, nat_eq_iff,
}
use claudodex.Common.Int.{ℤ, pos, negsuc}
use claudodex.Stream.{ToolState}
use claudodex.Stream.Tools.{new_tool}
use claudodex.Stream.Client.{Status, fresh, open_tool, closed_tool, update, update-other}

abbrev pub IsTool : Status → Type 0
IsTool s = (s ≡ open_tool) ⊎ (s ≡ closed_tool)

-- A tool state without an index; one that holds an index which the client has not seen; one whose
-- block was shown. Where nothing is buffered an active state was shown.
pub data ToolOk (buffer : Bool) (n : ℕ) (status : ℤ → Status) (t : ToolState) : Type 0 where
  idle :
      t.block_index ≡ negsuc 0 → t.active ≡ false → t.sent_start ≡ false → ToolOk buffer n status t
  held :
      (i : ℕ)
      → t.block_index ≡ pos i
      → i < n
      → t.sent_start ≡ false
      → (buffer ≡ false → t.active ≡ false)
      → status (pos i) ≡ fresh
      → ToolOk buffer n status t
  shown :
      (i : ℕ)
      → t.block_index ≡ pos i
      → i < n
      → t.sent_start ≡ true
      → IsTool (status (pos i))
      → ToolOk buffer n status t

pub record Slots (buffer : Bool) (n : ℕ) (status : ℤ → Status) (tools : List ToolState)
    : Type 0 where
  pub unused : (m : ℕ) → n ≤ m → status (pos m) ≡ fresh
  pub each : (k : ℕ) (t : ToolState) → get_elem? tools k ≡ some t → ToolOk buffer n status t
  pub apart :
      (k l : ℕ) (t u : ToolState) (i : ℕ)
      → get_elem? tools k ≡ some t
      → get_elem? tools l ≡ some u
      → t.block_index ≡ pos i
      → u.block_index ≡ pos i
      → k ≡ l

-- Statuses that differ at the index `i` at most.
abbrev pub AgreeOff : ℕ → (ℤ → Status) → (ℤ → Status) → Type 0
AgreeOff i status status' = (j : ℕ) → i ≢ j → status' (pos j) ≡ status (pos j)

pub update-AgreeOff :
    (i : ℕ) (status : ℤ → Status) (s : Status) → AgreeOff i status (update status (pos i) s)
update-AgreeOff i status s j ne = ground arith

below :
    (buffer : Bool) (n : ℕ) (status : ℤ → Status) (t : ToolState) (i : ℕ)
    → ToolOk buffer n status t
    → t.block_index ≡ pos i
    → i < n
below buffer n status t i (ToolOk.idle a b d) e = ground arith
below buffer n status t i (ToolOk.held j a lt u k f) e = ground arith
below buffer n status t i (ToolOk.shown j a lt u w) e = ground arith

-- A state whose own index is not the one that changes.
ToolOk-AgreeOff :
    (buffer : Bool) (n m i : ℕ) (status status' : ℤ → Status) (t : ToolState)
    → n ≤ m
    → t.block_index ≢ pos i
    → AgreeOff i status status'
    → ToolOk buffer n status t
    → ToolOk buffer m status' t
ToolOk-AgreeOff buffer n m i status status' t le ne ag (ToolOk.idle a b d) = ToolOk.idle a b d
ToolOk-AgreeOff buffer n m i status status' t le ne ag (ToolOk.held j a lt u h f) =
    ToolOk.held j a (omega arith) u h (ag j (λ e. ne (a ∙ ap pos (sym e))) ∙ f)
ToolOk-AgreeOff buffer n m i status status' t le ne ag (ToolOk.shown j a lt u w) =
    ToolOk.shown j a (omega arith) u (rw (ag j (λ e. ne (a ∙ ap pos (sym e)))) w)

-- The next index goes to a block that is not a tool's.
pub Slots-take :
    (buffer : Bool) (n : ℕ) (status status' : ℤ → Status) (tools : List ToolState)
    → AgreeOff n status status'
    → Slots buffer n status tools
    → Slots buffer (suc n) status' tools
Slots-take buffer n status status' tools ag h = record {
  unused = λ m le. ag m (λ e. absurd (omega (arith, e))) ∙ h.unused m (omega arith);
  each = λ k t there.
      ToolOk-AgreeOff buffer n (suc n) n status status' t (omega arith)
        (λ e. absurd (omega (arith, below buffer n status t n (h.each k t there) e))) ag
        (h.each k t there);
  apart = h.apart;
}

abbrev Differs : ℕ → ℕ → Type 0
Differs k l = (k ≡ l) ⊎ (k ≢ l)

same_or_not : (k l : ℕ) → Differs k l
same_or_not k l = elim (Bool-cases (nat_eq k l)) [
  | inl e ↦ inl ((nat_eq_iff k l).0 e)
  | inr e ↦ inr (λ h. ground (arith, (nat_eq_iff k l).1 h))
]

pub exists_below :
    (tools : List ToolState) (k : ℕ) (t : ToolState) → get_elem? tools k ≡ some t → k < length tools
exists_below [] k t h = ground arith
exists_below (x ∷ xs) zero t h = omega arith
exists_below (x ∷ xs) (suc k) t h = omega (arith, exists_below xs k t h)

-- What stands in the list after a write.
pub set_cases :
    (tools : List ToolState) (k l : ℕ) (t t' u : ToolState)
    → get_elem? tools k ≡ some t
    → get_elem? (set tools k t') l ≡ some u
    → (k ≡ l × t' ≡ u) ⊎ (k ≢ l × get_elem? tools l ≡ some u)
set_cases tools k l t t' u there hu = elim (same_or_not k l) [
  | inl e ↦ inl (
    e,
    ground (
      arith,
      get_elem?-set_self tools k t' (exists_below tools k t there),
      ap (get_elem? (set tools k t')) e ∙ hu,
    ),
  )
  | inr ne ↦ inr (ne, sym (get_elem?-set_ne tools k l t' ne) ∙ hu)
]

-- No other state has the index that changes: it is the state's own, or it is new.
others :
    (buffer : Bool) (n : ℕ) (status : ℤ → Status) (tools : List ToolState) (k l i : ℕ)
    (t u : ToolState)
    → Slots buffer n status tools
    → get_elem? tools k ≡ some t
    → get_elem? tools l ≡ some u
    → (t.block_index ≡ pos i) ⊎ (n ≤ i)
    → k ≢ l
    → u.block_index ≢ pos i
others buffer n status tools k l i t u h ht hu (inl own) ne e = ne (h.apart k l t u i ht hu own e)
others buffer n status tools k l i t u h ht hu (inr new) ne e =
    absurd (omega (arith, below buffer n status u i (h.each l u hu) e))

-- The state at `k` gets the index `i`, or keeps it; statuses change there at most.
module _ (buffer : Bool) (n m i : ℕ) (status status' : ℤ → Status) (tools : List ToolState) (k : ℕ)
    (t t' : ToolState) (h : Slots buffer n status tools) (there : get_elem? tools k ≡ some t)
    (at : t'.block_index ≡ pos i) (le : n ≤ m) (lt : i < m)
    (mine : (t.block_index ≡ pos i) ⊎ (n ≤ i)) (ag : AgreeOff i status status')
    (ok : ToolOk buffer m status' t') where
  pub Slots-put : Slots buffer m status' (set tools k t')
  Slots-put = record {
    unused = λ j ge. ag j (λ e. absurd (omega (arith, e))) ∙ h.unused j (omega arith);
    each = λ l u hu. elim (set_cases tools k l t t' u there hu) [
      | inl (e, e') ↦ rw (sym e') ok
      | inr (ne, hu') ↦
          ToolOk-AgreeOff buffer n m i status status' u le
            (others buffer n status tools k l i t u h there hu' mine ne) ag (h.each l u hu')
    ];
    apart = λ a b u v j hu hv eu ev. elim (set_cases tools k a t t' u there hu) [
      | inl (e, e') ↦ elim (set_cases tools k b t t' v there hv) [
        | inl (f, f') ↦ sym e ∙ f
        | inr (ne, hv') ↦ absurd (
            others buffer n status tools k b i t v h there hv' mine ne
              (ev ∙ sym eu ∙ ap (λ (x : ToolState). x.block_index) (sym e') ∙ at))
      ]
      | inr (ne, hu') ↦ elim (set_cases tools k b t t' v there hv) [
        | inl (f, f') ↦ absurd (
            others buffer n status tools k a i t u h there hu' mine ne
              (eu ∙ sym ev ∙ ap (λ (x : ToolState). x.block_index) (sym f') ∙ at))
        | inr (ne', hv') ↦ h.apart a b u v j hu' hv' eu ev
      ]
    ];
  }

-- A change of the state at `k` that keeps its index.
pub Slots-change :
    (buffer : Bool) (n : ℕ) (status : ℤ → Status) (tools : List ToolState) (k : ℕ)
    (t t' : ToolState)
    → Slots buffer n status tools
    → get_elem? tools k ≡ some t
    → t'.block_index ≡ t.block_index
    → ToolOk buffer n status t'
    → Slots buffer n status (set tools k t')
Slots-change buffer n status tools k t t' h there keeps ok = record {
  unused = h.unused;
  each = λ l u hu. elim (set_cases tools k l t t' u there hu) [
    | inl (e, e') ↦ rw (sym e') ok
    | inr (ne, hu') ↦ h.each l u hu'
  ];
  apart = λ a b u v j hu hv eu ev.
      let p = was a u hu in
      let q = was b v hv in h.apart a b p.0 q.0 j p.1 q.1 (p.2 ∙ eu) (q.2 ∙ ev);
}
  where
    was :
        (l : ℕ) (u : ToolState)
        → get_elem? (set tools k t') l ≡ some u
        → (v : ToolState) × (get_elem? tools l ≡ some v) × (v.block_index ≡ u.block_index)
    was l u hu = elim (set_cases tools k l t t' u there hu) [
      | inl (e, e') ↦ (
        t,
        ap (get_elem? tools) (sym e) ∙ there,
        sym keeps ∙ ap (λ (x : ToolState). x.block_index) e',
      )
      | inr (ne, hu') ↦ (u, hu', refl)
    ]

get_elem?-append_one :
    (tools : List ToolState) (t u : ToolState) (l : ℕ)
    → get_elem? (tools ++ (t ∷ [])) l ≡ some u
    → (get_elem? tools l ≡ some u) ⊎ (t ≡ u)
get_elem?-append_one [] t u zero h = inr (ground (arith, h))
get_elem?-append_one [] t u (suc l) h = ground (arith, h)
get_elem?-append_one (x ∷ xs) t u zero h = inl h
get_elem?-append_one (x ∷ xs) t u (suc l) h = get_elem?-append_one xs t u l h

-- A new state, which has no index yet.
pub Slots-add :
    (buffer : Bool) (n : ℕ) (status : ℤ → Status) (tools : List ToolState) (output_index : ℤ)
    → Slots buffer n status tools
    → Slots buffer n status (tools ++ (new_tool output_index ∷ []))
Slots-add buffer n status tools output_index h = record {
  unused = h.unused;
  each = λ l u hu. elim (get_elem?-append_one tools (new_tool output_index) u l hu) [
    | inl hu' ↦ h.each l u hu'
    | inr e ↦ rw (sym e) (ToolOk.idle refl refl refl)
  ];
  apart = λ a b u v j hu hv eu ev. h.apart a b u v j (old a u j hu eu) (old b v j hv ev) eu ev;
}
  where
    old :
        (l : ℕ) (u : ToolState) (j : ℕ)
        → get_elem? (tools ++ (new_tool output_index ∷ [])) l ≡ some u
        → u.block_index ≡ pos j
        → get_elem? tools l ≡ some u
    old l u j hu e = elim (get_elem?-append_one tools (new_tool output_index) u l hu) [
      | inl hu' ↦ hu'
      | inr new ↦ ground (arith, e, ap (λ (x : ToolState). x.block_index) new)
    ]

ToolOk-close :
    (buffer : Bool) (n : ℕ) (status : ℤ → Status) (t : ToolState) (z : ℤ) (a s : Status)
    → status z ≡ a
    → (a ≢ fresh) × (a ≢ open_tool) × (a ≢ closed_tool)
    → ToolOk buffer n status t
    → ToolOk buffer n (update status z s) t
ToolOk-close buffer n status t z a s at ne (ToolOk.idle e b d) = ToolOk.idle e b d
ToolOk-close buffer n status t z a s at ne (ToolOk.held i e lt d b f) =
    ToolOk.held i e lt d b (update-other status z (pos i) s a fresh at f ne.0)
ToolOk-close buffer n status t z a s at ne (ToolOk.shown i e lt d (inl o)) =
    ToolOk.shown i e lt d (inl (update-other status z (pos i) s a open_tool at o ne.1))
ToolOk-close buffer n status t z a s at ne (ToolOk.shown i e lt d (inr o)) =
    ToolOk.shown i e lt d (inr (update-other status z (pos i) s a closed_tool at o ne.2))

-- A block that is not a tool's changes its status.
pub Slots-close :
    (buffer : Bool) (n : ℕ) (status : ℤ → Status) (tools : List ToolState) (z : ℤ) (a s : Status)
    → status z ≡ a
    → (a ≢ fresh) × (a ≢ open_tool) × (a ≢ closed_tool)
    → Slots buffer n status tools
    → Slots buffer n (update status z s) tools
Slots-close buffer n status tools z a s at ne h = record {
  unused = λ m le. update-other status z (pos m) s a fresh at (h.unused m le) ne.0;
  each = λ k t there. ToolOk-close buffer n status t z a s at ne (h.each k t there);
  apart = h.apart;
}
