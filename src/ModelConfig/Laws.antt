-- ===== src/ModelConfig/Laws.antt =====
-- What stripping, normalizing and mapping model names guarantees.
use Prim.Native.String.{[], ◌∷◌}
use claudodex.Common.{
  ℕ, zero, suc, ◌<◌, String, ◌≡◌, refl, sym, ap, ◌∙◌, ◌≢◌, ◌⊎◌, inl, inr, Bool, true, false, arith,
  eq_iff, Bool-cases, Option-cases, Option, none, some, ◌==◌, string_key, if◌then◌else◌,
}
use claudodex.Common.Text.{trim_space, to_lower, has_prefix, has_suffix, drop_last, size}
use claudodex.Common.Text.Trim.{size-trim_space, trim_space-trim_space, size-drop_last}
use claudodex.ModelConfig.Stripped.{Kept, Kept-refl, Kept-trans, trim_space-Kept, drop_last-Kept}
use claudodex.ModelConfig.{
  Family, opus, sonnet, haiku, fable, Config, strip_loop, strip_long_context, or_default, normalize,
  field_of, target, normalize_model_name, map_normalized, map_family, map_model,
  long_context_suffix, family_for_model, default_claude_request_model, default_opus_model,
  default_sonnet_model, default_haiku_model, default_fable_model, default,
}

abbrev pub IsStripped : String → Type 0
IsStripped model =
    (trim_space model ≡ model) × (has_suffix (to_lower model) long_context_suffix ≡ false)

suffix-nonempty :
    (model : String) → has_suffix (to_lower model) long_context_suffix ≡ true → 0 < size model
unfolding has_suffix to_lower size
suffix-nonempty [] h = cc
suffix-nonempty (c ∷ s) h = omega arith

strip_loop-IsStripped :
    (fuel : ℕ) (model : String)
    → size model < fuel
    → trim_space model ≡ model
    → IsStripped (strip_loop fuel model)
unfolding strip_loop
strip_loop-IsStripped zero model h t = absurd (omega arith)
strip_loop-IsStripped (suc fuel) model h t =
    elim (Bool-cases (has_suffix (to_lower model) long_context_suffix)) [
      | inl e ↦ rw e (
          strip_loop-IsStripped fuel (trim_space (drop_last 4 model))
            (omega (
              arith,
              size-trim_space (drop_last 4 model),
              size-drop_last 4 model,
              suffix-nonempty model e,
            ))
            (trim_space-trim_space _))
      | inr e ↦ rw e (t, e)
    ]

strip_loop-Kept : (fuel : ℕ) (model : String) → Kept model (strip_loop fuel model)
unfolding strip_loop
strip_loop-Kept zero model = Kept-refl model
strip_loop-Kept (suc fuel) model =
    elim (Bool-cases (has_suffix (to_lower model) long_context_suffix)) [
      | inr e ↦ rw e (Kept-refl model)
      | inl e ↦
          let shorter = drop_last 4 model in
          rw e (
            Kept-trans model shorter _ (drop_last-Kept model e) (
              Kept-trans shorter (trim_space shorter) _ (trim_space-Kept shorter)
                (strip_loop-Kept fuel (trim_space shorter))))
    ]

strip_long_context_ends : (model : String) → IsStripped (strip_long_context model)
unfolding strip_long_context
strip_long_context_ends model =
    strip_loop-IsStripped (suc (size (trim_space model))) (trim_space model) (omega arith)
      (trim_space-trim_space model)

-- `StripLongContext` removes every trailing [1m], in either case and however often it stands, and
-- leaves no space at either end, since its loop has enough rounds for every name; and it removes nothing
-- but spaces in front and spaces and [1m] behind.
pub strip_long_context-IsStripped :
    (model : String) → IsStripped (strip_long_context model) × Kept model (strip_long_context model)
unfolding strip_long_context
strip_long_context-IsStripped model = (
  strip_long_context_ends model,
  Kept-trans model (trim_space model) _ (trim_space-Kept model)
      (strip_loop-Kept (suc (size (trim_space model))) (trim_space model)),
)

pub strip_long_context_of_IsStripped :
    (model : String) → IsStripped model → strip_long_context model ≡ model
unfolding strip_long_context
strip_long_context_of_IsStripped model (t, h) = rw t (rw (h, strip_loop))

pub strip_long_context_idem :
    (model : String) → strip_long_context (strip_long_context model) ≡ strip_long_context model
strip_long_context_idem model =
    strip_long_context_of_IsStripped (strip_long_context model) (strip_long_context_ends model)

-- A role whose name is not just [1m] suffixes: blank, or still there when it is stripped.
abbrev pub IsNamed : String → Type 0
IsNamed model = (trim_space model ≡ "") ⊎ (strip_long_context model ≢ "")

or_default_stays : (model d : String) → IsStripped model → model ≢ "" → or_default model d ≡ model
or_default_stays model d s h = elim (Bool-cases (trim_space model == "")) [
  | inl e ↦ absurd (h (sym s.0 ∙ (eq_iff (trim_space model) "").0 e))
  | inr e ↦ rw e (strip_long_context_of_IsStripped model s)
]

or_default-nonempty :
    (model d : String) → strip_long_context d ≢ "" → IsNamed model → or_default model d ≢ ""
or_default-nonempty model d nd h = elim (Bool-cases (trim_space model == "")) [
  | inl e ↦ rw e nd
  | inr e ↦ rw e (named e h)
]
  where
    named : trim_space model == "" ≡ false → IsNamed model → strip_long_context model ≢ ""
    named e (inl blank) = cc (e, (eq_iff (trim_space model) "").1 blank)
    named e (inr h) = h

or_default_idem :
    (model d : String)
    → strip_long_context d ≢ ""
    → IsNamed model
    → or_default (or_default model d) d ≡ or_default model d
or_default_idem model d nd h =
    or_default_stays (or_default model d) d
      (strip_long_context_ends (if trim_space model == "" then d else model))
      (or_default-nonempty model d nd h)

defaults_strip :
    (strip_long_context default_opus_model ≡ default_opus_model)
    × (strip_long_context default_sonnet_model ≡ default_sonnet_model)
    × (strip_long_context default_haiku_model ≡ default_haiku_model)
    × (strip_long_context default_fable_model ≡ default_fable_model)
unfolding strip_long_context trim_space to_lower has_suffix drop_last
defaults_strip = (refl, refl, refl, refl)

nonempty_opus : strip_long_context default_opus_model ≢ ""
nonempty_opus e = ground (arith, eq_iff default_opus_model "", defaults_strip.0)

nonempty_sonnet : strip_long_context default_sonnet_model ≢ ""
nonempty_sonnet e = ground (arith, eq_iff default_sonnet_model "", defaults_strip.1)

nonempty_haiku : strip_long_context default_haiku_model ≢ ""
nonempty_haiku e = ground (arith, eq_iff default_haiku_model "", defaults_strip.2)

nonempty_fable : strip_long_context default_fable_model ≢ ""
nonempty_fable e = ground (arith, eq_iff default_fable_model "", defaults_strip.3)

abbrev pub HasNames : Config → Type 0
HasNames c = IsNamed c.opus × IsNamed c.sonnet × IsNamed c.haiku × IsNamed c.fable

-- Normalizing twice is normalizing once, if no role's name is made of [1m] suffixes alone.
pub normalize-normalize : (c : Config) → HasNames c → normalize (normalize c) ≡ normalize c
unfolding normalize strip_long_context
normalize-normalize c (o, s, h, f) = cc (
  or_default_idem c.opus default_opus_model (nonempty_opus) o,
  or_default_idem c.sonnet default_sonnet_model (nonempty_sonnet) s,
  or_default_idem c.haiku default_haiku_model (nonempty_haiku) h,
  or_default_idem c.fable default_fable_model (nonempty_fable) f,
)

default_of_blank : (d : String) → strip_long_context d ≡ d → or_default "" d ≡ d
unfolding trim_space
default_of_blank d same = same

or_default_suffix_only :
    (model d : String)
    → trim_space model ≢ ""
    → strip_long_context model ≡ ""
    → strip_long_context d ≡ d
    → (or_default model d ≡ "") × (or_default (or_default model d) d ≡ d)
or_default_suffix_only model d h e same = elim (Bool-cases (trim_space model == "")) [
  | inl b ↦ absurd (h ((eq_iff (trim_space model) "").0 b))
  | inr b ↦ (rw b e, rw b (ap (λ m. or_default m d) e ∙ default_of_blank d same))
]

-- A role that is made of [1m] suffixes alone, whichever it is, is empty after one normalization and its
-- default after two.
pub normalize_suffix_only :
    (c : Config) (f : Family)
    → trim_space (field_of c f) ≢ ""
    → strip_long_context (field_of c f) ≡ ""
    → (field_of (normalize c) f ≡ "") × (field_of (normalize (normalize c)) f ≡ field_of default f)
unfolding normalize
normalize_suffix_only c opus h e =
    or_default_suffix_only c.opus default_opus_model h e defaults_strip.0
normalize_suffix_only c sonnet h e =
    or_default_suffix_only c.sonnet default_sonnet_model h e defaults_strip.1
normalize_suffix_only c haiku h e =
    or_default_suffix_only c.haiku default_haiku_model h e defaults_strip.2
normalize_suffix_only c fable h e =
    or_default_suffix_only c.fable default_fable_model h e defaults_strip.3

-- No role of the configuration has the name.
abbrev pub Unnamed : Config → String → Type 0
Unnamed c model =
    (f : Family) → normalize_model_name model ≢ normalize_model_name (field_of (normalize c) f)

-- The ways in which `MapModel` may route a name: an exact gpt- pin, the role that has the name, the role
-- of the family that the name is known to belong to, or else the opus role.
pub data Routed (c : Config) (model result : String) : Type 0 where
  pinned :
      has_prefix (normalize_model_name model) "gpt-" ≡ true
      → result ≡ strip_long_context model
      → Routed c model result
  named :
      (f : Family)
      → has_prefix (normalize_model_name model) "gpt-" ≡ false
      → normalize_model_name model ≡ normalize_model_name (field_of (normalize c) f)
      → result ≡ field_of (normalize c) f
      → Routed c model result
  known :
      (f : Family)
      → has_prefix (normalize_model_name model) "gpt-" ≡ false
      → Unnamed c model
      → family_for_model model ≡ some f
      → result ≡ field_of (normalize c) f
      → Routed c model result
  unknown :
      has_prefix (normalize_model_name model) "gpt-" ≡ false
      → Unnamed c model
      → family_for_model model ≡ none
      → result ≡ (normalize c).opus
      → Routed c model result

none_equal :
    (n o s k f : String)
    → n == o ≡ false
    → n == s ≡ false
    → n == k ≡ false
    → n == f ≡ false
    → (n ≢ o) × (n ≢ s) × (n ≢ k) × (n ≢ f)
none_equal n o s k f a b d e = (
  λ h. ground (arith, a, (eq_iff n o).1 h),
  λ h. ground (arith, b, (eq_iff n s).1 h),
  λ h. ground (arith, d, (eq_iff n k).1 h),
  λ h. ground (arith, e, (eq_iff n f).1 h),
)

no_role-Unnamed :
    (c : Config) (model : String)
    → (normalize_model_name model ≢ normalize_model_name (normalize c).opus)
      × (normalize_model_name model ≢ normalize_model_name (normalize c).sonnet)
      × (normalize_model_name model ≢ normalize_model_name (normalize c).haiku)
      × (normalize_model_name model ≢ normalize_model_name (normalize c).fable)
    → Unnamed c model
no_role-Unnamed c model (o, s, k, f) opus = o
no_role-Unnamed c model (o, s, k, f) sonnet = s
no_role-Unnamed c model (o, s, k, f) haiku = k
no_role-Unnamed c model (o, s, k, f) fable = f

map_normalized-Routed :
    (c : Config) (model : String) → HasNames c → Routed c model (map_normalized (normalize c) model)
unfolding map_normalized target
map_normalized-Routed c model h =
    let n = normalize_model_name model in
    let d = normalize c in
    elim (Bool-cases (has_prefix n "gpt-")) [
      | inl e ↦ Routed.pinned e (rw e)
      | inr e ↦ elim (Bool-cases (n == normalize_model_name d.opus)) [
        | inl o ↦ Routed.named opus e ((eq_iff n (normalize_model_name d.opus)).0 o) (rw (e, o))
        | inr o ↦ elim (Bool-cases (n == normalize_model_name d.sonnet)) [
          | inl s ↦
              Routed.named sonnet e ((eq_iff n (normalize_model_name d.sonnet)).0 s) (rw (e, o, s))
          | inr s ↦ elim (Bool-cases (n == normalize_model_name d.haiku)) [
            | inl k ↦
                Routed.named haiku e ((eq_iff n (normalize_model_name d.haiku)).0 k)
                  (rw (e, o, s, k))
            | inr k ↦ elim (Bool-cases (n == normalize_model_name d.fable)) [
              | inl f ↦
                  Routed.named fable e ((eq_iff n (normalize_model_name d.fable)).0 f)
                    (rw (e, o, s, k, f))
              | inr f ↦
                  let none_named = no_role-Unnamed c model (none_equal n _ _ _ _ o s k f) in
                  elim (Option-cases (family_for_model model)) [
                    | inl none_known ↦
                        Routed.unknown e none_named none_known (rw (e, o, s, k, f, none_known))
                    | inr (g, found) ↦ Routed.known g e none_named found (
                        rw (e, o, s, k, f, found)
                          (ap (λ x. field_of x g) (normalize-normalize c h)))
                  ]
            ]
          ]
        ]
      ]
    ]

-- For a configuration whose roles have names `MapModel` routes every name: one that begins with gpt- to
-- itself, stripped; the name of a role to that role; any other to the role of the family that
-- `FamilyForModel` gives it, and to the opus role if it gives none. A blank name counts as the default
-- request model.
pub map_model-Routed :
    (c : Config) (model : String)
    → HasNames c
    → Routed c
        (if trim_space model == "" then default_claude_request_model else model)
        (map_model c model)
unfolding map_model
map_model-Routed c model h = map_normalized-Routed c _ h

-- Every role of a normalized configuration is stripped, and so is every name that it maps to.
role_stripped :
    (c : Config) (f : Family)
    → strip_long_context (field_of (normalize c) f) ≡ field_of (normalize c) f
unfolding normalize
role_stripped c opus = strip_long_context_idem _
role_stripped c sonnet = strip_long_context_idem _
role_stripped c haiku = strip_long_context_idem _
role_stripped c fable = strip_long_context_idem _

if_stripped :
    (b : Bool) (s t : String)
    → strip_long_context s ≡ s
    → strip_long_context t ≡ t
    → strip_long_context (if b then s else t) ≡ (if b then s else t)
if_stripped true s t h k = h
if_stripped false s t h k = k

family_stripped :
    (c : Config) (o : Option Family)
    → strip_long_context (map_family (normalize c) o) ≡ map_family (normalize c) o
unfolding target
family_stripped c none = role_stripped c opus
family_stripped c (some f) = role_stripped (normalize c) f

map_normalized_stripped :
    (c : Config) (model : String)
    → strip_long_context (map_normalized (normalize c) model) ≡ map_normalized (normalize c) model
unfolding map_normalized
map_normalized_stripped c model = if_stripped _ _ _ (strip_long_context_idem model) (
    if_stripped _ _ _ (role_stripped c opus) (
      if_stripped _ _ _ (role_stripped c sonnet) (
        if_stripped _ _ _ (role_stripped c haiku) (
          if_stripped _ _ _ (role_stripped c fable) (family_stripped c (family_for_model model))))))

pub map_model_stripped :
    (c : Config) (model : String)
    → strip_long_context (map_model (normalize c) model) ≡ map_model (normalize c) model
unfolding map_model
map_model_stripped c model = map_normalized_stripped (normalize c) _
