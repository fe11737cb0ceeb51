-- ===== src/Catalog/Resolve/Chosen.antt =====
-- What `Resolve` returns, role by role.
use mathlib.Core.List.{Memᴰ}
use mathlib.Core.Path.{subst}
use claudodex.Common.{
  String, ◌≡◌, refl, sym, ap, ◌∙◌, inl, inr, Bool, true, false, not, ◌&&◌, Bool-cases, Option-cases,
  List, [], ◌∷◌, arith, eq_iff, ◌==◌, string_key, if◌then◌else◌,
}
use claudodex.Common.Outcome.{
  Outcome, ok, failed-ne-ok, ok_inj, ok_of_bind, ok_of_map_error, ok_of_unless,
}
use claudodex.ModelConfig.{
  Family, opus, sonnet, haiku, fable, Config, normalize, target, field_of, strip_long_context,
}
use claudodex.ModelConfig.Specs.{Pins, has}
use claudodex.Catalog.{
  ModelInfo, bad_target, target_error, find_target, validate_target, validate_catalog,
}
use claudodex.Catalog.Version.{
  valid_client_version, version_less, models_client_version, default_models_client_version,
}
use claudodex.Catalog.Resolve.{
  resolve_role, resolve_roles, resolve, empty_pins, all_families, ResolveError, bad_override,
}
use claudodex.Catalog.Resolve.Laws.{IsUsable, target_error-IsUsable}
use claudodex.Catalog.Resolve.Newest.{IsNewest, Newest, newest-Newest}

models_client_version_idem :
    (version : String)
    → models_client_version (models_client_version version) ≡ models_client_version version
unfolding models_client_version
models_client_version_idem version =
    elim (Bool-cases
      (valid_client_version version && not (version_less version default_models_client_version))) [
        | inl e ↦ rw e (rw e)
        | inr e ↦ rw e (
            if_default (
              valid_client_version default_models_client_version
              && not (version_less default_models_client_version default_models_client_version)))
      ]
  where
    if_default :
        (b : Bool)
        → (if b then default_models_client_version else default_models_client_version)
          ≡ default_models_client_version
    if_default true = refl
    if_default false = refl

-- The model that a pinned role gets: the advertised one of exactly that name.
pub record IsPinned (models : List ModelInfo) (client_version name : String) (model : ModelInfo)
    : Type 0 where
  pub listed : Memᴰ model models
  pub named : model.slug ≡ strip_long_context name
  pub usable : IsUsable client_version model

find_target-IsPinned :
    (slug client_version : String) (models : List ModelInfo) (model : ModelInfo)
    → find_target slug client_version models ≡ ok model
    → Memᴰ model models × (model.slug ≡ slug) × IsUsable client_version model
unfolding find_target
find_target-IsPinned slug client_version [] model h = ground (arith, h)
find_target-IsPinned slug client_version (m ∷ models) model h = elim (Bool-cases (m.slug == slug)) [
  | inl e ↦
      let got =
        ok_of_unless bad_target (target_error m client_version) m model
          (rw (e, find_target) at h) in
      (
        Memᴰ.head got.1,
        ap (λ (n : ModelInfo). n.slug) got.1 ∙ (eq_iff m.slug slug).0 e,
        target_error-IsUsable client_version model
            (ap (λ n. target_error n client_version) got.1 ∙ got.0),
      )
  | inr e ↦
      let below =
        find_target-IsPinned slug client_version models model (rw (e, find_target) at h) in
      (Memᴰ.tail below.0, below.1, below.2)
]

pub validate_target-IsPinned :
    (models : List ModelInfo) (name client_version : String) (model : ModelInfo)
    → validate_target models name client_version ≡ ok model
    → IsPinned models (models_client_version client_version) name model
unfolding validate_target
validate_target-IsPinned models name client_version model h =
    elim (Option-cases (validate_catalog models)) [
      | inl valid ↦
          let got =
            find_target-IsPinned (strip_long_context name) (models_client_version client_version)
              models model (rw (valid, validate_target) at h) in
          record { listed = got.0; named = got.1; usable = got.2 }
      | inr (e, invalid) ↦ absurd (failed-ne-ok (rw (invalid, validate_target) at h))
    ]

-- What a role may get.
pub data Chosen (models : List ModelInfo) (requested : Config) (pins : Pins)
    (client_version : String) (family : Family) (slug : String) : Type 0 where
  by_pin :
      (model : ModelInfo)
      → has pins family ≡ true
      → IsPinned models client_version (target requested family) model
      → slug ≡ model.slug
      → Chosen models requested pins client_version family slug
  by_version :
      (model : ModelInfo)
      → has pins family ≡ false
      → IsNewest models client_version family model
      → slug ≡ model.slug
      → Chosen models requested pins client_version family slug

ok-IsNewest :
    (models : List ModelInfo) (client_version : String) (family : Family)
    (o : Outcome ResolveError ModelInfo) (model : ModelInfo)
    → Newest models client_version family o
    → o ≡ ok model
    → IsNewest models client_version family model
ok-IsNewest models client_version family _ model (Newest.none_fits h) e = ground (arith, e)
ok-IsNewest models client_version family _ model (Newest.first_unusable n f m u) e =
    ground (arith, e)
ok-IsNewest models client_version family _ model (Newest.chosen n h) e =
    subst (IsNewest models client_version family) (ground (arith, e)) h

resolve_role-Chosen :
    (models : List ModelInfo) (requested : Config) (pins : Pins) (client_version : String)
    (family : Family) (slug : String)
    → models_client_version client_version ≡ client_version
    → resolve_role models requested pins client_version family ≡ ok slug
    → Chosen models requested pins client_version family slug
unfolding resolve_role
resolve_role-Chosen models requested pins client_version family slug same h =
    elim (Bool-cases (has pins family)) [
      | inl e ↦
          let (model, got, named) = ok_of_bind _ _ slug (rw (e, resolve_role) at h) in
          Chosen.by_pin model e
            (subst (λ v. IsPinned models v (target requested family) model) same
              (validate_target-IsPinned models (target requested family) client_version model
                (ok_of_map_error (bad_override family) _ model got)))
            (sym (ok_inj named))
      | inr e ↦
          let (model, got, named) = ok_of_bind _ _ slug (rw (e, resolve_role) at h) in
          Chosen.by_version model e
            (ok-IsNewest models client_version family _ model
              (newest-Newest models client_version family) got)
            (sym (ok_inj named))
    ]

resolve_roles-Chosen :
    (models : List ModelInfo) (requested : Config) (pins : Pins) (client_version : String)
    (resolved : Config) (family : Family)
    → models_client_version client_version ≡ client_version
    → resolve_roles models requested pins client_version ≡ ok resolved
    → Chosen models requested pins client_version family (field_of resolved family)
unfolding resolve_roles
resolve_roles-Chosen models requested pins client_version resolved family same h =
    let (o, got_o, after_o) = ok_of_bind _ _ resolved h in
    let (s, got_s, after_s) = ok_of_bind _ _ resolved after_o in
    let (k, got_h, after_h) = ok_of_bind _ _ resolved after_s in
    let (f, got_f, after_f) = ok_of_bind _ _ resolved after_h in
    subst (λ (c : Config). Chosen models requested pins client_version family (field_of c family))
      (ok_inj after_f) (by_family o s k f got_o got_s got_h got_f family)
  where
    role :
        (g : Family) (slug : String)
        → resolve_role models requested pins client_version g ≡ ok slug
        → Chosen models requested pins client_version g slug
    role g slug = resolve_role-Chosen models requested pins client_version g slug same

    by_family :
        (o s k f : String)
        → resolve_role models requested pins client_version opus ≡ ok o
        → resolve_role models requested pins client_version sonnet ≡ ok s
        → resolve_role models requested pins client_version haiku ≡ ok k
        → resolve_role models requested pins client_version fable ≡ ok f
        → (g : Family)
        → Chosen models requested pins client_version g
            (field_of (record { opus = o; sonnet = s; haiku = k; fable = f }) g)
    by_family o s k f got_o got_s got_h got_f opus = role opus o got_o
    by_family o s k f got_o got_s got_h got_f sonnet = role sonnet s got_s
    by_family o s k f got_o got_s got_h got_f haiku = role haiku k got_h
    by_family o s k f got_o got_s got_h got_f fable = role fable f got_f

-- If `Resolve` succeeds, every role that is pinned keeps exactly the model that was asked for, and every
-- other gets the visible model of its kind, among those that the client is new enough for, whose version
-- is the newest, number by number, ties going to the lower priority and then to the earlier name; all of
-- them are in the catalog and usable.
pub resolve-Chosen :
    (models : List ModelInfo) (requested : Config) (pins : Pins) (client_version : String)
    (resolved : Config) (family : Family)
    → resolve models requested pins client_version ≡ ok resolved
    → Chosen models
        (normalize requested)
        pins
        (models_client_version client_version)
        family
        (field_of resolved family)
unfolding resolve
resolve-Chosen models requested pins client_version resolved family h =
    elim (Option-cases (validate_catalog models)) [
      | inr (e, invalid) ↦ absurd (failed-ne-ok (rw (invalid, resolve) at h))
      | inl valid ↦ elim (Option-cases (empty_pins requested pins all_families)) [
        | inr (e, empty) ↦ absurd (failed-ne-ok (rw (valid, empty, resolve) at h))
        | inl named ↦
            resolve_roles-Chosen models (normalize requested) pins
              (models_client_version client_version) resolved family
              (models_client_version_idem client_version) (rw (valid, named, resolve) at h)
      ]
    ]
