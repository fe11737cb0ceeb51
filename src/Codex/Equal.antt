-- ===== src/Codex/Equal.antt =====
-- reflect.DeepEqual on the values of internal/codex/types.go: it tells exactly the different values of
-- these types apart.
use native.Mathlib.Decide.{ℕ_discrete}
use claudodex.Common.{
  String, ◌≡◌, refl, ◌↔◌, Bool, true, false, Option, List, arith, eq_iff, ◌==◌, string_key,
}
use claudodex.Codex.{ContentPart, InputItem, Request}

pub not_same : (s t : String) → s == t ≡ false → s == t ≡ true → ⊥
not_same s t e same = ground (arith, e, same)

unfoldable pub decide_text : (s t : String) (b : Bool) → s == t ≡ b → Dec (s ≡ t)
decide_text s t true e = yes ((eq_iff s t).0 e)
decide_text s t false e = no (λ p. not_same s t e ((eq_iff s t).1 p))

unfoldable pub String_discrete : (s t : String) → Dec (s ≡ t)
unfolding decide_text
String_discrete s t = decide_text s t (s == t) (λ _. s == t)

unfoldable pub content_discrete : (a b : Option (List ContentPart)) → Dec (a ≡ b)
unfolding String_discrete
content_discrete = hlevel String_discrete

unfoldable pub item_discrete : (a b : InputItem) → Dec (a ≡ b)
unfolding String_discrete ℕ_discrete
item_discrete = hlevel (String_discrete, ℕ_discrete)

unfoldable pub request_discrete : (a b : Request) → Dec (a ≡ b)
unfolding String_discrete ℕ_discrete
request_discrete = hlevel (String_discrete, ℕ_discrete)

abbrev pub is_yes {ℓ} : {P : Type ℓ} → Dec P → Bool
is_yes (yes _) = true
is_yes (no _) = false

pub is_yes_iff {ℓ} : {P : Type ℓ} (d : Dec P) → (is_yes d ≡ true) ↔ P
is_yes_iff (yes p) = (λ _. p, λ _. refl)
is_yes_iff (no n) = (λ h. ground (arith, h), λ p. absurd (n p))
