-- ===== src/Common/Keys.antt =====
-- Keys that Go compares by `==`: an equality test with its law, as an instance.
use Prim.Native.Nat.{ℕ}
use Prim.Native.String.{String}
use mathlib.Core.Path.{◌≡◌}
use mathlib.Core.Logic.{◌↔◌}
use mathlib.Core.Bool.{Bool, true}
use text.Mathlib.Text.{◌==◌ as str_eq}
use text.Mathlib.TextEquality.{eq_iff}
use claudodex.Common.Tests.{nat_eq, nat_eq_iff}
use claudodex.Common.Int.{ℤ, eqb_ℤ, eqb_ℤ_iff}

pub record Key {ℓ} (K : Type ℓ) : Type ℓ where
  pub same : K → K → Bool
  pub same_iff : (j k : K) → (same j k ≡ true) ↔ (j ≡ k)

infix 50 ◌==◌
abbrev pub ◌==◌ {ℓ} : {K : Type ℓ} ⦃key : Key K⦄ → (j k : K) → Bool
◌==◌ ⦃key⦄ j k = key.same j k

instance abbrev pub int_key : Key ℤ
int_key = record { same_iff = eqb_ℤ_iff; same = eqb_ℤ }

instance abbrev pub string_key : Key String
string_key = record { same_iff = eq_iff; same = str_eq }

instance abbrev pub nat_key : Key ℕ
nat_key = record { same_iff = nat_eq_iff; same = nat_eq }
