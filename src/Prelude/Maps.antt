-- ===== src/Prelude/Maps.antt =====
-- Equality tests by instances, and maps from keys to optional values, for storage entries.
use Prim.Native.Nat.{ℕ}
use Prim.Native.String.{String}
use mathlib.Core.Path.{◌≡◌}
use mathlib.Core.Logic.{◌↔◌, ◌≢◌}
use mathlib.Core.Bool.{Bool, true, ◌&&◌}
use mathlib.Core.Option.{Option, none, some}
use native.Mathlib.Omega.{arith}
use text.Mathlib.Text.{◌==◌ as str_eq}
use text.Mathlib.TextEquality.{eq_iff}
use stellariq_contract.Prelude.Tests.{◌==◌, ==_iff, if◌then◌else◌}

pub record Eq {ℓ} (A : Type ℓ) : Type ℓ where
  pub beq : A → A → Bool
  pub beq_iff : (a b : A) → (beq a b ≡ true) ↔ (a ≡ b)

instance abbrev pub nat_eq : Eq ℕ
nat_eq = record { beq = ◌==◌; beq_iff = ==_iff }

instance abbrev pub string_eq : Eq String
string_eq = record { beq = str_eq; beq_iff = eq_iff }

pub pair_beq_iff :
    {A B : Type 0} ⦃d : Eq A⦄ ⦃e : Eq B⦄ (a b : A × B)
    → ((d.beq a.0 b.0 && e.beq a.1 b.1) ≡ true) ↔ (a ≡ b)
pair_beq_iff ⦃d⦄ ⦃e⦄ (a, b) (c, f) = ground (arith, d.beq_iff a c, e.beq_iff b f)

instance abbrev pub pair_eq : {A B : Type 0} ⦃d : Eq A⦄ ⦃e : Eq B⦄ → Eq (A × B)
pair_eq ⦃d⦄ ⦃e⦄ = record { beq = λ a b. d.beq a.0 b.0 && e.beq a.1 b.1; beq_iff = pair_beq_iff }

abbrev pub Map : Type 0 → Type 0 → Type 0
Map K V = K → Option V

abbrev pub empty : {K V : Type 0} → Map K V
empty k = none

module _ {K V : Type 0} ⦃e : Eq K⦄ where
  abbrev pub put : K → V → Map K V → Map K V
  put k v m j = if e.beq k j then some v else m j

  abbrev pub delete : K → Map K V → Map K V
  delete k m j = if e.beq k j then none else m j

  pub put_self : (k : K) (v : V) (m : Map K V) → put k v m k ≡ some v
  put_self k v m = ground (arith, e.beq_iff k k)

  pub put_ne : (k j : K) (v : V) (m : Map K V) → k ≢ j → put k v m j ≡ m j
  put_ne k j v m h = ground (arith, e.beq_iff k j)

  pub delete_self : (k : K) (m : Map K V) → delete k m k ≡ none
  delete_self k m = ground (arith, e.beq_iff k k)

  pub delete_ne : (k j : K) (m : Map K V) → k ≢ j → delete k m j ≡ m j
  delete_ne k j m h = ground (arith, e.beq_iff k j)
