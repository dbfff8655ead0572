-- ===== src/Base/Equality.antt =====
-- Decidable equality as an interface, so that one `==` serves numbers and texts.
use Prim.Native.Nat.{ℕ, compare, Ordering}
use Prim.Native.String.{String}
use mathlib.Core.Path.{◌≡◌}
use mathlib.Core.Logic.{◌↔◌}
use mathlib.Core.Bool.{Bool, true, false}
use sync_space.Base.Tests.{if◌then◌else◌}
use native.Mathlib.Omega.{arith}
use text.Mathlib.Text.{◌==◌ as str_eq}
use text.Mathlib.TextEquality.{eq_iff}

-- A type whose equality is decided by a test.
pub record HasEquals {κ} (X : Type κ) : Type κ where
  pub equals : X → X → Bool
  pub equals_iff : (x y : X) → (equals x y ≡ true) ↔ (x ≡ y)

abbrev pub equal_bool : Bool → Bool → Bool
equal_bool true b = b
equal_bool false true = false
equal_bool false false = true

pub equal_bool_iff : (a b : Bool) → (equal_bool a b ≡ true) ↔ (a ≡ b)
equal_bool_iff a b = ground arith

abbrev pub equal_nat : ℕ → ℕ → Bool
equal_nat m n = elim (compare m n) [ Ordering.eq ↦ true | _ ↦ false ]

pub equal_nat_iff : (m n : ℕ) → (equal_nat m n ≡ true) ↔ (m ≡ n)
equal_nat_iff m n = ground arith

pub str_eq_iff : (s t : String) → (str_eq s t ≡ true) ↔ (s ≡ t)
str_eq_iff = eq_iff

instance abbrev pub bool_eq : HasEquals Bool
bool_eq = record { equals = equal_bool; equals_iff = equal_bool_iff }

instance abbrev pub string_eq : HasEquals String
string_eq = record { equals = str_eq; equals_iff = eq_iff }

instance abbrev pub nat_eq : HasEquals ℕ
nat_eq = record { equals = equal_nat; equals_iff = equal_nat_iff }

infix 50 ◌==◌
abbrev pub ◌==◌ {κ} : {X : Type κ} ⦃c : HasEquals X⦄ → X → X → Bool
◌==◌ ⦃c⦄ = c.equals

-- A key of two parts.
module _ {ℓ κ} {A : Type ℓ} {B : Type κ} ⦃a : HasEquals A⦄ ⦃b : HasEquals B⦄ where
  abbrev pub equal_pair : A × B → A × B → Bool
  equal_pair (x, y) (u, v) = if a.equals x u then b.equals y v else false

  pub equal_pair_iff : (s t : A × B) → (equal_pair s t ≡ true) ↔ (s ≡ t)
  equal_pair_iff (x, y) (u, v) = ground (arith, a.equals_iff x u, b.equals_iff y v)

  instance abbrev pub pair_eq : HasEquals (A × B)
  pair_eq = record { equals = equal_pair; equals_iff = equal_pair_iff }
