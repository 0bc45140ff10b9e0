-- ===== src/Base/Keys.antt =====
-- Keys of dictionaries: types with a Boolean equality.
use Prim.Native.Nat.{ℕ}
use Prim.Native.String.{String}
use mathlib.Core.Path.{◌≡◌, refl}
use mathlib.Core.Logic.{◌↔◌, ◌⊎◌, ◌≢◌, inl, inr}
use mathlib.Core.Bool.{Bool, true, false, ◌&&◌}
use native.Mathlib.Omega.{arith}
use text.Mathlib.Text.{◌==◌ as str_eq}
use text.Mathlib.TextEquality.{eq_iff}
use m_agent.Base.Bools.{◌==ℕ◌, ==ℕ_iff, Bool-cases}

pub record Eq {ℓ} (A : Type ℓ) : Type ℓ where
  pub equal : A → A → Bool
  pub equal_iff : (a b : A) → (equal a b ≡ true) ↔ (a ≡ b)

infix 50 ◌==◌
abbrev pub ◌==◌ {ℓ} : {A : Type ℓ} ⦃e : Eq A⦄ → A → A → Bool
◌==◌ ⦃e⦄ = e.equal

module _ {ℓ} {A : Type ℓ} ⦃e : Eq A⦄ where
  pub ==_iff : (a b : A) → ((a == b) ≡ true) ↔ (a ≡ b)
  ==_iff a b = e.equal_iff a b

  pub ==_refl : (a : A) → (a == a) ≡ true
  ==_refl a = (e.equal_iff a a).1 refl

  -- To split on a comparison, with what it says both ways.
  pub ==-cases : (a b : A) → ((a ≡ b) × ((a == b) ≡ true)) ⊎ ((a ≢ b) × ((a == b) ≡ false))
  ==-cases a b = elim (Bool-cases (a == b)) [
    | inl t ↦ inl ((e.equal_iff a b).0 t, t)
    | inr f ↦ inr (λ p. cc ((e.equal_iff a b).1 p), f)
  ]

instance abbrev pub String_eq : Eq String
String_eq = record { equal = str_eq; equal_iff = eq_iff }

module _ {ℓ} {A B : Type ℓ} ⦃e : Eq A⦄ ⦃f : Eq B⦄ where
  abbrev pub pair_beq : A × B → A × B → Bool
  pair_beq (a, b) (c, d) = (a == c) && (b == d)

  pub pair_beq_iff : (p q : A × B) → (pair_beq p q ≡ true) ↔ (p ≡ q)
  pair_beq_iff (a, b) (c, d) = ground (arith, e.equal_iff a c, f.equal_iff b d)

  instance abbrev pub pair_eq : Eq (A × B)
  pair_eq = record { equal = pair_beq; equal_iff = pair_beq_iff }

instance abbrev pub ℕ_eq : Eq ℕ
ℕ_eq = record { equal = ◌==ℕ◌; equal_iff = ==ℕ_iff }
