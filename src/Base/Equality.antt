-- ===== src/Base/Equality.antt =====
-- `===` on the values that the program compares, as an interface with an instance for each type.
use Prim.Native.Nat.{ℕ}
use mathlib.Core.Path.{◌≡◌, refl}
use mathlib.Core.Logic.{◌↔◌, ◌≢◌}
use mathlib.Core.Bool.{Bool, true, false}
use marc_comparator.Base.Tests.{nat_eqb, nat_eqb_iff, Bool-cases}
use mathlib.Core.Logic.{inl, inr}

pub record StrictEq {ℓ} (A : Type ℓ) : Type ℓ where
  pub triple_eq : A → A → Bool
  pub triple_eq_iff : (x y : A) → (triple_eq x y ≡ true) ↔ (x ≡ y)

abbrev pub ◌==◌ {ℓ} : {A : Type ℓ} ⦃same : StrictEq A⦄ → A → A → Bool
◌==◌ ⦃same⦄ x y = same.triple_eq x y

infix 50 ◌==◌
instance abbrev pub nat_eq : StrictEq ℕ
nat_eq = record { triple_eq = nat_eqb; triple_eq_iff = nat_eqb_iff }

module _ {ℓ} {A : Type ℓ} ⦃e : StrictEq A⦄ where
  pub eq_iff : (a b : A) → ((a == b) ≡ true) ↔ (a ≡ b)
  eq_iff a b = e.triple_eq_iff a b

  pub eq_refl : (a : A) → (a == a) ≡ true
  eq_refl a = (e.triple_eq_iff a a).1 refl

  pub eq-false_of_ne : (a b : A) → a ≢ b → (a == b) ≡ false
  eq-false_of_ne a b h = elim (Bool-cases (a == b)) [
    | inl same ↦ absurd (h ((e.triple_eq_iff a b).0 same))
    | inr other ↦ other
  ]
