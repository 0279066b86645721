-- ===== src/Base/Sets.antt =====
-- A JavaScript `Set` as the list of its elements in the order of insertion.
use mathlib.Core.Path.{◌≡◌, refl}
use mathlib.Core.Bool.{Bool, true, false, ◌&&◌, ◌||◌, not}
use mathlib.Core.List.{List, [], ◌∷◌, ◌++◌}
use native.Mathlib.Omega.{arith}
use mathlib.Core.Logic.{inl, inr}
use marc_comparator.Base.Tests.{if◌then◌else◌, Bool-cases}
use marc_comparator.Base.Lists.{filter, All}
use marc_comparator.Base.Equality.{StrictEq, ◌==◌, eq_iff, eq_refl}

module _ {ℓ} {A : Type ℓ} ⦃e : StrictEq A⦄ where
  -- `has` of a set, `includes` of an array.
  unfoldable pub includes : List A → A → Bool
  includes [] a = false
  includes (x ∷ xs) a = x == a || includes xs a

  unfoldable pub add : List A → A → List A
  add xs a = if includes xs a then xs else xs ++ a ∷ []

  unfoldable pub delete : List A → A → List A
  delete xs a = filter (λ x. not (x == a)) xs

  -- Adding the elements of an array one after the other.
  unfoldable pub add_all : List A → List A → List A
  add_all xs [] = xs
  add_all xs (a ∷ more) = add_all (add xs a) more

  unfoldable pub delete_all : List A → List A → List A
  delete_all xs [] = xs
  delete_all xs (a ∷ more) = delete_all (delete xs a) more

  -- No element stands twice.
  abbrev pub IsDistinct : List A → Type 0
  IsDistinct [] = Unit
  IsDistinct (x ∷ xs) = (includes xs x ≡ false) × IsDistinct xs

-- `new Set(xs)`.
abbrev pub distinct {ℓ} : {A : Type ℓ} ⦃e : StrictEq A⦄ → List A → List A
distinct xs = add_all [] xs

module _ {ℓ} {A : Type ℓ} ⦃e : StrictEq A⦄ where
  pub includes-append :
      (xs ys : List A) (b : A) → includes (xs ++ ys) b ≡ (includes xs b || includes ys b)
  unfolding includes
  includes-append [] ys b = refl
  includes-append (x ∷ xs) ys b = ground (arith, includes-append xs ys b)

  pub includes-add : (xs : List A) (a b : A) → includes (add xs a) b ≡ (includes xs b || a == b)
  unfolding add includes
  includes-add xs a b = ground (arith, includes-append xs (a ∷ []) b, eq_iff a b)

  pub includes-delete :
      (xs : List A) (a b : A) → includes (delete xs a) b ≡ (includes xs b && not (a == b))
  unfolding includes delete filter
  includes-delete [] a b = refl
  includes-delete (x ∷ xs) a b =
      ground (arith, includes-delete xs a b, eq_iff x a, eq_iff x b, eq_iff a b)

  pub includes-add_all :
      (xs ys : List A) (b : A) → includes (add_all xs ys) b ≡ (includes xs b || includes ys b)
  unfolding add_all includes
  includes-add_all xs [] b = ground arith
  includes-add_all xs (y ∷ ys) b =
      ground (arith, includes-add_all (add xs y) ys b, includes-add xs y b)

  pub includes-delete_all :
      (xs ys : List A) (b : A)
      → includes (delete_all xs ys) b ≡ (includes xs b && not (includes ys b))
  unfolding delete_all includes
  includes-delete_all xs [] b = ground arith
  includes-delete_all xs (y ∷ ys) b =
      ground (arith, includes-delete_all (delete xs y) ys b, includes-delete xs y b)

  pub includes-distinct : (xs : List A) (b : A) → includes (distinct xs) b ≡ includes xs b
  unfolding includes
  includes-distinct xs b = includes-add_all [] xs b

  pub includes-filter :
      (t : A → Bool) (xs : List A) (b : A) → includes (filter t xs) b ≡ (includes xs b && t b)
  unfolding includes filter
  includes-filter t [] b = refl
  includes-filter t (x ∷ xs) b = elim (Bool-cases (x == b)) [
    | inl same ↦ rw ((eq_iff x b).0 same) (ground (arith, includes-filter t xs b, eq_refl b))
    | inr other ↦ ground (arith, includes-filter t xs b)
  ]

  pub IsDistinct-concat :
      (xs : List A) (a : A) → IsDistinct xs → includes xs a ≡ false → IsDistinct (xs ++ a ∷ [])
  unfolding includes
  IsDistinct-concat [] a d h = (refl, tt)
  IsDistinct-concat (x ∷ xs) a (out, d) h = (
    ground (arith, includes-append xs (a ∷ []) x, eq_iff a x, eq_iff x a),
    IsDistinct-concat xs a d (ground arith),
  )

  pub IsDistinct-delete : (xs : List A) (a : A) → IsDistinct xs → IsDistinct (delete xs a)
  unfolding delete filter
  IsDistinct-delete [] a d = tt
  IsDistinct-delete (x ∷ xs) a (out, d) = elim (Bool-cases (x == a)) [
    | inl same ↦ rw same (IsDistinct-delete xs a d)
    | inr other ↦ rw other (ground (arith, includes-delete xs a x), IsDistinct-delete xs a d)
  ]

  pub All-of_includes {κ} :
      (P : A → Type κ) (xs : List A) → ((a : A) → includes xs a ≡ true → P a) → All P xs
  unfolding includes
  All-of_includes P [] h = tt
  All-of_includes P (x ∷ xs) h =
      (h x (ground (arith, eq_refl x)), All-of_includes P xs (λ a k. h a (ground arith)))
