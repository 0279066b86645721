-- ===== src/Permission/Toggle.antt =====
-- `togglePermission`, against the set of permissions that it must leave.

use marc_comparator.Base.{
  ◌≡◌, Bool, true, false, ◌||◌, some, List, ◌∷◌, ◌++◌, arith, Bool-cases, inl, inr, ◌⊎◌, ◌↔◌,
}
use marc_comparator.Base.Sets.{includes, distinct, includes-append, includes-distinct}
use marc_comparator.Permission.{Permission, permission_eq, toggle_permission}
use marc_comparator.Permission.Graph.{
  IsClosed, IsClosed-Needs, Needs, closure, closure-IsClosed, get_all_dependencies-eq-closure,
  includes-closure_of_Needs, Needs-of_includes-closure,
}
use marc_comparator.Permission.Removal.{
  IsRemoval, remove_dependents_ends, remove_dependents-IsRemoval, remove_dependents-Needs,
}

toggle_on :
    (xs : List Permission) (p : Permission)
    → toggle_permission xs p true ≡ some (distinct (xs ++ p ∷ closure p))
unfolding toggle_permission
toggle_on xs p = rw (get_all_dependencies-eq-closure p)

includes-toggle_on :
    (xs : List Permission) (p q : Permission)
    → includes (distinct (xs ++ p ∷ closure p)) q ≡ (includes xs q || includes (p ∷ closure p) q)
includes-toggle_on xs p q = rw includes-distinct (includes-append xs (p ∷ closure p) q)

-- Checking a permission ends, and selects exactly what was selected, the permission itself, and all
-- that it needs, directly or through other permissions.
pub toggle_permission-checked :
    (xs : List Permission) (p : Permission)
    → (r : List Permission) × (toggle_permission xs p true ≡ some r)
      × ((q : Permission) → (includes r q ≡ true) ↔ ((includes xs q ≡ true) ⊎ Needs p q))
toggle_permission-checked xs p = (
  distinct (xs ++ p ∷ closure p),
  toggle_on xs p,
  λ q. (
    λ h. elim (Bool-cases (includes xs q)) [
      | inl old ↦ inl old
      | inr new ↦ inr (Needs-of_includes-closure p q (ground (arith, includes-toggle_on xs p q)))
    ],
    λ h. elim h [
      | inl old ↦ ground (arith, includes-toggle_on xs p q)
      | inr needs ↦ ground (arith, includes-toggle_on xs p q, includes-closure_of_Needs needs)
    ],
  ),
)

removal-IsClosed : {xs r : List Permission} → IsClosed xs → IsRemoval xs r → IsClosed r
removal-IsClosed {xs} {r} closed removal p q h k = elim (Bool-cases (includes r q)) [
  | inl kept ↦ kept
  | inr gone ↦
      let before = closed p q (removal.only_removes p h) k in
      absurd (ground (arith, removal.takes_dependents q p before gone k))
]

-- Unchecking a permission of a selection that is closed under dependencies ends, and takes away
-- exactly the permission and the selected permissions that need it.
pub toggle_permission-unchecked :
    (xs : List Permission) (p : Permission)
    → IsClosed xs
    → (r : List Permission) × (toggle_permission xs p false ≡ some r)
      × ((q : Permission) → (includes r q ≡ true) ↔ ((includes xs q ≡ true) × ¬ Needs q p))
unfolding toggle_permission
toggle_permission-unchecked xs p closed =
    let (r, e) = remove_dependents_ends xs p in
    let (removal, gone) = remove_dependents-IsRemoval xs p r e in
    (
      r,
      e,
      λ q. (
        λ h. (
          removal.only_removes q h,
          λ needs.
              let still = IsClosed-Needs r (removal-IsClosed closed removal) h needs in
              absurd (ground arith),
        ),
        λ h. elim (Bool-cases (includes r q)) [
          | inl kept ↦ kept
          | inr out ↦ absurd (h.1 (remove_dependents-Needs xs p r q e h.0 out))
        ],
      ),
    )

toggle_on-IsClosed :
    (xs : List Permission) (p : Permission)
    → IsClosed xs
    → IsClosed (distinct (xs ++ p ∷ closure p))
toggle_on-IsClosed xs p closed q r h k = elim (Bool-cases (includes xs q)) [
  | inl old ↦ ground (arith, includes-toggle_on xs p r, closed q r old k)
  | inr new ↦
      let member : includes (p ∷ closure p) q ≡ true = ground (arith, includes-toggle_on xs p q) in
      ground (arith, includes-toggle_on xs p r, closure-IsClosed p q r member k)
]

-- From a selection that is closed under dependencies, checking and unchecking a permission both end
-- in a selection that is closed again.
pub toggle_permission-IsClosed :
    (xs : List Permission) (p : Permission) (checked : Bool)
    → IsClosed xs
    → (r : List Permission) × (toggle_permission xs p checked ≡ some r) × IsClosed r
unfolding toggle_permission
toggle_permission-IsClosed xs p true closed =
    (distinct (xs ++ p ∷ closure p), toggle_on xs p, toggle_on-IsClosed xs p closed)
toggle_permission-IsClosed xs p false closed =
    let (r, e) = remove_dependents_ends xs p in
    (r, e, removal-IsClosed closed (remove_dependents-IsRemoval xs p r e).0)
