-- ===== src/Permission/Graph.antt =====
-- The dependency graph: it is acyclic, and what `getAllDependencies` computes.
use marc_comparator.Base.{
  ℕ, zero, suc, ◌≡◌, refl, Bool, true, ◌||◌, not, Option, some, List, [], ◌∷◌, ◌++◌, arith, all,
  or_else, Option-cases, Bool-cases, inl, inr, ◌==◌, eq_iff,
}
use marc_comparator.Base.Sets.{includes, add, distinct, includes-append, includes-distinct}
use mathlib.Core.Path.{subst}
use marc_comparator.Permission.{
  Permission, read_records, all_permissions, dependencies, permission_eqb, permission_eq,
  get_all_dependencies, flat_map_dependencies, depth_bound,
}

-- The set holds the direct dependencies of each of its members.
abbrev pub IsClosed : List Permission → Type 0
IsClosed xs =
    (p q : Permission)
    → includes xs p ≡ true
    → includes (dependencies p) q ≡ true
    → includes xs q ≡ true

-- `q` is `p`, or one of its direct and indirect dependencies.
pub data Needs (p : Permission) : Permission → Type 0 where
  itself : Needs p p
  through : {q r : Permission} → Needs p q → includes (dependencies q) r ≡ true → Needs p r

unfoldable pub test_all : (Permission → Bool) → Bool
unfolding all
test_all t = all t all_permissions

-- A test that passes at the twelve permissions passes at each.
pub test_all_sound : (t : Permission → Bool) → test_all t ≡ true → (p : Permission) → t p ≡ true
unfolding test_all all
test_all_sound t h read_records = ground arith
test_all_sound t h _ = ground arith

pub includes-all_permissions : (p : Permission) → includes all_permissions p ≡ true
unfolding includes permission_eqb
includes-all_permissions read_records = refl
includes-all_permissions _ = refl

-- All that `getAllDependencies` returns for `p`.
unfoldable pub closure : Permission → List Permission
unfolding get_all_dependencies permission_eqb includes add
closure p = or_else (get_all_dependencies depth_bound p) []

-- The recursion of `getAllDependencies` ends for every permission.
pub get_all_dependencies-eq-closure :
    (p : Permission) → get_all_dependencies depth_bound p ≡ some (closure p)
unfolding closure
get_all_dependencies-eq-closure read_records = refl
get_all_dependencies-eq-closure _ = refl

abbrev closed_at : Permission → Permission → Bool
closed_at p q = not (includes (p ∷ closure p) q) || all (includes (p ∷ closure p)) (dependencies q)

closed_table : test_all (λ p. test_all (closed_at p)) ≡ true
unfolding test_all closure dependencies all
closed_table = refl

pub includes_of_all :
    (t : Permission → Bool) (ps : List Permission) (q : Permission)
    → all t ps ≡ true
    → includes ps q ≡ true
    → t q ≡ true
unfolding all includes
includes_of_all t [] q h k = cc
includes_of_all t (p ∷ ps) q h k = ground (arith, eq_iff p q, includes_of_all t ps q)

pub closure-IsClosed : (p : Permission) → IsClosed (p ∷ closure p)
closure-IsClosed p q r h k =
    let here = test_all_sound (closed_at p) (test_all_sound _ closed_table p) q in
    includes_of_all (includes (p ∷ closure p)) (dependencies q) r (ground arith) k

-- Whatever `p` needs stands in its closure.
pub includes-closure_of_Needs : {p q : Permission} → Needs p q → includes (p ∷ closure p) q ≡ true
unfolding includes
includes-closure_of_Needs {p} itself = ground (arith, eq_iff p p)
includes-closure_of_Needs {p} (through {q} {r} n d) =
    closure-IsClosed p q r (includes-closure_of_Needs n) d

Needs-dependencies : (p q : Permission) → includes (dependencies p) q ≡ true → Needs p q
Needs-dependencies p q h = through itself h

Needs-trans : {p q r : Permission} → Needs p q → Needs q r → Needs p r
Needs-trans n itself = n
Needs-trans n (through m d) = through (Needs-trans n m) d

-- `f` returns, for each permission, only what it needs.
abbrev IsSound : (Permission → Option (List Permission)) → Type 0
IsSound f =
    (p : Permission) (ds : List Permission) (q : Permission)
    → f p ≡ some ds
    → includes ds q ≡ true
    → Needs p q

flat_map_dependencies-Needs :
    (f : Permission → Option (List Permission)) (ps ds : List Permission) (q : Permission)
    → IsSound f
    → flat_map_dependencies f ps ≡ some ds
    → includes ds q ≡ true
    → (p : Permission) × (includes ps p ≡ true) × Needs p q
unfolding flat_map_dependencies includes
flat_map_dependencies-Needs f [] ds q sound e h = absurd (unfold includes in ground arith)
flat_map_dependencies-Needs f (p ∷ ps) ds q sound e h = elim (Option-cases (f p)) [
  | inl stuck ↦ absurd (ground arith)
  | inr (here, found) ↦ elim (Option-cases (flat_map_dependencies f ps)) [
    | inl stuck ↦ absurd (ground arith)
    | inr (rest, later) ↦ elim (Bool-cases (includes here q)) [
      | inl head ↦ (p, ground (arith, eq_iff p p), sound p here q found head)
      | inr no_head ↦
          let tail : includes rest q ≡ true = ground (arith, includes-append here rest q) in
          let (r, listed, needs) = flat_map_dependencies-Needs f ps rest q sound later tail in
          (r, ground arith, needs)
    ]
  ]
]

get_all_dependencies-IsSound : (fuel : ℕ) → IsSound (get_all_dependencies fuel)
unfolding get_all_dependencies
get_all_dependencies-IsSound zero p ds q e h = absurd (ground arith)
get_all_dependencies-IsSound (suc fuel) p ds q e h =
    elim (Option-cases (flat_map_dependencies (get_all_dependencies fuel) (dependencies p))) [
      | inl stuck ↦ absurd (ground arith)
      | inr (indirect, found) ↦
          let same : includes (distinct (dependencies p ++ indirect)) q ≡ true = ground arith in
          let either : (includes (dependencies p) q || includes indirect q) ≡ true = ground (
            arith,
            includes-distinct (dependencies p ++ indirect) q,
            includes-append (dependencies p) indirect q,
          ) in
          elim (Bool-cases (includes (dependencies p) q)) [
            | inl direct ↦ Needs-dependencies p q direct
            | inr other ↦
                let (r, listed, needs) =
                  flat_map_dependencies-Needs (get_all_dependencies fuel) (dependencies p) indirect
                    q (get_all_dependencies-IsSound fuel) found (ground arith) in
                Needs-trans (Needs-dependencies p r listed) needs
          ]
    ]

-- The closure of `p` holds only what `p` needs.
pub Needs-of_includes-closure : (p q : Permission) → includes (p ∷ closure p) q ≡ true → Needs p q
unfolding includes
Needs-of_includes-closure p q h = elim (Bool-cases (p == q)) [
  | inl same ↦ subst (Needs p) ((eq_iff p q).0 same) itself
  | inr other ↦
      get_all_dependencies-IsSound depth_bound p (closure p) q (get_all_dependencies-eq-closure p)
        (ground arith)
]

-- A closed selection holds all that its members need.
pub IsClosed-Needs :
    (xs : List Permission) {p q : Permission}
    → IsClosed xs
    → includes xs p ≡ true
    → Needs p q
    → includes xs q ≡ true
IsClosed-Needs xs closed h itself = h
IsClosed-Needs xs closed h (through {q} {r} n d) = closed q r (IsClosed-Needs xs closed h n) d
