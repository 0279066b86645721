-- ===== src/Permission/Removal.antt =====
-- `removeDependents`: it ends, it keeps a closed set closed, and it removes no more than it must.
use marc_comparator.Base.{
  ℕ, zero, suc, ◌<◌, ◌≡◌, refl, Bool, true, false, ◌||◌, not, Option, some, List, [], ◌∷◌, arith,
  filter, all, Option-cases, Bool-cases, inl, inr, ◌==◌, eq_iff, eq_refl, ap, ltb, if◌then◌else◌,
}
use marc_comparator.Base.Sets.{includes, delete, includes-delete, includes-filter}
use mathlib.Core.Path.{subst}
use marc_comparator.Permission.{
  Permission, read_records, review_records, add_records, process_records, run_partial_record_tasks,
  manage_tasks, dependencies, dependents, permission_eqb, permission_eq, remove_each,
  remove_dependents, depth_bound,
}
use marc_comparator.Permission.Graph.{
  Needs, itself, through, includes-all_permissions, test_all, test_all_sound,
}

-- What one removal, or a row of them, does to the selected permissions: nothing is added, and with
-- each permission that goes all that name it as a dependency go too.
pub record IsRemoval (before after : List Permission) : Type 0 where
  pub only_removes : (q : Permission) → includes after q ≡ true → includes before q ≡ true
  pub takes_dependents :
      (d q : Permission)
      → includes before d ≡ true
      → includes after d ≡ false
      → includes (dependencies q) d ≡ true
      → includes after q ≡ false

IsRemoval-refl : (xs : List Permission) → IsRemoval xs xs
IsRemoval-refl xs = record {
  only_removes = λ q h. h;
  takes_dependents = λ d q h k l. absurd (ground arith);
}

IsRemoval-trans : {xs ys zs : List Permission} → IsRemoval xs ys → IsRemoval ys zs → IsRemoval xs zs
IsRemoval-trans {xs} {ys} {zs} a b = record {
  only_removes = λ q h. a.only_removes q (b.only_removes q h);
  takes_dependents = λ d q h k l. elim (Bool-cases (includes ys d)) [
    | inl still ↦ b.takes_dependents d q still k l
    | inr gone ↦
        let before = a.takes_dependents d q h gone l in
        elim (Bool-cases (includes zs q)) [
          | inl kept ↦ absurd (ground (arith, b.only_removes q kept))
          | inr out ↦ out
        ]
  ];
}

-- The recursive call, as the loop over the dependents uses it.
abbrev pub IsRemover : (List Permission → Permission → Option (List Permission)) → Type 0
IsRemover remove =
    (xs : List Permission) (p : Permission) (r : List Permission)
    → remove xs p ≡ some r
    → IsRemoval xs r × (includes r p ≡ false)

-- One round of the loop.
remove_one :
    (remove : List Permission → Permission → Option (List Permission))
    → IsRemover remove
    → (updated : List Permission) (dep : Permission) (next : List Permission)
    → (if includes updated dep then remove updated dep else some updated) ≡ some next
    → IsRemoval updated next × (includes next dep ≡ false)
remove_one remove ok updated dep next e = elim (Bool-cases (includes updated dep)) [
  | inl held ↦ ok updated dep next (rw held at e)
  | inr free ↦
      let same : updated ≡ next = ground arith in
      subst (λ xs. IsRemoval updated xs × (includes xs dep ≡ false)) same
        (IsRemoval-refl updated, free)
]

remove_each-IsRemoval :
    (remove : List Permission → Permission → Option (List Permission))
    → IsRemover remove
    → (updated deps r : List Permission) → remove_each remove updated deps ≡ some r
    → IsRemoval updated r × ((q : Permission) → includes deps q ≡ true → includes r q ≡ false)
unfolding remove_each includes
remove_each-IsRemoval remove ok updated [] r e = (
  subst (IsRemoval updated) (ground arith) (IsRemoval-refl updated),
  λ q h. absurd (ground arith),
)
remove_each-IsRemoval remove ok updated (dep ∷ deps) r e =
    elim (Option-cases (if includes updated dep then remove updated dep else some updated)) [
      | inl stuck ↦ absurd (ground arith)
      | inr (next, found) ↦
          let (first, gone) = remove_one remove ok updated dep next found in
          let (later, all_gone) = remove_each-IsRemoval remove ok next deps r (ground arith) in
          (
            IsRemoval-trans first later,
            λ q h. elim (Bool-cases (dep == q)) [
              | inl same ↦ elim (Bool-cases (includes r q)) [
                | inl kept ↦ absurd (ground (arith, later.only_removes q kept, eq_iff dep q))
                | inr out ↦ out
              ]
              | inr other ↦ all_gone q (ground arith)
            ],
          )
    ]

includes-dependents :
    (p q : Permission) → includes (dependencies q) p ≡ true → includes (dependents p) q ≡ true
unfolding dependents
includes-dependents p q h = rw includes-filter (ground (arith, includes-all_permissions q))

dependencies_of_dependents :
    (p q : Permission) → includes (dependents p) q ≡ true → includes (dependencies q) p ≡ true
unfolding dependents
dependencies_of_dependents p q h = ground (arith, rw includes-filter at h)

remove_dependents-IsRemover : (fuel : ℕ) → IsRemover (remove_dependents fuel)
unfolding remove_dependents
remove_dependents-IsRemover zero xs p r e = absurd (ground arith)
remove_dependents-IsRemover (suc fuel) xs p r e =
    let (steps, gone) =
      remove_each-IsRemoval (remove_dependents fuel) (remove_dependents-IsRemover fuel)
        (delete xs p) (dependents p) r e in
    (
      record {
        only_removes = λ q h. ground (arith, steps.only_removes q h, includes-delete xs p q);
        takes_dependents = λ d q h k l. elim (Bool-cases (p == d)) [
          | inl same ↦ gone q (includes-dependents p q (rw ((eq_iff p d).0 same) l))
          | inr other ↦ steps.takes_dependents d q (ground (arith, includes-delete xs p d)) k l
        ];
      },
      elim (Bool-cases (includes r p)) [
        | inl kept ↦
            absurd (ground (arith, steps.only_removes p kept, includes-delete xs p p, eq_iff p p))
        | inr out ↦ out
      ],
    )

-- Each permission that goes is the removed one, or needs it.
IsSparing : (List Permission → Permission → Option (List Permission)) → Type 0
IsSparing remove =
    (xs : List Permission) (p : Permission) (r : List Permission) (q : Permission)
    → remove xs p ≡ some r
    → includes xs q ≡ true
    → includes r q ≡ false
    → Needs q p

remove_each-Needs :
    (remove : List Permission → Permission → Option (List Permission))
    → IsSparing remove
    → (updated deps r : List Permission) (q : Permission) → remove_each remove updated deps ≡ some r
    → includes updated q ≡ true
    → includes r q ≡ false
    → (dep : Permission) × (includes deps dep ≡ true) × Needs q dep
unfolding remove_each includes IsSparing
remove_each-Needs remove ok updated [] r q e h k =
    let same : updated ≡ r = ground arith in absurd (ground (arith, ap (λ xs. includes xs q) same))
remove_each-Needs remove ok updated (dep ∷ deps) r q e h k =
    elim (Option-cases (if includes updated dep then remove updated dep else some updated)) [
      | inl stuck ↦ absurd (ground arith)
      | inr (next, found) ↦ elim (Bool-cases (includes next q)) [
        | inl still ↦
            let (d, listed, needs) =
              remove_each-Needs remove ok next deps r q (ground arith) still k in
            (d, ground arith, needs)
        | inr out ↦ elim (Bool-cases (includes updated dep)) [
          | inl held ↦
              (dep, ground (arith, eq_refl dep), ok updated dep next q (rw held at found) h out)
          | inr free ↦
              let same : updated ≡ next = ground arith in
              absurd (ground (arith, ap (λ xs. includes xs q) same))
        ]
      ]
    ]

remove_dependents-IsSparing : (fuel : ℕ) → IsSparing (remove_dependents fuel)
unfolding remove_dependents IsSparing
remove_dependents-IsSparing zero xs p r q e h k = absurd (ground arith)
remove_dependents-IsSparing (suc fuel) xs p r q e h k = elim (Bool-cases (p == q)) [
  | inl same ↦ subst (λ d. Needs d p) ((eq_iff p q).0 same) itself
  | inr other ↦
      let (dep, listed, needs) =
        remove_each-Needs (remove_dependents fuel) (remove_dependents-IsSparing fuel) (delete xs p)
          (dependents p) r q e (ground (arith, includes-delete xs p q)) k in
      through needs (dependencies_of_dependents p dep listed)
]

-- The longest chain of permissions that need one another, upwards from `p`.
height : Permission → ℕ
height read_records = 4
height process_records = 3
height run_partial_record_tasks = 3
height manage_tasks = 2
height review_records = 2
height add_records = 2
height _ = 1

abbrev height_test : Permission → Permission → Bool
height_test p q = not (includes (dependents p) q) || ltb (height q) (height p)

height_table : test_all (λ p. test_all (height_test p)) ≡ true
unfolding test_all all dependents dependencies includes height permission_eqb filter
height_table = refl

height-dependents : (p q : Permission) → includes (dependents p) q ≡ true → height q < height p
height-dependents p q h = ground (
  arith,
  test_all_sound (height_test p) (test_all_sound (λ p. test_all (height_test p)) height_table p) q,
)

remove_each-total :
    (remove : List Permission → Permission → Option (List Permission))
    (updated deps : List Permission)
    → ((xs : List Permission) (q : Permission)
        → includes deps q ≡ true
        → (r : List Permission) × (remove xs q ≡ some r))
    → (r : List Permission) × (remove_each remove updated deps ≡ some r)
unfolding remove_each includes
remove_each-total remove updated [] total = (updated, refl)
remove_each-total remove updated (dep ∷ deps) total =
    let rest = λ (xs : List Permission).
      remove_each-total remove xs deps (λ ys q h. total ys q (ground arith)) in
    elim (Bool-cases (includes updated dep)) [
      | inl held ↦
          let (next, e) = total updated dep (ground (arith, eq_refl dep)) in
          let (r, found) = rest next in (r, rw (held, e) found)
      | inr free ↦ let (r, found) = rest updated in (r, rw free found)
    ]

-- With more fuel than the height of the removed permission the recursion ends.
remove_dependents_total :
    (fuel : ℕ) (xs : List Permission) (p : Permission)
    → height p < fuel
    → (r : List Permission) × (remove_dependents fuel xs p ≡ some r)
unfolding remove_dependents
remove_dependents_total zero xs p h = absurd (omega arith)
remove_dependents_total (suc fuel) xs p h =
    remove_each-total (remove_dependents fuel) (delete xs p) (dependents p)
      (λ ys q k. remove_dependents_total fuel ys q (omega (arith, height-dependents p q k)))

height-lt-depth_bound : (p : Permission) → height p < depth_bound
unfolding height
height-lt-depth_bound read_records = omega arith
height-lt-depth_bound _ = omega arith

pub remove_dependents_ends :
    (xs : List Permission) (p : Permission)
    → (r : List Permission) × (remove_dependents depth_bound xs p ≡ some r)
remove_dependents_ends xs p = remove_dependents_total depth_bound xs p (height-lt-depth_bound p)

pub remove_dependents-IsRemoval : IsRemover (remove_dependents depth_bound)
remove_dependents-IsRemoval = remove_dependents-IsRemover depth_bound

pub remove_dependents-Needs :
    (xs : List Permission) (p : Permission) (r : List Permission) (q : Permission)
    → remove_dependents depth_bound xs p ≡ some r
    → includes xs q ≡ true
    → includes r q ≡ false
    → Needs q p
unfolding IsSparing
remove_dependents-Needs = remove_dependents-IsSparing depth_bound
