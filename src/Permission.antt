-- ===== src/Permission.antt =====
-- client/src/types/permission.ts: the permissions, their dependencies and `togglePermission`;
-- client/src/hooks/use-permissions.ts: `hasPermission`. The two recursive functions of the source
-- follow the dependency graph, so they take fuel here, and `none` means that it ran out.
pub mod Graph
pub mod Removal
pub mod Toggle
pub mod Guards
mod Tests
use marc_comparator.Base.{
  ℕ, zero, suc, ◌≡◌, refl, Bool, true, false, not, Option, none, some, List, [], ◌∷◌, ◌++◌, ap,
  arith, StrictEq, nat_eqb, nat_eqb_iff, filter, all, any, if◌then◌else◌, ◌>>=◌, ◌↔◌, sym, ◌∙◌,
}
use marc_comparator.Base.Sets.{includes, delete, add_all, distinct}

pub data Permission : Type 0 where
  read_records review_records manage_reviews add_records sync_records_from_catalog : Permission
  process_records run_partial_record_tasks manage_tasks manage_all_tasks : Permission
  manage_access_control manage_app_settings manage_task_settings : Permission

code : Permission → ℕ
code read_records = 0
code review_records = 1
code manage_reviews = 2
code add_records = 3
code sync_records_from_catalog = 4
code process_records = 5
code run_partial_record_tasks = 6
code manage_tasks = 7
code manage_all_tasks = 8
code manage_access_control = 9
code manage_app_settings = 10
code manage_task_settings = 11

-- In the order of the keys of `PermissionDependencies`.
abbrev pub all_permissions : List Permission
all_permissions =
    read_records ∷ review_records ∷ manage_reviews ∷ add_records ∷ sync_records_from_catalog
    ∷ process_records ∷ run_partial_record_tasks ∷ manage_tasks ∷ manage_all_tasks
    ∷ manage_task_settings ∷ manage_access_control ∷ manage_app_settings ∷ []

permission_at : ℕ → List Permission → Permission
permission_at n [] = read_records
permission_at n (p ∷ ps) = if nat_eqb n (code p) then p else permission_at n ps

permission_at-code : (p : Permission) → permission_at (code p) all_permissions ≡ p
unfolding permission_at code
permission_at-code read_records = refl
permission_at-code _ = refl

unfoldable pub permission_eqb : Permission → Permission → Bool
unfolding code
permission_eqb p q = nat_eqb (code p) (code q)

pub permission_eqb_iff : (p q : Permission) → (permission_eqb p q ≡ true) ↔ (p ≡ q)
unfolding permission_eqb
permission_eqb_iff p q = (
  λ h.
      sym (permission_at-code p)
      ∙ (ap (λ n. permission_at n all_permissions) ((nat_eqb_iff (code p) (code q)).0 h)
          ∙ permission_at-code q),
  λ e. (nat_eqb_iff (code p) (code q)).1 (ap code e),
)

instance abbrev pub permission_eq : StrictEq Permission
permission_eq = record { triple_eq = permission_eqb; triple_eq_iff = permission_eqb_iff }

-- `PermissionDependencies`.
unfoldable pub dependencies : Permission → List Permission
dependencies read_records = []
dependencies review_records = read_records ∷ []
dependencies manage_reviews = review_records ∷ []
dependencies add_records = read_records ∷ []
dependencies sync_records_from_catalog = read_records ∷ add_records ∷ manage_tasks ∷ []
dependencies process_records = read_records ∷ []
dependencies run_partial_record_tasks = read_records ∷ []
dependencies manage_tasks = process_records ∷ run_partial_record_tasks ∷ []
dependencies manage_all_tasks = manage_tasks ∷ []
dependencies manage_task_settings = manage_tasks ∷ []
dependencies manage_access_control = []
dependencies manage_app_settings = []

-- `xs.flatMap(f)` for an `f` that may run out of fuel.
unfoldable pub flat_map_dependencies :
    (Permission → Option (List Permission)) → List Permission → Option (List Permission)
flat_map_dependencies f [] = some []
flat_map_dependencies f (p ∷ ps) = do
  here ← f p
  rest ← flat_map_dependencies f ps
  some (here ++ rest)

unfoldable pub get_all_dependencies : ℕ → Permission → Option (List Permission)
unfolding flat_map_dependencies dependencies add_all
get_all_dependencies zero p = none
get_all_dependencies (suc fuel) p = do
  indirect ← flat_map_dependencies (get_all_dependencies fuel) (dependencies p)
  some (distinct (dependencies p ++ indirect))

-- The permissions that name `removed` among their direct dependencies.
unfoldable pub dependents : Permission → List Permission
dependents removed = filter (λ q. includes (dependencies q) removed) all_permissions

-- The loop over `dependents` in `removeDependents`; `remove` is its recursive call.
unfoldable pub remove_each :
    (List Permission → Permission → Option (List Permission))
    → List Permission
    → List Permission
    → Option (List Permission)
remove_each remove updated [] = some updated
remove_each remove updated (dep ∷ deps) = do
  next ← (if includes updated dep then remove updated dep else some updated)
  remove_each remove next deps

unfoldable pub remove_dependents : ℕ → List Permission → Permission → Option (List Permission)
unfolding remove_each
remove_dependents zero selected removed = none
remove_dependents (suc fuel) selected removed =
    remove_each (remove_dependents fuel) (delete selected removed) (dependents removed)

-- The dependency graph has no cycle, so its twelve nodes bound the depth of both recursions.
abbrev pub depth_bound : ℕ
depth_bound = 12

unfoldable pub toggle_permission : List Permission → Permission → Bool → Option (List Permission)
toggle_permission current permission checked =
    if checked
    then (do
      deps ← get_all_dependencies depth_bound permission
      some (distinct (current ++ permission ∷ deps)))
    else remove_dependents depth_bound current permission

-- `PermissionGuard`: one permission, any of some, or all of some.
pub data Guard : Type 0 where
  one : Permission → Guard
  any_of all_of : List Permission → Guard

-- `hasPermission`; `none` is `undefined`, while the user is loading or not known.
unfoldable pub has_permission : Bool → Option (List Permission) → Guard → Option Bool
has_permission true me guard = none
has_permission false none guard = none
has_permission false (some permissions) (one p) = some (includes permissions p)
has_permission false (some permissions) (any_of ps) = some (any (includes permissions) ps)
has_permission false (some permissions) (all_of ps) = some (all (includes permissions) ps)
