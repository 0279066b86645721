-- ===== src/Permission/Tests.antt =====
-- Runs of `togglePermission` and `hasPermission`, and the theorems at concrete selections.
use marc_comparator.Base.{
  ◌≡◌, refl, true, false, none, some, List, [], ◌∷◌, ◌↔◌, ◌⊎◌, all, any, filter,
}
use marc_comparator.Base.Sets.{includes, add, delete}
use marc_comparator.Permission.{
  Permission, read_records, add_records, sync_records_from_catalog, process_records,
  run_partial_record_tasks, manage_tasks, manage_all_tasks, manage_access_control,
  manage_app_settings, permission_eq, permission_eqb, dependents, remove_dependents,
  get_all_dependencies, toggle_permission, has_permission, one, any_of, all_of,
}
use marc_comparator.Permission.Graph.{IsClosed, Needs, closure, closure-IsClosed}
use marc_comparator.Permission.Toggle.{
  toggle_permission-checked, toggle_permission-unchecked, toggle_permission-IsClosed,
}

runs : Unit {0}
unfolding toggle_permission get_all_dependencies remove_dependents dependents includes
    permission_eqb add delete filter closure any all has_permission
runs = tt

check_all_tasks :
    toggle_permission (manage_access_control ∷ []) manage_all_tasks true
    ≡ some (
        manage_access_control ∷ manage_all_tasks ∷ manage_tasks ∷ process_records
        ∷ run_partial_record_tasks ∷ read_records ∷ [])
unfolding runs
check_all_tasks = refl

uncheck_read :
    toggle_permission (read_records ∷ process_records ∷ manage_app_settings ∷ []) read_records false
    ≡ some (manage_app_settings ∷ [])
unfolding runs
uncheck_read = refl

-- What is not closed to begin with need not be closed afterwards.
uncheck_of_open_selection :
    toggle_permission (read_records ∷ manage_all_tasks ∷ []) read_records false
    ≡ some (manage_all_tasks ∷ [])
unfolding runs
uncheck_of_open_selection = refl

guards :
    (has_permission false (some (read_records ∷ [])) (any_of (add_records ∷ read_records ∷ []))
      ≡ some true)
    × (has_permission false (some (read_records ∷ [])) (all_of (add_records ∷ read_records ∷ []))
        ≡ some false)
    × (has_permission true (some (read_records ∷ [])) (one read_records) ≡ none)
unfolding runs
guards = (refl, refl, refl)

abbrev task_manager : List Permission
task_manager = manage_tasks ∷ closure manage_tasks

toggle_permission-checked_example :
    (r : List Permission) × (toggle_permission task_manager sync_records_from_catalog true ≡ some r)
    × ((q : Permission)
        → (includes r q ≡ true)
          ↔ ((includes task_manager q ≡ true) ⊎ Needs sync_records_from_catalog q))
toggle_permission-checked_example = toggle_permission-checked task_manager sync_records_from_catalog

toggle_permission-unchecked_example :
    (r : List Permission) × (toggle_permission task_manager process_records false ≡ some r)
    × ((q : Permission)
        → (includes r q ≡ true) ↔ ((includes task_manager q ≡ true) × ¬ Needs q process_records))
toggle_permission-unchecked_example =
    toggle_permission-unchecked task_manager process_records (closure-IsClosed manage_tasks)

toggle_permission-IsClosed_example :
    (r : List Permission) × (toggle_permission task_manager process_records false ≡ some r)
    × IsClosed r
toggle_permission-IsClosed_example =
    toggle_permission-IsClosed task_manager process_records false (closure-IsClosed manage_tasks)
