-- ===== src/Queries/Stale.antt =====
-- What is fetched again after a task and after a review.
use marc_comparator.Base.{◌≡◌, refl, Bool, true, false, ◌&&◌, ◌||◌, any, ◌==◌, arith}
use marc_comparator.Base.Text.{Text, text_eq, text_eqb}
use marc_comparator.Queries.{
  Query, me, oidc_enabled, system_info, locks, users, roles, records_search, facets, facets_preview,
  marc, comparisons, validations, reviews, tasks_list, running_tasks, traceback, settings, health,
  query_key, task_status_changed, review_created, review_deleted, review_keys, invalidated,
  is_prefix, is_stale,
}

-- The query asks for records, or for what tasks make of them.
abbrev pub is_about_records : Query → Bool
is_about_records (records_search payload) = true
is_about_records (facets record_filter) = true
is_about_records (facets_preview target_field record_filter) = true
is_about_records (marc base system_number) = true
is_about_records (comparisons base system_number) = true
is_about_records (validations base system_number) = true
is_about_records (reviews base system_number) = true
is_about_records _ = false

abbrev pub is_about_tasks : Query → Bool
is_about_tasks (tasks_list search_endpoint page) = true
is_about_tasks running_tasks = true
is_about_tasks (traceback task_id) = true
is_about_tasks _ = false

-- After the end of a task, exactly the queries about tasks and about records are stale; on another
-- change of its status, exactly those about tasks.
pub is_stale-task_status :
    (is_final : Bool) (q : Query)
    → is_stale (task_status_changed is_final) q
      ≡ (is_about_tasks q || is_final && is_about_records q)
unfolding is_stale invalidated query_key is_prefix any text_eqb
is_stale-task_status true me = refl
is_stale-task_status true oidc_enabled = refl
is_stale-task_status true system_info = refl
is_stale-task_status true locks = refl
is_stale-task_status true users = refl
is_stale-task_status true roles = refl
is_stale-task_status true (records_search p) = refl
is_stale-task_status true (facets f) = refl
is_stale-task_status true (facets_preview t f) = refl
is_stale-task_status true (marc b s) = refl
is_stale-task_status true (comparisons b s) = refl
is_stale-task_status true (validations b s) = refl
is_stale-task_status true (reviews b s) = refl
is_stale-task_status true (tasks_list e p) = refl
is_stale-task_status true running_tasks = refl
is_stale-task_status true (traceback t) = refl
is_stale-task_status true (settings c) = refl
is_stale-task_status true health = refl
is_stale-task_status false me = refl
is_stale-task_status false oidc_enabled = refl
is_stale-task_status false system_info = refl
is_stale-task_status false locks = refl
is_stale-task_status false users = refl
is_stale-task_status false roles = refl
is_stale-task_status false (records_search p) = refl
is_stale-task_status false (facets f) = refl
is_stale-task_status false (facets_preview t f) = refl
is_stale-task_status false (marc b s) = refl
is_stale-task_status false (comparisons b s) = refl
is_stale-task_status false (validations b s) = refl
is_stale-task_status false (reviews b s) = refl
is_stale-task_status false (tasks_list e p) = refl
is_stale-task_status false running_tasks = refl
is_stale-task_status false (traceback t) = refl
is_stale-task_status false (settings c) = refl
is_stale-task_status false health = refl

abbrev pub is_shown_by_review : Text → Text → Query → Bool
is_shown_by_review base system_number (records_search payload) = true
is_shown_by_review base system_number (reviews b s) = base == b && system_number == s
is_shown_by_review base system_number _ = false

-- After a review was posted or deleted, exactly the searches for records and the reviews of this
-- record are stale. The facets, which count the states of reviews, are not.
pub is_stale-review :
    (base system_number : Text) (q : Query)
    → (is_stale (review_created base system_number) q ≡ is_shown_by_review base system_number q)
      × (is_stale (review_deleted base system_number) q ≡ is_shown_by_review base system_number q)
unfolding is_stale invalidated query_key is_prefix any text_eqb review_keys
is_stale-review base system_number me = (refl, refl)
is_stale-review base system_number oidc_enabled = (refl, refl)
is_stale-review base system_number system_info = (refl, refl)
is_stale-review base system_number locks = (refl, refl)
is_stale-review base system_number users = (refl, refl)
is_stale-review base system_number roles = (refl, refl)
is_stale-review base system_number (records_search p) = (refl, refl)
is_stale-review base system_number (facets f) = (refl, refl)
is_stale-review base system_number (facets_preview t f) = (refl, refl)
is_stale-review base system_number (marc b s) = (refl, refl)
is_stale-review base system_number (comparisons b s) = (refl, refl)
is_stale-review base system_number (validations b s) = (refl, refl)
is_stale-review base system_number (reviews b s) = (ground arith, ground arith)
is_stale-review base system_number (tasks_list e p) = (refl, refl)
is_stale-review base system_number running_tasks = (refl, refl)
is_stale-review base system_number (traceback t) = (refl, refl)
is_stale-review base system_number (settings c) = (refl, refl)
is_stale-review base system_number health = (refl, refl)
