-- ===== src/Queries.antt =====
-- The queries of the client, by their keys, and which of them the code marks as stale, on which
-- occasion. The library for queries matches a key by its beginning. The parts of a key that are not
-- texts, a filter for example, are texts that stand for them.
pub mod Stale
mod Tests
use marc_comparator.Base.{Bool, true, false, ◌&&◌, List, [], ◌∷◌, any, ◌==◌}
use marc_comparator.Base.Text.{Text, lit, text_eq}

-- A query of the code with its arguments: hooks/use-auth.ts, hooks/use-system-info.ts,
-- features/access-control, features/records, features/tasks, features/settings and layout.
pub data Query : Type 0 where
  me : Query
  oidc_enabled : Query
  system_info : Query
  locks : Query
  users : Query
  roles : Query
  records_search : (payload : Text) → Query
  facets : (record_filter : Text) → Query
  facets_preview : (target_field record_filter : Text) → Query
  marc comparisons validations reviews : (base system_number : Text) → Query
  tasks_list : (search_endpoint page : Text) → Query
  running_tasks : Query
  traceback : (task_id : Text) → Query
  settings : (scope : Text) → Query
  health : Query

unfoldable pub query_key : Query → List Text
query_key me = lit "auth" ∷ lit "me" ∷ []
query_key oidc_enabled = lit "auth" ∷ lit "oidc" ∷ lit "enabled" ∷ []
query_key system_info = lit "system" ∷ lit "info" ∷ []
query_key locks = lit "system" ∷ lit "locks" ∷ []
query_key users = lit "access-control" ∷ lit "users" ∷ []
query_key roles = lit "access-control" ∷ lit "roles" ∷ []
query_key (records_search payload) = lit "catalog-records" ∷ lit "search" ∷ payload ∷ []
query_key (facets record_filter) = lit "catalog-records" ∷ lit "facets" ∷ record_filter ∷ []
query_key (facets_preview target_field record_filter) =
    lit "catalog-records" ∷ lit "facets-preview" ∷ target_field ∷ record_filter ∷ []
query_key (marc base system_number) = lit "catalog-records" ∷ lit "marc" ∷ base ∷ system_number ∷ []
query_key (comparisons base system_number) =
    lit "catalog-records" ∷ lit "comparisons" ∷ base ∷ system_number ∷ []
query_key (validations base system_number) =
    lit "catalog-records" ∷ lit "validations" ∷ base ∷ system_number ∷ []
query_key (reviews base system_number) =
    lit "catalog-records" ∷ lit "reviews" ∷ base ∷ system_number ∷ []
query_key (tasks_list search_endpoint page) = lit "tasks" ∷ lit "list" ∷ search_endpoint ∷ page ∷ []
query_key running_tasks = lit "tasks" ∷ lit "running" ∷ []
query_key (traceback task_id) = lit "tasks" ∷ task_id ∷ lit "traceback" ∷ []
query_key (settings scope) = lit "settings" ∷ scope ∷ []
query_key health = lit "health" ∷ []

-- The occasions on which the code marks queries as stale.
pub data Occasion : Type 0 where
  task_status_changed : (is_final : Bool) → Occasion
  lock_changed : Occasion
  task_created : Occasion
  task_cancelled : Occasion
  review_created review_deleted : (base system_number : Text) → Occasion
  sync_refused : Occasion
  role_changed : Occasion
  user_changed : Occasion
  settings_saved : (scope : Text) → Occasion
  logged_in : Occasion

unfoldable pub review_keys : Text → Text → List (List Text)
review_keys base system_number =
    (lit "catalog-records" ∷ lit "reviews" ∷ base ∷ system_number ∷ [])
    ∷ (lit "catalog-records" ∷ lit "search" ∷ [])
    ∷ (lit "facets" ∷ [])
    ∷ []

unfoldable pub invalidated : Occasion → List (List Text)
unfolding review_keys
invalidated (task_status_changed true) = (lit "tasks" ∷ []) ∷ (lit "catalog-records" ∷ []) ∷ []
invalidated (task_status_changed false) = (lit "tasks" ∷ []) ∷ []
invalidated lock_changed = (lit "system" ∷ lit "locks" ∷ []) ∷ []
invalidated task_created = (lit "tasks" ∷ []) ∷ []
invalidated task_cancelled = (lit "tasks" ∷ []) ∷ []
invalidated (review_created base system_number) = review_keys base system_number
invalidated (review_deleted base system_number) = review_keys base system_number
invalidated sync_refused = (lit "system" ∷ lit "locks" ∷ []) ∷ []
invalidated role_changed = (lit "access-control" ∷ lit "roles" ∷ []) ∷ []
invalidated user_changed = (lit "access-control" ∷ lit "users" ∷ []) ∷ []
invalidated (settings_saved scope) = (lit "settings" ∷ scope ∷ []) ∷ []
invalidated logged_in = (lit "auth" ∷ []) ∷ []

-- The key begins with the other.
unfoldable pub is_prefix : List Text → List Text → Bool
is_prefix [] key = true
is_prefix (p ∷ ps) [] = false
is_prefix (p ∷ ps) (k ∷ ks) = p == k && is_prefix ps ks

unfoldable pub is_stale : Occasion → Query → Bool
unfolding invalidated query_key is_prefix
is_stale occasion q = any (λ prefix. is_prefix prefix (query_key q)) (invalidated occasion)
