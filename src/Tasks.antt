-- ===== src/Tasks.antt =====
-- The page of tasks: client/src/features/tasks/tasks-page.tsx and task-table.tsx, task-detail.tsx,
-- with client/src/layout/task-progress.tsx, main-banner.tsx and lock-banner.tsx, and the types of
-- client/src/types/task.ts.
pub mod Pages
pub mod Times
mod Tests
use marc_comparator.Base.{
  ℕ, zero, suc, ◌+◌, ◌-◌, ◌*◌, ◌/◌, ◌%◌, ◌≡◌, Bool, true, false, not, ◌&&◌, ◌||◌, Option, none,
  some, List, [], ◌∷◌, ◌++◌, map, any, find?, filter, length, if◌then◌else◌, ◌==◌, nat_eq, leb, ltb,
  or_else, present,
}
use marc_comparator.Base.Text.{Text, lit, text_eq, truthy, starts_with}
use marc_comparator.Carousel.Navigation.{total_pages}

pub data TaskType : Type 0 where
  fetch_record fetch_batch_of_records sync_records link_records_to_authorities : TaskType
  compare_records validate_records set_record_visibility delete_tasks : TaskType
  process_records rebuild_analytical_data : TaskType

pub data TaskStatus : Type 0 where
  pending started success failure revoked : TaskStatus

pub data TaskSeverity : Type 0 where
  info warning error critical : TaskSeverity

-- `P` are the numbers that measure progress; the times are milliseconds.
pub record Task (P : Type 0) : Type 0 where
  pub task_id : Text
  pub type : TaskType
  pub status : TaskStatus
  pub severity : TaskSeverity
  pub progress : Option P
  pub created_by : Text
  pub created_at : ℕ
  pub started_at : Option ℕ
  pub finished_at : Option ℕ

pub data BadgeVariant : Type 0 where
  default_badge secondary_badge destructive_badge outline_badge : BadgeVariant

abbrev pub status_variant : TaskStatus → BadgeVariant
status_variant pending = outline_badge
status_variant started = default_badge
status_variant success = secondary_badge
status_variant failure = destructive_badge
status_variant revoked = outline_badge

-- The text of a duration.
pub data Duration : Type 0 where
  in_seconds : ℕ → Duration
  in_minutes : (minutes seconds : ℕ) → Duration

-- `formatDuration`, for an end that is not before the start.
unfoldable pub format_duration : ℕ → ℕ → Duration
format_duration start end =
    let seconds = (end - start) / 1000 in
    if ltb seconds 60 then in_seconds seconds else in_minutes (seconds / 60) (seconds % 60)

-- The cell with the run time: "-" before the start, "..." before the end. A time that is 0 is a
-- text in the source, which is not empty.
pub data RunTime : Type 0 where
  not_started : RunTime
  still_running : RunTime
  ran : Duration → RunTime

abbrev pub run_time : Option ℕ → Option ℕ → RunTime
run_time none finished = not_started
run_time (some start) none = still_running
run_time (some start) (some end) = ran (format_duration start end)

-- A row of the table; the name of the creator is shown to those who see the tasks of all.
pub record Row : Type 0 where
  pub is_selected : Bool
  pub variant : BadgeVariant
  pub time : RunTime
  pub creator : Option Text
  pub can_revoke : Bool

abbrev pub is_started : TaskStatus → Bool
is_started started = true
is_started _ = false

unfoldable pub get_name : List (Text × Text) → Text → Option Text
get_name [] id = none
get_name ((k, name) ∷ rest) id = if k == id then some name else get_name rest id

unfoldable pub set_name : List (Text × Text) → Text → Text → List (Text × Text)
set_name [] id name = (id, name) ∷ []
set_name ((k, v) ∷ rest) id name =
    if k == id then (k, name) ∷ rest else (k, v) ∷ set_name rest id name

pub record User : Type 0 where
  pub id : Text
  pub first_name : Text
  pub last_name : Text

unfoldable pub user_names : List (Text × Text) → List User → List (Text × Text)
unfolding set_name
user_names names [] = names
user_names names (u ∷ us) =
    user_names (set_name names u.id (u.first_name ++ lit " " ++ u.last_name)) us

unfoldable pub row_of : {P : Type 0} → Option Text → Bool → List (Text × Text) → Task P → Row
unfolding get_name format_duration
row_of selected can_see_all names task = record {
  is_selected = elim selected [ some id ↦ id == task.task_id | none ↦ false ];
  variant = status_variant task.status;
  time = run_time task.started_at task.finished_at;
  creator =
      if can_see_all then some (or_else (get_name names task.created_by) task.created_by) else none;
  can_revoke = is_started task.status;
}

-- `handleSelectTask` on the parameter of the URL.
unfoldable pub handle_select_task : Text → Option Text → Option Text
handle_select_task id none = some id
handle_select_task id (some current) = if current == id then none else some id

abbrev pub search_endpoint : Option Bool → Text
search_endpoint can_see_all =
    if or_else can_see_all false then lit "/tasks/search-all" else lit "/tasks/search-own"

abbrev pub page_size : Bool → ℕ
page_size true = 20
page_size false = 15

-- The pager, where it is shown.
pub record Pager : Type 0 where
  pub can_go_back : Bool
  pub can_go_on : Bool

unfoldable pub pager : (page total size : ℕ) → Option Pager
unfolding total_pages
pager page total size =
    if ltb 1 (total_pages total size)
    then some (record {
      can_go_back = not (leb page 1);
      can_go_on = not (leb (total_pages total size) page);
    })
    else none

pub data PagerEvent : Type 0 where
  previous_clicked next_clicked : PagerEvent

abbrev pub click : PagerEvent → ℕ → Option Pager → ℕ
click ev page none = page
click previous_clicked page (some p) = if p.can_go_back then page - 1 else page
click next_clicked page (some p) = if p.can_go_on then page + 1 else page

-- The page after an event. The total may be another at each event; it and the page size are those of
-- the moment.
unfoldable pub turn : PagerEvent × (ℕ × ℕ) → ℕ → ℕ
unfolding pager
turn (ev, (total, size)) page = click ev page (pager page total size)

unfoldable pub turn_all : List (PagerEvent × (ℕ × ℕ)) → ℕ → ℕ
unfolding turn
turn_all [] page = page
turn_all (ev ∷ evs) page = turn_all evs (turn ev page)

-- The running tasks of the banner, and whether they are fetched again after five seconds.
unfoldable pub refetch_interval : {P : Type 0} → Option (List (Task P)) → Option ℕ
refetch_interval none = none
refetch_interval (some tasks) = if any (λ t. is_started t.status) tasks then some 5000 else none

pub data Progress (P : Type 0) : Type 0 where
  no_task : Progress P
  one_task : Task P → Progress P
  many_tasks : List (Task P) → Progress P

unfoldable pub task_progress : {P : Type 0} → List (Task P) → Progress P
task_progress [] = no_task
task_progress (t ∷ []) = one_task t
task_progress (t ∷ u ∷ ts) = many_tasks (t ∷ u ∷ ts)

-- The name of a lock: the base of a synchronisation, or the lock as it is.
pub data LockName : Type 0 where
  catalog_sync : (base : Text) → LockName
  other_lock : Text → LockName

abbrev pub sync_prefix : Text
sync_prefix = lit "catalog_sync_"

unfoldable pub drop_prefix : Text → Text → Option Text
drop_prefix [] t = some t
drop_prefix (p ∷ ps) [] = none
drop_prefix (p ∷ ps) (c ∷ cs) = let rest = drop_prefix ps cs in if p == c then rest else none

-- The expression `.` stands for a character that ends no line.
abbrev pub is_line : Text → Bool
is_line [] = true
is_line (c ∷ cs) =
    let rest = is_line cs in not (c == 10 || c == 13 || c == 8232 || c == 8233) && rest

abbrev pub lock_name_of : Text → Option Text → LockName
lock_name_of lock none = other_lock lock
lock_name_of lock (some base) =
    if truthy base && is_line base then catalog_sync base else other_lock lock

unfoldable pub format_lock_name : Text → LockName
unfolding drop_prefix
format_lock_name lock = lock_name_of lock (drop_prefix sync_prefix lock)
