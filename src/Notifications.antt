-- ===== src/Notifications.antt =====
-- The store of client/src/layout/toast-history.tsx: the notifications, the newest first. The
-- argument `id` is what `crypto.randomUUID()` gives.
pub mod Store
mod Tests
use marc_comparator.Base.{
  ℕ, suc, ◌+◌, ◌≡◌, Bool, true, false, not, ◌&&◌, ◌||◌, Option, none, some, List, [], ◌∷◌, ◌++◌,
  map, take, any, filter, length, if◌then◌else◌, ◌==◌,
}
use marc_comparator.Base.Text.{Text, text_eq, truthy}

pub data Variant : Type 0 where
  default success error : Variant

unfoldable pub variant_eqb : Variant → Variant → Bool
variant_eqb default default = true
variant_eqb success success = true
variant_eqb error error = true
variant_eqb _ _ = false

-- What a caller of `addNotification` gives.
pub record Entry : Type 0 where
  pub title : Text
  pub description : Option Text
  pub variant : Variant
  pub timestamp : Text
  pub task_id : Option Text

pub record Notification : Type 0 where
  pub id : Text
  pub entry : Entry
  pub is_read : Bool

-- `n.taskId === entry.taskId`, where the entry has a task.
abbrev pub same_task : Option Text → Option Text → Bool
same_task (some s) (some t) = truthy s && s == t
same_task _ _ = false

-- The notification that makes an entry a duplicate.
unfoldable pub is_duplicate : Entry → Notification → Bool
is_duplicate e n = same_task e.task_id n.entry.task_id && variant_eqb n.entry.variant e.variant

unfoldable pub add_notification : Text → Entry → List Notification → List Notification
unfolding is_duplicate
add_notification id e ns =
    if any (is_duplicate e) ns
    then ns
    else take 100 (record { id = id; entry = e; is_read = false } ∷ ns)

abbrev mark_read : Notification → Notification
mark_read n = record n { is_read = true }

unfoldable pub mark_all_read : List Notification → List Notification
mark_all_read ns = map mark_read ns

unfoldable pub unread_count : List Notification → ℕ
unread_count ns = length (filter (λ n. not n.is_read) ns)

-- What happens to the store.
pub data Event : Type 0 where
  notified : (id : Text) → Entry → Event
  opened : Event

unfoldable pub run : List Event → List Notification → List Notification
unfolding add_notification mark_all_read
run [] ns = ns
run (notified id e ∷ evs) ns = run evs (add_notification id e ns)
run (opened ∷ evs) ns = run evs (mark_all_read ns)
