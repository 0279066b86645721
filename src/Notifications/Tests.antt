-- ===== src/Notifications/Tests.antt =====
-- The store at concrete notifications, and the theorems about it.
use marc_comparator.Base.{◌≡◌, refl, false, some, List, [], ◌∷◌, any, arith}
use marc_comparator.Base.Text.{lit, text_eqb}
use marc_comparator.Notifications.{
  default, success, Entry, Notification, variant_eqb, is_duplicate, add_notification, notified,
  opened, run,
}
use marc_comparator.Notifications.Store.{IsStore, run-IsStore}

abbrev pending : Entry
pending = record {
  title = lit "Processing";
  description = some (lit "is waiting");
  variant = default;
  timestamp = lit "2025-01-01";
  task_id = some (lit "t1");
}

abbrev started : Entry
started = record pending { description = some (lit "was started") }

abbrev finished : Entry
finished = record pending { description = some (lit "has finished"); variant = success }

-- A task that is waiting and then starts: both entries have the same variant, so that the start is
-- not notified.
run-started :
    run
      (notified (lit "a") pending ∷ notified (lit "b") started ∷ notified (lit "c") finished ∷ [])
      []
    ≡ record { id = lit "c"; entry = finished; is_read = false }
      ∷ record { id = lit "a"; entry = pending; is_read = false }
      ∷ []
unfolding run add_notification any is_duplicate variant_eqb text_eqb
run-started = refl

abbrev no_notification : IsStore []
no_notification = record { few = omega arith; unique = tt }

run-IsStore_example : IsStore (run (notified (lit "a") pending ∷ opened ∷ []) [])
run-IsStore_example = run-IsStore (notified (lit "a") pending ∷ opened ∷ []) [] no_notification

abbrev one : List Notification
one = record { id = lit "a"; entry = pending; is_read = false } ∷ []
