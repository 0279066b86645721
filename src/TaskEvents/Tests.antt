-- ===== src/TaskEvents/Tests.antt =====
-- The events of concrete tasks, and the theorems about them.
use marc_comparator.Base.{◌≡◌, refl, none, some, List, [], ◌∷◌, ◌++◌, find?, filter}
use marc_comparator.Base.Text.{Text, lit, text_eqb}
use marc_comparator.TaskEvents.{
  Status, is_pending, is_started, Message, no_events, on_status, on_timer, fire, get, set, remove,
  clear_timeout, Event, received, fired, run,
}
use marc_comparator.TaskEvents.Latest.{newest, on_timer-newest}

abbrev message : Text → Status → Message
message task status = record { task_id = task; task_type = none; name = none; status = status }

runs : Unit {0}
unfolding run on_status on_timer fire get set remove clear_timeout find? filter text_eqb newest
runs = tt

abbrev quick : List Event
quick =
    received (message (lit "a") is_pending)
    ∷ received (message (lit "b") is_pending)
    ∷ received (message (lit "a") is_started)
    ∷ []

-- The first message of the task "a" was superseded: its timer 0 hands on nothing.
superseded :
    (run (quick ++ fired 0 ∷ fired 2 ∷ fired 1 ∷ []) no_events).1
    ≡ message (lit "a") is_started ∷ message (lit "b") is_pending ∷ []
unfolding runs
superseded = refl

on_timer-newest_example : newest (lit "a") quick none ≡ some (message (lit "a") is_started)
unfolding runs
on_timer-newest_example = on_timer-newest quick 2 (message (lit "a") is_started) refl
