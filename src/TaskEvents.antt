-- ===== src/TaskEvents.antt =====
-- `useWsEvents` of client/src/hooks/use-ws-events.ts: the messages about the status of a task. The
-- messages of a task that come within 300 ms of each other are put together, by a timer for each
-- task; the timers of the browser are a part of the state.
pub mod Entries
pub mod Latest
mod Tests
use marc_comparator.Base.{
  ℕ, suc, ◌≡◌, Bool, true, false, not, ◌&&◌, ◌||◌, Option, none, some, List, [], ◌∷◌, ◌++◌, filter,
  find?, any, nat_eqb, if◌then◌else◌, ◌==◌, map,
}
use marc_comparator.Base.Text.{Text, lit, text_eq, truthy}
use marc_comparator.Notifications.{Entry, Variant, default, success, error}

pub data Status : Type 0 where
  is_pending is_started is_success is_failure : Status

-- `TaskStatusMessage`.
pub record Message : Type 0 where
  pub task_id : Text
  pub task_type : Option Text
  pub name : Option Text
  pub status : Status

-- A task of a list that the client has, and the handler of "task_progress" on its items. `P` are
-- the numbers that measure progress.
pub record TaskItem (P : Type 0) : Type 0 where
  pub task_id : Text
  pub progress : Option P

unfoldable pub update_items : {P : Type 0} → Text → Option P → List (TaskItem P) → List (TaskItem P)
update_items task progress [] = []
update_items task progress (item ∷ items) =
    (if item.task_id == task then record item { progress = progress } else item)
    ∷ update_items task progress items

-- What the hook does to the outside, in order.
pub data Effect : Type 0 where
  invalidate_queries : List Text → Effect
  toast : Variant → Text → Effect
  notify : Entry → Effect

-- `pendingEvents` with the timer of each task, and the timers that have not fired.
pub record Pending : Type 0 where
  pub events : List (Text × (Message × ℕ))
  pub timers : List (ℕ × Message)
  pub next_timer : ℕ

abbrev pub no_events : Pending
no_events = record { events = []; timers = []; next_timer = 0 }

unfoldable pub get : List (Text × (Message × ℕ)) → Text → Option (Message × ℕ)
get [] key = none
get ((k, v) ∷ rest) key = if k == key then some v else get rest key

-- `pendingEvents.set`: in place where the key is there, else at the end.
unfoldable pub set : List (Text × (Message × ℕ)) → Text → Message × ℕ → List (Text × (Message × ℕ))
set [] key value = (key, value) ∷ []
set ((k, v) ∷ rest) key value = if k == key then (k, value) ∷ rest else (k, v) ∷ set rest key value

unfoldable pub remove : List (Text × (Message × ℕ)) → Text → List (Text × (Message × ℕ))
remove events key = filter (λ e. not (e.0 == key)) events

unfoldable pub clear_timeout : List (ℕ × Message) → ℕ → List (ℕ × Message)
clear_timeout timers t = filter (λ e. not (nat_eqb e.0 t)) timers

abbrev pub clear_existing : List (ℕ × Message) → Option (Message × ℕ) → List (ℕ × Message)
clear_existing timers none = timers
clear_existing timers (some existing) = clear_timeout timers existing.1

-- The handler of "task_status".
unfoldable pub on_status : Message → Pending → Pending
unfolding get set clear_timeout
on_status msg s = record {
  events = set s.events msg.task_id (msg, s.next_timer);
  timers = clear_existing s.timers (get s.events msg.task_id) ++ (s.next_timer, msg) ∷ [];
  next_timer = suc s.next_timer;
}

-- The name of the task of a message; `translate` gives the name of a type.
unfoldable pub task_name : (Text → Text) → Message → Text
task_name translate msg = elim msg.task_type [
  | none ↦ msg.task_id
  | some type ↦ if truthy type then translate type else msg.task_id
]

abbrev pub status_key : Status → Text
status_key is_pending = lit "toast.pending"
status_key is_started = lit "toast.started"
status_key is_success = lit "toast.completed"
status_key is_failure = lit "toast.failed"

abbrev pub status_variant : Status → Variant
status_variant is_pending = default
status_variant is_started = default
status_variant is_success = success
status_variant is_failure = error

abbrev pub is_final : Status → Bool
is_final is_success = true
is_final is_failure = true
is_final _ = false

-- `handleTaskStatus`; `text_of` is the translation of a key with the name of the task, and `now`
-- the time.
unfoldable pub handle_task_status :
    (translate : Text → Text) (text_of : Text → Text → Text) (now : Text) → Message → List Effect
unfolding task_name
handle_task_status translate text_of now msg =
    let name = task_name translate msg in
    let description = text_of (status_key msg.status) name in
    invalidate_queries (lit "tasks" ∷ [])
    ∷ toast (status_variant msg.status) description
    ∷ notify (record {
      title = name;
      description = some description;
      variant = status_variant msg.status;
      timestamp = now;
      task_id = some msg.task_id;
    })
    ∷ (if is_final msg.status then invalidate_queries (lit "catalog-records" ∷ []) ∷ [] else [])

-- The callback of a timer, for the message that it was set for.
unfoldable pub fire : Option (ℕ × Message) → ℕ → Pending → Pending × Option Message
unfolding remove clear_timeout
fire none t s = (s, none)
fire (some e) t s =
    (record s { events = remove s.events e.1.task_id; timers = clear_timeout s.timers t }, some e.1)

-- The timer `t` fires: the message that it was set for is handled.
unfoldable pub on_timer : ℕ → Pending → Pending × Option Message
unfolding fire
on_timer t s = fire (find? (λ e. nat_eqb e.0 t) s.timers) t s

-- The clean-up of the effect: the loop over the pending events.
unfoldable pub clear_all : List (Text × (Message × ℕ)) → List (ℕ × Message) → List (ℕ × Message)
unfolding clear_timeout
clear_all [] timers = timers
clear_all (e ∷ es) timers = clear_all es (clear_timeout timers e.1.1)

unfoldable pub on_unmount : Pending → Pending
unfolding clear_all
on_unmount s = record s { events = []; timers = clear_all s.events s.timers }

pub data Event : Type 0 where
  received : Message → Event
  fired : ℕ → Event

-- The state after the events, with the messages that were handled.
unfoldable pub run : List Event → Pending → Pending × List Message
unfolding on_status on_timer
run [] s = (s, [])
run (received msg ∷ evs) s = run evs (on_status msg s)
run (fired t ∷ evs) s =
    let (next, handled) = on_timer t s in
    let (final, more) = run evs next in
    (final, elim handled [ none ↦ more | some msg ↦ msg ∷ more ])
