-- ===== src/TaskEvents/Latest.antt =====
-- What is handled is the newest message of its task, and nothing is handled after the clean-up.
use mathlib.Core.Bool.{false≢true}
use mathlib.Core.Path.{subst}
use mathlib.Core.Option.{some_inj, none-ne-some}
use marc_comparator.Base.{
  ℕ, ◌≡◌, ◌≢◌, refl, sym, ap, ◌∙◌, Bool, true, false, not, Option, none, some, List, [], ◌∷◌, ◌++◌,
  filter, find?, nat_eqb, nat_eqb_iff, if◌then◌else◌, ◌==◌, eq_iff, eq_refl, arith, Bool-cases, inl,
  inr, All, Option-cases, All-weaken, any, find?_test,
}
use marc_comparator.Base.Text.{Text, text_eq}
use marc_comparator.TaskEvents.{
  Message, Pending, no_events, get, set, remove, clear_timeout, clear_existing, on_status, fire,
  on_timer, clear_all, on_unmount, Event, received, fired, run,
}
use marc_comparator.TaskEvents.Entries.{get-set, get-remove}

-- The newest message of a task in a list of events.
unfoldable pub newest : Text → List Event → Option Message → Option Message
newest task [] last = last
newest task (received msg ∷ evs) last =
    newest task evs (if msg.task_id == task then some msg else last)
newest task (fired t ∷ evs) last = newest task evs last

-- A timer that will fire is the one of the pending event of its task, and its message is the newest
-- of the task.
abbrev Backed : List (Text × (Message × ℕ)) → (Text → Option Message) → ℕ × Message → Type 0
Backed events last (t, msg) =
    (get events msg.task_id ≡ some (msg, t)) × (last msg.task_id ≡ some msg)

abbrev IsBacked : Pending → (Text → Option Message) → Type 0
IsBacked s last = All (Backed s.events last) s.timers

All-filter :
    {A : Type 0} (P Q : A → Type 0) (keep : A → Bool) (xs : List A)
    → ((x : A) → keep x ≡ true → P x → Q x)
    → All P xs
    → All Q (filter keep xs)
unfolding filter
All-filter P Q keep [] f h = tt
All-filter P Q keep (x ∷ xs) f h = elim (Bool-cases (keep x)) [
  | inl e ↦ rw e (f x e h.0, All-filter P Q keep xs f h.1)
  | inr e ↦ rw e (All-filter P Q keep xs f h.1)
]

All-concat :
    {A : Type 0} (P : A → Type 0) (xs : List A) (x : A) → All P xs → P x → All P (xs ++ x ∷ [])
All-concat P [] x h p = (p, tt)
All-concat P (y ∷ ys) x h p = (h.0, All-concat P ys x h.1 p)

abbrev updated : (Text → Option Message) → Message → Text → Option Message
updated last msg task = if msg.task_id == task then some msg else last task

not_both : (b : Bool) → not b ≡ true → b ≢ true
not_both true h = λ e. false≢true h
not_both false h = λ e. false≢true e

-- A timer of another task stays backed when a message comes.
Backed-other :
    (events : List (Text × (Message × ℕ))) (last : Text → Option Message) (msg : Message) (n : ℕ)
    (e : ℕ × Message)
    → (msg.task_id == e.1.task_id) ≡ false
    → Backed events last e
    → Backed (set events msg.task_id (msg, n)) (updated last msg) e
Backed-other events last msg n (t, old) differ h =
    (rw (get-set events msg.task_id old.task_id (msg, n), differ) h.0, rw differ h.1)

-- The event of a task is the one that a backed timer of the task is for.
Backed-same :
    (events : List (Text × (Message × ℕ))) (last : Text → Option Message) (task : Text)
    (e : ℕ × Message)
    → Backed events last e
    → (task == e.1.task_id) ≡ true
    → get events task ≡ some (e.1, e.0)
Backed-same events last task (t, old) h same = rw ((eq_iff task old.task_id).0 same) h.0

-- Its timer is then not among the ones that are kept.
not_kept :
    (found : Option (Message × ℕ)) (v : Message × ℕ) (t : ℕ) (old : Message)
    → found ≡ some v
    → found ≡ some (old, t)
    → nat_eqb t v.1 ≡ true
not_kept found v t old here there =
    (nat_eqb_iff t v.1).1 (sym (ap (λ e. e.1) (some_inj.0 (sym here ∙ there))))

Backed-rest :
    (events : List (Text × (Message × ℕ))) (last : Text → Option Message) (msg : Message) (n : ℕ)
    (timers : List (ℕ × Message))
    → All (Backed events last) timers
    → All
        (Backed (set events msg.task_id (msg, n)) (updated last msg))
        (clear_existing timers (get events msg.task_id))
unfolding clear_timeout
Backed-rest events last msg n timers h = elim (Option-cases (get events msg.task_id)) [
  | inl absent ↦ rw absent (
      All-weaken timers
        (λ e b. elim (Bool-cases (msg.task_id == e.1.task_id)) [
          | inl same ↦
              absurd (none-ne-some _ (sym absent ∙ Backed-same events last msg.task_id e b same))
          | inr differ ↦ Backed-other events last msg n e differ b
        ])
        h)
  | inr (v, there) ↦ rw there (
      All-filter _ _ _ timers
        (λ e kept b. elim (Bool-cases (msg.task_id == e.1.task_id)) [
          | inl same ↦ absurd (
              not_both (nat_eqb e.0 v.1) kept (
                not_kept (get events msg.task_id) v e.0 e.1 there
                  (Backed-same events last msg.task_id e b same)))
          | inr differ ↦ Backed-other events last msg n e differ b
        ])
        h)
]

IsBacked-on_status :
    (s : Pending) (last : Text → Option Message) (msg : Message)
    → IsBacked s last
    → IsBacked (on_status msg s) (updated last msg)
unfolding on_status
IsBacked-on_status s last msg h =
    All-concat _ (clear_existing s.timers (get s.events msg.task_id)) (s.next_timer, msg)
      (Backed-rest s.events last msg s.next_timer s.timers h)
      (
        rw (get-set s.events msg.task_id msg.task_id (msg, s.next_timer), eq_refl msg.task_id) refl,
        rw (eq_refl msg.task_id) refl,
      )

All-find :
    {A : Type 0} (P : A → Type 0) (test : A → Bool) (xs : List A) (x : A)
    → find? test xs ≡ some x
    → All P xs
    → P x
unfolding find?
All-find P test [] x e h = absurd (none-ne-some x e)
All-find P test (y ∷ ys) x e h = elim (Bool-cases (test y)) [
  | inl this ↦ subst P (some_inj.0 (sym (rw this refl) ∙ e)) h.0
  | inr later ↦ All-find P test ys x (sym (rw later refl) ∙ e) h.1
]

-- The timers that are left when a backed one fires are backed without its event.
Backed-remove :
    (events : List (Text × (Message × ℕ))) (last : Text → Option Message) (t : ℕ)
    (found e : ℕ × Message)
    → nat_eqb found.0 t ≡ true
    → Backed events last found
    → not (nat_eqb e.0 t) ≡ true
    → Backed events last e
    → Backed (remove events found.1.task_id) last e
Backed-remove events last t (u, msg) (v, old) here backed kept b =
    elim (Bool-cases (msg.task_id == old.task_id)) [
      | inr differ ↦ (get-remove events msg.task_id old.task_id differ ∙ b.0, b.1)
      | inl same ↦ absurd (
          not_both (nat_eqb v t) kept (
            (nat_eqb_iff v t).1 (
              ap (λ e. e.1)
                (some_inj.0 (sym (Backed-same events last msg.task_id (v, old) b same) ∙ backed.0))
              ∙ (nat_eqb_iff u t).0 here)))
    ]

on_timer_lem :
    (s : Pending) (last : Text → Option Message) (t : ℕ)
    → IsBacked s last
    → IsBacked (on_timer t s).0 last
      × ((msg : Message) → (on_timer t s).1 ≡ some msg → last msg.task_id ≡ some msg)
unfolding on_timer fire clear_timeout
on_timer_lem s last t h = elim (Option-cases (find? (λ e. nat_eqb e.0 t) s.timers)) [
  | inl absent ↦ rw absent (h, λ msg e. absurd (none-ne-some msg e))
  | inr (found, there) ↦
      let backed = All-find (Backed s.events last) (λ e. nat_eqb e.0 t) s.timers found there h in
      let here = find?_test (λ e. nat_eqb e.0 t) s.timers found there in
      rw there (
        All-filter _ _ _ s.timers
            (λ e kept b. Backed-remove s.events last t found e here backed kept b) h,
        λ msg e. subst (λ m. last m.task_id ≡ some m) (some_inj.0 e) backed.1,
      )
]

IsBacked-run :
    (evs : List Event) (s : Pending) (last : Text → Option Message)
    → IsBacked s last
    → IsBacked (run evs s).0 (λ task. newest task evs (last task))
unfolding run newest
IsBacked-run [] s last h = h
IsBacked-run (received msg ∷ evs) s last h =
    IsBacked-run evs (on_status msg s) (updated last msg) (IsBacked-on_status s last msg h)
IsBacked-run (fired t ∷ evs) s last h =
    IsBacked-run evs (on_timer t s).0 last (on_timer_lem s last t h).0

-- Whatever messages came and whatever timers fired before, a message that a timer hands on is the
-- newest message of its task: an older one is never handled in its place.
pub on_timer-newest :
    (evs : List Event) (t : ℕ) (msg : Message)
    → (on_timer t (run evs no_events).0).1 ≡ some msg
    → newest msg.task_id evs none ≡ some msg
on_timer-newest evs t msg e =
    (on_timer_lem (run evs no_events).0 (λ task. newest task evs none) t
        (IsBacked-run evs no_events (λ task. none) tt)).1
      msg e

abbrev has_timer : List (Text × (Message × ℕ)) → ℕ → Bool
has_timer events t = any (λ e. nat_eqb t e.1.1) events

get-has_timer :
    (events : List (Text × (Message × ℕ))) (task : Text) (msg : Message) (t : ℕ)
    → get events task ≡ some (msg, t)
    → has_timer events t ≡ true
unfolding get any
get-has_timer [] task msg t e = absurd (none-ne-some _ e)
get-has_timer ((k, v) ∷ rest) task msg t e = elim (Bool-cases (k == task)) [
  | inl this ↦
      let here : get ((k, v) ∷ rest) task ≡ some v = rw this refl in
      let same : v ≡ (msg, t) = some_inj.0 (sym here ∙ e) in
      let timer : nat_eqb t v.1 ≡ true = (nat_eqb_iff t v.1).1 (sym (ap (λ x. x.1) same)) in
      rw timer refl
  | inr later ↦ rw (get-has_timer rest task msg t (sym (rw later refl) ∙ e)) (ground arith)
]

clear_all-empty :
    (events : List (Text × (Message × ℕ))) (timers : List (ℕ × Message))
    → All (λ e. has_timer events e.0 ≡ true) timers
    → clear_all events timers ≡ []
unfolding clear_all clear_timeout any
clear_all-empty [] [] h = refl
clear_all-empty [] (e ∷ timers) h = absurd (false≢true h.0)
clear_all-empty (x ∷ es) timers h =
    clear_all-empty es (clear_timeout timers x.1.1)
      (All-filter _ _ _ timers (λ e kept found. ground (arith, kept, found)) h)

-- After the clean-up no timer is left, whatever messages came before: nothing is handled any more.
pub on_unmount-no_timers : (evs : List Event) → (on_unmount (run evs no_events).0).timers ≡ []
unfolding on_unmount
on_unmount-no_timers evs =
    let s = (run evs no_events).0 in
    clear_all-empty s.events s.timers (
      All-weaken s.timers (λ e b. get-has_timer s.events e.1.task_id e.1 e.0 b.0)
        (IsBacked-run evs no_events (λ task. none) tt))
