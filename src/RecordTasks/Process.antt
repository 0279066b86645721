-- ===== src/RecordTasks/Process.antt =====
-- `RecordTaskActions` of client/src/features/records/record-task-actions.tsx: the button that has
-- the records processed, behind a confirmation; and the texts about the number of records.
use mathlib.Core.Bool.{false≢true}
use marc_comparator.Base.{
  ℕ, ◌≡◌, refl, sym, Bool, true, false, ◌&&◌, Option, none, some, List, [], ◌∷◌, if◌then◌else◌,
  arith, Bool-cases, inl, inr, ◌+◌, ◌-◌, nat_eqb, ◌≤◌,
}
use marc_comparator.Base.Text.{Text, lit}

-- The translated texts: the key, and the number of records where the text names it.
pub data Description : Type 0 where
  single_text : Text → Description
  bulk_text : Text → Text → Description

abbrev pub is_single : Option ℕ → Bool
is_single none = false
is_single (some n) = nat_eqb n 1

-- `totalCount ?? "?"`; `to_text` is the text of a number.
abbrev pub count_text : (ℕ → Text) → Option ℕ → Text
count_text to_text none = lit "?"
count_text to_text (some n) = to_text n

unfoldable pub describe : (ℕ → Text) → (single bulk : Text) → Option ℕ → Description
describe to_text single bulk total =
    if is_single total then single_text single else bulk_text bulk (count_text to_text total)

-- Whether the confirmation is open, and whether the mutation is pending.
pub record ProcessState : Type 0 where
  pub pending_action : Bool
  pub processing : Bool

abbrev pub idle : ProcessState
idle = record { pending_action = false; processing = false }

pub data ProcessEvent : Type 0 where
  process_clicked process_confirmed process_dismissed process_settled : ProcessEvent

unfoldable pub confirm_action : ProcessState → ProcessState × ℕ
confirm_action s =
    if s.pending_action then (record { pending_action = false; processing = true }, 1) else (s, 0)

-- The state after an event, with the number of requests that it sent. The button is disabled while
-- the mutation is pending.
unfoldable pub process_step : ProcessEvent → ProcessState → ProcessState × ℕ
unfolding confirm_action
process_step process_clicked s = (if s.processing then s else record s { pending_action = true }, 0)
process_step process_confirmed s = confirm_action s
process_step process_dismissed s = (record s { pending_action = false }, 0)
process_step process_settled s = (record s { processing = false }, 0)

-- The number of requests in flight after the events: `process_settled` is the end of one.
abbrev pub sent_after : ProcessEvent → ℕ → ℕ
sent_after process_settled n = n - 1
sent_after _ n = n

unfoldable pub in_flight : List ProcessEvent → ProcessState → ℕ → ℕ
unfolding process_step
in_flight [] s n = n
in_flight (ev ∷ evs) s n =
    let after = process_step ev s in in_flight evs after.0 (sent_after ev n + after.1)

abbrev IsCounted : ProcessState → ℕ → Type 0
IsCounted s n =
    (n ≤ 1) × ((s.pending_action && s.processing) ≡ false) × (s.processing ≡ false → n ≡ 0)

-- A step keeps the invariant.
IsCounted-step :
    (ev : ProcessEvent) (s : ProcessState) (n : ℕ)
    → IsCounted s n
    → IsCounted (process_step ev s).0 (sent_after ev n + (process_step ev s).1)
unfolding process_step confirm_action
IsCounted-step process_clicked s n h = elim (Bool-cases s.processing) [
  | inl e ↦ rw e (ground (arith, h.0), ground (arith, h.1, e), λ k. absurd (false≢true (sym k)))
  | inr e ↦ rw e (ground (arith, h.0), ground arith, λ k. ground (arith, h.2 e))
]
IsCounted-step process_confirmed s n h = elim (Bool-cases s.pending_action) [
  | inl e ↦
      let quiet : s.processing ≡ false = ground (arith, h.1, e) in
      rw e (ground (arith, h.2 quiet), refl, λ k. absurd (false≢true (sym k)))
  | inr e ↦ rw e (ground (arith, h.0), ground arith, λ k. ground (arith, h.2 k))
]
IsCounted-step process_dismissed s n h = (ground (arith, h.0), refl, λ k. ground (arith, h.2 k))
IsCounted-step process_settled s n h = (ground (arith, h.0), ground arith, λ k. ground (arith, h.0))

in_flight-IsCounted :
    (evs : List ProcessEvent) (s : ProcessState) (n : ℕ) → IsCounted s n → in_flight evs s n ≤ 1
unfolding in_flight
in_flight-IsCounted [] s n h = h.0
in_flight-IsCounted (ev ∷ evs) s n h =
    in_flight-IsCounted evs (process_step ev s).0 _ (IsCounted-step ev s n h)

-- However the button is clicked, confirmed and dismissed, at most one request to process the
-- records is in flight.
pub in_flight-idle : (evs : List ProcessEvent) → in_flight evs idle 0 ≤ 1
in_flight-idle evs = in_flight-IsCounted evs idle 0 (ground arith, refl, λ k. refl)
