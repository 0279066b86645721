-- ===== src/Addition/Batch.antt =====
-- What the forms that add records send.

use marc_comparator.Base.{
  ◌≡◌, refl, Bool, true, false, not, ◌&&◌, List, [], ◌∷◌, map, filter, All, if_keeps, arith,
  Bool-cases, inl, inr,
}
use marc_comparator.Base.Text.{Text, text_eq, truthy}
use marc_comparator.Addition.{
  Kind, single, batch, sync, Form, is_valid, Request, fetch, fetch_batch, sync_records, split_lines,
  system_numbers, request_of, is_base_locked, is_submit_disabled, Event, base_chosen, input_typed,
  submitted, succeeded, failed, step,
}

-- A request has a base; a batch has no empty number, and a synchronisation is of a base that is not
-- locked.
abbrev pub IsSent : List Text → Request → Type 0
IsSent locks (fetch base system_number) = (truthy base ≡ true) × (truthy system_number ≡ true)
IsSent locks (fetch_batch base numbers) = (truthy base ≡ true) × All (λ n. truthy n ≡ true) numbers
IsSent locks (sync_records base from_date) =
    (truthy base ≡ true) × (is_base_locked locks base ≡ false)

All-filter-truthy : (xs : List Text) → All (λ n. truthy n ≡ true) (filter truthy xs)
unfolding filter
All-filter-truthy [] = tt
All-filter-truthy (x ∷ xs) = elim (Bool-cases (truthy x)) [
  | inl e ↦ rw e (e, All-filter-truthy xs)
  | inr e ↦ rw e (All-filter-truthy xs)
]

-- By the kind of the form.
IsSent-request :
    (trim : Text → Text) (locks : List Text) (kind : Kind) (base input : Text) (pending : Bool)
    → is_submit_disabled locks
        (record { kind = kind; base = base; input = input; is_pending = pending })
      ≡ false
    → is_valid (record { kind = kind; base = base; input = input; is_pending = pending }) ≡ true
    → IsSent locks
        (request_of trim (record { kind = kind; base = base; input = input; is_pending = pending }))
unfolding is_submit_disabled is_valid request_of system_numbers
IsSent-request trim locks single base input pending free valid =
    (ground (arith, valid), ground (arith, valid))
IsSent-request trim locks batch base input pending free valid =
    (ground (arith, valid), All-filter-truthy (map trim (split_lines input)))
IsSent-request trim locks sync base input pending free valid = (valid, ground (arith, free))

-- Whatever the form and the event: what is sent has a base, no empty number, and a synchronisation is
-- not of a base that is known to be locked.
pub step-IsSent :
    (trim : Text → Text) (bases locks : List Text) (ev : Event) (f : Form)
    → All (IsSent locks) (step trim bases locks ev f).1
unfolding step
step-IsSent trim bases locks (base_chosen base) f = tt
step-IsSent trim bases locks (input_typed text) f = tt
step-IsSent trim bases locks submitted f =
    if_keeps (λ (after : Form × List Request). All (IsSent locks) after.1)
      (not (is_submit_disabled locks f) && is_valid f)
      (record f { is_pending = true }, request_of trim f ∷ []) (f, [])
      (λ e. (
        IsSent-request trim locks f.kind f.base f.input f.is_pending (ground (arith, e))
            (ground (arith, e)),
        tt,
      ))
      tt
step-IsSent trim bases locks succeeded f = tt
step-IsSent trim bases locks (failed status) f = tt

-- A text of blank lines only: `trim` leaves nothing of any line.
abbrev pub IsBlank : (Text → Text) → Text → Type 0
IsBlank trim text = All (λ line. truthy (trim line) ≡ false) (split_lines text)

filter-blank :
    (trim : Text → Text) (lines : List Text)
    → All (λ line. truthy (trim line) ≡ false) lines
    → filter truthy (map trim lines) ≡ []
unfolding filter
filter-blank trim [] h = refl
filter-blank trim (l ∷ lines) h = rw h.0 (filter-blank trim lines h.1)

-- A batch whose text is not empty, but has blank lines only, is sent, and it asks for no record.
pub step-blank :
    (trim : Text → Text) (bases locks : List Text) (base text : Text)
    → truthy base ≡ true
    → truthy text ≡ true
    → IsBlank trim text
    → (step trim bases locks submitted
        (record { kind = batch; base = base; input = text; is_pending = false })).1
      ≡ fetch_batch base [] ∷ []
unfolding step is_submit_disabled is_valid request_of system_numbers
step-blank trim bases locks base text chosen typed blank =
    rw (chosen, typed, filter-blank trim (split_lines text) blank) refl
