-- ===== src/Reviews/Sent.antt =====
-- Which requests the button for reviews sends.
use mathlib.Core.Bool.{false≢true}
use marc_comparator.Base.{
  ◌≡◌, refl, Bool, true, false, not, ◌&&◌, ◌||◌, Option, none, some, [], if◌then◌else◌, ◌==◌,
  or_else, present, if_keeps, All, arith,
}
use marc_comparator.Base.Text.{lit, text_eq}
use marc_comparator.Records.{ReviewDetail}
use marc_comparator.Reviews.{
  Props, State, Request, post_review, delete_review, given_note, handle_submit, handle_remove,
  re_review, shown, shown_for, nothing, can_submit, can_remove, can_re_review, Event, opened,
  history_opened, note_typed, submit_clicked, cancel_clicked, remove_clicked, re_review_clicked,
  created, create_failed, deleted, delete_failed, step,
}

-- The review of the aspect that is current is outdated.
abbrev pub is_outdated : Option ReviewDetail → Bool
is_outdated none = false
is_outdated (some r) = r.status == lit "outdated"

-- A review is posted for the aspect that is shown, with the note of the state, where the user may
-- review, no other is being posted, and the aspect has no review or an outdated one. It is deleted
-- only where there is one.
abbrev pub IsAllowed : Props → State → Request → Type 0
IsAllowed p s (post_review aspect note) =
    (aspect ≡ p.aspect_name)
    × (note ≡ given_note s.note)
    × (p.permission ≡ some true)
    × (s.creating ≡ false)
    × ((not (present p.current_review) && not p.review_not_needed || is_outdated p.current_review)
        ≡ true)
IsAllowed p s (delete_review aspect) =
    (aspect ≡ p.aspect_name)
    × (p.permission ≡ some true)
    × (s.deleting ≡ false)
    × (present p.current_review ≡ true)

permitted : (o : Option Bool) → or_else o false ≡ true → o ≡ some true
permitted none e = absurd (false≢true e)
permitted (some true) e = refl
permitted (some false) e = absurd (false≢true e)

-- What a control that is shown tells of the properties.
shown-submit :
    (allowed needless : Bool) (current : Option ReviewDetail)
    → can_submit (if allowed then shown_for needless current else nothing) ≡ true
    → (allowed ≡ true) × ((not (present current) && not needless || is_outdated current) ≡ true)
shown-submit false needless current e = absurd (false≢true e)
shown-submit true needless (some r) e = absurd (false≢true e)
shown-submit true true none e = absurd (false≢true e)
shown-submit true false none e = (refl, refl)

shown-remove :
    (allowed needless : Bool) (current : Option ReviewDetail)
    → can_remove (if allowed then shown_for needless current else nothing) ≡ true
    → (allowed ≡ true) × (present current ≡ true)
shown-remove false needless current e = absurd (false≢true e)
shown-remove true needless (some r) e = (refl, refl)
shown-remove true true none e = absurd (false≢true e)
shown-remove true false none e = absurd (false≢true e)

shown-re_review :
    (allowed needless : Bool) (current : Option ReviewDetail)
    → can_re_review (if allowed then shown_for needless current else nothing) ≡ true
    → (allowed ≡ true) × ((not (present current) && not needless || is_outdated current) ≡ true)
shown-re_review false needless current e = absurd (false≢true e)
shown-re_review true needless (some r) e = (refl, ground (arith, e))
shown-re_review true true none e = absurd (false≢true e)
shown-re_review true false none e = absurd (false≢true e)

-- Whatever the state and the event: every request that is sent is one that `IsAllowed` allows.
pub step-IsAllowed : (p : Props) (ev : Event) (s : State) → All (IsAllowed p s) (step p ev s).1
unfolding step shown handle_submit handle_remove re_review
step-IsAllowed p (opened o) s = tt
step-IsAllowed p (history_opened o) s = tt
step-IsAllowed p (note_typed text) s = tt
step-IsAllowed p submit_clicked s =
    if_keeps (λ after. All (IsAllowed p s) after.1) _ (handle_submit p s) (s, [])
      (λ e.
        let found =
          shown-submit (or_else p.permission false) p.review_not_needed p.current_review
            (ground (arith, e)) in
        ((refl, refl, permitted p.permission found.0, ground (arith, e), found.1), tt))
      tt
step-IsAllowed p cancel_clicked s = tt
step-IsAllowed p remove_clicked s =
    if_keeps (λ after. All (IsAllowed p s) after.1) _ (handle_remove p s) (s, [])
      (λ e.
        let found =
          shown-remove (or_else p.permission false) p.review_not_needed p.current_review
            (ground (arith, e)) in
        ((refl, permitted p.permission found.0, ground (arith, e), found.1), tt))
      tt
step-IsAllowed p re_review_clicked s =
    if_keeps (λ after. All (IsAllowed p s) after.1) _ (re_review p s) (s, [])
      (λ e.
        let found =
          shown-re_review (or_else p.permission false) p.review_not_needed p.current_review
            (ground (arith, e)) in
        ((refl, refl, permitted p.permission found.0, ground (arith, e), found.1), tt))
      tt
step-IsAllowed p created s = tt
step-IsAllowed p create_failed s = tt
step-IsAllowed p deleted s = tt
step-IsAllowed p delete_failed s = tt
