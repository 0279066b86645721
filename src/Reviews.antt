-- ===== src/Reviews.antt =====
-- The reviews of an aspect of a record: client/src/features/records/carousel/review-button.tsx with
-- use-reviews.ts, and what carousel-view.tsx hands to the button.
pub mod Sent
pub mod Once
mod Tests
use marc_comparator.Base.{
  ◌≡◌, Bool, true, false, not, ◌&&◌, ◌||◌, Option, none, some, List, [], ◌∷◌, ◌++◌, filter, find?,
  all, is_empty, if◌then◌else◌, ◌==◌, or_else, present,
}
use marc_comparator.Base.Text.{Text, lit, text_eq, truthy}
use marc_comparator.Records.{ReviewDetail, ComparisonDetail, ValidationDetail}
use marc_comparator.Carousel.View.{is_comparison, find_loaded, filter_loaded}

-- `RecordReviewsResponse`.
pub record RecordReviews : Type 0 where
  pub current : List ReviewDetail
  pub history : List ReviewDetail

-- The properties of the button that concern reviews; `permission` is what `hasPermission` answers.
pub record Props : Type 0 where
  pub aspect_name : Text
  pub permission : Option Bool
  pub current_review : Option ReviewDetail
  pub history : List ReviewDetail
  pub review_not_needed : Bool

abbrev pub current_of : Option RecordReviews → Text → Option ReviewDetail
current_of none aspect = none
current_of (some reviews) aspect = find? (λ r. r.aspect_name == aspect) reviews.current

abbrev pub history_of : Option RecordReviews → Text → List ReviewDetail
history_of none aspect = []
history_of (some reviews) aspect = filter (λ r. r.aspect_name == aspect) reviews.history

abbrev pub is_excellent : {S : Type 0} → Option (ComparisonDetail S) → Bool
is_excellent none = false
is_excellent (some c) = c.result.match_quality == lit "Excellent"

abbrev pub is_good_status : ValidationDetail → Bool
is_good_status v = v.result.status == lit "Valid" || v.result.status == lit "AdditionalInfo"

abbrev pub all_good : Option (List ValidationDetail) → Bool
all_good none = false
all_good (some vs) = all is_good_status vs

-- The button for a comparison, and the one for a validator.
unfoldable pub comparison_props :
    {S : Type 0}
    → Option Bool
    → Option RecordReviews
    → Option (List (ComparisonDetail S))
    → (comparator other : Text) → Props
comparison_props permission reviews comparisons comparator other = record {
  aspect_name = comparator;
  permission = permission;
  current_review = current_of reviews comparator;
  history = history_of reviews comparator;
  review_not_needed = is_excellent (find_loaded (is_comparison comparator other) comparisons);
}

unfoldable pub validation_props :
    Option Bool → Option RecordReviews → Option (List ValidationDetail) → Text → Props
validation_props permission reviews validations name = record {
  aspect_name = name;
  permission = permission;
  current_review = current_of reviews name;
  history = history_of reviews name;
  review_not_needed = all_good (filter_loaded (λ v. v.validator == name) validations);
}

unfoldable pub all_reviews : Props → List ReviewDetail
all_reviews p = elim p.current_review [ some r ↦ r ∷ p.history | none ↦ p.history ]

-- What the component shows, beside the history where there is one.
pub data Shown : Type 0 where
  nothing : Shown
  not_needed : Shown
  mark_reviewed : Shown
  reviewed : (is_outdated : Bool) → Shown

abbrev pub shown_for : Bool → Option ReviewDetail → Shown
shown_for not_needed_here (some r) = reviewed (r.status == lit "outdated")
shown_for true none = not_needed
shown_for false none = mark_reviewed

unfoldable pub shown : Props → Shown
shown p =
    if or_else p.permission false then shown_for p.review_not_needed p.current_review else nothing

unfoldable pub has_history : Props → Bool
unfolding all_reviews
has_history p = or_else p.permission false && not (is_empty (all_reviews p))

-- The state of the component, and whether each of its mutations is pending.
pub record State : Type 0 where
  pub is_open : Bool
  pub is_history_open : Bool
  pub note : Text
  pub creating : Bool
  pub deleting : Bool

abbrev pub initial : State
initial = record {
  is_open = false;
  is_history_open = false;
  note = [];
  creating = false;
  deleting = false;
}

pub data Request : Type 0 where
  post_review : (aspect : Text) (note : Option Text) → Request
  delete_review : (aspect : Text) → Request

abbrev pub given_note : Text → Option Text
given_note note = if truthy note then some note else none

unfoldable pub handle_submit : Props → State → State × List Request
handle_submit p s =
    (record s { creating = true }, post_review p.aspect_name (given_note s.note) ∷ [])

unfoldable pub handle_remove : Props → State → State × List Request
handle_remove p s = (record s { deleting = true }, delete_review p.aspect_name ∷ [])

-- The button "re-review": the note is emptied for the next rendering; `handle_submit` is the one of
-- this rendering.
unfoldable pub re_review : Props → State → State × List Request
unfolding handle_submit
re_review p s =
    let submitted = handle_submit p s in (record (submitted.0) { note = [] }, submitted.1)

pub data Event : Type 0 where
  opened history_opened : Bool → Event
  note_typed : Text → Event
  submit_clicked cancel_clicked remove_clicked re_review_clicked : Event
  created create_failed deleted delete_failed : Event

abbrev pub can_submit : Shown → Bool
can_submit mark_reviewed = true
can_submit _ = false

abbrev pub can_remove : Shown → Bool
can_remove (reviewed is_outdated) = true
can_remove _ = false

abbrev pub can_re_review : Shown → Bool
can_re_review (reviewed is_outdated) = is_outdated
can_re_review _ = false

abbrev pub has_popover : Shown → Bool
has_popover w = can_submit w || can_remove w

-- An event, where the component shows the control that it needs and the control is not disabled.
unfoldable pub step : Props → Event → State → State × List Request
unfolding shown has_history handle_submit handle_remove re_review
step p (opened o) s = (if has_popover (shown p) then record s { is_open = o } else s, [])
step p (history_opened o) s = (if has_history p then record s { is_history_open = o } else s, [])
step p (note_typed text) s =
    (if can_submit (shown p) && s.is_open then record s { note = text } else s, [])
step p submit_clicked s =
    if can_submit (shown p) && s.is_open && not s.creating then handle_submit p s else (s, [])
step p cancel_clicked s =
    (if can_submit (shown p) && s.is_open then record s { is_open = false } else s, [])
step p remove_clicked s =
    if can_remove (shown p) && s.is_open && not s.deleting then handle_remove p s else (s, [])
step p re_review_clicked s =
    if can_re_review (shown p) && s.is_open && not s.creating then re_review p s else (s, [])
step p created s = (record s { creating = false; is_open = false; note = [] }, [])
step p create_failed s = (record s { creating = false }, [])
step p deleted s = (record s { deleting = false; is_open = false }, [])
step p delete_failed s = (record s { deleting = false }, [])

-- The properties of each moment come with the event: they change with the record that is shown.
unfoldable pub run : List (Props × Event) → State → State × List Request
unfolding step
run [] s = (s, [])
run ((p, ev) ∷ evs) s =
    let after = step p ev s in let rest = run evs after.0 in (rest.0, after.1 ++ rest.1)
