-- ===== src/Reviews/Tests.antt =====
-- The button for reviews on concrete records, and the theorem about it.
use marc_comparator.Base.{suc, ◌≤◌, ◌≡◌, refl, true, false, none, some, List, [], ◌∷◌, All}
use marc_comparator.Base.Text.{lit, text_eqb}
use marc_comparator.Records.{ReviewDetail}
use marc_comparator.Reviews.{
  Props, initial, post_review, handle_submit, handle_remove, re_review, shown, has_history,
  all_reviews, Event, opened, note_typed, submit_clicked, cancel_clicked, re_review_clicked,
  remove_clicked, created, delete_review, step, run,
}
use marc_comparator.Reviews.Once.{
  WasPermitted, is_post, is_removal, answers_post, answers_removal, count, run-sent,
}

runs : Unit {0}
unfolding run step shown has_history all_reviews handle_submit handle_remove re_review text_eqb
runs = tt

abbrev unreviewed : Props
unreviewed = record {
  aspect_name = lit "v";
  permission = some true;
  current_review = none;
  history = [];
  review_not_needed = false;
}

abbrev old_review : ReviewDetail
old_review = record {
  id = lit "1";
  record_id = lit "b";
  aspect_name = lit "v";
  note = none;
  reviewed_by = lit "u";
  reviewer_name = none;
  reviewed_at = lit "t";
  status = lit "outdated";
}

-- The next record: its review is outdated.
abbrev outdated : Props
outdated = record unreviewed { current_review = some old_review }

-- The draft of one record is sent with the new review of the next record.
draft_sent :
    (run
      ((unreviewed, opened true)
        ∷ (unreviewed, note_typed (lit "draft"))
        ∷ (unreviewed, cancel_clicked)
        ∷ (outdated, opened true)
        ∷ (outdated, re_review_clicked)
        ∷ [])
      initial).1
    ≡ post_review (lit "v") (some (lit "draft")) ∷ []
unfolding runs
draft_sent = refl

-- A review with a note is posted, the next record's is renewed while the answer is missing and again
-- after it, and then removed.
abbrev reviewing : List (Props × Event)
reviewing =
    (unreviewed, opened true)
    ∷ (unreviewed, note_typed (lit "fine"))
    ∷ (unreviewed, submit_clicked)
    ∷ (outdated, re_review_clicked)
    ∷ (outdated, created)
    ∷ (outdated, opened true)
    ∷ (outdated, re_review_clicked)
    ∷ (outdated, remove_clicked)
    ∷ []

reviewed_twice :
    (run reviewing initial).1
    ≡ post_review (lit "v") (some (lit "fine"))
      ∷ post_review (lit "v") none
      ∷ delete_review (lit "v")
      ∷ []
unfolding runs
reviewed_twice = refl

run-sent_example :
    All (WasPermitted reviewing) (run reviewing initial).1
    × (count is_post (run reviewing initial).1 ≤ suc (count (λ e. answers_post e.1) reviewing))
    × (count is_removal (run reviewing initial).1
        ≤ suc (count (λ e. answers_removal e.1) reviewing))
run-sent_example = run-sent reviewing
