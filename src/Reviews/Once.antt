-- ===== src/Reviews/Once.antt =====
-- Which requests a run sends: each is permitted when it is sent, and of a kind there is at most one
-- that is not answered yet.
use marc_comparator.Base.{
  ℕ, suc, ◌+◌, ◌≤◌, ◌≡◌, ap, Bool, true, false, not, ◌&&◌, ◌||◌, List, [], ◌∷◌, ◌++◌, any,
  if◌then◌else◌, ◌==◌, eq_iff, or_else, present, All, All-weaken, All-append, arith, Bool-cases,
  inl, inr,
}
use marc_comparator.Base.Text.{text_eq}
use marc_comparator.Reviews.{
  Props, State, initial, Request, post_review, delete_review, handle_submit, handle_remove,
  re_review, Event, opened, history_opened, note_typed, submit_clicked, cancel_clicked,
  remove_clicked, re_review_clicked, created, create_failed, deleted, delete_failed, step, run,
}
use marc_comparator.Reviews.Sent.{is_outdated, IsAllowed, step-IsAllowed}

-- The request is one that these properties of the button permit: for their aspect and a user who may
-- review; a new review where the aspect has none and needs one, or an outdated one; a removal where
-- there is one.
abbrev pub is_permitted : Props → Request → Bool
is_permitted p (post_review aspect given) =
    aspect == p.aspect_name
    && or_else p.permission false
    && (not (present p.current_review) && not p.review_not_needed || is_outdated p.current_review)
is_permitted p (delete_review aspect) =
    aspect == p.aspect_name && or_else p.permission false && present p.current_review

is_permitted-IsAllowed :
    (p : Props) (s : State) (r : Request) → IsAllowed p s r → is_permitted p r ≡ true
is_permitted-IsAllowed p s (post_review aspect given) h =
    let same : (aspect == p.aspect_name) ≡ true = (eq_iff aspect p.aspect_name).1 h.0 in
    let may : or_else p.permission false ≡ true = ap (λ o. or_else o false) h.2 in
    ground (arith, same, may, h.4)
is_permitted-IsAllowed p s (delete_review aspect) h =
    let same : (aspect == p.aspect_name) ≡ true = (eq_iff aspect p.aspect_name).1 h.0 in
    let may : or_else p.permission false ≡ true = ap (λ o. or_else o false) h.1 in
    ground (arith, same, may, h.3)

-- Some event of a run came while the button had properties that permit the request.
abbrev pub WasPermitted : List (Props × Event) → Request → Type 0
WasPermitted evs r = any (λ e. is_permitted e.0 r) evs ≡ true

run-WasPermitted : (evs : List (Props × Event)) (s : State) → All (WasPermitted evs) (run evs s).1
unfolding run any
run-WasPermitted [] s = tt
run-WasPermitted ((p, ev) ∷ evs) s =
    let after = step p ev s in
    let now =
      All-weaken after.1 (λ r h. ground (arith, is_permitted-IsAllowed p s r h))
        (step-IsAllowed p ev s) in
    let later =
      All-weaken (run evs after.0).1 (λ r h. ground (arith, h)) (run-WasPermitted evs after.0) in
    All-append (WasPermitted ((p, ev) ∷ evs)) after.1 (run evs after.0).1 now later

-- The requests of a kind, and the answers to them.
abbrev pub is_post : Request → Bool
is_post (post_review _ _) = true
is_post (delete_review _) = false

abbrev pub is_removal : Request → Bool
is_removal r = not (is_post r)

abbrev pub answers_post : Event → Bool
answers_post created = true
answers_post create_failed = true
answers_post _ = false

abbrev pub answers_removal : Event → Bool
answers_removal deleted = true
answers_removal delete_failed = true
answers_removal _ = false

unfoldable pub count {ℓ} : {A : Type ℓ} → (A → Bool) → List A → ℕ
count p [] = 0
count p (x ∷ xs) = if p x then suc (count p xs) else count p xs

count-append {ℓ} :
    {A : Type ℓ} (p : A → Bool) (xs ys : List A) → count p (xs ++ ys) ≡ count p xs + count p ys
unfolding count
count-append p [] ys = omega arith
count-append p (x ∷ xs) ys = elim (Bool-cases (p x)) [
  | inl e ↦ rw e (omega (arith, count-append p xs ys))
  | inr e ↦ rw e (count-append p xs ys)
]

abbrev tick : Bool → ℕ
tick b = if b then 1 else 0

-- A step that sends a request makes it pending, and sends none while one is pending; only an answer
-- ends this.
posts-step :
    (p : Props) (ev : Event) (s : State)
    → count is_post (step p ev s).1 + tick s.creating
      ≤ tick (step p ev s).0.creating + tick (answers_post ev)
unfolding step count handle_submit handle_remove re_review
posts-step p (opened o) s = ground arith
posts-step p (history_opened o) s = ground arith
posts-step p (note_typed text) s = ground arith
posts-step p submit_clicked s = ground arith
posts-step p cancel_clicked s = ground arith
posts-step p remove_clicked s = ground arith
posts-step p re_review_clicked s = ground arith
posts-step p created s = ground arith
posts-step p create_failed s = ground arith
posts-step p deleted s = ground arith
posts-step p delete_failed s = ground arith

removals-step :
    (p : Props) (ev : Event) (s : State)
    → count is_removal (step p ev s).1 + tick s.deleting
      ≤ tick (step p ev s).0.deleting + tick (answers_removal ev)
unfolding step count handle_submit handle_remove re_review
removals-step p (opened o) s = ground arith
removals-step p (history_opened o) s = ground arith
removals-step p (note_typed text) s = ground arith
removals-step p submit_clicked s = ground arith
removals-step p cancel_clicked s = ground arith
removals-step p remove_clicked s = ground arith
removals-step p re_review_clicked s = ground arith
removals-step p created s = ground arith
removals-step p create_failed s = ground arith
removals-step p deleted s = ground arith
removals-step p delete_failed s = ground arith

run-posts :
    (evs : List (Props × Event)) (s : State)
    → count is_post (run evs s).1 + tick s.creating ≤ suc (count (λ e. answers_post e.1) evs)
unfolding run count
run-posts [] s = ground arith
run-posts ((p, ev) ∷ evs) s =
    let after = step p ev s in
    let both = count-append is_post after.1 (run evs after.0).1 in
    ground (arith, both, posts-step p ev s, run-posts evs after.0)

run-removals :
    (evs : List (Props × Event)) (s : State)
    → count is_removal (run evs s).1 + tick s.deleting ≤ suc (count (λ e. answers_removal e.1) evs)
unfolding run count
run-removals [] s = ground arith
run-removals ((p, ev) ∷ evs) s =
    let after = step p ev s in
    let both = count-append is_removal after.1 (run evs after.0).1 in
    ground (arith, both, removals-step p ev s, run-removals evs after.0)

-- In every run from the first state, whichever records are shown meanwhile: each request that is sent
-- is for the aspect of properties that the button had at some event, where the user may review, and
-- where the aspect has no review and needs one or has an outdated one, or, for a removal, has a
-- review. And reviews are posted at most once more than posts were answered, and removed at most once
-- more than removals were answered.
pub run-sent :
    (evs : List (Props × Event))
    → All (WasPermitted evs) (run evs initial).1
      × (count is_post (run evs initial).1 ≤ suc (count (λ e. answers_post e.1) evs))
      × (count is_removal (run evs initial).1 ≤ suc (count (λ e. answers_removal e.1) evs))
run-sent evs = (
  run-WasPermitted evs initial,
  omega (arith, run-posts evs initial),
  omega (arith, run-removals evs initial),
)
