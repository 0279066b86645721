-- ===== src/Session/Pages.antt =====
-- The pages are shown to a user who is known, and to no other.

use marc_comparator.Base.{
  ◌≡◌, refl, Bool, true, false, not, ◌&&◌, ◌||◌, List, [], ◌∷◌, any, present, arith, Bool-cases,
  inl, inr,
}
use marc_comparator.Base.Text.{Text}
use marc_comparator.Session.{
  Queries, Location, redirect, Screen, skeleton, blank, pages, screen, after_effect, run,
}

abbrev pub shows_pages : Screen → Bool
shows_pages skeleton = false
shows_pages blank = false
shows_pages pages = true

-- Both queries have succeeded, and there is a user.
abbrev pub is_known : {M : Type 0} → Queries M → Bool
is_known q =
    not q.is_health_loading
    && not q.is_me_loading
    && not q.is_health_error
    && not q.is_me_error
    && present q.me

present-redirect :
    {M : Type 0} (encode : Text → Text) (at : Location) (q : Queries M)
    → is_known q ≡ true
    → present (redirect encode at q) ≡ false
unfolding redirect
present-redirect encode at q h =
    let well : q.is_health_error ≡ false = ground (arith, h) in
    let signed_in : (not q.is_health_loading
          && not q.is_me_loading
          && (q.is_me_error || not (present q.me)))
        ≡ false =
      ground (arith, h) in
    rw (well, signed_in) refl

screen-known :
    {M : Type 0} (redirecting : Bool) (q : Queries M)
    → shows_pages (screen redirecting q) ≡ (is_known q && not redirecting)
unfolding screen
screen-known redirecting q = elim (Bool-cases (q.is_health_loading || q.is_me_loading)) [
  | inl loading ↦ rw loading (ground (arith, loading))
  | inr loaded ↦
      elim (Bool-cases (redirecting || q.is_health_error || q.is_me_error || not (present q.me))) [
        | inl hidden ↦ rw (loaded, hidden) (ground (arith, hidden))
        | inr seen ↦ rw (loaded, seen) (ground (arith, loaded, seen))
      ]
]

-- The browser was sent away for one of these.
abbrev pub was_sent_away : {M : Type 0} → (Text → Text) → Location → List (Queries M) → Bool
was_sent_away encode at qs = any (λ x. present (redirect encode at x)) qs

run-was_sent_away :
    {M : Type 0} (encode : Text → Text) (at : Location) (qs : List (Queries M)) (redirecting : Bool)
    → run encode at qs redirecting ≡ (redirecting || was_sent_away encode at qs)
unfolding run after_effect any
run-was_sent_away encode at [] redirecting = ground arith
run-was_sent_away encode at (q ∷ qs) redirecting =
    ground (arith, run-was_sent_away encode at qs (redirecting || present (redirect encode at q)))

-- Whatever the two queries had before: the pages are shown exactly where the server is well and the
-- user is known now, and nothing that the queries had before sent the browser away; and while they
-- are shown, the browser is not sent away.
pub run-shows_pages :
    {M : Type 0} (encode : Text → Text) (at : Location) (qs : List (Queries M)) (q : Queries M)
    → (shows_pages (screen (run encode at qs false) q)
        ≡ (is_known q && not (was_sent_away encode at qs)))
      × (shows_pages (screen (run encode at qs false) q) ≡ true
          → after_effect encode at q (run encode at qs false) ≡ false)
unfolding after_effect
run-shows_pages encode at qs q =
    let away = run-was_sent_away encode at qs false in
    let shown = screen-known (run encode at qs false) q in
    (ground (arith, shown, away), λ e. ground (arith, e, shown, present-redirect encode at q))
