-- ===== src/ApiClient/Tests.antt =====
-- Runs of the interceptor and the theorems about it, at concrete failures.
use marc_comparator.Base.{ℕ, ◌+◌, ◌≡◌, refl, true, false, some, List, [], ◌∷◌, ◌++◌}
use marc_comparator.Base.Text.{Text, lit, ends_with, text_eqb}
use marc_comparator.ApiClient.{
  Request, Failure, Event, failed, refreshed, refresh_failed, post_refresh, resend, reject,
  redirect, ask_health, Client, idle, Location, on_failed, on_refreshed, on_refresh_failed,
  on_other, process_queue, to_login, may_refresh, handle, run,
}
use marc_comparator.ApiClient.Queue.{IsConsistent, IsConsistent-idle, run-IsConsistent}
use marc_comparator.ApiClient.Outcomes.{all_arrived, waiting, released, run-idle-released}

abbrev same : Text → Text
same t = t

abbrev here : Location
here = record { pathname = lit "/records"; query = lit "?page=2" }

abbrev unauthorized : Failure
unauthorized = record { status = some 401; detail = lit ""; status_text = lit "Unauthorized" }

abbrev missing : Failure
missing = record { status = some 404; detail = lit "No record"; status_text = lit "Not Found" }

abbrev request : ℕ → Request
request n = record { id = n; url = lit "/records"; retry = false }

abbrev again : Request
again = record { id = 1; url = lit "/records"; retry = true }

-- Two calls share a refresh, and a third fails for another reason meanwhile.
abbrev shared : List Event
shared =
    failed (request 1) unauthorized
    ∷ failed (request 2) unauthorized
    ∷ failed (request 3) missing
    ∷ refreshed
    ∷ []

run-shared :
    run same here shared idle
    ≡ (idle, post_refresh ∷ ask_health (request 3) missing ∷ resend again ∷ resend (request 2) ∷ [])
unfolding run handle on_failed on_refreshed on_refresh_failed on_other process_queue to_login
    may_refresh ends_with text_eqb
run-shared = refl

run-logged_out :
    run same here
      (failed (request 1) unauthorized ∷ failed (request 2) unauthorized ∷ refresh_failed ∷ [])
      idle
    ≡ (
      idle,
      post_refresh
          ∷ reject (request 2)
          ∷ redirect (lit "/login?redirect=/records")
          ∷ reject again
          ∷ [],
    )
unfolding run handle on_failed on_refreshed on_refresh_failed on_other process_queue to_login
    may_refresh ends_with text_eqb
run-logged_out = refl

-- A call that waited is sent again without a mark: when its request fails again it starts
-- another refresh, while the call that sent the refresh is marked and does not.
run-unmarked :
    run same here (shared ++ failed again unauthorized ∷ failed (request 2) unauthorized ∷ []) idle
    ≡ (
      record {
        is_refreshing = true;
        refresh_queue = [];
        refresher = some (record { id = 2; url = lit "/records"; retry = true });
      },
      post_refresh
          ∷ ask_health (request 3) missing
          ∷ resend again
          ∷ resend (request 2)
          ∷ redirect (lit "/login?redirect=/records")
          ∷ reject again
          ∷ post_refresh
          ∷ [],
    )
unfolding run handle on_failed on_refreshed on_refresh_failed on_other process_queue to_login
    may_refresh ends_with text_eqb
run-unmarked = refl

run-IsConsistent_example : IsConsistent (run same here shared idle).0
run-IsConsistent_example = run-IsConsistent same here shared idle IsConsistent-idle

run-idle-released_example :
    all_arrived 2 shared
    ≡ waiting 2 (run same here shared idle).0 + released 2 (run same here shared idle).1
run-idle-released_example = run-idle-released same here 2 shared

abbrev busy : Client
busy = record { is_refreshing = true; refresh_queue = request 2 ∷ []; refresher = some again }

busy-IsConsistent : IsConsistent busy
busy-IsConsistent = record { one_refresher = refl; none_waits = refl; marked = refl }
