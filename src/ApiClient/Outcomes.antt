-- ===== src/ApiClient/Outcomes.antt =====
-- What becomes of the calls whose requests fail: each is settled once, and none is forgotten.
use marc_comparator.Base.{
  ℕ, ◌+◌, ◌≡◌, refl, Bool, true, false, not, ◌&&◌, ◌||◌, Option, none, some, List, [], ◌∷◌, ◌++◌,
  nat_eqb, if◌then◌else◌, arith, Option-cases, inl, inr,
}
use marc_comparator.Base.Text.{Text, lit, ends_with}
use marc_comparator.ApiClient.{
  Request, Failure, Event, failed, refreshed, refresh_failed, Effect, post_refresh, resend, reject,
  redirect, ask_health, dispatch_api_error, Client, idle, Location, process_queue, to_login, report,
  on_other, on_failed, on_refreshed, on_refresh_failed, on_health, handle, run, may_refresh,
}
use marc_comparator.ApiClient.Queue.{
  IsConsistent, IsConsistent-idle, handle-IsConsistent, sent, sent-append, sent-to_login,
  sent-on_other,
}

-- How often a call is among the ones that wait in the queue.
unfoldable pub queued : ℕ → List Request → ℕ
queued id [] = 0
queued id (r ∷ rs) = (if nat_eqb id r.id then 1 else 0) + queued id rs

unfoldable pub awaits : ℕ → Option Request → ℕ
awaits id none = 0
awaits id (some r) = if nat_eqb id r.id then 1 else 0

-- The calls that wait for a refresh: the one that sent it and the ones of the queue.
unfoldable pub waiting : ℕ → Client → ℕ
waiting id c = awaits id c.refresher + queued id c.refresh_queue

-- How often the client let a call go: its request is sent again, it is rejected, or it goes on
-- with the health check.
unfoldable pub released : ℕ → List Effect → ℕ
released id [] = 0
released id (resend r ∷ es) = (if nat_eqb id r.id then 1 else 0) + released id es
released id (reject r ∷ es) = (if nat_eqb id r.id then 1 else 0) + released id es
released id (ask_health r e ∷ es) = (if nat_eqb id r.id then 1 else 0) + released id es
released id (_ ∷ es) = released id es

-- How often a call fails in a run.
unfoldable pub arrived : ℕ → Event → ℕ
arrived id (failed r e) = if nat_eqb id r.id then 1 else 0
arrived id _ = 0

unfoldable pub all_arrived : ℕ → List Event → ℕ
all_arrived id [] = 0
all_arrived id (ev ∷ evs) = arrived id ev + all_arrived id evs

released-append :
    (id : ℕ) (es fs : List Effect) → released id (es ++ fs) ≡ released id es + released id fs
unfolding released
released-append id [] fs = omega arith
released-append id (resend r ∷ es) fs = omega (arith, released-append id es fs)
released-append id (reject r ∷ es) fs = omega (arith, released-append id es fs)
released-append id (ask_health r e ∷ es) fs = omega (arith, released-append id es fs)
released-append id (post_refresh ∷ es) fs = released-append id es fs
released-append id (redirect t ∷ es) fs = released-append id es fs
released-append id (dispatch_api_error s u m ∷ es) fs = released-append id es fs

queued-append :
    (id : ℕ) (rs : List Request) (r : Request)
    → queued id (rs ++ r ∷ []) ≡ queued id rs + (if nat_eqb id r.id then 1 else 0)
unfolding queued
queued-append id [] r = omega arith
queued-append id (q ∷ rs) r = omega (arith, queued-append id rs r)

released-process_queue :
    (id : ℕ) (b : Bool) (rs : List Request) → released id (process_queue b rs) ≡ queued id rs
unfolding released process_queue queued
released-process_queue id b [] = refl
released-process_queue id true (r ∷ rs) = omega (arith, released-process_queue id true rs)
released-process_queue id false (r ∷ rs) = omega (arith, released-process_queue id false rs)

-- Whether the effects report an error to the user, and whether they leave the page.
unfoldable pub reports : List Effect → Bool
reports [] = false
reports (dispatch_api_error s u m ∷ es) = true
reports (_ ∷ es) = reports es

unfoldable pub leaves : List Effect → Bool
leaves [] = false
leaves (redirect t ∷ es) = true
leaves (_ ∷ es) = leaves es

module _ (encode : Text → Text) (at : Location) (id : ℕ) where
  released-to_login : released id (to_login encode at) ≡ 0
  unfolding released to_login
  released-to_login = ground arith

  released-on_other :
      (r : Request) (e : Failure) (s : Option ℕ)
      → released id (on_other encode at r e s) ≡ (if nat_eqb id r.id then 1 else 0)
  unfolding released on_other report
  released-on_other r e none = omega arith
  released-on_other r e (some s) = ground arith

  handle-waiting :
      (c : Client) (ev : Event)
      → IsConsistent c
      → waiting id c + arrived id ev
        ≡ waiting id (handle encode at ev c).0 + released id (handle encode at ev c).1
  unfolding handle on_failed on_refreshed on_refresh_failed waiting awaits queued arrived released
  handle-waiting c (failed r e) ok = elim (Option-cases c.refresher) [
    | inl none_waits ↦ ground (
      arith,
      none_waits,
      queued-append id c.refresh_queue r,
      released-append id (to_login encode at) (reject r ∷ []),
      released-to_login,
      released-on_other r e e.status,
    )
    | inr (q, waits) ↦ ground (
      arith,
      waits,
      queued-append id c.refresh_queue r,
      released-append id (to_login encode at) (reject r ∷ []),
      released-to_login,
      released-on_other r e e.status,
    )
  ]
  handle-waiting c refreshed ok = ground (arith, released-process_queue id false c.refresh_queue)
  handle-waiting c refresh_failed ok = elim (Option-cases c.refresher) [
    | inl e ↦ ground (arith, e)
    | inr (r, e) ↦ ground (
      arith,
      e,
      released-append id (process_queue true c.refresh_queue) (to_login encode at ++ reject r ∷ []),
      released-append id (to_login encode at) (reject r ∷ []),
      released-to_login,
      released-process_queue id true c.refresh_queue,
    )
  ]

  run-waiting :
      (evs : List Event) (c : Client)
      → IsConsistent c
      → waiting id c + all_arrived id evs
        ≡ waiting id (run encode at evs c).0 + released id (run encode at evs c).1
  unfolding run all_arrived released
  run-waiting [] c ok = omega arith
  run-waiting (ev ∷ evs) c ok =
      let next = (handle encode at ev c).0 in
      omega (
        arith,
        handle-waiting c ev ok,
        released-append id (handle encode at ev c).1 (run encode at evs next).1,
        run-waiting evs next (handle-IsConsistent encode at c ev ok),
      )

  -- In every run from the client's first state, each call is let go as often as its request
  -- failed, less what still waits at the end: no call is lost and none is settled twice.
  pub run-idle-released :
      (evs : List Event)
      → all_arrived id evs
        ≡ waiting id (run encode at evs idle).0 + released id (run encode at evs idle).1
  unfolding waiting awaits queued
  run-idle-released evs = omega (arith, run-waiting evs idle IsConsistent-idle)

  -- However the refresh ends, in a consistent state no call waits afterwards, and each call that
  -- waited is let go.
  pub handle-nothing_waits :
      (c : Client)
      → IsConsistent c
      → ((waiting id (handle encode at refreshed c).0 ≡ 0)
          × (released id (handle encode at refreshed c).1 ≡ waiting id c))
        × ((waiting id (handle encode at refresh_failed c).0 ≡ 0)
            × (released id (handle encode at refresh_failed c).1 ≡ waiting id c))
  unfolding arrived handle on_refreshed on_refresh_failed waiting awaits queued
  handle-nothing_waits c ok =
      let empties : waiting id (handle encode at refreshed c).0 ≡ 0 = ground arith in
      let empties_too : waiting id (handle encode at refresh_failed c).0 ≡ 0 = ground arith in
      (
        (empties, omega (arith, empties, handle-waiting c refreshed ok)),
        (empties_too, omega (arith, empties_too, handle-waiting c refresh_failed ok)),
      )

  -- A request that fails with the status 401 for a second time, and the refresh request itself,
  -- start no refresh and do not wait: the client stays as it is, the call is let go, and nothing
  -- is sent.
  pub on_failed-no_loop :
      (c : Client) (r : Request) (e : Failure)
      → (r.retry || ends_with r.url (lit "/auth/refresh")) ≡ true
      → (on_failed encode at c r e).0 ≡ c
        × (sent (on_failed encode at c r e).1 ≡ 0
            × released id (on_failed encode at c r e).1 ≡ (if nat_eqb id r.id then 1 else 0))
  unfolding on_failed may_refresh released sent
  on_failed-no_loop c r e done = ground (
    arith,
    released-append id (to_login encode at) (reject r ∷ []),
    released-to_login,
    released-on_other r e e.status,
    sent-append (to_login encode at) (reject r ∷ []),
    sent-to_login encode at,
    sent-on_other encode at r e e.status,
  )

  -- A request that failed with a status is rejected after its health check, whichever way that
  -- goes: an unhealthy backend leads to the page of the unavailable service and to no report, a
  -- healthy one leaves the page, and the error is reported exactly when it is not a conflict (409).
  pub on_health_lem :
      (r : Request) (e : Failure) (status : ℕ) (healthy : Bool)
      → e.status ≡ some status
      → released id (on_health encode at r e healthy) ≡ (if nat_eqb id r.id then 1 else 0)
        × (leaves (on_health encode at r e healthy) ≡ not healthy
            × reports (on_health encode at r e healthy) ≡ (healthy && not (nat_eqb status 409)))
  unfolding on_health report released leaves reports
  on_health_lem r e status false given = ground arith
  on_health_lem r e status true given = ground arith
