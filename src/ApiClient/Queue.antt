-- ===== src/ApiClient/Queue.antt =====
-- The shared refresh: at most one is in flight, and calls wait only while one is.
use marc_comparator.Base.{
  ℕ, suc, ◌+◌, ◌≡◌, refl, Bool, true, false, ◌||◌, Option, none, some, List, [], ◌∷◌, ◌++◌,
  if◌then◌else◌, present, is_empty, arith, Option-cases, inl, inr,
}
use marc_comparator.Base.Text.{Text, text_eq}
use marc_comparator.ApiClient.{
  Request, Failure, Event, failed, refreshed, refresh_failed, Effect, post_refresh, reject, Client,
  idle, Location, process_queue, to_login, report, on_other, on_failed, on_refreshed,
  on_refresh_failed, handle, run,
}

abbrev pub is_marked : Option Request → Bool
is_marked none = true
is_marked (some r) = r.retry

-- A refresh is in flight exactly while a call awaits it; other calls wait only meanwhile; and the
-- call that awaits it is marked, so that it starts no other refresh when its request fails again.
pub record IsConsistent (c : Client) : Type 0 where
  pub one_refresher : present c.refresher ≡ c.is_refreshing
  pub none_waits : (c.is_refreshing || is_empty c.refresh_queue) ≡ true
  pub marked : is_marked c.refresher ≡ true

pub IsConsistent-idle : IsConsistent idle
IsConsistent-idle = record { one_refresher = refl; none_waits = refl; marked = refl }

-- The refreshes that were sent.
unfoldable pub sent : List Effect → ℕ
sent [] = 0
sent (post_refresh ∷ es) = suc (sent es)
sent (_ ∷ es) = sent es

-- The refreshes that ended.
unfoldable pub ended : Client → Event → ℕ
ended c (failed r e) = 0
ended c _ = if present c.refresher then 1 else 0

abbrev pub in_flight : Client → ℕ
in_flight c = if c.is_refreshing then 1 else 0

pub sent-append : (es fs : List Effect) → sent (es ++ fs) ≡ sent es + sent fs
unfolding sent
sent-append [] fs = omega arith
sent-append (post_refresh ∷ es) fs = omega (arith, sent-append es fs)
sent-append (_ ∷ es) fs = sent-append es fs

sent-process_queue : (b : Bool) (rs : List Request) → sent (process_queue b rs) ≡ 0
unfolding sent process_queue
sent-process_queue b [] = refl
sent-process_queue true (r ∷ rs) = sent-process_queue true rs
sent-process_queue false (r ∷ rs) = sent-process_queue false rs

module _ (encode : Text → Text) (at : Location) where
  pub handle-IsConsistent :
      (c : Client) (ev : Event) → IsConsistent c → IsConsistent (handle encode at ev c).0
  unfolding handle on_failed on_refreshed on_refresh_failed
  handle-IsConsistent c (failed r e) ok = ground arith
  handle-IsConsistent c refreshed ok = ground arith
  handle-IsConsistent c refresh_failed ok = ground arith

  pub sent-to_login : sent (to_login encode at) ≡ 0
  unfolding sent to_login
  sent-to_login = ground arith

  pub sent-on_other :
      (r : Request) (e : Failure) (s : Option ℕ) → sent (on_other encode at r e s) ≡ 0
  unfolding sent on_other report
  sent-on_other r e none = refl
  sent-on_other r e (some s) = ground arith

  handle-sent :
      (c : Client) (ev : Event)
      → IsConsistent c
      → in_flight c + sent (handle encode at ev c).1
        ≡ in_flight (handle encode at ev c).0 + ended c ev
  unfolding handle on_failed on_refreshed on_refresh_failed ended sent
  handle-sent c (failed r e) ok = ground (
    arith,
    sent-append (to_login encode at) (reject r ∷ []),
    sent-to_login,
    sent-on_other r e e.status,
  )
  handle-sent c refreshed ok = ground (arith, sent-process_queue false c.refresh_queue)
  handle-sent c refresh_failed ok = elim (Option-cases c.refresher) [
    | inl e ↦ ground (arith, e)
    | inr (r, e) ↦ ground (
      arith,
      e,
      sent-append (process_queue true c.refresh_queue) (to_login encode at ++ reject r ∷ []),
      sent-append (to_login encode at) (reject r ∷ []),
      sent-to_login,
      sent-process_queue true c.refresh_queue,
    )
  ]

  -- The refreshes that end in a run.
  unfoldable pub all_ended : List Event → Client → ℕ
  all_ended [] c = 0
  all_ended (ev ∷ evs) c = ended c ev + all_ended evs (handle encode at ev c).0

  -- In every run of the client, whatever requests fail and however its refreshes end, the state
  -- stays consistent: a refresh is in flight exactly while one call awaits it, other calls wait
  -- only meanwhile, and the call that awaits the refresh is marked.
  pub run-IsConsistent :
      (evs : List Event) (c : Client) → IsConsistent c → IsConsistent (run encode at evs c).0
  unfolding run
  run-IsConsistent [] c ok = ok
  run-IsConsistent (ev ∷ evs) c ok =
      run-IsConsistent evs (handle encode at ev c).0 (handle-IsConsistent c ev ok)

  run-sent :
      (evs : List Event) (c : Client)
      → IsConsistent c
      → in_flight c + sent (run encode at evs c).1
        ≡ in_flight (run encode at evs c).0 + all_ended evs c
  unfolding run all_ended sent
  run-sent [] c ok = refl
  run-sent (ev ∷ evs) c ok =
      let next = (handle encode at ev c).0 in
      omega (
        arith,
        handle-sent c ev ok,
        sent-append (handle encode at ev c).1 (run encode at evs next).1,
        run-sent evs next (handle-IsConsistent c ev ok),
      )

  -- In every run from the client's first state, as many refreshes are sent as have ended, plus one
  -- if one is in flight at the end: failing requests share a refresh, and none is sent beside it.
  pub run-idle-sent :
      (evs : List Event)
      → sent (run encode at evs idle).1 ≡ in_flight (run encode at evs idle).0 + all_ended evs idle
  run-idle-sent evs = omega (arith, run-sent evs idle IsConsistent-idle)
