-- ===== src/ApiClient.antt =====
-- client/src/lib/api-client.ts: the interceptor of failed responses, with the refresh of the
-- session that the failed requests share. An `await` ends a step: `on_failed` runs from the failed
-- response to the first `await`, `on_refreshed` and `on_refresh_failed` go on after the refresh,
-- `on_health` after the health check. `encode` is `encodeURIComponent`.
pub mod Queue
pub mod Outcomes
mod Tests
use marc_comparator.Base.{
  ℕ, ◌≡◌, Bool, true, false, not, ◌&&◌, ◌||◌, Option, none, some, List, [], ◌∷◌, ◌++◌, map, leb,
  nat_eqb, if◌then◌else◌, ◌==◌,
}
use marc_comparator.Base.Text.{Text, lit, text_eq, truthy, ends_with}

-- The configuration of a request. `retry` is the mark `_retry`; a missing `url` is "".
pub record Request : Type 0 where
  pub id : ℕ
  pub url : Text
  pub retry : Bool

-- A failed response: its status, if there was one, and the two texts that may name the error.
pub record Failure : Type 0 where
  pub status : Option ℕ
  pub detail : Text
  pub status_text : Text

-- What can happen to the client: a response fails, or the refresh that it waits for ends.
pub data Event : Type 0 where
  failed : Request → Failure → Event
  refreshed refresh_failed : Event

-- What the interceptor does to the outside, in order.
pub data Effect : Type 0 where
  post_refresh : Effect
  resend : Request → Effect
  reject : Request → Effect
  redirect : Text → Effect
  ask_health : Request → Failure → Effect
  dispatch_api_error : (status : ℕ) → (url message : Text) → Effect

-- The variables of the module, and the call that awaits the refresh.
pub record Client : Type 0 where
  pub is_refreshing : Bool
  pub refresh_queue : List Request
  pub refresher : Option Request

abbrev pub idle : Client
idle = record { is_refreshing = false; refresh_queue = []; refresher = none }

-- `window.location`.
pub record Location : Type 0 where
  pub pathname : Text
  pub query : Text

abbrev pub has_status : ℕ → Option ℕ → Bool
has_status code none = false
has_status code (some s) = nat_eqb s code

abbrev pub or_text : Text → Text → Text
or_text s t = if truthy s then s else t

unfoldable pub message : Failure → Text
message e = or_text e.detail (or_text e.status_text (lit "Unknown error"))

-- `processQueue`: each call that waits is settled, and the queue is emptied.
unfoldable pub process_queue : Bool → List Request → List Effect
process_queue error [] = []
process_queue error (r ∷ rs) = (if error then reject r else resend r) ∷ process_queue error rs

-- The condition under which a failed request is tried again after a refresh.
unfoldable pub may_refresh : Request → Failure → Bool
may_refresh r e =
    has_status 401 e.status && (not r.retry && not (ends_with r.url (lit "/auth/refresh")))

module _ (encode : Text → Text) (at : Location) where
  unfoldable pub to_login : List Effect
  to_login =
      if not (at.pathname == lit "/login") && not (at.pathname == lit "/signup")
      then redirect (lit "/login?redirect=" ++ encode at.pathname) ∷ []
      else []

  -- The backend answers, but this request failed.
  unfoldable pub report : Request → Failure → ℕ → List Effect
  report r e status =
      if not (nat_eqb status 409)
      then dispatch_api_error status r.url (message e) ∷ reject r ∷ []
      else reject r ∷ []

  unfoldable pub on_other : Request → Failure → Option ℕ → List Effect
  on_other r e none = reject r ∷ []
  on_other r e (some status) =
      if leb 400 status
      then (if not (ends_with r.url (lit "/system/health"))
          then ask_health r e ∷ []
          else report r e status)
      else reject r ∷ []

  unfoldable pub on_failed : Client → Request → Failure → Client × List Effect
  on_failed c r e =
      if may_refresh r e
      then (if c.is_refreshing
          then (record c { refresh_queue = c.refresh_queue ++ r ∷ [] }, [])
          else (
            record c { is_refreshing = true; refresher = some (record r { retry = true }) },
            post_refresh ∷ [],
          ))
      else if has_status 401 e.status
      then (c, to_login ++ reject r ∷ [])
      else (c, on_other r e e.status)

  -- The awaited refresh succeeded: the call that made it sends its request again before the calls
  -- of the queue, which go on only after it has returned.
  unfoldable pub on_refreshed : Client → Client × List Effect
  on_refreshed c = elim c.refresher [
    | none ↦ (c, [])
    | some r ↦ (idle, resend r ∷ process_queue false c.refresh_queue)
  ]

  unfoldable pub on_refresh_failed : Client → Client × List Effect
  on_refresh_failed c = elim c.refresher [
    | none ↦ (c, [])
    | some r ↦ (idle, process_queue true c.refresh_queue ++ (to_login ++ reject r ∷ []))
  ]

  -- The health check that was asked for has answered.
  unfoldable pub on_health : Request → Failure → Bool → List Effect
  on_health r e false =
      redirect (lit "/service-unavailable?redirect=" ++ encode (at.pathname ++ at.query))
      ∷ reject r
      ∷ []
  on_health r e true = elim e.status [ none ↦ reject r ∷ [] | some status ↦ report r e status ]

  unfoldable pub handle : Event → Client → Client × List Effect
  handle (failed r e) c = on_failed c r e
  handle refreshed c = on_refreshed c
  handle refresh_failed c = on_refresh_failed c

  unfoldable pub run : List Event → Client → Client × List Effect
  run [] c = (c, [])
  run (ev ∷ evs) c =
      let (next, effects) = handle ev c in
      let (final, more) = run evs next in (final, effects ++ more)
