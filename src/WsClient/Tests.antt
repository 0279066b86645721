-- ===== src/WsClient/Tests.antt =====
-- Runs of the connection, and the theorems about it and its handlers, at concrete events.
use marc_comparator.Base.{
  ℕ, ◌+◌, ◌*◌, ◌^◌, ◌≡◌, refl, some, List, [], ◌∷◌, min, nat_eq, arith, filter, all,
}
use marc_comparator.Base.Sets.{includes, delete}
use marc_comparator.Base.Text.{lit, text_eq}
use marc_comparator.WsClient.{
  WsClient, Event, connects, disconnects, opened, closed_with, fired, initial, connect, disconnect,
  run, handle, on_open, on_close, on_timer, schedule_reconnect, set_ready, close,
}
use marc_comparator.WsClient.Connection.{run-one_live}
use marc_comparator.WsClient.Backoff.{IsTrying, failures, run-failures}
use marc_comparator.WsClient.Handlers.{Handlers}

runs : Unit {0}
unfolding run handle connect disconnect close on_open on_close on_timer schedule_reconnect set_ready
    includes delete filter all
runs = tt

abbrev started : WsClient
started = run (connects ∷ []) initial

-- The page is shown again at once: the socket that it let go reports its end afterwards and starts
-- a timer. When the new socket fails too, that timer is forgotten, so that it opens a socket after
-- the client was told to disconnect.
abbrev remounted : List Event
remounted =
    connects
    ∷ disconnects
    ∷ connects
    ∷ closed_with 0 1006
    ∷ closed_with 1 1006
    ∷ disconnects
    ∷ fired 0
    ∷ []

run-remounted : (run remounted initial).ws ≡ some 2
unfolding runs
run-remounted = refl

abbrev first_socket : ℕ
first_socket = 0

run-one_live_example :
    (first_socket ≡ first_socket) × ((run (connects ∷ opened 0 ∷ []) initial).ws ≡ some 0)
unfolding runs
run-one_live_example = run-one_live (connects ∷ opened 0 ∷ []) 0 0 refl refl

IsTrying-started : IsTrying started 0
unfolding runs
IsTrying-started = record {
  held = refl;
  tries = refl;
  wanted = refl;
  newest = refl;
  no_timer = refl;
}

run-failures_example :
    IsTrying (run (failures 6 1006 0 started.next_timer) started) (0 + 6)
    × ((run (failures 6 1006 0 started.next_timer) started).reconnect_delay
        ≡ min (started.reconnect_delay * 2 ^ 6) 30000)
unfolding runs
run-failures_example = run-failures 6 started 0 1006 IsTrying-started refl (omega arith)

abbrev old_handler : ℕ
old_handler = 1

abbrev new_handler : ℕ
new_handler = 2

abbrev progress : Handlers
progress = (lit "task_status", old_handler ∷ []) ∷ []
