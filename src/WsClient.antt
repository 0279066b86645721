-- ===== src/WsClient.antt =====
-- `WSClient` of client/src/lib/ws-client.ts: the connection, its reconnection and the handlers of
-- messages. The sockets and the timers of the browser are a part of the state: a socket that was
-- replaced, and a timer that was forgotten, still call back.
pub mod Connection
pub mod Backoff
pub mod Handlers
mod Tests
use marc_comparator.Base.{
  ℕ, suc, ◌*◌, ◌≡◌, Bool, true, false, not, ◌&&◌, ◌||◌, Option, none, some, List, [], ◌∷◌, ◌++◌,
  min, nat_eqb, nat_eq, if◌then◌else◌,
}
use marc_comparator.Base.Sets.{includes, delete}

-- `readyState` of a socket. A socket that was never created counts as closed.
pub data Ready : Type 0 where
  connecting is_open closing closed : Ready

-- Sockets and timers are numbers, in the order of their creation.
pub record WsClient : Type 0 where
  pub ws : Option ℕ
  pub reconnect_timer : Option ℕ
  pub reconnect_delay : ℕ
  pub is_closing : Bool
  pub ready : ℕ → Ready
  pub timers : List ℕ
  pub next_socket : ℕ
  pub next_timer : ℕ

-- What the page and the browser do to the client.
pub data Event : Type 0 where
  connects disconnects : Event
  opened errored : (socket : ℕ) → Event
  closed_with : (socket code : ℕ) → Event
  fired : (timer : ℕ) → Event

abbrev pub initial : WsClient
initial = record {
  ws = none;
  reconnect_timer = none;
  reconnect_delay = 1000;
  is_closing = false;
  ready = λ s. closed;
  timers = [];
  next_socket = 0;
  next_timer = 0;
}

-- Open or about to be.
abbrev pub is_live : Ready → Bool
is_live connecting = true
is_live is_open = true
is_live closing = false
is_live closed = false

abbrev pub is_connecting : Ready → Bool
is_connecting connecting = true
is_connecting _ = false

abbrev pub is_closed : Ready → Bool
is_closed closed = true
is_closed _ = false

unfoldable pub set_ready : ℕ → Ready → WsClient → WsClient
set_ready s r c = record c { ready = λ t. if nat_eqb t s then r else c.ready t }

abbrev pub ws_is_live : WsClient → Bool
ws_is_live c = elim c.ws [ none ↦ false | some s ↦ is_live (c.ready s) ]

unfoldable pub connect : WsClient → WsClient
unfolding set_ready
connect c = if ws_is_live c then c else record (set_ready c.next_socket connecting c) {
  is_closing = false;
  ws = some c.next_socket;
  next_socket = suc c.next_socket;
}

-- `ws?.close()`: nothing happens to a socket that is closed.
unfoldable pub close : Option ℕ → WsClient → WsClient
unfolding set_ready
close none c = c
close (some s) c = if is_closed (c.ready s) then c else set_ready s closing c

abbrev pub clear_timeout : Option ℕ → List ℕ → List ℕ
clear_timeout none timers = timers
clear_timeout (some t) timers = delete timers t

unfoldable pub disconnect : WsClient → WsClient
unfolding close
disconnect c = record (close c.ws c) {
  is_closing = true;
  timers = clear_timeout c.reconnect_timer c.timers;
  reconnect_timer = none;
  ws = none;
}

unfoldable pub schedule_reconnect : WsClient → WsClient
schedule_reconnect c = record c {
  timers = c.timers ++ c.next_timer ∷ [];
  reconnect_timer = some c.next_timer;
  next_timer = suc c.next_timer;
}

unfoldable pub on_open : ℕ → WsClient → WsClient
unfolding set_ready
on_open s c = record (set_ready s is_open c) { reconnect_delay = 1000 }

unfoldable pub on_close : ℕ → ℕ → WsClient → WsClient
unfolding set_ready schedule_reconnect
on_close s code c =
    if c.is_closing
    then set_ready s closed c
    else if nat_eqb code 4001
    then set_ready s closed c
    else schedule_reconnect (set_ready s closed c)

unfoldable pub on_timer : ℕ → WsClient → WsClient
unfolding connect
on_timer t c =
    connect
      (record c { timers = delete c.timers t; reconnect_delay = min (c.reconnect_delay * 2) 30000 })

-- An event that the browser cannot send in the state has no effect.
unfoldable pub handle : Event → WsClient → WsClient
unfolding connect disconnect close on_open on_close on_timer
handle connects c = connect c
handle disconnects c = disconnect c
handle (opened s) c = if is_connecting (c.ready s) then on_open s c else c
handle (errored s) c = if is_closed (c.ready s) then c else close c.ws c
handle (closed_with s code) c = if is_closed (c.ready s) then c else on_close s code c
handle (fired t) c = if includes c.timers t then on_timer t c else c

unfoldable pub run : List Event → WsClient → WsClient
unfolding handle
run [] c = c
run (ev ∷ evs) c = run evs (handle ev c)
