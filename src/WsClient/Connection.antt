-- ===== src/WsClient/Connection.antt =====
-- The connection: at most one socket is live, and a disconnected client stays so.
use mathlib.Core.Bool.{false≢true}
use mathlib.Core.Option.{some_inj}
use marc_comparator.Base.{
  ℕ, ◌≡◌, ◌≤◌, refl, sym, ap, ◌∙◌, Bool, true, false, not, ◌||◌, Option, none, some, List, [], ◌∷◌,
  nat_eqb, nat_eqb_iff, nat_eq, leb, all, arith, Bool-cases, Option-cases, inl, inr,
}
use marc_comparator.Base.Sets.{includes}
use marc_comparator.WsClient.{
  WsClient, Event, connects, disconnects, opened, errored, closed_with, fired, initial, is_live,
  is_connecting, is_closed, set_ready, connect, close, clear_timeout, disconnect,
  schedule_reconnect, on_open, on_close, on_timer, handle, run,
}

-- The socket that the client holds is `s`.
abbrev holds : Option ℕ → ℕ → Bool
holds none s = false
holds (some t) s = nat_eqb s t

holds_lem : (w : Option ℕ) (s : ℕ) → holds w s ≡ true → w ≡ some s
holds_lem none s h = absurd (false≢true h)
holds_lem (some t) s h = ap some (sym ((nat_eqb_iff s t).0 h))

-- A live socket is the one that the client holds, a socket of the future is closed, and the delay
-- is within its bounds.
pub record IsSound (c : WsClient) : Type 0 where
  pub one_live : (s : ℕ) → (not (is_live (c.ready s)) || holds c.ws s) ≡ true
  pub unborn : (s : ℕ) → (is_closed (c.ready s) || not (leb c.next_socket s)) ≡ true
  pub at_least : 1000 ≤ c.reconnect_delay
  pub at_most : c.reconnect_delay ≤ 30000

IsSound-initial : IsSound initial
IsSound-initial = record {
  one_live = λ s. refl;
  unborn = λ s. refl;
  at_least = omega arith;
  at_most = omega arith;
}

IsSound-connect : (c : WsClient) → IsSound c → IsSound (connect c)
unfolding connect set_ready
IsSound-connect c ok = record {
  one_live = λ s. grind (arith, ok.one_live s);
  unborn = λ s. grind (arith, ok.unborn s);
  at_least = ground (arith, ok.at_least);
  at_most = ground (arith, ok.at_most);
}

IsSound-close : (w : Option ℕ) (c : WsClient) → IsSound c → IsSound (close w c)
unfolding close set_ready
IsSound-close none c ok = ok
IsSound-close (some t) c ok = record {
  one_live = λ s. grind (arith, ok.one_live s);
  unborn = λ s. grind (arith, ok.unborn s, ok.unborn t);
  at_least = ground (arith, ok.at_least);
  at_most = ground (arith, ok.at_most);
}

-- No socket is live when the client has let its socket go.
disconnect-dead : (c : WsClient) (s : ℕ) → IsSound c → is_live ((disconnect c).ready s) ≡ false
unfolding disconnect close set_ready
disconnect-dead c s ok = elim (Option-cases c.ws) [
  | inl e ↦ rw e (grind (arith, e, ok.one_live s))
  | inr (t, e) ↦ rw e (grind (arith, e, ok.one_live s))
]

IsSound-disconnect : (c : WsClient) → IsSound c → IsSound (disconnect c)
unfolding disconnect
IsSound-disconnect c ok =
    let after = IsSound-close c.ws c ok in
    record {
      one_live = λ s. grind (arith, disconnect-dead c s ok);
      unborn = after.unborn;
      at_least = after.at_least;
      at_most = after.at_most;
    }

IsSound-on_close :
    (c : WsClient) (s code : ℕ)
    → is_closed (c.ready s) ≡ false
    → IsSound c
    → IsSound (on_close s code c)
unfolding on_close schedule_reconnect set_ready
IsSound-on_close c s code h ok = record {
  one_live = λ t. grind (arith, ok.one_live t);
  unborn = λ t. grind (arith, ok.unborn t);
  at_least = ground (arith, ok.at_least);
  at_most = ground (arith, ok.at_most);
}

IsSound-on_open :
    (c : WsClient) (s : ℕ) → is_connecting (c.ready s) ≡ true → IsSound c → IsSound (on_open s c)
unfolding on_open set_ready
IsSound-on_open c s h ok = record {
  one_live = λ t. grind (arith, ok.one_live t, h);
  unborn = λ t. grind (arith, ok.unborn t, h);
  at_least = omega arith;
  at_most = omega arith;
}

IsSound-on_timer : (c : WsClient) (t : ℕ) → IsSound c → IsSound (on_timer t c)
unfolding on_timer
IsSound-on_timer c t ok = IsSound-connect _ (record {
  one_live = ok.one_live;
  unborn = ok.unborn;
  at_least = omega (arith, ok.at_least);
  at_most = omega arith;
})

IsSound-handle : (ev : Event) (c : WsClient) → IsSound c → IsSound (handle ev c)
unfolding handle
IsSound-handle connects c ok = IsSound-connect c ok
IsSound-handle disconnects c ok = IsSound-disconnect c ok
IsSound-handle (opened s) c ok = elim (Bool-cases (is_connecting (c.ready s))) [
  | inl e ↦ rw e (IsSound-on_open c s e ok)
  | inr e ↦ rw e ok
]
IsSound-handle (errored s) c ok = elim (Bool-cases (is_closed (c.ready s))) [
  | inl e ↦ rw e ok
  | inr e ↦ rw e (IsSound-close c.ws c ok)
]
IsSound-handle (closed_with s code) c ok = elim (Bool-cases (is_closed (c.ready s))) [
  | inl e ↦ rw e ok
  | inr e ↦ rw e (IsSound-on_close c s code e ok)
]
IsSound-handle (fired t) c ok = elim (Bool-cases (includes c.timers t)) [
  | inl e ↦ rw e (IsSound-on_timer c t ok)
  | inr e ↦ rw e ok
]

IsSound-run : (evs : List Event) (c : WsClient) → IsSound c → IsSound (run evs c)
unfolding run
IsSound-run [] c ok = ok
IsSound-run (ev ∷ evs) c ok = IsSound-run evs (handle ev c) (IsSound-handle ev c ok)

-- However the page, the sockets and the timers behave, two sockets are never live at the same
-- time, and the live one is the socket that the client holds.
pub run-one_live :
    (evs : List Event) (s t : ℕ)
    → is_live ((run evs initial).ready s) ≡ true
    → is_live ((run evs initial).ready t) ≡ true
    → (s ≡ t) × ((run evs initial).ws ≡ some s)
run-one_live evs s t hs ht =
    let ok = IsSound-run evs initial IsSound-initial in
    let held_s = holds_lem (run evs initial).ws s (ground (arith, hs, ok.one_live s)) in
    let held_t = holds_lem (run evs initial).ws t (ground (arith, ht, ok.one_live t)) in
    (some_inj.0 (sym held_s ∙ held_t), held_s)

-- In every run the delay of the next reconnection is between one second and thirty.
pub run-delay_bounds :
    (evs : List Event)
    → (1000 ≤ (run evs initial).reconnect_delay) × ((run evs initial).reconnect_delay ≤ 30000)
run-delay_bounds evs = let ok = IsSound-run evs initial IsSound-initial in (ok.at_least, ok.at_most)

-- What only the browser does to the sockets.
abbrev pub is_callback : Event → Bool
is_callback (opened s) = true
is_callback (errored s) = true
is_callback (closed_with s code) = true
is_callback _ = false

-- The client was told to disconnect, and its timers are `timers`.
record IsOff (timers : List ℕ) (c : WsClient) : Type 0 where
  let_go : c.ws ≡ none
  stays : c.is_closing ≡ true
  same_timers : c.timers ≡ timers

IsOff-callback :
    {timers : List ℕ} (ev : Event) (c : WsClient)
    → is_callback ev ≡ true
    → IsOff timers c
    → IsOff timers (handle ev c)
unfolding handle on_open on_close set_ready close
IsOff-callback connects c h off = absurd (false≢true h)
IsOff-callback disconnects c h off = absurd (false≢true h)
IsOff-callback (fired t) c h off = absurd (false≢true h)
IsOff-callback (opened s) c h off = record {
  let_go = ground (arith, off.let_go, off.stays);
  stays = ground (arith, off.let_go, off.stays);
  same_timers = ground (arith, off.same_timers, off.stays, off.let_go);
}
IsOff-callback (errored s) c h off = record {
  let_go = ground (arith, off.let_go, off.stays);
  stays = ground (arith, off.let_go, off.stays);
  same_timers = ground (arith, off.same_timers, off.stays, off.let_go);
}
IsOff-callback (closed_with s code) c h off = record {
  let_go = ground (arith, off.let_go, off.stays);
  stays = ground (arith, off.let_go, off.stays);
  same_timers = ground (arith, off.same_timers, off.stays, off.let_go);
}

IsOff-run :
    {timers : List ℕ} (evs : List Event) (c : WsClient)
    → all is_callback evs ≡ true
    → IsOff timers c
    → IsOff timers (run evs c)
unfolding run all
IsOff-run [] c h off = off
IsOff-run (ev ∷ evs) c h off =
    IsOff-run evs (handle ev c) (ground (arith, h)) (IsOff-callback ev c (ground (arith, h)) off)

-- A client that disconnects lets its socket go and stops the timer that it knows. Whatever its
-- old sockets still report afterwards, it holds no socket and starts no timer.
pub disconnect-stays :
    (c : WsClient) (evs : List Event)
    → all is_callback evs ≡ true
    → ((run evs (disconnect c)).ws ≡ none)
      × ((run evs (disconnect c)).timers ≡ clear_timeout c.reconnect_timer c.timers)
unfolding disconnect
disconnect-stays c evs h =
    let off =
      IsOff-run evs (disconnect c) h (record { let_go = refl; stays = refl; same_timers = refl }) in
    (off.let_go, off.same_timers)
