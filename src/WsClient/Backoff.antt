-- ===== src/WsClient/Backoff.antt =====
-- The delays of a connection that fails again and again.
use mathlib.Core.Path.{subst}
use native.Mathlib.Nat.{mul-one, add-zero, mul_assoc, pow-succ'}
use marc_comparator.Base.{
  ℕ, zero, suc, ◌+◌, ◌*◌, ◌^◌, ◌≡◌, ◌≤◌, refl, false, filter, some, List, [], ◌∷◌, min, nat_eqb,
  nat_eq, arith, sym, ap, ◌∙◌, Bool-cases, inl, inr, leb,
}
use marc_comparator.Base.Sets.{includes, delete}
use marc_comparator.WsClient.{
  connecting, closed, WsClient, Event, closed_with, fired, set_ready, connect, on_close, on_timer,
  schedule_reconnect, handle, run,
}

-- The socket `s` fails, and the timer that this starts fires.
abbrev pub failure : ℕ → ℕ → ℕ → List Event
failure s code t = closed_with s code ∷ fired t ∷ []

-- The client tries to connect, with the socket before the next one.
pub record IsTrying (c : WsClient) (s : ℕ) : Type 0 where
  pub held : c.ws ≡ some s
  pub tries : c.ready s ≡ connecting
  pub wanted : c.is_closing ≡ false
  pub newest : c.next_socket ≡ suc s
  pub no_timer : c.timers ≡ []

-- `n` failures in a row, of the sockets from `s` on, by the timers from `t` on.
unfoldable pub failures : ℕ → ℕ → ℕ → ℕ → List Event
failures zero code s t = []
failures (suc n) code s t = closed_with s code ∷ fired t ∷ failures n code (suc s) (suc t)

handle-closed_with :
    (c : WsClient) (s code : ℕ)
    → IsTrying c s
    → nat_eqb code 4001 ≡ false
    → handle (closed_with s code) c ≡ schedule_reconnect (set_ready s closed c)
unfolding handle on_close
handle-closed_with c s code ok h = ground (arith, ok.tries, ok.wanted)

-- The client whose socket failed, with the timer that it started.
record IsFailed (c : WsClient) (s : ℕ) (t : ℕ) : Type 0 where
  held : c.ws ≡ some s
  dead : c.ready s ≡ closed
  newest : c.next_socket ≡ suc s
  one_timer : c.timers ≡ t ∷ []

handle-fired : (c : WsClient) (s t : ℕ) → IsFailed c s t → handle (fired t) c ≡ on_timer t c
unfolding handle includes
handle-fired c s t ok = ground (arith, ok.one_timer)

on_timer-IsTrying : (c : WsClient) (s t : ℕ) → IsFailed c s t → IsTrying (on_timer t c) (suc s)
unfolding on_timer connect set_ready delete filter
on_timer-IsTrying c s t ok = record {
  held = grind (arith, ok.held, ok.dead, ok.newest);
  tries = grind (arith, ok.held, ok.dead, ok.newest);
  wanted = grind (arith, ok.held, ok.dead, ok.newest);
  newest = grind (arith, ok.held, ok.dead, ok.newest);
  no_timer = grind (arith, ok.held, ok.dead, ok.one_timer);
}

on_timer-delay :
    (c : WsClient) (s t : ℕ)
    → IsFailed c s t
    → ((on_timer t c).reconnect_delay ≡ min (c.reconnect_delay * 2) 30000)
      × ((on_timer t c).next_timer ≡ c.next_timer)
unfolding on_timer connect set_ready
on_timer-delay c s t ok = ground (arith)

IsFailed-closed :
    (c : WsClient) (s t : ℕ)
    → IsTrying c s
    → c.next_timer ≡ t
    → IsFailed (schedule_reconnect (set_ready s closed c)) s t
unfolding schedule_reconnect set_ready
IsFailed-closed c s t ok e = record {
  held = ok.held;
  dead = grind arith;
  newest = ok.newest;
  one_timer = rw (ok.no_timer, e) refl;
}

-- `d` doubled `n` times.
abbrev doubled : ℕ → ℕ → ℕ
doubled zero d = d
doubled (suc n) d = doubled n (d * 2)

le-doubled : (n d : ℕ) → d ≤ doubled n d
le-doubled zero d = omega arith
le-doubled (suc n) d = omega (arith, le-doubled n (d * 2))

doubled-pow : (n d : ℕ) → doubled n d ≡ d * 2 ^ n
doubled-pow zero d = sym (mul-one d)
doubled-pow (suc n) d =
    doubled-pow n (d * 2) ∙ (mul_assoc d 2 (2 ^ n) ∙ ap (λ m. d * m) (sym (pow-succ' 2 n)))

min_small : (d : ℕ) → d ≤ 30000 → min d 30000 ≡ d
min_small d h = omega arith

min_big : (d : ℕ) → 30000 ≤ d → min d 30000 ≡ 30000
min_big d h = omega arith

-- The doubled delay is cut off at any time.
doubled-min : (n d : ℕ) → min (doubled n (min d 30000)) 30000 ≡ min (doubled n d) 30000
doubled-min n d = elim (Bool-cases (leb d 30000)) [
  | inl small ↦ rw (min_small d (ground arith)) refl
  | inr large ↦
      let big : 30000 ≤ d = ground arith in
      rw (min_big d big) (omega (arith, big, le-doubled n d, le-doubled n 30000))
]

run-failures-suc :
    (n : ℕ) (c : WsClient) (s code t : ℕ)
    → IsTrying c s
    → nat_eqb code 4001 ≡ false
    → c.next_timer ≡ t
    → run (failures (suc n) code s t) c
      ≡ run
          (failures n code (suc s) (suc t))
          (on_timer t (schedule_reconnect (set_ready s closed c)))
unfolding run failures
run-failures-suc n c s code t ok h e =
    let rest = failures n code (suc s) (suc t) in
    ap (λ d. run rest (handle (fired t) d)) (handle-closed_with c s code ok h)
    ∙ ap (run rest)
        (handle-fired (schedule_reconnect (set_ready s closed c)) s t (IsFailed-closed c s t ok e))

run-failures-doubled :
    (n : ℕ) (c : WsClient) (s code t : ℕ)
    → IsTrying c s
    → nat_eqb code 4001 ≡ false
    → c.next_timer ≡ t
    → c.reconnect_delay ≤ 30000
    → IsTrying (run (failures n code s t) c) (s + n)
      × ((run (failures n code s t) c).reconnect_delay ≡ min (doubled n c.reconnect_delay) 30000)
unfolding run failures
run-failures-doubled zero c s code t ok h e small = (rw (add-zero s) ok, omega arith)
run-failures-doubled (suc n) c s code t ok h e small =
    let failed = schedule_reconnect (set_ready s closed c) in
    let down = IsFailed-closed c s t ok e in
    let again = on_timer-delay failed s t down in
    let rest =
      run-failures-doubled n (on_timer t failed) (suc s) code (suc t)
        (on_timer-IsTrying failed s t down) h (again.1 ∙ ap suc e) (omega (arith, again.0)) in
    rw (run-failures-suc n c s code t ok h e) (
      subst (IsTrying (run (failures n code (suc s) (suc t)) (on_timer t failed))) (omega arith)
          rest.0,
      rest.1 ∙ (ap (λ d. min (doubled n d) 30000) again.0 ∙ doubled-min n (c.reconnect_delay * 2)),
    )

-- A client that tries to connect, and fails `n` times in a row for another reason than a missing
-- session (4001), tries again after each failure with a new socket, without a further timer, and
-- its delay is doubled each time until it reaches thirty seconds.
pub run-failures :
    (n : ℕ) (c : WsClient) (s code : ℕ)
    → IsTrying c s
    → nat_eqb code 4001 ≡ false
    → c.reconnect_delay ≤ 30000
    → IsTrying (run (failures n code s c.next_timer) c) (s + n)
      × ((run (failures n code s c.next_timer) c).reconnect_delay
          ≡ min (c.reconnect_delay * 2 ^ n) 30000)
run-failures n c s code ok h small =
    let result = run-failures-doubled n c s code c.next_timer ok h refl small in
    (result.0, result.1 ∙ ap (λ d. min d 30000) (doubled-pow n c.reconnect_delay))
