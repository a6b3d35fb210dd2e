-- ===== src/Display/Polling/Lifecycle.antt =====
-- The polling never dies while it runs, never polls in quick succession, and is silent once stopped.
use kiosk_screen.Prelude.{
  ℕ, zero, suc, ◌≤◌, ◌<◌, max, ◌≡◌, refl, ◌⊎◌, inl, inr, Bool, true, false, Option, none, some,
  List, [], ◌∷◌, arith, leb, ◌==◌, if_both, if_each, Option-cases, is_some,
}
use kiosk_screen.Display.Scheduler.{AtLeast}
use kiosk_screen.Display.Polling.{
  Poller, InFlight, opening, polling, Answer, next_backoff_ms, finalize_fetch, drop_in_flight, stop,
  execute_open, perform_open, open_display, retry_open, start_polling, poll_now,
  reconfigure_interval, fire_poll_timer, fire_open_timer, answer_in_flight, answer_loose,
  min_backoff_ms, max_backoff_ms,
}

pub data PollEvent : Type 0 where
  opened : Bool → PollEvent
  started reconfigured : ℕ → PollEvent
  open_retried polled_now stopped poll_fired open_fired : PollEvent
  flight_answered loose_answered : Answer → PollEvent

-- An event with the reading of `Math.random()` that it may use.
unfoldable pub poll_step : Poller → ℕ × PollEvent → Poller
poll_step s (random, opened has_callback) = open_display random has_callback s
poll_step s (random, started ms) = start_polling ms s
poll_step s (random, reconfigured ms) = reconfigure_interval ms s
poll_step s (random, open_retried) = retry_open random s
poll_step s (random, polled_now) = poll_now s
poll_step s (random, stopped) = stop random s
poll_step s (random, poll_fired) = fire_poll_timer random s
poll_step s (random, open_fired) = fire_open_timer random s
poll_step s (random, flight_answered answer) = answer_in_flight random answer s
poll_step s (random, loose_answered answer) = answer_loose random answer s

abbrev pub poll_run : Poller → List (ℕ × PollEvent) → Poller
poll_run s [] = s
poll_run s (e ∷ es) = poll_run (poll_step s e) es

abbrev pub is_polling : Option InFlight → Bool
is_polling (some polling) = true
is_polling _ = false

-- Something will bring the next poll: a timer, or the end of a fetch.
abbrev pub IsAlive : Option ℕ → Option InFlight → ℕ → Type 0
IsAlive timer flight loose = (is_some timer ≡ true) ⊎ (is_polling flight ≡ true) ⊎ (0 < loose)

pub record Polls (running : Bool) (interval loose : ℕ) (timer : Option ℕ) (flight : Option InFlight)
    : Type 0 where
  pub interval_long : min_backoff_ms ≤ interval
  pub delay_long : AtLeast min_backoff_ms timer
  pub silent : (is_some timer ≡ false) ⊎ (running ≡ true)
  pub alive : (running ≡ false) ⊎ IsAlive timer flight loose

abbrev pub IsPolls : Poller → Type 0
IsPolls s = Polls s.running s.armed_interval_ms s.loose s.poll_timer s.in_flight

-- A backoff is between 1 s and 30 s, whatever the failures and the random number.
pub next_backoff_ms-bounds :
    (random n : ℕ) (s : Poller)
    → (min_backoff_ms ≤ next_backoff_ms random (suc n) s)
      × (next_backoff_ms random (suc n) s ≤ max_backoff_ms)
unfolding next_backoff_ms
next_backoff_ms-bounds random n s = omega arith

next_backoff_ms-long :
    (random n : ℕ) (s : Poller)
    → min_backoff_ms ≤ s.armed_interval_ms
    → min_backoff_ms ≤ next_backoff_ms random n s
unfolding next_backoff_ms
next_backoff_ms-long random zero s h = h
next_backoff_ms-long random (suc n) s h = omega arith

-- What a fetch leaves behind before its `finalize`: nothing needs to keep the polling alive.
abbrev pub Ending : Poller → Type 0
Ending s =
    (min_backoff_ms ≤ s.armed_interval_ms)
    × AtLeast min_backoff_ms s.poll_timer
    × ((is_some s.poll_timer ≡ false) ⊎ (s.running ≡ true))

pub finalize_fetch-IsPolls :
    (random : ℕ) (s : Poller) → Ending s → IsPolls (finalize_fetch random s)
unfolding finalize_fetch
finalize_fetch-IsPolls random s (long, delay, silent) =
    let wait = next_backoff_ms-long random s.consecutive_failures s long in ground arith

pub IsPolls-Ending : (s : Poller) → IsPolls s → Ending s
IsPolls-Ending s h = (h.interval_long, h.delay_long, h.silent)

finalize_fetch-in_flight :
    (random : ℕ) (s : Poller) → (finalize_fetch random s).in_flight ≡ s.in_flight
unfolding finalize_fetch
finalize_fetch-in_flight random s = ground arith

pub drop_in_flight-IsPolls :
    (random : ℕ) (s : Poller) → IsPolls s → IsPolls (drop_in_flight random s)
unfolding drop_in_flight
drop_in_flight-IsPolls random s h = elim (Option-cases s.in_flight) [
  | inl e ↦ rw (e, drop_in_flight) h
  | inr (opening, e) ↦
      rw (e, drop_in_flight)
        (record {
          interval_long = h.interval_long;
          delay_long = h.delay_long;
          silent = h.silent;
          alive = ground (arith, h.alive, e);
        })
  | inr (polling, e) ↦
      rw (e, drop_in_flight)
        (finalize_fetch-IsPolls random (record s { in_flight = none }) (IsPolls-Ending s h))
]

drop_in_flight-in_flight : (random : ℕ) (s : Poller) → (drop_in_flight random s).in_flight ≡ none
unfolding drop_in_flight
drop_in_flight-in_flight random s = elim (Option-cases s.in_flight) [
  | inl e ↦ rw (e, drop_in_flight) e
  | inr (opening, e) ↦ rw (e, drop_in_flight) refl
  | inr (polling, e) ↦
      rw (e, drop_in_flight) (finalize_fetch-in_flight random (record s { in_flight = none }))
]

-- A poller without a request in flight stays alive when a request of the display begins.
opening-IsPolls :
    (s : Poller) → s.in_flight ≡ none → IsPolls s → IsPolls (record s { in_flight = some opening })
opening-IsPolls s e h = record {
  interval_long = h.interval_long;
  delay_long = h.delay_long;
  silent = h.silent;
  alive = ground (arith, h.alive, e);
}

pub execute_open-IsPolls : (random : ℕ) (s : Poller) → IsPolls s → IsPolls (execute_open random s)
unfolding execute_open
execute_open-IsPolls random s h =
    let asked = record s { open_in_progress = true; open_error = none } in
    opening-IsPolls (drop_in_flight random asked) (drop_in_flight-in_flight random asked)
      (drop_in_flight-IsPolls random asked h)

pub perform_open-IsPolls :
    (random delay : ℕ) (s : Poller) → IsPolls s → IsPolls (perform_open random delay s)
unfolding perform_open
perform_open-IsPolls random delay s h =
    if_both IsPolls (leb delay 0)
      (execute_open-IsPolls random (record s { open_retry_timer = none }) h) h

pub start_polling-IsPolls : (ms : ℕ) (s : Poller) → IsPolls (start_polling ms s)
unfolding start_polling
start_polling-IsPolls ms s = record {
  interval_long = omega arith;
  delay_long = omega arith;
  silent = inr refl;
  alive = inr (inl refl);
}

pub poll_now-IsPolls : (s : Poller) → IsPolls s → IsPolls (poll_now s)
unfolding poll_now
poll_now-IsPolls s h =
    if_both IsPolls s.running
      (record {
        interval_long = h.interval_long;
        delay_long = tt;
        silent = inl refl;
        alive = inr (inr (inr (omega arith)));
      })
      h

pub reconfigure_interval-IsPolls :
    (ms : ℕ) (s : Poller) → IsPolls s → IsPolls (reconfigure_interval ms s)
unfolding reconfigure_interval
reconfigure_interval-IsPolls ms s h =
    let next = max 1000 ms in
    let long : min_backoff_ms ≤ next = omega arith in
    if_both IsPolls (next == s.armed_interval_ms) h (
      if_each IsPolls s.running
        (λ running. record {
          interval_long = long;
          delay_long = long;
          silent = inr running;
          alive = inr (inl refl);
        })
        (λ idle. record {
          interval_long = long;
          delay_long = h.delay_long;
          silent = h.silent;
          alive = inl idle;
        }))
