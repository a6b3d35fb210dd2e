-- ===== src/Display/Polling/Runs.antt =====
-- The answers and timers of the polling, and its runs.
use kiosk_screen.Prelude.{
  ℕ, ◌+◌, ◌-◌, refl, inl, inr, true, false, not, Option, none, some, List, [], ◌∷◌, arith, ltb,
  if_both, if_each, Option-cases,
}
use kiosk_screen.Display.Payloads.{DisplayState}
use kiosk_screen.Display.Fingerprint.{equal_by_display_fingerprint}
use kiosk_screen.Display.Polling.{
  Poller, Failure, opening, polling, Answer, initial_poller, finalize_fetch, drop_in_flight, stop,
  handle_fatal_error, is_fatal_error, open_display, retry_open, fire_poll_timer, fire_open_timer,
  publish_state_if_changed, fetch_failed, fetch_answered, tell, open_answered, answer_in_flight,
  answer_loose,
}
use kiosk_screen.Display.Polling.Lifecycle.{
  PollEvent, opened, started, reconfigured, open_retried, polled_now, stopped, poll_fired,
  open_fired, flight_answered, loose_answered, poll_step, poll_run, IsPolls, Ending,
  finalize_fetch-IsPolls, IsPolls-Ending, drop_in_flight-IsPolls, execute_open-IsPolls,
  perform_open-IsPolls, start_polling-IsPolls, poll_now-IsPolls, reconfigure_interval-IsPolls,
}

stop-IsPolls : (random : ℕ) (s : Poller) → Ending s → IsPolls (stop random s)
unfolding stop
stop-IsPolls random s (long, delay, silent) =
    drop_in_flight-IsPolls random
      (record s { running = false; poll_timer = none; open_retry_timer = none })
      (record { interval_long = long; delay_long = tt; silent = inl refl; alive = inl refl })

handle_fatal_error-IsPolls :
    (random : ℕ) (s : Poller) → Ending s → IsPolls (handle_fatal_error random s)
unfolding handle_fatal_error
handle_fatal_error-IsPolls random s h = stop-IsPolls random s h

drop_in_flight-Ending : (random : ℕ) (s : Poller) → Ending s → Ending (drop_in_flight random s)
unfolding drop_in_flight
drop_in_flight-Ending random s h = elim (Option-cases s.in_flight) [
  | inl e ↦ rw (e, drop_in_flight) h
  | inr (opening, e) ↦ rw (e, drop_in_flight) h
  | inr (polling, e) ↦
      let free = record s { in_flight = none } in
      rw (e, drop_in_flight)
        (IsPolls-Ending (finalize_fetch random free) (finalize_fetch-IsPolls random free h))
]

-- A fetch in flight will end.
fetching-IsPolls :
    (s : Poller) → Ending s → IsPolls (record s { in_flight = some polling; loading = true })
fetching-IsPolls s (long, delay, silent) = record {
  interval_long = long;
  delay_long = delay;
  silent = silent;
  alive = inr (inr (inl refl));
}

fire_poll_timer-IsPolls : (random : ℕ) (s : Poller) → IsPolls s → IsPolls (fire_poll_timer random s)
unfolding fire_poll_timer
fire_poll_timer-IsPolls random s h = elim (Option-cases s.poll_timer) [
  | inl e ↦ rw (e, fire_poll_timer) h
  | inr (delay, e) ↦
      let idle = record s { poll_timer = none } in
      rw (e, fire_poll_timer)
        (if_each IsPolls s.running
          (λ running.
            fetching-IsPolls (drop_in_flight random idle)
              (drop_in_flight-Ending random idle (h.interval_long, tt, inl refl)))
          (λ off. record {
            interval_long = h.interval_long;
            delay_long = tt;
            silent = inl refl;
            alive = inl off;
          }))
]

fire_open_timer-IsPolls : (random : ℕ) (s : Poller) → IsPolls s → IsPolls (fire_open_timer random s)
unfolding fire_open_timer
fire_open_timer-IsPolls random s h = elim (Option-cases s.open_retry_timer) [
  | inl e ↦ rw (e, fire_open_timer) h
  | inr (delay, e) ↦
      rw (e, fire_open_timer) (execute_open-IsPolls random (record s { open_retry_timer = none }) h)
]

fetch_failed-Ending :
    (random : ℕ) (f : Failure) (s : Poller) → Ending s → Ending (fetch_failed random f s)
unfolding fetch_failed
fetch_failed-Ending random f s h =
    let told = record s { error = some f } in
    if_both Ending (is_fatal_error f)
      (IsPolls-Ending (handle_fatal_error random told) (handle_fatal_error-IsPolls random told h)) h

publish-Ending :
    (state : DisplayState) (s : Poller) → Ending s → Ending (publish_state_if_changed state s)
unfolding publish_state_if_changed
publish-Ending state s h =
    if_both Ending (not (equal_by_display_fingerprint s.last_fingerprint_state state)) h h

fetch_answered-IsPolls :
    (random : ℕ) (answer : Answer) (s : Poller)
    → Ending s
    → IsPolls (fetch_answered random answer s)
unfolding fetch_answered
fetch_answered-IsPolls random (inl state) s h =
    finalize_fetch-IsPolls random
      (record (publish_state_if_changed state s) { error = none; consecutive_failures = 0 })
      (publish-Ending state s h)
fetch_answered-IsPolls random (inr f) s h =
    finalize_fetch-IsPolls random (fetch_failed random f s) (fetch_failed-Ending random f s h)

tell-IsPolls : (result : Option DisplayState) (s : Poller) → IsPolls s → IsPolls (tell result s)
tell-IsPolls result s h = if_both IsPolls s.open_callback h h

open_answered-IsPolls :
    (random : ℕ) (answer : Answer) (s : Poller)
    → IsPolls s
    → IsPolls (open_answered random answer s)
unfolding open_answered
open_answered-IsPolls random (inl state) s h =
    tell-IsPolls (some state)
      (record s {
        open_in_progress = false;
        open_consecutive_failures = 0;
        last_fingerprint_state = some state;
      })
      h
open_answered-IsPolls random (inr f) s h =
    let told = record s { open_in_progress = false; open_error = some f } in
    if_both IsPolls (is_fatal_error f)
      (tell-IsPolls none (handle_fatal_error random told)
        (handle_fatal_error-IsPolls random told (IsPolls-Ending s h)))
      (tell-IsPolls none
        (record told { open_consecutive_failures = s.open_consecutive_failures + 1 }) h)

answer_in_flight-IsPolls :
    (random : ℕ) (answer : Answer) (s : Poller)
    → IsPolls s
    → IsPolls (answer_in_flight random answer s)
unfolding answer_in_flight
answer_in_flight-IsPolls random answer s h = elim (Option-cases s.in_flight) [
  | inl e ↦ rw (e, answer_in_flight) h
  | inr (opening, e) ↦
      rw (e, answer_in_flight)
        (open_answered-IsPolls random answer (record s { in_flight = none })
          (record {
            interval_long = h.interval_long;
            delay_long = h.delay_long;
            silent = h.silent;
            alive = ground (arith, h.alive, e);
          }))
  | inr (polling, e) ↦
      rw (e, answer_in_flight)
        (fetch_answered-IsPolls random answer (record s { in_flight = none }) (IsPolls-Ending s h))
]

answer_loose-IsPolls :
    (random : ℕ) (answer : Answer) (s : Poller) → IsPolls s → IsPolls (answer_loose random answer s)
unfolding answer_loose
answer_loose-IsPolls random answer s h =
    if_both IsPolls (ltb 0 s.loose)
      (fetch_answered-IsPolls random answer (record s { loose = s.loose - 1 }) (IsPolls-Ending s h))
      h

pub poll_step-IsPolls : (s : Poller) (e : ℕ × PollEvent) → IsPolls s → IsPolls (poll_step s e)
unfolding poll_step open_display retry_open
poll_step-IsPolls s (random, opened has_callback) h =
    perform_open-IsPolls random 0
      (record s { open_callback = has_callback; open_retry_timer = none }) h
poll_step-IsPolls s (random, started ms) h = start_polling-IsPolls ms s
poll_step-IsPolls s (random, reconfigured ms) h = reconfigure_interval-IsPolls ms s h
poll_step-IsPolls s (random, open_retried) h =
    perform_open-IsPolls random _ (record s { open_retry_timer = none }) h
poll_step-IsPolls s (random, polled_now) h = poll_now-IsPolls s h
poll_step-IsPolls s (random, stopped) h = stop-IsPolls random s (IsPolls-Ending s h)
poll_step-IsPolls s (random, poll_fired) h = fire_poll_timer-IsPolls random s h
poll_step-IsPolls s (random, open_fired) h = fire_open_timer-IsPolls random s h
poll_step-IsPolls s (random, flight_answered answer) h = answer_in_flight-IsPolls random answer s h
poll_step-IsPolls s (random, loose_answered answer) h = answer_loose-IsPolls random answer s h

poll_run_from : (es : List (ℕ × PollEvent)) (s : Poller) → IsPolls s → IsPolls (poll_run s es)
poll_run_from [] s h = h
poll_run_from (e ∷ es) s h = poll_run_from es (poll_step s e) (poll_step-IsPolls s e h)

-- After any events, while the polling runs, a timer is set or a fetch is under way, so that it goes on;
-- once it is stopped no timer is set; and no timer waits for less than 1 s.
pub poll_run-IsPolls : (es : List (ℕ × PollEvent)) → IsPolls (poll_run initial_poller es)
poll_run-IsPolls es =
    poll_run_from es initial_poller
      (record { interval_long = omega arith; delay_long = tt; silent = inl refl; alive = inl refl })
