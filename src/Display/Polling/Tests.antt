-- ===== src/Display/Polling/Tests.antt =====
-- A run of the polling with failures and a stop.
use kiosk_screen.Prelude.{ℕ, inl, inr, true, some, List, [], ◌∷◌}
use kiosk_screen.Display.Polling.{Failure, initial_poller}
use kiosk_screen.Display.Samples.{sample_state}
use kiosk_screen.Display.Polling.Lifecycle.{
  PollEvent, started, polled_now, stopped, poll_fired, flight_answered, loose_answered, opened,
  poll_run, IsPolls,
}
use kiosk_screen.Display.Polling.Runs.{poll_run-IsPolls}

abbrev unavailable : Failure
unavailable = record { status = some 503; category = "server" }

abbrev sample_events : List (ℕ × PollEvent)
sample_events =
    (0, opened true)
    ∷ (0, flight_answered (inl sample_state))
    ∷ (0, started 200)
    ∷ (500, poll_fired)
    ∷ (999, flight_answered (inr unavailable))
    ∷ (0, polled_now)
    ∷ (0, loose_answered (inl sample_state))
    ∷ (0, stopped)
    ∷ []

poll_run-IsPolls_example : IsPolls (poll_run initial_poller sample_events)
poll_run-IsPolls_example = poll_run-IsPolls sample_events
