-- ===== src/Display/Screen/Tests.antt =====
-- A screen that opens, loses its stream and polls in its place.
use kiosk_screen.Prelude.{ℕ, ◌≡◌, refl, true, false, some, List, [], ◌∷◌}
use kiosk_screen.Display.Samples.{
  first_item, sample_content, sample_ads, sample_state, sample_viewer,
}
use kiosk_screen.Display.Gate.Runs.{settled}
use kiosk_screen.Display.Stream.{Stream}
use kiosk_screen.Display.Screen.Runs.{
  ScreenEvent, opened_with, content_came, ads_came, gate_ran, stream_ran, connection_changed,
  state_polled, destroyed, initial_screen,
}
use kiosk_screen.Display.Screen.Upkeep.{Settles, on_connection, on_connection_lem}
use kiosk_screen.Display.Screen.{Screen}

abbrev outage : List (ℕ × ℕ × ScreenEvent)
outage =
    (1, 0, opened_with sample_state)
    ∷ (2, 0, content_came (sample_content first_item))
    ∷ (3, 0, gate_ran (settled 0 true))
    ∷ (4, 0, ads_came sample_ads)
    ∷ (
      5,
      0,
      stream_ran (λ (s : Stream). record s { connected = false; sse_fallback_active = true }),
    )
    ∷ (6, 0, connection_changed)
    ∷ (7, 0, state_polled)
    ∷ (8, 0, destroyed)
    ∷ []

abbrev lost : Screen
lost =
    let s = initial_screen sample_viewer in
    record s {
      display_active = true;
      state = some sample_state;
      stream = record s.stream { sse_fallback_active = true };
    }

polls_in_place : (on_connection 0 lost).fallback_polling_active ≡ true
unfolding on_connection
polls_in_place = refl

on_connection_lem_example : Settles (on_connection 0 lost)
on_connection_lem_example = on_connection_lem 0 lost refl refl

abbrev armed : Screen
armed = record lost { armed_reload = some 30; reload_timer = some 30000 }
