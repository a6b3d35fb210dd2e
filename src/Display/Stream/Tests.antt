-- ===== src/Display/Stream/Tests.antt =====
-- A session that fails, falls back and recovers, and an update of a scale.
use kiosk_screen.Prelude.{ℕ, some, List, [], ◌∷◌}
use kiosk_screen.Display.Payloads.{KioskRegisterResponse, IframeScaleUpdatedPayload}
use kiosk_screen.Display.Stream.{ended_body, initial_stream}
use kiosk_screen.Display.Payloads.{override}
use kiosk_screen.Display.IframeScale.{IframeScales}
use kiosk_screen.Display.Stream.Session.{
  SessionEvent, started_with, source_opened, source_failed, fallback_fired, received, session_run,
  IsConsistent, session_run-IsConsistent,
}

abbrev registration : KioskRegisterResponse
registration = record {
  kiosk_id = "k";
  organization_id = "o";
  operator_session_id = "s";
  display_device_id = "d";
  protocol_version = 1;
}

abbrev sample_events : List (ℕ × SessionEvent)
sample_events =
    (1, started_with registration)
    ∷ (9000, source_failed)
    ∷ (69000, fallback_fired)
    ∷ (70000, source_opened)
    ∷ (80000, received (record { sequence = some 3; body = ended_body }))
    ∷ []

session_run-IsConsistent_example : IsConsistent (session_run initial_stream sample_events)
session_run-IsConsistent_example = session_run-IsConsistent sample_events

abbrev update : IframeScaleUpdatedPayload
update = record {
  display_device_id = "d";
  iframe_id = "i";
  scale_x = 800;
  scale_y = 900;
  source = override;
}

abbrev scales : IframeScales
scales = record { display_device_id = some "d"; overrides = [] }
