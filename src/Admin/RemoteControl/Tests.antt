-- ===== src/Admin/RemoteControl/Tests.antt =====
-- A run of the remote control, and a pause that fails.
use kiosk_screen.Prelude.{ℕ, ◌≡◌, true, false, none, some, List, [], ◌∷◌}
use kiosk_screen.Admin.Errors.{adapt_api_error}
use kiosk_screen.Display.Item.{loop}
use kiosk_screen.Admin.RemoteControl.{
  pause, resume, RemoteState, RemoteFacade, new_state, remote_failed,
}
use kiosk_screen.Admin.RemoteControl.Settling.{
  RemoteEvent, refreshed, ads_set, navigated, remote_answer, initial_remote,
}
use kiosk_screen.Admin.RemoteControl.Pausing.{fails, FailsTo, navigate_failed}

abbrev looping : RemoteState ℕ
looping = record {
  content_mode = loop;
  selected_iframe_id = none;
  selected_fixed_content_id = none;
  selected_iframe = none;
  ads_visible = true;
  fullscreen_requested = false;
  navigation_command = none;
  navigation_command_id = none;
  jump_to_content_id = none;
  updated_at = "2026-01-01T00:00:00Z";
  display_session_active = some true;
}

abbrev commands : List (RemoteEvent ℕ ℕ)
commands =
    refreshed
    ∷ navigated pause none
    ∷ remote_answer 1 (new_state looping)
    ∷ ads_set false
    ∷ remote_answer 1 (remote_failed none)
    ∷ []

abbrev paused_remote : RemoteFacade ℕ ℕ
paused_remote = record initial_remote { state = some looping; paused = true }

navigate_failed_example :
    let g = fails resume none none paused_remote in
    (g.state ≡ some looping)
    × (g.in_flight ≡ [])
    × (g.saving ≡ false)
    × (g.error ≡ some (adapt_api_error none))
    × FailsTo resume true g.paused
navigate_failed_example = navigate_failed resume none none paused_remote
