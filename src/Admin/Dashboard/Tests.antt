-- ===== src/Admin/Dashboard/Tests.antt =====
-- A dashboard of which two sources failed.
use kiosk_screen.Prelude.{ℕ, ◌≡◌, refl, true, false, none, some, [], ◌∷◌, map, codes}
use kiosk_screen.Display.Item.{fixed}
use kiosk_screen.Admin.Content.Samples.{three}
use kiosk_screen.Admin.RemoteControl.{RemoteState}
use kiosk_screen.Admin.Dashboard.Routes.{resolve_readiness_route}
use kiosk_screen.Admin.Dashboard.{
  ContextualAction, DashboardState, section_readiness, section_live, section_live_kiosks,
  section_queue, section_activity, build_queue_slice, fold_readiness,
}
use kiosk_screen.Admin.Dashboard.Fold.{
  blocker_action, derive_contextual_actions, Sources, load_dashboard,
}
use kiosk_screen.Admin.Dashboard.Degraded.{Degrades, load_dashboard-Degrades}

abbrev pinned_state : RemoteState ℕ
pinned_state = record {
  content_mode = fixed;
  selected_iframe_id = none;
  selected_fixed_content_id = some "c";
  selected_iframe = none;
  ads_visible = true;
  fullscreen_requested = false;
  navigation_command = none;
  navigation_command_id = none;
  jump_to_content_id = none;
  updated_at = "2026-01-01T00:00:00Z";
  display_session_active = none;
}

abbrev answered_in_part : Sources ℕ
answered_in_part = record {
  readiness = some (record { blockers = codes "No active ads" ∷ []; warnings = []; ready = false });
  live = some pinned_state;
  live_kiosks = none;
  content = some three.items;
  events = none;
}

abbrev dashboard : DashboardState
dashboard = load_dashboard (λ text. 0) answered_in_part

dashboard_run :
    (dashboard.degraded_sections ≡ section_live_kiosks ∷ section_activity ∷ [])
    × (map (λ (a : ContextualAction). a.route) dashboard.contextual_actions
        ≡ "/admin/ads" ∷ "/admin/readiness" ∷ [])
unfolding load_dashboard derive_contextual_actions blocker_action fold_readiness
    resolve_readiness_route build_queue_slice codes
dashboard_run = (refl, refl)

load_dashboard-Degrades_example :
    Degrades section_readiness answered_in_part.readiness dashboard.readiness dashboard
    × Degrades section_live answered_in_part.live dashboard.live dashboard
    × Degrades section_live_kiosks answered_in_part.live_kiosks dashboard.live_kiosks dashboard
    × Degrades section_queue answered_in_part.content dashboard.queue dashboard
    × Degrades section_activity answered_in_part.events dashboard.activity dashboard
load_dashboard-Degrades_example = load_dashboard-Degrades (λ text. 0) answered_in_part
