-- ===== src/Display/Screen/SoundUpkeep.antt =====
-- The state of the server, the fallback polling, the reload and the end keep the invariants of the
-- gate, of the media cache and of the polling.
use kiosk_screen.Prelude.{
  ℕ, ◌+◌, inl, inr, not, ◌&&◌, some, ◌==◌, if_both, Option-cases, is_some, opt_nat_eq, length,
  filter,
}
use kiosk_screen.Display.Payloads.{DisplayState, ConfigUpdatedPayload}
use kiosk_screen.Display.Viewer.{iframe_active}
use kiosk_screen.Display.MediaCache.Runs.{all_released, cache_step}
use kiosk_screen.Display.Polling.Lifecycle.{started, stopped, poll_step}
use kiosk_screen.Display.Screen.Seed.{
  seed_viewer_from_state, warm_current, applies_now, apply_configuration_state, on_config_updated,
}
use kiosk_screen.Display.Screen.Upkeep.{
  fallback_poll_interval_ms, on_connection, on_polled, configured_reload, reconfigure_reload,
  on_state_changed, reload_tick, destroy,
}
use kiosk_screen.Display.Screen.{Screen, viewer_of, over_viewer}
use kiosk_screen.Display.Screen.Sound.{
  IsSound, over_viewer-IsSound, cached-IsSound, polled-IsSound, warm_content-IsSound,
  sync_content_render_items-IsSound,
}

warm_current-IsSound : (now : ℕ) (s : Screen) → IsSound s → IsSound (warm_current now s)
unfolding warm_current
warm_current-IsSound now s h = elim (Option-cases (viewer_of s).current_content) [
  | inl e ↦ rw (warm_current, e) h
  | inr (content, e) ↦ rw (warm_current, e) (warm_content-IsSound now content s h)
]

pub apply_configuration_state-IsSound :
    (now : ℕ) (state : DisplayState) (s : Screen)
    → IsSound s
    → IsSound (apply_configuration_state now state s)
unfolding apply_configuration_state
apply_configuration_state-IsSound now state s h =
    let kept = record s { state = some state; state_version = s.state_version + 1 } in
    let seeded = over_viewer (seed_viewer_from_state state) kept in
    sync_content_render_items-IsSound (warm_current now seeded)
      (warm_current-IsSound now seeded (over_viewer-IsSound (seed_viewer_from_state state) kept h))

pub on_config_updated-IsSound :
    (p : ConfigUpdatedPayload) (s : Screen) → IsSound s → IsSound (on_config_updated p s)
unfolding on_config_updated
on_config_updated-IsSound p s h = elim (Option-cases s.state) [
  | inl e ↦ rw (on_config_updated, e) h
  | inr (state, e) ↦
      rw (on_config_updated, e)
        (if_both IsSound (length (filter (applies_now p.apply_immediately) p.changed_fields) == 0) h
          h)
]

pub on_connection-IsSound : (random : ℕ) (s : Screen) → IsSound s → IsSound (on_connection random s)
unfolding on_connection poll_step
on_connection-IsSound random s h = if_both IsSound (not s.display_active) h (
    if_both IsSound (s.stream.connected && s.fallback_polling_active)
      (polled-IsSound random stopped s h)
      (if_both IsSound
        (not s.stream.connected && s.stream.sse_fallback_active && not s.fallback_polling_active)
        (polled-IsSound random (started (fallback_poll_interval_ms s)) s h) h))

pub on_polled-IsSound : (now : ℕ) (s : Screen) → IsSound s → IsSound (on_polled now s)
unfolding on_polled
on_polled-IsSound now s h = elim (Option-cases s.poller.state) [
  | inl e ↦ rw (on_polled, e) h
  | inr (state, e) ↦
      rw (on_polled, e)
        (if_both IsSound s.fallback_polling_active (apply_configuration_state-IsSound now state s h)
          h)
]

pub on_state_changed-IsSound : (s : Screen) → IsSound s → IsSound (on_state_changed s)
unfolding on_state_changed reconfigure_reload
on_state_changed-IsSound s h =
    if_both IsSound (opt_nat_eq (some (configured_reload s)) s.armed_reload) h h

pub reload_tick-IsSound : (s : Screen) → IsSound s → IsSound (reload_tick s)
unfolding reload_tick
reload_tick-IsSound s h =
    if_both IsSound (is_some s.reload_timer && iframe_active (viewer_of s)) h h

pub destroy-IsSound : (random : ℕ) (s : Screen) → IsSound s → IsSound (destroy random s)
unfolding destroy cache_step poll_step
destroy-IsSound random s h =
    polled-IsSound random stopped (record s { cache = cache_step s.cache (0, all_released) })
      (cached-IsSound 0 all_released s h)
