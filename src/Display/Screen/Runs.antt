-- ===== src/Display/Screen/Runs.antt =====
-- Runs of the screen: whatever the stream, the clock, the cache and the server bring, in any order.
use kiosk_screen.Prelude.{ℕ, Bool, false, none, List, [], ◌∷◌}
use kiosk_screen.Display.Payloads.{
  DisplayState, KioskRegisterResponse, ShowContentPayload, ShowAdsPayload, ModeChangedPayload,
  ShowIframePayload, PreloadPayload, SnapshotPayload, ConfigUpdatedPayload,
}
use kiosk_screen.Display.Viewer.{Viewer, apply_show_ads, apply_mode_changed, apply_show_iframe}
use kiosk_screen.Display.Gate.Runs.{GateEvent, idle_gate, gate_step}
use kiosk_screen.Display.MediaCache.{empty_cache}
use kiosk_screen.Display.MediaCache.Runs.{CacheEvent, cache_step}
use kiosk_screen.Display.NoveltyQueue.{novelty_wait_over}
use kiosk_screen.Display.PreloadReady.{initial_preload_ready, ready_wait_over, post_answered}
use kiosk_screen.Display.Polling.{initial_poller}
use kiosk_screen.Display.Polling.Lifecycle.{PollEvent, poll_step}
use kiosk_screen.Display.Stream.{Stream, initial_stream}
use kiosk_screen.Display.Screen.Seed.{on_config_updated}
use kiosk_screen.Display.Screen.Upkeep.{
  on_connection, on_polled, on_state_changed, reload_tick, display_opened, registration_ready,
  retry_open_display, destroy,
}
use kiosk_screen.Display.Screen.{
  Screen, viewer_of, is_preload_allowed, over_viewer, with_gate, on_show_content, on_preload,
  on_snapshot, on_revision, on_top_changed, on_ads_changed,
}

pub data ScreenEvent : Type 0 where
  content_came : ShowContentPayload → ScreenEvent
  ads_came : ShowAdsPayload → ScreenEvent
  mode_came : ModeChangedPayload → ScreenEvent
  iframe_came : ShowIframePayload → ScreenEvent
  preload_came : PreloadPayload → ScreenEvent
  snapshot_came : SnapshotPayload → ScreenEvent
  config_came : ConfigUpdatedPayload → ScreenEvent
  revised top_changed ads_changed connection_changed state_polled state_changed : ScreenEvent
  reload_fired open_again destroyed : ScreenEvent
  opened_with : DisplayState → ScreenEvent
  registered_with : KioskRegisterResponse → DisplayState → ScreenEvent
  gate_ran : GateEvent → ScreenEvent
  cache_ran : CacheEvent → ScreenEvent
  poll_ran : PollEvent → ScreenEvent
  stream_ran : (Stream → Stream) → ScreenEvent
  novelty_settled ready_settled post_settled : ℕ → Bool → ScreenEvent

-- An event at a reading of the clock and of `Math.random()`.
unfoldable pub screen_step : Screen → ℕ × ℕ × ScreenEvent → Screen
screen_step s (now, random, content_came p) = on_show_content now p s
screen_step s (now, random, ads_came p) = over_viewer (apply_show_ads p) s
screen_step s (now, random, mode_came p) = over_viewer (apply_mode_changed p) s
screen_step s (now, random, iframe_came p) = over_viewer (apply_show_iframe p) s
screen_step s (now, random, preload_came p) = on_preload now p s
screen_step s (now, random, snapshot_came p) = on_snapshot now p s
screen_step s (now, random, config_came p) = on_config_updated p s
screen_step s (now, random, revised) = on_revision now s
screen_step s (now, random, top_changed) = on_top_changed now s
screen_step s (now, random, ads_changed) = on_ads_changed now s
screen_step s (now, random, connection_changed) = on_connection random s
screen_step s (now, random, state_polled) = on_polled now s
screen_step s (now, random, state_changed) = on_state_changed s
screen_step s (now, random, reload_fired) = reload_tick s
screen_step s (now, random, open_again) = retry_open_display random s
screen_step s (now, random, destroyed) = destroy random s
screen_step s (now, random, opened_with state) = display_opened now state s
screen_step s (now, random, registered_with r state) = registration_ready now r state s
screen_step s (now, random, gate_ran e) = with_gate now (λ g. gate_step g e) s
screen_step s (now, random, cache_ran e) = record s { cache = cache_step s.cache (now, e) }
screen_step s (now, random, poll_ran e) = record s { poller = poll_step s.poller (random, e) }
screen_step s (now, random, stream_ran f) = record s { stream = f s.stream }
screen_step s (now, random, novelty_settled i kept) = record s {
  tracker = novelty_wait_over i kept s.cache s.tracker;
}
screen_step s (now, random, ready_settled i kept) =
    let allowed = is_preload_allowed (viewer_of s) in
    record s { preload = ready_wait_over i kept allowed s.stream.kiosk_id s.preload }
screen_step s (now, random, post_settled i accepted) = record s {
  preload = post_answered i accepted s.preload;
}

abbrev pub screen_run : Screen → List (ℕ × ℕ × ScreenEvent) → Screen
screen_run s [] = s
screen_run s (e ∷ es) = screen_run (screen_step s e) es

-- The display before anything has come.
abbrev pub initial_screen : Viewer → Screen
initial_screen v = record {
  gate = idle_gate v;
  cache = empty_cache;
  tracker = record { entries = []; defer_metadata = []; waits = [] };
  preload = initial_preload_ready;
  poller = initial_poller;
  stream = initial_stream;
  state = none;
  state_version = 0;
  display_active = false;
  fallback_polling_active = false;
  render_items = [];
  armed_reload = none;
  reload_timer = none;
  reload_nonce = 0;
}
