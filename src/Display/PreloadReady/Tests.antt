-- ===== src/Display/PreloadReady/Tests.antt =====
-- A novelty that becomes ready twice.
use kiosk_screen.Prelude.{◌≡◌, refl, true, false, none, some, List, [], ◌∷◌}
use kiosk_screen.Display.Payloads.{PreloadItem}
use kiosk_screen.Display.MediaCache.{empty_cache, get_ready_state}
use kiosk_screen.Display.PreloadReady.{
  initial_preload_ready, report_ready, report_when_ready, report_in_state, report_each,
  observe_novelties, ready_wait_over, PreloadEvent, observed, wait_over, preload_step, preload_run,
}

abbrev clip : PreloadItem
clip = record {
  content_id = "n";
  media_url = "/media/n";
  content_type = "video";
  media_version = "1";
  is_novelty = true;
  defer_count = none;
  max_defer = none;
  download_ready = none;
}

abbrev twice : List PreloadEvent
twice =
    observed 0 true (some "k") empty_cache (clip ∷ []) false
    ∷ observed 0 true (some "k") empty_cache (clip ∷ []) false
    ∷ wait_over 0 true true (some "k")
    ∷ wait_over 0 true true (some "k")
    ∷ []

preload_run-twice : (preload_run initial_preload_ready twice).posted ≡ "n" ∷ []
unfolding preload_step observe_novelties report_each report_when_ready report_in_state
    ready_wait_over report_ready get_ready_state
preload_run-twice = refl
