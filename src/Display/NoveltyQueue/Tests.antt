-- ===== src/Display/NoveltyQueue/Tests.antt =====
-- Seven novelties, of which five have icons.
use kiosk_screen.Prelude.{ℕ, String, ◌≡◌, refl, true, Option, none, some, List, [], ◌∷◌, length}
use kiosk_screen.Display.Payloads.{PreloadItem}
use kiosk_screen.Display.MediaCache.{empty_cache, get_ready_state}
use kiosk_screen.Display.NoveltyQueue.{
  NoveltyTracker, visible_icons, overflow_count, sync_from_preload, replace_queue, remove_on_commit,
  defer_metadata_for, resolve_status,
}

abbrev upload : String → Option ℕ → PreloadItem
upload id defers = record {
  content_id = id;
  media_url = id;
  content_type = "photo";
  media_version = "1";
  is_novelty = true;
  defer_count = defers;
  max_defer = none;
  download_ready = none;
}

abbrev idle_tracker : NoveltyTracker
idle_tracker = record { entries = []; defer_metadata = []; waits = [] }

abbrev six : List PreloadItem
six =
    upload "a" (some 1)
    ∷ upload "b" none
    ∷ upload "c" none
    ∷ upload "d" none
    ∷ upload "e" none
    ∷ upload "f" none
    ∷ []

tracker_run :
    let t = (sync_from_preload 0 empty_cache six idle_tracker).1 in
    let u = remove_on_commit "b" t in
    (overflow_count t ≡ 1) × (length (visible_icons u) ≡ 5) × (overflow_count u ≡ 0)
unfolding sync_from_preload replace_queue remove_on_commit overflow_count visible_icons
    defer_metadata_for resolve_status get_ready_state
tracker_run = (refl, refl, refl)
