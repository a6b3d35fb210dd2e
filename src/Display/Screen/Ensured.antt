-- ===== src/Display/Screen/Ensured.antt =====
-- The requests that the gate, the tracker and the reports make of the media cache keep its schedule.
use kiosk_screen.Prelude.{
  ℕ, Bool, true, not, ◌||◌, Option, some, String, List, [], ◌∷◌, if_both, set_has, filter,
  if◌then◌else◌,
}
use kiosk_screen.Display.Payloads.{PreloadItem}
use kiosk_screen.Display.Gate.{Waiter, raw_media_url}
use kiosk_screen.Display.MediaCache.{
  MediaCache, MediaCacheReadyState, idle, downloading, ready, failed, get_ready_state, ensure_ready,
}
use kiosk_screen.Display.MediaCache.Scheduling.{IsScheduled}
use kiosk_screen.Display.MediaCache.Requests.{queue_preparation-IsScheduled}
use kiosk_screen.Display.NoveltyQueue.{track_cache_updates, is_novelty_item}
use kiosk_screen.Display.PreloadReady.{
  PreloadReady, report_in_state, report_when_ready, report_each, observe_novelties,
  ids_of_novelties,
}
use kiosk_screen.Display.Screen.{content_type_text, ensure_awaited}

ensure_ready-IsScheduled :
    (now : ℕ) (url content_type : String) (c : MediaCache)
    → IsScheduled c
    → IsScheduled (ensure_ready now url content_type c).0
unfolding ensure_ready
ensure_ready-IsScheduled now url content_type c h =
    queue_preparation-IsScheduled now url content_type true c h

pub ensure_awaited-IsScheduled :
    (now : ℕ) (ws : List Waiter) (c : MediaCache)
    → IsScheduled c
    → IsScheduled (ensure_awaited now ws c)
unfolding ensure_awaited
ensure_awaited-IsScheduled now [] c h = h
ensure_awaited-IsScheduled now (w ∷ ws) c h =
    let content = w.payload.content in
    let url = raw_media_url content in
    let kind = content_type_text content.content_type in
    ensure_awaited-IsScheduled now ws (ensure_ready now url kind c).0
      (ensure_ready-IsScheduled now url kind c h)

pub track_cache_updates-IsScheduled :
    (now : ℕ) (items : List PreloadItem) (c : MediaCache)
    → IsScheduled c
    → IsScheduled (track_cache_updates now items c)
unfolding track_cache_updates
track_cache_updates-IsScheduled now [] c h = h
track_cache_updates-IsScheduled now (item ∷ items) c h =
    track_cache_updates-IsScheduled now items
      (ensure_ready now item.media_url item.content_type c).0
      (ensure_ready-IsScheduled now item.media_url item.content_type c h)

report_in_state-IsScheduled :
    (now : ℕ) (allowed : Bool) (kiosk : Option String) (item : PreloadItem)
    (state : MediaCacheReadyState) (s : MediaCache × PreloadReady)
    → IsScheduled s.0
    → IsScheduled (report_in_state now allowed kiosk item state s).0
unfolding report_in_state
report_in_state-IsScheduled now allowed kiosk item idle (c, p) h =
    ensure_ready-IsScheduled now item.media_url item.content_type c h
report_in_state-IsScheduled now allowed kiosk item downloading (c, p) h =
    ensure_ready-IsScheduled now item.media_url item.content_type c h
report_in_state-IsScheduled now allowed kiosk item ready (c, p) h = h
report_in_state-IsScheduled now allowed kiosk item failed (c, p) h = h

report_each-IsScheduled :
    (now : ℕ) (allowed : Bool) (kiosk : Option String) (items : List PreloadItem)
    (s : MediaCache × PreloadReady)
    → IsScheduled s.0
    → IsScheduled (report_each now allowed kiosk items s).0
unfolding report_each report_when_ready
report_each-IsScheduled now allowed kiosk [] s h = h
report_each-IsScheduled now allowed kiosk (item ∷ items) (c, p) h =
    report_each-IsScheduled now allowed kiosk items
      (report_when_ready now allowed kiosk item (c, p))
      (if_both (λ (s : MediaCache × PreloadReady). IsScheduled s.0)
        (not allowed || set_has p.reported item.content_id) h
        (report_in_state-IsScheduled now allowed kiosk item
          (get_ready_state (some item.media_url) c) (c, p) h))

pub observe_novelties-IsScheduled :
    (now : ℕ) (allowed : Bool) (kiosk : Option String) (items : List PreloadItem) (reconnect : Bool)
    (s : MediaCache × PreloadReady)
    → IsScheduled s.0
    → IsScheduled (observe_novelties now allowed kiosk items reconnect s).0
unfolding observe_novelties
observe_novelties-IsScheduled now allowed kiosk items reconnect (c, p) h =
    let ids = ids_of_novelties (filter is_novelty_item items) in
    let pending = filter (set_has ids) p.reported in
    let kept = if reconnect then filter (λ k. not (set_has ids k)) pending else pending in
    if_both (λ (s : MediaCache × PreloadReady). IsScheduled s.0) allowed
      (report_each-IsScheduled now allowed kiosk (filter is_novelty_item items)
        (c, record p { reported = kept }) h)
      h
