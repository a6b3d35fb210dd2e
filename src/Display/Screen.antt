-- ===== src/Display/Screen.antt =====
-- The class of frontend/src/app/display/display-screen.component.ts, without the DOM: how the effects
-- of its constructor pass what the stream brings on to the viewer, the gate, the media cache and the
-- trackers of the novelties.
pub mod Seed
pub mod Ensured
pub mod Upkeep
pub mod Sound
pub mod SoundUpkeep
pub mod Runs
mod Tests
use kiosk_screen.Prelude.{
  ℕ, ◌+◌, String, Bool, true, false, not, ◌&&◌, Option, none, some, List, [], ◌∷◌, ◌++◌, map,
  if◌then◌else◌, is_some, or_default, length, drop,
}
use kiosk_screen.Display.Item.{
  DisplayContentItem, DisplayAdItem, ContentType, photo, video, is_loop, is_iframe,
}
use kiosk_screen.Display.Payloads.{
  ShowContentPayload, PreloadPayload, PreloadItem, SnapshotPayload, SnapshotIframe, DisplayState,
}
use kiosk_screen.Display.Viewer.{
  Viewer, iframe_active, apply_mode_changed, apply_preload, apply_show_iframe, apply_show_ads,
  snapshot_iframe_payload, snapshot_mode, show_if,
}
use kiosk_screen.Display.Gate.{
  Gate, Waiter, raw_media_url, enqueue_show_content, apply_snapshot_content, retry_pending_commit,
}
use kiosk_screen.Display.MediaCache.{MediaCache, ensure_ready}
use kiosk_screen.Display.MediaCache.Operations.{
  warm_items, retain_top, retain_ads, clear_top_retention,
}
use kiosk_screen.Display.NoveltyQueue.{
  NoveltyTracker, sync_from_preload, sync_from_snapshot, remove_on_commit,
}
use kiosk_screen.Display.PreloadReady.{PreloadReady, observe_novelties}
use kiosk_screen.Display.Polling.{Poller}
use kiosk_screen.Display.Stream.{Stream}

-- `armed_reload` is none for -1; the timer holds its period.
pub record Screen : Type 0 where
  pub gate : Gate
  pub cache : MediaCache
  pub tracker : NoveltyTracker
  pub preload : PreloadReady
  pub poller : Poller
  pub stream : Stream
  pub state : Option DisplayState
  pub state_version : ℕ
  pub display_active : Bool
  pub fallback_polling_active : Bool
  pub render_items : List DisplayContentItem
  pub armed_reload : Option ℕ
  pub reload_timer : Option ℕ
  pub reload_nonce : ℕ

abbrev pub viewer_of : Screen → Viewer
viewer_of s = s.gate.viewer

unfoldable pub is_preload_allowed : Viewer → Bool
is_preload_allowed v = is_loop v.content_mode && not v.is_paused && not (iframe_active v)

abbrev pub over_viewer : (Viewer → Viewer) → Screen → Screen
over_viewer f s = let g = s.gate in record s { gate = record g { viewer = f g.viewer } }

abbrev pub content_type_text : ContentType → String
content_type_text photo = "photo"
content_type_text video = "video"

unfoldable pub warm_content : ℕ → DisplayContentItem → Screen → Screen
warm_content now content s = record s {
  cache =
      warm_items now ((raw_media_url content, some (content_type_text content.content_type)) ∷ [])
        s.cache;
}

abbrev pub shown_items : Viewer → List DisplayContentItem
shown_items v = elim v.current_content [ none ↦ [] | some content ↦ content ∷ [] ]

-- `syncContentRenderItems`, without the backdrops
unfoldable pub sync_content_render_items : Screen → Screen
sync_content_render_items s = record s { render_items = shown_items (viewer_of s) }

-- The subscriber of `onCommitted`, for each id that the gate has committed.
unfoldable pub on_committed : List String → Screen → Screen
unfolding sync_content_render_items
on_committed [] s = s
on_committed (id ∷ ids) s =
    on_committed ids
      (sync_content_render_items (record s { tracker = remove_on_commit id s.tracker }))

-- `ensureReady` of the runs of `commitWhenReady` that begin to wait.
unfoldable pub ensure_awaited : ℕ → List Waiter → MediaCache → MediaCache
ensure_awaited now [] c = c
ensure_awaited now (w ∷ ws) c =
    let content = w.payload.content in
    ensure_awaited now ws
      (ensure_ready now (raw_media_url content) (content_type_text content.content_type) c).0

-- An operation of the gate: the screen hears of its commits, and the cache is asked for the media
-- that it begins to wait for.
unfoldable pub with_gate : ℕ → (Gate → Gate) → Screen → Screen
unfolding on_committed ensure_awaited
with_gate now f s =
    let gate = f s.gate in
    let awaited = drop (length s.gate.waiters) gate.waiters in
    on_committed (drop (length s.gate.committed) gate.committed)
      (record s { gate = gate; cache = ensure_awaited now awaited s.cache })

abbrev pub current_url : Viewer → List String
current_url v = elim v.current_content [ none ↦ [] | some content ↦ raw_media_url content ∷ [] ]

abbrev pub keep_top : ℕ → List String → Screen → Screen
keep_top now urls s = record s { cache = retain_top now urls s.cache }

-- The effect of `showContent`.
unfoldable pub on_show_content : ℕ → ShowContentPayload → Screen → Screen
unfolding warm_content with_gate sync_content_render_items
on_show_content now payload s =
    let queued =
      with_gate now (enqueue_show_content payload) (warm_content now payload.content s) in
    sync_content_render_items
      (keep_top now (current_url (viewer_of queued) ++ raw_media_url payload.content ∷ []) queued)

abbrev pub media_of : List PreloadItem → List (String × Option String)
media_of [] = []
media_of (x ∷ xs) = (x.media_url, some x.content_type) ∷ media_of xs

abbrev pub warm_novelties : ℕ → List PreloadItem → Screen → Screen
warm_novelties now items s = record s { cache = warm_items now (media_of items) s.cache }

-- A state of the media cache and one of the tracker, or of the reports, take their places.
abbrev pub with_tracked : MediaCache × NoveltyTracker → Screen → Screen
with_tracked (c, t) s = record s { cache = c; tracker = t }

abbrev pub with_observed : MediaCache × PreloadReady → Screen → Screen
with_observed (c, p) s = record s { cache = c; preload = p }

unfoldable pub observe : ℕ → List PreloadItem → Bool → Screen → Screen
unfolding is_preload_allowed
observe now items reconnect s =
    with_observed
      (observe_novelties now (is_preload_allowed (viewer_of s)) s.stream.kiosk_id items reconnect
        (s.cache, s.preload))
      s

-- The effect of `preload`.
unfoldable pub on_preload : ℕ → PreloadPayload → Screen → Screen
unfolding is_preload_allowed observe
on_preload now payload s =
    let warmed = warm_novelties now payload.items (over_viewer (apply_preload payload) s) in
    let synced =
      with_tracked (sync_from_preload now warmed.cache payload.items warmed.tracker) warmed in
    if is_preload_allowed (viewer_of s) then observe now payload.items false synced else s

abbrev pub preload_of : List PreloadItem → PreloadPayload
preload_of items = record { items = items; lead_time_seconds = 0 }

unfoldable pub snapshot_novelties : ℕ → Option (List PreloadItem) → Screen → Screen
unfolding is_preload_allowed observe
snapshot_novelties now novelties s =
    let pending = or_default novelties [] in
    let warmed = warm_novelties now pending (over_viewer (apply_preload (preload_of pending)) s) in
    let synced =
      with_tracked (sync_from_snapshot now warmed.cache novelties warmed.tracker) warmed in
    if is_preload_allowed (viewer_of s) then observe now pending true synced else s

unfoldable pub snapshot_top : ℕ → Option ShowContentPayload → Screen → Screen
unfolding with_gate warm_content
snapshot_top now none s = s
snapshot_top now (some top) s =
    with_gate now (apply_snapshot_content top) (warm_content now top.content s)

-- The effect of `lastEvent`, for a snapshot.
unfoldable pub on_snapshot : ℕ → SnapshotPayload → Screen → Screen
unfolding snapshot_novelties snapshot_top sync_content_render_items
on_snapshot now snapshot s =
    let moded = over_viewer (apply_mode_changed (snapshot_mode snapshot)) s in
    let topped =
      if is_iframe snapshot.content_mode && is_some snapshot.selected_iframe
      then (over_viewer
          (show_if (λ (f : SnapshotIframe). apply_show_iframe (snapshot_iframe_payload f))
            snapshot.selected_iframe)
          moded)
      else snapshot_top now snapshot.current_top moded in
    sync_content_render_items (
      snapshot_novelties now snapshot.pending_novelties
        (over_viewer (show_if apply_show_ads snapshot.current_ads) topped))

-- The effect of `revision`.
unfoldable pub on_revision : ℕ → Screen → Screen
unfolding with_gate
on_revision now s = with_gate now retry_pending_commit s

-- The effect that retains what is on screen and what comes next.
unfoldable pub on_top_changed : ℕ → Screen → Screen
on_top_changed now s =
    let v = viewer_of s in
    if iframe_active v
    then record s { cache = clear_top_retention s.cache }
    else keep_top now (current_url v ++ v.preload_urls) s

abbrev pub ad_url : DisplayAdItem → String
ad_url ad = elim ad.media_file [ none ↦ ad.source_reference | some media ↦ media.media_url ]

-- The effect that retains the media of the ads.
unfoldable pub on_ads_changed : ℕ → Screen → Screen
on_ads_changed now s = record s {
  cache = retain_ads now (map ad_url (viewer_of s).visible_ads) s.cache;
}
