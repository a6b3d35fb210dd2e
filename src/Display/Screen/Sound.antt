-- ===== src/Display/Screen/Sound.antt =====
-- Each handler of the stream's events keeps the invariants of the gate, of the media cache and of the
-- polling.
use kiosk_screen.Prelude.{
  ℕ, String, Bool, true, false, filter, ◌&&◌, Option, none, some, List, [], ◌∷◌, ◌++◌, map,
  if◌then◌else◌, if_both, is_some, or_default, length, drop,
}
use kiosk_screen.Display.Item.{DisplayContentItem, is_iframe}
use kiosk_screen.Display.Payloads.{
  ShowContentPayload, PreloadPayload, SnapshotPayload, PreloadItem, SnapshotIframe,
}
use kiosk_screen.Display.Viewer.{
  Viewer, iframe_active, apply_show_ads, apply_mode_changed, apply_show_iframe, apply_preload,
  show_if, snapshot_mode, snapshot_iframe_payload,
}
use kiosk_screen.Display.Gate.{
  Gate, raw_media_url, enqueue_show_content, apply_snapshot_content, retry_pending_commit,
}
use kiosk_screen.Display.Gate.Pending.{IsGated}
use kiosk_screen.Display.Gate.Runs.{viewer_changed-IsGated}
use kiosk_screen.Display.Gate.Pending.{
  enqueue_show_content-IsGated, apply_snapshot_content-IsGated, retry_pending_commit-IsGated,
}
use kiosk_screen.Display.MediaCache.{MediaCache}
use kiosk_screen.Display.MediaCache.Scheduling.{IsScheduled}
use kiosk_screen.Display.MediaCache.Runs.{
  CacheEvent, items_warmed, top_retained, ads_retained, top_cleared, cache_step,
  cache_step-IsScheduled,
}
use kiosk_screen.Display.Polling.{Poller}
use kiosk_screen.Display.Polling.Lifecycle.{PollEvent, poll_step, IsPolls}
use kiosk_screen.Display.Polling.Runs.{poll_step-IsPolls}
use kiosk_screen.Display.NoveltyQueue.{
  NoveltyTracker, is_novelty_item, sync_from_preload, replace_queue, sync_from_snapshot,
}
use kiosk_screen.Display.Screen.Ensured.{
  ensure_awaited-IsScheduled, track_cache_updates-IsScheduled, observe_novelties-IsScheduled,
}
use kiosk_screen.Display.Screen.{
  with_tracked, Screen, viewer_of, is_preload_allowed, over_viewer, warm_content,
  sync_content_render_items, on_committed, with_gate, current_url, keep_top, on_show_content,
  media_of, warm_novelties, observe, on_preload, preload_of, snapshot_novelties, snapshot_top,
  on_snapshot, on_revision, on_top_changed, ad_url, on_ads_changed,
}

-- The invariants of the parts, together.
pub record Sound (g : Gate) (c : MediaCache) (p : Poller) : Type 0 where
  pub gated : IsGated g
  pub scheduled : IsScheduled c
  pub polls : IsPolls p

abbrev pub IsSound : Screen → Type 0
IsSound s = Sound s.gate s.cache s.poller

pub over_viewer-IsSound : (f : Viewer → Viewer) (s : Screen) → IsSound s → IsSound (over_viewer f s)
over_viewer-IsSound f s h = record {
  gated = viewer_changed-IsGated f s.gate h.gated;
  scheduled = h.scheduled;
  polls = h.polls;
}

pub cached-IsSound :
    (now : ℕ) (e : CacheEvent) (s : Screen)
    → IsSound s
    → IsSound (record s { cache = cache_step s.cache (now, e) })
cached-IsSound now e s h = record {
  gated = h.gated;
  scheduled = cache_step-IsScheduled s.cache (now, e) h.scheduled;
  polls = h.polls;
}

pub polled-IsSound :
    (random : ℕ) (e : PollEvent) (s : Screen)
    → IsSound s
    → IsSound (record s { poller = poll_step s.poller (random, e) })
polled-IsSound random e s h = record {
  gated = h.gated;
  scheduled = h.scheduled;
  polls = poll_step-IsPolls s.poller (random, e) h.polls;
}

pub on_committed-IsSound :
    (ids : List String) (s : Screen) → IsSound s → IsSound (on_committed ids s)
unfolding on_committed
on_committed-IsSound [] s h = h
on_committed-IsSound (id ∷ ids) s h = on_committed-IsSound ids _ h

pub with_gate-IsSound :
    (now : ℕ) (f : Gate → Gate) (s : Screen)
    → ((g : Gate) → IsGated g → IsGated (f g))
    → IsSound s
    → IsSound (with_gate now f s)
unfolding with_gate
with_gate-IsSound now f s keeps h =
    let awaited = drop (length s.gate.waiters) (f s.gate).waiters in
    on_committed-IsSound (drop (length s.gate.committed) (f s.gate).committed) _ (record {
      gated = keeps s.gate h.gated;
      scheduled = ensure_awaited-IsScheduled now awaited s.cache h.scheduled;
      polls = h.polls;
    })

pub warm_content-IsSound :
    (now : ℕ) (content : DisplayContentItem) (s : Screen)
    → IsSound s
    → IsSound (warm_content now content s)
unfolding warm_content cache_step
warm_content-IsSound now content s h = cached-IsSound now (items_warmed _) s h

pub keep_top-IsSound :
    (now : ℕ) (urls : List String) (s : Screen) → IsSound s → IsSound (keep_top now urls s)
unfolding cache_step
keep_top-IsSound now urls s h = cached-IsSound now (top_retained urls) s h

pub sync_content_render_items-IsSound :
    (s : Screen) → IsSound s → IsSound (sync_content_render_items s)
unfolding sync_content_render_items
sync_content_render_items-IsSound s h = h

pub on_show_content-IsSound :
    (now : ℕ) (p : ShowContentPayload) (s : Screen) → IsSound s → IsSound (on_show_content now p s)
unfolding on_show_content
on_show_content-IsSound now p s h =
    let queued = with_gate now (enqueue_show_content p) (warm_content now p.content s) in
    let urls = current_url (viewer_of queued) ++ raw_media_url p.content ∷ [] in
    sync_content_render_items-IsSound (keep_top now urls queued) (
      keep_top-IsSound now urls queued (
        with_gate-IsSound now (enqueue_show_content p) (warm_content now p.content s)
          (enqueue_show_content-IsGated p) (warm_content-IsSound now p.content s h)))

warm_novelties-IsSound :
    (now : ℕ) (items : List PreloadItem) (s : Screen)
    → IsSound s
    → IsSound (warm_novelties now items s)
unfolding cache_step
warm_novelties-IsSound now items s h = cached-IsSound now (items_warmed (media_of items)) s h

-- Novelties that are warmed, queued as icons and observed.
novelties-IsSound :
    (now : ℕ) (items : List PreloadItem) (f : Viewer → Viewer) (s : Screen)
    → IsSound s
    → IsSound (warm_novelties now items (over_viewer f s))
novelties-IsSound now items f s h =
    warm_novelties-IsSound now items (over_viewer f s) (over_viewer-IsSound f s h)

with_tracked-IsSound :
    (x : MediaCache × NoveltyTracker) (s : Screen)
    → IsScheduled x.0
    → IsSound s
    → IsSound (with_tracked x s)
with_tracked-IsSound (c, t) s scheduled h = record {
  gated = h.gated;
  scheduled = scheduled;
  polls = h.polls;
}

observe-IsSound :
    (now : ℕ) (items : List PreloadItem) (reconnect : Bool) (s : Screen)
    → IsSound s
    → IsSound (observe now items reconnect s)
unfolding observe
observe-IsSound now items reconnect s h = record {
  gated = h.gated;
  scheduled =
      observe_novelties-IsScheduled now (is_preload_allowed (viewer_of s)) s.stream.kiosk_id items
        reconnect (s.cache, s.preload) h.scheduled;
  polls = h.polls;
}

pub on_preload-IsSound :
    (now : ℕ) (p : PreloadPayload) (s : Screen) → IsSound s → IsSound (on_preload now p s)
unfolding on_preload sync_from_preload replace_queue
on_preload-IsSound now p s h =
    let warmed = warm_novelties now p.items (over_viewer (apply_preload p) s) in
    let sound = novelties-IsSound now p.items (apply_preload p) s h in
    let tracked = sync_from_preload now warmed.cache p.items warmed.tracker in
    if_both IsSound (is_preload_allowed (viewer_of s))
      (observe-IsSound now p.items false (with_tracked tracked warmed) (
        with_tracked-IsSound tracked warmed
          (track_cache_updates-IsScheduled now (filter is_novelty_item p.items) warmed.cache
            sound.scheduled)
          sound))
      h

snapshot_novelties-IsSound :
    (now : ℕ) (items : Option (List PreloadItem)) (s : Screen)
    → IsSound s
    → IsSound (snapshot_novelties now items s)
unfolding snapshot_novelties sync_from_snapshot replace_queue
snapshot_novelties-IsSound now items s h =
    let pending = or_default items [] in
    let warmed = warm_novelties now pending (over_viewer (apply_preload (preload_of pending)) s) in
    let sound = novelties-IsSound now pending (apply_preload (preload_of pending)) s h in
    let tracked = sync_from_snapshot now warmed.cache items warmed.tracker in
    if_both IsSound (is_preload_allowed (viewer_of s))
      (observe-IsSound now pending true (with_tracked tracked warmed) (
        with_tracked-IsSound tracked warmed
          (track_cache_updates-IsScheduled now (filter is_novelty_item pending) warmed.cache
            sound.scheduled)
          sound))
      h

snapshot_top-IsSound :
    (now : ℕ) (top : Option ShowContentPayload) (s : Screen)
    → IsSound s
    → IsSound (snapshot_top now top s)
unfolding snapshot_top
snapshot_top-IsSound now none s h = h
snapshot_top-IsSound now (some top) s h =
    with_gate-IsSound now (apply_snapshot_content top) (warm_content now top.content s)
      (apply_snapshot_content-IsGated top) (warm_content-IsSound now top.content s h)

pub on_snapshot-IsSound :
    (now : ℕ) (p : SnapshotPayload) (s : Screen) → IsSound s → IsSound (on_snapshot now p s)
unfolding on_snapshot
on_snapshot-IsSound now p s h =
    let moded = over_viewer (apply_mode_changed (snapshot_mode p)) s in
    let show_selected =
      show_if (λ (f : SnapshotIframe). apply_show_iframe (snapshot_iframe_payload f))
        p.selected_iframe in
    let topped =
      if is_iframe p.content_mode && is_some p.selected_iframe
      then over_viewer show_selected moded
      else snapshot_top now p.current_top moded in
    let with_ads = over_viewer (show_if apply_show_ads p.current_ads) topped in
    let start = over_viewer-IsSound (apply_mode_changed (snapshot_mode p)) s h in
    let kept =
      if_both IsSound (is_iframe p.content_mode && is_some p.selected_iframe)
        (over_viewer-IsSound show_selected moded start)
        (snapshot_top-IsSound now p.current_top moded start) in
    sync_content_render_items-IsSound (snapshot_novelties now p.pending_novelties with_ads) (
      snapshot_novelties-IsSound now p.pending_novelties with_ads
        (over_viewer-IsSound (show_if apply_show_ads p.current_ads) topped kept))

pub on_revision-IsSound : (now : ℕ) (s : Screen) → IsSound s → IsSound (on_revision now s)
unfolding on_revision
on_revision-IsSound now s h =
    with_gate-IsSound now retry_pending_commit s retry_pending_commit-IsGated h

pub on_top_changed-IsSound : (now : ℕ) (s : Screen) → IsSound s → IsSound (on_top_changed now s)
unfolding on_top_changed cache_step
on_top_changed-IsSound now s h =
    if_both IsSound (iframe_active (viewer_of s)) (cached-IsSound now top_cleared s h)
      (keep_top-IsSound now (current_url (viewer_of s) ++ (viewer_of s).preload_urls) s h)

pub on_ads_changed-IsSound : (now : ℕ) (s : Screen) → IsSound s → IsSound (on_ads_changed now s)
unfolding on_ads_changed cache_step
on_ads_changed-IsSound now s h =
    cached-IsSound now (ads_retained (map ad_url (viewer_of s).visible_ads)) s h
