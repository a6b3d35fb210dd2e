-- ===== src/Display/NoveltyQueue.antt =====
-- frontend/src/app/display/novelty-queue-tracker.service.ts: the icons of the novelties that wait. The
-- media cache is read through its state and asked for the media; a promise of `ensureReady` is kept in
-- `waits`, and can be settled at any time.
pub mod Icons
pub mod Asked
mod Tests
use kiosk_screen.Prelude.{
  ℕ, suc, ◌+◌, ◌-◌, String, Bool, not, ◌||◌, Option, none, some, List, [], ◌∷◌, ◌++◌, map, ltb,
  if◌then◌else◌, str_eq, is_some, or_default, length, get_elem?, take, filter, sort_by, JsMap,
  map_get, map_set, map_delete, remove_at,
}
use kiosk_screen.Display.Payloads.{PreloadItem}
use kiosk_screen.Display.MediaCache.{
  MediaCache, MediaCacheReadyState, ready, failed, get_ready_state, ensure_ready,
}

pub data DownloadStatus : Type 0 where
  pending_download ready_download error_download : DownloadStatus

pub record DeferMetadata : Type 0 where
  pub defer_count : Option ℕ
  pub max_defer : Option ℕ

pub record NoveltyQueueEntry : Type 0 where
  pub content_id : String
  pub is_video : Bool
  pub download_status : DownloadStatus
  pub display_order : ℕ
  pub defers : DeferMetadata

-- A promise that is awaited, with the item that it is for.
pub record NoveltyWait : Type 0 where
  pub content_id : String
  pub media_url : String

pub record NoveltyTracker : Type 0 where
  pub entries : List NoveltyQueueEntry
  pub defer_metadata : JsMap DeferMetadata
  pub waits : List NoveltyWait

abbrev pub by_order : NoveltyQueueEntry → ℕ
by_order e = e.display_order

unfoldable pub visible_icons : NoveltyTracker → List NoveltyQueueEntry
visible_icons t = take 5 (sort_by by_order t.entries)

unfoldable pub overflow_count : NoveltyTracker → ℕ
overflow_count t = length t.entries - 5

unfoldable pub has_entries : NoveltyTracker → Bool
has_entries t = ltb 0 (length t.entries)

abbrev pub status_of : MediaCacheReadyState → DownloadStatus
status_of ready = ready_download
status_of failed = error_download
status_of _ = pending_download

unfoldable pub resolve_status : MediaCache → String → DownloadStatus
resolve_status c media_url = status_of (get_ready_state (some media_url) c)

abbrev pub has_defers : DeferMetadata → Bool
has_defers d = is_some d.defer_count || is_some d.max_defer

abbrev pub own_defers : PreloadItem → DeferMetadata
own_defers item = record { defer_count = item.defer_count; max_defer = item.max_defer }

unfoldable pub merge_defer_metadata : PreloadItem → JsMap DeferMetadata → JsMap DeferMetadata
merge_defer_metadata item m =
    if has_defers (own_defers item) then map_set m item.content_id (own_defers item) else m

abbrev pub no_defers : DeferMetadata
no_defers = record { defer_count = none; max_defer = none }

-- `deferMetadataFor`: what the item says, which is noted, or what was noted before.
unfoldable pub defer_metadata_for :
    PreloadItem → JsMap DeferMetadata → JsMap DeferMetadata × DeferMetadata
defer_metadata_for item m =
    if has_defers (own_defers item)
    then (map_set m item.content_id (own_defers item), own_defers item)
    else (m, or_default (map_get m item.content_id) no_defers)

abbrev pub new_entry : MediaCache → ℕ → PreloadItem → DeferMetadata → NoveltyQueueEntry
unfolding resolve_status
new_entry c index item defers = record {
  content_id = item.content_id;
  is_video = str_eq item.content_type "video";
  download_status = resolve_status c item.media_url;
  display_order = index;
  defers = defers;
}

abbrev pub entries_from :
    MediaCache
    → ℕ
    → List PreloadItem
    → JsMap DeferMetadata
    → JsMap DeferMetadata × List NoveltyQueueEntry
unfolding defer_metadata_for resolve_status
entries_from c index [] m = (m, [])
entries_from c index (item ∷ items) m =
    let (noted, defers) = defer_metadata_for item m in
    let (last, rest) = entries_from c (suc index) items noted in
    (last, new_entry c index item defers ∷ rest)

abbrev pub wait_for : PreloadItem → NoveltyWait
wait_for item = record { content_id = item.content_id; media_url = item.media_url }

-- The requests of `trackCacheUpdates`.
unfoldable pub track_cache_updates : ℕ → List PreloadItem → MediaCache → MediaCache
track_cache_updates now [] c = c
track_cache_updates now (item ∷ items) c =
    track_cache_updates now items (ensure_ready now item.media_url item.content_type c).0

unfoldable pub replace_queue :
    ℕ → MediaCache → List PreloadItem → NoveltyTracker → MediaCache × NoveltyTracker
unfolding defer_metadata_for resolve_status track_cache_updates
replace_queue now c items t =
    let (noted, entries) = entries_from c 0 items t.defer_metadata in
    let waits = t.waits ++ map wait_for items in
    (
      track_cache_updates now items c,
      record t { entries = entries; defer_metadata = noted; waits = waits },
    )

abbrev pub is_novelty_item : PreloadItem → Bool
is_novelty_item item = item.is_novelty

unfoldable pub sync_from_preload :
    ℕ → MediaCache → List PreloadItem → NoveltyTracker → MediaCache × NoveltyTracker
unfolding replace_queue
sync_from_preload now c items t = replace_queue now c (filter is_novelty_item items) t

abbrev pub merge_each : List PreloadItem → JsMap DeferMetadata → JsMap DeferMetadata
unfolding merge_defer_metadata
merge_each [] m = m
merge_each (item ∷ items) m = merge_each items (merge_defer_metadata item m)

unfoldable pub sync_from_snapshot :
    ℕ → MediaCache → Option (List PreloadItem) → NoveltyTracker → MediaCache × NoveltyTracker
unfolding replace_queue merge_defer_metadata
sync_from_snapshot now c items t =
    let novelties = filter is_novelty_item (or_default items []) in
    replace_queue now c novelties
      (record t { defer_metadata = merge_each novelties t.defer_metadata })

unfoldable pub remove_on_commit : String → NoveltyTracker → NoveltyTracker
remove_on_commit content_id t = record t {
  entries = filter (λ (e : NoveltyQueueEntry). not (str_eq e.content_id content_id)) t.entries;
  defer_metadata = map_delete t.defer_metadata content_id;
}

abbrev pub with_status : String → DownloadStatus → List NoveltyQueueEntry → List NoveltyQueueEntry
with_status content_id status [] = []
with_status content_id status (e ∷ es) =
    (if str_eq e.content_id content_id then record e { download_status = status } else e)
    ∷ with_status content_id status es

unfoldable pub update_status : MediaCache → NoveltyWait → NoveltyTracker → NoveltyTracker
update_status c w t = elim (get_ready_state (some w.media_url) c) [
  | ready ↦ record t { entries = with_status w.content_id ready_download t.entries }
  | failed ↦ record t { entries = with_status w.content_id error_download t.entries }
  | _ ↦ t
]

unfoldable pub mark_error : String → NoveltyTracker → NoveltyTracker
mark_error content_id t = record t { entries = with_status content_id error_download t.entries }

-- The promise of the i-th wait is kept, or it is broken.
unfoldable pub novelty_wait_over : ℕ → Bool → MediaCache → NoveltyTracker → NoveltyTracker
unfolding update_status mark_error
novelty_wait_over i kept c t = elim (get_elem? t.waits i) [
  | none ↦ t
  | some w ↦
      let rest = record t { waits = remove_at i t.waits } in
      if kept then update_status c w rest else mark_error w.content_id rest
]
