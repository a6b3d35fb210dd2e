-- ===== src/Display/NoveltyQueue/Icons.antt =====
-- The icons that are shown, and the queue after a sync or a commit.
use kiosk_screen.Prelude.{
  ℕ, suc, ◌+◌, ◌≤◌, String, ◌≡◌, refl, ap, true, not, List, [], ◌∷◌, arith, str_eq, length, filter,
  All, length-take, All-filter, sort_by, length-sort_by, JsMap,
}
use kiosk_screen.Display.Payloads.{PreloadItem}
use kiosk_screen.Display.MediaCache.{MediaCache}
use kiosk_screen.Display.NoveltyQueue.{
  DeferMetadata, NoveltyQueueEntry, NoveltyTracker, by_order, visible_icons, overflow_count,
  entries_from, replace_queue, is_novelty_item, sync_from_preload, remove_on_commit,
  defer_metadata_for,
}

-- The icons and the overflow together count all novelties that wait, and there are at most five
-- icons.
pub icons_and_overflow :
    (t : NoveltyTracker)
    → (length (visible_icons t) + overflow_count t ≡ length t.entries)
      × (length (visible_icons t) ≤ 5)
unfolding visible_icons overflow_count
icons_and_overflow t =
    let shown = length-take 5 (sort_by by_order t.entries) in
    let all = length-sort_by by_order t.entries in (omega (arith, shown, all), omega (arith, shown))

-- The entries count on from `index`.
abbrev pub CountsFrom : ℕ → List NoveltyQueueEntry → Type 0
CountsFrom index [] = Unit
CountsFrom index (e ∷ es) = (e.display_order ≡ index) × CountsFrom (suc index) es

abbrev pub ids_of_entries : List NoveltyQueueEntry → List String
ids_of_entries [] = []
ids_of_entries (e ∷ es) = e.content_id ∷ ids_of_entries es

abbrev pub ids_of_items : List PreloadItem → List String
ids_of_items [] = []
ids_of_items (x ∷ xs) = x.content_id ∷ ids_of_items xs

entries_from-CountsFrom :
    (c : MediaCache) (index : ℕ) (items : List PreloadItem) (m : JsMap DeferMetadata)
    → CountsFrom index (entries_from c index items m).1
      × (ids_of_entries (entries_from c index items m).1 ≡ ids_of_items items)
unfolding entries_from
entries_from-CountsFrom c index [] m = (tt, refl)
entries_from-CountsFrom c index (item ∷ items) m =
    let (counts, ids) = entries_from-CountsFrom c (suc index) items (defer_metadata_for item m).0 in
    ((refl, counts), ap (◌∷◌ item.content_id) ids)

-- After a preload the queue shows exactly its novelties, in its order and numbered from 0.
pub sync_from_preload_lem :
    (now : ℕ) (c : MediaCache) (items : List PreloadItem) (t : NoveltyTracker)
    → let entries = (sync_from_preload now c items t).1.entries in
      CountsFrom 0 entries × (ids_of_entries entries ≡ ids_of_items (filter is_novelty_item items))
unfolding sync_from_preload replace_queue
sync_from_preload_lem now c items t =
    entries_from-CountsFrom c 0 (filter is_novelty_item items) t.defer_metadata

-- A content that is committed has no icon any more.
pub remove_on_commit_lem :
    (id : String) (t : NoveltyTracker)
    → All
        (λ (e : NoveltyQueueEntry). not (str_eq e.content_id id) ≡ true)
        (remove_on_commit id t).entries
unfolding remove_on_commit
remove_on_commit_lem id t =
    All-filter (λ (e : NoveltyQueueEntry). not (str_eq e.content_id id)) t.entries
