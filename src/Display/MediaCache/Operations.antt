-- ===== src/Display/MediaCache/Operations.antt =====
-- frontend/src/app/display/display-media-cache.service.ts: what is retained, and how a download ends.
use kiosk_screen.Prelude.{
  ℕ, zero, suc, ◌+◌, ◌-◌, String, Bool, false, not, ◌||◌, Option, none, some, List, [], ◌∷◌, ◌++◌,
  map, reverse, ◌==◌, if◌then◌else◌, str_eq, or_default, non_empty, get_elem?, take, filter,
  map_set, map_delete, JsSet, set_has, set_add, set_delete,
}
use kiosk_screen.Display.MediaCache.{
  MediaCache, ready, failed, PreparationRequest, Settled, resolved, rejected, has_nat, is_retained,
  settle_request, revoke, is_pending, drain_preparation_queue, cached_blob, queue_preparation,
  max_top_retention,
}

abbrev pub drop_blob : String → String → MediaCache → MediaCache
drop_blob url blob_url c = record (revoke blob_url c) {
  blob_by_url = map_delete c.blob_by_url url;
  ready_state_by_url = map_set c.ready_state_by_url url ready;
  revision = c.revision + 1;
}

unfoldable pub revoke_if_unreferenced : String → MediaCache → MediaCache
revoke_if_unreferenced url c =
    if is_retained url c
    then c
    else elim (cached_blob url c) [ none ↦ c | some blob_url ↦ drop_blob url blob_url c ]

-- `evictRetainedUrls(this.topRetained, next)`, on the urls of the set in turn.
unfoldable pub evict_top : List String → JsSet → MediaCache → MediaCache
evict_top [] next c = c
evict_top (url ∷ urls) next c = evict_top urls next (
    if set_has next url
    then c
    else revoke_if_unreferenced url (record c { top_retained = set_delete c.top_retained url }))

-- `evictRetainedUrls(this.adRetained, next)`
unfoldable pub evict_ads : List String → JsSet → MediaCache → MediaCache
evict_ads [] next c = c
evict_ads (url ∷ urls) next c = evict_ads urls next (
    if set_has next url
    then c
    else revoke_if_unreferenced url (record c { ad_retained = set_delete c.ad_retained url }))

abbrev pub is_needed : MediaCache → PreparationRequest → Bool
is_needed c r = has_nat c.required r.id || is_retained r.url c

abbrev pub pruned : PreparationRequest → MediaCache → MediaCache
pruned r c = record c {
  pending_by_url = if is_pending r c then map_delete c.pending_by_url r.url else c.pending_by_url;
  ready_state_by_url = map_delete c.ready_state_by_url r.url;
  settled = c.settled ++ (r.id, rejected "media_preparation_pruned") ∷ [];
}

abbrev pub prune_each : List PreparationRequest → MediaCache → MediaCache
prune_each [] c = c
prune_each (r ∷ rs) c = prune_each rs (pruned r c)

-- From the end of the queue, where what is needed depends on nothing that the loop changes.
unfoldable pub prune_unneeded_queued_preparations : MediaCache → MediaCache
prune_unneeded_queued_preparations c =
    prune_each (reverse (filter (λ r. not (is_needed c r)) c.preparation_queue))
      (record c { preparation_queue = filter (is_needed c) c.preparation_queue })

-- `[...new Set(urls.filter(Boolean))]`
abbrev pub add_all : JsSet → List String → JsSet
add_all s [] = s
add_all s (url ∷ urls) = add_all (if non_empty url then set_add s url else s) urls

abbrev pub unique_urls : List String → List String
unique_urls urls = add_all [] urls

abbrev pub warm_each : ℕ → List String → MediaCache → MediaCache
warm_each now [] c = c
warm_each now (url ∷ urls) c = warm_each now urls (queue_preparation now url "photo" false c).0

unfoldable pub warm : ℕ → List String → MediaCache → MediaCache
warm now urls c = warm_each now (unique_urls urls) c

unfoldable pub retain_top : ℕ → List String → MediaCache → MediaCache
retain_top now urls c =
    let next = take max_top_retention (unique_urls urls) in
    warm now next (
      prune_unneeded_queued_preparations
        (record (evict_top c.top_retained next c) { top_retained = next }))

unfoldable pub retain_ads : ℕ → List String → MediaCache → MediaCache
retain_ads now urls c =
    let next = unique_urls urls in
    warm now next (
      prune_unneeded_queued_preparations
        (record (evict_ads c.ad_retained next c) { ad_retained = next }))

abbrev pub revoke_each : List String → MediaCache → MediaCache
revoke_each [] c = c
revoke_each (url ∷ urls) c = revoke_each urls (revoke_if_unreferenced url c)

unfoldable pub clear_top_retention : MediaCache → MediaCache
clear_top_retention c =
    prune_unneeded_queued_preparations (revoke_each c.top_retained (record c { top_retained = [] }))

-- `items.slice(0, 1)`
unfoldable pub warm_items : ℕ → List (String × Option String) → MediaCache → MediaCache
warm_items now [] c = c
warm_items now ((media_url, content_type) ∷ items) c =
    if non_empty media_url
    then (queue_preparation now media_url (or_default content_type "photo") false c).0
    else c

unfoldable pub release : String → MediaCache → MediaCache
release url c = revoke_if_unreferenced url (
    prune_unneeded_queued_preparations (record c {
      top_retained = set_delete c.top_retained url;
      ad_retained = set_delete c.ad_retained url;
    }))

abbrev pub remove_at : ℕ → List PreparationRequest → List PreparationRequest
remove_at i [] = []
remove_at zero (r ∷ rs) = rs
remove_at (suc i) (r ∷ rs) = r ∷ remove_at i rs

-- `if (previous && previous !== blobUrl) URL.revokeObjectURL(previous)`
abbrev pub revoke_previous : String → String → MediaCache → MediaCache
revoke_previous url blob_url c = elim (cached_blob url c) [
  | none ↦ c
  | some previous ↦ if str_eq previous blob_url then c else revoke previous c
]

abbrev pub keep_blob : PreparationRequest → String → MediaCache → MediaCache
keep_blob r blob_url c =
    settle_request r.id (resolved blob_url) (record (revoke_previous r.url blob_url c) {
      blob_by_url = map_set c.blob_by_url r.url blob_url;
      ready_state_by_url = map_set c.ready_state_by_url r.url ready;
    })

abbrev pub discard_blob : PreparationRequest → String → MediaCache → MediaCache
discard_blob r blob_url c = settle_request r.id (resolved "") (record (revoke blob_url c) {
  ready_state_by_url =
      if has_nat c.required r.id
      then map_set c.ready_state_by_url r.url ready
      else map_delete c.ready_state_by_url r.url;
})

unfoldable pub downloaded : PreparationRequest → String → MediaCache → MediaCache
downloaded r blob_url c =
    let fresh = record c { failure_at_by_url = map_delete c.failure_at_by_url r.url } in
    let kept =
      if is_retained r.url c then keep_blob r blob_url fresh else discard_blob r blob_url fresh in
    record kept { revision = c.revision + 1 }

unfoldable pub failed_download : ℕ → PreparationRequest → String → MediaCache → MediaCache
failed_download now r error c = settle_request r.id (rejected error) (record c {
  failure_at_by_url = map_set c.failure_at_by_url r.url now;
  ready_state_by_url = map_set c.ready_state_by_url r.url failed;
  revision = c.revision + 1;
})

-- The `finally` of a run of the current generation.
unfoldable pub end_preparation : PreparationRequest → MediaCache → MediaCache
end_preparation r c = drain_preparation_queue (record c {
  pending_by_url = if is_pending r c then map_delete c.pending_by_url r.url else c.pending_by_url;
  active_downloads = c.active_downloads - 1;
})

-- A run of an earlier generation.
unfoldable pub late : PreparationRequest → Settled → MediaCache → MediaCache
late r (resolved blob_url) c = settle_request r.id (resolved "") (revoke blob_url c)
late r (rejected error) c = settle_request r.id (rejected error) c

unfoldable pub answered : ℕ → PreparationRequest → Settled → MediaCache → MediaCache
answered now r (resolved blob_url) c = end_preparation r (downloaded r blob_url c)
answered now r (rejected error) c = end_preparation r (failed_download now r error c)

-- `fetchAndProbe` of the i-th run is over, with a Blob URL or an error.
unfoldable pub finish_preparation : ℕ → ℕ → Settled → MediaCache → MediaCache
finish_preparation now i outcome c = elim (get_elem? c.in_flight i) [
  | none ↦ c
  | some r ↦
      let rest = record c { in_flight = remove_at i c.in_flight } in
      if r.generation == c.lifecycle_generation
      then answered now r outcome rest
      else late r outcome rest
]

abbrev pub reject_each : List (String × PreparationRequest) → MediaCache → MediaCache
reject_each [] c = c
reject_each ((url, r) ∷ rs) c =
    reject_each rs
      (if has_nat c.active r.id then c else settle_request r.id (rejected "media_cache_released") c)

unfoldable pub release_all : MediaCache → MediaCache
release_all c =
    let rejected_all = reject_each c.pending_by_url c in
    record rejected_all {
      lifecycle_generation = c.lifecycle_generation + 1;
      revoked = rejected_all.revoked ++ map (λ (e : String × String). e.1) c.blob_by_url;
      blob_by_url = [];
      pending_by_url = [];
      failure_at_by_url = [];
      top_retained = [];
      ad_retained = [];
      ready_state_by_url = [];
      preparation_queue = [];
      active_downloads = 0;
      revision = c.revision + 1;
    }
