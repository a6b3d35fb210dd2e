-- ===== src/Display/MediaCache/Requests.antt =====
-- The requests and the retention keep the schedule of the downloads.
use kiosk_screen.Prelude.{
  ℕ, ◌-◌, String, ◌≡◌, refl, ap, ◌∙◌, ◌⊎◌, inl, inr, Bool, false, not, ◌&&◌, List, [], ◌∷◌, reverse,
  arith, ltb, if◌then◌else◌, if_both, Option-cases, take, filter, All-append, All-of_filter,
  map_get, JsSet, set_has, set_delete,
}
use kiosk_screen.Display.MediaCache.{
  MediaCache, PreparationRequest, Prepared, is_retained, drain_preparation_queue, with_request,
  require, join_or_request, forget_failure, retry_or_request, cached_blob, queue_preparation,
  is_ready, max_top_retention, max_concurrent_downloads, retry_cooldown_ms,
}
use kiosk_screen.Display.MediaCache.Operations.{
  revoke_if_unreferenced, evict_top, evict_ads, is_needed, pruned, prune_each,
  prune_unneeded_queued_preparations, unique_urls, warm_each, warm, retain_top, retain_ads,
  revoke_each, clear_top_retention, release,
}
use kiosk_screen.Display.MediaCache.Scheduling.{IsScheduled, drain-IsScheduled}

-- What an operation that neither starts nor ends a download leaves alone.
abbrev pub SameSchedule : MediaCache → MediaCache → Type 0
SameSchedule c d =
    (d.lifecycle_generation ≡ c.lifecycle_generation)
    × (d.preparation_queue ≡ c.preparation_queue)
    × (d.in_flight ≡ c.in_flight)
    × (d.active_downloads ≡ c.active_downloads)

pub SameSchedule-trans :
    (c d e : MediaCache) → SameSchedule c d → SameSchedule d e → SameSchedule c e
SameSchedule-trans c d e (g, q, r, a) (g', q', r', a') = (g' ∙ g, q' ∙ q, r' ∙ r, a' ∙ a)

pub SameSchedule-IsScheduled : (c d : MediaCache) → SameSchedule c d → IsScheduled c → IsScheduled d
SameSchedule-IsScheduled c d (g, q, r, a) h = rw (g, q, r, a) h

pub revoke_if_unreferenced-SameSchedule :
    (url : String) (c : MediaCache) → SameSchedule c (revoke_if_unreferenced url c)
unfolding revoke_if_unreferenced
revoke_if_unreferenced-SameSchedule url c = ground arith

evict_top-SameSchedule :
    (urls : List String) (next : JsSet) (c : MediaCache) → SameSchedule c (evict_top urls next c)
unfolding evict_top
evict_top-SameSchedule [] next c = (refl, refl, refl, refl)
evict_top-SameSchedule (url ∷ urls) next c =
    let evicted = record c { top_retained = set_delete c.top_retained url } in
    let d = if set_has next url then c else revoke_if_unreferenced url evicted in
    SameSchedule-trans c d (evict_top urls next d)
      (if_both (SameSchedule c) (set_has next url) (refl, refl, refl, refl)
        (revoke_if_unreferenced-SameSchedule url evicted))
      (evict_top-SameSchedule urls next d)

evict_ads-SameSchedule :
    (urls : List String) (next : JsSet) (c : MediaCache) → SameSchedule c (evict_ads urls next c)
unfolding evict_ads
evict_ads-SameSchedule [] next c = (refl, refl, refl, refl)
evict_ads-SameSchedule (url ∷ urls) next c =
    let evicted = record c { ad_retained = set_delete c.ad_retained url } in
    let d = if set_has next url then c else revoke_if_unreferenced url evicted in
    SameSchedule-trans c d (evict_ads urls next d)
      (if_both (SameSchedule c) (set_has next url) (refl, refl, refl, refl)
        (revoke_if_unreferenced-SameSchedule url evicted))
      (evict_ads-SameSchedule urls next d)

revoke_each-SameSchedule :
    (urls : List String) (c : MediaCache) → SameSchedule c (revoke_each urls c)
revoke_each-SameSchedule [] c = (refl, refl, refl, refl)
revoke_each-SameSchedule (url ∷ urls) c =
    SameSchedule-trans c (revoke_if_unreferenced url c)
      (revoke_each urls (revoke_if_unreferenced url c)) (revoke_if_unreferenced-SameSchedule url c)
      (revoke_each-SameSchedule urls (revoke_if_unreferenced url c))

prune_each-SameSchedule :
    (rs : List PreparationRequest) (c : MediaCache) → SameSchedule c (prune_each rs c)
prune_each-SameSchedule [] c = (refl, refl, refl, refl)
prune_each-SameSchedule (r ∷ rs) c = prune_each-SameSchedule rs (pruned r c)

filter-busy :
    (active : ℕ) (p : PreparationRequest → Bool) (rs : List PreparationRequest)
    → (rs ≡ []) ⊎ (active ≡ max_concurrent_downloads)
    → (filter p rs ≡ []) ⊎ (active ≡ max_concurrent_downloads)
filter-busy active p rs (inl e) = inl (ap (filter p) e)
filter-busy active p rs (inr e) = inr e

pub prune-IsScheduled :
    (c : MediaCache) → IsScheduled c → IsScheduled (prune_unneeded_queued_preparations c)
unfolding prune_unneeded_queued_preparations
prune-IsScheduled c h =
    let kept = record c { preparation_queue = filter (is_needed c) c.preparation_queue } in
    let dropped = reverse (filter (λ r. not (is_needed c r)) c.preparation_queue) in
    SameSchedule-IsScheduled kept (prune_each dropped kept) (prune_each-SameSchedule dropped kept)
      (record {
        slots = h.slots;
        queued =
            All-of_filter (λ (r : PreparationRequest). r.generation ≡ c.lifecycle_generation)
              (is_needed c) c.preparation_queue h.queued;
        busy = filter-busy c.active_downloads (is_needed c) c.preparation_queue h.busy;
      })

with_request-IsScheduled :
    (url content_type : String) (required : Bool) (c : MediaCache)
    → IsScheduled c
    → IsScheduled (drain_preparation_queue (with_request url content_type required c))
unfolding drain_preparation_queue
with_request-IsScheduled url content_type required c h =
    let d = with_request url content_type required c in
    drain-IsScheduled d.preparation_queue d h.slots (
      All-append (λ (r : PreparationRequest). r.generation ≡ c.lifecycle_generation)
        c.preparation_queue _ h.queued (refl, tt))

require-IsScheduled :
    (needed : Bool) (id : ℕ) (c : MediaCache) → IsScheduled c → IsScheduled (require needed id c)
require-IsScheduled needed id c h = if_both IsScheduled needed h h

join_or_request-IsScheduled :
    (url content_type : String) (required : Bool) (c : MediaCache)
    → IsScheduled c
    → IsScheduled (join_or_request url content_type required c).0
unfolding join_or_request
join_or_request-IsScheduled url content_type required c h =
    elim (Option-cases (map_get c.pending_by_url url)) [
      | inl e ↦
          rw (e, join_or_request)
            (if_both (λ (p : MediaCache × Prepared). IsScheduled p.0)
              (is_ready (map_get c.ready_state_by_url url) && not (is_retained url c)) h
              (with_request-IsScheduled url content_type required c h))
      | inr (existing, e) ↦ rw (e, join_or_request) (require-IsScheduled required existing.id c h)
    ]

retry_or_request-IsScheduled :
    (now : ℕ) (url content_type : String) (required : Bool) (c : MediaCache)
    → IsScheduled c
    → IsScheduled (retry_or_request now url content_type required c).0
unfolding retry_or_request
retry_or_request-IsScheduled now url content_type required c h =
    elim (Option-cases (map_get c.failure_at_by_url url)) [
      | inl e ↦ rw (e, retry_or_request) (join_or_request-IsScheduled url content_type required c h)
      | inr (failed_at, e) ↦
          rw (e, retry_or_request)
            (if_both (λ (p : MediaCache × Prepared). IsScheduled p.0)
              (ltb (now - failed_at) retry_cooldown_ms) h
              (join_or_request-IsScheduled url content_type required (forget_failure url c) h))
    ]

pub queue_preparation-IsScheduled :
    (now : ℕ) (url content_type : String) (required : Bool) (c : MediaCache)
    → IsScheduled c
    → IsScheduled (queue_preparation now url content_type required c).0
unfolding queue_preparation
queue_preparation-IsScheduled now url content_type required c h =
    elim (Option-cases (cached_blob url c)) [
      | inl e ↦
          rw (e, queue_preparation) (retry_or_request-IsScheduled now url content_type required c h)
      | inr (blob, e) ↦ rw (e, queue_preparation) h
    ]

warm_each-IsScheduled :
    (now : ℕ) (urls : List String) (c : MediaCache)
    → IsScheduled c
    → IsScheduled (warm_each now urls c)
warm_each-IsScheduled now [] c h = h
warm_each-IsScheduled now (url ∷ urls) c h =
    warm_each-IsScheduled now urls (queue_preparation now url "photo" false c).0
      (queue_preparation-IsScheduled now url "photo" false c h)

pub warm-IsScheduled :
    (now : ℕ) (urls : List String) (c : MediaCache) → IsScheduled c → IsScheduled (warm now urls c)
unfolding warm
warm-IsScheduled now urls c h = warm_each-IsScheduled now (unique_urls urls) c h

pub retain_top-IsScheduled :
    (now : ℕ) (urls : List String) (c : MediaCache)
    → IsScheduled c
    → IsScheduled (retain_top now urls c)
unfolding retain_top
retain_top-IsScheduled now urls c h =
    let next = take max_top_retention (unique_urls urls) in
    let d = evict_top c.top_retained next c in
    warm-IsScheduled now next
      (prune_unneeded_queued_preparations (record d { top_retained = next }))
      (prune-IsScheduled (record d { top_retained = next })
        (SameSchedule-IsScheduled c d (evict_top-SameSchedule c.top_retained next c) h))

pub retain_ads-IsScheduled :
    (now : ℕ) (urls : List String) (c : MediaCache)
    → IsScheduled c
    → IsScheduled (retain_ads now urls c)
unfolding retain_ads
retain_ads-IsScheduled now urls c h =
    let next = unique_urls urls in
    let d = evict_ads c.ad_retained next c in
    warm-IsScheduled now next (prune_unneeded_queued_preparations (record d { ad_retained = next }))
      (prune-IsScheduled (record d { ad_retained = next })
        (SameSchedule-IsScheduled c d (evict_ads-SameSchedule c.ad_retained next c) h))

pub clear_top_retention-IsScheduled :
    (c : MediaCache) → IsScheduled c → IsScheduled (clear_top_retention c)
unfolding clear_top_retention
clear_top_retention-IsScheduled c h =
    let d = revoke_each c.top_retained (record c { top_retained = [] }) in
    prune-IsScheduled d (
      SameSchedule-IsScheduled (record c { top_retained = [] }) d
        (revoke_each-SameSchedule c.top_retained (record c { top_retained = [] })) h)

pub release-IsScheduled :
    (url : String) (c : MediaCache) → IsScheduled c → IsScheduled (release url c)
unfolding release
release-IsScheduled url c h =
    let without : MediaCache = record c {
      top_retained = set_delete c.top_retained url;
      ad_retained = set_delete c.ad_retained url;
    } in
    let d = prune_unneeded_queued_preparations without in
    SameSchedule-IsScheduled d (revoke_if_unreferenced url d)
      (revoke_if_unreferenced-SameSchedule url d) (prune-IsScheduled without h)
