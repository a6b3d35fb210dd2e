-- ===== src/Display/MediaCache/Runs.antt =====
-- Runs of the media cache: every order of requests, releases and answers.
use kiosk_screen.Prelude.{
  ℕ, zero, suc, ◌+◌, ◌≤◌, String, ◌≡◌, refl, sym, ap, ◌∙◌, inl, inr, Bool, true, false, Option,
  some, List, [], ◌∷◌, arith, ◌==◌, if◌then◌else◌, if_both, if_each, Option-cases, or_default,
  non_empty, get_elem?, All, All-mono,
}
use kiosk_screen.Display.MediaCache.{
  MediaCache, PreparationRequest, Settled, resolved, rejected, empty_cache, has_nat, settle_request,
  drain_preparation_queue, ensure_ready, max_concurrent_downloads,
}
use kiosk_screen.Display.MediaCache.Operations.{
  warm, retain_top, retain_ads, clear_top_retention, warm_items, release, remove_at, downloaded,
  failed_download, end_preparation, late, answered, finish_preparation, reject_each, release_all,
}
use kiosk_screen.Display.MediaCache.Scheduling.{
  IsScheduled, IsQueued, current_runs, is_of, drain-IsScheduled,
}
use kiosk_screen.Display.MediaCache.Requests.{
  SameSchedule, SameSchedule-trans, SameSchedule-IsScheduled, queue_preparation-IsScheduled,
  warm-IsScheduled, retain_top-IsScheduled, retain_ads-IsScheduled, clear_top_retention-IsScheduled,
  release-IsScheduled,
}

pub data CacheEvent : Type 0 where
  ensured : String → String → CacheEvent
  warmed top_retained ads_retained : List String → CacheEvent
  items_warmed : List (String × Option String) → CacheEvent
  top_cleared all_released : CacheEvent
  released : String → CacheEvent
  finished : ℕ → Settled → CacheEvent

-- An event at a reading of the clock.
unfoldable pub cache_step : MediaCache → ℕ × CacheEvent → MediaCache
cache_step c (now, ensured url content_type) = (ensure_ready now url content_type c).0
cache_step c (now, warmed urls) = warm now urls c
cache_step c (now, top_retained urls) = retain_top now urls c
cache_step c (now, ads_retained urls) = retain_ads now urls c
cache_step c (now, items_warmed items) = warm_items now items c
cache_step c (now, top_cleared) = clear_top_retention c
cache_step c (now, all_released) = release_all c
cache_step c (now, released url) = release url c
cache_step c (now, finished i outcome) = finish_preparation now i outcome c

abbrev pub cache_run : MediaCache → List (ℕ × CacheEvent) → MediaCache
cache_run c [] = c
cache_run c (e ∷ es) = cache_run (cache_step c e) es

abbrev one_if : Bool → ℕ
one_if b = if b then 1 else 0

current_runs-remove_at :
    (generation i : ℕ) (rs : List PreparationRequest) (r : PreparationRequest)
    → get_elem? rs i ≡ some r
    → current_runs generation rs
      ≡ current_runs generation (remove_at i rs) + one_if (is_of generation r)
current_runs-remove_at generation i [] r e = absurd (ground arith)
current_runs-remove_at generation zero (q ∷ rs) r e =
    let same : q ≡ r = ground arith in rw same (ground arith)
current_runs-remove_at generation (suc i) (q ∷ rs) r e =
    ground (arith, current_runs-remove_at generation i rs r e)

All-remove_at :
    (P : PreparationRequest → Type 0) (i : ℕ) (rs : List PreparationRequest)
    → All P rs
    → All P (remove_at i rs)
All-remove_at P i [] h = tt
All-remove_at P zero (r ∷ rs) h = h.1
All-remove_at P (suc i) (r ∷ rs) h = (h.0, All-remove_at P i rs h.1)

downloaded-SameSchedule :
    (r : PreparationRequest) (blob_url : String) (c : MediaCache)
    → SameSchedule c (downloaded r blob_url c)
unfolding downloaded
downloaded-SameSchedule r blob_url c = ground arith

failed_download-SameSchedule :
    (now : ℕ) (r : PreparationRequest) (error : String) (c : MediaCache)
    → SameSchedule c (failed_download now r error c)
unfolding failed_download
failed_download-SameSchedule now r error c = (refl, refl, refl, refl)

late-SameSchedule :
    (r : PreparationRequest) (outcome : Settled) (c : MediaCache)
    → SameSchedule c (late r outcome c)
unfolding late
late-SameSchedule r (resolved blob_url) c = (refl, refl, refl, refl)
late-SameSchedule r (rejected error) c = (refl, refl, refl, refl)

-- A run of the current generation is over and still holds its slot.
abbrev Ending : MediaCache → Type 0
Ending c =
    (c.active_downloads ≡ current_runs c.lifecycle_generation c.in_flight + 1)
    × (c.active_downloads ≤ max_concurrent_downloads)
    × All (λ (r : PreparationRequest). r.generation ≤ c.lifecycle_generation) c.in_flight
    × IsQueued c.lifecycle_generation c.preparation_queue

SameSchedule-Ending : (c d : MediaCache) → SameSchedule c d → Ending c → Ending d
SameSchedule-Ending c d (g, q, r, a) h = rw (g, q, r, a) h

end_preparation-IsScheduled :
    (r : PreparationRequest) (c : MediaCache) → Ending c → IsScheduled (end_preparation r c)
unfolding end_preparation drain_preparation_queue
end_preparation-IsScheduled r c (counted, bounded, past, queued) =
    drain-IsScheduled c.preparation_queue _
      (record { counted = omega (arith, counted); bounded = omega (arith, bounded); past = past })
      queued

answered-IsScheduled :
    (now : ℕ) (r : PreparationRequest) (outcome : Settled) (c : MediaCache)
    → Ending c
    → IsScheduled (answered now r outcome c)
unfolding answered
answered-IsScheduled now r (resolved blob_url) c h =
    end_preparation-IsScheduled r (downloaded r blob_url c)
      (SameSchedule-Ending c (downloaded r blob_url c) (downloaded-SameSchedule r blob_url c) h)
answered-IsScheduled now r (rejected error) c h =
    end_preparation-IsScheduled r (failed_download now r error c) (
      SameSchedule-Ending c (failed_download now r error c)
        (failed_download-SameSchedule now r error c) h)

finish_preparation-IsScheduled :
    (now i : ℕ) (outcome : Settled) (c : MediaCache)
    → IsScheduled c
    → IsScheduled (finish_preparation now i outcome c)
unfolding finish_preparation
finish_preparation-IsScheduled now i outcome c h = elim (Option-cases (get_elem? c.in_flight i)) [
  | inl e ↦ rw (e, finish_preparation) h
  | inr (r, e) ↦
      let rest = record c { in_flight = remove_at i c.in_flight } in
      let count = current_runs-remove_at c.lifecycle_generation i c.in_flight r e in
      let past =
        All-remove_at (λ (q : PreparationRequest). q.generation ≤ c.lifecycle_generation) i
          c.in_flight h.slots.past in
      rw (e, finish_preparation)
        (if_each IsScheduled (r.generation == c.lifecycle_generation)
          (λ same.
            answered-IsScheduled now r outcome rest
              (ground (arith, h.slots.counted, count, same), h.slots.bounded, past, h.queued))
          (λ other.
            SameSchedule-IsScheduled rest (late r outcome rest) (late-SameSchedule r outcome rest)
              (record {
                slots = record {
                  counted = ground (arith, h.slots.counted, count, other);
                  bounded = h.slots.bounded;
                  past = past;
                };
                queued = h.queued;
                busy = h.busy;
              })))
]

reject_each-SameSchedule :
    (rs : List (String × PreparationRequest)) (c : MediaCache) → SameSchedule c (reject_each rs c)
reject_each-SameSchedule [] c = (refl, refl, refl, refl)
reject_each-SameSchedule ((url, r) ∷ rs) c =
    let d : MediaCache =
      if has_nat c.active r.id
      then c
      else settle_request r.id (rejected "media_cache_released") c in
    SameSchedule-trans c d (reject_each rs d)
      (if_both (SameSchedule c) (has_nat c.active r.id) (refl, refl, refl, refl)
        (refl, refl, refl, refl))
      (reject_each-SameSchedule rs d)

no_current_runs :
    (generation : ℕ) (rs : List PreparationRequest)
    → All (λ (r : PreparationRequest). r.generation ≤ generation) rs
    → current_runs (generation + 1) rs ≡ 0
no_current_runs generation [] h = refl
no_current_runs generation (r ∷ rs) h = ground (arith, h.0, no_current_runs generation rs h.1)

older_still :
    (generation : ℕ) (rs : List PreparationRequest)
    → All (λ (r : PreparationRequest). r.generation ≤ generation) rs
    → All (λ (r : PreparationRequest). r.generation ≤ generation + 1) rs
older_still generation rs =
    All-mono (λ (r : PreparationRequest). r.generation ≤ generation)
      (λ (r : PreparationRequest). r.generation ≤ generation + 1) rs (λ r h. omega (arith, h))

release_all-IsScheduled : (c : MediaCache) → IsScheduled c → IsScheduled (release_all c)
unfolding release_all
release_all-IsScheduled c h =
    let same = (reject_each-SameSchedule c.pending_by_url c).2 in
    record {
      slots = record {
        counted = sym (
            ap (λ (rs : List PreparationRequest). current_runs (c.lifecycle_generation + 1) rs) same
            ∙ no_current_runs c.lifecycle_generation c.in_flight h.slots.past);
        bounded = omega arith;
        past = rw same (older_still c.lifecycle_generation c.in_flight h.slots.past);
      };
      queued = tt;
      busy = inl refl;
    }

warm_items-IsScheduled :
    (now : ℕ) (items : List (String × Option String)) (c : MediaCache)
    → IsScheduled c
    → IsScheduled (warm_items now items c)
unfolding warm_items
warm_items-IsScheduled now [] c h = h
warm_items-IsScheduled now ((media_url, content_type) ∷ items) c h =
    if_both IsScheduled (non_empty media_url)
      (queue_preparation-IsScheduled now media_url (or_default content_type "photo") false c h) h

pub cache_step-IsScheduled :
    (c : MediaCache) (e : ℕ × CacheEvent) → IsScheduled c → IsScheduled (cache_step c e)
unfolding cache_step ensure_ready
cache_step-IsScheduled c (now, ensured url content_type) h =
    queue_preparation-IsScheduled now url content_type true c h
cache_step-IsScheduled c (now, warmed urls) h = warm-IsScheduled now urls c h
cache_step-IsScheduled c (now, top_retained urls) h = retain_top-IsScheduled now urls c h
cache_step-IsScheduled c (now, ads_retained urls) h = retain_ads-IsScheduled now urls c h
cache_step-IsScheduled c (now, items_warmed items) h = warm_items-IsScheduled now items c h
cache_step-IsScheduled c (now, top_cleared) h = clear_top_retention-IsScheduled c h
cache_step-IsScheduled c (now, all_released) h = release_all-IsScheduled c h
cache_step-IsScheduled c (now, released url) h = release-IsScheduled url c h
cache_step-IsScheduled c (now, finished i outcome) h =
    finish_preparation-IsScheduled now i outcome c h

cache_run_from :
    (es : List (ℕ × CacheEvent)) (c : MediaCache) → IsScheduled c → IsScheduled (cache_run c es)
cache_run_from [] c h = h
cache_run_from (e ∷ es) c h = cache_run_from es (cache_step c e) (cache_step-IsScheduled c e h)

-- After any events, the downloads that count are the runs of the current generation and at most three,
-- and a request waits in the queue only while all three slots are taken.
pub cache_run-IsScheduled : (es : List (ℕ × CacheEvent)) → IsScheduled (cache_run empty_cache es)
cache_run-IsScheduled es = cache_run_from es empty_cache (record {
  slots = record { counted = refl; bounded = omega arith; past = tt };
  queued = tt;
  busy = inl refl;
})
