-- ===== src/Display/MediaCache/Tests.antt =====
-- Runs of the media cache on three urls.
use kiosk_screen.Prelude.{ℕ, ◌≡◌, refl, true, false, List, [], ◌∷◌}
use kiosk_screen.Display.MediaCache.{
  MediaCache, PreparationRequest, resolved, when_done, empty_cache, require, join_or_request,
  retry_or_request, queue_preparation,
}
use kiosk_screen.Display.MediaCache.Operations.{finish_preparation}
use kiosk_screen.Display.MediaCache.Scheduling.{IsScheduled}
use kiosk_screen.Display.MediaCache.Runs.{
  CacheEvent, ensured, ads_retained, finished, all_released, cache_run, cache_run-IsScheduled,
}
use kiosk_screen.Display.MediaCache.Answers.{IsKept, finish_preparation-IsKept}
use kiosk_screen.Display.MediaCache.Sharing.{requests_share}

abbrev sample_events : List (ℕ × CacheEvent)
sample_events =
    (1, ensured "/a" "photo")
    ∷ (2, ads_retained ("/b" ∷ "/c" ∷ "/d" ∷ []))
    ∷ (3, finished 0 (resolved "blob:1"))
    ∷ (4, all_released)
    ∷ (5, ensured "/a" "photo")
    ∷ []

cache_run-IsScheduled_example : IsScheduled (cache_run empty_cache sample_events)
cache_run-IsScheduled_example = cache_run-IsScheduled sample_events

abbrev sample_request : PreparationRequest
sample_request = record { id = 0; url = "/a"; content_type = "photo"; generation = 0 }

abbrev one_run : MediaCache
one_run = record empty_cache {
  pending_by_url = ("/a", sample_request) ∷ [];
  active_downloads = 1;
  next_id = 1;
  in_flight = sample_request ∷ [];
}

finish_preparation-IsKept_example :
    IsKept "/a" "blob:1" (finish_preparation 7 0 (resolved "blob:1") one_run)
finish_preparation-IsKept_example =
    finish_preparation-IsKept 7 0 "blob:1" sample_request one_run refl

first_request : (queue_preparation 1 "/a" "photo" false empty_cache).1 ≡ when_done 0
unfolding queue_preparation retry_or_request join_or_request
first_request = refl

requests_share_example :
    let d = (queue_preparation 1 "/a" "photo" false empty_cache).0 in
    queue_preparation 9 "/a" "video" true d ≡ (require true 0 d, when_done 0)
requests_share_example =
    requests_share 1 9 0 "/a" "photo" "video" false true empty_cache first_request
