-- ===== src/Display/MediaCache/Answers.antt =====
-- The answers to requests: shared, refused for a while after a failure, and without a leak.
use kiosk_screen.Prelude.{
  ℕ, ◌-◌, ◌<◌, String, ◌≡◌, refl, ◌∙◌, ◌⊎◌, inl, inr, Bool, true, none, some, List, [], ◌∷◌, ◌++◌,
  arith, eq_refl, ltb, ◌==◌, if◌then◌else◌, if_both, get_elem?, JsMap, map_get, map_set, map_delete,
  map_get-map_set, set_has, set_has-append,
}
use kiosk_screen.Display.MediaCache.{
  MediaCache, PreparationRequest, resolved, rejected, now_settled, is_retained, is_pending,
  activate, drain, drain_preparation_queue, retry_or_request, cached_blob, queue_preparation,
  max_concurrent_downloads,
}
use kiosk_screen.Display.MediaCache.Operations.{
  remove_at, keep_blob, discard_blob, downloaded, failed_download, end_preparation, late, answered,
  finish_preparation,
}

-- The loop on the queue starts downloads and changes nothing else.
abbrev pub SameAnswers : MediaCache → MediaCache → Type 0
SameAnswers c d =
    (d.blob_by_url ≡ c.blob_by_url)
    × (d.failure_at_by_url ≡ c.failure_at_by_url)
    × (d.pending_by_url ≡ c.pending_by_url)
    × (d.revoked ≡ c.revoked)

SameAnswers-trans : (c d e : MediaCache) → SameAnswers c d → SameAnswers d e → SameAnswers c e
SameAnswers-trans c d e (b, f, p, r) (b', f', p', r') = (b' ∙ b, f' ∙ f, p' ∙ p, r' ∙ r)

pub drain-SameAnswers : (rs : List PreparationRequest) (c : MediaCache) → SameAnswers c (drain rs c)
unfolding drain
drain-SameAnswers [] c = (refl, refl, refl, refl)
drain-SameAnswers (r ∷ rs) c =
    let next = if is_pending r c then activate r c else c in
    if_both (SameAnswers c) (ltb c.active_downloads max_concurrent_downloads)
      (SameAnswers-trans c next (drain rs next)
        (if_both (SameAnswers c) (is_pending r c) (refl, refl, refl, refl) (refl, refl, refl, refl))
        (drain-SameAnswers rs next))
      (refl, refl, refl, refl)

pub map_get_set_same {ℓ} :
    {V : Type ℓ} (m : JsMap V) (k : String) (v : V) → map_get (map_set m k v) k ≡ some v
map_get_set_same m k v = map_get-map_set m k k v ∙ rw (eq_refl k) refl

-- The state after a failed download.
failed_state :
    (t : ℕ) (r : PreparationRequest) (error : String) (c : MediaCache)
    → ((answered t r (rejected error) c).blob_by_url ≡ c.blob_by_url)
      × ((answered t r (rejected error) c).failure_at_by_url ≡ map_set c.failure_at_by_url r.url t)
unfolding answered end_preparation drain_preparation_queue failed_download
failed_state t r error c =
    let d = failed_download t r error c in
    let e : MediaCache = record d {
      pending_by_url =
          if is_pending r d then map_delete d.pending_by_url r.url else d.pending_by_url;
      active_downloads = d.active_downloads - 1;
    } in
    let same = drain-SameAnswers e.preparation_queue e in (same.0, same.1)

-- For 15 s after a download failed, its url is refused at once, if there is no Blob of it, and the
-- cache stays as it is.
pub cooldown_refuses :
    (t now : ℕ) (error content_type : String) (required : Bool) (r : PreparationRequest)
    (c : MediaCache)
    → cached_blob r.url c ≡ none
    → now - t < 15000
    → let d = answered t r (rejected error) c in
      queue_preparation now r.url content_type required d
      ≡ (d, now_settled (rejected "media_retry_cooldown"))
unfolding queue_preparation retry_or_request
cooldown_refuses t now error content_type required r c no_blob soon =
    let state = failed_state t r error c in
    let blob : cached_blob r.url (answered t r (rejected error) c) ≡ none = rw state.0 no_blob in
    let failure : map_get (answered t r (rejected error) c).failure_at_by_url r.url ≡ some t =
      rw state.1 (map_get_set_same c.failure_at_by_url r.url t) in
    let early : ltb (now - t) 15000 ≡ true = ground arith in
    rw (blob, queue_preparation) (rw (failure, retry_or_request) (rw early refl))

-- A Blob URL is kept for the url, or it was revoked.
abbrev pub IsKept : String → String → MediaCache → Type 0
IsKept url blob_url c =
    (map_get c.blob_by_url url ≡ some blob_url) ⊎ (set_has c.revoked blob_url ≡ true)

SameAnswers-IsKept :
    (url blob_url : String) (c d : MediaCache)
    → SameAnswers c d
    → IsKept url blob_url c
    → IsKept url blob_url d
SameAnswers-IsKept url blob_url c d (b, f, p, r) h = rw (b, r) h

set_has_last : (xs : List String) (k : String) → set_has (xs ++ k ∷ []) k ≡ true
set_has_last xs k = set_has-append xs (k ∷ []) k ∙ ground (arith, eq_refl k)

downloaded-IsKept :
    (r : PreparationRequest) (blob_url : String) (c : MediaCache)
    → IsKept r.url blob_url (downloaded r blob_url c)
unfolding downloaded
downloaded-IsKept r blob_url c =
    if_both (IsKept r.url blob_url) (is_retained r.url c)
      {x = keep_blob r blob_url
        (record c { failure_at_by_url = map_delete c.failure_at_by_url r.url })}
      {y = discard_blob r blob_url
        (record c { failure_at_by_url = map_delete c.failure_at_by_url r.url })}
      (inl (map_get_set_same _ r.url blob_url)) (inr (set_has_last c.revoked blob_url))

answered-IsKept :
    (now : ℕ) (r : PreparationRequest) (blob_url : String) (c : MediaCache)
    → IsKept r.url blob_url (answered now r (resolved blob_url) c)
unfolding answered end_preparation drain_preparation_queue
answered-IsKept now r blob_url c =
    let d = downloaded r blob_url c in
    let e : MediaCache = record d {
      pending_by_url =
          if is_pending r d then map_delete d.pending_by_url r.url else d.pending_by_url;
      active_downloads = d.active_downloads - 1;
    } in
    SameAnswers-IsKept r.url blob_url e (drain e.preparation_queue e)
      (drain-SameAnswers e.preparation_queue e) (downloaded-IsKept r blob_url c)

late-IsKept :
    (r : PreparationRequest) (blob_url : String) (c : MediaCache)
    → IsKept r.url blob_url (late r (resolved blob_url) c)
unfolding late
late-IsKept r blob_url c = inr (set_has_last c.revoked blob_url)

-- No Blob URL leaks: when a download is over, its Blob URL is kept for its url or it is revoked, also
-- where the url is no longer retained or the cache was released meanwhile.
pub finish_preparation-IsKept :
    (now i : ℕ) (blob_url : String) (r : PreparationRequest) (c : MediaCache)
    → get_elem? c.in_flight i ≡ some r
    → IsKept r.url blob_url (finish_preparation now i (resolved blob_url) c)
unfolding finish_preparation
finish_preparation-IsKept now i blob_url r c e =
    let rest = record c { in_flight = remove_at i c.in_flight } in
    rw (e, finish_preparation)
      (if_both (IsKept r.url blob_url) (r.generation == c.lifecycle_generation)
        (answered-IsKept now r blob_url rest) (late-IsKept r blob_url rest))
