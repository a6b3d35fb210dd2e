-- ===== src/Display/MediaCache/Sharing.antt =====
-- Requests for one url share its download.
use kiosk_screen.Prelude.{
  ℕ, ◌-◌, String, ◌≡◌, refl, ◌∙◌, inl, inr, Bool, not, ◌&&◌, none, some, arith, eq_refl, ltb,
  if_both, Option-cases, map_get, map_get-map_delete,
}
use kiosk_screen.Display.MediaCache.{
  MediaCache, PreparationRequest, Prepared, when_done, is_retained, drain, drain_preparation_queue,
  with_request, require, join_or_request, forget_failure, retry_or_request, cached_blob,
  queue_preparation, is_ready, retry_cooldown_ms,
}
use kiosk_screen.Display.MediaCache.Answers.{SameAnswers, drain-SameAnswers, map_get_set_same}

-- A request for the url is on its way.
record Waiting (url : String) (id : ℕ) (c : MediaCache) : Type 0 where
  no_blob : cached_blob url c ≡ none
  no_failure : map_get c.failure_at_by_url url ≡ none
  existing : PreparationRequest
  found : map_get c.pending_by_url url ≡ some existing
  same_id : existing.id ≡ id

SameAnswers-Waiting :
    (url : String) (id : ℕ) (c d : MediaCache)
    → SameAnswers c d
    → Waiting url id c
    → Waiting url id d
SameAnswers-Waiting url id c d (b, f, p, r) h = record {
  no_blob = rw b h.no_blob;
  no_failure = rw f h.no_failure;
  existing = h.existing;
  found = rw p h.found;
  same_id = h.same_id;
}

require-Waiting :
    (url : String) (id : ℕ) (needed : Bool) (i : ℕ) (c : MediaCache)
    → Waiting url id c
    → Waiting url id (require needed i c)
require-Waiting url id needed i c h =
    SameAnswers-Waiting url id c (require needed i c)
      (if_both (SameAnswers c) needed (refl, refl, refl, refl) (refl, refl, refl, refl)) h

with_request-Waiting :
    (url content_type : String) (required : Bool) (c : MediaCache)
    → cached_blob url c ≡ none
    → map_get c.failure_at_by_url url ≡ none
    → Waiting url c.next_id (drain_preparation_queue (with_request url content_type required c))
unfolding drain_preparation_queue
with_request-Waiting url content_type required c no_blob no_failure =
    let d = with_request url content_type required c in
    SameAnswers-Waiting url c.next_id d (drain d.preparation_queue d)
      (drain-SameAnswers d.preparation_queue d)
      (record {
        no_blob = no_blob;
        no_failure = no_failure;
        existing = _;
        found = map_get_set_same c.pending_by_url url _;
        same_id = refl;
      })

-- What is said of an answer that waits for the request `id`.
abbrev WaitsIn : String → ℕ → MediaCache × Prepared → Type 0
WaitsIn url id (d, p) = p ≡ when_done id → Waiting url id d

same_request : (i j : ℕ) → when_done i ≡ when_done j → i ≡ j
same_request i j e = ground arith

join_or_request-WaitsIn :
    (url content_type : String) (required : Bool) (id : ℕ) (c : MediaCache)
    → cached_blob url c ≡ none
    → map_get c.failure_at_by_url url ≡ none
    → WaitsIn url id (join_or_request url content_type required c)
unfolding join_or_request
join_or_request-WaitsIn url content_type required id c no_blob no_failure =
    elim (Option-cases (map_get c.pending_by_url url)) [
      | inl e ↦
          rw (e, join_or_request)
            (if_both (WaitsIn url id)
              (is_ready (map_get c.ready_state_by_url url) && not (is_retained url c))
              (λ wrong. absurd (ground arith))
              (λ same.
                rw (← same_request c.next_id id same)
                  (with_request-Waiting url content_type required c no_blob no_failure)))
      | inr (existing, e) ↦
          rw (e, join_or_request)
            (λ same. require-Waiting url id required existing.id c (record {
              no_blob = no_blob;
              no_failure = no_failure;
              existing = existing;
              found = e;
              same_id = same_request existing.id id same;
            }))
    ]

retry_or_request-WaitsIn :
    (now : ℕ) (url content_type : String) (required : Bool) (id : ℕ) (c : MediaCache)
    → cached_blob url c ≡ none
    → WaitsIn url id (retry_or_request now url content_type required c)
unfolding retry_or_request
retry_or_request-WaitsIn now url content_type required id c no_blob =
    elim (Option-cases (map_get c.failure_at_by_url url)) [
      | inl e ↦
          rw (e, retry_or_request)
            (join_or_request-WaitsIn url content_type required id c no_blob e)
      | inr (failed_at, e) ↦
          rw (e, retry_or_request)
            (if_both (WaitsIn url id) (ltb (now - failed_at) retry_cooldown_ms)
              (λ wrong. absurd (ground arith))
              (join_or_request-WaitsIn url content_type required id (forget_failure url c) no_blob
                (map_get-map_delete c.failure_at_by_url url url ∙ rw (eq_refl url) refl)))
    ]

queue_preparation-WaitsIn :
    (now : ℕ) (url content_type : String) (required : Bool) (id : ℕ) (c : MediaCache)
    → WaitsIn url id (queue_preparation now url content_type required c)
unfolding queue_preparation
queue_preparation-WaitsIn now url content_type required id c =
    elim (Option-cases (cached_blob url c)) [
      | inl e ↦
          rw (e, queue_preparation) (retry_or_request-WaitsIn now url content_type required id c e)
      | inr (blob, e) ↦ rw (e, queue_preparation) (λ wrong. absurd (ground arith))
    ]

Waiting-joins :
    (now : ℕ) (url content_type : String) (required : Bool) (id : ℕ) (c : MediaCache)
    → Waiting url id c
    → queue_preparation now url content_type required c ≡ (require required id c, when_done id)
unfolding queue_preparation retry_or_request join_or_request
Waiting-joins now url content_type required id c h =
    rw (h.no_blob, queue_preparation)
      (rw (h.no_failure, retry_or_request) (rw (h.found, join_or_request) (rw h.same_id refl)))

-- Where a request for a url waits for a download, the next request for that url, at any time and of any
-- kind, joins it: it gets the same promise, and the cache only notes whether it is required.
pub requests_share :
    (now later id : ℕ) (url content_type other_type : String) (required also : Bool)
    (c : MediaCache)
    → (queue_preparation now url content_type required c).1 ≡ when_done id
    → let d = (queue_preparation now url content_type required c).0 in
      queue_preparation later url other_type also d ≡ (require also id d, when_done id)
requests_share now later id url content_type other_type required also c e =
    Waiting-joins later url other_type also id (queue_preparation now url content_type required c).0
      (queue_preparation-WaitsIn now url content_type required id c e)
