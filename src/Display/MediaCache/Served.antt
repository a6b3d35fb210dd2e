-- ===== src/Display/MediaCache/Served.antt =====
-- What `ensureReady` leaves for the url that it is asked for, and for the others.
use kiosk_screen.Prelude.{
  ℕ, ◌-◌, String, ◌≡◌, refl, ◌∙◌, inl, inr, Bool, true, false, not, ◌&&◌, ◌||◌, List, [], ◌∷◌,
  arith, ltb, if_both, Bool-cases, Option-cases, is_some, map_get, map_get-map_set,
  map_get-map_delete, str_eq, str_eq→eq, if_each, if◌then◌else◌,
}
use mathlib.Core.Path.{subst}
use kiosk_screen.Display.MediaCache.{
  MediaCache, downloading, PreparationRequest, Prepared, is_retained, drain,
  drain_preparation_queue, activate, is_pending, with_request, join_or_request, forget_failure,
  retry_or_request, cached_blob, queue_preparation, ensure_ready, when_done, is_ready,
  retry_cooldown_ms, max_concurrent_downloads,
}
use kiosk_screen.Display.MediaCache.Answers.{drain-SameAnswers, map_get_set_same}

-- The url has a Blob or a failure, or a request for it is on its way; or its medium was found ready.
abbrev pub is_served : String → MediaCache → Bool
is_served url c =
    is_some (cached_blob url c)
    || is_some (map_get c.failure_at_by_url url)
    || is_some (map_get c.pending_by_url url)
    || is_ready (map_get c.ready_state_by_url url)

drain-ready_state :
    (rs : List PreparationRequest) (c : MediaCache)
    → (drain rs c).ready_state_by_url ≡ c.ready_state_by_url
unfolding drain
drain-ready_state [] c = refl
drain-ready_state (r ∷ rs) c =
    let next = if is_pending r c then activate r c else c in
    if_both (λ (d : MediaCache). d.ready_state_by_url ≡ c.ready_state_by_url)
      (ltb c.active_downloads max_concurrent_downloads)
      (drain-ready_state rs next
        ∙ if_both (λ (d : MediaCache). d.ready_state_by_url ≡ c.ready_state_by_url) (is_pending r c)
            refl refl)
      refl

drain-is_served :
    (url : String) (rs : List PreparationRequest) (c : MediaCache)
    → is_served url (drain rs c) ≡ is_served url c
drain-is_served url rs c =
    let (blobs, failures, pending, _) = drain-SameAnswers rs c in
    rw (blobs, failures, pending, drain-ready_state rs c) refl

-- A request for a url serves that url, and leaves the others as they are.
Serves : String → String → MediaCache → MediaCache × Prepared → Type 0
Serves url u c (d, p) =
    (is_served url d ≡ true) × (str_eq url u ≡ false → is_served u d ≡ is_served u c)

with_request-Serves :
    (url content_type u : String) (required : Bool) (c : MediaCache) (p : Prepared)
    → Serves url u c (drain_preparation_queue (with_request url content_type required c), p)
unfolding drain_preparation_queue Serves
with_request-Serves url content_type u required c p =
    let d = with_request url content_type required c in
    let r : PreparationRequest = record {
      id = c.next_id;
      url = url;
      content_type = content_type;
      generation = c.lifecycle_generation;
    } in
    (
      drain-is_served url d.preparation_queue d
          ∙ ground (arith, map_get_set_same c.pending_by_url url r),
      λ other.
          drain-is_served u d.preparation_queue d
          ∙ ground (
            arith,
            other,
            map_get-map_set c.pending_by_url url u r,
            map_get-map_set c.ready_state_by_url url u downloading,
          ),
    )

join_or_request-Serves :
    (url content_type u : String) (required : Bool) (c : MediaCache)
    → Serves url u c (join_or_request url content_type required c)
unfolding join_or_request Serves
join_or_request-Serves url content_type u required c =
    elim (Option-cases (map_get c.pending_by_url url)) [
      | inl e ↦
          rw (e, join_or_request)
            (if_each (Serves url u c)
              (is_ready (map_get c.ready_state_by_url url) && not (is_retained url c))
              (λ found. (ground arith, λ other. refl))
              (λ missing. with_request-Serves url content_type u required c (when_done c.next_id)))
      | inr (existing, e) ↦
          rw (e, join_or_request)
            (if_both (λ (d : MediaCache). Serves url u c (d, when_done existing.id)) required
              (ground (arith, e), λ other. refl) (ground (arith, e), λ other. refl))
    ]

forget_failure-is_served :
    (url u : String) (c : MediaCache)
    → str_eq url u ≡ false
    → is_served u (forget_failure url c) ≡ is_served u c
forget_failure-is_served url u c other = ground (
  arith,
  map_get-map_delete c.failure_at_by_url url u,
  map_get-map_delete c.ready_state_by_url url u,
)

retry_or_request-Serves :
    (now : ℕ) (url content_type u : String) (required : Bool) (c : MediaCache)
    → Serves url u c (retry_or_request now url content_type required c)
unfolding retry_or_request Serves
retry_or_request-Serves now url content_type u required c =
    elim (Option-cases (map_get c.failure_at_by_url url)) [
      | inl e ↦ rw (e, retry_or_request) (join_or_request-Serves url content_type u required c)
      | inr (failed_at, e) ↦
          rw (e, retry_or_request)
            (if_both (Serves url u c) (ltb (now - failed_at) retry_cooldown_ms)
              (ground (arith, e), λ other. refl)
              (let (served, same) =
                  join_or_request-Serves url content_type u required (forget_failure url c) in
                (served, λ other. same other ∙ forget_failure-is_served url u c other)))
    ]

-- After `ensureReady` the url is served, and every other url is as it was.
pub ensure_ready-serves :
    (now : ℕ) (url content_type u : String) (c : MediaCache)
    → let d = (ensure_ready now url content_type c).0 in
      (is_served url d ≡ true) × (str_eq url u ≡ false → is_served u d ≡ is_served u c)
unfolding ensure_ready queue_preparation Serves
ensure_ready-serves now url content_type u c = elim (Option-cases (cached_blob url c)) [
  | inl e ↦ rw (e, queue_preparation) (retry_or_request-Serves now url content_type u true c)
  | inr (blob, e) ↦ rw (e, queue_preparation) (ground (arith, e), λ other. refl)
]

-- What is served stays so, whatever `ensureReady` is asked for.
pub ensure_ready-stays :
    (now : ℕ) (url content_type u : String) (c : MediaCache)
    → is_served u c ≡ true
    → is_served u (ensure_ready now url content_type c).0 ≡ true
ensure_ready-stays now url content_type u c h =
    let (served, same) = ensure_ready-serves now url content_type u c in
    elim (Bool-cases (str_eq url u)) [
      | inl e ↦
          subst (λ (v : String). is_served v (ensure_ready now url content_type c).0 ≡ true)
            (str_eq→eq url u e) served
      | inr e ↦ same e ∙ h
    ]
