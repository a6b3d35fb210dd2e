-- ===== src/Display/PreloadReady/Runs.antt =====
-- What was reported was posted, and is posted once.
use kiosk_screen.Prelude.{
  ℕ, if◌then◌else◌, String, ◌≡◌, refl, ◌⊎◌, inl, inr, Bool, true, not, ◌||◌, Option, some, List, [],
  ◌∷◌, ◌++◌, arith, eq_iff, str_eq, if_both, Option-cases, truthy, get_elem?, filter, All,
  All-append, All-of_filter, All-mono, set_has, set_has-append, set_has-set_add, remove_at,
}
use kiosk_screen.Display.Payloads.{PreloadItem}
use kiosk_screen.Display.MediaCache.{
  MediaCache, MediaCacheReadyState, idle, downloading, ready, failed, get_ready_state,
}
use kiosk_screen.Display.NoveltyQueue.{is_novelty_item}
use kiosk_screen.Display.PreloadReady.{
  PreloadReady, initial_preload_ready, report_ready, report_in_state, report_when_ready,
  report_each, ids_of_novelties, observe_novelties, reset_session, ready_wait_over, post_answered,
  PreloadEvent, observed, session_reset, wait_over, post_over, preload_step, preload_run,
}

-- What counts as reported was posted.
abbrev pub WasPosted : PreloadReady → Type 0
WasPosted p = All (λ k. set_has p.posted k ≡ true) p.reported

posted-more :
    (id : String) (posted : List String) (ks : List String)
    → All (λ k. set_has posted k ≡ true) ks
    → All (λ k. set_has (posted ++ id ∷ []) k ≡ true) ks
posted-more id posted ks =
    All-mono _ _ ks λ k h. ground (arith, h, set_has-append posted (id ∷ []) k)

report_ready-WasPosted :
    (allowed : Bool) (kiosk : Option String) (id : String) (p : PreloadReady)
    → WasPosted p
    → WasPosted (report_ready allowed kiosk id p)
unfolding report_ready
report_ready-WasPosted allowed kiosk id p h =
    let more = posted-more id p.posted p.reported h in
    if_both WasPosted (not allowed || set_has p.reported id || not (truthy kiosk)) h (
      if_both (All (λ k. set_has (p.posted ++ id ∷ []) k ≡ true)) (set_has p.reported id) more (
        All-append (λ k. set_has (p.posted ++ id ∷ []) k ≡ true) p.reported (id ∷ []) more
          (ground (arith, set_has-append p.posted (id ∷ []) id, eq_iff id id), tt)))

report_in_state-WasPosted :
    (now : ℕ) (allowed : Bool) (kiosk : Option String) (item : PreloadItem)
    (state : MediaCacheReadyState) (c : MediaCache) (p : PreloadReady)
    → WasPosted p
    → WasPosted (report_in_state now allowed kiosk item state (c, p)).1
unfolding report_in_state
report_in_state-WasPosted now allowed kiosk item idle c p h = h
report_in_state-WasPosted now allowed kiosk item downloading c p h = h
report_in_state-WasPosted now allowed kiosk item ready c p h =
    report_ready-WasPosted allowed kiosk item.content_id p h
report_in_state-WasPosted now allowed kiosk item failed c p h = h

report_when_ready-WasPosted :
    (now : ℕ) (allowed : Bool) (kiosk : Option String) (item : PreloadItem) (c : MediaCache)
    (p : PreloadReady)
    → WasPosted p
    → WasPosted (report_when_ready now allowed kiosk item (c, p)).1
unfolding report_when_ready
report_when_ready-WasPosted now allowed kiosk item c p h =
    if_both (λ (s : MediaCache × PreloadReady). WasPosted s.1)
      (not allowed || set_has p.reported item.content_id) h
      (report_in_state-WasPosted now allowed kiosk item (get_ready_state (some item.media_url) c) c
        p h)

report_each-WasPosted :
    (now : ℕ) (allowed : Bool) (kiosk : Option String) (items : List PreloadItem)
    (s : MediaCache × PreloadReady)
    → WasPosted s.1
    → WasPosted (report_each now allowed kiosk items s).1
unfolding report_each
report_each-WasPosted now allowed kiosk [] s h = h
report_each-WasPosted now allowed kiosk (item ∷ items) s h =
    report_each-WasPosted now allowed kiosk items (report_when_ready now allowed kiosk item s)
      (report_when_ready-WasPosted now allowed kiosk item s.0 s.1 h)

preload_step-WasPosted :
    (p : PreloadReady) (e : PreloadEvent) → WasPosted p → WasPosted (preload_step p e)
unfolding preload_step observe_novelties reset_session ready_wait_over post_answered
preload_step-WasPosted p (observed now allowed kiosk c items reconnect) h =
    let ids = ids_of_novelties (filter is_novelty_item items) in
    let pending = All-of_filter (λ k. set_has p.posted k ≡ true) (set_has ids) p.reported h in
    let kept =
      if reconnect
      then filter (λ k. not (set_has ids k)) (filter (set_has ids) p.reported)
      else filter (set_has ids) p.reported in
    if_both (λ (s : MediaCache × PreloadReady). WasPosted s.1) allowed
      (report_each-WasPosted now allowed kiosk (filter is_novelty_item items)
        (c, record p { reported = kept })
        (if_both (All (λ k. set_has p.posted k ≡ true)) reconnect
          (All-of_filter (λ k. set_has p.posted k ≡ true) (λ k. not (set_has ids k))
            (filter (set_has ids) p.reported) pending)
          pending))
      h
preload_step-WasPosted p session_reset h = tt
preload_step-WasPosted p (wait_over i kept allowed kiosk) h =
    elim (Option-cases (get_elem? p.ready_waits i)) [
      | inl e ↦ rw (preload_step, ready_wait_over, e) h
      | inr (item, e) ↦
          rw (preload_step, ready_wait_over, e)
            (if_both WasPosted kept
              (report_ready-WasPosted allowed kiosk item.content_id
                (record p { ready_waits = remove_at i p.ready_waits }) h)
              h)
    ]
preload_step-WasPosted p (post_over i accepted) h =
    elim (Option-cases (get_elem? p.post_flights i)) [
      | inl e ↦ rw (preload_step, post_answered, e) h
      | inr (id, e) ↦
          rw (preload_step, post_answered, e)
            (if_both WasPosted accepted h (
              All-of_filter (λ k. set_has p.posted k ≡ true) (λ j. not (str_eq j id)) p.reported h))
    ]

preload_run_from :
    (es : List PreloadEvent) (p : PreloadReady) → WasPosted p → WasPosted (preload_run p es)
preload_run_from [] p h = h
preload_run_from (e ∷ es) p h =
    preload_run_from es (preload_step p e) (preload_step-WasPosted p e h)

-- After any events, each content that counts as reported was posted to the server.
pub preload_run-WasPosted :
    (es : List PreloadEvent) → WasPosted (preload_run initial_preload_ready es)
preload_run-WasPosted es = preload_run_from es initial_preload_ready tt

reported_refuses :
    (allowed : Bool) (kiosk : Option String) (id : String) (p : PreloadReady)
    → set_has p.reported id ≡ true
    → report_ready allowed kiosk id p ≡ p
unfolding report_ready
reported_refuses allowed kiosk id p h = ground (arith, h)

-- However many waits for one content end with its medium ready, at most one event is posted for
-- it: after the first, which may be refused, the next one posts nothing.
pub ready_reports_once :
    (allowed allowed' : Bool) (kiosk kiosk' : Option String) (id : String) (p : PreloadReady)
    → let q = report_ready allowed kiosk id p in
      (q.posted ≡ p.posted) ⊎ (report_ready allowed' kiosk' id q ≡ q)
unfolding report_ready
ready_reports_once allowed allowed' kiosk kiosk' id p =
    if_both (λ (q : PreloadReady). (q.posted ≡ p.posted) ⊎ (report_ready allowed' kiosk' id q ≡ q))
      (not allowed || set_has p.reported id || not (truthy kiosk)) (inl refl)
      (inr (
        reported_refuses allowed' kiosk' id _
          (ground (arith, set_has-set_add p.reported id id, eq_iff id id))))
