-- ===== src/Display/PreloadReady.antt =====
-- frontend/src/app/display/novelty-preload-ready.service.ts: the server is told once that a novelty is
-- ready. `allowed` is `isPreloadAllowed()` and `kiosk` the id of the kiosk, as the viewer and the
-- stream have them at that time; `posted` are the contents whose event was sent.
pub mod Runs
mod Tests
use kiosk_screen.Prelude.{
  ℕ, ◌+◌, String, Bool, not, ◌||◌, Option, none, some, List, [], ◌∷◌, ◌++◌, if◌then◌else◌, truthy,
  get_elem?, filter, JsSet, set_has, set_add, set_delete, remove_at,
}
use kiosk_screen.Display.Payloads.{PreloadItem}
use kiosk_screen.Display.MediaCache.{
  MediaCache, MediaCacheReadyState, ready, failed, get_ready_state, ensure_ready,
}
use kiosk_screen.Display.NoveltyQueue.{is_novelty_item}

pub record PreloadReady : Type 0 where
  pub reported : JsSet
  pub ready_waits : List PreloadItem
  pub post_flights : List String
  pub posted : List String

abbrev pub initial_preload_ready : PreloadReady
initial_preload_ready = record { reported = []; ready_waits = []; post_flights = []; posted = [] }

-- `reportWhenReady` from where the medium is ready.
unfoldable pub report_ready : Bool → Option String → String → PreloadReady → PreloadReady
report_ready allowed kiosk content_id p =
    if not allowed || set_has p.reported content_id || not (truthy kiosk) then p else record p {
      reported = set_add p.reported content_id;
      post_flights = p.post_flights ++ content_id ∷ [];
      posted = p.posted ++ content_id ∷ [];
    }

-- `reportWhenReady` from the state of the medium: one that is not ready is asked for and awaited.
unfoldable pub report_in_state :
    ℕ
    → Bool
    → Option String
    → PreloadItem
    → MediaCacheReadyState
    → MediaCache × PreloadReady
    → MediaCache × PreloadReady
unfolding report_ready
report_in_state now allowed kiosk item failed (c, p) = (c, p)
report_in_state now allowed kiosk item ready (c, p) =
    (c, report_ready allowed kiosk item.content_id p)
report_in_state now allowed kiosk item _ (c, p) = (
  (ensure_ready now item.media_url item.content_type c).0,
  record p { ready_waits = p.ready_waits ++ item ∷ [] },
)

unfoldable pub report_when_ready :
    ℕ → Bool → Option String → PreloadItem → MediaCache × PreloadReady → MediaCache × PreloadReady
unfolding report_in_state
report_when_ready now allowed kiosk item (c, p) =
    if not allowed || set_has p.reported item.content_id
    then (c, p)
    else report_in_state now allowed kiosk item (get_ready_state (some item.media_url) c) (c, p)

unfoldable pub report_each :
    ℕ
    → Bool
    → Option String
    → List PreloadItem
    → MediaCache × PreloadReady
    → MediaCache × PreloadReady
unfolding report_when_ready
report_each now allowed kiosk [] s = s
report_each now allowed kiosk (item ∷ items) s =
    report_each now allowed kiosk items (report_when_ready now allowed kiosk item s)

abbrev pub ids_of_novelties : List PreloadItem → List String
ids_of_novelties [] = []
ids_of_novelties (x ∷ xs) = x.content_id ∷ ids_of_novelties xs

unfoldable pub observe_novelties :
    ℕ
    → Bool
    → Option String
    → List PreloadItem
    → Bool
    → MediaCache × PreloadReady
    → MediaCache × PreloadReady
unfolding report_each
observe_novelties now allowed kiosk items reconnect (c, p) =
    let novelties = filter is_novelty_item items in
    let pending_ids = ids_of_novelties novelties in
    let pending = filter (set_has pending_ids) p.reported in
    let kept = if reconnect then filter (λ k. not (set_has pending_ids k)) pending else pending in
    if allowed
    then report_each now allowed kiosk novelties (c, record p { reported = kept })
    else (c, p)

unfoldable pub reset_session : PreloadReady → PreloadReady
reset_session p = record p { reported = [] }

-- The i-th wait is over: its medium is ready, or it failed.
unfoldable pub ready_wait_over : ℕ → Bool → Bool → Option String → PreloadReady → PreloadReady
unfolding report_ready
ready_wait_over i kept allowed kiosk p = elim (get_elem? p.ready_waits i) [
  | none ↦ p
  | some item ↦
      let rest = record p { ready_waits = remove_at i p.ready_waits } in
      if kept then report_ready allowed kiosk item.content_id rest else rest
]

-- The i-th post is answered.
unfoldable pub post_answered : ℕ → Bool → PreloadReady → PreloadReady
post_answered i accepted p = elim (get_elem? p.post_flights i) [
  | none ↦ p
  | some content_id ↦
      let rest = record p { post_flights = remove_at i p.post_flights } in
      if accepted then rest else record rest { reported = set_delete p.reported content_id }
]

pub data PreloadEvent : Type 0 where
  observed : ℕ → Bool → Option String → MediaCache → List PreloadItem → Bool → PreloadEvent
  session_reset : PreloadEvent
  wait_over : ℕ → Bool → Bool → Option String → PreloadEvent
  post_over : ℕ → Bool → PreloadEvent

unfoldable pub preload_step : PreloadReady → PreloadEvent → PreloadReady
preload_step p (observed now allowed kiosk c items reconnect) =
    (observe_novelties now allowed kiosk items reconnect (c, p)).1
preload_step p session_reset = reset_session p
preload_step p (wait_over i kept allowed kiosk) = ready_wait_over i kept allowed kiosk p
preload_step p (post_over i accepted) = post_answered i accepted p

abbrev pub preload_run : PreloadReady → List PreloadEvent → PreloadReady
preload_run p [] = p
preload_run p (e ∷ es) = preload_run (preload_step p e) es
