-- ===== src/Admin/ContentStream/Runs.antt =====
-- Runs of the stream of the administration, in any order of its events.
use kiosk_screen.Prelude.{
  String, ◌≡◌, refl, Bool, true, Option, List, [], ◌∷◌, if◌then◌else◌, if_each,
}
use kiosk_screen.Admin.ContentStream.{
  ContentStream, initial_content_stream, mark_fresh, start_stream, stop_stream, set_drag_deferred,
  handle_inventory_signal, source_opened, source_failed, handle_now_playing, stale_timer_fired,
  auth_verification_over,
}
use kiosk_screen.Admin.ContentStream.Fresh.{
  IsFresh, clear_stale_timer-IsFresh, start_stream-IsFresh, stop_stream-IsFresh,
  set_drag_deferred-IsFresh, handle_inventory_signal-IsFresh, source_opened-IsFresh,
  source_failed-IsFresh, handle_now_playing-IsFresh, stale_timer_fired-IsFresh,
  auth_verification_over-IsFresh,
}

pub data AdminEvent : Type 0 where
  started_for : Bool → AdminEvent
  halted freshened inventory_signalled opened_source failed_source timed_out : AdminEvent
  dragging : Bool → AdminEvent
  now_playing : Option (Option String × Option String) → AdminEvent
  auth_answered : Bool → AdminEvent

-- A source that is closed brings nothing.
abbrev pub if_source_open : (ContentStream → ContentStream) → ContentStream → ContentStream
if_source_open f s = if s.event_source then f s else s

unfoldable pub admin_step : ContentStream → AdminEvent → ContentStream
admin_step s (started_for user) = start_stream user s
admin_step s halted = stop_stream s
admin_step s freshened = mark_fresh s
admin_step s inventory_signalled = if_source_open handle_inventory_signal s
admin_step s opened_source = if_source_open source_opened s
admin_step s failed_source = if_source_open source_failed s
admin_step s timed_out = stale_timer_fired s
admin_step s (dragging deferred) = set_drag_deferred deferred s
admin_step s (now_playing payload) = if_source_open (handle_now_playing payload) s
admin_step s (auth_answered known) = auth_verification_over known s

abbrev pub admin_run : ContentStream → List AdminEvent → ContentStream
admin_run s [] = s
admin_run s (e ∷ es) = admin_run (admin_step s e) es

if_source_open-IsFresh :
    (f : ContentStream → ContentStream) (s : ContentStream)
    → (s.event_source ≡ true → IsFresh s → IsFresh (f s))
    → IsFresh s
    → IsFresh (if_source_open f s)
if_source_open-IsFresh f s keeps h =
    if_each IsFresh s.event_source (λ is_open. keeps is_open h) λ closed. h

admin_step-IsFresh : (s : ContentStream) (e : AdminEvent) → IsFresh s → IsFresh (admin_step s e)
unfolding admin_step mark_fresh
admin_step-IsFresh s (started_for user) h = start_stream-IsFresh user s h
admin_step-IsFresh s halted h = stop_stream-IsFresh s
admin_step-IsFresh s freshened h = clear_stale_timer-IsFresh s h
admin_step-IsFresh s inventory_signalled h =
    if_source_open-IsFresh handle_inventory_signal s (handle_inventory_signal-IsFresh s) h
admin_step-IsFresh s opened_source h =
    if_source_open-IsFresh source_opened s (source_opened-IsFresh s) h
admin_step-IsFresh s failed_source h =
    if_source_open-IsFresh source_failed s (λ is_open. source_failed-IsFresh s) h
admin_step-IsFresh s timed_out h = stale_timer_fired-IsFresh s h
admin_step-IsFresh s (dragging deferred) h = set_drag_deferred-IsFresh deferred s h
admin_step-IsFresh s (now_playing payload) h =
    if_source_open-IsFresh (handle_now_playing payload) s (handle_now_playing-IsFresh payload s) h
admin_step-IsFresh s (auth_answered known) h = auth_verification_over-IsFresh known s h

admin_run_from : (es : List AdminEvent) (s : ContentStream) → IsFresh s → IsFresh (admin_run s es)
admin_run_from [] s h = h
admin_run_from (e ∷ es) s h = admin_run_from es (admin_step s e) (admin_step-IsFresh s e h)

-- After any events of the stream of the administration, a connected stream is not stale and no
-- timer runs towards that, a stream that was stopped is off altogether and names no content as
-- playing, and a change is held back only during a drag.
pub admin_run-IsFresh : (es : List AdminEvent) → IsFresh (admin_run initial_content_stream es)
admin_run-IsFresh es = admin_run_from es initial_content_stream (record {
  fresh = refl;
  decided = refl;
  linked = refl;
  stopped = refl;
  silent = refl;
  deferred = refl;
})
