-- ===== src/Admin/ContentStream/Tests.antt =====
-- A stream that opens, is lost for half a minute and comes back during a drag.
use kiosk_screen.Prelude.{◌≡◌, refl, true, false, some, List, [], ◌∷◌}
use kiosk_screen.Admin.ContentStream.{
  ContentStream, initial_content_stream, start_stream, open_source, close_source, clear_stale_timer,
  source_opened, source_failed, arm_stale_timer, stale_timer_fired, set_drag_deferred,
  handle_inventory_signal, handle_now_playing,
}
use kiosk_screen.Admin.ContentStream.Runs.{
  AdminEvent, started_for, opened_source, failed_source, timed_out, dragging, inventory_signalled,
  now_playing, admin_step, admin_run, admin_run-IsFresh,
}
use kiosk_screen.Admin.ContentStream.Fresh.{IsFresh}
use kiosk_screen.Admin.ContentStream.Dragging.{signals, drag_coalesces}

abbrev lost_stream : List AdminEvent
lost_stream = started_for true ∷ opened_source ∷ failed_source ∷ timed_out ∷ []

abbrev regained : List AdminEvent
regained =
    started_for true
    ∷ opened_source
    ∷ now_playing (some (some "a", some "A"))
    ∷ failed_source
    ∷ timed_out
    ∷ dragging true
    ∷ opened_source
    ∷ inventory_signalled
    ∷ dragging false
    ∷ []

stale_then_fresh :
    ((admin_run initial_content_stream lost_stream).stale ≡ true)
    × ((admin_run initial_content_stream regained).stale ≡ false)
    × ((admin_run initial_content_stream regained).raised ≡ 2)
unfolding admin_step start_stream open_source close_source clear_stale_timer source_opened
    source_failed arm_stale_timer stale_timer_fired set_drag_deferred handle_inventory_signal
    handle_now_playing
stale_then_fresh = (refl, refl, refl)

admin_run-IsFresh_example : IsFresh (admin_run initial_content_stream regained)
admin_run-IsFresh_example = admin_run-IsFresh regained

abbrev listening : ContentStream
listening = record initial_content_stream {
  started = true;
  event_source = true;
  connected = true;
  had_open = true;
}

drag_coalesces_example :
    let t = set_drag_deferred false (signals 3 (set_drag_deferred true listening)) in
    (t.raised ≡ 1) × (t.pending_while_drag ≡ false)
drag_coalesces_example = drag_coalesces 3 listening refl refl
