-- ===== src/Admin/ContentStream.antt =====
-- The stream of the administration: frontend/src/app/features/content/admin-content-stream.service.ts.
-- `raised` counts the calls of `inventorySubject.next()`, which rxjs debounces; `verifications` the
-- runs of `verifyAuthOrRedirect` that wait for the server.
pub mod Fresh
pub mod Runs
pub mod Dragging
mod Tests
use kiosk_screen.Prelude.{
  ℕ, ◌+◌, ◌-◌, String, Bool, true, false, not, ◌&&◌, ◌||◌, Option, none, some, List, [], ◌∷◌, ◌++◌,
  ◌==◌, if◌then◌else◌, truthy,
}

pub record ContentStream : Type 0 where
  pub drag_deferred : Bool
  pub connected : Bool
  pub stale : Bool
  pub now_playing_content_id : Option String
  pub now_playing_title : Option String
  pub event_source : Bool
  pub started : Bool
  pub had_open : Bool
  pub pending_while_drag : Bool
  pub stale_timer : Bool
  pub raised : ℕ
  pub verifications : ℕ
  pub navigations : List String

abbrev pub initial_content_stream : ContentStream
initial_content_stream = record {
  drag_deferred = false;
  connected = false;
  stale = false;
  now_playing_content_id = none;
  now_playing_title = none;
  event_source = false;
  started = false;
  had_open = false;
  pending_while_drag = false;
  stale_timer = false;
  raised = 0;
  verifications = 0;
  navigations = [];
}

unfoldable pub clear_stale_timer : ContentStream → ContentStream
clear_stale_timer s = record s { stale_timer = false; stale = false }

unfoldable pub mark_fresh : ContentStream → ContentStream
unfolding clear_stale_timer
mark_fresh s = clear_stale_timer s

unfoldable pub close_source : ContentStream → ContentStream
unfolding clear_stale_timer
close_source s = clear_stale_timer (record s { event_source = false })

unfoldable pub open_source : ContentStream → ContentStream
unfolding close_source
open_source s = record (close_source s) { event_source = true }

-- `user` tells whether the service of the session has one.
unfoldable pub start_stream : Bool → ContentStream → ContentStream
unfolding open_source
start_stream user s = if s.started || not user then s else open_source (record s { started = true })

unfoldable pub stop_stream : ContentStream → ContentStream
unfolding close_source
stop_stream s =
    let closed =
      close_source (record s { started = false; had_open = false; pending_while_drag = false }) in
    record closed {
      connected = false;
      stale = false;
      now_playing_content_id = none;
      now_playing_title = none;
    }

abbrev pub raise : ContentStream → ContentStream
raise s = record s { raised = s.raised + 1 }

unfoldable pub set_drag_deferred : Bool → ContentStream → ContentStream
set_drag_deferred deferred s =
    if not deferred && s.pending_while_drag
    then raise (record s { drag_deferred = deferred; pending_while_drag = false })
    else record s { drag_deferred = deferred }

unfoldable pub handle_inventory_signal : ContentStream → ContentStream
handle_inventory_signal s =
    if s.drag_deferred then record s { pending_while_drag = true } else raise s

-- `source.onopen`
unfoldable pub source_opened : ContentStream → ContentStream
unfolding clear_stale_timer
source_opened s =
    let fresh = clear_stale_timer (record s { connected = true }) in
    record (if s.had_open then raise fresh else fresh) { had_open = true }

unfoldable pub arm_stale_timer : ContentStream → ContentStream
arm_stale_timer s = if s.stale_timer || s.stale then s else record s { stale_timer = true }

-- `source.onerror`
unfoldable pub source_failed : ContentStream → ContentStream
unfolding arm_stale_timer
source_failed s =
    if not s.started
    then record s { connected = false }
    else (let armed = arm_stale_timer (record s { connected = false }) in
        record armed { verifications = armed.verifications + 1 })

-- The payload is none where its text is no JSON.
unfoldable pub handle_now_playing :
    Option (Option String × Option String) → ContentStream → ContentStream
handle_now_playing none s = record s { now_playing_content_id = none; now_playing_title = none }
handle_now_playing (some (content_id, title)) s = record s {
  now_playing_content_id = content_id;
  now_playing_title = if truthy content_id then title else none;
}

-- The timer fires, if it is armed.
unfoldable pub stale_timer_fired : ContentStream → ContentStream
stale_timer_fired s =
    if not s.stale_timer
    then s
    else if not s.connected && s.started
    then record s { stale_timer = false; stale = true }
    else record s { stale_timer = false }

-- A waiting `verifyAuthOrRedirect` goes on; `known` tells whether there is a user.
unfoldable pub auth_verification_over : Bool → ContentStream → ContentStream
unfolding stop_stream
auth_verification_over known s =
    if s.verifications == 0
    then s
    else (let over = record s { verifications = s.verifications - 1 } in
        if known
        then over
        else record (stop_stream over) { navigations = s.navigations ++ "/login" ∷ [] })
