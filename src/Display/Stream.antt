-- ===== src/Display/Stream.antt =====
-- frontend/src/app/display/display-stream.service.ts. The `EventSource` is a field while it is open, and what
-- it calls is an event; a registration comes with the answer of the server.
pub mod Session
mod Tests
use kiosk_screen.Prelude.{
  ℕ, ◌-◌, String, Bool, true, false, not, ◌&&◌, ◌||◌, Option, none, some, ltb, if◌then◌else◌,
  or_default, opt_str_eq,
}
use kiosk_screen.Display.Payloads.{KioskRegisterResponse, IframeScaleUpdatedPayload}
use kiosk_screen.Display.IframeScale.{IframeScales, reset, load_for_kiosk, apply_scale_update}

abbrev pub auth_verify_min_ms : ℕ
auth_verify_min_ms = 5000

-- What a message brings, as far as the service reads it. A snapshot is the JSON text of its payload.
pub data Body : Type 0 where
  snapshot_body : String → Body
  scale_body : IframeScaleUpdatedPayload → Body
  ended_body other_body : Body

pub record Envelope : Type 0 where
  pub sequence : Option ℕ
  pub body : Body

pub record Stream : Type 0 where
  pub kiosk_id : Option String
  pub display_device_id : Option String
  pub connected : Bool
  pub reconnecting : Bool
  pub session_ended : Bool
  pub sse_fallback_active : Bool
  pub last_sequence : ℕ
  pub last_event : Option Envelope
  pub event_source : Option String
  pub started : Bool
  pub fallback_timer : Bool
  pub auth_verify_in_flight : Bool
  pub last_auth_verify_at : ℕ
  pub last_applied_snapshot_key : Option String
  pub scales : IframeScales
  pub at_login : Bool

abbrev pub initial_stream : Stream
initial_stream = record {
  kiosk_id = none;
  display_device_id = none;
  connected = false;
  reconnecting = false;
  session_ended = false;
  sse_fallback_active = false;
  last_sequence = 0;
  last_event = none;
  event_source = none;
  started = false;
  fallback_timer = false;
  auth_verify_in_flight = false;
  last_auth_verify_at = 0;
  last_applied_snapshot_key = none;
  scales = reset;
  at_login = false;
}

abbrev pub disconnect : Stream → Stream
disconnect s = record s { event_source = none; fallback_timer = false }

abbrev pub connect : String → Stream → Stream
connect kiosk_id s = record (disconnect s) { event_source = some kiosk_id }

-- `start` up to its first `await`.
unfoldable pub start : Stream → Stream
start s = if s.started then s else record s { started = true }

-- The answer for `register`.
unfoldable pub registered : KioskRegisterResponse → Stream → Stream
registered r s = record s {
  display_device_id = some r.display_device_id;
  scales = load_for_kiosk r.display_device_id s.scales;
}

unfoldable pub start_with_registration : KioskRegisterResponse → Stream → Stream
start_with_registration r s =
    connect r.kiosk_id (record s { started = true; kiosk_id = some r.kiosk_id })

unfoldable pub stop : Stream → Stream
stop s = record (disconnect s) {
  started = false;
  kiosk_id = none;
  display_device_id = none;
  scales = reset;
  connected = false;
  reconnecting = false;
  session_ended = false;
  last_applied_snapshot_key = none;
}

-- `source.onopen`
unfoldable pub on_open : Stream → Stream
on_open s = record s {
  connected = true;
  reconnecting = false;
  sse_fallback_active = false;
  fallback_timer = false;
}

abbrev pub arm_fallback_timer : Stream → Stream
arm_fallback_timer s =
    if s.fallback_timer || s.sse_fallback_active then s else record s { fallback_timer = true }

-- `verifyAuthOrRedirect` up to its `await`.
unfoldable pub verify_auth : ℕ → Stream → Stream
verify_auth now s =
    if ltb (now - s.last_auth_verify_at) auth_verify_min_ms || s.auth_verify_in_flight
    then s
    else record s { last_auth_verify_at = now; auth_verify_in_flight = true }

-- `source.onerror`
unfoldable pub on_error : ℕ → Stream → Stream
on_error now s =
    let off = record s { connected = false } in
    if s.session_ended
    then off
    else verify_auth now (arm_fallback_timer (record off { reconnecting = true }))

unfoldable pub fire_fallback_timer : Stream → Stream
fire_fallback_timer s =
    if s.fallback_timer
    then record s {
      fallback_timer = false;
      sse_fallback_active =
          (not s.connected && s.started && not s.session_ended) || s.sse_fallback_active;
    }
    else s

unfoldable pub handle_fatal_auth_error : Stream → Stream
handle_fatal_auth_error s = record (disconnect s) {
  started = false;
  connected = false;
  reconnecting = false;
  at_login = true;
}

-- The answer of `auth.refresh()`: is there a user?
unfoldable pub auth_verified : Bool → Stream → Stream
auth_verified has_user s = record (if has_user then s else handle_fatal_auth_error s) {
  auth_verify_in_flight = false;
}

abbrev pub noted : Envelope → Stream → Stream
noted e s = record s { last_event = some e; last_sequence = or_default e.sequence s.last_sequence }

unfoldable pub handle_message : Envelope → Stream → Stream
handle_message e s = elim e.body [
  | snapshot_body key ↦
      if opt_str_eq (some key) s.last_applied_snapshot_key
      then s
      else noted e (record s { last_applied_snapshot_key = some key })
  | scale_body payload ↦
      let t = noted e s in record t { scales = apply_scale_update payload t.scales }
  | ended_body ↦ disconnect (record (noted e s) {
    session_ended = true;
    started = false;
    connected = false;
    reconnecting = false;
  })
  | other_body ↦ noted e s
]
