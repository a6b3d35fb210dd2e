-- ===== src/Display/Stream/Session.antt =====
-- The session of the stream: the fallback stands in only while the stream is down.
use kiosk_screen.Prelude.{
  ℕ, String, ◌≡◌, refl, ◌⊎◌, inl, inr, Bool, true, false, Option, List, [], ◌∷◌, arith,
  if◌then◌else◌, if_both, if_each, is_some,
}
use kiosk_screen.Display.Payloads.{KioskRegisterResponse}
use kiosk_screen.Display.Stream.{
  Stream, Envelope, initial_stream, start, registered, start_with_registration, stop, on_open,
  verify_auth, on_error, fire_fallback_timer, handle_fatal_auth_error, auth_verified,
  handle_message,
}

pub data SessionEvent : Type 0 where
  asked_start stopped source_opened source_failed fallback_fired : SessionEvent
  was_registered started_with : KioskRegisterResponse → SessionEvent
  verified : Bool → SessionEvent
  received : Envelope → SessionEvent

-- A source that is closed calls nothing.
abbrev pub if_open : (Stream → Stream) → Stream → Stream
if_open f s = if is_some s.event_source then f s else s

unfoldable pub session_step : Stream → ℕ × SessionEvent → Stream
session_step s (now, asked_start) = start s
session_step s (now, stopped) = stop s
session_step s (now, source_opened) = if_open on_open s
session_step s (now, source_failed) = if_open (on_error now) s
session_step s (now, fallback_fired) = fire_fallback_timer s
session_step s (now, was_registered r) = registered r s
session_step s (now, started_with r) = start_with_registration r s
session_step s (now, verified has_user) = auth_verified has_user s
session_step s (now, received e) = if_open (handle_message e) s

abbrev pub session_run : Stream → List (ℕ × SessionEvent) → Stream
session_run s [] = s
session_run s (e ∷ es) = session_run (session_step s e) es

pub record Consistent (connected fallback timer : Bool) (source : Option String) : Type 0 where
  pub timed : (timer ≡ false) ⊎ (is_some source ≡ true)
  pub instead : (connected ≡ false) ⊎ ((fallback ≡ false) × (timer ≡ false))
  pub sourced : (connected ≡ false) ⊎ (is_some source ≡ true)

abbrev pub IsConsistent : Stream → Type 0
IsConsistent s = Consistent s.connected s.sse_fallback_active s.fallback_timer s.event_source

start-IsConsistent : (s : Stream) → IsConsistent s → IsConsistent (start s)
unfolding start
start-IsConsistent s h = if_both IsConsistent s.started h h

start_with_registration-IsConsistent :
    (r : KioskRegisterResponse) (s : Stream)
    → IsConsistent s
    → IsConsistent (start_with_registration r s)
unfolding start_with_registration
start_with_registration-IsConsistent r s h = record {
  timed = inl refl;
  instead = ground (arith, h.instead);
  sourced = inr refl;
}

stop-IsConsistent : (s : Stream) → IsConsistent (stop s)
unfolding stop
stop-IsConsistent s = record { timed = inl refl; instead = inl refl; sourced = inl refl }

on_open-IsConsistent : (s : Stream) → is_some s.event_source ≡ true → IsConsistent (on_open s)
unfolding on_open
on_open-IsConsistent s is_open = record {
  timed = inl refl;
  instead = inr (refl, refl);
  sourced = inr is_open;
}

-- With a source that is open and not connected everything else is free.
down-IsConsistent :
    (s : Stream) → is_some s.event_source ≡ true → s.connected ≡ false → IsConsistent s
down-IsConsistent s is_open down = record {
  timed = inr is_open;
  instead = inl down;
  sourced = inl down;
}

on_error-IsConsistent :
    (now : ℕ) (s : Stream) → is_some s.event_source ≡ true → IsConsistent (on_error now s)
unfolding on_error verify_auth
on_error-IsConsistent now s is_open =
    down-IsConsistent (on_error now s) (ground arith) (ground arith)

fire_fallback_timer-IsConsistent :
    (s : Stream) → IsConsistent s → IsConsistent (fire_fallback_timer s)
unfolding fire_fallback_timer
fire_fallback_timer-IsConsistent s h =
    if_each IsConsistent s.fallback_timer
      (λ armed. record {
        timed = inl refl;
        instead = ground (arith, h.instead, armed);
        sourced = h.sourced;
      })
      (λ idle. h)

auth_verified-IsConsistent :
    (has_user : Bool) (s : Stream) → IsConsistent s → IsConsistent (auth_verified has_user s)
unfolding auth_verified handle_fatal_auth_error
auth_verified-IsConsistent true s h = h
auth_verified-IsConsistent false s h = record {
  timed = inl refl;
  instead = inl refl;
  sourced = inl refl;
}

handle_message-IsConsistent :
    (e : Envelope) (s : Stream) → IsConsistent s → IsConsistent (handle_message e s)
unfolding handle_message
handle_message-IsConsistent e s h = ground (arith, h)

if_open-IsConsistent :
    (f : Stream → Stream) (s : Stream)
    → (is_some s.event_source ≡ true → IsConsistent (f s))
    → IsConsistent s
    → IsConsistent (if_open f s)
if_open-IsConsistent f s k h = if_each IsConsistent (is_some s.event_source) k (λ closed. h)

session_step-IsConsistent :
    (s : Stream) (e : ℕ × SessionEvent) → IsConsistent s → IsConsistent (session_step s e)
unfolding session_step registered
session_step-IsConsistent s (now, asked_start) h = start-IsConsistent s h
session_step-IsConsistent s (now, stopped) h = stop-IsConsistent s
session_step-IsConsistent s (now, source_opened) h =
    if_open-IsConsistent on_open s (on_open-IsConsistent s) h
session_step-IsConsistent s (now, source_failed) h =
    if_open-IsConsistent (on_error now) s (on_error-IsConsistent now s) h
session_step-IsConsistent s (now, fallback_fired) h = fire_fallback_timer-IsConsistent s h
session_step-IsConsistent s (now, was_registered r) h = h
session_step-IsConsistent s (now, started_with r) h = start_with_registration-IsConsistent r s h
session_step-IsConsistent s (now, verified has_user) h = auth_verified-IsConsistent has_user s h
session_step-IsConsistent s (now, received e) h =
    if_open-IsConsistent (handle_message e) s (λ is_open. handle_message-IsConsistent e s h) h

session_run_from :
    (es : List (ℕ × SessionEvent)) (s : Stream) → IsConsistent s → IsConsistent (session_run s es)
session_run_from [] s h = h
session_run_from (e ∷ es) s h =
    session_run_from es (session_step s e) (session_step-IsConsistent s e h)

-- After any events, a stream that is connected has an open source, no polling in its place and no timer
-- towards it; and that timer is set only while a source is open.
pub session_run-IsConsistent :
    (es : List (ℕ × SessionEvent)) → IsConsistent (session_run initial_stream es)
session_run-IsConsistent es =
    session_run_from es initial_stream
      (record { timed = inl refl; instead = inl refl; sourced = inl refl })
