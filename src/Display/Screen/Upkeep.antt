-- ===== src/Display/Screen/Upkeep.antt =====
-- What keeps the display going: the polling in place of the stream, the preventive reload of an
-- iframe, the start and the end.
use kiosk_screen.Prelude.{
  ℕ, ◌+◌, ◌*◌, ◌≡◌, refl, sym, ◌⊎◌, inl, inr, true, false, not, ◌&&◌, none, some, arith, ◌==◌,
  if◌then◌else◌, if_each, Option-cases, is_some, or_default, opt_nat_eq,
}
use kiosk_screen.Display.Payloads.{DisplayState, KioskRegisterResponse}
use kiosk_screen.Display.Viewer.{iframe_active}
use kiosk_screen.Display.MediaCache.Operations.{release_all}
use kiosk_screen.Display.Polling.{
  Poller, opening, polling, finalize_fetch, drop_in_flight, start_polling, retry_open,
}
use kiosk_screen.Display.Polling as Polling
use kiosk_screen.Display.Stream.{Stream, start_with_registration}
use kiosk_screen.Display.Stream as Stream
use kiosk_screen.Display.Screen.Seed.{apply_configuration_state}
use kiosk_screen.Display.Screen.{Screen, viewer_of}

unfoldable pub fallback_poll_interval_ms : Screen → ℕ
fallback_poll_interval_ms s = elim s.state [
  | none ↦ 5000
  | some state ↦ or_default state.configuration.remote_control_polling_seconds 5 * 1000
]

-- The effect of the connection.
unfoldable pub on_connection : ℕ → Screen → Screen
unfolding fallback_poll_interval_ms
on_connection random s =
    if not s.display_active
    then s
    else if s.stream.connected && s.fallback_polling_active
    then record s { fallback_polling_active = false; poller = Polling.stop random s.poller }
    else if not s.stream.connected && s.stream.sse_fallback_active && not s.fallback_polling_active
    then record s {
      fallback_polling_active = true;
      poller = start_polling (fallback_poll_interval_ms s) s.poller;
    }
    else s

-- The effect of the polled state.
unfoldable pub on_polled : ℕ → Screen → Screen
unfolding apply_configuration_state
on_polled now s = elim s.poller.state [
  | none ↦ s
  | some state ↦ if s.fallback_polling_active then apply_configuration_state now state s else s
]

unfoldable pub reconfigure_reload : ℕ → Screen → Screen
reconfigure_reload seconds s = if opt_nat_eq (some seconds) s.armed_reload then s else record s {
  armed_reload = some seconds;
  reload_timer = if seconds == 0 then none else some (seconds * 1000);
}

-- `this.state?.configuration?.iframePreventiveReloadSeconds ?? 0`
abbrev pub configured_reload : Screen → ℕ
configured_reload s = elim s.state [
  | none ↦ 0
  | some state ↦ or_default state.configuration.iframe_preventive_reload_seconds 0
]

-- The effect of the version of the state.
unfoldable pub on_state_changed : Screen → Screen
unfolding reconfigure_reload
on_state_changed s = reconfigure_reload (configured_reload s) s

-- The timer of the reload fires, if it is set.
unfoldable pub reload_tick : Screen → Screen
reload_tick s =
    if is_some s.reload_timer && iframe_active (viewer_of s)
    then record s { reload_nonce = s.reload_nonce + 1 }
    else s

-- The callback of `polling.open`.
unfoldable pub display_opened : ℕ → DisplayState → Screen → Screen
unfolding apply_configuration_state
display_opened now state s =
    let applied = apply_configuration_state now state s in
    record applied { display_active = true; stream = Stream.start applied.stream }

-- The display with a registration whose state has come.
unfoldable pub registration_ready : ℕ → KioskRegisterResponse → DisplayState → Screen → Screen
unfolding apply_configuration_state
registration_ready now registration state s =
    let applied = apply_configuration_state now state s in
    record applied {
      display_active = true;
      stream = start_with_registration registration applied.stream;
    }

unfoldable pub retry_open_display : ℕ → Screen → Screen
retry_open_display random s = record s { poller = retry_open random s.poller }

-- `ngOnDestroy`
unfoldable pub destroy : ℕ → Screen → Screen
destroy random s = record s {
  display_active = false;
  fallback_polling_active = false;
  reload_timer = none;
  poller = Polling.stop random s.poller;
  stream = Stream.stop s.stream;
  cache = release_all s.cache;
}

-- A connected stream has no polling beside it, and a stream that gave up has it.
abbrev pub Settles : Screen → Type 0
Settles t =
    (t.poller.running ≡ t.fallback_polling_active)
    × (t.stream.connected && t.poller.running ≡ false)
    × (not t.stream.connected && t.stream.sse_fallback_active && not t.poller.running ≡ false)

drop_in_flight-running :
    (random : ℕ) (s : Poller) → s.running ≡ false → (drop_in_flight random s).running ≡ false
unfolding drop_in_flight finalize_fetch
drop_in_flight-running random s h = elim (Option-cases s.in_flight) [
  | inl e ↦ rw (e, drop_in_flight) h
  | inr (opening, e) ↦ rw (e, drop_in_flight) h
  | inr (polling, e) ↦ rw (e, drop_in_flight) (ground arith)
]

stop-running : (random : ℕ) (s : Poller) → (Polling.stop random s).running ≡ false
unfolding Polling.stop
stop-running random s =
    drop_in_flight-running random
      (record s { running = false; poll_timer = none; open_retry_timer = none }) refl

-- While the display is active and its mark tells whether the polling runs, both are so once the
-- effect of the connection has run: the mark still tells it, no polling runs beside a connected
-- stream, and one runs in the place of a stream that gave up.
pub on_connection_lem :
    (random : ℕ) (s : Screen)
    → s.display_active ≡ true
    → s.poller.running ≡ s.fallback_polling_active
    → Settles (on_connection random s)
unfolding on_connection start_polling
on_connection_lem random s h agree =
    if_each Settles (not s.display_active) (λ off. absurd (ground arith))
      λ on.
        if_each Settles (s.stream.connected && s.fallback_polling_active)
          (λ back. ground (arith, stop-running random s.poller))
          λ apart.
            if_each Settles
              (not s.stream.connected
                && s.stream.sse_fallback_active
                && not s.fallback_polling_active)
              (λ gone. ground arith) (λ fine. ground arith)

-- The timer is that of the period that was armed last.
abbrev pub IsReloading : Screen → Type 0
IsReloading s =
    (s.armed_reload ≡ none)
    ⊎ ((n : ℕ) × (s.armed_reload ≡ some n)
        × (s.reload_timer ≡ (if n == 0 then none else some (n * 1000))))

reconfigure_reload_lem :
    (seconds : ℕ) (s : Screen)
    → IsReloading s
    → (reconfigure_reload seconds s).reload_timer
      ≡ (if seconds == 0 then none else some (seconds * 1000))
unfolding reconfigure_reload
reconfigure_reload_lem seconds s h =
    if_each
      (λ (t : Screen). t.reload_timer ≡ (if seconds == 0 then none else some (seconds * 1000)))
      (opt_nat_eq (some seconds) s.armed_reload)
      (λ same. elim h [
        | inl e ↦ absurd (ground (arith, e))
        | inr (n, e, timer) ↦ let equal : n ≡ seconds = ground (arith, e) in rw (sym equal) timer
      ])
      (λ other. refl)

-- Where the timer of the reload is that of the period that was armed last, if any was, it is that
-- of the configured period once the effect of the state has run: none for 0, and as many seconds
-- as configured if not.
pub on_state_changed_reloads :
    (s : Screen)
    → IsReloading s
    → let seconds = configured_reload s in
      (on_state_changed s).reload_timer ≡ (if seconds == 0 then none else some (seconds * 1000))
unfolding on_state_changed
on_state_changed_reloads s h = reconfigure_reload_lem (configured_reload s) s h
