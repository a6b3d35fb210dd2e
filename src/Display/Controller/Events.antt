-- ===== src/Display/Controller/Events.antt =====
-- What can happen to the controller: it is bound or detached, polls, commands, timers that fire, and
-- the server's answers. A run is a sequence of events, each with the time of day.
use kiosk_screen.Prelude.{ℕ, String, Bool, Option, List, [], ◌∷◌}
use kiosk_screen.Display.Item.{DisplayContentItem}
use kiosk_screen.Display.Payloads.{RemoteCommand}
use kiosk_screen.Display.Controller.State.{Controller, fire_empty_queue}
use kiosk_screen.Display.Controller.Advance.{resolve_claim, fire_content_timer, fire_ad_timer}
use kiosk_screen.Display.Controller.Inputs.{KioskControllerInputs, bind_inputs, run_inputs_effect}
use kiosk_screen.Display.Controller.Commands.{
  apply_navigation_command, set_cursor, enter_fixed_mode, exit_fixed_mode, on_video_ended,
  register_content_advance_listener, unsubscribe, detach,
}

pub data Event : Type 0 where
  bound : (Option DisplayContentItem → ℕ) → Event
  polled : KioskControllerInputs → Event
  navigated : RemoteCommand → Option String → Event
  cursor_set : Option String → Bool → Event
  fixed_entered : String → Event
  fixed_exited video_ended content_fired ad_fired empty_fired : Event
  answered : Bool → Event
  registered unsubscribed : ℕ → Event
  detached : Event

unfoldable pub step : Controller → ℕ × Event → Controller
step s (now, bound durations) = bind_inputs durations s
step s (now, polled inputs) = run_inputs_effect now inputs s
step s (now, navigated command id) = apply_navigation_command now command id s
step s (now, cursor_set id is_regular) = set_cursor id is_regular s
step s (now, fixed_entered id) = enter_fixed_mode id s
step s (now, fixed_exited) = exit_fixed_mode now s
step s (now, video_ended) = on_video_ended s
step s (now, content_fired) = fire_content_timer now s
step s (now, ad_fired) = fire_ad_timer s
step s (now, empty_fired) = fire_empty_queue now s
step s (now, answered claimed) = resolve_claim now claimed s
step s (now, registered listener) = register_content_advance_listener listener s
step s (now, unsubscribed listener) = unsubscribe listener s
step s (now, detached) = detach s

pub run : Controller → List (ℕ × Event) → Controller
run s [] = s
run s (e ∷ es) = run (step s e) es

-- What every event keeps holds after every run.
pub run_induction {ℓ} :
    (P : Controller → Type ℓ)
    → ((s : Controller) (e : ℕ × Event) → P s → P (step s e))
    → (s : Controller) (es : List (ℕ × Event)) → P s
    → P (run s es)
unfolding run
run_induction P keep s [] h = h
run_induction P keep s (e ∷ es) h = run_induction P keep (step s e) es (keep s e h)
